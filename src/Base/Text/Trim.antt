-- ===== src/Base/Text/Trim.antt =====
-- Trimming texts without bytes of white space.
use Prim.Native.Nat.{ℕ}
use mathlib.Core.Path.{◌≡◌, refl}
use mathlib.Core.Bool.{Bool, true, false, ◌&&◌}
use mathlib.Core.List.{[], ◌∷◌, reverse, reverse-cons, reverse-reverse}
use native.Mathlib.Omega.{arith}
use dph.Base.Tests.{ltb, leb}
use dph.Base.Lists.{All, All-append}
use dph.Base.Text.{Bytes, space2, space3, trim_with, trim_space}

-- An ASCII byte that is no white space.
abbrev pub IsPlain : ℕ → Type 0
IsPlain c = (leb 33 c && ltb c 128) ≡ true

module _ (two : ℕ → ℕ → Bool) (three : ℕ → ℕ → ℕ → Bool) where
  trim_with_plain :
      ((a b : ℕ) → IsPlain a → two a b ≡ false)
      → ((a b c : ℕ) → IsPlain a → three a b c ≡ false)
      → (s : Bytes) → All IsPlain s
      → trim_with two three s ≡ s
  unfolding trim_with
  trim_with_plain t2 t3 [] h = refl
  trim_with_plain t2 t3 (a ∷ []) h = ground (arith, h.0)
  trim_with_plain t2 t3 (a ∷ b ∷ []) h = ground (arith, h.0, t2 a b h.0)
  trim_with_plain t2 t3 (a ∷ b ∷ c ∷ s) h = ground (arith, h.0, t2 a b h.0, t3 a b c h.0)

All-reverse : (s : Bytes) → All IsPlain s → All IsPlain (reverse s)
All-reverse [] h = tt
All-reverse (c ∷ s) h =
    rw (reverse-cons c s) (All-append IsPlain (reverse s) (c ∷ []) (All-reverse s h.1) (h.0, tt))

pub trim_space_plain : (s : Bytes) → All IsPlain s → trim_space s ≡ s
unfolding trim_space
trim_space_plain s h =
    let e : trim_with space2 space3 s ≡ s =
      trim_with_plain space2 space3 (λ a b p. ground arith) (λ a b c p. ground arith) s h in
    let f =
      trim_with_plain (λ a b. space2 b a) (λ a b c. space3 c b a) (λ a b p. ground arith)
        (λ a b c p. ground arith) (reverse s) (All-reverse s h) in
    rw (e, f, reverse-reverse s)
