-- ===== src/Base/Text.antt =====
-- Go strings as lists of bytes: equality, the order of `<` on strings, prefixes and substrings.
pub mod Trim
pub mod Words
use Prim.Native.Char.{code}
use Prim.Native.Nat.{ℕ, suc}
use Prim.Native.String.{String}
use mathlib.Core.Path.{◌≡◌, refl}
use mathlib.Core.Logic.{◌↔◌, inl, inr}
use mathlib.Core.Bool.{Bool, true, false, ◌&&◌, ◌||◌}
use mathlib.Core.List.{List, [], ◌∷◌, reverse}
use mathlib.Core.Option.{Option, none, some}
use native.Mathlib.Omega.{arith}
use dph.Base.Tests.{ltb, leb, ◌==◌, if◌then◌else◌, Bool-cases}

abbrev pub Bytes : Type 0
Bytes = List ℕ

-- The code points of a literal, which are its bytes where the text is ASCII.
abbrev pub codes : String → Bytes
codes String.[] = []
codes (String.◌∷◌ c s) = code c ∷ codes s

-- `a == b` on strings.
unfoldable pub str_eq : Bytes → Bytes → Bool
str_eq [] [] = true
str_eq [] (y ∷ b) = false
str_eq (x ∷ a) [] = false
str_eq (x ∷ a) (y ∷ b) = x == y && str_eq a b

pub str_eq_iff : (a b : Bytes) → (str_eq a b ≡ true) ↔ (a ≡ b)
unfolding str_eq
str_eq_iff [] [] = ground arith
str_eq_iff [] (y ∷ b) = ground arith
str_eq_iff (x ∷ a) [] = ground arith
str_eq_iff (x ∷ a) (y ∷ b) = ground (arith, str_eq_iff a b)

pub str_eq_refl : (a : Bytes) → str_eq a a ≡ true
str_eq_refl a = (str_eq_iff a a).1 refl

-- `a < b` on strings: bytewise, and a proper prefix is smaller.
unfoldable pub str_lt : Bytes → Bytes → Bool
str_lt [] [] = false
str_lt [] (y ∷ b) = true
str_lt (x ∷ a) [] = false
str_lt (x ∷ a) (y ∷ b) = ltb x y || (x == y && str_lt a b)

pub str_lt_irrefl : (a : Bytes) → str_lt a a ≡ false
unfolding str_lt
str_lt_irrefl [] = refl
str_lt_irrefl (x ∷ a) = ground (arith, str_lt_irrefl a)

pub str_lt_asymm : (a b : Bytes) → str_lt a b ≡ true → str_lt b a ≡ false
unfolding str_lt
str_lt_asymm [] [] h = refl
str_lt_asymm [] (y ∷ b) h = refl
str_lt_asymm (x ∷ a) [] h = cc
str_lt_asymm (x ∷ a) (y ∷ b) h = ground (arith, str_lt_asymm a b)

pub str_lt_trans : (a b c : Bytes) → str_lt a b ≡ true → str_lt b c ≡ true → str_lt a c ≡ true
unfolding str_lt
str_lt_trans [] [] c h k = cc
str_lt_trans [] (y ∷ b) [] h k = cc
str_lt_trans [] (y ∷ b) (z ∷ c) h k = refl
str_lt_trans (x ∷ a) [] c h k = cc
str_lt_trans (x ∷ a) (y ∷ b) [] h k = cc
str_lt_trans (x ∷ a) (y ∷ b) (z ∷ c) h k = ground (arith, str_lt_trans a b c)

-- Two different strings are in order one way or the other.
pub str_lt_total : (a b : Bytes) → str_lt a b ≡ false → str_lt b a ≡ false → a ≡ b
unfolding str_lt
str_lt_total [] [] h k = refl
str_lt_total [] (y ∷ b) h k = cc
str_lt_total (x ∷ a) [] h k = cc
str_lt_total (x ∷ a) (y ∷ b) h k = ground (arith, str_lt_total a b)

-- Not-smaller is transitive.
pub not_lt_trans : (a b c : Bytes) → str_lt a b ≡ false → str_lt b c ≡ false → str_lt a c ≡ false
not_lt_trans a b c h k = elim (Bool-cases (str_lt a c)) [
  | inr e ↦ e
  | inl e ↦ elim (Bool-cases (str_lt c b)) [
    | inl l ↦ absurd (cc (str_lt_trans a c b e l))
    | inr m ↦ absurd (cc (str_lt_total b c k m))
  ]
]

-- Membership of a key in a list of keys: the lookups of a Go `map[string]…` used as a set.
unfoldable pub has : List Bytes → Bytes → Bool
has [] k = false
has (x ∷ xs) k = str_eq x k || has xs k

-- `strings.HasPrefix(s, p)`.
unfoldable pub has_prefix : Bytes → Bytes → Bool
has_prefix s [] = true
has_prefix [] (y ∷ p) = false
has_prefix (x ∷ s) (y ∷ p) = x == y && has_prefix s p

-- `strings.Contains(s, p)`.
unfoldable pub contains : Bytes → Bytes → Bool
unfolding has_prefix
contains [] p = has_prefix [] p
contains (x ∷ s) p = has_prefix (x ∷ s) p || contains s p

-- `strings.Index(s, p)`, with `none` for -1.
unfoldable pub index_of : Bytes → Bytes → Option ℕ
unfolding has_prefix
index_of [] p = if has_prefix [] p then some 0 else none
index_of (x ∷ s) p =
    if has_prefix (x ∷ s) p
    then some 0
    else elim (index_of s p) [ none ↦ none | some i ↦ some (suc i) ]

abbrev pub is_empty : Bytes → Bool
is_empty [] = true
is_empty (x ∷ s) = false

-- One byte, two bytes and three bytes that are white space to `unicode.IsSpace`, in UTF-8.
abbrev space1 : ℕ → Bool
space1 a = (leb 9 a && leb a 13) || a == 32

abbrev space2 : ℕ → ℕ → Bool
space2 a b = a == 0xC2 && (b == 0x85 || b == 0xA0)

abbrev space3 : ℕ → ℕ → ℕ → Bool
space3 a b c =
    (a == 0xE1 && b == 0x9A && c == 0x80)
    || (a == 0xE2
        && b == 0x80
        && ((leb 0x80 c && leb c 0x8A) || c == 0xA8 || c == 0xA9 || c == 0xAF))
    || (a == 0xE2 && b == 0x81 && c == 0x9F)
    || (a == 0xE3 && b == 0x80 && c == 0x80)

module _ (two : ℕ → ℕ → Bool) (three : ℕ → ℕ → ℕ → Bool) where
  unfoldable trim_with : Bytes → Bytes
  trim_with [] = []
  trim_with (a ∷ []) = if space1 a then [] else a ∷ []
  trim_with (a ∷ b ∷ []) =
      let rest = trim_with (b ∷ []) in if space1 a then rest else if two a b then [] else a ∷ b ∷ []
  trim_with (a ∷ b ∷ c ∷ s) =
      let rest1 = trim_with (b ∷ c ∷ s) in
      let rest2 = trim_with (c ∷ s) in
      let rest3 = trim_with s in
      if space1 a
      then rest1
      else if two a b
      then rest2
      else if three a b c
      then rest3
      else a ∷ b ∷ c ∷ s

-- `strings.TrimSpace(s)`: the end of the text is the start of the reversed text.
unfoldable pub trim_space : Bytes → Bytes
unfolding trim_with
trim_space s =
    reverse
      (trim_with (λ a b. space2 b a) (λ a b c. space3 c b a) (reverse (trim_with space2 space3 s)))
