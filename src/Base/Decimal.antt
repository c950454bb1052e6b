-- ===== src/Base/Decimal.antt =====
-- Decimal printing (`%d` and `strconv.Itoa` on numbers that are not negative), and reading it back.
use Prim.Native.Nat.{ℕ, zero, suc, ◌+◌, ◌-◌, ◌*◌, ◌/◌, ◌%◌, ◌≤◌, ◌<◌}
use mathlib.Core.Path.{◌≡◌, refl, ◌∙◌}
use mathlib.Core.Bool.{Bool, true, false}
use mathlib.Core.List.{[], ◌∷◌}
use mathlib.Core.Option.{some}
use mathlib.Core.Logic.{inl, inr}
use native.Mathlib.Omega.{arith}
use dph.Base.Tests.{ltb, ◌==◌, if◌then◌else◌, Bool-cases}
use dph.Base.Lists.{All}
use dph.Base.Text.{Bytes}
use dph.Base.Number.{pos, is_digit, digits, in_range, atoi}

abbrev pub digit : ℕ → ℕ
digit n = b'0' + n % 10

-- The digits of `n` before `s`; the fuel is any number above `n`.
unfoldable pub decimal_onto : ℕ → ℕ → Bytes → Bytes
decimal_onto zero n s = s
decimal_onto (suc fuel) n s =
    let rest = decimal_onto fuel (n / 10) (digit n ∷ s) in if ltb n 10 then digit n ∷ s else rest

unfoldable pub decimal : ℕ → Bytes
decimal n = decimal_onto (suc n) n []

digits-digit : (acc n : ℕ) (s : Bytes) → digits acc (digit n ∷ s) ≡ digits (10 * acc + n % 10) s
unfolding digits
digits-digit acc n s =
    let d : is_digit (digit n) ≡ true = ground arith in
    let e : 10 * acc + (digit n - b'0') ≡ 10 * acc + n % 10 = omega arith in rw (d, e)

digits-decimal_onto :
    (fuel n : ℕ) (s : Bytes) → n < fuel → digits 0 (decimal_onto fuel n s) ≡ digits n s
unfolding decimal_onto
digits-decimal_onto zero n s h = absurd (omega (arith, h))
digits-decimal_onto (suc fuel) n s h = elim (Bool-cases (ltb n 10)) [
  | inl e ↦ let q : 10 * 0 + n % 10 ≡ n = ground arith in rw e (digits-digit 0 n s ∙ rw q)
  | inr e ↦
      let q : 10 * (n / 10) + n % 10 ≡ n = omega arith in
      let l : n / 10 < fuel = ground arith in
      rw e (digits-decimal_onto fuel (n / 10) (digit n ∷ s) l ∙ digits-digit (n / 10) n s ∙ rw q)
]

-- A printed number is read back.
pub digits-decimal : (n : ℕ) → digits 0 (decimal n) ≡ some n
unfolding decimal digits
digits-decimal n = digits-decimal_onto (suc n) n [] (omega arith)

abbrev pub IsDigit : ℕ → Type 0
IsDigit c = is_digit c ≡ true

decimal_onto-IsDigit :
    (fuel n : ℕ) (s : Bytes) → All IsDigit s → All IsDigit (decimal_onto fuel n s)
unfolding decimal_onto
decimal_onto-IsDigit zero n s a = a
decimal_onto-IsDigit (suc fuel) n s a =
    let d : is_digit (digit n) ≡ true = ground arith in
    elim (Bool-cases (ltb n 10)) [
      | inl e ↦ rw e (d, a)
      | inr e ↦ rw e (decimal_onto-IsDigit fuel (n / 10) (digit n ∷ s) (d, a))
    ]

pub decimal-IsDigit : (n : ℕ) → All IsDigit (decimal n)
unfolding decimal
decimal-IsDigit n = decimal_onto-IsDigit (suc n) n [] tt

abbrev pub is_some_byte : Bytes → Bool
is_some_byte [] = false
is_some_byte (c ∷ s) = true

decimal_onto-some :
    (fuel n : ℕ) (c : ℕ) (s : Bytes) → is_some_byte (decimal_onto fuel n (c ∷ s)) ≡ true
unfolding decimal_onto
decimal_onto-some zero n c s = refl
decimal_onto-some (suc fuel) n c s = elim (Bool-cases (ltb n 10)) [
  | inl e ↦ rw e
  | inr e ↦ rw e (decimal_onto-some fuel (n / 10) (digit n) (c ∷ s))
]

-- A printed number has a digit.
pub decimal_some : (n : ℕ) → is_some_byte (decimal n) ≡ true
unfolding decimal decimal_onto
decimal_some n = elim (Bool-cases (ltb n 10)) [
  | inl e ↦ rw e
  | inr e ↦ rw e (decimal_onto-some n (n / 10) (digit n) [])
]

atoi-digits :
    (s : Bytes) (n : ℕ)
    → All IsDigit s
    → is_some_byte s ≡ true
    → digits 0 s ≡ some n
    → atoi s ≡ in_range false (some n)
unfolding atoi
atoi-digits [] n a e h = cc
atoi-digits (c ∷ s) n a e h =
    let m : (c == b'-') ≡ false = ground (arith, a.0) in
    let p : (c == b'+') ≡ false = ground (arith, a.0) in rw (m, p, h)

-- `Atoi` reads a printed number back, if it is one of 64 bits.
pub atoi-decimal : (n : ℕ) → n ≤ 9223372036854775807 → atoi (decimal n) ≡ some (pos n)
atoi-decimal n l =
    atoi-digits (decimal n) n (decimal-IsDigit n) (decimal_some n) (digits-decimal n) ∙ ground arith
