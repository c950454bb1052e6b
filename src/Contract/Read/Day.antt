-- ===== src/Contract/Read/Day.antt =====
-- The texts that `ValidDay` of internal/contract/read.go accepts.
use dph.Base.{
  ℕ, suc, ◌+◌, ◌-◌, ◌*◌, ◌/◌, ◌%◌, ◌≤◌, ◌<◌, ◌≡◌, ◌↔◌, ◌⊎◌, inl, inr, refl, sym, true, some, [],
  ◌∷◌, arith, length,
}
use mathlib.Core.Path.{subst}
use dph.Base.Text.{Bytes}
use dph.Base.Number.{pos, is_digit, digits, atoi}
use dph.Contract.Read.{all_digits, valid_day}

abbrev digit : ℕ → ℕ
digit n = b'0' + n % 10

abbrev two_digits : ℕ → Bytes
two_digits n = digit (n / 10) ∷ digit n ∷ []

-- The text YYYY-MM-DD.
abbrev pub day_text : ℕ → ℕ → ℕ → Bytes
day_text y m d =
    digit (y / 1000)
    ∷ digit (y / 100)
    ∷ digit (y / 10)
    ∷ digit y
    ∷ b'-'
    ∷ digit (m / 10)
    ∷ digit m
    ∷ b'-'
    ∷ two_digits d

atoi_two :
    (a b : ℕ)
    → is_digit a ≡ true
    → is_digit b ≡ true
    → atoi (a ∷ b ∷ []) ≡ some (pos (10 * (a - 48) + (b - 48)))
unfolding atoi digits
atoi_two a b h k = ground arith

abbrev IsDay : Bytes → Type 0
IsDay s = (y m d : ℕ) × (y < 10000) × (1 ≤ m) × (m ≤ 12) × (1 ≤ d) × (d ≤ 31) × (s ≡ day_text y m d)

valid_parts :
    (a b c d m n e f p q : ℕ)
    → valid_day (a ∷ b ∷ c ∷ d ∷ p ∷ m ∷ n ∷ q ∷ e ∷ f ∷ []) ≡ true
    → (p ≡ b'-')
      × (q ≡ b'-')
      × (is_digit a ≡ true)
      × (is_digit b ≡ true)
      × (is_digit c ≡ true)
      × (is_digit d ≡ true)
      × (is_digit m ≡ true)
      × (is_digit n ≡ true)
      × (is_digit e ≡ true)
      × (is_digit f ≡ true)
unfolding valid_day all_digits
valid_parts a b c d m n e f p q h = ground arith

valid_numbers :
    (a b c d m n e f : ℕ)
    → valid_day (a ∷ b ∷ c ∷ d ∷ b'-' ∷ m ∷ n ∷ b'-' ∷ e ∷ f ∷ []) ≡ true
    → is_digit m ≡ true
    → is_digit n ≡ true
    → is_digit e ≡ true
    → is_digit f ≡ true
    → (1 ≤ 10 * (m - 48) + (n - 48))
      × (10 * (m - 48) + (n - 48) ≤ 12)
      × (1 ≤ 10 * (e - 48) + (f - 48))
      × (10 * (e - 48) + (f - 48) ≤ 31)
unfolding valid_day all_digits
valid_numbers a b c d m n e f h i j k l = ground (arith, atoi_two m n i j, atoi_two e f k l)

is_digit-digit : (n : ℕ) → is_digit (digit n) ≡ true
is_digit-digit n = ground arith

two_digits_value : (n : ℕ) → n < 100 → 10 * (digit (n / 10) - 48) + (digit n - 48) ≡ n
two_digits_value n h = omega (arith, h)

day_text-valid : (y m d : ℕ) → 1 ≤ m → m ≤ 12 → 1 ≤ d → d ≤ 31 → valid_day (day_text y m d) ≡ true
unfolding valid_day all_digits
day_text-valid y m d h i j k =
    let a1 = is_digit-digit (y / 1000) in
    let a2 = is_digit-digit (y / 100) in
    let a3 = is_digit-digit (y / 10) in
    let a4 = is_digit-digit y in
    let m1 = is_digit-digit (m / 10) in
    let m2 = is_digit-digit m in
    let d1 = is_digit-digit (d / 10) in
    let d2 = is_digit-digit d in
    let am = atoi_two (digit (m / 10)) (digit m) m1 m2 in
    let ad = atoi_two (digit (d / 10)) (digit d) d1 d2 in
    let vm = two_digits_value m (omega (arith, i)) in
    let vd = two_digits_value d (omega (arith, k)) in
    rw (a1, a2, a3, a4, m1, m2, d1, d2, am, ad, vm, vd) (ground arith)

digit_bounds : (c : ℕ) → is_digit c ≡ true → (48 ≤ c) × (c ≤ 57)
digit_bounds c h = ground arith

digit_eq : (n c : ℕ) → is_digit c ≡ true → n % 10 ≡ c - 48 → digit n ≡ c
digit_eq n c h e = ground arith

IsDay-of_digits :
    (a b c d m n e f : ℕ)
    → (is_digit a ≡ true)
      × (is_digit b ≡ true)
      × (is_digit c ≡ true)
      × (is_digit d ≡ true)
      × (is_digit m ≡ true)
      × (is_digit n ≡ true)
      × (is_digit e ≡ true)
      × (is_digit f ≡ true)
    → (1 ≤ 10 * (m - 48) + (n - 48))
      × (10 * (m - 48) + (n - 48) ≤ 12)
      × (1 ≤ 10 * (e - 48) + (f - 48))
      × (10 * (e - 48) + (f - 48) ≤ 31)
    → IsDay (a ∷ b ∷ c ∷ d ∷ b'-' ∷ m ∷ n ∷ b'-' ∷ e ∷ f ∷ [])
IsDay-of_digits a b c d m n e f h k =
    let ba = digit_bounds a h.0 in
    let bb = digit_bounds b h.1 in
    let bc = digit_bounds c h.2 in
    let bd = digit_bounds d h.3 in
    let bm = digit_bounds m h.4 in
    let bn = digit_bounds n h.5 in
    let be = digit_bounds e h.6 in
    let bf = digit_bounds f h.7 in
    let y = 1000 * (a - 48) + (100 * (b - 48) + (10 * (c - 48) + (d - 48))) in
    let m' = 10 * (m - 48) + (n - 48) in
    let d' = 10 * (e - 48) + (f - 48) in
    let qa : digit (y / 1000) ≡ a = omega (arith, ba, bb, bc, bd) in
    let qb : digit (y / 100) ≡ b = omega (arith, ba, bb, bc, bd) in
    let qc : digit (y / 10) ≡ c = omega (arith, ba, bb, bc, bd) in
    let qd : digit y ≡ d = omega (arith, ba, bb, bc, bd) in
    let qm : digit (m' / 10) ≡ m = omega (arith, bm, bn) in
    let qn : digit m' ≡ n = omega (arith, bm, bn) in
    let qe : digit (d' / 10) ≡ e = omega (arith, be, bf) in
    let qf : digit d' ≡ f = omega (arith, be, bf) in
    (
      y,
      m',
      d',
      omega (arith, ba, bb, bc, bd),
      k.0,
      k.1,
      k.2,
      k.3,
      rw (qa, qb, qc, qd, qm, qn, qe, qf),
    )

first_byte :
    (n : ℕ) (s : Bytes) → length s ≡ suc n → (x : ℕ) × (t : Bytes) × (s ≡ x ∷ t) × (length t ≡ n)
first_byte n [] h = absurd (omega (arith, h))
first_byte n (x ∷ t) h = (x, t, refl, omega (arith, h))

no_byte : (s : Bytes) → length s ≡ 0 → s ≡ []
no_byte [] h = refl
no_byte (x ∷ s) h = absurd (omega (arith, h))

ten_bytes :
    (s : Bytes)
    → length s ≡ 10
    → (a b c d p m n q e f : ℕ) × (s ≡ a ∷ b ∷ c ∷ d ∷ p ∷ m ∷ n ∷ q ∷ e ∷ f ∷ [])
ten_bytes s h =
    let r0 = first_byte 9 s h in
    let r1 = first_byte 8 r0.1 r0.3 in
    let r2 = first_byte 7 r1.1 r1.3 in
    let r3 = first_byte 6 r2.1 r2.3 in
    let r4 = first_byte 5 r3.1 r3.3 in
    let r5 = first_byte 4 r4.1 r4.3 in
    let r6 = first_byte 3 r5.1 r5.3 in
    let r7 = first_byte 2 r6.1 r6.3 in
    let r8 = first_byte 1 r7.1 r7.3 in
    let r9 = first_byte 0 r8.1 r8.3 in
    let r = no_byte r9.1 r9.3 in
    (
      r0.0,
      r1.0,
      r2.0,
      r3.0,
      r4.0,
      r5.0,
      r6.0,
      r7.0,
      r8.0,
      r9.0,
      cc (r0.2, r1.2, r2.2, r3.2, r4.2, r5.2, r6.2, r7.2, r8.2, r9.2, r),
    )

empty_valid : valid_day [] ≡ true
unfolding valid_day
empty_valid = refl

valid_length : (x : ℕ) (s : Bytes) → valid_day (x ∷ s) ≡ true → length (x ∷ s) ≡ 10
unfolding valid_day
valid_length x s h = ground arith

IsDay-of_ten :
    (a b c d m n e f p q : ℕ)
    → valid_day (a ∷ b ∷ c ∷ d ∷ p ∷ m ∷ n ∷ q ∷ e ∷ f ∷ []) ≡ true
    → IsDay (a ∷ b ∷ c ∷ d ∷ p ∷ m ∷ n ∷ q ∷ e ∷ f ∷ [])
IsDay-of_ten a b c d m n e f p q g =
    let v = valid_parts a b c d m n e f p q g in
    let w = valid_numbers a b c d m n e f (rw (v.0, v.1) at g) v.6 v.7 v.8 v.9 in
    rw (v.0, v.1) (IsDay-of_digits a b c d m n e f (v.2, v.3, v.4, v.5, v.6, v.7, v.8, v.9) w)

IsDay-of_valid : (s : Bytes) → length s ≡ 10 → valid_day s ≡ true → IsDay s
IsDay-of_valid s l h =
    let r = ten_bytes s l in
    subst IsDay (sym r.10) (
      IsDay-of_ten r.0 r.1 r.2 r.3 r.5 r.6 r.8 r.9 r.4 r.7 (subst (λ t. valid_day t ≡ true) r.10 h))

valid_cases : (s : Bytes) → valid_day s ≡ true → (s ≡ []) ⊎ IsDay s
valid_cases [] h = inl refl
valid_cases (x ∷ s) h = inr (IsDay-of_valid (x ∷ s) (valid_length x s h) h)

IsDay-valid : (s : Bytes) → IsDay s → valid_day s ≡ true
IsDay-valid s (y, m, d, b, h, i, j, k, e) = rw (e, day_text-valid y m d h i j k)

-- The texts that `ValidDay` accepts are the empty one and YYYY-MM-DD with a month from 1 to 12 and
-- a day from 1 to 31.
pub valid_day_iff :
    (s : Bytes)
    → (valid_day s ≡ true) ↔ (
        (s ≡ [])
        ⊎ ((y m d : ℕ) × (y < 10000)
            × (1 ≤ m)
            × (m ≤ 12)
            × (1 ≤ d)
            × (d ≤ 31)
            × (s ≡ day_text y m d)))
valid_day_iff s =
    (valid_cases s, λ r. elim r [ inl e ↦ rw (e, empty_valid) | inr q ↦ IsDay-valid s q ])
