-- ===== src/Facts/Audit/NextId.antt =====
-- The id that `NextAuditID` of internal/facts/auditcard.go gives.
use dph.Base.{
  ℕ, zero, suc, ◌-◌, ◌≤◌, ◌<◌, ◌≡◌, refl, ◌∙◌, inl, inr, true, false, Option, none, some, List, [],
  ◌∷◌, ◌++◌, arith, ◌==◌, length, All, All-append, In,
}
use dph.Base.Text.{Bytes, codes, has_prefix}
use dph.Base.Text.Trim.{IsPlain, trim_space_plain}
use dph.Base.Number.{digits, digits_only}
use dph.Base.Decimal.{decimal, digits-decimal, decimal-IsDigit, decimal_some, IsDigit, is_some_byte}
use dph.Facts.Audit.{audit_number, larger, max_number, zeros, padded, next_audit_id}

below_larger : (o : Option ℕ) (m : ℕ) → m ≤ larger o m
below_larger none m = omega arith
below_larger (some n) m = ground arith

number_below_larger : (o : Option ℕ) (n m : ℕ) → o ≡ some n → n ≤ larger o m
number_below_larger none n m e = cc
number_below_larger (some k) n m e = ground arith

below_max : (ids : List Bytes) (m : ℕ) → m ≤ max_number m ids
unfolding max_number
below_max [] m = omega arith
below_max (id ∷ ids) m =
    omega (arith, below_larger (audit_number id) m, below_max ids (larger (audit_number id) m))

number_below_max :
    (id : Bytes) (n : ℕ) (ids : List Bytes) (m : ℕ)
    → In id ids
    → audit_number id ≡ some n
    → n ≤ max_number m ids
unfolding max_number
number_below_max id n [] m i e = absurd i
number_below_max id n (x ∷ ids) m (inr i) e =
    number_below_max id n ids (larger (audit_number x) m) i e
number_below_max id n (x ∷ ids) m (inl q) e =
    let h = number_below_larger (audit_number x) n m (rw (← q) e) in
    omega (arith, h, below_max ids (larger (audit_number x) m))

zeros-IsDigit : (n : ℕ) → All IsDigit (zeros n)
unfolding zeros
zeros-IsDigit zero = tt
zeros-IsDigit (suc n) = (refl, zeros-IsDigit n)

digits-zeros : (n : ℕ) (s : Bytes) → digits 0 (zeros n ++ s) ≡ digits 0 s
unfolding zeros digits
digits-zeros zero s = refl
digits-zeros (suc n) s = digits-zeros n s

padded-IsDigit : (n : ℕ) → All IsDigit (padded n)
unfolding padded
padded-IsDigit n =
    All-append IsDigit (zeros (4 - length (decimal n))) (decimal n) (zeros-IsDigit _)
      (decimal-IsDigit n)

some_after_zeros : (n : ℕ) (s : Bytes) → is_some_byte s ≡ true → is_some_byte (zeros n ++ s) ≡ true
unfolding zeros
some_after_zeros zero s h = h
some_after_zeros (suc n) s h = refl

digits_only_some : (s : Bytes) → is_some_byte s ≡ true → digits_only s ≡ digits 0 s
digits_only_some [] h = cc
digits_only_some (c ∷ s) h = refl

digits_only-padded : (n : ℕ) → digits_only (padded n) ≡ some n
unfolding padded
digits_only-padded n =
    digits_only_some _ (some_after_zeros (4 - length (decimal n)) (decimal n) (decimal_some n))
    ∙ digits-zeros (4 - length (decimal n)) (decimal n)
    ∙ digits-decimal n

digits-IsPlain : (s : Bytes) → All IsDigit s → All IsPlain s
digits-IsPlain [] h = tt
digits-IsPlain (c ∷ s) h = (ground (arith, h.0), digits-IsPlain s h.1)

-- A printed id is read back.
audit_number-padded :
    (n : ℕ) → n ≤ 9223372036854775807 → audit_number (codes "AUD-" ++ padded n) ≡ some n
unfolding audit_number has_prefix
audit_number-padded n l =
    let t =
      trim_space_plain (codes "AUD-" ++ padded n)
        (refl, (refl, (refl, (refl, digits-IsPlain (padded n) (padded-IsDigit n))))) in
    rw (t, digits_only-padded n) (ground arith)

next_number :
    (ids : List Bytes)
    → max_number 0 ids < 9223372036854775807
    → audit_number (next_audit_id ids) ≡ some (suc (max_number 0 ids))
unfolding next_audit_id
next_number ids l =
    let e : (max_number 0 ids == 9223372036854775807) ≡ false = ground arith in
    rw e (audit_number-padded (suc (max_number 0 ids)) (omega arith))

-- The next id has a number above those of all the ids, and is none of them, as long as the numbers
-- stay below the largest integer of 64 bits.
pub next_audit_id_fresh :
    (ids : List Bytes)
    → max_number 0 ids < 9223372036854775807
    → ((id : Bytes) (n : ℕ) → In id ids → audit_number id ≡ some n → n ≤ max_number 0 ids)
      × (audit_number (next_audit_id ids) ≡ some (suc (max_number 0 ids)))
      × (In (next_audit_id ids) ids → ⊥)
next_audit_id_fresh ids l =
    let e = next_number ids l in
    (
      (λ id n i q. number_below_max id n ids 0 i q),
      e,
      λ i. let h = number_below_max (next_audit_id ids) _ ids 0 i e in absurd (omega (arith, h)),
    )
