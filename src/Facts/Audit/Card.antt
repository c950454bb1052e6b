-- ===== src/Facts/Audit/Card.antt =====
-- The checks of internal/facts/auditcard.go and internal/facts/checkfact.go, and what they report
-- nothing of.
use dph.Base.{
  ℕ, suc, ◌≡◌, ◌↔◌, ◌≢◌, refl, ◌⊎◌, Bool, true, false, not, List, [], ◌∷◌, ◌++◌, arith, All,
}
use dph.Base.Text.{Bytes, codes, str_eq_iff, contains, is_empty}
use dph.Facts.Audit.{
  AuditCard, accept_text, is_verdict, is_inference, no_claim, no_date, no_premises, empty_premise,
  bad_inference, no_counter, bad_verdict, missing_loc, missing_how, keeps_vs, needs_two_sources,
  problem_if, no_texts, blank, empty_premises, validate_audit_card, is_premise, unfounded,
  check_sufficient_reason, parse_source_field, has_pair, source_problems, check_fact_row,
}

append_none : {P : Type 0} (xs ys : List P) → (xs ++ ys ≡ []) ↔ ((xs ≡ []) × (ys ≡ []))
append_none [] ys = (λ e. (refl, e), λ r. r.1)
append_none (x ∷ xs) ys = (λ e. cc, λ r. cc (r.0))

problem_if_none : {P : Type 0} (b : Bool) (p : P) → (problem_if b p ≡ []) ↔ (b ≡ false)
problem_if_none true p = (λ e. cc, λ e. cc)
problem_if_none false p = (λ e. refl, λ e. refl)

abbrev IsFilled : Bytes → Type 0
IsFilled s = blank s ≡ false

both_none :
    {P : Type 0} {A B : Type 0} {xs ys : List P}
    → (xs ≡ []) ↔ A
    → (ys ≡ []) ↔ B
    → (xs ++ ys ≡ []) ↔ (A × B)
both_none {xs = xs} {ys = ys} f g =
    let a = append_none xs ys in (λ e. (f.0 (a.0 e).0, g.0 (a.0 e).1), λ r. a.1 (f.1 r.0, g.1 r.1))

empty_premises_none : (i : ℕ) (ps : List Bytes) → (empty_premises i ps ≡ []) ↔ All IsFilled ps
unfolding empty_premises
empty_premises_none i [] = (λ e. tt, λ a. refl)
empty_premises_none i (p ∷ ps) =
    both_none (problem_if_none (blank p) (empty_premise i)) (empty_premises_none (suc i) ps)

not-false : (b : Bool) → (not b ≡ false) ↔ (b ≡ true)
not-false true = (λ e. refl, λ e. refl)
not-false false = (λ e. cc, λ e. cc)

problem_unless_none : {P : Type 0} (b : Bool) (p : P) → (problem_if (not b) p ≡ []) ↔ (b ≡ true)
problem_unless_none true p = (λ e. refl, λ e. refl)
problem_unless_none false p = (λ e. cc, λ e. cc)

-- A card has no problem exactly if its claim, its date, its counter and each of its premises are
-- more than white space, it has premises, and its inference and verdict are known.
pub validate_audit_card_iff :
    (c : AuditCard)
    → (validate_audit_card c ≡ []) ↔ (
        (blank c.claim ≡ false)
        × ((blank c.date ≡ false)
            × ((no_texts c.premises ≡ false)
                × (All (λ p. blank p ≡ false) c.premises
                    × ((is_inference c.inference ≡ true)
                        × ((blank c.counter ≡ false) × (is_verdict c.verdict ≡ true)))))))
unfolding validate_audit_card
validate_audit_card_iff c = both_none (problem_if_none (blank c.claim) no_claim) (
    both_none (problem_if_none (blank c.date) no_date) (
      both_none (problem_if_none (no_texts c.premises) no_premises) (
        both_none (empty_premises_none 0 c.premises) (
          both_none (problem_unless_none (is_inference c.inference) bad_inference) (
            both_none (problem_if_none (blank c.counter) no_counter)
              (problem_unless_none (is_verdict c.verdict) bad_verdict))))))

unfounded_none :
    (ps : List Bytes) → (no_texts (unfounded ps) ≡ true) ↔ All (λ p. is_premise p ≡ true) ps
unfolding unfounded
unfounded_none [] = (λ e. tt, λ a. refl)
unfounded_none (p ∷ ps) = ground (arith, unfounded_none ps)

-- A card has sufficient reason exactly if it is not accepted, or has premises, each a fact or an
-- open question.
pub check_sufficient_reason_iff :
    (c : AuditCard)
    → (check_sufficient_reason c ≡ []) ↔ (
        (c.verdict ≢ accept_text)
        ⊎ ((no_texts c.premises ≡ false) × All (λ p. is_premise p ≡ true) c.premises))
unfolding check_sufficient_reason
check_sufficient_reason_iff c =
    ground (arith, unfounded_none c.premises, str_eq_iff c.verdict accept_text)

confirmed_none :
    (source : Bytes)
    → (problem_if (contains source (codes " vs ")) keeps_vs
          ++ problem_if (not (has_pair source)) needs_two_sources
        ≡ [])
      ↔ ((contains source (codes " vs ") ≡ false) × (has_pair source ≡ true))
confirmed_none source =
    both_none (problem_if_none (contains source (codes " vs ")) keeps_vs)
      (problem_unless_none (has_pair source) needs_two_sources)

source_problems_none :
    (source conf : Bytes)
    → (source_problems source conf ≡ []) ↔ (
        (conf ≡ codes "partial")
        ⊎ (((conf ≡ codes "confirmed")
              × ((contains source (codes " vs ") ≡ false) × (has_pair source ≡ true)))
            ⊎ ((conf ≡ codes "hypothesis")
                × ((is_empty (parse_source_field source).1 ≡ false)
                    × ((has_pair (parse_source_field source).0 ≡ true)
                        × (has_pair (parse_source_field source).1 ≡ true))))))
unfolding source_problems
source_problems_none source conf = ground (
  arith,
  confirmed_none source,
  str_eq_iff conf (codes "confirmed"),
  str_eq_iff conf (codes "hypothesis"),
  str_eq_iff conf (codes "partial"),
)

-- A row of facts has no problem exactly if it says where and how it was found, and is partial, or
-- confirmed from two sources without a contradiction, or a hypothesis with two sources on each
-- side.
pub check_fact_row_iff :
    (source loc how conf : Bytes)
    → (check_fact_row source loc how conf ≡ []) ↔ (
        ((conf ≡ codes "partial")
          ⊎ (((conf ≡ codes "confirmed")
                × ((contains source (codes " vs ") ≡ false) × (has_pair source ≡ true)))
              ⊎ ((conf ≡ codes "hypothesis")
                  × ((is_empty (parse_source_field source).1 ≡ false)
                      × ((has_pair (parse_source_field source).0 ≡ true)
                          × (has_pair (parse_source_field source).1 ≡ true))))))
        × ((is_empty loc ≡ false) × (is_empty how ≡ false)))
unfolding check_fact_row
check_fact_row_iff source loc how conf = both_none (source_problems_none source conf) (
    both_none (problem_if_none (is_empty loc) missing_loc)
      (problem_if_none (is_empty how) missing_how))
