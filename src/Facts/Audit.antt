-- ===== src/Facts/Audit.antt =====
-- Audit cards and fact rows: internal/facts/auditcard.go, internal/facts/checkfact.go, and
-- `CheckSufficientReason` of internal/facts/formal.go. The texts of the problems are left out, and
-- so is the YAML file of `AppendAuditCard`.
pub mod Card
pub mod NextId
use dph.Base.{
  ℕ, zero, suc, ◌+◌, ◌-◌, ◌≡◌, Bool, true, false, not, ◌&&◌, ◌||◌, Option, none, some, List, [],
  ◌∷◌, ◌++◌, if◌then◌else◌, ltb, leb, ◌==◌, length, take, drop, cons_some,
}
use dph.Base.Text.{Bytes, codes, str_eq, has_prefix, contains, index_of, is_empty, trim_space}
use dph.Base.Number.{ℤ, pos, negsuc, digits, digits_only, is_digit}
use dph.Base.Decimal.{decimal}
use dph.Facts.Formal.{sort_strings}

-- `Verdict` and `Inference` are strings that a card may hold with any text.
abbrev pub accept_text : Bytes
accept_text = codes "accept"

-- `Verdict.Valid`.
unfoldable pub is_verdict : Bytes → Bool
is_verdict v = str_eq v accept_text || (str_eq v (codes "reject") || str_eq v (codes "weaken"))

-- `Inference.Valid`.
unfoldable pub is_inference : Bytes → Bool
is_inference i =
    str_eq i (codes "deduction")
    || (str_eq i (codes "induction") || (str_eq i (codes "analogy") || str_eq i (codes "other")))

pub record AuditCard : Type 0 where
  pub id : Bytes
  pub date : Bytes
  pub claim : Bytes
  pub premises : List Bytes
  pub inference : Bytes
  pub gaps : List Bytes
  pub counter : Bytes
  pub verdict : Bytes

pub data CardProblem : Type 0 where
  no_claim no_date no_premises : CardProblem
  empty_premise : ℕ → CardProblem
  bad_inference no_counter bad_verdict : CardProblem

abbrev pub problem_if : {P : Type 0} → Bool → P → List P
problem_if b p = if b then p ∷ [] else []

abbrev pub no_texts : List Bytes → Bool
no_texts [] = true
no_texts (p ∷ ps) = false

abbrev pub blank : Bytes → Bool
blank s = is_empty (trim_space s)

unfoldable pub empty_premises : ℕ → List Bytes → List CardProblem
empty_premises i [] = []
empty_premises i (p ∷ ps) = problem_if (blank p) (empty_premise i) ++ empty_premises (suc i) ps

-- `ValidateAuditCard`.
unfoldable pub validate_audit_card : AuditCard → List CardProblem
validate_audit_card c =
    problem_if (blank c.claim) no_claim
    ++ (problem_if (blank c.date) no_date
        ++ (problem_if (no_texts c.premises) no_premises
            ++ (empty_premises 0 c.premises
                ++ (problem_if (not (is_inference c.inference)) bad_inference
                    ++ (problem_if (blank c.counter) no_counter
                        ++ problem_if (not (is_verdict c.verdict)) bad_verdict)))))

-- What `CheckSufficientReason` reports: an accepted card without premises, or with premises that
-- are no facts and no open questions.
pub data ReasonProblem : Type 0 where
  without_premises : List Bytes → ReasonProblem
  bad_premises : List Bytes → List Bytes → ReasonProblem

unfoldable pub is_premise : Bytes → Bool
is_premise p =
    has_prefix (trim_space p) (codes "FACT-") || has_prefix (trim_space p) (codes "OPEN-")

unfoldable pub unfounded : List Bytes → List Bytes
unfounded [] = []
unfounded (p ∷ ps) = let rest = unfounded ps in if is_premise p then rest else p ∷ rest

abbrev pub ids_of : Bytes → List Bytes
ids_of id = if is_empty id then [] else id ∷ []

-- `CheckSufficientReason`.
unfoldable pub check_sufficient_reason : AuditCard → List ReasonProblem
check_sufficient_reason c =
    let bad = unfounded c.premises in
    if not (str_eq c.verdict accept_text)
    then []
    else if no_texts c.premises
    then without_premises (ids_of c.id) ∷ []
    else if not (no_texts bad)
    then bad_premises (ids_of c.id) (sort_strings bad) ∷ []
    else []

-- The number of an id of the form `AUD-(\d+)`, if it is one of 64 bits.
abbrev pub bounded : Option ℕ → Option ℕ
bounded none = none
bounded (some n) = if leb n 9223372036854775807 then some n else none

unfoldable pub audit_number : Bytes → Option ℕ
audit_number id =
    let s = trim_space id in
    if has_prefix s (codes "AUD-") then bounded (digits_only (drop 4 s)) else none

abbrev pub larger : Option ℕ → ℕ → ℕ
larger none m = m
larger (some n) m = if ltb m n then n else m

-- The loop of `NextAuditID`.
unfoldable pub max_number : ℕ → List Bytes → ℕ
max_number m [] = m
max_number m (id ∷ ids) = max_number (larger (audit_number id) m) ids

-- `%04d` on a number that is not negative.
unfoldable pub zeros : ℕ → Bytes
zeros zero = []
zeros (suc n) = b'0' ∷ zeros n

unfoldable pub padded : ℕ → Bytes
padded n = let s = decimal n in zeros (4 - length s) ++ s

-- `NextAuditID`: the sum wraps around at 64 bits.
unfoldable pub next_audit_id : List Bytes → Bytes
next_audit_id ids =
    let m = max_number 0 ids in
    if m == 9223372036854775807
    then codes "AUD--9223372036854775808"
    else codes "AUD-" ++ padded (suc m)

-- `ParseSourceField`: the text before and after the first ` vs `.
abbrev pub split_at : Bytes → Option ℕ → Bytes × Bytes
split_at source none = (trim_space source, [])
split_at source (some i) = (trim_space (take i source), trim_space (drop (i + 4) source))

unfoldable pub parse_source_field : Bytes → Bytes × Bytes
parse_source_field source = split_at source (index_of source (codes " vs "))

pub data RowProblem : Type 0 where
  keeps_vs needs_two_sources needs_two_sides unknown_confidence missing_loc missing_how : RowProblem

unfoldable pub has_pair : Bytes → Bool
has_pair s = contains s (codes " x ")

-- The cases of `conf` in `CheckFactRow`.
unfoldable pub source_problems : Bytes → Bytes → List RowProblem
source_problems source conf =
    let sides = parse_source_field source in
    if str_eq conf (codes "confirmed")
    then problem_if (contains source (codes " vs ")) keeps_vs
      ++ problem_if (not (has_pair source)) needs_two_sources
    else if str_eq conf (codes "hypothesis")
    then problem_if (is_empty sides.1 || (not (has_pair sides.0) || not (has_pair sides.1)))
        needs_two_sides
    else if str_eq conf (codes "partial")
    then []
    else unknown_confidence ∷ []

-- `CheckFactRow`.
unfoldable pub check_fact_row : Bytes → Bytes → Bytes → Bytes → List RowProblem
check_fact_row source loc how conf =
    source_problems source conf
    ++ (problem_if (is_empty loc) missing_loc ++ problem_if (is_empty how) missing_how)
