-- ===== src/Facts/Formal/Report.antt =====
-- The report of `CheckFormal`: what it holds, and its order.
use dph.Base.{
  some, ap, ◌∙◌, In-cons_some, ◌≡◌, ◌↔◌, ◌⊎◌, inl, inr, refl, true, false, Option, List, [], ◌∷◌,
  arith, In, In-append, In-append_left, In-append_right,
}
use mathlib.Core.Path.{subst}
use dph.Base.Text.{Bytes, codes, str_lt_asymm, not_lt_trans, has_prefix}
use dph.Base.Lex.{lex_asymm, lex_not_less_trans}
use dph.Base.Sort.{IsOrder, IsSorted, In-sort_by, sort_by-IsSorted}
use dph.Facts.Formal.{
  weak_problem, Groups, side_problem, side_problems, Spellings, spelling_problem, spelling_problems,
  broken_at, broken_links, Canonical, no_url, bad_url, good_url, canonical_or_err, FormalRule,
  identity, contradiction, UrlFact, Problem, excluded_middle, weaken, rule_name, join_ids,
  problem_less, sort_problems, is_crisp, check_identity, check_contradiction, check_excluded_middle,
  excluded_middle_problems, check_formal,
}

problem_less-IsOrder : IsOrder problem_less
unfolding problem_less
problem_less-IsOrder = record {
  asymm = λ p q h.
      lex_asymm (rule_name p.rule) (rule_name q.rule) _ _
        (lex_asymm p.url q.url _ _ (str_lt_asymm (join_ids p.fact_ids) (join_ids q.fact_ids))) h;
  not_less_trans = λ p q r.
      lex_not_less_trans (rule_name p.rule) (rule_name q.rule) (rule_name r.rule) _ _ _ (
        lex_not_less_trans p.url q.url r.url _ _ _
          (not_lt_trans (join_ids p.fact_ids) (join_ids q.fact_ids) (join_ids r.fact_ids)));
}

abbrev pub weak_fact : UrlFact → Problem
weak_fact f = record { rule = excluded_middle; url = f.url; fact_ids = f.id ∷ []; verdict = weaken }

-- `f` claims to be a fact, and is not crisp.
abbrev pub IsWeak : UrlFact → Type 0
IsWeak f = (has_prefix f.id (codes "FACT-") ≡ true) × (is_crisp f ≡ false)

weak_problem_iff :
    (p : Problem) (f : UrlFact) → (weak_problem f ≡ some p) ↔ (IsWeak f × (p ≡ weak_fact f))
unfolding weak_problem
weak_problem_iff p f = ground arith

In-excluded_middle :
    (p : Problem) (fs : List UrlFact)
    → In p (excluded_middle_problems fs) ↔ ((f : UrlFact) × In f fs × IsWeak f × (p ≡ weak_fact f))
unfolding excluded_middle_problems
In-excluded_middle p [] = (λ m. absurd m, λ r. absurd r.1)
In-excluded_middle p (g ∷ fs) = (
  λ m. elim ((In-cons_some p (weak_problem g) _).0 m) [
    | inl e ↦ (g, inl refl, ((weak_problem_iff p g).0 e).0, ((weak_problem_iff p g).0 e).1)
    | inr n ↦ let r = (In-excluded_middle p fs).0 n in (r.0, inr r.1, r.2, r.3)
  ],
  λ r. (In-cons_some p (weak_problem g) _).1 (elim r.1 [
    | inl e ↦ inl ((weak_problem_iff p g).1 (subst IsWeak e r.2, r.3 ∙ ap weak_fact e))
    | inr n ↦ inr ((In-excluded_middle p fs).1 (r.0, n, r.2, r.3))
  ]),
)

module _ (canonical : Bytes → Option Bytes) where
  -- Lists of problems of one rule.
  abbrev Only : FormalRule → List Problem → Type 0
  Only r ps = (p : Problem) → In p ps → p.rule ≡ r

  contradiction-Only : (gs : Groups) → Only contradiction (side_problems gs)
  unfolding side_problems side_problem
  contradiction-Only [] p m = absurd m
  contradiction-Only (g ∷ gs) p m = elim ((In-cons_some p (side_problem g) _).0 m) [
    | inl e ↦ ground arith
    | inr n ↦ contradiction-Only gs p n
  ]

  spelling-Only : (gs : List (Bytes × Spellings)) → Only identity (spelling_problems gs)
  unfolding spelling_problems spelling_problem
  spelling-Only [] p m = absurd m
  spelling-Only (g ∷ gs) p m = elim ((In-cons_some p (spelling_problem g) _).0 m) [
    | inl e ↦ ground arith
    | inr n ↦ spelling-Only gs p n
  ]

  broken-Only : (fs : List UrlFact) → Only identity (broken_links canonical fs)
  unfolding broken_links
  broken-Only [] p m = absurd m
  broken-Only (f ∷ fs) p m =
      elim ((In-cons_some p (broken_at canonical f (canonical_or_err canonical f)) _).0 m) [
        | inl e ↦ broken_rule (canonical_or_err canonical f) e
        | inr n ↦ broken-Only fs p n
      ]
    where
      broken_rule : (c : Canonical) → broken_at canonical f c ≡ some p → p.rule ≡ identity
      broken_rule no_url e = cc
      broken_rule bad_url e = ground arith
      broken_rule (good_url c) e = cc

  identity-Only : (fs : List UrlFact) → Only identity (check_identity canonical fs)
  unfolding check_identity sort_problems
  identity-Only fs p m =
      elim (In-append p (broken_links canonical fs) _ ((In-sort_by problem_less p _).0 m)) [
        | inl l ↦ broken-Only fs p l
        | inr r ↦ spelling-Only _ p r
      ]

  check_formal-In :
      (fs : List UrlFact) (p : Problem)
      → In p (check_formal canonical fs)
      → In p (check_identity canonical fs)
        ⊎ (In p (check_contradiction canonical fs) ⊎ In p (check_excluded_middle fs))
  unfolding check_formal sort_problems
  check_formal-In fs p m =
      elim (In-append p (check_identity canonical fs) _ ((In-sort_by problem_less p _).0 m)) [
        | inl l ↦ inl l
        | inr r ↦ inr (In-append p (check_contradiction canonical fs) _ r)
      ]

  In-check_formal :
      (fs : List UrlFact) (p : Problem)
      → In p (check_identity canonical fs)
        ⊎ (In p (check_contradiction canonical fs) ⊎ In p (check_excluded_middle fs))
      → In p (check_formal canonical fs)
  unfolding check_formal sort_problems
  In-check_formal fs p (inl l) = (In-sort_by problem_less p _).1 (In-append_left p _ _ l)
  In-check_formal fs p (inr (inl l)) =
      (In-sort_by problem_less p _).1
        (In-append_right p (check_identity canonical fs) _ (In-append_left p _ _ l))
  In-check_formal fs p (inr (inr r)) = (In-sort_by problem_less p _).1 (
      In-append_right p (check_identity canonical fs) _
        (In-append_right p (check_contradiction canonical fs) _ r))

  weak_of_report :
      (fs : List UrlFact) (p : Problem)
      → In p (check_formal canonical fs)
      → p.rule ≡ excluded_middle
      → In p (excluded_middle_problems fs)
  unfolding check_excluded_middle sort_problems check_contradiction
  weak_of_report fs p m e = elim (check_formal-In fs p m) [
    | inl l ↦ cc (identity-Only fs p l)
    | inr (inl l) ↦ cc (contradiction-Only _ p ((In-sort_by problem_less p _).0 l))
    | inr (inr r) ↦ (In-sort_by problem_less p _).0 r
  ]

  -- The reports of the excluded middle are exactly those of the facts that claim to be facts and
  -- are not crisp, each to be weakened.
  pub check_formal-excluded_middle :
      (fs : List UrlFact) (p : Problem)
      → (In p (check_formal canonical fs) × (p.rule ≡ excluded_middle))
        ↔ ((f : UrlFact) × In f fs × IsWeak f × (p ≡ weak_fact f))
  unfolding check_excluded_middle sort_problems
  check_formal-excluded_middle fs p = (
    λ m. (In-excluded_middle p fs).0 (weak_of_report fs p m.0 m.1),
    λ r. (
      In-check_formal fs p
          (inr (inr ((In-sort_by problem_less p _).1 ((In-excluded_middle p fs).1 r)))),
      ap (λ (q : Problem). q.rule) r.3,
    ),
  )

  -- The report is in order of rule, URL and facts.
  pub check_formal-IsSorted :
      (fs : List UrlFact) → IsSorted problem_less (check_formal canonical fs)
  unfolding check_formal sort_problems
  check_formal-IsSorted fs = sort_by-IsSorted problem_less problem_less-IsOrder _
