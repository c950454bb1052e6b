-- ===== src/Rank/Answer.antt =====
-- `Deduce` of internal/brain/rank/escalate.go: when it asks the web.
use dph.Base.{
  ◌≡◌, ◌↔◌, ◌⊎◌, refl, ap, inl, inr, Bool, true, false, Option, none, some, List, [], ◌∷◌, arith,
  All, Bool-cases,
}
use dph.Base.Text.{Bytes, codes, str_eq_iff, is_empty}
use dph.Rank.{Float, Hit, confirmed_fact, none_confirmed, should_escalate, deduce}

module _ (fl : Float) where
  -- A hit that is not of the facts, or is marked as not confirmed.
  abbrev pub Unconfirmed : Hit fl → Type 0
  Unconfirmed h =
      (h.root ≡ codes "facts" → ⊥)
      ⊎ ((h.confidence ≡ codes "hypothesis") ⊎ (h.confidence ≡ codes "partial"))

  confirmed_fact_iff : (h : Hit fl) → (confirmed_fact fl h ≡ false) ↔ Unconfirmed h
  unfolding confirmed_fact
  confirmed_fact_iff h = ground (
    arith,
    str_eq_iff h.root (codes "facts"),
    str_eq_iff h.confidence (codes "hypothesis"),
    str_eq_iff h.confidence (codes "partial"),
  )

  none_confirmed_iff :
      (hits : List (Hit fl)) → (none_confirmed fl hits ≡ true) ↔ All Unconfirmed hits
  unfolding none_confirmed
  none_confirmed_iff [] = (λ e. tt, λ a. refl)
  none_confirmed_iff (h ∷ hits) = ground (arith, confirmed_fact_iff h, none_confirmed_iff hits)

  should_escalate_iff :
      (hits : List (Hit fl)) (root_filter : Bytes)
      → (should_escalate fl hits root_filter ≡ true)
        ↔ ((is_empty root_filter ≡ true) × All Unconfirmed hits)
  unfolding should_escalate
  should_escalate_iff hits root_filter = ground (arith, none_confirmed_iff hits)

  module _ {Second : Type 0} where
    -- There is a web search, and `out` is what it answers.
    abbrev pub Answers : Option (Bytes → Second) → Bytes → Second → Type 0
    Answers none query out = ⊥
    Answers (some web) query out = web query ≡ out

    -- The web is asked exactly if there is a web search, it is not switched off, no root was
    -- asked for and no hit is a confirmed fact; the result is then its answer to the query.
    pub deduce_iff :
        (hits : List (Hit fl)) (query root_filter : Bytes) (no_web : Bool)
        (web : Option (Bytes → Second)) (out : Second)
        → (deduce fl hits query root_filter no_web web ≡ some out) ↔ (
            Answers web query out
            × (no_web ≡ false)
            × (is_empty root_filter ≡ true)
            × All Unconfirmed hits)
    unfolding deduce
    deduce_iff hits query root_filter no_web none out = (λ e. cc, λ r. absurd r.0)
    deduce_iff hits query root_filter true (some web) out = (λ e. cc, λ r. cc (r.1))
    deduce_iff hits query root_filter false (some web) out =
        let e = should_escalate_iff hits root_filter in
        elim (Bool-cases (should_escalate fl hits root_filter)) [
          | inl s ↦ rw s ((λ h. (cc (h), refl, (e.0 s).0, (e.0 s).1), λ r. ap some r.0))
          | inr s ↦ rw s ((λ h. cc, λ r. cc (e.1 (r.2, r.3), s)))
        ]
