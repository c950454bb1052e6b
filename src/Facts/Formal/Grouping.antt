-- ===== src/Facts/Formal/Grouping.antt =====
-- What the groups of `CheckURLContradiction` hold: of each URL and attribute the crisp facts about
-- it, in order, by sign.
use dph.Base.{
  ◌≡◌, inl, inr, refl, Bool, false, not, ◌&&◌, Option, some, List, [], ◌∷◌, ◌++◌, if◌then◌else◌,
  arith, keep, append_assoc, append-nil, Bool-cases,
}
use dph.Base.Text.{Bytes}
use dph.Base.Dict.{
  pair_eq, pair_beq, pair_beq_iff, lookup, lookup-upsert, upsert-Distinct, Distinct,
}
use dph.Facts.Formal.{
  UrlFact, Canonical, no_url, bad_url, good_url, side_or_empty, add_to_side, Groups, group_at,
  is_crisp, canonical_or_err, group_fact, group_facts,
}

module _ (canonical : Bytes → Option Bytes) where
  abbrev pub is_about : Canonical → UrlFact → Bytes × Bytes → Bool
  is_about (good_url c) f k = pair_beq (c, f.attr) k
  is_about no_url f k = false
  is_about bad_url f k = false

  -- The fact is crisp, has a URL that can be made canonical, and makes up key `k` with its
  -- attribute.
  unfoldable pub belongs : Bytes × Bytes → UrlFact → Bool
  belongs k f = is_crisp f && is_about (canonical_or_err canonical f) f k

  lookup-group_at :
      (f : UrlFact) (c : Canonical) (gs : Groups) (k : Bytes × Bytes)
      → lookup k (group_at canonical f c gs)
        ≡ (if is_about c f k then some (add_to_side f (lookup k gs)) else lookup k gs)
  lookup-group_at f no_url gs k = refl
  lookup-group_at f bad_url gs k = refl
  lookup-group_at f (good_url c) gs k =
      ground (arith, lookup-upsert (c, f.attr) k (add_to_side f) gs, pair_beq_iff (c, f.attr) k)

  lookup-group_fact :
      (gs : Groups) (f : UrlFact) (k : Bytes × Bytes)
      → lookup k (group_fact canonical gs f)
        ≡ (if belongs k f then some (add_to_side f (lookup k gs)) else lookup k gs)
  unfolding group_fact belongs
  lookup-group_fact gs f k = elim (Bool-cases (is_crisp f)) [
    | inr e ↦ rw e
    | inl e ↦ rw e (lookup-group_at f (canonical_or_err canonical f) gs k)
  ]

  group_at-Distinct :
      (f : UrlFact) (c : Canonical) (gs : Groups)
      → Distinct gs
      → Distinct (group_at canonical f c gs)
  group_at-Distinct f no_url gs d = d
  group_at-Distinct f bad_url gs d = d
  group_at-Distinct f (good_url c) gs d = upsert-Distinct (c, f.attr) (add_to_side f) gs d

  group_fact-Distinct :
      (gs : Groups) (f : UrlFact) → Distinct gs → Distinct (group_fact canonical gs f)
  unfolding group_fact
  group_fact-Distinct gs f d = elim (Bool-cases (is_crisp f)) [
    | inr e ↦ rw e d
    | inl e ↦ rw e (group_at-Distinct f (canonical_or_err canonical f) gs d)
  ]

  pub group_facts-Distinct :
      (fs : List UrlFact) (gs : Groups) → Distinct gs → Distinct (group_facts canonical gs fs)
  unfolding group_facts
  group_facts-Distinct [] gs d = d
  group_facts-Distinct (f ∷ fs) gs d =
      group_facts-Distinct fs (group_fact canonical gs f) (group_fact-Distinct gs f d)

  abbrev pub positives : Bytes × Bytes → List UrlFact → List UrlFact
  positives k fs = keep (λ f. belongs k f && not f.neg) fs

  abbrev pub negatives : Bytes × Bytes → List UrlFact → List UrlFact
  negatives k fs = keep (λ f. belongs k f && f.neg) fs

  side_step :
      (k : Bytes × Bytes) (f : UrlFact) (gs : Groups)
      → side_or_empty (lookup k (group_fact canonical gs f)) ≡ record {
        pos = (side_or_empty (lookup k gs)).pos ++ positives k (f ∷ []);
        neg = (side_or_empty (lookup k gs)).neg ++ negatives k (f ∷ []);
      }
  unfolding add_to_side
  side_step k f gs = ground (
    arith,
    lookup-group_fact gs f k,
    append-nil (side_or_empty (lookup k gs)).pos,
    append-nil (side_or_empty (lookup k gs)).neg,
  )

  keep-cons :
      (p : UrlFact → Bool) (f : UrlFact) (fs : List UrlFact)
      → keep p (f ∷ fs) ≡ keep p (f ∷ []) ++ keep p fs
  keep-cons p f fs = ground arith

  -- The side kept for key `k` is the earlier side and the facts that belong to `k`.
  side-group_facts :
      (k : Bytes × Bytes) (fs : List UrlFact) (gs : Groups)
      → side_or_empty (lookup k (group_facts canonical gs fs)) ≡ record {
        pos = (side_or_empty (lookup k gs)).pos ++ positives k fs;
        neg = (side_or_empty (lookup k gs)).neg ++ negatives k fs;
      }
  unfolding group_facts
  side-group_facts k [] gs =
      rw
        (append-nil (side_or_empty (lookup k gs)).pos, append-nil (side_or_empty (lookup k gs)).neg)
  side-group_facts k (f ∷ fs) gs = ground (
    arith,
    side-group_facts k fs (group_fact canonical gs f),
    side_step k f gs,
    append_assoc (side_or_empty (lookup k gs)).pos (positives k (f ∷ [])) (positives k fs),
    append_assoc (side_or_empty (lookup k gs)).neg (negatives k (f ∷ [])) (negatives k fs),
    keep-cons (λ g. belongs k g && not g.neg) f fs,
    keep-cons (λ g. belongs k g && g.neg) f fs,
  )

  pub lookup-group_facts :
      (k : Bytes × Bytes) (fs : List UrlFact)
      → side_or_empty (lookup k (group_facts canonical [] fs))
        ≡ record { pos = positives k fs; neg = negatives k fs }
  unfolding lookup
  lookup-group_facts k fs = side-group_facts k fs []
