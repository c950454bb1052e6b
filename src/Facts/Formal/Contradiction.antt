-- ===== src/Facts/Formal/Contradiction.antt =====
-- The reports of `CheckURLContradiction` of internal/facts/formal.go.
use dph.Base.{
  In-cons_some, ◌≡◌, inl, inr, refl, sym, ap, Bool, true, false, Option, none, some, List, [], ◌∷◌,
  ◌++◌, map, arith, In, In-keep, keep-In, In-append_left, In-append_right, Bool-cases,
}
use mathlib.Core.Path.{subst}
use dph.Base.Text.{Bytes, str_lt}
use dph.Base.Sort.{In-sort_by}
use dph.Base.Dict.{pair_eq, lookup, lookup-In, In-lookup}
use dph.Facts.Interval.{intervals_overlap}
use dph.Facts.Formal.Grouping.{
  belongs, positives, negatives, group_facts-Distinct, lookup-group_facts,
}
use dph.Facts.Formal.{
  is_nil, UrlFact, Problem, contradiction, reject, Side, side_or_empty, Groups, problem_less,
  sort_problems, sort_strings, overlaps_any, any_overlap, side_problem, side_problems, group_facts,
  check_contradiction,
}

abbrev overlap : UrlFact → UrlFact → Bool
overlap a b = intervals_overlap a.from a.to b.from b.to

overlaps_any-In :
    (a : UrlFact) (bs : List UrlFact)
    → (overlaps_any a bs ≡ true)
    → (b : UrlFact) × In b bs × (overlap a b ≡ true)
unfolding overlaps_any
overlaps_any-In a [] h = cc
overlaps_any-In a (b ∷ bs) h = elim (Bool-cases (overlap a b)) [
  | inl e ↦ (b, inl refl, e)
  | inr e ↦ let r = overlaps_any-In a bs (ground arith) in (r.0, inr r.1, r.2)
]

In-overlaps_any :
    (a b : UrlFact) (bs : List UrlFact) → In b bs → overlap a b ≡ true → overlaps_any a bs ≡ true
unfolding overlaps_any
In-overlaps_any a b [] m h = absurd m
In-overlaps_any a b (c ∷ bs) (inl e) h = rw (← e, h)
In-overlaps_any a b (c ∷ bs) (inr m) h = ground (arith, In-overlaps_any a b bs m h)

any_overlap-In :
    (ps ns : List UrlFact)
    → any_overlap ps ns ≡ true
    → (a b : UrlFact) × In a ps × In b ns × (overlap a b ≡ true)
unfolding any_overlap
any_overlap-In [] ns h = cc
any_overlap-In (a ∷ ps) ns h = elim (Bool-cases (overlaps_any a ns)) [
  | inl e ↦ let r = overlaps_any-In a ns e in (a, r.0, inl refl, r.1, r.2)
  | inr e ↦ let r = any_overlap-In ps ns (ground arith) in (r.0, r.1, inr r.2, r.3, r.4)
]

In-any_overlap :
    (a b : UrlFact) (ps ns : List UrlFact)
    → In a ps
    → In b ns
    → overlap a b ≡ true
    → any_overlap ps ns ≡ true
unfolding any_overlap
In-any_overlap a b [] ns m n h = absurd m
In-any_overlap a b (c ∷ ps) ns (inl e) n h = ground (arith, In-overlaps_any a b ns n h)
In-any_overlap a b (c ∷ ps) ns (inr m) n h = ground (arith, In-any_overlap a b ps ns m n h)

In-side_problems :
    (p : Problem) (g : (Bytes × Bytes) × Side) (gs : Groups)
    → In g gs
    → side_problem g ≡ some p
    → In p (side_problems gs)
unfolding side_problems
In-side_problems p g [] m e = absurd m
In-side_problems p g (h ∷ gs) (inl q) e = (In-cons_some p (side_problem h) _).1 (inl (rw (← q) e))
In-side_problems p g (h ∷ gs) (inr m) e =
    (In-cons_some p (side_problem h) _).1 (inr (In-side_problems p g gs m e))

side_problems-In :
    (p : Problem) (gs : Groups)
    → In p (side_problems gs)
    → (g : (Bytes × Bytes) × Side) × In g gs × (side_problem g ≡ some p)
unfolding side_problems
side_problems-In p [] m = absurd m
side_problems-In p (h ∷ gs) m = elim ((In-cons_some p (side_problem h) _).0 m) [
  | inl e ↦ (h, inl refl, e)
  | inr n ↦ let r = side_problems-In p gs n in (r.0, inr r.1, r.2)
]

In-is_nil : (a : UrlFact) (fs : List UrlFact) → In a fs → is_nil fs ≡ false
In-is_nil a [] m = absurd m
In-is_nil a (f ∷ fs) m = refl

In-map_id : (f : UrlFact) (fs : List UrlFact) → In f fs → In f.id (map (λ (g : UrlFact). g.id) fs)
In-map_id f [] m = m
In-map_id f (g ∷ fs) (inl e) = inl (ap (λ (g : UrlFact). g.id) e)
In-map_id f (g ∷ fs) (inr m) = inr (In-map_id f fs m)

module _ (canonical : Bytes → Option Bytes) where
  -- Facts `a` and `b` say P and not-P of one URL and attribute, with a common day.
  abbrev pub Contradict : Bytes × Bytes → UrlFact → UrlFact → Type 0
  Contradict k a b =
      (belongs canonical k a ≡ true)
      × (belongs canonical k b ≡ true)
      × (a.neg ≡ false)
      × (b.neg ≡ true)
      × (intervals_overlap a.from a.to b.from b.to ≡ true)

  in_positives :
      (fs : List UrlFact) (k : Bytes × Bytes) (a : UrlFact)
      → In a fs
      → belongs canonical k a ≡ true
      → a.neg ≡ false
      → In a (positives canonical k fs)
  in_positives fs k a m e n = In-keep _ a fs m (ground arith)

  in_negatives :
      (fs : List UrlFact) (k : Bytes × Bytes) (b : UrlFact)
      → In b fs
      → belongs canonical k b ≡ true
      → b.neg ≡ true
      → In b (negatives canonical k fs)
  in_negatives fs k b m e n = In-keep _ b fs m (ground arith)

  -- The side of a reported group.
  side_of :
      (fs : List UrlFact) (k : Bytes × Bytes) (s : Side)
      → lookup k (group_facts canonical [] fs) ≡ some s
      → s ≡ record { pos = positives canonical k fs; neg = negatives canonical k fs }
  side_of fs k s e = rw (e, side_or_empty) at (lookup-group_facts canonical k fs)

  -- The report of a contradiction.
  abbrev Reported : Bytes × Bytes → UrlFact → UrlFact → List Problem → Problem → Type 0
  Reported k a b ps p =
      In p ps × (p.url ≡ k.0) × (p.verdict ≡ reject) × In a.id p.fact_ids × In b.id p.fact_ids

  report_of_side :
      (k : Bytes × Bytes) (s : Side) (a b : UrlFact)
      → In a s.pos
      → In b s.neg
      → intervals_overlap a.from a.to b.from b.to ≡ true
      → (p : Problem) × (side_problem (k, s) ≡ some p)
        × (p.url ≡ k.0)
        × (p.verdict ≡ reject)
        × In a.id p.fact_ids
        × In b.id p.fact_ids
  unfolding side_problem sort_strings
  report_of_side (u, t) s a b ma mb o = (
    record {
      rule = contradiction;
      url = u;
      fact_ids = sort_strings (map (λ (f : UrlFact). f.id) (s.pos ++ s.neg));
      verdict = reject;
    },
    rw (In-is_nil a s.pos ma, In-is_nil b s.neg mb, In-any_overlap a b s.pos s.neg ma mb o),
    refl,
    refl,
    (In-sort_by str_lt a.id _).1 (In-map_id a _ (In-append_left a s.pos s.neg ma)),
    (In-sort_by str_lt b.id _).1 (In-map_id b _ (In-append_right b s.pos s.neg mb)),
  )

  complete_at :
      (fs : List UrlFact) (k : Bytes × Bytes) (a b : UrlFact)
      → In a fs
      → In b fs
      → Contradict k a b
      → (o : Option Side) → lookup k (group_facts canonical [] fs) ≡ o
      → (p : Problem) × Reported k a b (side_problems (group_facts canonical [] fs)) p
  complete_at fs k a b ma mb c none e =
      let q : side_or_empty none
          ≡ record { pos = positives canonical k fs; neg = negatives canonical k fs } =
        rw (e, side_or_empty) at (lookup-group_facts canonical k fs) in
      absurd (subst (In a) (sym (ap (λ (s : Side). s.pos) q)) (in_positives fs k a ma c.0 c.2))
  complete_at fs k a b ma mb c (some s) e =
      let q = side_of fs k s e in
      let r =
        report_of_side k s a b
          (subst (In a) (sym (ap (λ (t : Side). t.pos) q)) (in_positives fs k a ma c.0 c.2))
          (subst (In b) (sym (ap (λ (t : Side). t.neg) q)) (in_negatives fs k b mb c.1 c.3)) c.4 in
      (r.0, (In-side_problems r.0 (k, s) _ (lookup-In k s _ e) r.1, r.2, r.3, r.4, r.5))

  -- Every contradiction is reported under its URL, to be rejected, with the ids of both facts.
  pub check_contradiction_complete :
      (fs : List UrlFact) (k : Bytes × Bytes) (a b : UrlFact)
      → In a fs
      → In b fs
      → Contradict k a b
      → (p : Problem) × In p (check_contradiction canonical fs)
        × (p.url ≡ k.0)
        × (p.verdict ≡ reject)
        × In a.id p.fact_ids
        × In b.id p.fact_ids
  unfolding check_contradiction sort_problems
  check_contradiction_complete fs k a b ma mb c =
      let r = complete_at fs k a b ma mb c (lookup k (group_facts canonical [] fs)) refl in
      (r.0, (In-sort_by problem_less r.0 _).1 r.1.0, r.1.1, r.1.2, r.1.3, r.1.4)

  side_problem-some :
      (p : Problem) (k : Bytes × Bytes) (s : Side)
      → side_problem (k, s) ≡ some p
      → (any_overlap s.pos s.neg ≡ true) × (p.url ≡ k.0)
  unfolding side_problem
  side_problem-some p (u, t) s e = ground arith

  sound_at :
      (fs : List UrlFact) (p : Problem) (k : Bytes × Bytes) (s : Side)
      → In (k, s) (group_facts canonical [] fs)
      → side_problem (k, s) ≡ some p
      → (a b : UrlFact) × In a fs × In b fs × Contradict k a b
  sound_at fs p k s m e =
      let found = In-lookup k s _ (group_facts-Distinct canonical fs [] tt) m in
      let q = side_of fs k s found in
      let r = any_overlap-In s.pos s.neg (side_problem-some p k s e).0 in
      let pa = keep-In _ r.0 fs (subst (In r.0) (ap (λ (t : Side). t.pos) q) r.2) in
      let na = keep-In _ r.1 fs (subst (In r.1) (ap (λ (t : Side). t.neg) q) r.3) in
      (r.0, r.1, pa.0, na.0, (ground arith, ground arith, ground arith, ground arith, r.4))

  -- Every report is of a contradiction between two of the facts, about the reported URL.
  pub check_contradiction_sound :
      (fs : List UrlFact) (p : Problem)
      → In p (check_contradiction canonical fs)
      → (k : Bytes × Bytes) × (a b : UrlFact) × (p.url ≡ k.0) × In a fs × In b fs × Contradict k a b
  unfolding check_contradiction sort_problems
  check_contradiction_sound fs p m =
      let r = side_problems-In p _ ((In-sort_by problem_less p _).0 m) in
      let t = sound_at fs p r.0.0 r.0.1 r.1 r.2 in
      (r.0.0, t.0, t.1, (side_problem-some p r.0.0 r.0.1 r.2).1, t.2, t.3, t.4)
