-- ===== src/Selector/Answers.antt =====
-- Which items Apply of internal/selector/selector.go answers.
use dph.Base.{
  ◌≡◌, refl, sym, ap, ◌∙◌, Bool, true, false, List, [], ◌∷◌, ◌++◌, ◌⊎◌, inl, inr, ◌↔◌, arith, In,
  In-append, In-append_left, In-append_right, Bool-cases, if◌then◌else◌,
}
use dph.Address.{Segment}
use dph.Selector.{
  Item, item, Items, nil, cons, Fields, Step, matches, matching, descendant_match, walk, step_from,
  step_all, steps_all, apply,
}

abbrev pub HasChild : Item → Items → Type 0
HasChild d nil = ⊥
HasChild d (cons c cs) = (d ≡ c) ⊎ HasChild d cs

-- The second item stands somewhere below the first.
pub data Below : Item → Item → Type 0 where
  child : {it : Fields} {cs : Items} {d : Item} → HasChild d cs → Below (item it cs) d
  deeper :
      {it : Fields} {cs : Items} {c d : Item} → HasChild c cs → Below c d → Below (item it cs) d

-- What one step relates: a child or an item below, and one that matches.
abbrev pub Next : Step → Item → Item → Type 0
Next st (item it cs) d =
    ((st.child ≡ true) × HasChild d cs ⊎ (st.child ≡ false) × Below (item it cs) d)
    × (matches st.seg d ≡ true)

-- What the steps relate, one after the other.
pub data Selects : List Step → Item → Item → Type 0 where
  done : {d : Item} → Selects [] d d
  next :
      {st : Step} {steps : List Step} {a b d : Item}
      → Next st a b
      → Selects steps b d
      → Selects (st ∷ steps) a d

In-if_cons : (b : Bool) (c d : Item) (xs : List Item) → In d xs → In d (if b then c ∷ xs else xs)
In-if_cons true c d xs m = inr m
In-if_cons false c d xs m = m

if_cons-In :
    (b : Bool) (c d : Item) (xs : List Item)
    → In d (if b then c ∷ xs else xs)
    → ((d ≡ c) × (b ≡ true)) ⊎ In d xs
if_cons-In true c d xs (inl e) = inl (e, refl)
if_cons-In true c d xs (inr m) = inr m
if_cons-In false c d xs m = inr m

-- A child, or an item below a child.
abbrev Under : Items → Item → Type 0
Under cs d = (c : Item) × HasChild c cs × ((d ≡ c) ⊎ Below c d)

Under-Below : (it : Fields) (cs : Items) (d : Item) → Under cs d → Below (item it cs) d
Under-Below it cs d (c, h, inl e) = child (rw e h)
Under-Below it cs d (c, h, inr b) = deeper h b

module _ (seg : Segment) where
  matching-HasChild :
      (cs : Items) (d : Item) → In d (matching seg cs) → HasChild d cs × (matches seg d ≡ true)
  unfolding matching
  matching-HasChild nil d m = absurd m
  matching-HasChild (cons c cs) d m = ground (arith, matching-HasChild cs d)

  HasChild-matching :
      (cs : Items) (d : Item) → HasChild d cs → matches seg d ≡ true → In d (matching seg cs)
  unfolding matching
  HasChild-matching nil d m t = absurd m
  HasChild-matching (cons c cs) d m t = ground (arith, HasChild-matching cs d)

  HasChild-walk :
      (cs : Items) (d : Item) → HasChild d cs → matches seg d ≡ true → In d (walk seg cs)
  unfolding walk
  HasChild-walk nil d m t = absurd m
  HasChild-walk (cons c cs) d (inl e) t = rw (sym (ap (matches seg) e) ∙ t) (inl e)
  HasChild-walk (cons c cs) d (inr m) t =
      In-if_cons (matches seg c) c d (descendant_match seg c ++ walk seg cs)
        (In-append_right d (descendant_match seg c) (walk seg cs) (HasChild-walk cs d m t))

  walk_below :
      (cs : Items) (c d : Item) → HasChild c cs → In d (descendant_match seg c) → In d (walk seg cs)
  unfolding walk
  walk_below nil c d m i = absurd m
  walk_below (cons x cs) c d (inl e) i =
      In-if_cons (matches seg x) x d (descendant_match seg x ++ walk seg cs)
        (In-append_left d (descendant_match seg x) (walk seg cs) (rw (sym e) i))
  walk_below (cons x cs) c d (inr m) i =
      In-if_cons (matches seg x) x d (descendant_match seg x ++ walk seg cs)
        (In-append_right d (descendant_match seg x) (walk seg cs) (walk_below cs c d m i))

  Below-descendant_match :
      {a d : Item} → Below a d → matches seg d ≡ true → In d (descendant_match seg a)
  unfolding walk
  Below-descendant_match (child {it} {cs} {d} h) t = HasChild-walk cs d h t
  Below-descendant_match (deeper {it} {cs} {c} {d} h b) t =
      walk_below cs c d h (Below-descendant_match b t)

  mutual
    unfolding walk

    descendant_match-Below :
        (a d : Item) → In d (descendant_match seg a) → Below a d × (matches seg d ≡ true)
    descendant_match-Below (item it cs) d m =
        let r = walk-Below cs d m in (Under-Below it cs d r.0, r.1)

    walk-Below : (cs : Items) (d : Item) → In d (walk seg cs) → Under cs d × (matches seg d ≡ true)
    walk-Below nil d m = absurd m
    walk-Below (cons c cs) d m =
        elim (if_cons-In (matches seg c) c d (descendant_match seg c ++ walk seg cs) m) [
          | inl (e, t) ↦ ((c, inl refl, inl e), rw e t)
          | inr m ↦ elim (In-append d (descendant_match seg c) (walk seg cs) m) [
            | inl m ↦ (
              (c, inl refl, inr (descendant_match-Below c d m).0),
              (descendant_match-Below c d m).1,
            )
            | inr m ↦ let r = walk-Below cs d m in ((r.0.0, inr r.0.1, r.0.2), r.1)
          ]
        ]

step_from-Next : (st : Step) (a d : Item) → In d (step_from st a) → Next st a d
step_from-Next st (item it cs) d = elim (Bool-cases st.child) [
  | inl t ↦ rw t (λ m. let r = matching-HasChild st.seg cs d m in (inl (refl, r.0), r.1))
  | inr f ↦
      rw f (λ m. let r = descendant_match-Below st.seg (item it cs) d m in (inr (refl, r.0), r.1))
]

Next-step_from : (st : Step) (a d : Item) → Next st a d → In d (step_from st a)
Next-step_from st (item it cs) d (inl (e, h), t) = rw e (HasChild-matching st.seg cs d h t)
Next-step_from st (item it cs) d (inr (e, b), t) = rw e (Below-descendant_match st.seg b t)

step_all-Next :
    (st : Step) (current : List Item) (d : Item)
    → In d (step_all st current)
    → (a : Item) × In a current × Next st a d
unfolding step_all
step_all-Next st [] d m = absurd m
step_all-Next st (x ∷ current) d m = elim (In-append d (step_from st x) (step_all st current) m) [
  | inl m ↦ (x, inl refl, step_from-Next st x d m)
  | inr m ↦ let r = step_all-Next st current d m in (r.0, inr r.1, r.2)
]

Next-step_all :
    (st : Step) (current : List Item) (a d : Item)
    → In a current
    → Next st a d
    → In d (step_all st current)
unfolding step_all
Next-step_all st [] a d m n = absurd m
Next-step_all st (x ∷ current) a d (inl e) n =
    In-append_left d (step_from st x) (step_all st current) (rw (sym e) (Next-step_from st a d n))
Next-step_all st (x ∷ current) a d (inr m) n =
    In-append_right d (step_from st x) (step_all st current) (Next-step_all st current a d m n)

steps_all-Selects :
    (steps : List Step) (current : List Item) (d : Item)
    → In d (steps_all steps current)
    → (a : Item) × In a current × Selects steps a d
unfolding steps_all
steps_all-Selects [] current d m = (d, m, done)
steps_all-Selects (st ∷ steps) current d m =
    let r = steps_all-Selects steps (step_all st current) d m in
    let q = step_all-Next st current r.0 r.1 in (q.0, q.1, next q.2 r.2)

Selects-steps_all :
    (steps : List Step) (current : List Item) (a d : Item)
    → In a current
    → Selects steps a d
    → In d (steps_all steps current)
unfolding steps_all
Selects-steps_all [] current a d m done = m
Selects-steps_all (st ∷ steps) current a d m (next {b} n s) =
    Selects-steps_all steps (step_all st current) b d (Next-step_all st current a b m n) s

-- Apply answers exactly the items that the selector describes: for the first step any matching item
-- below the root, and from there, for each further step, a matching child where the step has `>`,
-- and any matching item below where it has not.
pub In-apply :
    (st : Step) (steps : List Step) (root d : Item)
    → In d (apply (st ∷ steps) root)
      ↔ ((a : Item) × Below root a × (matches st.seg a ≡ true) × Selects steps a d)
unfolding apply
In-apply st steps root d = (
  (λ m.
      let r = steps_all-Selects steps (descendant_match st.seg root) d m in
      let q = descendant_match-Below st.seg root r.0 r.1 in (r.0, q.0, q.1, r.2)),
  λ (a, b, t, s).
      Selects-steps_all steps (descendant_match st.seg root) a d (Below-descendant_match st.seg b t)
        s,
)
