-- ===== src/GraphPlan/Persons.antt =====
-- The persons that internal/brain/graphplan.go plans for a message.
use dph.Base.{
  ℕ, ◌≡◌, refl, sym, ap, ◌∙◌, ◌⊎◌, inl, inr, Bool, true, false, not, ◌&&◌, ◌||◌, List, [], ◌∷◌,
  ◌++◌, map, arith, Bool-cases,
}
use dph.Base.Text.{Bytes, str_eq, str_eq_iff, has, is_empty}
use dph.GraphPlan.{Person, Message, Planned, add_person, add_persons, planned_persons, plan_graph}

abbrev pub person_ids : List Person → List Bytes
person_ids ps = map (λ p. p.id) ps

-- The ids seen are those of the persons.
abbrev Agrees : Planned → Type 0
Agrees s = (k : Bytes) → has s.0 k ≡ has (person_ids s.1) k

has-append :
    (k : Bytes) (ps : List Person) (p : Person)
    → has (person_ids (ps ++ p ∷ [])) k ≡ (has (person_ids ps) k || str_eq p.id k)
unfolding has
has-append k [] p = ground arith
has-append k (q ∷ ps) p = ground (arith, has-append k ps p)

abbrev skips : Person → List Bytes → Bool
skips p seen = is_empty p.id || has seen p.id

alike :
    (k : Bytes) (p : Person) (seen : List Bytes)
    → str_eq p.id k ≡ true
    → (is_empty p.id ≡ is_empty k) × (has seen p.id ≡ has seen k)
alike k p seen q = (ap is_empty e, ap (has seen) e)
  where
    e : p.id ≡ k
    e = (str_eq_iff p.id k).0 q

-- One person more is seen, where the id is not empty.
add_person-has :
    (k : Bytes) (p : Person) (s : Planned)
    → has (add_person p s).0 k ≡ (has s.0 k || (str_eq p.id k && not (is_empty k)))
unfolding has
add_person-has k p (seen, ps) = elim (Bool-cases (skips p seen)) [
  | inl t ↦ rw t (kept t (Bool-cases (str_eq p.id k)))
  | inr t ↦ rw t (new t (Bool-cases (str_eq p.id k)))
]
  where
    kept :
        skips p seen ≡ true
        → (str_eq p.id k ≡ true) ⊎ (str_eq p.id k ≡ false)
        → has seen k ≡ (has seen k || (str_eq p.id k && not (is_empty k)))
    kept t (inl q) = ground (arith, alike k p seen q)
    kept t (inr q) = ground arith

    new :
        skips p seen ≡ false
        → (str_eq p.id k ≡ true) ⊎ (str_eq p.id k ≡ false)
        → (str_eq p.id k || has seen k) ≡ (has seen k || (str_eq p.id k && not (is_empty k)))
    new t (inl q) = ground (arith, alike k p seen q)
    new t (inr q) = ground arith

-- A person with the id is among the persons of the message's list, and the id is not empty.
abbrev pub names_id : Bytes → List Person → Bool
names_id k ps = has (person_ids ps) k && not (is_empty k)

add_persons-has :
    (k : Bytes) (ps : List Person) (s : Planned)
    → has (add_persons ps s).0 k ≡ (has s.0 k || names_id k ps)
unfolding add_persons has
add_persons-has k [] s = ground arith
add_persons-has k (p ∷ ps) s =
    ground (arith, add_persons-has k ps (add_person p s), add_person-has k p s)

-- No id twice.
abbrev pub IdsOnce : List Person → Type 0
IdsOnce [] = Unit
IdsOnce (p ∷ ps) = (has (person_ids ps) p.id ≡ false) × IdsOnce ps

append-IdsOnce :
    (ps : List Person) (p : Person)
    → IdsOnce ps
    → has (person_ids ps) p.id ≡ false
    → IdsOnce (ps ++ p ∷ [])
unfolding has
append-IdsOnce [] p o h = (refl, tt)
append-IdsOnce (q ∷ ps) p o h = (
  ground (arith, has-append q.id ps p, str_eq_iff p.id q.id, str_eq_iff q.id p.id),
  append-IdsOnce ps p o.1 (ground arith),
)

abbrev IsPlan : Planned → Type 0
IsPlan s = Agrees s × IdsOnce s.1

add_person-IsPlan : (p : Person) (s : Planned) → IsPlan s → IsPlan (add_person p s)
unfolding has
add_person-IsPlan p (seen, ps) (h, o) = elim (Bool-cases (skips p seen)) [
  | inl t ↦ rw t (h, o)
  | inr t ↦ rw t (
    (λ k. ground (arith, h k, has-append k ps p)),
    append-IdsOnce ps p o (ground (arith, h p.id)),
  )
]

add_persons-IsPlan : (ps : List Person) (s : Planned) → IsPlan s → IsPlan (add_persons ps s)
unfolding add_persons
add_persons-IsPlan [] s h = h
add_persons-IsPlan (p ∷ ps) s h = add_persons-IsPlan ps (add_person p s) (add_person-IsPlan p s h)

planned-IsPlan : (m : Message) → IsPlan (planned_persons m)
planned-IsPlan m = add_persons-IsPlan m.bcc _ (
    add_persons-IsPlan m.cc _
      (add_persons-IsPlan m.to _ (add_person-IsPlan m.sender ([], []) ((λ k. refl), tt))))

-- The id is of one of the persons of the message.
abbrev pub names_person : Bytes → Message → Bool
names_person k m =
    names_id k (m.sender ∷ []) || (names_id k m.to || (names_id k m.cc || names_id k m.bcc))

pub planned_persons-has :
    (k : Bytes) (m : Message) → has (person_ids (planned_persons m).1) k ≡ names_person k m
unfolding has
planned_persons-has k m =
    sym ((planned-IsPlan m).0 k)
    ∙ ground (
      arith,
      add_persons-has k m.bcc (add_persons m.cc (add_persons m.to (add_person m.sender ([], [])))),
      add_persons-has k m.cc (add_persons m.to (add_person m.sender ([], []))),
      add_persons-has k m.to (add_person m.sender ([], [])),
      add_person-has k m.sender ([], []),
    )

module _ (paragraph_id : Bytes → ℕ → Bytes) where
  -- Each person of a message that has an id is planned, once, and nobody else.
  pub plan_graph-IdsOnce :
      (m : Message)
      → IdsOnce (plan_graph paragraph_id m).0
        × ((k : Bytes) → has (person_ids (plan_graph paragraph_id m).0) k ≡ names_person k m)
  plan_graph-IdsOnce m = ((planned-IsPlan m).1, λ k. planned_persons-has k m)
