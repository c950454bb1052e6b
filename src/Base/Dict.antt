-- ===== src/Base/Dict.antt =====
-- Go maps whose keys are also kept in order of insertion: association lists with one entry a key.
use mathlib.Core.Path.{◌≡◌, refl, sym, ap, transport}
use mathlib.Core.Logic.{◌↔◌, inl, inr}
use mathlib.Core.Bool.{Bool, true, false, ◌&&◌}
use mathlib.Core.List.{List, [], ◌∷◌}
use mathlib.Core.Option.{Option, none, some}
use native.Mathlib.Omega.{arith}
use dph.Base.Tests.{if◌then◌else◌, Bool-cases}
use dph.Base.Lists.{In, All}
use dph.Base.Sort.{insert_by, sort_by}
use dph.Base.Text.{Bytes, str_eq, str_eq_iff}

-- Keys that can be compared.
pub record Eq (K : Type 0) : Type 0 where
  pub beq : K → K → Bool
  pub beq_iff : (a b : K) → (beq a b ≡ true) ↔ (a ≡ b)

instance abbrev pub bytes_eq : Eq Bytes
bytes_eq = record { beq = str_eq; beq_iff = str_eq_iff }

abbrev pub pair_beq : Bytes × Bytes → Bytes × Bytes → Bool
pair_beq (a, b) (c, d) = str_eq a c && str_eq b d

pub pair_beq_iff : (p q : Bytes × Bytes) → (pair_beq p q ≡ true) ↔ (p ≡ q)
pair_beq_iff (a, b) (c, d) = ground (arith, str_eq_iff a c, str_eq_iff b d)

instance abbrev pub pair_eq : Eq (Bytes × Bytes)
pair_eq = record { beq = pair_beq; beq_iff = pair_beq_iff }

module _ {K V : Type 0} ⦃e : Eq K⦄ where
  unfoldable pub lookup : K → List (K × V) → Option V
  lookup k [] = none
  lookup k ((j, v) ∷ m) = if e.beq j k then some v else lookup k m

  -- The value at `k` becomes `f` of what it was; a new key goes to the end.
  unfoldable pub upsert : K → (Option V → V) → List (K × V) → List (K × V)
  upsert k f [] = (k, f none) ∷ []
  upsert k f ((j, v) ∷ m) = if e.beq j k then (j, f (some v)) ∷ m else (j, v) ∷ upsert k f m

  abbrev pub keys : List (K × V) → List K
  keys [] = []
  keys ((k, v) ∷ m) = k ∷ keys m

  -- No key has two entries.
  abbrev pub Distinct : List (K × V) → Type 0
  Distinct [] = Unit
  Distinct ((k, v) ∷ m) = (lookup k m ≡ none) × Distinct m

  pub lookup-upsert :
      (k j : K) (f : Option V → V) (m : List (K × V))
      → lookup j (upsert k f m) ≡ (if e.beq k j then some (f (lookup k m)) else lookup j m)
  unfolding lookup upsert
  lookup-upsert k j f [] = refl
  lookup-upsert k j f ((i, v) ∷ m) =
      ground (arith, e.beq_iff k j, e.beq_iff i k, e.beq_iff i j, lookup-upsert k j f m)

  pub upsert-Distinct :
      (k : K) (f : Option V → V) (m : List (K × V)) → Distinct m → Distinct (upsert k f m)
  unfolding upsert lookup
  upsert-Distinct k f [] d = (refl, tt)
  upsert-Distinct k f ((i, v) ∷ m) d =
      ground (arith, e.beq_iff i k, e.beq_iff k i, lookup-upsert k i f m, upsert-Distinct k f m d.1)

  pub lookup-In : (k : K) (v : V) (m : List (K × V)) → lookup k m ≡ some v → In (k, v) m
  unfolding lookup
  lookup-In k v [] h = cc
  lookup-In k v ((i, w) ∷ m) h = ground (arith, e.beq_iff i k, lookup-In k v m)

  pub In-lookup :
      (k : K) (v : V) (m : List (K × V)) → Distinct m → In (k, v) m → lookup k m ≡ some v
  unfolding lookup
  In-lookup k v [] d h = absurd h
  In-lookup k v ((i, w) ∷ m) d (inl h) = ground (arith, e.beq_iff i k)
  In-lookup k v ((i, w) ∷ m) d (inr h) = ground (arith, e.beq_iff i k, In-lookup k v m d.1 h)

  pub lookup-insert_by :
      (less : K × V → K × V → Bool) (j k : K) (v : V) (m : List (K × V))
      → lookup j m ≡ none
      → e.beq k j ≡ false
      → lookup j (insert_by less (k, v) m) ≡ none
  unfolding lookup insert_by
  lookup-insert_by less j k v [] h n = ground arith
  lookup-insert_by less j k v ((i, w) ∷ m) h n = ground (arith, lookup-insert_by less j k v m)

  insert_by-Distinct :
      (less : K × V → K × V → Bool) (k : K) (v : V) (m : List (K × V))
      → lookup k m ≡ none
      → Distinct m
      → Distinct (insert_by less (k, v) m)
  unfolding lookup insert_by
  insert_by-Distinct less k v [] h d = (refl, tt)
  insert_by-Distinct less k v ((i, w) ∷ m) h d = ground (
    arith,
    insert_by-Distinct less k v m,
    lookup-insert_by less i k v m,
    e.beq_iff i k,
    e.beq_iff k i,
  )

  lookup-sort_by :
      (less : K × V → K × V → Bool) (j : K) (m : List (K × V))
      → lookup j m ≡ none
      → lookup j (sort_by less m) ≡ none
  unfolding lookup sort_by
  lookup-sort_by less j [] h = refl
  lookup-sort_by less j ((k, v) ∷ m) h =
      ground (arith, lookup-sort_by less j m, lookup-insert_by less j k v (sort_by less m))

  -- Sorting the entries keeps one entry a key.
  pub sort_by-Distinct :
      (less : K × V → K × V → Bool) (m : List (K × V)) → Distinct m → Distinct (sort_by less m)
  unfolding sort_by
  sort_by-Distinct less [] d = tt
  sort_by-Distinct less ((k, v) ∷ m) d =
      insert_by-Distinct less k v (sort_by less m) (lookup-sort_by less k m d.0)
        (sort_by-Distinct less m d.1)

module _ {K V : Type 0} ⦃e : Eq K⦄ (P : K × V → Type 0) where
  -- A predicate on entries stays when the entry at `k` is made or changed.
  pub upsert-All :
      (k : K) (f : Option V → V) (m : List (K × V))
      → P (k, f none)
      → ((v : V) → P (k, v) → P (k, f (some v)))
      → All P m
      → All P (upsert k f m)
  unfolding upsert
  upsert-All k f [] n s h = (n, tt)
  upsert-All k f ((j, v) ∷ m) n s h = elim (Bool-cases (e.beq j k)) [
    | inl q ↦ rw q (at_key ((e.beq_iff j k).0 q) h.0, h.1)
    | inr q ↦ rw q (h.0, upsert-All k f m n s h.1)
  ]
    where
      at_key : j ≡ k → P (j, v) → P (j, f (some v))
      at_key p q =
          transport (ap (λ x. P (x, f (some v))) (sym p)) (s v (transport (ap (λ x. P (x, v)) p) q))
