-- ===== src/Base/Sort.antt =====
-- Stable sorting by a test `less`, the meaning of Go's `sort.SliceStable` and `sort.Strings`.
use Prim.Native.Nat.{ℕ, suc}
use mathlib.Core.Path.{◌≡◌, refl, ap, ◌∙◌}
use mathlib.Core.Logic.{◌↔◌, inl, inr, ∥∥₁_elim}
use mathlib.Core.Bool.{Bool, true, false}
use mathlib.Core.List.{List, [], ◌∷◌, Perm, Permᴰ}
use mathlib.Core.List.Perm
use native.Mathlib.Omega.{arith}
use dph.Base.Tests.{if◌then◌else◌, Bool-cases}
use dph.Base.Lists.{length, In, All}

module _ {A : Type 0} (less : A → A → Bool) where
  -- `x` goes before the first element that is not smaller.
  unfoldable pub insert_by : A → List A → List A
  insert_by x [] = x ∷ []
  insert_by x (y ∷ ys) = if less y x then y ∷ insert_by x ys else x ∷ y ∷ ys

  unfoldable pub sort_by : List A → List A
  unfolding insert_by
  sort_by [] = []
  sort_by (x ∷ xs) = insert_by x (sort_by xs)

  -- No element is smaller than an earlier one.
  abbrev pub IsSorted : List A → Type 0
  IsSorted [] = Unit
  IsSorted (x ∷ xs) = All (λ y. less y x ≡ false) xs × IsSorted xs

  -- A test that sorting may use: of two elements at most one is smaller, and being not smaller
  -- is transitive.
  pub record IsOrder : Type 0 where
    pub asymm : (a b : A) → less a b ≡ true → less b a ≡ false
    pub not_less_trans : (a b c : A) → less a b ≡ false → less b c ≡ false → less a c ≡ false

module _ {A : Type 0} (less : A → A → Bool) where
  insert_by-perm : (x : A) (ys : List A) → Perm (insert_by less x ys) (x ∷ ys)
  unfolding insert_by
  insert_by-perm x [] = Perm.refl _
  insert_by-perm x (y ∷ ys) = elim (Bool-cases (less y x)) [
    | inl e ↦ rw e (Perm.trans (Perm.cons y (insert_by-perm x ys)) (Perm.swap x y ys))
    | inr e ↦ rw e (Perm.refl _)
  ]

  pub sort_by-perm : (xs : List A) → Perm (sort_by less xs) xs
  unfolding sort_by
  sort_by-perm [] = Perm.refl _
  sort_by-perm (x ∷ xs) =
      Perm.trans (insert_by-perm x (sort_by less xs)) (Perm.cons x (sort_by-perm xs))

  pub In-insert_by : (a x : A) (ys : List A) → In a (insert_by less x ys) ↔ In a (x ∷ ys)
  unfolding insert_by
  In-insert_by a x [] = (λ h. h, λ h. h)
  In-insert_by a x (y ∷ ys) = ground (arith, In-insert_by a x ys)

  pub In-sort_by : (a : A) (xs : List A) → In a (sort_by less xs) ↔ In a xs
  unfolding sort_by
  In-sort_by a [] = (λ h. h, λ h. h)
  In-sort_by a (x ∷ xs) = ground (arith, In-insert_by a x (sort_by less xs), In-sort_by a xs)

  length-insert_by : (x : A) (ys : List A) → length (insert_by less x ys) ≡ suc (length ys)
  unfolding insert_by
  length-insert_by x [] = refl
  length-insert_by x (y ∷ ys) = ground (arith, length-insert_by x ys)

  pub length-sort_by : (xs : List A) → length (sort_by less xs) ≡ length xs
  unfolding sort_by
  length-sort_by [] = refl
  length-sort_by (x ∷ xs) = omega (arith, length-insert_by x (sort_by less xs), length-sort_by xs)

  All-insert_by :
      (P : A → Type 0) (x : A) (ys : List A) → P x → All P ys → All P (insert_by less x ys)
  unfolding insert_by
  All-insert_by P x [] px h = (px, tt)
  All-insert_by P x (y ∷ ys) px h = elim (Bool-cases (less y x)) [
    | inl e ↦ rw e (h.0, All-insert_by P x ys px h.1)
    | inr e ↦ rw e (px, h)
  ]

  All-not_less :
      IsOrder less
      → (x y : A) (ys : List A) → less y x ≡ false
      → All (λ z. less z y ≡ false) ys
      → All (λ z. less z x ≡ false) ys
  All-not_less o x y [] e h = tt
  All-not_less o x y (z ∷ zs) e h = (o.not_less_trans z y x h.0 e, All-not_less o x y zs e h.1)

  insert_by-IsSorted :
      IsOrder less → (x : A) (ys : List A) → IsSorted less ys → IsSorted less (insert_by less x ys)
  unfolding insert_by
  insert_by-IsSorted o x [] h = (tt, tt)
  insert_by-IsSorted o x (y ∷ ys) h = elim (Bool-cases (less y x)) [
    | inl e ↦ rw e (
      All-insert_by (λ z. less z y ≡ false) x ys (o.asymm y x e) h.0,
      insert_by-IsSorted o x ys h.1,
    )
    | inr e ↦ rw e ((e, All-not_less o x y ys e h.0), h)
  ]

  pub sort_by-IsSorted : IsOrder less → (xs : List A) → IsSorted less (sort_by less xs)
  unfolding sort_by
  sort_by-IsSorted o [] = tt
  sort_by-IsSorted o (x ∷ xs) = insert_by-IsSorted o x (sort_by less xs) (sort_by-IsSorted o xs)

-- A relation between each element and all later ones.
abbrev pub Pairwise : {A : Type 0} → (A → A → Type 0) → List A → Type 0
Pairwise R [] = Unit
Pairwise R (x ∷ xs) = All (R x) xs × Pairwise R xs

module _ {A : Type 0} (less : A → A → Bool) (R : A → A → Type 0)
    (R_sym : (a b : A) → R a b → R b a) where
  insert_by-Pairwise :
      (x : A) (ys : List A) → All (R x) ys → Pairwise R ys → Pairwise R (insert_by less x ys)
  unfolding insert_by
  insert_by-Pairwise x [] h p = (tt, tt)
  insert_by-Pairwise x (y ∷ ys) h p = elim (Bool-cases (less y x)) [
    | inl e ↦
        rw e (All-insert_by less (R y) x ys (R_sym x y h.0) p.0, insert_by-Pairwise x ys h.1 p.1)
    | inr e ↦ rw e (h, p)
  ]

  All-sort_by : (P : A → Type 0) (xs : List A) → All P xs → All P (sort_by less xs)
  unfolding sort_by
  All-sort_by P [] h = tt
  All-sort_by P (x ∷ xs) h = All-insert_by less P x (sort_by less xs) h.0 (All-sort_by P xs h.1)

  -- Sorting keeps a symmetric relation between all elements.
  pub sort_by-Pairwise : (xs : List A) → Pairwise R xs → Pairwise R (sort_by less xs)
  unfolding sort_by
  sort_by-Pairwise [] p = tt
  sort_by-Pairwise (x ∷ xs) p =
      insert_by-Pairwise x (sort_by less xs) (All-sort_by (R x) xs p.0) (sort_by-Pairwise xs p.1)

module _ {A : Type 0} {R S : A → A → Type 0} (f : (a b : A) → R a b → S a b) where
  All-map : (x : A) (xs : List A) → All (R x) xs → All (S x) xs
  All-map x [] h = tt
  All-map x (y ∷ ys) h = (f x y h.0, All-map x ys h.1)

  pub Pairwise-map : (xs : List A) → Pairwise R xs → Pairwise S xs
  Pairwise-map [] p = tt
  Pairwise-map (x ∷ xs) p = (All-map x xs p.0, Pairwise-map xs p.1)

same_IsProp : (m n : ℕ) → IsProp (m ≡ n)
same_IsProp m n = hlevel

module _ {A : Type 0} where
  length-Permᴰ : {xs ys : List A} → Permᴰ xs ys → length xs ≡ length ys
  length-Permᴰ Permᴰ.nil = refl
  length-Permᴰ (Permᴰ.cons e d) = ap suc (length-Permᴰ d)
  length-Permᴰ (Permᴰ.swap {l = l} e g) = refl
  length-Permᴰ (Permᴰ.trans d e) = length-Permᴰ d ∙ length-Permᴰ e

  pub length-Perm : {xs ys : List A} → Perm xs ys → length xs ≡ length ys
  length-Perm p = ∥∥₁_elim p (same_IsProp _ _) length-Permᴰ
