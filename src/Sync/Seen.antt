-- ===== src/Sync/Seen.antt =====
-- Lists of blobs whose keys differ, or are all in a set of keys.
use dph.Base.{
  ◌≡◌, refl, sym, ap, inl, inr, true, false, List, [], ◌∷◌, ◌++◌, arith, In, In-append, Bool-cases,
}
use dph.Base.Text.{Bytes, has, str_eq, str_eq_refl, str_eq_iff, str_lt}
use dph.Base.Sort.{sort_by, In-sort_by}
use dph.Sync.{Blob, File, absent, unreadable, saved}

has-In : (ks : List Bytes) (k : Bytes) → has ks k ≡ true → In k ks
unfolding has
has-In [] k e = cc
has-In (x ∷ ks) k e = elim (Bool-cases (str_eq x k)) [
  | inl q ↦ inl (sym ((str_eq_iff x k).0 q))
  | inr q ↦ inr (has-In ks k (ground arith))
]

pub In-has : (ks : List Bytes) (k : Bytes) → In k ks → has ks k ≡ true
unfolding has
In-has [] k m = absurd m
In-has (x ∷ ks) k (inl q) = let e = (str_eq_iff x k).1 (sym q) in ground arith
In-has (x ∷ ks) k (inr m) = let e = In-has ks k m in ground arith

-- A stored seen-set has the keys of the set.
pub has-sort_by : (ks : List Bytes) (k : Bytes) → has ks k ≡ true → has (sort_by str_lt ks) k ≡ true
has-sort_by ks k e = In-has _ k ((In-sort_by str_lt k ks).1 (has-In ks k e))

-- The seen-set that a checkpoint file holds.
abbrev pub seen_of : File → List Bytes
seen_of absent = []
seen_of (unreadable e) = []
seen_of (saved cp) = cp.seen

module _ (hash_id : Bytes → Bytes) where
  -- No two blobs of the list have ids of the same hash.
  abbrev pub AllDiffer : List Blob → Type 0
  AllDiffer [] = Unit
  AllDiffer (b ∷ bs) =
      ((c : Blob) → In c bs → str_eq (hash_id b.id) (hash_id c.id) ≡ false) × AllDiffer bs

  -- Each blob of the list has its key in the set.
  abbrev pub AllSeen : List Bytes → List Blob → Type 0
  AllSeen ks bs = (b : Blob) → In b bs → has ks (hash_id b.id) ≡ true

  pub AllDiffer-concat :
      (bs : List Blob) (ks : List Bytes) (b : Blob)
      → AllDiffer bs
      → AllSeen ks bs
      → has ks (hash_id b.id) ≡ false
      → AllDiffer (bs ++ b ∷ [])
  unfolding has
  AllDiffer-concat [] ks b d s n = ((λ c m. absurd m), tt)
  AllDiffer-concat (a ∷ bs) ks b d s n = (
    (λ c m. elim (In-append c bs (b ∷ []) m) [
      | inl l ↦ d.0 c l
      | inr (inl q) ↦ rw q (elim (Bool-cases (str_eq (hash_id a.id) (hash_id b.id))) [
        | inr e ↦ e
        | inl e ↦
            cc (s a (inl refl), n, ap (has ks) ((str_eq_iff (hash_id a.id) (hash_id b.id)).0 e))
      ])
      | inr (inr e) ↦ absurd e
    ]),
    AllDiffer-concat bs ks b d.1 (λ c m. s c (inr m)) n,
  )

  pub AllSeen-concat :
      (bs : List Blob) (ks : List Bytes) (b : Blob)
      → AllSeen ks bs
      → AllSeen (hash_id b.id ∷ ks) (bs ++ b ∷ [])
  unfolding has
  AllSeen-concat bs ks b s c m = elim (In-append c bs (b ∷ []) m) [
    | inl l ↦ let e = s c l in ground arith
    | inr (inl q) ↦ let e = str_eq_refl (hash_id b.id) in rw q (ground arith)
    | inr (inr n) ↦ absurd n
  ]
