-- ===== src/Corpus/Chunked/Streams.antt =====
-- The invariant rule for a pass over the sources.
use dph.Base.{
  ℕ, suc, ◌≤◌, ◌<◌, ◌≡◌, refl, sym, ap, ◌⊎◌, inl, inr, ◌≢◌, Bool, false, Option, none, some, List,
  [], ◌∷◌, ◌++◌, length, ◌==◌, take, arith, append_assoc, append-nil, Bool-cases, length-append,
  take_all,
}
use mathlib.Core.Path.{subst}
use dph.Contract.{Leaf}
use dph.Corpus.{CorpusSource, Stop, limit_reached, stream, stream_all}
use dph.Corpus.Chunked.{all_leafs, within, NoErrors}

take-append : (n : ℕ) (xs ys : List Leaf) → length xs ≡ n → take n (xs ++ ys) ≡ xs
take-append n [] ys e = rw (← e)
take-append n (x ∷ xs) ys e = rw (← e) (ap (◌∷◌ x) (take-append (length xs) xs ys refl))

-- There is room for one more leaf.
abbrev pub HasRoom : ℕ → List Leaf → Type 0
HasRoom limit ls = (limit ≡ 0) ⊎ (length ls < limit)

abbrev Fits : ℕ → List Leaf → Type 0
Fits limit ls = (limit ≡ 0) ⊎ (length ls ≤ limit)

room_or_full : (limit : ℕ) (ls : List Leaf) → HasRoom limit ls ⊎ ((limit ≢ 0) × (limit ≤ length ls))
room_or_full limit ls = ground arith

within-Fits : (limit : ℕ) (ls : List Leaf) → Fits limit ls → within limit ls ≡ ls
within-Fits limit ls f = elim (Bool-cases (limit == 0)) [
  | inl e ↦ rw e
  | inr e ↦ rw e (take_all limit ls (ground arith))
]

-- The leafs within the limit are the `limit` leafs in front.
within_prefix :
    (limit : ℕ) (pre post rest ls xs : List Leaf)
    → length pre ≡ limit
    → limit ≢ 0
    → pre ++ post ≡ ls ++ xs
    → pre ≡ within limit (ls ++ (xs ++ rest))
within_prefix limit pre post rest ls xs len pos split = elim (Bool-cases (limit == 0)) [
  | inl e ↦ absurd (pos (ground arith))
  | inr e ↦
      rw (e, ← append_assoc, ← split, append_assoc) (sym (take-append limit pre (post ++ rest) len))
]

Fits-concat : (limit : ℕ) (ls : List Leaf) (x : Leaf) → HasRoom limit ls → Fits limit (ls ++ x ∷ [])
Fits-concat limit ls x r = ground (arith, length-append ls (x ∷ []))

full_length :
    (limit : ℕ) (ls : List Leaf) → limit ≢ 0 → limit ≤ length ls → Fits limit ls → length ls ≡ limit
full_length limit ls pos full (inl e) = absurd (pos e)
full_length limit ls pos full (inr f) = omega arith

-- `P ls s`: state `s` is that after the leafs `ls`. While there is room a leaf is taken without an
-- error; after that the next one is refused.
module _ {S : Type 0} (emit : CorpusSource → S → Leaf → S × Option Stop) (limit : ℕ)
    (P : List Leaf → S → Type 0)
    (takes : (src : CorpusSource) (ls : List Leaf) (s : S) (l : Leaf)
      → HasRoom limit ls
      → P ls s
      → ((emit src s l).1 ≡ none) × P (ls ++ l ∷ []) (emit src s l).0)
    (refuses : (src : CorpusSource) (ls : List Leaf) (s : S) (l : Leaf)
      → limit ≢ 0
      → limit ≤ length ls
      → P ls s
      → ((emit src s l).1 ≡ some limit_reached) × P ls (emit src s l).0) where
  -- The end of one stream: all its leafs were taken, or the limit was reached before.
  abbrev StreamEnd : List Leaf → List Leaf → S × Option Stop → Type 0
  StreamEnd ls xs r =
      ((r.1 ≡ none) × P (ls ++ xs) r.0 × Fits limit (ls ++ xs))
      ⊎ ((r.1 ≡ some limit_reached)
          × (pre post : List Leaf) × P pre r.0
          × (length pre ≡ limit)
          × (limit ≢ 0)
          × (pre ++ post ≡ ls ++ xs))

  stream_inv :
      (src : CorpusSource) (xs ls : List Leaf) (s : S) (ends : Option ℕ)
      → ends ≡ none
      → P ls s
      → Fits limit ls
      → StreamEnd ls xs (stream (emit src) s xs ends)
  unfolding stream
  stream_inv src [] ls s ends no_error p f =
      inl (rw no_error refl, rw append-nil p, rw append-nil f)
  stream_inv src (x ∷ xs) ls s ends no_error p f = elim (room_or_full limit ls) [
    | inl room ↦
        let t = takes src ls s x room p in
        let ih =
          stream_inv src xs (ls ++ x ∷ []) (emit src s x).0 ends no_error t.1
            (Fits-concat limit ls x room) in
        rw t.0 (rw append_assoc at ih)
    | inr (pos, full) ↦
        let t = refuses src ls s x pos full p in
        rw t.0 (inr (refl, ls, x ∷ xs, t.1, full_length limit ls pos full f, pos, refl))
  ]

  -- With no error the pass ends in order, in the state after the leafs within the limit.
  pub stream_all_inv :
      (ctx : ℕ → Bool)
      → ((i : ℕ) → ctx i ≡ false)
      → (srcs : List CorpusSource) (i : ℕ) (ls : List Leaf) (s : S) → NoErrors srcs
      → P ls s
      → Fits limit ls
      → ((stream_all emit ctx i s srcs).1 ≡ none)
        × P (within limit (ls ++ all_leafs srcs)) (stream_all emit ctx i s srcs).0
  unfolding stream_all
  stream_all_inv ctx live [] i ls s ok p f =
      (refl, subst (λ t. P t s) (sym (rw append-nil (within-Fits limit ls f))) p)
  stream_all_inv ctx live (src ∷ srcs) i ls s ok p f =
      rw (live i) (elim (stream_inv src src.leafs ls s src.ends ok.0 p f) [
        | inl (e, q, g) ↦
            rw e (
              rw append_assoc at
                (stream_all_inv ctx live srcs (suc i) (ls ++ src.leafs) _ ok.1 q g))
        | inr (e, pre, post, q, len, pos, split) ↦ rw e (
          refl,
          subst (λ t. P t (stream (emit src) s src.leafs src.ends).0)
              (within_prefix limit pre post (all_leafs srcs) ls src.leafs len pos split) q,
        )
      ])
