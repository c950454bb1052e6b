-- ===== src/Rank.antt =====
-- Ranking of search hits: internal/brain/rank/rank.go and internal/brain/rank/escalate.go.
-- Scores are floating-point numbers, given by `Float` with the operations that the code uses.
pub mod Fusion
pub mod Order
pub mod Filters
pub mod Answer
use dph.Base.{
  ℕ, suc, ◌+◌, ◌≡◌, Bool, true, false, not, ◌&&◌, ◌||◌, Option, none, some, List, [], ◌∷◌, ◌++◌,
  if◌then◌else◌, ltb, leb, ◌==◌, length, take, keep,
}
use dph.Base.Text.{Bytes, codes, str_eq, str_lt, contains, is_empty}
use dph.Base.Sort.{sort_by}
use dph.Base.Dict.{bytes_eq, upsert, lookup, keys}
use dph.Facts.Interval.{active_at}

-- The floating-point operations of the ranking: 0, the sum, `1.0 / (rrfK + rank)`, and the tests
-- `>` and `!= 0`. A sum of reciprocal ranks is a number, never NaN, so `>` is a strict order that
-- leaves only equal numbers unordered.
pub record Float : Type 1 where
  pub F : Type 0
  pub zero_f : F
  pub add_f : F → F → F
  pub reciprocal : ℕ → F
  pub gt_f : F → F → Bool
  pub eq_f : F → F → Bool

pub record HopNode : Type 0 where
  pub id : Bytes
  pub label : Bytes
  pub name : Bytes
  pub depth : ℕ

-- `rrfK`.
abbrev pub rrf_k : ℕ
rrf_k = 60

module _ (fl : Float) where
  open fl use {F, zero_f, add_f, reciprocal, gt_f, eq_f}

  pub record Hit : Type 0 where
    pub id : Bytes
    pub text : Bytes
    pub root : Bytes
    pub confidence : Bytes
    pub source : Bytes
    pub score : F
    pub snippet : Bytes
    pub valid_from : Bytes
    pub valid_to : Bytes
    pub hops : List HopNode

  -- The maps `byID` and `rrf` of `Hybrid`, which have the same keys.
  pub record Fused : Type 0 where
    pub hit : Hit
    pub rrf : F

  abbrev old_rrf : Option Fused → F
  old_rrf none = zero_f
  old_rrf (some f) = f.rrf

  -- One round of the loop over `fts`, at rank `i` (from 1).
  unfoldable pub fuse_fts : ℕ → Hit → Option Fused → Fused
  fuse_fts i h old = record { hit = h; rrf = add_f (old_rrf old) (reciprocal (rrf_k + i)) }

  abbrev keep_scored : Hit → Option Fused → Hit
  keep_scored h none = h
  keep_scored h (some f) =
      if eq_f f.hit.score zero_f then record f.hit { score = h.score } else f.hit

  -- One round of the loop over `vec`.
  unfoldable pub fuse_vec : ℕ → Hit → Option Fused → Fused
  fuse_vec i h old = record {
    hit = keep_scored h old;
    rrf = add_f (old_rrf old) (reciprocal (rrf_k + i));
  }

  abbrev pub Table : Type 0
  Table = List (Bytes × Fused)

  -- A loop over hits from rank `i`.
  unfoldable pub fuse_all : (ℕ → Hit → Option Fused → Fused) → ℕ → Table → List Hit → Table
  fuse_all step i m [] = m
  fuse_all step i m (h ∷ hs) = fuse_all step (suc i) (upsert h.id (step i h) m) hs

  -- The tables after both loops of `Hybrid`.
  unfoldable pub fuse : List Hit → List Hit → Table
  fuse fts vec = fuse_all fuse_vec 1 (fuse_all fuse_fts 1 [] fts) vec

  -- The order of the ids: by fused score, then by id.
  unfoldable pub better : Bytes × Fused → Bytes × Fused → Bool
  better (i, a) (j, b) = if not (eq_f a.rrf b.rrf) then gt_f a.rrf b.rrf else str_lt i j

  abbrev pub hit_of : Bytes × Fused → Hit
  hit_of (i, f) = f.hit

  unfoldable pub hits_of : List (Bytes × Fused) → List Hit
  hits_of [] = []
  hits_of (e ∷ es) = hit_of e ∷ hits_of es

  -- `limit > 0 && len(xs) > limit` cuts; 0 keeps everything.
  unfoldable pub cut : {A : Type 0} → ℕ → List A → List A
  cut limit xs = if ltb 0 limit && ltb limit (length xs) then take limit xs else xs

  -- `Hybrid`.
  unfoldable pub hybrid : List Hit → List Hit → ℕ → List Hit
  hybrid fts vec limit = hits_of (cut limit (sort_by better (fuse fts vec)))

  -- `FilterRoot`.
  unfoldable pub filter_root : List Hit → Bytes → List Hit
  filter_root hits root = keep (λ h. str_eq h.root root) hits

  -- `FilterRepo`.
  unfoldable pub filter_repo : List Hit → Bytes → List Hit
  filter_repo hits repo = keep (λ h. contains h.source repo) hits

  -- `FilterAsOf`.
  unfoldable pub filter_as_of : List Hit → Bytes → List Hit
  filter_as_of hits as_of =
      if is_empty as_of then hits else keep (λ h. active_at h.valid_from h.valid_to as_of) hits

  -- The test of `SortByDate`.
  unfoldable pub earlier : Bool → Hit → Hit → Bool
  earlier desc p q =
      let a = p.valid_from in
      let b = q.valid_from in
      if str_eq a b
      then false
      else if is_empty a
      then false
      else if is_empty b
      then true
      else if desc
      then str_lt b a
      else str_lt a b

  -- `SortByDate`.
  unfoldable pub sort_by_date : List Hit → Bool → List Hit
  sort_by_date hits desc = sort_by (earlier desc) hits

  -- `RankAndFilterSort`.
  unfoldable pub rank_and_filter_sort :
      List Hit → List Hit → Bytes → Bytes → Bytes → ℕ → Bool → Bool → List Hit
  rank_and_filter_sort fts vec root repo as_of limit sort_date desc =
      let out = hybrid fts vec 0 in
      let rooted = if not (is_empty root) then filter_root out root else out in
      let in_repo = if not (is_empty repo) then filter_repo rooted repo else rooted in
      let active = if not (is_empty as_of) then filter_as_of in_repo as_of else in_repo in
      let sorted = if sort_date then sort_by_date active desc else active in cut limit sorted

  -- `RankAndFilterAsOf`.
  unfoldable pub rank_and_filter_as_of : List Hit → List Hit → Bytes → Bytes → Bytes → ℕ → List Hit
  rank_and_filter_as_of fts vec root repo as_of limit =
      rank_and_filter_sort fts vec root repo as_of limit false false

  -- `RankAndFilter`.
  unfoldable pub rank_and_filter : List Hit → List Hit → Bytes → Bytes → ℕ → List Hit
  rank_and_filter fts vec root repo limit = rank_and_filter_as_of fts vec root repo [] limit

  -- `ConfirmedFact`.
  unfoldable pub confirmed_fact : Hit → Bool
  confirmed_fact h =
      if not (str_eq h.root (codes "facts"))
      then false
      else if str_eq h.confidence (codes "hypothesis") || str_eq h.confidence (codes "partial")
      then false
      else true

  unfoldable pub none_confirmed : List Hit → Bool
  none_confirmed [] = true
  none_confirmed (h ∷ hs) = if confirmed_fact h then false else none_confirmed hs

  -- `ShouldEscalate`.
  unfoldable pub should_escalate : List Hit → Bytes → Bool
  should_escalate hits root_filter =
      if not (is_empty root_filter) then false else none_confirmed hits

  -- `Deduce`: the web search is none where the function value is nil.
  module _ {Second : Type 0} where
    abbrev ask : Option (Bytes → Second) → Bool → Bool → Bytes → Option Second
    ask none no_web escalate query = none
    ask (some web) no_web escalate query = if no_web || not escalate then none else some (web query)

    unfoldable pub deduce :
        List Hit → Bytes → Bytes → Bool → Option (Bytes → Second) → Option Second
    deduce hits query root_filter no_web web =
        ask web no_web (should_escalate hits root_filter) query
