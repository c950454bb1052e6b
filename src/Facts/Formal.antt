-- ===== src/Facts/Formal.antt =====
-- The formal checks on facts about URLs: internal/facts/formal.go. The message texts are left out.
-- `canonical` stands for `CanonicalURL`, which is none on an error.
pub mod Grouping
pub mod Contradiction
pub mod Report
use dph.Base.{
  ℕ, ◌≡◌, Bool, true, false, not, ◌&&◌, ◌||◌, Option, none, some, List, [], ◌∷◌, ◌++◌, map,
  if◌then◌else◌, length, ltb, leb, cons_some,
}
use dph.Base.Text.{Bytes, codes, str_eq, str_lt, has, has_prefix, is_empty, trim_space}
use dph.Base.Sort.{sort_by}
use dph.Base.Dict.{upsert, bytes_eq, pair_eq}
use dph.Facts.Interval.{intervals_overlap}

pub record UrlFact : Type 0 where
  pub id : Bytes
  pub url : Bytes
  pub claim : Bytes
  pub attr : Bytes
  pub neg : Bool
  pub conf : Bytes
  pub from : Bytes
  pub to : Bytes

-- `Crisp`.
unfoldable pub is_crisp : UrlFact → Bool
is_crisp f = if is_empty f.attr then false else is_empty f.conf || str_eq f.conf (codes "confirmed")

pub data FormalRule : Type 0 where
  identity contradiction excluded_middle sufficient_reason : FormalRule

abbrev pub rule_name : FormalRule → Bytes
rule_name identity = codes "identity"
rule_name contradiction = codes "contradiction"
rule_name excluded_middle = codes "excluded_middle"
rule_name sufficient_reason = codes "sufficient_reason"

pub data Verdict : Type 0 where
  accept reject weaken : Verdict

pub record Problem : Type 0 where
  pub rule : FormalRule
  pub url : Bytes
  pub fact_ids : List Bytes
  pub verdict : Verdict

-- What `canonicalOrErr` returns.
pub data Canonical : Type 0 where
  no_url : Canonical
  bad_url : Canonical
  good_url : Bytes → Canonical

-- `sort.Strings`.
unfoldable pub sort_strings : List Bytes → List Bytes
sort_strings = sort_by str_lt

-- `strings.Join(ids, ",")`.
unfoldable pub join_ids : List Bytes → Bytes
join_ids [] = []
join_ids (x ∷ []) = x
join_ids (x ∷ y ∷ ys) = x ++ (b',' ∷ join_ids (y ∷ ys))

-- The order of `sortProblems`.
unfoldable pub problem_less : Problem → Problem → Bool
problem_less p q =
    if not (str_eq (rule_name p.rule) (rule_name q.rule))
    then str_lt (rule_name p.rule) (rule_name q.rule)
    else if not (str_eq p.url q.url)
    then str_lt p.url q.url
    else str_lt (join_ids p.fact_ids) (join_ids q.fact_ids)

-- `sortProblems`.
unfoldable pub sort_problems : List Problem → List Problem
sort_problems = sort_by problem_less

-- The two sides of one group of `CheckURLContradiction`.
pub record Side : Type 0 where
  pub pos : List UrlFact
  pub neg : List UrlFact

abbrev pub side_or_empty : Option Side → Side
side_or_empty none = record { pos = []; neg = [] }
side_or_empty (some s) = s

-- `add` of `CheckURLContradiction`, on the group of the fact's key.
unfoldable pub add_to_side : UrlFact → Option Side → Side
add_to_side f old =
    let s = side_or_empty old in
    if f.neg then record s { neg = s.neg ++ f ∷ [] } else record s { pos = s.pos ++ f ∷ [] }

unfoldable pub overlaps_any : UrlFact → List UrlFact → Bool
overlaps_any a [] = false
overlaps_any a (b ∷ bs) = intervals_overlap a.from a.to b.from b.to || overlaps_any a bs

-- `anyOverlap`.
unfoldable pub any_overlap : List UrlFact → List UrlFact → Bool
any_overlap [] neg = false
any_overlap (a ∷ pos) neg = overlaps_any a neg || any_overlap pos neg

abbrev pub is_nil : List UrlFact → Bool
is_nil [] = true
is_nil (f ∷ fs) = false

abbrev pub Groups : Type 0
Groups = List ((Bytes × Bytes) × Side)

-- The problem of one group of `CheckURLContradiction`, if it has one.
unfoldable pub side_problem : (Bytes × Bytes) × Side → Option Problem
side_problem ((url, attr), s) =
    if is_nil s.pos || is_nil s.neg
    then none
    else if not (any_overlap s.pos s.neg)
    then none
    else some (record {
      rule = contradiction;
      url = url;
      fact_ids = sort_strings (map (λ (f : UrlFact). f.id) (s.pos ++ s.neg));
      verdict = reject;
    })

unfoldable pub side_problems : Groups → List Problem
side_problems [] = []
side_problems (g ∷ gs) = cons_some (side_problem g) (side_problems gs)

-- The facts and the raw spellings of one URL in `CheckURLIdentity`.
pub record Spellings : Type 0 where
  pub ids : List Bytes
  pub raws : List Bytes

abbrev pub spellings_or_empty : Option Spellings → Spellings
spellings_or_empty none = record { ids = []; raws = [] }
spellings_or_empty (some s) = s

-- `add` of `CheckURLIdentity`.
unfoldable pub add_spelling : UrlFact → Option Spellings → Spellings
add_spelling f old =
    let s = spellings_or_empty old in
    let raw = trim_space f.url in
    record { ids = s.ids ++ f.id ∷ []; raws = if has s.raws raw then s.raws else raw ∷ s.raws }

-- One round of the second loop of `CheckURLIdentity`.
unfoldable pub spelling_problem : Bytes × Spellings → Option Problem
spelling_problem (canon, s) =
    if ltb (length s.raws) 2
    then none
    else some
        (record { rule = identity; url = canon; fact_ids = sort_strings s.ids; verdict = weaken })

unfoldable pub spelling_problems : List (Bytes × Spellings) → List Problem
spelling_problems [] = []
spelling_problems (g ∷ gs) = cons_some (spelling_problem g) (spelling_problems gs)

-- One round of `CheckExcludedMiddle`.
unfoldable pub weak_problem : UrlFact → Option Problem
weak_problem f =
    if not (has_prefix f.id (codes "FACT-"))
    then none
    else if is_crisp f
    then none
    else some
        (record { rule = excluded_middle; url = f.url; fact_ids = f.id ∷ []; verdict = weaken })

unfoldable pub excluded_middle_problems : List UrlFact → List Problem
excluded_middle_problems [] = []
excluded_middle_problems (f ∷ fs) = cons_some (weak_problem f) (excluded_middle_problems fs)

-- `CheckExcludedMiddle`.
unfoldable pub check_excluded_middle : List UrlFact → List Problem
check_excluded_middle fs = sort_problems (excluded_middle_problems fs)

module _ (canonical : Bytes → Option Bytes) where
  abbrev pub classify : Option Bytes → Canonical
  classify none = bad_url
  classify (some c) = good_url c

  -- `canonicalOrErr`.
  unfoldable pub canonical_or_err : UrlFact → Canonical
  canonical_or_err f = if is_empty (trim_space f.url) then no_url else classify (canonical f.url)

  -- One round of the first loop of `CheckURLContradiction`.
  abbrev group_at : UrlFact → Canonical → Groups → Groups
  group_at f (good_url c) gs = upsert (c, f.attr) (add_to_side f) gs
  group_at f no_url gs = gs
  group_at f bad_url gs = gs

  unfoldable pub group_fact : Groups → UrlFact → Groups
  group_fact gs f = if not (is_crisp f) then gs else group_at f (canonical_or_err f) gs

  unfoldable pub group_facts : Groups → List UrlFact → Groups
  group_facts gs [] = gs
  group_facts gs (f ∷ fs) = group_facts (group_fact gs f) fs

  -- `CheckURLContradiction`.
  unfoldable pub check_contradiction : List UrlFact → List Problem
  check_contradiction fs = sort_problems (side_problems (group_facts [] fs))

  abbrev pub bad_url_problem : UrlFact → Problem
  bad_url_problem f = record {
    rule = identity;
    url = f.url;
    fact_ids = f.id ∷ [];
    verdict = weaken;
  }

  -- The first loop of `CheckURLIdentity`: the groups, and the problems of broken links.
  abbrev pub spell_at : UrlFact → Canonical → List (Bytes × Spellings) → List (Bytes × Spellings)
  spell_at f (good_url c) gs = upsert c (add_spelling f) gs
  spell_at f no_url gs = gs
  spell_at f bad_url gs = gs

  unfoldable pub group_spellings :
      List (Bytes × Spellings) → List UrlFact → List (Bytes × Spellings)
  group_spellings gs [] = gs
  group_spellings gs (f ∷ fs) = group_spellings (spell_at f (canonical_or_err f) gs) fs

  abbrev pub broken_at : UrlFact → Canonical → Option Problem
  broken_at f bad_url = some (bad_url_problem f)
  broken_at f no_url = none
  broken_at f (good_url c) = none

  unfoldable pub broken_links : List UrlFact → List Problem
  broken_links [] = []
  broken_links (f ∷ fs) = cons_some (broken_at f (canonical_or_err f)) (broken_links fs)

  -- `CheckURLIdentity`.
  unfoldable pub check_identity : List UrlFact → List Problem
  check_identity fs = sort_problems (broken_links fs ++ spelling_problems (group_spellings [] fs))

  -- `CheckFormal`.
  unfoldable pub check_formal : List UrlFact → List Problem
  check_formal fs =
      sort_problems (check_identity fs ++ (check_contradiction fs ++ check_excluded_middle fs))
