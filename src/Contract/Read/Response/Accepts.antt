-- ===== src/Contract/Read/Response/Accepts.antt =====
-- The bodies that the validators of internal/contract/read.go accept.
use dph.Base.{
  ℕ, suc, ◌≡◌, ◌↔◌, refl, ◌⊎◌, inl, inr, Bool, true, false, Option, none, some, List, [], ◌∷◌,
  arith, All, ap, Option-cases,
}
use dph.Base.Text.{Bytes, codes, str_eq_iff, has, is_empty}
use dph.Base.Number.{ℤ, is_negative}
use dph.Contract.Read.{is_root, valid_day, compatible_version}
use dph.Contract.Read.Response.{
  HopNode, SearchHit, WebBlock, SearchResponse, GetResponse, StatsResponse, AuditRow, AuditResponse,
  ResponseError, results_missing, by_root_missing, by_confidence_missing, Check, fail_if, and_then,
  check_version, check_hops, check_hits, is_nil, or_empty, has_no_status, check_keys, check_search,
  check_get, check_roots, check_stats, check_rows, check_audit, validated, validate_search_response,
  validate_get_response, validate_stats_response, validate_audit_response,
}

abbrev Given : Bytes → Type 0
Given s = is_empty s ≡ false

-- The version of the contract: given, with the major number of this program.
abbrev pub RightVersion : Bytes → Type 0
RightVersion v = Given v × (compatible_version v ≡ true)

and_then-none : (a b : Check) → (and_then a b ≡ none) ↔ ((a ≡ none) × (b ≡ none))
and_then-none none b = (λ e. (refl, e), λ r. r.1)
and_then-none (some e) b = (λ q. cc, λ r. cc (r.0))

fail_if-none : (b : Bool) (e : ResponseError) → (fail_if b e ≡ none) ↔ (b ≡ false)
fail_if-none true e = (λ q. cc, λ q. cc)
fail_if-none false e = (λ q. refl, λ q. refl)

check_version-none : (v : Bytes) → (check_version v ≡ none) ↔ RightVersion v
unfolding check_version
check_version-none v = ground arith

abbrev pub HopOk : HopNode → Type 0
HopOk n = Given n.id × Given n.label × Given n.name

check_hops-none : (i j : ℕ) (hops : List HopNode) → (check_hops i j hops ≡ none) ↔ All HopOk hops
unfolding check_hops
check_hops-none i j [] = (λ e. tt, λ a. refl)
check_hops-none i j (n ∷ hops) = ground (arith, check_hops-none i (suc j) hops)

abbrev pub HitOk : SearchHit → Type 0
HitOk h =
    Given h.id
    × (is_root h.root ≡ true)
    × (valid_day h.valid_from ≡ true)
    × (valid_day h.valid_to ≡ true)
    × All HopOk h.hops

check_hits-none : (i : ℕ) (hits : List SearchHit) → (check_hits i hits ≡ none) ↔ All HitOk hits
unfolding check_hits
check_hits-none i [] = (λ e. tt, λ a. refl)
check_hits-none i (h ∷ hits) =
    ground (arith, check_hops-none i 0 h.hops, check_hits-none (suc i) hits)

-- A list that is there, with `P` for each of its members.
abbrev pub Present : {A : Type 0} → (A → Type 0) → Option (List A) → Type 0
Present P none = ⊥
Present P (some xs) = All P xs

-- The key stands at the top of a body, `keys` being those that do.
abbrev pub HasKey : Bytes → Option (List Bytes) → Type 0
HasKey k none = ⊥
HasKey k (some keys) = has keys k ≡ true

abbrev pub StatusOk : Option WebBlock → Type 0
StatusOk none = Unit
StatusOk (some web) = Given web.status

-- What is asked of a search answer; `keys` are the keys of its body. Nothing is asked of the text and
-- the score of a hit, nor whether the body has a count at all.
abbrev pub SearchOk : Option (List Bytes) → SearchResponse → Type 0
SearchOk keys r =
    RightVersion r.contract_version
    × Given r.query
    × HasKey (codes "root_filter") keys
    × (is_negative r.count ≡ false)
    × Present HitOk r.results
    × ((r.as_of ≡ []) ⊎ (valid_day r.as_of ≡ true))
    × StatusOk r.web

check_keys-none :
    (keys : Option (List Bytes)) → (check_keys keys ≡ none) ↔ HasKey (codes "root_filter") keys
check_keys-none none = (λ e. cc, λ a. absurd a)
check_keys-none (some keys) = ground arith

Present-none :
    {A : Type 0} (P : A → Type 0) (check : List A → Check) (e : ResponseError)
    → ((xs : List A) → (check xs ≡ none) ↔ All P xs)
    → (r : Option (List A))
    → ((fail_if (is_nil r) e ≡ none) × (check (or_empty r) ≡ none)) ↔ Present P r
Present-none P check e h none = (λ q. cc (q.0), λ a. absurd a)
Present-none P check e h (some xs) = ground (arith, h xs)

status_none : (web : Option WebBlock) → (has_no_status web ≡ false) ↔ StatusOk web
status_none none = (λ e. tt, λ a. refl)
status_none (some web) = (λ e. e, λ e. e)

empty_or : (s : Bytes) → (is_empty s ≡ true) ↔ (s ≡ [])
empty_or [] = (λ e. refl, λ e. refl)
empty_or (c ∷ s) = (λ e. cc, λ e. cc)

check_search-none :
    (keys : Option (List Bytes)) (r : SearchResponse)
    → (check_search keys r ≡ none) ↔ SearchOk keys r
unfolding check_search
check_search-none keys r = ground (
  arith,
  check_version-none r.contract_version,
  check_keys-none keys,
  Present-none HitOk (check_hits 0) results_missing (check_hits-none 0) r.results,
  status_none r.web,
  empty_or r.as_of,
)

abbrev pub GetOk : GetResponse → Type 0
GetOk r =
    RightVersion r.contract_version
    × Given r.id
    × (is_root r.root ≡ true)
    × Given r.confidence
    × Given r.source
    × Given r.kind
    × (valid_day r.valid_from ≡ true)
    × (valid_day r.valid_to ≡ true)

check_get-none : (r : GetResponse) → (check_get r ≡ none) ↔ GetOk r
unfolding check_get
check_get-none r = ground (arith, check_version-none r.contract_version)

abbrev pub RootOk : Bytes × ℤ → Type 0
RootOk (root, n) = (is_root root ≡ true) × (is_negative n ≡ false)

check_roots-none : (roots : List (Bytes × ℤ)) → (check_roots roots ≡ none) ↔ All RootOk roots
unfolding check_roots
check_roots-none [] = (λ e. tt, λ a. refl)
check_roots-none ((root, n) ∷ roots) = ground (arith, check_roots-none roots)

abbrev pub StatsOk : StatsResponse → Type 0
StatsOk r =
    RightVersion r.contract_version
    × (is_negative r.total ≡ false)
    × Present RootOk r.by_root
    × Given r.db

check_stats-none : (r : StatsResponse) → (check_stats r ≡ none) ↔ StatsOk r
unfolding check_stats
check_stats-none r = ground (
  arith,
  check_version-none r.contract_version,
  Present-none RootOk check_roots by_root_missing check_roots-none r.by_root,
)

abbrev pub RowOk : AuditRow → Type 0
RowOk row = (is_root row.root ≡ true) × Given row.confidence × (is_negative row.count ≡ false)

check_rows-none : (i : ℕ) (rows : List AuditRow) → (check_rows i rows ≡ none) ↔ All RowOk rows
unfolding check_rows
check_rows-none i [] = (λ e. tt, λ a. refl)
check_rows-none i (row ∷ rows) = ground (arith, check_rows-none (suc i) rows)

abbrev pub AuditOk : AuditResponse → Type 0
AuditOk r =
    RightVersion r.contract_version × (r.status ≡ codes "ok") × Present RowOk r.by_confidence

check_audit-none : (r : AuditResponse) → (check_audit r ≡ none) ↔ AuditOk r
unfolding check_audit
check_audit-none r = ground (
  arith,
  check_version-none r.contract_version,
  str_eq_iff r.status (codes "ok"),
  Present-none RowOk (check_rows 0) by_confidence_missing (check_rows-none 0) r.by_confidence,
)

validated-inr :
    {R : Type 0} (check : R → Check) (decoded : Option R) (r : R)
    → (validated check decoded ≡ inr r) ↔ ((decoded ≡ some r) × (check r ≡ none))
validated-inr check none r = (λ e. cc, λ q. cc (q.0))
validated-inr check (some s) r = elim (Option-cases (check s)) [
  | inl n ↦ rw n (
    (λ e. let q : s ≡ r = cc (e) in (ap some q, rw (← q, n))),
    λ q. let same : s ≡ r = cc (q.0) in ap inr same,
  )
  | inr (x, n) ↦ rw n ((λ e. cc), λ q. let same : s ≡ r = cc (q.0) in cc (n, q.1, ap check same))
]

module _ (decode : Bytes → Option SearchResponse) (raw_keys : Bytes → Option (List Bytes)) where
  -- An answer to a search is accepted, and returned as it is decoded, exactly if it has a version of
  -- the same major number, a query, the key of the root filter, no negative count, a list of hits
  -- with ids, known roots, days and named hops, a day or none in `as_of`, and a status in the web
  -- block if there is one; the text and the score of a hit, and whether there is a count, are not
  -- looked at, though the contract requires them.
  pub validate_search_response_iff :
      (body : Bytes) (r : SearchResponse)
      → (validate_search_response decode raw_keys body ≡ inr r)
        ↔ ((decode body ≡ some r) × SearchOk (raw_keys body) r)
  unfolding validate_search_response
  validate_search_response_iff body r =
      let v = validated-inr (check_search (raw_keys body)) (decode body) r in
      let c = check_search-none (raw_keys body) r in
      (λ e. ((v.0 e).0, c.0 (v.0 e).1), λ q. v.1 (q.0, c.1 q.1))

-- An answer about one leaf is accepted, and returned as it is decoded, exactly if it has a version
-- of the same major number, an id, a known root, a confidence, a source, a kind, and days or none.
pub validate_get_response_iff :
    (decode : Bytes → Option GetResponse) (body : Bytes) (r : GetResponse)
    → (validate_get_response decode body ≡ inr r) ↔ ((decode body ≡ some r) × GetOk r)
unfolding validate_get_response
validate_get_response_iff decode body r =
    let v = validated-inr check_get (decode body) r in
    let c = check_get-none r in (λ e. ((v.0 e).0, c.0 (v.0 e).1), λ q. v.1 (q.0, c.1 q.1))

-- Statistics are accepted, and returned as they are decoded, exactly if they have a version of the
-- same major number, a total and sums by known roots that are not negative, and a database.
pub validate_stats_response_iff :
    (decode : Bytes → Option StatsResponse) (body : Bytes) (r : StatsResponse)
    → (validate_stats_response decode body ≡ inr r) ↔ ((decode body ≡ some r) × StatsOk r)
unfolding validate_stats_response
validate_stats_response_iff decode body r =
    let v = validated-inr check_stats (decode body) r in
    let c = check_stats-none r in (λ e. ((v.0 e).0, c.0 (v.0 e).1), λ q. v.1 (q.0, c.1 q.1))

-- An audit is accepted, and returned as it is decoded, exactly if it has a version of the same major
-- number, the status ok, and rows of known roots with a confidence and a count that is not negative.
pub validate_audit_response_iff :
    (decode : Bytes → Option AuditResponse) (body : Bytes) (r : AuditResponse)
    → (validate_audit_response decode body ≡ inr r) ↔ ((decode body ≡ some r) × AuditOk r)
unfolding validate_audit_response
validate_audit_response_iff decode body r =
    let v = validated-inr check_audit (decode body) r in
    let c = check_audit-none r in (λ e. ((v.0 e).0, c.0 (v.0 e).1), λ q. v.1 (q.0, c.1 q.1))
