-- ===== src/Contract/Read/Response.antt =====
-- The validators of internal/contract/read.go. Each reports its first error; the messages are the
-- constructors of `ResponseError`, with the index of the hit, hop or row.
pub mod Accepts
use dph.Base.{
  ℕ, suc, ◌≡◌, ◌⊎◌, inl, inr, Bool, true, false, not, ◌&&◌, ◌||◌, Option, none, some, List, [], ◌∷◌,
  if◌then◌else◌,
}
use dph.Base.Text.{Bytes, codes, str_eq, has, is_empty}
use dph.Base.Number.{ℤ, is_negative}
use dph.Contract.Read.{is_root, is_confidence, valid_day, compatible_version}

pub record HopNode : Type 0 where
  pub id : Bytes
  pub label : Bytes
  pub name : Bytes
  pub depth : ℤ

-- A hit; its score, a floating-point number that no validator reads, is left out.
pub record SearchHit : Type 0 where
  pub id : Bytes
  pub text : Bytes
  pub root : Bytes
  pub confidence : Bytes
  pub snippet : Bytes
  pub valid_from : Bytes
  pub valid_to : Bytes
  pub hops : List HopNode

pub record WebBlockHit : Type 0 where
  pub rank : ℤ
  pub title : Bytes
  pub url : Bytes
  pub snippet : Bytes
  pub engine : Bytes

pub record WebBlock : Type 0 where
  pub status : Bytes
  pub note : Bytes
  pub cached : Bool
  pub results : Option (List WebBlockHit)

-- `results` and `web` are none where the pointer or the slice is nil.
pub record SearchResponse : Type 0 where
  pub contract_version : Bytes
  pub query : Bytes
  pub root_filter : Bytes
  pub as_of : Bytes
  pub count : ℤ
  pub results : Option (List SearchHit)
  pub web : Option WebBlock

pub record GetResponse : Type 0 where
  pub contract_version : Bytes
  pub id : Bytes
  pub root : Bytes
  pub confidence : Bytes
  pub source : Bytes
  pub kind : Bytes
  pub valid_from : Bytes
  pub valid_to : Bytes
  pub snippet : Bytes
  pub text : Bytes

-- `by_root` holds its entries in the order of the range over the map.
pub record StatsResponse : Type 0 where
  pub contract_version : Bytes
  pub total : ℤ
  pub by_root : Option (List (Bytes × ℤ))
  pub db : Bytes

pub record AuditRow : Type 0 where
  pub root : Bytes
  pub confidence : Bytes
  pub count : ℤ

pub record AuditResponse : Type 0 where
  pub contract_version : Bytes
  pub status : Bytes
  pub by_confidence : Option (List AuditRow)

pub data ResponseError : Type 0 where
  not_json version_missing version_incompatible : ResponseError
  query_missing root_filter_missing count_negative results_missing bad_as_of web_status_missing :
      ResponseError
  hit_id_missing bad_hit_root bad_hit_from bad_hit_to : ℕ → ResponseError
  hop_id_missing hop_label_missing hop_name_missing : ℕ → ℕ → ResponseError
  id_missing bad_root confidence_missing source_missing kind_missing bad_days : ResponseError
  total_negative by_root_missing db_missing : ResponseError
  bad_root_key root_negative : Bytes → ResponseError
  bad_status by_confidence_missing : ResponseError
  bad_row_root row_confidence_missing row_negative : ℕ → ResponseError

abbrev pub Check : Type 0
Check = Option ResponseError

-- An early return with an error where the test holds.
abbrev pub fail_if : Bool → ResponseError → Check
fail_if b e = if b then some e else none

-- The checks in order: the first error.
abbrev pub and_then : Check → Check → Check
and_then none next = next
and_then (some e) next = some e

-- `checkVersion`.
unfoldable pub check_version : Bytes → Check
check_version v =
    and_then (fail_if (is_empty v) version_missing)
      (fail_if (not (compatible_version v)) version_incompatible)

unfoldable pub check_hops : ℕ → ℕ → List HopNode → Check
check_hops i j [] = none
check_hops i j (n ∷ hops) = and_then (fail_if (is_empty n.id) (hop_id_missing i j)) (
    and_then (fail_if (is_empty n.label) (hop_label_missing i j))
      (and_then (fail_if (is_empty n.name) (hop_name_missing i j)) (check_hops i (suc j) hops)))

unfoldable pub check_hits : ℕ → List SearchHit → Check
check_hits i [] = none
check_hits i (h ∷ hits) = and_then (fail_if (is_empty h.id) (hit_id_missing i)) (
    and_then (fail_if (not (is_root h.root)) (bad_hit_root i)) (
      and_then (fail_if (not (valid_day h.valid_from)) (bad_hit_from i)) (
        and_then (fail_if (not (valid_day h.valid_to)) (bad_hit_to i))
          (and_then (check_hops i 0 h.hops) (check_hits (suc i) hits)))))

abbrev pub is_nil : {A : Type 0} → Option (List A) → Bool
is_nil none = true
is_nil (some xs) = false

abbrev pub or_empty : {A : Type 0} → Option (List A) → List A
or_empty none = []
or_empty (some xs) = xs

abbrev pub has_no_status : Option WebBlock → Bool
has_no_status none = false
has_no_status (some web) = is_empty web.status

-- The presence of the key `root_filter`, among the keys of the body.
abbrev pub check_keys : Option (List Bytes) → Check
check_keys none = some not_json
check_keys (some keys) = fail_if (not (has keys (codes "root_filter"))) root_filter_missing

unfoldable pub check_search : Option (List Bytes) → SearchResponse → Check
check_search keys r = and_then (check_version r.contract_version) (
    and_then (fail_if (is_empty r.query) query_missing) (
      and_then (check_keys keys) (
        and_then (fail_if (is_negative r.count) count_negative) (
          and_then (fail_if (is_nil r.results) results_missing) (
            and_then (fail_if (not (is_empty r.as_of) && not (valid_day r.as_of)) bad_as_of) (
              and_then (check_hits 0 (or_empty r.results))
                (fail_if (has_no_status r.web) web_status_missing)))))))

unfoldable pub check_get : GetResponse → Check
check_get r = and_then (check_version r.contract_version) (
    and_then (fail_if (is_empty r.id) id_missing) (
      and_then (fail_if (not (is_root r.root)) bad_root) (
        and_then (fail_if (not (is_confidence r.confidence)) confidence_missing) (
          and_then (fail_if (is_empty r.source) source_missing) (
            and_then (fail_if (is_empty r.kind) kind_missing)
              (fail_if (not (valid_day r.valid_from) || not (valid_day r.valid_to)) bad_days))))))

unfoldable pub check_roots : List (Bytes × ℤ) → Check
check_roots [] = none
check_roots ((root, n) ∷ roots) =
    and_then (fail_if (not (is_root root)) (bad_root_key root))
      (and_then (fail_if (is_negative n) (root_negative root)) (check_roots roots))

unfoldable pub check_stats : StatsResponse → Check
check_stats r = and_then (check_version r.contract_version) (
    and_then (fail_if (is_negative r.total) total_negative) (
      and_then (fail_if (is_nil r.by_root) by_root_missing)
        (and_then (fail_if (is_empty r.db) db_missing) (check_roots (or_empty r.by_root)))))

unfoldable pub check_rows : ℕ → List AuditRow → Check
check_rows i [] = none
check_rows i (row ∷ rows) = and_then (fail_if (not (is_root row.root)) (bad_row_root i)) (
    and_then (fail_if (not (is_confidence row.confidence)) (row_confidence_missing i))
      (and_then (fail_if (is_negative row.count) (row_negative i)) (check_rows (suc i) rows)))

unfoldable pub check_audit : AuditResponse → Check
check_audit r = and_then (check_version r.contract_version) (
    and_then (fail_if (not (str_eq r.status (codes "ok"))) bad_status) (
      and_then (fail_if (is_nil r.by_confidence) by_confidence_missing)
        (check_rows 0 (or_empty r.by_confidence))))

module _ {R : Type 0} where
  abbrev checked : R → Check → ResponseError ⊎ R
  checked r none = inr r
  checked r (some e) = inl e

  -- A decoded body and its check.
  abbrev pub validated : (R → Check) → Option R → ResponseError ⊎ R
  validated check none = inl not_json
  validated check (some r) = checked r (check r)

module _ (decode : Bytes → Option SearchResponse) (raw_keys : Bytes → Option (List Bytes)) where
  -- `ValidateSearchResponse`.
  unfoldable pub validate_search_response : Bytes → ResponseError ⊎ SearchResponse
  validate_search_response body = validated (check_search (raw_keys body)) (decode body)

module _ (decode : Bytes → Option GetResponse) where
  -- `ValidateGetResponse`.
  unfoldable pub validate_get_response : Bytes → ResponseError ⊎ GetResponse
  validate_get_response body = validated check_get (decode body)

module _ (decode : Bytes → Option StatsResponse) where
  -- `ValidateStatsResponse`.
  unfoldable pub validate_stats_response : Bytes → ResponseError ⊎ StatsResponse
  validate_stats_response body = validated check_stats (decode body)

module _ (decode : Bytes → Option AuditResponse) where
  -- `ValidateAuditResponse`.
  unfoldable pub validate_audit_response : Bytes → ResponseError ⊎ AuditResponse
  validate_audit_response body = validated check_audit (decode body)
