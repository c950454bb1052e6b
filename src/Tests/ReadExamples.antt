-- ===== src/Tests/ReadExamples.antt =====
-- Examples on the contract of the answers.
use dph.Base.{ℕ, ◌≡◌, ◌↔◌, ◌≤◌, ◌<◌, ◌⊎◌, inl, inr, refl, true, Option, none, some, List, [], ◌∷◌}
use dph.Base.Text.{Bytes, codes}
use dph.Base.Number.{pos}
use dph.Contract.Read.{valid_day, compatible_version}
use dph.Contract.Read.Day.{day_text, valid_day_iff}
use dph.Contract.Read.Response.{
  SearchHit, SearchResponse, GetResponse, StatsResponse, AuditResponse, validate_search_response,
}
use dph.Contract.Read.Response.Accepts.{SearchOk, validate_search_response_iff}

valid_day_iff_example : (valid_day (codes "2025-02-31") ≡ true) ↔ (
    (codes "2025-02-31" ≡ [])
    ⊎ ((y m d : ℕ) × (y < 10000)
        × (1 ≤ m)
        × (m ≤ 12)
        × (1 ≤ d)
        × (d ≤ 31)
        × (codes "2025-02-31" ≡ day_text y m d)))
valid_day_iff_example = valid_day_iff (codes "2025-02-31")

abbrev version : Bytes
version = codes "1.2"

version_test : compatible_version version ≡ true
unfolding compatible_version dph.Contract.Read.parse_version dph.Contract.Read.split_dots
    dph.Contract.Read.read_contract_major dph.Base.Number.atoi dph.Base.Number.digits
version_test = refl

abbrev one_hit : SearchHit
one_hit = record {
  id = codes "a";
  text = codes "t";
  root = codes "facts";
  confidence = codes "confirmed";
  snippet = [];
  valid_from = codes "2025-02-01";
  valid_to = [];
  hops = record { id = codes "f"; label = codes "File"; name = codes "x"; depth = pos 1 } ∷ [];
}

abbrev found : SearchResponse
found = record {
  contract_version = version;
  query = codes "q";
  root_filter = [];
  as_of = [];
  count = pos 1;
  results = some (one_hit ∷ []);
  web = none;
}

abbrev decode_found : Bytes → Option SearchResponse
decode_found body = some found

abbrev keys_found : Bytes → Option (List Bytes)
keys_found body = some (codes "query" ∷ codes "root_filter" ∷ [])

validate_search_response_iff_example :
    (validate_search_response decode_found keys_found [] ≡ inr found)
    ↔ ((decode_found [] ≡ some found) × SearchOk (keys_found []) found)
validate_search_response_iff_example = validate_search_response_iff decode_found keys_found [] found

abbrev got : GetResponse
got = record {
  contract_version = version;
  id = codes "a";
  root = codes "info";
  confidence = codes "inferred";
  source = codes "mail";
  kind = codes "message";
  valid_from = [];
  valid_to = [];
  snippet = [];
  text = codes "t";
}

abbrev decode_got : Bytes → Option GetResponse
decode_got body = some got

abbrev sums : StatsResponse
sums = record {
  contract_version = version;
  total = pos 3;
  by_root = some ((codes "facts", pos 1) ∷ (codes "info", pos 2) ∷ []);
  db = codes "var/kb.lbug";
}

abbrev decode_sums : Bytes → Option StatsResponse
decode_sums body = some sums

abbrev audit : AuditResponse
audit = record {
  contract_version = version;
  status = codes "ok";
  by_confidence =
      some (record { root = codes "facts"; confidence = codes "confirmed"; count = pos 1 } ∷ []);
}

abbrev decode_audit : Bytes → Option AuditResponse
decode_audit body = some audit
