-- ===== src/Tests/AuditExamples.antt =====
-- Examples on audit cards and fact rows.
use dph.Base.{
  ℕ, suc, ◌≡◌, ◌≢◌, ◌↔◌, ◌≤◌, ◌<◌, ◌⊎◌, inl, inr, refl, true, false, Option, none, some, List, [],
  ◌∷◌, arith, All, In,
}
use dph.Base.Text.{Bytes, codes, contains, is_empty}
use dph.Facts.Audit.{AuditCard, audit_number, max_number}

abbrev card : AuditCard
card = record {
  id = codes "AUD-0001";
  date = codes "2025-02-01";
  claim = codes "open";
  premises = codes "FACT-1" ∷ [];
  inference = codes "deduction";
  gaps = [];
  counter = codes "none";
  verdict = codes "accept";
}

abbrev sources : Bytes
sources = codes "a x b vs c x d"

abbrev ids : List Bytes
ids = codes "AUD-0007" ∷ codes "FACT-9" ∷ codes "AUD-2" ∷ []

max_test : max_number 0 ids ≡ 7
unfolding max_number audit_number dph.Base.Text.trim_space dph.Base.Text.has_prefix
    dph.Base.Number.digits
max_test = refl

ids_in_range : max_number 0 ids < 9223372036854775807
ids_in_range = omega (arith, max_test)
