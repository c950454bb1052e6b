-- ===== src/Tests/CrmExamples.antt =====
-- Examples on the associations: one org that the CRM has too, one that it has not.
use dph.Base.{◌≡◌, refl, inl, ◌⊎◌, List, [], ◌∷◌, In}
use dph.Base.Text.{Bytes, codes, str_eq, str_lt, has, has_prefix, contains, trim_space}
use dph.Base.Text.Words.{split_words, is_byte_of, trim_front}
use dph.Base.Dict.{lookup}
use dph.Base.Sort.{insert_by, sort_by}
use dph.Facts.Crm.{
  Org, CrmAssoc, works_at, on_project, org_not_in_crm, only_in_crm, letters_of, tokens_of,
  has_token, first_match, orgs_found, matched_corpus, crm_only, companies_found, projects_found,
  crm_assoc_facts, match_of,
}
use dph.Facts.Crm.TwoSources.{
  FromOrg, FromProject, IsReported, crm_assoc_facts-From, crm_assoc_facts-IsReported,
}

abbrev as_is : Bytes → Bytes
as_is s = s

abbrev org_of : Bytes → Org
org_of label = record { label = label; kind = codes "work"; period = codes "2020"; website = [] }

abbrev two_orgs : List (Bytes × Org)
two_orgs = (codes "b", org_of (codes "other (ag)")) ∷ (codes "a", org_of (codes "acme ltd")) ∷ []

abbrev crm : CrmAssoc
crm = record {
  companies_with_persons =
      (codes "the acme", codes "ann" ∷ []) ∷ (codes "x", codes "bob" ∷ []) ∷ [];
  projects_contacts = (codes "p", codes "acme" ∷ []) ∷ [];
}

associations : crm_assoc_facts as_is two_orgs crm ≡ (
  works_at (codes "ann") (codes "acme ltd") (codes "work") (codes "2020")
      ∷ on_project (codes "acme") (codes "p")
      ∷ [],
  org_not_in_crm (codes "b") (codes "other (ag)") ∷ only_in_crm (codes "x") ∷ [],
)
unfolding crm_assoc_facts orgs_found matched_corpus crm_only companies_found projects_found
    letters_of tokens_of has_token first_match insert_by sort_by lookup str_eq str_lt has has_prefix
    contains trim_space split_words is_byte_of trim_front
associations = refl

ann_found :
    In
      (works_at (codes "ann") (codes "acme ltd") (codes "work") (codes "2020"))
      (crm_assoc_facts as_is two_orgs crm).0
ann_found = rw associations (inl refl)

crm_assoc_facts-From_example :
    FromOrg as_is two_orgs crm
      (works_at (codes "ann") (codes "acme ltd") (codes "work") (codes "2020"))
    ⊎ FromProject as_is two_orgs crm
        (works_at (codes "ann") (codes "acme ltd") (codes "work") (codes "2020"))
crm_assoc_facts-From_example =
    crm_assoc_facts-From as_is two_orgs crm
      (works_at (codes "ann") (codes "acme ltd") (codes "work") (codes "2020")) ann_found

crm_assoc_facts-IsReported_example :
    IsReported as_is two_orgs crm
      (codes "b", org_of (codes "other (ag)"))
      (match_of as_is crm (codes "b", org_of (codes "other (ag)")))
crm_assoc_facts-IsReported_example =
    crm_assoc_facts-IsReported as_is two_orgs crm (codes "b", org_of (codes "other (ag)"))
      (inl refl)
