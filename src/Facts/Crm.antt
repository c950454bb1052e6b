-- ===== src/Facts/Crm.antt =====
-- The associations of internal/facts/crmassoc.go and internal/facts/crmmerge.go, with messages as data.
-- A Go map is an association list with one entry a key; lower case in Unicode is given.
pub mod TwoSources
use dph.Base.{
  ℕ, zero, suc, ◌≡◌, Bool, true, false, not, ◌&&◌, ◌||◌, Option, none, some, List, [], ◌∷◌, ◌++◌,
  if◌then◌else◌, leb, map,
}
use dph.Base.Text.{Bytes, codes, str_eq, str_lt, has, contains, is_empty, trim_space}
use dph.Base.Text.Words.{fields, trim_bytes}
use dph.Base.Dict.{bytes_eq, lookup, keys}
use dph.Base.Sort.{sort_by}

-- `Org`.
pub record Org : Type 0 where
  pub label : Bytes
  pub kind : Bytes
  pub period : Bytes
  pub website : Bytes

-- `CRMAssoc`: the persons of each company, and the companies of each project.
pub record CrmAssoc : Type 0 where
  pub companies_with_persons : List (Bytes × List Bytes)
  pub projects_contacts : List (Bytes × List Bytes)

-- The facts that are proven.
pub data Association : Type 0 where
  works_at : Bytes → Bytes → Bytes → Bytes → Association
  on_project : Bytes → Bytes → Association

-- The associations that have one source only.
pub data Mismatch : Type 0 where
  org_not_in_crm : Bytes → Bytes → Mismatch
  org_without_persons : Bytes → Bytes → Mismatch
  only_in_crm : Bytes → Mismatch
  project_without_company : Bytes → Mismatch
  company_not_in_corpus : Bytes → Bytes → Mismatch

abbrev pub Findings : Type 0
Findings = List Association × List Mismatch

abbrev pub both : Findings → Findings → Findings
both a b = (a.0 ++ b.0, a.1 ++ b.1)

-- `companyStopwords`.
abbrev pub company_stopwords : List Bytes
company_stopwords =
    codes "client"
    ∷ codes "customer"
    ∷ codes "employer"
    ∷ codes "company"
    ∷ codes "gmbh"
    ∷ codes "ag"
    ∷ codes "ltd"
    ∷ codes "limited"
    ∷ codes "llc"
    ∷ codes "inc"
    ∷ codes "group"
    ∷ codes "platform"
    ∷ codes "systems"
    ∷ []

abbrev pub is_latin : ℕ → Bool
is_latin c = (leb b'a' c && leb c b'z') || (leb b'A' c && leb c b'Z')

-- The count of Latin letters of a word.
unfoldable pub letters_of : Bytes → ℕ
letters_of [] = 0
letters_of (c ∷ s) = let n = letters_of s in if is_latin c then suc n else n

-- `def`.
abbrev pub default_text : Bytes → Bytes → Bytes
default_text v fallback = if is_empty v then fallback else v

abbrev pub label_of : Bytes × Org → Bytes
label_of (id, o) = if is_empty o.label then id else o.label

abbrev pub or_nothing : Option (List Bytes) → List Bytes
or_nothing none = []
or_nothing (some ps) = ps

abbrev pub has_none : List Bytes → Bool
has_none [] = true
has_none (p ∷ ps) = false

-- `(role: …)`.
abbrev pub works_at_org : Org → Bytes → Association
works_at_org o person = works_at person o.label (default_text o.kind (codes "?")) o.period

abbrev pub by_key : {V : Type 0} → Bytes × V → Bytes × V → Bool
by_key a b = str_lt a.0 b.0

module _ (lower : Bytes → Bytes) where
  -- A round of `significantTokens`.
  abbrev pub trimmed_word : Bytes → Bytes
  trimmed_word w = trim_bytes (codes "()/.,'\"") w

  unfoldable pub tokens_of : List Bytes → List Bytes
  tokens_of [] = []
  tokens_of (w ∷ ws) =
      let rest = tokens_of ws in
      if not (leb 4 (letters_of (trimmed_word w)))
      then rest
      else if has company_stopwords (lower (trimmed_word w))
      then rest
      else lower (trimmed_word w) ∷ rest

  -- `significantTokens`.
  abbrev pub significant_tokens : Bytes → List Bytes
  significant_tokens s = tokens_of (fields s)

  unfoldable pub has_token : Bytes → List Bytes → Bool
  has_token nl [] = false
  has_token nl (t ∷ ts) = contains nl t || has_token nl ts

  -- The loop over the companies.
  unfoldable pub first_match : List Bytes → List Bytes → Option Bytes
  first_match toks [] = none
  first_match toks (name ∷ names) =
      let rest = first_match toks names in
      if has_token (lower (trim_space name)) toks then some name else rest

  -- `MatchCompanyName`.
  abbrev pub match_company_name : Bytes → List Bytes → Option Bytes
  match_company_name label names = first_match (significant_tokens label) names

  module _ (g : CrmAssoc) where
    abbrev pub crm_companies : List Bytes
    crm_companies = sort_by str_lt (keys g.companies_with_persons)

    abbrev pub persons_of : Bytes → List Bytes
    persons_of key = or_nothing (lookup key g.companies_with_persons)

    -- A corpus org whose company in the CRM has the persons.
    abbrev pub org_persons : Bytes × Org → List Bytes → Findings
    org_persons (id, o) [] = ([], org_without_persons id o.label ∷ [])
    org_persons (id, o) (p ∷ ps) = (map (works_at_org o) (p ∷ ps), [])

    abbrev pub org_matched : Bytes × Org → Option Bytes → Findings
    org_matched (id, o) none = ([], org_not_in_crm id o.label ∷ [])
    org_matched (id, o) (some key) = org_persons (id, o) (persons_of key)

    abbrev pub match_of : Bytes × Org → Option Bytes
    match_of e = match_company_name (label_of e) crm_companies

    -- The loop over the orgs.
    unfoldable pub orgs_found : List (Bytes × Org) → Findings
    orgs_found [] = ([], [])
    orgs_found (e ∷ es) = both (org_matched e (match_of e)) (orgs_found es)

    -- `matchedCorpus`.
    abbrev pub with_matched : Option Bytes → List Bytes → List Bytes
    with_matched none ks = ks
    with_matched (some key) ks = if has_none (persons_of key) then ks else key ∷ ks

    unfoldable pub matched_corpus : List (Bytes × Org) → List Bytes
    matched_corpus [] = []
    matched_corpus (e ∷ es) = with_matched (match_of e) (matched_corpus es)

    -- The loop over the companies of the CRM.
    unfoldable pub crm_only : List Bytes → List Bytes → List Mismatch
    crm_only matched [] = []
    crm_only matched (c ∷ cs) =
        let rest = crm_only matched cs in
        if has matched c || has_none (persons_of c) then rest else only_in_crm c ∷ rest

    abbrev pub company_found : Bytes → Bytes → Option Bytes → Findings
    company_found t c none = ([], company_not_in_corpus t c ∷ [])
    company_found t c (some name) = (on_project c t ∷ [], [])

    -- The loop over the companies of a project.
    unfoldable pub companies_found : List Bytes → Bytes → List Bytes → Findings
    companies_found labels t [] = ([], [])
    companies_found labels t (c ∷ cs) =
        both (company_found t c (match_company_name c labels)) (companies_found labels t cs)

    abbrev pub project_found : List Bytes → Bytes × List Bytes → Findings
    project_found labels (t, cs) =
        if has_none cs then ([], project_without_company t ∷ []) else companies_found labels t cs

    -- The loop over the projects.
    unfoldable pub projects_found : List Bytes → List (Bytes × List Bytes) → Findings
    projects_found labels [] = ([], [])
    projects_found labels (p ∷ ps) = both (project_found labels p) (projects_found labels ps)

  -- `CRMAssocFacts`.
  unfoldable pub crm_assoc_facts : List (Bytes × Org) → CrmAssoc → Findings
  crm_assoc_facts orgs g =
      let es = sort_by by_key orgs in
      both (both (orgs_found g es) ([], crm_only g (matched_corpus g es) (crm_companies g)))
        (projects_found g (map label_of es) (sort_by by_key g.projects_contacts))
