-- ===== src/Facts/Crm/TwoSources.antt =====
-- The rule of two sources in CRMAssocFacts of internal/facts/crmmerge.go.
use dph.Base.{
  ◌≡◌, ◌≢◌, refl, sym, ap, ◌∙◌, ◌⊎◌, inl, inr, Bool, true, false, Option, none, some, List, [], ◌∷◌,
  ◌++◌, if◌then◌else◌, map, List-cases, In, In-append, In-append_left, In-append_right,
}
use mathlib.Core.Path.{transport}
use dph.Base.Text.{Bytes, trim_space}
use dph.Base.Dict.{bytes_eq}
use dph.Base.Sort.{sort_by, In-sort_by}
use dph.Facts.Crm.{
  Org, CrmAssoc, Association, on_project, Mismatch, org_not_in_crm, org_without_persons,
  project_without_company, label_of, works_at_org, by_key, has_none, has_token, significant_tokens,
  first_match, match_company_name, crm_companies, persons_of, org_persons, org_matched, match_of,
  orgs_found, company_found, companies_found, project_found, projects_found, crm_assoc_facts,
}

In-map :
    {A B : Type 0} (f : A → B) (b : B) (xs : List A)
    → In b (map f xs)
    → (x : A) × In x xs × (b ≡ f x)
In-map f b [] h = absurd h
In-map f b (x ∷ xs) (inl e) = (x, inl refl, e)
In-map f b (x ∷ xs) (inr h) = let r = In-map f b xs h in (r.0, inr r.1, r.2)

map-In : {A B : Type 0} (f : A → B) (x : A) (xs : List A) → In x xs → In (f x) (map f xs)
map-In f x [] h = absurd h
map-In f x (y ∷ ys) (inl e) = inl (ap f e)
map-In f x (y ∷ ys) (inr h) = inr (map-In f x ys h)

module _ (lower : Bytes → Bytes) where
  -- The company that is matched is the first with a token of the label.
  abbrev pub IsNamed : List Bytes → Bytes → Type 0
  IsNamed toks name = has_token lower (lower (trim_space name)) toks ≡ true

  first_match-IsNamed :
      (toks names : List Bytes) (name : Bytes)
      → first_match lower toks names ≡ some name
      → In name names × IsNamed toks name
  unfolding first_match
  first_match-IsNamed toks [] name h = cc
  first_match-IsNamed toks (n ∷ ns) name h =
      chosen (first_match-IsNamed toks ns name) (has_token lower (lower (trim_space n)) toks) refl h
    where
      chosen :
          (first_match lower toks ns ≡ some name → In name ns × IsNamed toks name)
          → (t : Bool) → has_token lower (lower (trim_space n)) toks ≡ t
          → (if t then some n else first_match lower toks ns) ≡ some name
          → In name (n ∷ ns) × IsNamed toks name
      chosen k true q h = (inl cc, cc)
      chosen k false q h = let r = k h in (inr r.0, r.1)

  module _ (orgs : List (Bytes × Org)) (g : CrmAssoc) where
    abbrev labels : List Bytes
    labels = map label_of (sort_by by_key orgs)

    -- A person of a company of the CRM that has a token of the org's label.
    abbrev pub FromOrg : Association → Type 0
    FromOrg a =
        (e : Bytes × Org) × (key : Bytes) × (p : Bytes) × In e orgs
        × In key (crm_companies lower g)
        × (match_of lower g e ≡ some key)
        × IsNamed (significant_tokens lower (label_of e)) key
        × In p (persons_of lower g key)
        × (a ≡ works_at_org e.1 p)

    -- A company of a project in the CRM that the corpus has a label for.
    abbrev pub FromProject : Association → Type 0
    FromProject a =
        (t : Bytes) × (cs : List Bytes) × (c : Bytes) × (label : Bytes) × In (t, cs)
          g.projects_contacts
        × In c cs
        × In label labels
        × (match_company_name lower c labels ≡ some label)
        × IsNamed (significant_tokens lower c) label
        × (a ≡ on_project c t)

    orgs_found-From :
        (a : Association) (es : List (Bytes × Org))
        → ((e : Bytes × Org) → In e es → In e orgs)
        → In a (orgs_found lower g es).0
        → FromOrg a
    unfolding orgs_found
    orgs_found-From a [] w h = absurd h
    orgs_found-From a (e ∷ es) w h =
        either (orgs_found-From a es (λ d i. w d (inr i)))
          (In-append a (org_matched lower g e (match_of lower g e)).0 (orgs_found lower g es).0 h)
      where
        of_persons :
            (key : Bytes)
            → match_of lower g e ≡ some key
            → (ps : List Bytes) → persons_of lower g key ≡ ps
            → In a (org_persons lower g e ps).0
            → FromOrg a
        of_persons key q [] r h = absurd h
        of_persons key q (p ∷ ps) r h =
            let m = In-map (works_at_org e.1) a (p ∷ ps) h in
            let n =
              first_match-IsNamed (significant_tokens lower (label_of e)) (crm_companies lower g)
                key q in
            (e, key, m.0, w e (inl refl), n.0, q, n.1, rw r m.1, m.2)

        of_match :
            (o : Option Bytes)
            → match_of lower g e ≡ o
            → In a (org_matched lower g e o).0
            → FromOrg a
        of_match none q h = absurd h
        of_match (some key) q h = of_persons key q (persons_of lower g key) refl h

        either :
            (In a (orgs_found lower g es).0 → FromOrg a)
            → In a (org_matched lower g e (match_of lower g e)).0 ⊎ In a (orgs_found lower g es).0
            → FromOrg a
        either k (inl h) = of_match (match_of lower g e) refl h
        either k (inr h) = k h

    found-In :
        (a : Association) (e : Bytes × Org) (key p : Bytes) (es : List (Bytes × Org))
        → In e es
        → match_of lower g e ≡ some key
        → In p (persons_of lower g key)
        → a ≡ works_at_org e.1 p
        → In a (orgs_found lower g es).0
    unfolding orgs_found
    found-In a e key p [] i q r s = absurd i
    found-In a e key p (d ∷ es) (inr i) q r s =
        In-append_right a (org_matched lower g d (match_of lower g d)).0 _
          (found-In a e key p es i q r s)
    found-In a e key p (d ∷ es) (inl i) q r s =
        In-append_left a _ _ (at_match (match_of lower g d) (ap (match_of lower g) (sym i) ∙ q))
      where
        at_persons :
            (ps : List Bytes) → persons_of lower g key ≡ ps → In a (org_persons lower g d ps).0
        at_persons [] t = absurd (transport (ap (In p) t) r)
        at_persons (x ∷ ps) t =
            transport
              (ap (λ y. In y (map (works_at_org d.1) (x ∷ ps)))
                (sym (s ∙ ap (λ y. works_at_org y.1 p) i)))
              (map-In (works_at_org d.1) p (x ∷ ps) (transport (ap (In p) t) r))

        same_key : (k : Bytes) → some k ≡ some key → key ≡ k
        same_key k t = cc

        at_match : (o : Option Bytes) → o ≡ some key → In a (org_matched lower g d o).0
        at_match none t = cc
        at_match (some k) t =
            at_persons (persons_of lower g k) (ap (persons_of lower g) (same_key k t))

    companies-From :
        (a : Association) (t : Bytes) (all : List Bytes) (cs : List Bytes)
        → In (t, all) g.projects_contacts
        → ((c : Bytes) → In c cs → In c all)
        → In a (companies_found lower g labels t cs).0
        → FromProject a
    unfolding companies_found
    companies-From a t all [] i w h = absurd h
    companies-From a t all (c ∷ cs) i w h =
        either (companies-From a t all cs i (λ d j. w d (inr j)))
          (In-append a (company_found lower g t c (match_company_name lower c labels)).0 _ h)
      where
        of_match :
            (o : Option Bytes)
            → match_company_name lower c labels ≡ o
            → In a (company_found lower g t c o).0
            → FromProject a
        of_match none q h = absurd h
        of_match (some label) q (inl e) =
            let n = first_match-IsNamed (significant_tokens lower c) labels label q in
            (t, all, c, label, i, w c (inl refl), n.0, q, n.1, e)
        of_match (some label) q (inr h) = absurd h

        either :
            (In a (companies_found lower g labels t cs).0 → FromProject a)
            → In a (company_found lower g t c (match_company_name lower c labels)).0
              ⊎ In a (companies_found lower g labels t cs).0
            → FromProject a
        either k (inl h) = of_match (match_company_name lower c labels) refl h
        either k (inr h) = k h

    projects-From :
        (a : Association) (ps : List (Bytes × List Bytes))
        → ((p : Bytes × List Bytes) → In p ps → In p g.projects_contacts)
        → In a (projects_found lower g labels ps).0
        → FromProject a
    unfolding projects_found
    projects-From a [] w h = absurd h
    projects-From a ((t, cs) ∷ ps) w h =
        either (projects-From a ps (λ d j. w d (inr j)))
          (In-append a (project_found lower g labels (t, cs)).0 _ h)
      where
        some_company :
            (b : Bool)
            → In a
                (if b
                  then ([], project_without_company t ∷ [])
                  else companies_found lower g labels t cs).0
            → FromProject a
        some_company true h = absurd h
        some_company false h = companies-From a t cs cs (w (t, cs) (inl refl)) (λ c i. i) h

        either :
            (In a (projects_found lower g labels ps).0 → FromProject a)
            → In a (project_found lower g labels (t, cs)).0
              ⊎ In a (projects_found lower g labels ps).0
            → FromProject a
        either k (inl h) = some_company (has_none cs) h
        either k (inr h) = k h

    abbrev sorted_orgs : List (Bytes × Org)
    sorted_orgs = sort_by by_key orgs

    abbrev facts : List Association
    facts = (crm_assoc_facts lower orgs g).0

    abbrev mismatches : List Mismatch
    mismatches = (crm_assoc_facts lower orgs g).1

    -- An association is proven only when both sides have it: of a person and an org, the CRM has the
    -- person at a company that the label matches and that has a token of it; of a company and a
    -- project, the CRM has the company at the project, and the corpus a label with a token of its name.
    pub crm_assoc_facts-From : (a : Association) → In a facts → FromOrg a ⊎ FromProject a
    unfolding crm_assoc_facts
    crm_assoc_facts-From a h = elim (In-append a ((orgs_found lower g sorted_orgs).0 ++ []) _ h) [
      | inl k ↦ inl (
          orgs_found-From a sorted_orgs (λ e i. (In-sort_by by_key e orgs).0 i)
            (drop_nil (In-append a (orgs_found lower g sorted_orgs).0 [] k)))
      | inr k ↦ inr (
          projects-From a (sort_by by_key g.projects_contacts)
            (λ p i. (In-sort_by by_key p g.projects_contacts).0 i) k)
    ]
      where
        drop_nil :
            In a (orgs_found lower g sorted_orgs).0 ⊎ ⊥ → In a (orgs_found lower g sorted_orgs).0
        drop_nil (inl k) = k
        drop_nil (inr k) = absurd k

    facts-found : (a : Association) → In a (orgs_found lower g sorted_orgs).0 → In a facts
    unfolding crm_assoc_facts
    facts-found a h =
        In-append_left a _ _ (In-append_left a (orgs_found lower g sorted_orgs).0 [] h)

    mismatches-found : (m : Mismatch) → In m (orgs_found lower g sorted_orgs).1 → In m mismatches
    unfolding crm_assoc_facts
    mismatches-found m h =
        In-append_left m _ _ (In-append_left m (orgs_found lower g sorted_orgs).1 _ h)

    -- What is said of an org: a fact for each person of its company, or one mismatch.
    abbrev pub IsReported : Bytes × Org → Option Bytes → Type 0
    IsReported e none = In (org_not_in_crm e.0 e.1.label) mismatches
    IsReported e (some key) =
        (persons_of lower g key ≡ []) × In (org_without_persons e.0 e.1.label) mismatches
        ⊎ ((persons_of lower g key ≢ [])
            × ((p : Bytes) → In p (persons_of lower g key) → In (works_at_org e.1 p) facts))

    mismatch-In :
        (m : Mismatch) (e : Bytes × Org) (es : List (Bytes × Org))
        → In e es
        → In m (org_matched lower g e (match_of lower g e)).1
        → In m (orgs_found lower g es).1
    unfolding orgs_found
    mismatch-In m e [] i h = absurd i
    mismatch-In m e (d ∷ es) (inl i) h =
        In-append_left m _ _
          (transport (ap (λ x. In m (org_matched lower g x (match_of lower g x)).1) i) h)
    mismatch-In m e (d ∷ es) (inr i) h =
        In-append_right m (org_matched lower g d (match_of lower g d)).1 _ (mismatch-In m e es i h)

    -- No org of the corpus is passed over: where a company matches its
    -- label, each person of that company is a fact, or the company has none and that is reported;
    -- where none does, that is reported.
    pub crm_assoc_facts-IsReported :
        (e : Bytes × Org) → In e orgs → IsReported e (match_of lower g e)
    crm_assoc_facts-IsReported e i = by_match (match_of lower g e) refl
      where
        inside : In e sorted_orgs
        inside = (In-sort_by by_key e orgs).1 i

        by_match : (o : Option Bytes) → match_of lower g e ≡ o → IsReported e o
        by_match none q = mismatches-found _ (mismatch-In _ e sorted_orgs inside (rw q (inl refl)))
        by_match (some key) q = elim (List-cases (persons_of lower g key)) [
          | inl n ↦
              inl
                (n, mismatches-found _ (mismatch-In _ e sorted_orgs inside (rw (q, n) (inl refl))))
          | inr (x, xs, n) ↦ inr (
            (λ z. cc (n, z)),
            λ p j. facts-found _ (found-In _ e key p sorted_orgs inside q j refl),
          )
        ]
