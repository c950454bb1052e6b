-- ===== src/Tests/FactsExamples.antt =====
-- Examples on internal/facts.
use dph.Base.{
  ℕ, ◌≡◌, ◌↔◌, ◌⊎◌, refl, inl, inr, Bool, true, false, Option, none, some, List, [], ◌∷◌, ◌++◌, In,
  arith,
}
use dph.Base.Text.{Bytes, codes, str_eq, trim_space}
use dph.Facts.Formal.Grouping.{belongs}
use dph.Facts.Contradict.{Source, Claim, yes_side, no_side, independent, adjudicate}
use dph.Facts.Contradict.Symmetry.{Prevails, adjudicate-Prevails}
use dph.Facts.Interval.{normalize_day, intervals_overlap, active_at}
use dph.Facts.Interval.Overlap.{WellOrdered, CommonDay, overlap_iff_CommonDay}
use dph.Facts.Formal.{UrlFact, Problem, reject, check_contradiction, canonical_or_err, is_crisp}
use dph.Facts.Formal.Contradiction.{
  Contradict, check_contradiction_complete, check_contradiction_sound,
}

-- A printer of numbers for the examples.
abbrev digit : ℕ → Bytes
digit n = n ∷ []

abbrev src : Bytes → Bytes → Bool → Source
src id kind stale = record { id = id; kind = kind; when = []; stale = stale }

abbrev runtime_config : List Source
runtime_config =
    src (codes "a") (codes "runtime") false ∷ src (codes "b") (codes "config") false ∷ []

abbrev old_docs : List Source
old_docs = src (codes "c") (codes "doc") true ∷ src (codes "d") (codes "doc") false ∷ []

abbrev tie : Claim
tie = record { text = codes "port"; sides_yes = runtime_config; sides_no = old_docs }

adjudicate_test : (adjudicate digit tie).winner ≡ yes_side
unfolding adjudicate independent dph.Facts.Contradict.collect_keys dph.Base.Text.has
    dph.Base.Text.str_eq dph.Facts.Contradict.source_key dph.Facts.Contradict.fresh_n
adjudicate_test = refl

adjudicate-Prevails_example :
    (((adjudicate digit tie).winner ≡ yes_side) ↔ Prevails digit runtime_config old_docs)
    × (((adjudicate digit tie).winner ≡ no_side) ↔ Prevails digit old_docs runtime_config)
    × (((adjudicate digit tie).is_confirmed ≡ true)
        ↔ (Prevails digit runtime_config old_docs ⊎ Prevails digit old_docs runtime_config))
adjudicate-Prevails_example = adjudicate-Prevails digit tie

abbrev day1 : Bytes
day1 = codes "2025-01-01"

abbrev day2 : Bytes
day2 = codes "2025-06-30"

day1_before_day2 : WellOrdered day1 day2
unfolding dph.Base.Text.str_lt normalize_day
day1_before_day2 = inr (inr refl)

from_day2 : WellOrdered day2 []
unfolding normalize_day
from_day2 = inr (inl refl)

overlap_iff_CommonDay_example :
    (intervals_overlap day1 day2 day2 [] ≡ true) ↔ ((d : Bytes) × CommonDay day1 day2 day2 [] d)
overlap_iff_CommonDay_example = overlap_iff_CommonDay day1 day2 day2 [] day1_before_day2 from_day2

-- Canonical URLs for the examples: every text is one.
abbrev same_url : Bytes → Option Bytes
same_url u = some u

abbrev claim_of : Bytes → Bool → UrlFact
claim_of id neg = record {
  id = id;
  url = codes "u";
  claim = codes "open";
  attr = codes "state";
  neg = neg;
  conf = [];
  from = [];
  to = [];
}

abbrev yes_fact : UrlFact
yes_fact = claim_of (codes "FACT-1") false

abbrev no_fact : UrlFact
no_fact = claim_of (codes "FACT-2") true

abbrev two_facts : List UrlFact
two_facts = yes_fact ∷ no_fact ∷ []

they-Contradict : Contradict same_url (codes "u", codes "state") yes_fact no_fact
unfolding belongs is_crisp canonical_or_err trim_space intervals_overlap normalize_day str_eq
    dph.Facts.Interval.overlap_in
they-Contradict = (refl, refl, refl, refl, refl)

check_contradiction_complete_example :
    (p : Problem) × In p (check_contradiction same_url two_facts)
    × (p.url ≡ codes "u")
    × (p.verdict ≡ reject)
    × In (codes "FACT-1") p.fact_ids
    × In (codes "FACT-2") p.fact_ids
check_contradiction_complete_example =
    check_contradiction_complete same_url two_facts (codes "u", codes "state") yes_fact no_fact
      (inl refl) (inr (inl refl)) they-Contradict

one_report : (p : Problem) × In p (check_contradiction same_url two_facts)
one_report =
    let r =
      check_contradiction_complete same_url two_facts (codes "u", codes "state") yes_fact no_fact
        (inl refl) (inr (inl refl)) they-Contradict in
    (r.0, r.1)

check_contradiction_sound_example :
    (k : Bytes × Bytes) × (a b : UrlFact) × (one_report.0.url ≡ k.0)
    × In a two_facts
    × In b two_facts
    × Contradict same_url k a b
check_contradiction_sound_example =
    check_contradiction_sound same_url two_facts one_report.0 one_report.1

abbrev doubtful : List UrlFact
doubtful = record yes_fact { conf = codes "hypothesis" } ∷ two_facts
