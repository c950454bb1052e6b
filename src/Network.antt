-- ===== src/Network.antt =====
-- The network of contacts: internal/network/network.go. Lower case and its comparison in Unicode, the
-- reading of a date as an instant, and the kind of a sender (internal/mailconv) are given.
pub mod Periods
pub mod Links
pub mod Build
use dph.Base.{
  ℕ, zero, suc, ◌+◌, ◌≡◌, Bool, true, false, not, ◌&&◌, ◌||◌, Option, none, some, List, [], ◌∷◌,
  ◌++◌, if◌then◌else◌, leb, ltb, ◌==◌, length, take, drop,
}
use dph.Base.Text.{Bytes, str_eq, str_lt, is_empty, index_of, codes}

-- `MsgRow`.
pub record MsgRow : Type 0 where
  pub id : Bytes
  pub thread_id : Bytes
  pub sent_at : Bytes
  pub gator_ref : Bytes
  pub sender : Bytes
  pub to : List Bytes
  pub cc : List Bytes
  pub bcc : List Bytes
  pub reply_to : Bytes

-- `CommitRow`.
pub record CommitRow : Type 0 where
  pub id : Bytes
  pub repo : Bytes
  pub date : Bytes
  pub email : Bytes

-- `PersonRow`.
pub record PersonRow : Type 0 where
  pub id : Bytes
  pub name : Bytes

-- `Rows`.
pub record Rows : Type 0 where
  pub msgs : List MsgRow
  pub commits : List CommitRow
  pub persons : List PersonRow

-- `Filter`; a zero time is none.
pub record Filter : Type 0 where
  pub person : Bytes
  pub project : Bytes
  pub since : Option ℕ
  pub until : Option ℕ

-- The kinds of a premise.
pub data PremiseKind : Type 0 where
  mail commit : PremiseKind

-- `Premise`.
pub record Premise : Type 0 where
  pub kind : PremiseKind
  pub ref : Bytes
  pub date : Bytes

-- `ProjectLink`.
pub record ProjectLink : Type 0 where
  pub repo : Bytes
  pub commits_me : ℕ
  pub commits_q : ℕ
  pub period : Bytes

pub data Verdict : Type 0 where
  no_verdict accept weaken : Verdict

-- The gaps that `verdict` names.
pub data Gap : Type 0 where
  single_contact only_shared no_contact : Gap

-- `Link`; a weight is counted in quarters, which all weights are multiples of.
pub record Link : Type 0 where
  pub person : Bytes
  pub name : Bytes
  pub kind : Bytes
  pub msgs : ℕ
  pub shared_cc : ℕ
  pub threads : ℕ
  pub replies : ℕ
  pub weight : ℕ
  pub period : Bytes
  pub projects : List ProjectLink
  pub premises : List Premise
  pub verdict : Verdict
  pub gaps : List Gap

-- The weights of the roles and the bonuses, in quarters.
abbrev pub role_to : ℕ
role_to = 4

abbrev pub role_cc : ℕ
role_cc = 2

abbrev pub role_bcc : ℕ
role_bcc = 1

abbrev pub reply_bonus : ℕ
reply_bonus = 2

abbrev pub shared_bonus : ℕ
shared_bonus = 1

-- `verdict`.
unfoldable pub verdict : Link → Verdict × List Gap
verdict l =
    if leb 2 l.msgs || (leb 1 l.replies || ltb 0 (length l.projects))
    then (accept, [])
    else if l.msgs == 1
    then (weaken, single_contact ∷ [])
    else if ltb 0 l.shared_cc
    then (weaken, only_shared ∷ [])
    else (weaken, no_contact ∷ [])

-- `OnlyKind`.
unfoldable pub of_kind : Bytes → List Link → List Link
of_kind kind [] = []
of_kind kind (l ∷ ls) = let rest = of_kind kind ls in if str_eq l.kind kind then l ∷ rest else rest

abbrev pub only_kind : List Link → Bytes → List Link
only_kind ls kind = if is_empty kind then ls else of_kind kind ls
