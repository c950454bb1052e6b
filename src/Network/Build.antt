-- ===== src/Network/Build.antt =====
-- `BuildLinks` of internal/network/network.go, channel by channel. The links in progress are an
-- association list by person, in the order in which the persons were met; `repo_order` is the order in
-- which Go goes through the map of repositories.
pub mod Recipients
pub mod Letters
pub mod Counts
pub mod Grounds
pub mod Ledger
pub mod Order
pub mod Answer
use dph.Base.{
  ℕ, zero, suc, ◌+◌, ◌≡◌, Bool, true, false, not, ◌&&◌, ◌||◌, Option, none, some, List, [], ◌∷◌,
  ◌++◌, if◌then◌else◌, leb, ltb, ◌==◌, length, map,
}
use dph.Base.Text.{Bytes, str_eq, str_lt, is_empty, has, trim_space}
use dph.Base.Dict.{bytes_eq, lookup, upsert, keys}
use dph.Base.Sort.{sort_by}
use dph.Network.{
  MsgRow, CommitRow, PersonRow, Rows, Filter, Premise, PremiseKind, mail, commit, ProjectLink,
  no_verdict, Link, role_to, role_cc, role_bcc, reply_bonus, shared_bonus, verdict,
}
use dph.Network.Periods.{day_only, span_join, merge_periods, span_days, commit_dates, in_period}
use dph.Network.Links.{
  Acc, Accs, or_empty, names_from, new_link, or_new, touch, add_key, noted_thread, noted_date,
  with_premise, noted_premise, noted, direct, shared, replied, premise_of, with_project,
  with_commit,
}

module _ (lower : Bytes → Bytes) (fold_eq : Bytes → Bytes → Bool) (parse : Bytes → Option ℕ) where
  -- `addRecip`.
  abbrev pub add_recip : Bytes → ℕ → Bytes → List (Bytes × ℕ) → List (Bytes × ℕ)
  add_recip target role email rs =
      if is_empty (lower email) || (str_eq (lower email) target || has (keys rs) (lower email))
      then rs
      else rs ++ (lower email, role) ∷ []

  unfoldable pub add_recips : Bytes → ℕ → List Bytes → List (Bytes × ℕ) → List (Bytes × ℕ)
  add_recips target role [] rs = rs
  add_recips target role (e ∷ es) rs = add_recips target role es (add_recip target role e rs)

  -- The recipients of a letter but the target, with their roles.
  abbrev pub recips : Bytes → MsgRow → List (Bytes × ℕ)
  recips target m =
      add_recips target role_bcc m.bcc
        (add_recips target role_cc m.cc (add_recips target role_to m.to []))

  -- A search of `recipientRole` in one list.
  unfoldable pub is_among : Bytes → List Bytes → Bool
  is_among email [] = false
  is_among email (e ∷ es) = fold_eq e email || is_among email es

  -- `recipientRole`.
  abbrev pub recipient_role : MsgRow → Bytes → ℕ
  recipient_role m email =
      if is_among email m.to
      then role_to
      else if is_among email m.cc
      then role_cc
      else if is_among email m.bcc
      then role_bcc
      else 0

  module _ (names : List (Bytes × Bytes)) (f : Filter) (target : Bytes) where
    -- The loop over the recipients of a letter from the target.
    unfoldable pub direct_all : MsgRow → List (Bytes × ℕ) → Accs → Accs
    direct_all m [] accs = accs
    direct_all m ((e, role) ∷ rs) accs = direct_all m rs (touch names e (direct role m) accs)

    -- The loop over the other recipients of a letter from `sender`.
    unfoldable pub shared_all : Bytes → MsgRow → List (Bytes × ℕ) → Accs → Accs
    shared_all sender m [] accs = accs
    shared_all sender m ((e, role) ∷ rs) accs =
        shared_all sender m rs (if str_eq e sender then accs else touch names e (shared m) accs)

    -- A letter from someone else, where the target has the role.
    abbrev pub from_other : Bytes → ℕ → MsgRow → Accs → Accs
    from_other sender role m accs =
        shared_all sender m (recips target m) (touch names sender (direct role m) accs)

    -- One round of the mail channel.
    unfoldable pub mail_row : MsgRow → Accs → Accs
    mail_row m accs =
        if not (in_period parse f m.sent_at)
        then accs
        else if str_eq (lower m.sender) target
        then direct_all m (recips target m) accs
        else if is_empty (lower m.sender)
        then accs
        else if recipient_role m target == 0
        then accs
        else from_other (lower m.sender) (recipient_role m target) m accs

    unfoldable pub mail_rows : List MsgRow → Accs → Accs
    mail_rows [] accs = accs
    mail_rows (m ∷ ms) accs = mail_rows ms (mail_row m accs)

    -- `senderOf`: a later letter wins.
    unfoldable pub senders_from : List (Bytes × Bytes) → List MsgRow → List (Bytes × Bytes)
    senders_from s [] = s
    senders_from s (m ∷ ms) =
        senders_from (if is_empty m.id then s else upsert m.id (λ old. lower m.sender) s) ms

    -- The other side of a dialogue: of a letter of `child` that answers one of `parent`.
    abbrev pub other_side : Bytes → Bytes → Option Bytes
    other_side child parent =
        if str_eq child target && not (str_eq parent target)
        then some parent
        else if str_eq parent target && not (str_eq child target)
        then some child
        else none

    abbrev pub answered : Bytes → Option Bytes → Option Bytes
    answered child none = none
    answered child (some parent) =
        if is_empty parent || is_empty child then none else other_side child parent

    abbrev pub reply_to_other : MsgRow → Option Bytes → Accs → Accs
    reply_to_other m none accs = accs
    reply_to_other m (some other) accs = touch names other (replied m) accs

    -- One round of the dialogues.
    unfoldable pub reply_row : List (Bytes × Bytes) → MsgRow → Accs → Accs
    reply_row senders m accs =
        if is_empty m.reply_to || not (in_period parse f m.sent_at)
        then accs
        else reply_to_other m (answered (lower m.sender) (lookup m.reply_to senders)) accs

    unfoldable pub reply_rows : List (Bytes × Bytes) → List MsgRow → Accs → Accs
    reply_rows senders [] accs = accs
    reply_rows senders (m ∷ ms) accs = reply_rows senders ms (reply_row senders m accs)

    -- The commits by repository, in the order of the rows.
    unfoldable pub by_repo :
        List (Bytes × List CommitRow) → List CommitRow → List (Bytes × List CommitRow)
    by_repo m [] = m
    by_repo m (c ∷ cs) =
        by_repo
          (if not (in_period parse f c.date) || is_empty (lower c.email)
            then m
            else upsert c.repo (with_commit c) m)
          cs

    -- The commits of the target in a repository, and those of the others by person.
    unfoldable pub own_commits : List CommitRow → List CommitRow
    own_commits [] = []
    own_commits (c ∷ cs) =
        let rest = own_commits cs in if str_eq (lower c.email) target then c ∷ rest else rest

    unfoldable pub by_person :
        List (Bytes × List CommitRow) → List CommitRow → List (Bytes × List CommitRow)
    by_person m [] = m
    by_person m (c ∷ cs) =
        by_person
          (if str_eq (lower c.email) target then m else upsert (lower c.email) (with_commit c) m) cs

    abbrev pub project_of : Bytes → List CommitRow → List CommitRow → ProjectLink
    project_of repo me qs = record {
      repo = repo;
      commits_me = length me;
      commits_q = length qs;
      period = span_days (commit_dates me ++ commit_dates qs);
    }

    -- The loop over the others of a repository.
    unfoldable pub join_all : Bytes → List CommitRow → List (Bytes × List CommitRow) → Accs → Accs
    join_all repo me [] accs = accs
    join_all repo me ((e, qs) ∷ rest) accs =
        join_all repo me rest (touch names e (with_project (project_of repo me qs) qs) accs)

    -- One round over the repositories.
    unfoldable pub repo_row : Bytes × List CommitRow → Accs → Accs
    repo_row (repo, cs) accs =
        if length (own_commits cs) == 0
        then accs
        else join_all repo (own_commits cs) (by_person [] cs) accs

    unfoldable pub repo_rows : List (Bytes × List CommitRow) → Accs → Accs
    repo_rows [] accs = accs
    repo_rows (r ∷ rs) accs = repo_rows rs (repo_row r accs)

    abbrev pub by_repo_name : ProjectLink → ProjectLink → Bool
    by_repo_name p q = str_lt p.repo q.repo

    unfoldable pub has_project : Bytes → List ProjectLink → Bool
    has_project repo [] = false
    has_project repo (p ∷ ps) = str_eq p.repo repo || has_project repo ps

    unfoldable pub projects_period : Bytes → List ProjectLink → Bytes
    projects_period period [] = period
    projects_period period (p ∷ ps) = projects_period (merge_periods period p.period) ps

    module _ (classify : Bytes → Bytes → Bytes) where
      -- The threads and projects of a link, then its verdict, kind and period.
      abbrev pub sorted_link : Acc → Link
      sorted_link a = record a.link {
        threads = length a.tids;
        projects = sort_by by_repo_name a.link.projects;
      }

      abbrev pub finished : Link → Link
      finished l = record l {
        verdict = (verdict l).0;
        gaps = (verdict l).1;
        kind = classify l.name l.person;
        period = if is_empty l.period then projects_period l.period l.projects else l.period;
      }

      -- The last loop: the links of the project that is asked for.
      unfoldable pub links_of : Accs → List Link
      links_of [] = []
      links_of ((e, a) ∷ accs) =
          let rest = links_of accs in
          if not (is_empty f.project) && not (has_project f.project (sorted_link a).projects)
          then rest
          else finished (sorted_link a) ∷ rest

      -- The order of the answer.
      abbrev pub stronger : Link → Link → Bool
      stronger l k =
          if not (l.weight == k.weight) then ltb k.weight l.weight else str_lt l.person k.person

      module _ (repo_order : List (Bytes × List CommitRow) → List (Bytes × List CommitRow)) where
        -- The links in progress after all channels.
        unfoldable pub gathered : Rows → Accs
        gathered rows =
            repo_rows (repo_order (by_repo [] rows.commits))
              (reply_rows (senders_from [] rows.msgs) rows.msgs (mail_rows rows.msgs []))

  -- `BuildLinks`.
  unfoldable pub build_links :
      (Bytes → Bytes → Bytes)
      → (List (Bytes × List CommitRow) → List (Bytes × List CommitRow))
      → Rows
      → Filter
      → List Link
  build_links classify repo_order rows f =
      let target = lower (trim_space f.person) in
      let names = names_from [] rows.persons in
      if is_empty target
      then []
      else sort_by (stronger names f target classify)
          (links_of names f target classify (gathered names f target classify repo_order rows))
