-- ===== src/Network/Build/Counts.antt =====
-- The number of letters of a link that BuildLinks of internal/network/network.go makes,
-- after the dialogues and the commits.
use dph.Base.{
  ℕ, suc, ◌+◌, ◌≡◌, refl, ◌∙◌, Bool, true, false, not, ◌||◌, Option, none, some, List, [], ◌∷◌,
  if◌then◌else◌, ◌==◌, arith, length,
}
use dph.Base.Text.{Bytes, is_empty}
use dph.Base.Dict.{bytes_eq, lookup}
use dph.Network.{MsgRow, CommitRow, Rows, Filter}
use dph.Network.Periods.{in_period}
use dph.Network.Links.{Accs, replied, with_project}
use dph.Network.Build.{
  answered, reply_to_other, reply_row, reply_rows, by_repo, own_commits, by_person, project_of,
  join_all, repo_row, repo_rows, gathered,
}
use dph.Network.Build.Letters.{msgs_at, letters, noted-KeepsMsgs, touch_keeps, mail_rows-msgs}

module _ (names : List (Bytes × Bytes)) (lower : Bytes → Bytes) (fold_eq : Bytes → Bytes → Bool)
    (parse : Bytes → Option ℕ) (f : Filter) (target : Bytes) where
  reply_row-msgs :
      (k : Bytes) (senders : List (Bytes × Bytes)) (m : MsgRow) (accs : Accs)
      → msgs_at k (reply_row lower fold_eq parse names f target senders m accs) ≡ msgs_at k accs
  unfolding reply_row
  reply_row-msgs k senders m accs =
      skipped (is_empty m.reply_to || not (in_period parse f m.sent_at))
    where
      other : Option Bytes
      other =
          answered lower fold_eq parse names f target (lower m.sender) (lookup m.reply_to senders)

      to_other :
          (o : Option Bytes)
          → msgs_at k (reply_to_other lower fold_eq parse names f target m o accs) ≡ msgs_at k accs
      to_other none = refl
      to_other (some x) = touch_keeps names k x (replied m) accs (λ a. noted-KeepsMsgs m (record a {
        link = record a.link { replies = suc a.link.replies; weight = a.link.weight + 2 };
      }))

      skipped :
          (b : Bool)
          → msgs_at k
              (if b then accs else reply_to_other lower fold_eq parse names f target m other accs)
            ≡ msgs_at k accs
      skipped true = refl
      skipped false = to_other other

  reply_rows-msgs :
      (k : Bytes) (senders : List (Bytes × Bytes)) (ms : List MsgRow) (accs : Accs)
      → msgs_at k (reply_rows lower fold_eq parse names f target senders ms accs) ≡ msgs_at k accs
  unfolding reply_rows
  reply_rows-msgs k senders [] accs = refl
  reply_rows-msgs k senders (m ∷ ms) accs =
      reply_rows-msgs k senders ms _ ∙ reply_row-msgs k senders m accs

  join_all-msgs :
      (k repo : Bytes) (me : List CommitRow) (qs : List (Bytes × List CommitRow)) (accs : Accs)
      → msgs_at k (join_all lower fold_eq parse names f target repo me qs accs) ≡ msgs_at k accs
  unfolding join_all
  join_all-msgs k repo me [] accs = refl
  join_all-msgs k repo me ((e, cs) ∷ qs) accs =
      join_all-msgs k repo me qs _
      ∙ touch_keeps names k e
          (with_project (project_of lower fold_eq parse names f target repo me cs) cs) accs
          (λ a. refl)

  repo_rows-msgs :
      (k : Bytes) (rs : List (Bytes × List CommitRow)) (accs : Accs)
      → msgs_at k (repo_rows lower fold_eq parse names f target rs accs) ≡ msgs_at k accs
  unfolding repo_rows repo_row
  repo_rows-msgs k [] accs = refl
  repo_rows-msgs k ((repo, cs) ∷ rs) accs =
      repo_rows-msgs k rs _
      ∙ skipped (length (own_commits lower fold_eq parse names f target cs) == 0)
    where
      joined : Accs
      joined =
          join_all lower fold_eq parse names f target repo
            (own_commits lower fold_eq parse names f target cs)
            (by_person lower fold_eq parse names f target [] cs) accs

      skipped : (b : Bool) → msgs_at k (if b then accs else joined) ≡ msgs_at k accs
      skipped true = refl
      skipped false =
          join_all-msgs k repo _ (by_person lower fold_eq parse names f target [] cs) accs

  module _ (classify : Bytes → Bytes → Bytes)
      (repo_order : List (Bytes × List CommitRow) → List (Bytes × List CommitRow)) where
    -- After all channels a link has counted the letters between the two.
    pub gathered-msgs :
        (k : Bytes) (rows : Rows)
        → msgs_at k (gathered lower fold_eq parse names f target classify repo_order rows)
          ≡ letters lower fold_eq parse f target k rows.msgs
    unfolding gathered lookup
    gathered-msgs k rows =
        repo_rows-msgs k (repo_order (by_repo lower fold_eq parse names f target [] rows.commits)) _
        ∙ (reply_rows-msgs k _ rows.msgs _
            ∙ (mail_rows-msgs names lower fold_eq parse f target k rows.msgs [] ∙ omega arith))
