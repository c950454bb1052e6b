-- ===== src/Network/Build/Ledger.antt =====
-- The premises of a link after the dialogues and the commits of BuildLinks of internal/network/network.go.
use dph.Base.{
  ℕ, ◌≡◌, refl, ◌⊎◌, inl, inr, Bool, true, false, not, ◌&&◌, ◌||◌, Option, none, some, List, [],
  ◌∷◌, if◌then◌else◌, ◌==◌, arith, Bool-cases, length, map, In, All, All-append, All-In, All-of_In,
}
use dph.Base.Text.{Bytes, str_eq, is_empty}
use dph.Base.Dict.{bytes_eq, lookup, upsert-All}
use dph.Network.{MsgRow, CommitRow, Rows, Filter}
use dph.Network.Periods.{in_period}
use dph.Network.Links.{Accs, replied, premise_of, with_project, with_commit}
use dph.Network.Build.{
  other_side, answered, reply_to_other, reply_row, reply_rows, by_repo, own_commits, by_person,
  project_of, join_all, repo_row, repo_rows, gathered,
}
use dph.Network.Build.Grounds.{
  Accounted, Letter, Involves, Change, Grounded, touch-Sound, replied-Sound, Within,
  mail_rows-Sound, senders, by_commit,
}

module _ (lower : Bytes → Bytes) (fold_eq : Bytes → Bytes → Bool) (parse : Bytes → Option ℕ)
    (names : List (Bytes × Bytes)) (f : Filter) (target : Bytes) (rows : Rows) where
  -- The other side of a dialogue is not the target, and sent one of the two letters.
  side-other :
      (child p x : Bytes) (b c : Bool)
      → str_eq child target ≡ b
      → str_eq p target ≡ c
      → (if b && not c then some p else if c && not b then some child else none) ≡ some x
      → (str_eq x target ≡ false) × ((child ≡ x) ⊎ (some p ≡ some x))
  side-other child p x true true hb hc q = cc
  side-other child p x true false hb hc q = (cc, inr q)
  side-other child p x false true hb hc q = (cc, inl cc)
  side-other child p x false false hb hc q = cc

  answered-other :
      (child : Bytes) (parent : Option Bytes) (x : Bytes)
      → answered lower fold_eq parse names f target child parent ≡ some x
      → (str_eq x target ≡ false) × ((child ≡ x) ⊎ (parent ≡ some x))
  answered-other child none x q = cc
  answered-other child (some p) x q = chosen (is_empty p || is_empty child) q
    where
      chosen :
          (t : Bool)
          → (if t then none else other_side lower fold_eq parse names f target child p) ≡ some x
          → (str_eq x target ≡ false) × ((child ≡ x) ⊎ (some p ≡ some x))
      chosen true q = cc
      chosen false q = side-other child p x _ _ refl refl q

  to_other-Sound :
      (m : MsgRow) (accs : Accs)
      → Letter lower fold_eq parse names f target rows m
      → (o : Option Bytes)
      → ((x : Bytes)
          → o ≡ some x
          → (str_eq x target ≡ false) × Involves lower fold_eq parse names f target rows m x)
      → Accounted lower fold_eq parse names f target rows accs
      → Accounted lower fold_eq parse names f target rows
          (reply_to_other lower fold_eq parse names f target m o accs)
  to_other-Sound m accs l none k h = h
  to_other-Sound m accs l (some x) k h =
      touch-Sound lower fold_eq parse names f target rows x (replied m) accs (k x refl).0
        (replied-Sound lower fold_eq parse names f target rows x m l (k x refl).1) h

  reply_row-Sound :
      (m : MsgRow) (accs : Accs)
      → In m rows.msgs
      → Accounted lower fold_eq parse names f target rows accs
      → Accounted lower fold_eq parse names f target rows (
          reply_row lower fold_eq parse names f target
            (senders lower fold_eq parse names f target rows)
            m
            accs)
  unfolding reply_row
  reply_row-Sound m accs inside h =
      elim (Bool-cases (is_empty m.reply_to || not (in_period parse f m.sent_at))) [
        | inl o ↦ rw o h
        | inr i ↦ rw i (
            to_other-Sound m accs (inside, ground (arith, i)) _
              (λ x q. involved x (
                answered-other (lower m.sender)
                  (lookup m.reply_to (senders lower fold_eq parse names f target rows)) x q))
              h)
      ]
    where
      involved :
          (x : Bytes)
          → (str_eq x target ≡ false)
            × ((lower m.sender ≡ x)
                ⊎ (lookup m.reply_to (senders lower fold_eq parse names f target rows) ≡ some x))
          → (str_eq x target ≡ false) × Involves lower fold_eq parse names f target rows m x
      involved x (n, d) = (n, inr d)

  reply_rows-Sound :
      (ms : List MsgRow) (accs : Accs)
      → Within lower fold_eq parse names f target rows ms
      → Accounted lower fold_eq parse names f target rows accs
      → Accounted lower fold_eq parse names f target rows (
          reply_rows lower fold_eq parse names f target
            (senders lower fold_eq parse names f target rows)
            ms
            accs)
  unfolding reply_rows
  reply_rows-Sound [] accs w h = h
  reply_rows-Sound (m ∷ ms) accs w h = reply_rows-Sound ms _ w.1 (reply_row-Sound m accs w.0 h)

  -- The commits of a list are of the rows and of the period.
  abbrev Changes : List CommitRow → Type 0
  Changes cs = All (Change lower fold_eq parse names f target rows) cs

  with_commit-All :
      (P : CommitRow → Type 0) (c : CommitRow) (cs : List CommitRow)
      → P c
      → All P cs
      → All P (with_commit c (some cs))
  with_commit-All P c cs p h = All-append P cs (c ∷ []) h (p, tt)

  by_repo-Changes :
      (cs : List CommitRow) (m : List (Bytes × List CommitRow))
      → All (λ c. In c rows.commits) cs
      → All (λ r. Changes r.1) m
      → All (λ r. Changes r.1) (by_repo lower fold_eq parse names f target m cs)
  unfolding by_repo
  by_repo-Changes [] m w h = h
  by_repo-Changes (c ∷ cs) m w h =
      by_repo-Changes cs _ w.1
        (elim (Bool-cases (not (in_period parse f c.date) || is_empty (lower c.email))) [
          | inl o ↦ rw o h
          | inr i ↦ rw i (
              upsert-All (λ r. Changes r.1) c.repo (with_commit c) m ((w.0, ground (arith, i)), tt)
                (λ v k.
                  with_commit-All (Change lower fold_eq parse names f target rows) c v
                    (w.0, ground (arith, i)) k)
                h)
        ])

  -- The commits of a person who is not the target.
  abbrev Theirs : Bytes × List CommitRow → Type 0
  Theirs (e, qs) =
      (str_eq e target ≡ false)
      × All (λ c. Change lower fold_eq parse names f target rows c × (lower c.email ≡ e)) qs

  by_person-Theirs :
      (cs : List CommitRow) (m : List (Bytes × List CommitRow))
      → Changes cs
      → All Theirs m
      → All Theirs (by_person lower fold_eq parse names f target m cs)
  unfolding by_person
  by_person-Theirs [] m w h = h
  by_person-Theirs (c ∷ cs) m w h =
      by_person-Theirs cs _ w.1 (elim (Bool-cases (str_eq (lower c.email) target)) [
        | inl o ↦ rw o h
        | inr i ↦ rw i (
            upsert-All Theirs (lower c.email) (with_commit c) m (i, ((w.0, refl), tt))
              (λ v k. (
                i,
                with_commit-All
                    (λ d.
                      Change lower fold_eq parse names f target rows d
                      × (lower d.email ≡ lower c.email))
                    c v (w.0, refl) k.1,
              ))
              h)
      ])

  premises-Grounded :
      (e : Bytes) (qs : List CommitRow)
      → All (λ c. Change lower fold_eq parse names f target rows c × (lower c.email ≡ e)) qs
      → All (Grounded lower fold_eq parse names f target rows e) (map premise_of qs)
  premises-Grounded e [] h = tt
  premises-Grounded e (c ∷ qs) h = (by_commit c h.0.0 h.0.1, premises-Grounded e qs h.1)

  join_all-Sound :
      (repo : Bytes) (me : List CommitRow) (qs : List (Bytes × List CommitRow)) (accs : Accs)
      → All Theirs qs
      → Accounted lower fold_eq parse names f target rows accs
      → Accounted lower fold_eq parse names f target rows
          (join_all lower fold_eq parse names f target repo me qs accs)
  unfolding join_all
  join_all-Sound repo me [] accs t h = h
  join_all-Sound repo me ((e, cs) ∷ qs) accs t h = join_all-Sound repo me qs _ t.1 (
      touch-Sound lower fold_eq parse names f target rows e
        (with_project (project_of lower fold_eq parse names f target repo me cs) cs) accs t.0.0
        (λ a s. record {
          other = s.other;
          person = s.person;
          grounds =
              All-append (Grounded lower fold_eq parse names f target rows e) a.link.premises _
                s.grounds (premises-Grounded e cs t.0.1);
        })
        h)

  repo_rows-Sound :
      (rs : List (Bytes × List CommitRow)) (accs : Accs)
      → All (λ r. Changes r.1) rs
      → Accounted lower fold_eq parse names f target rows accs
      → Accounted lower fold_eq parse names f target rows
          (repo_rows lower fold_eq parse names f target rs accs)
  unfolding repo_rows repo_row
  repo_rows-Sound [] accs w h = h
  repo_rows-Sound ((repo, cs) ∷ rs) accs w h =
      repo_rows-Sound rs _ w.1
        (skipped (length (own_commits lower fold_eq parse names f target cs) == 0))
    where
      joined : Accs
      joined =
          join_all lower fold_eq parse names f target repo
            (own_commits lower fold_eq parse names f target cs)
            (by_person lower fold_eq parse names f target [] cs) accs

      skipped :
          (b : Bool)
          → Accounted lower fold_eq parse names f target rows (if b then accs else joined)
      skipped true = h
      skipped false = join_all-Sound repo _ _ accs (by_person-Theirs cs [] w.0 tt) h

  -- All channels together, where the repositories that are gone through are those of the map.
  pub gathered-Sound :
      (classify : Bytes → Bytes → Bytes)
      (repo_order : List (Bytes × List CommitRow) → List (Bytes × List CommitRow))
      → ((r : Bytes × List CommitRow) (rs : List (Bytes × List CommitRow))
          → In r (repo_order rs)
          → In r rs)
      → Accounted lower fold_eq parse names f target rows
          (gathered lower fold_eq parse names f target classify repo_order rows)
  unfolding gathered
  gathered-Sound classify repo_order p =
      repo_rows-Sound (repo_order repos) _
        (All-of_In _ _ (λ r i.
          All-In _ r repos (by_repo-Changes rows.commits [] (All-of_In _ _ (λ c i. i)) tt)
            (p r repos i)))
        (reply_rows-Sound rows.msgs _ msgs
          (mail_rows-Sound lower fold_eq parse names f target rows rows.msgs [] msgs (tt, tt)))
    where
      msgs : Within lower fold_eq parse names f target rows rows.msgs
      msgs = All-of_In _ _ (λ m i. i)

      repos : List (Bytes × List CommitRow)
      repos = by_repo lower fold_eq parse names f target [] rows.commits
