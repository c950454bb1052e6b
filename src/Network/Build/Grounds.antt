-- ===== src/Network/Build/Grounds.antt =====
-- What the premises of a link stand for: the ledger of BuildLinks of internal/network/network.go.
use dph.Base.{
  ℕ, ◌≡◌, refl, sym, ◌∙◌, ◌⊎◌, inl, inr, Bool, true, false, ◌||◌, Option, some, List, [], ◌∷◌,
  if◌then◌else◌, ◌==◌, arith, Bool-cases, In, All, All-append,
}
use dph.Base.Text.{Bytes, str_eq, str_eq_refl, is_empty, has}
use dph.Base.Dict.{bytes_eq, lookup, keys, Distinct, upsert-Distinct, upsert-All}
use dph.Network.{MsgRow, CommitRow, Rows, Filter, Premise, mail}
use dph.Network.Periods.{day_only, in_period}
use dph.Network.Links.{
  Acc, Accs, or_new, touch, noted_thread, noted_date, with_premise, noted, direct, shared, replied,
  premise_of,
}
use dph.Network.Build.{
  recips, recipient_role, direct_all, shared_all, from_other, mail_row, mail_rows, senders_from,
}
use dph.Network.Build.Recipients.{is_recipient, recips-has}

has-All :
    (Q : Bytes → Type 0) (rs : List (Bytes × ℕ))
    → ((k : Bytes) → has (keys rs) k ≡ true → Q k)
    → All (λ r. Q r.0) rs
unfolding has
has-All Q [] h = tt
has-All Q ((e, role) ∷ rs) h =
    (h e (rw (str_eq_refl e) refl), has-All Q rs (λ k t. h k (ground arith)))

module _ (lower : Bytes → Bytes) (fold_eq : Bytes → Bytes → Bool) (parse : Bytes → Option ℕ)
    (names : List (Bytes × Bytes)) (f : Filter) (target : Bytes) (rows : Rows) where
  abbrev pub senders : List (Bytes × Bytes)
  senders = senders_from lower fold_eq parse names f target [] rows.msgs

  -- A letter has a person as its sender, as a recipient, or as the sender of the letter that it answers.
  abbrev pub Involves : MsgRow → Bytes → Type 0
  Involves m e =
      (is_recipient lower fold_eq parse f target e m ≡ true)
      ⊎ (lower m.sender ≡ e)
      ⊎ (lookup m.reply_to senders ≡ some e)

  -- A letter of the rows and of the period.
  abbrev pub Letter : MsgRow → Type 0
  Letter m = In m rows.msgs × (in_period parse f m.sent_at ≡ true)

  -- A commit of the rows and of the period.
  abbrev pub Change : CommitRow → Type 0
  Change c = In c rows.commits × (in_period parse f c.date ≡ true)

  -- The premise names a letter or a commit of the rows, of the period, that involves the person, and
  -- has its day.
  pub data Grounded (e : Bytes) : Premise → Type 0 where
    by_mail :
        (m : MsgRow)
        → Letter m
        → Involves m e
        → Grounded e (record { kind = mail; ref = m.id; date = day_only m.sent_at })
    by_commit : (c : CommitRow) → Change c → lower c.email ≡ e → Grounded e (premise_of c)

  -- What holds of each link in progress.
  pub record Sound (entry : Bytes × Acc) : Type 0 where
    pub other : str_eq entry.0 target ≡ false
    pub person : entry.1.link.person ≡ entry.0
    pub grounds : All (Grounded entry.0) entry.1.link.premises

  -- What holds of the links in progress, which are one for each person.
  abbrev pub Accounted : Accs → Type 0
  Accounted accs = All Sound accs × Distinct accs

  -- A change of a link that adds the premise of a letter at most.
  noted-Sound :
      (e : Bytes) (m : MsgRow) (a : Acc)
      → Letter m
      → Involves m e
      → Sound (e, a)
      → Sound (e, noted m a)
  noted-Sound e m a l i s = record {
    other = s.other;
    person = unchanged (is_empty m.id || has a.seen m.id);
    grounds = added (is_empty m.id || has a.seen m.id);
  }
    where
      b : Acc
      b = noted_date m.sent_at (noted_thread m a)

      unchanged : (t : Bool) → (if t then b else with_premise m b).link.person ≡ e
      unchanged true = s.person
      unchanged false = s.person

      added : (t : Bool) → All (Grounded e) (if t then b else with_premise m b).link.premises
      added true = s.grounds
      added false = All-append (Grounded e) a.link.premises _ s.grounds (by_mail m l i, tt)

  pub touch-Sound :
      (e : Bytes) (g : Acc → Acc) (accs : Accs)
      → str_eq e target ≡ false
      → ((a : Acc) → Sound (e, a) → Sound (e, g a))
      → Accounted accs
      → Accounted (touch names e g accs)
  touch-Sound e g accs n s h = (
    upsert-All Sound e (λ old. g (or_new names e old)) accs
        (s _ (record { other = n; person = refl; grounds = tt })) s h.0,
    upsert-Distinct e (λ old. g (or_new names e old)) accs h.1,
  )

  direct-Sound :
      (e : Bytes) (role : ℕ) (m : MsgRow)
      → Letter m
      → Involves m e
      → (a : Acc) → Sound (e, a)
      → Sound (e, direct role m a)
  direct-Sound e role m l i a s =
      noted-Sound e m _ l i (record { other = s.other; person = s.person; grounds = s.grounds })

  shared-Sound :
      (e : Bytes) (m : MsgRow)
      → Letter m
      → Involves m e
      → (a : Acc) → Sound (e, a)
      → Sound (e, shared m a)
  shared-Sound e m l i a s =
      noted-Sound e m _ l i (record { other = s.other; person = s.person; grounds = s.grounds })

  pub replied-Sound :
      (e : Bytes) (m : MsgRow)
      → Letter m
      → Involves m e
      → (a : Acc) → Sound (e, a)
      → Sound (e, replied m a)
  replied-Sound e m l i a s =
      noted-Sound e m _ l i (record { other = s.other; person = s.person; grounds = s.grounds })

  -- Every recipient of the list may have the letter as a premise.
  abbrev Ready : MsgRow → List (Bytes × ℕ) → Type 0
  Ready m rs = All (λ r. (str_eq r.0 target ≡ false) × Involves m r.0) rs

  direct_all-Sound :
      (m : MsgRow) (rs : List (Bytes × ℕ)) (accs : Accs)
      → Letter m
      → Ready m rs
      → Accounted accs
      → Accounted (direct_all lower fold_eq parse names f target m rs accs)
  unfolding direct_all
  direct_all-Sound m [] accs l r h = h
  direct_all-Sound m ((e, role) ∷ rs) accs l r h =
      direct_all-Sound m rs _ l r.1
        (touch-Sound e (direct role m) accs r.0.0 (direct-Sound e role m l r.0.1) h)

  shared_all-Sound :
      (sender : Bytes) (m : MsgRow) (rs : List (Bytes × ℕ)) (accs : Accs)
      → Letter m
      → Ready m rs
      → Accounted accs
      → Accounted (shared_all lower fold_eq parse names f target sender m rs accs)
  unfolding shared_all
  shared_all-Sound sender m [] accs l r h = h
  shared_all-Sound sender m ((e, role) ∷ rs) accs l r h =
      shared_all-Sound sender m rs _ l r.1 (skipped (str_eq e sender))
    where
      skipped : (b : Bool) → Accounted (if b then accs else touch names e (shared m) accs)
      skipped true = h
      skipped false = touch-Sound e (shared m) accs r.0.0 (shared-Sound e m l r.0.1) h

  recipient-other :
      (k : Bytes) (m : MsgRow)
      → is_recipient lower fold_eq parse f target k m ≡ true
      → str_eq k target ≡ false
  recipient-other k m t = ground arith

  recips-Ready : (m : MsgRow) → Ready m (recips lower fold_eq parse target m)
  recips-Ready m =
      has-All (λ k. (str_eq k target ≡ false) × Involves m k) _
        (λ k t. (
          recipient-other k m (sym (recips-has lower fold_eq parse f target k m) ∙ t),
          inl (sym (recips-has lower fold_eq parse f target k m) ∙ t),
        ))

  mail_row-Sound :
      (m : MsgRow) (accs : Accs)
      → In m rows.msgs
      → Accounted accs
      → Accounted (mail_row lower fold_eq parse names f target m accs)
  unfolding mail_row
  mail_row-Sound m accs inside h = elim (Bool-cases (in_period parse f m.sent_at)) [
    | inr o ↦ rw o h
    | inl i ↦ elim (Bool-cases (str_eq (lower m.sender) target)) [
      | inl t ↦ rw (i, t) (direct_all-Sound m _ accs (inside, i) (recips-Ready m) h)
      | inr t ↦
          rw (i, t)
            (unsent i t (is_empty (lower m.sender))
              (recipient_role lower fold_eq parse m target == 0))
    ]
  ]
    where
      other : Accs
      other =
          from_other lower fold_eq parse names f target (lower m.sender)
            (recipient_role lower fold_eq parse m target) m accs

      unsent :
          in_period parse f m.sent_at ≡ true
          → str_eq (lower m.sender) target ≡ false
          → (b c : Bool) → Accounted (if b then accs else if c then accs else other)
      unsent i t true c = h
      unsent i t false true = h
      unsent i t false false =
          shared_all-Sound (lower m.sender) m _ _ (inside, i) (recips-Ready m)
            (touch-Sound (lower m.sender) _ accs t
              (direct-Sound (lower m.sender) _ m (inside, i) (inr (inl refl))) h)

  -- The letters of a loop are letters of the rows.
  abbrev pub Within : List MsgRow → Type 0
  Within ms = All (λ m. In m rows.msgs) ms

  pub mail_rows-Sound :
      (ms : List MsgRow) (accs : Accs)
      → Within ms
      → Accounted accs
      → Accounted (mail_rows lower fold_eq parse names f target ms accs)
  unfolding mail_rows
  mail_rows-Sound [] accs w h = h
  mail_rows-Sound (m ∷ ms) accs w h = mail_rows-Sound ms _ w.1 (mail_row-Sound m accs w.0 h)
