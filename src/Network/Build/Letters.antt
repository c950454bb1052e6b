-- ===== src/Network/Build/Letters.antt =====
-- The number of letters of a link that BuildLinks of internal/network/network.go makes.
use dph.Base.{
  ℕ, suc, ◌+◌, ◌≡◌, refl, ap, ◌∙◌, inl, inr, Bool, true, false, not, ◌&&◌, ◌||◌, Option, none, some,
  List, [], ◌∷◌, if◌then◌else◌, ◌==◌, arith, Bool-cases,
}
use dph.Base.Text.{Bytes, str_eq, str_eq_iff, is_empty, has}
use dph.Base.Dict.{bytes_eq, lookup, keys, lookup-upsert}
use dph.Network.{MsgRow, Filter}
use dph.Network.Periods.{in_period}
use dph.Network.Links.{
  Acc, Accs, or_new, touch, noted_thread, noted_date, with_premise, noted, direct, shared,
}
use dph.Network.Build.{recips, recipient_role, direct_all, shared_all, mail_row, mail_rows}
use dph.Network.Build.Recipients.{NoKeyTwice, is_recipient, recips-has, recips-NoKeyTwice}

abbrev pub msgs_of : Option Acc → ℕ
msgs_of none = 0
msgs_of (some a) = a.link.msgs

-- The letters of the link with `k`, 0 where there is none.
abbrev pub msgs_at : Bytes → Accs → ℕ
msgs_at k accs = msgs_of (lookup k accs)

-- A change of a link that counts no letter.
abbrev pub KeepsMsgs : (Acc → Acc) → Type 0
KeepsMsgs g = (a : Acc) → (g a).link.msgs ≡ a.link.msgs

pub noted-KeepsMsgs : (m : MsgRow) → KeepsMsgs (noted m)
noted-KeepsMsgs m a = if_msgs (is_empty m.id || has a.seen m.id)
  where
    b : Acc
    b = noted_date m.sent_at (noted_thread m a)

    if_msgs : (t : Bool) → (if t then b else with_premise m b).link.msgs ≡ a.link.msgs
    if_msgs true = refl
    if_msgs false = refl

direct-msgs : (role : ℕ) (m : MsgRow) (a : Acc) → (direct role m a).link.msgs ≡ suc a.link.msgs
direct-msgs role m a =
    noted-KeepsMsgs m
      (record a { link = record a.link { msgs = suc a.link.msgs; weight = a.link.weight + role } })

is_empty_alike : (s k : Bytes) → str_eq s k ≡ true → is_empty s ≡ is_empty k
is_empty_alike s k q = ap is_empty ((str_eq_iff s k).0 q)

unsent :
    (s k : Bytes) (z : Bool) → is_empty s ≡ true → false ≡ (str_eq s k && not (is_empty k || z))
unsent s k z e = elim (Bool-cases (str_eq s k)) [
  | inl q ↦ ground (arith, is_empty_alike s k q)
  | inr q ↦ ground arith
]

sent : (s k : Bytes) → is_empty s ≡ false → str_eq s k ≡ (str_eq s k && not (is_empty k || false))
sent s k e = elim (Bool-cases (str_eq s k)) [
  | inl q ↦ ground (arith, is_empty_alike s k q)
  | inr q ↦ ground arith
]

no_part : (a b : Bool) → false ≡ (a && not (b || true))
no_part a b = ground arith

abbrev pub plus : Bool → ℕ → ℕ
plus b n = if b then suc n else n

module _ (lower : Bytes → Bytes) (fold_eq : Bytes → Bytes → Bool) (parse : Bytes → Option ℕ)
    (f : Filter) (target : Bytes) where
  -- A letter of the period that one of the two sent to the other.
  abbrev pub is_between : Bytes → MsgRow → Bool
  is_between k m =
      in_period parse f m.sent_at
      && (if str_eq (lower m.sender) target
          then is_recipient lower fold_eq parse f target k m
          else str_eq (lower m.sender) k
            && not (is_empty k || recipient_role lower fold_eq parse m target == 0))

  -- The letters between the two.
  unfoldable pub letters : Bytes → List MsgRow → ℕ
  letters k [] = 0
  letters k (m ∷ ms) = plus (is_between k m) (letters k ms)

module _ (names : List (Bytes × Bytes)) where
  or_new-msgs : (e : Bytes) (o : Option Acc) → (or_new names e o).link.msgs ≡ msgs_of o
  or_new-msgs e none = refl
  or_new-msgs e (some a) = refl

  touch-msgs :
      (k e : Bytes) (g : Acc → Acc) (accs : Accs)
      → msgs_at k (touch names e g accs)
        ≡ (if str_eq e k then (g (or_new names e (lookup e accs))).link.msgs else msgs_at k accs)
  touch-msgs k e g accs =
      ap msgs_of (lookup-upsert e k (λ old. g (or_new names e old)) accs) ∙ pushed (str_eq e k)
    where
      pushed :
          (b : Bool)
          → msgs_of (if b then some (g (or_new names e (lookup e accs))) else lookup k accs)
            ≡ (if b then (g (or_new names e (lookup e accs))).link.msgs else msgs_at k accs)
      pushed true = refl
      pushed false = refl

  pub touch_keeps :
      (k e : Bytes) (g : Acc → Acc) (accs : Accs)
      → KeepsMsgs g
      → msgs_at k (touch names e g accs) ≡ msgs_at k accs
  touch_keeps k e g accs h = touch-msgs k e g accs ∙ elim (Bool-cases (str_eq e k)) [
    | inl t ↦ rw t (
        h (or_new names e (lookup e accs))
        ∙ (or_new-msgs e (lookup e accs) ∙ ap (λ x. msgs_at x accs) ((str_eq_iff e k).0 t)))
    | inr f ↦ rw f refl
  ]

  touch-direct :
      (k e : Bytes) (role : ℕ) (m : MsgRow) (accs : Accs)
      → msgs_at k (touch names e (direct role m) accs) ≡ plus (str_eq e k) (msgs_at k accs)
  touch-direct k e role m accs =
      touch-msgs k e (direct role m) accs ∙ elim (Bool-cases (str_eq e k)) [
        | inl t ↦ rw t (
            direct-msgs role m (or_new names e (lookup e accs))
            ∙ ap suc
                (or_new-msgs e (lookup e accs) ∙ ap (λ x. msgs_at x accs) ((str_eq_iff e k).0 t)))
        | inr f ↦ rw f refl
      ]

  module _ (lower : Bytes → Bytes) (fold_eq : Bytes → Bytes → Bool) (parse : Bytes → Option ℕ)
      (f : Filter) (target : Bytes) where
    direct_all-msgs :
        (k : Bytes) (m : MsgRow) (rs : List (Bytes × ℕ)) (accs : Accs)
        → NoKeyTwice rs
        → msgs_at k (direct_all lower fold_eq parse names f target m rs accs)
          ≡ plus (has (keys rs) k) (msgs_at k accs)
    unfolding direct_all has
    direct_all-msgs k m [] accs n = refl
    direct_all-msgs k m ((e, role) ∷ rs) accs n =
        direct_all-msgs k m rs (touch names e (direct role m) accs) n.1
        ∙ (ap (plus (has (keys rs) k)) (touch-direct k e role m accs) ∙ once)
      where
        once :
            plus (has (keys rs) k) (plus (str_eq e k) (msgs_at k accs))
            ≡ plus (str_eq e k || has (keys rs) k) (msgs_at k accs)
        once = ground (arith, n.0, str_eq_iff e k)

    shared_all-msgs :
        (k sender : Bytes) (m : MsgRow) (rs : List (Bytes × ℕ)) (accs : Accs)
        → msgs_at k (shared_all lower fold_eq parse names f target sender m rs accs)
          ≡ msgs_at k accs
    unfolding shared_all
    shared_all-msgs k sender m [] accs = refl
    shared_all-msgs k sender m ((e, role) ∷ rs) accs =
        shared_all-msgs k sender m rs
          (if str_eq e sender then accs else touch names e (shared m) accs)
        ∙ skipped (str_eq e sender)
      where
        skipped :
            (b : Bool)
            → msgs_at k (if b then accs else touch names e (shared m) accs) ≡ msgs_at k accs
        skipped true = refl
        skipped false = touch_keeps k e (shared m) accs (λ a. noted-KeepsMsgs m (record a {
          link = record a.link { shared_cc = suc a.link.shared_cc; weight = a.link.weight + 1 };
        }))

    mail_row-msgs :
        (k : Bytes) (m : MsgRow) (accs : Accs)
        → msgs_at k (mail_row lower fold_eq parse names f target m accs)
          ≡ plus (is_between lower fold_eq parse f target k m) (msgs_at k accs)
    unfolding mail_row
    mail_row-msgs k m accs = elim (Bool-cases (in_period parse f m.sent_at)) [
      | inr o ↦ rw o refl
      | inl i ↦ elim (Bool-cases (str_eq (lower m.sender) target)) [
        | inl t ↦
            rw (i, t)
              (direct_all-msgs k m (recips lower fold_eq parse target m) accs
                  (recips-NoKeyTwice lower fold_eq parse f target m)
                ∙ ap (λ b. plus b (msgs_at k accs)) (recips-has lower fold_eq parse f target k m))
        | inr t ↦ elim (Bool-cases (is_empty (lower m.sender))) [
          | inl e ↦ rw (i, t, e) (ap (λ b. plus b (msgs_at k accs)) (unsent (lower m.sender) k _ e))
          | inr e ↦ elim (Bool-cases (recipient_role lower fold_eq parse m target == 0)) [
            | inl z ↦
                rw (i, t, e, z)
                  (ap (λ b. plus b (msgs_at k accs))
                    (no_part (str_eq (lower m.sender) k) (is_empty k)))
            | inr z ↦
                rw (i, t, e, z)
                  (shared_all-msgs k (lower m.sender) m (recips lower fold_eq parse target m) _
                    ∙ (touch-direct k (lower m.sender) (recipient_role lower fold_eq parse m target)
                          m accs
                        ∙ ap (λ b. plus b (msgs_at k accs)) (sent (lower m.sender) k e)))
          ]
        ]
      ]
    ]

    pub mail_rows-msgs :
        (k : Bytes) (ms : List MsgRow) (accs : Accs)
        → msgs_at k (mail_rows lower fold_eq parse names f target ms accs)
          ≡ letters lower fold_eq parse f target k ms + msgs_at k accs
    unfolding mail_rows letters
    mail_rows-msgs k [] accs = omega arith
    mail_rows-msgs k (m ∷ ms) accs = ground (
      arith,
      mail_rows-msgs k ms (mail_row lower fold_eq parse names f target m accs),
      mail_row-msgs k m accs,
    )
