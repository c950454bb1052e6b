-- ===== src/Network/Links.antt =====
-- A link in progress, and the changes of it in BuildLinks of internal/network/network.go.
use dph.Base.{ℕ, suc, ◌+◌, ◌||◌, Option, none, some, List, [], ◌∷◌, ◌++◌, if◌then◌else◌, map}
use dph.Base.Text.{Bytes, is_empty, has}
use dph.Base.Dict.{bytes_eq, lookup, upsert}
use dph.Network.{
  MsgRow, CommitRow, PersonRow, Premise, mail, commit, ProjectLink, no_verdict, Link, reply_bonus,
  shared_bonus,
}
use dph.Network.Periods.{day_only, span_join}

-- `acc`: a link in progress, the letters among its premises, and its threads.
pub record Acc : Type 0 where
  pub link : Link
  pub seen : List Bytes
  pub tids : List Bytes

abbrev pub Accs : Type 0
Accs = List (Bytes × Acc)

abbrev pub or_empty : Option Bytes → Bytes
or_empty none = []
or_empty (some s) = s

-- The map of names: a later row wins.
unfoldable pub names_from : List (Bytes × Bytes) → List PersonRow → List (Bytes × Bytes)
names_from m [] = m
names_from m (p ∷ ps) = names_from (upsert p.id (λ old. p.name) m) ps

abbrev pub new_link : List (Bytes × Bytes) → Bytes → Link
new_link names email = record {
  person = email;
  name = or_empty (lookup email names);
  kind = [];
  msgs = 0;
  shared_cc = 0;
  threads = 0;
  replies = 0;
  weight = 0;
  period = [];
  projects = [];
  premises = [];
  verdict = no_verdict;
  gaps = [];
}

abbrev pub or_new : List (Bytes × Bytes) → Bytes → Option Acc → Acc
or_new names email none = record { link = new_link names email; seen = []; tids = [] }
or_new names email (some a) = a

-- `get(email)` and a change of what it gives.
abbrev pub touch : List (Bytes × Bytes) → Bytes → (Acc → Acc) → Accs → Accs
touch names email f accs = upsert email (λ old. f (or_new names email old)) accs

-- A key into a set.
abbrev pub add_key : Bytes → List Bytes → List Bytes
add_key k ks = if has ks k then ks else k ∷ ks

-- `a.tids[m.ThreadID] = true`.
abbrev pub noted_thread : MsgRow → Acc → Acc
noted_thread m a = record a {
  tids = if is_empty m.thread_id then a.tids else add_key m.thread_id a.tids;
}

-- `noteDate`.
abbrev pub noted_date : Bytes → Acc → Acc
noted_date date a = record a {
  link = record a.link {
    period =
        if is_empty (day_only date) then a.link.period else span_join a.link.period (day_only date);
  };
}

abbrev pub with_premise : MsgRow → Acc → Acc
with_premise m a = record a {
  seen = m.id ∷ a.seen;
  link = record a.link {
    premises =
        a.link.premises ++ record { kind = mail; ref = m.id; date = day_only m.sent_at } ∷ [];
  };
}

-- `premiseMail`.
abbrev pub noted_premise : MsgRow → Acc → Acc
noted_premise m a = if is_empty m.id || has a.seen m.id then a else with_premise m a

-- What is noted of every letter of a link.
abbrev pub noted : MsgRow → Acc → Acc
noted m a = noted_premise m (noted_date m.sent_at (noted_thread m a))

-- A letter from one to the other.
abbrev pub direct : ℕ → MsgRow → Acc → Acc
direct role m a =
    noted m
      (record a { link = record a.link { msgs = suc a.link.msgs; weight = a.link.weight + role } })

-- A letter that both got.
abbrev pub shared : MsgRow → Acc → Acc
shared m a = noted m (record a {
  link = record a.link { shared_cc = suc a.link.shared_cc; weight = a.link.weight + shared_bonus };
})

-- A letter that answers one of the other.
abbrev pub replied : MsgRow → Acc → Acc
replied m a = noted m (record a {
  link = record a.link { replies = suc a.link.replies; weight = a.link.weight + reply_bonus };
})

-- The days and the number of commits of one person.
abbrev pub premise_of : CommitRow → Premise
premise_of c = record { kind = commit; ref = c.id; date = day_only c.date }

abbrev pub with_project : ProjectLink → List CommitRow → Acc → Acc
with_project p qs a = record a {
  link = record a.link {
    projects = a.link.projects ++ p ∷ [];
    premises = a.link.premises ++ map premise_of qs;
  };
}

-- A commit at the end of a list that a map holds.
abbrev pub with_commit : CommitRow → Option (List CommitRow) → List CommitRow
with_commit c none = c ∷ []
with_commit c (some cs) = cs ++ c ∷ []
