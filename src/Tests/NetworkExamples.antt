-- ===== src/Tests/NetworkExamples.antt =====
-- Examples on the network of contacts: two letters and two commits.
use dph.Base.{ℕ, ◌≡◌, refl, inl, false, Option, none, List, [], ◌∷◌, arith, In, All}
use dph.Base.Text.{Bytes, codes, str_eq, str_lt, has, trim_space, index_of}
use dph.Base.Dict.{lookup, upsert}
use dph.Base.Sort.{insert_by, sort_by, Pairwise}
use dph.Network.{
  MsgRow, CommitRow, Rows, Filter, Link, mail, commit, accept, weaken, only_shared, verdict,
}
use dph.Network.Periods.{span_join, merge_periods, span_from, commit_dates}
use dph.Network.Links.{names_from}
use dph.Network.Build.{
  add_recips, is_among, direct_all, shared_all, mail_row, mail_rows, senders_from, reply_row,
  reply_rows, by_repo, own_commits, by_person, join_all, repo_row, repo_rows, has_project,
  projects_period, links_of, gathered, build_links,
}
use dph.Network.Build.Letters.{letters}
use dph.Network.Build.Grounds.{Grounded}
use dph.Network.Build.Answer.{
  StandsBefore, build_links-Grounded, build_links-msgs, build_links-Ranked, build_links_reaches,
}

-- All addresses are in lower case, no date is read as an instant, and no kind is known.
abbrev same : Bytes → Bytes
same s = s

abbrev no_time : Bytes → Option ℕ
no_time s = none

abbrev no_kind : Bytes → Bytes → Bytes
no_kind name email = []

abbrev in_order : List (Bytes × List CommitRow) → List (Bytes × List CommitRow)
in_order rs = rs

abbrev asks : MsgRow
asks = record {
  id = codes "1";
  thread_id = codes "t";
  sent_at = codes "2024-05-01";
  gator_ref = [];
  sender = codes "me";
  to = codes "q" ∷ [];
  cc = codes "q" ∷ [];
  bcc = [];
  reply_to = [];
}

abbrev answers : MsgRow
answers = record {
  id = codes "2";
  thread_id = codes "t";
  sent_at = codes "2024-05-03";
  gator_ref = [];
  sender = codes "q";
  to = codes "me" ∷ [];
  cc = codes "r" ∷ [];
  bcc = [];
  reply_to = codes "1";
}

abbrev commit_of : Bytes → Bytes → CommitRow
commit_of id email = record { id = id; repo = codes "p"; date = codes "2024-05-09"; email = email }

abbrev example : Rows
example = record {
  msgs = asks ∷ answers ∷ [];
  commits = commit_of (codes "a") (codes "me") ∷ commit_of (codes "b") (codes "q") ∷ [];
  persons = record { id = codes "q"; name = codes "Q" } ∷ [];
}

abbrev of_me : Filter
of_me = record { person = codes " me"; project = []; since = none; until = none }

abbrev with_q : Link
with_q = record {
  person = codes "q";
  name = codes "Q";
  kind = [];
  msgs = 2;
  shared_cc = 0;
  threads = 1;
  replies = 1;
  weight = 10;
  period = codes "2024-05-01..2024-05-03";
  projects =
      record { repo = codes "p"; commits_me = 1; commits_q = 1; period = codes "2024-05-09" } ∷ [];
  premises =
      record { kind = mail; ref = codes "1"; date = codes "2024-05-01" }
      ∷ record { kind = mail; ref = codes "2"; date = codes "2024-05-03" }
      ∷ record { kind = commit; ref = codes "b"; date = codes "2024-05-09" }
      ∷ [];
  verdict = accept;
  gaps = [];
}

abbrev with_r : Link
with_r = record {
  person = codes "r";
  name = [];
  kind = [];
  msgs = 0;
  shared_cc = 1;
  threads = 1;
  replies = 0;
  weight = 1;
  period = codes "2024-05-03";
  projects = [];
  premises = record { kind = mail; ref = codes "2"; date = codes "2024-05-03" } ∷ [];
  verdict = weaken;
  gaps = only_shared ∷ [];
}

abbrev found : List Link
found = build_links same str_eq no_time no_kind in_order example of_me

found_all : found ≡ with_q ∷ with_r ∷ []
unfolding build_links gathered names_from add_recips is_among direct_all shared_all mail_row
    mail_rows senders_from reply_row reply_rows by_repo own_commits by_person join_all repo_row
    repo_rows has_project projects_period links_of insert_by sort_by lookup upsert str_eq str_lt has
    trim_space index_of span_join merge_periods span_from commit_dates verdict
found_all = refl

abbrev goes_over :
    (r : Bytes × List CommitRow) (rs : List (Bytes × List CommitRow)) → In r (in_order rs) → In r rs
goes_over r rs i = i

q_found : In with_q found
q_found = rw found_all (inl refl)

build_links-Ranked_example : Pairwise StandsBefore found
build_links-Ranked_example =
    build_links-Ranked same str_eq no_time no_kind in_order example of_me goes_over

build_links-msgs_example :
    with_q.msgs ≡ letters same str_eq no_time of_me (codes "me") with_q.person example.msgs
unfolding trim_space
build_links-msgs_example =
    build_links-msgs same str_eq no_time no_kind in_order example of_me goes_over with_q q_found

build_links-Grounded_example :
    (str_eq with_q.person (codes "me") ≡ false)
    × All
        (Grounded same str_eq no_time
          (names_from [] example.persons)
          of_me
          (codes "me")
          example
          with_q.person)
        with_q.premises
unfolding trim_space
build_links-Grounded_example =
    build_links-Grounded same str_eq no_time no_kind in_order example of_me goes_over with_q q_found

two_letters : letters same str_eq no_time of_me (codes "me") (codes "q") example.msgs ≡ 2
unfolding letters has str_eq is_among
two_letters = refl

build_links_reaches_example : (l : Link) × In l found × (l.person ≡ codes "q")
unfolding trim_space
build_links_reaches_example =
    build_links_reaches same str_eq no_time no_kind in_order example of_me goes_over refl refl
      (codes "q") (omega (arith, two_letters))
