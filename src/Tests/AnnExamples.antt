-- ===== src/Tests/AnnExamples.antt =====
-- Examples on the nearest-neighbour index: two rows of one dimension.
use dph.Base.{
  if◌then◌else◌, ap, ℕ, zero, suc, ◌≡◌, ◌<◌, ◌≤◌, refl, inl, inr, Bool, true, false, Option, none,
  some, List, [], ◌∷◌, ◌++◌, arith, ltb, ◌==◌, length, map, All, take,
}
use dph.Base.Number.{pos}
use dph.Base.Text.{Bytes, codes}
use dph.Ann.{Vec, Row, Index, Params, RawParams, with_defaults, new_index, all_rows}
use dph.Ann.Wal.{Disk, State, Write, whole, cut_off, upsert, decode_wal}
use dph.Ann.Insert.{IsConsistent}
use dph.Ann.Snapshot.{write_snapshot, read_snapshot, bad_nlist, loaded}
use dph.Ann.Snapshot.RoundTrip.{Fits, write_snapshot-read_snapshot}
use dph.Ann.Files.{open_index, save, save_snapshot}
use dph.Ann.Views.{SameView, SameView-refl}
use dph.Ann.Recovery.{IsCodable, IsDurable, log_text, upsert-IsDurable}
use dph.Ann.Saves.{CanSave, save-IsDurable}
use dph.Ann.Sessions.{Session, open_index-Session}
use dph.Ann.Upserts.{upsert-IsConsistent}
use dph.Ann.Torn.{decode_wal_torn, open_index_empty}

-- The float32 number 1.
abbrev one : ℕ
one = 0x3F80_0000

abbrev raw : RawParams
raw = record { dim = pos 1; nlist = pos 4; nprobe = pos 2 }

abbrev row_of : Bytes → Row
row_of id = record { id = id; vec = one ∷ [] }

-- The id as the text of a row, all rows having the same vector.
abbrev to_text : Row → Option Bytes
to_text r = some r.id

abbrev of_text : Bytes → Option Row
of_text [] = none
of_text (c ∷ s) = if c == b'{' then none else some (row_of (c ∷ s))

abbrev same_cosine : Vec → Vec → ℕ
same_cosine v c = 1

abbrev above : ℕ → ℕ → Bool
above a b = ltb b a

abbrev row_a : Row
row_a = row_of (codes "a")

abbrev row_b : Row
row_b = row_of (codes "b")

a_IsCodable : IsCodable to_text of_text row_a
unfolding dph.Ann.Wal.drop_cr
a_IsCodable = (codes "a", refl, refl, record { no_break = (refl, tt); no_cr = refl; short = refl })

b_IsCodable : IsCodable to_text of_text row_b
unfolding dph.Ann.Wal.drop_cr
b_IsCodable = (codes "b", refl, refl, record { no_break = (refl, tt); no_cr = refl; short = refl })

abbrev no_files : Disk
no_files = record { snapshot = none; wal = none; tmp = none }

abbrev empty_state : State
empty_state = (new_index true (with_defaults raw), no_files)

empty_IsDurable : IsDurable to_text of_text same_cosine above 0 raw empty_state
unfolding dph.Ann.replay
empty_IsDurable = record {
  base = new_index true (with_defaults raw);
  rows = [];
  loads = refl;
  logs = refl;
  codable = tt;
  same = SameView-refl (new_index true (with_defaults raw));
  stored = refl;
}

empty_IsConsistent : IsConsistent empty_state.0
unfolding dph.Base.Dict.lookup
empty_IsConsistent = record { sizes = refl; placed = tt; found = λ id c e. absurd (ground arith) }

abbrev all_whole : Row → Write
all_whole r = whole

abbrev two_rows : List Row
two_rows = row_a ∷ row_b ∷ []

upsert-IsDurable_example :
    (t : State) × (upsert same_cosine above 0 to_text all_whole none two_rows empty_state
      ≡ (t, none))
    × IsDurable to_text of_text same_cosine above 0 raw t
upsert-IsDurable_example =
    upsert-IsDurable to_text of_text same_cosine above 0 raw two_rows empty_state
      (a_IsCodable, (b_IsCodable, tt)) empty_IsDurable

upsert-IsConsistent_example :
    IsConsistent
      (upsert same_cosine above 0 to_text (λ r. cut_off 1 5) none two_rows empty_state).0.0
upsert-IsConsistent_example =
    upsert-IsConsistent same_cosine above 0 to_text (λ r. cut_off 1 5) none two_rows empty_state
      empty_IsConsistent

-- The state after both rows were inserted.
abbrev after_two : State
after_two = (upsert same_cosine above 0 to_text all_whole none two_rows empty_state).0

two_IsDurable : IsDurable to_text of_text same_cosine above 0 raw after_two
two_IsDurable =
    let q =
      upsert-IsDurable to_text of_text same_cosine above 0 raw two_rows empty_state
        (a_IsCodable, (b_IsCodable, tt)) empty_IsDurable in
    rw (ap (λ a. a.0) q.1) q.2

two_Fits : Fits after_two.0
unfolding upsert dph.Ann.Wal.upsert_rows dph.Ann.Wal.upsert_row dph.Ann.zero_norm dph.Ann.append_at
    dph.Ann.nearest_from dph.Base.Dict.lookup dph.Base.Text.str_eq dph.Base.Dict.upsert
two_Fits = record {
  dim = omega arith;
  cells = (omega arith, omega arith);
  sizes = refl;
  centroids = ((refl, (omega arith, tt)), tt);
  rows = (
    (
      omega arith,
      ((omega arith, (refl, (omega arith, tt))), ((omega arith, (refl, (omega arith, tt))), tt)),
    ),
    tt,
  );
}

two_CanSave : CanSave to_text of_text same_cosine above 0 raw after_two.0
unfolding upsert dph.Ann.Wal.upsert_rows dph.Ann.Wal.upsert_row dph.Ann.zero_norm dph.Ann.append_at
    dph.Ann.nearest_from dph.Base.Dict.lookup dph.Base.Text.str_eq dph.Base.Dict.upsert
two_CanSave = record {
  consistent =
      upsert-IsConsistent same_cosine above 0 to_text all_whole none two_rows empty_state
        empty_IsConsistent;
  fits = two_Fits;
  params = refl;
}

-- The log is left where it cannot be removed.
save-IsDurable_example :
    IsDurable to_text of_text same_cosine above 0 raw
      (save none none (some 5) after_two.0 after_two.1).0
save-IsDurable_example =
    save-IsDurable to_text of_text same_cosine above 0 raw none none (some 5) after_two.0
      after_two.1 two_CanSave two_IsDurable

-- Both rows are inserted, and the index is saved, but the log cannot be removed.
abbrev saved_two : State
saved_two = (save none none (some 5) after_two.0 after_two.1).0

saved_two-Session : Session to_text of_text same_cosine above 0 raw saved_two
saved_two-Session =
    Session.saved none none (some 5)
      (Session.upserted two_rows Session.started (a_IsCodable, (b_IsCodable, tt))) two_Fits

open_index-Session_example :
    (jx : Index) × (open_index same_cosine above 0 of_text raw saved_two.1 ≡ inr jx)
    × SameView jx saved_two.0
open_index-Session_example =
    open_index-Session to_text of_text same_cosine above 0 raw saved_two saved_two-Session

two_dim : (new_index true (with_defaults raw)).params.dim ≡ after_two.0.params.dim
unfolding upsert dph.Ann.Wal.upsert_rows dph.Ann.Wal.upsert_row dph.Ann.zero_norm dph.Ann.append_at
    dph.Ann.nearest_from dph.Base.Dict.lookup dph.Base.Text.str_eq dph.Base.Dict.upsert
two_dim = refl

write_snapshot-read_snapshot_example :
    read_snapshot (new_index true (with_defaults raw)) (write_snapshot after_two.0)
    ≡ inr (loaded (new_index true (with_defaults raw)) after_two.0.centroids after_two.0.lists)
write_snapshot-read_snapshot_example =
    write_snapshot-read_snapshot after_two.0 (new_index true (with_defaults raw)) two_Fits two_dim

open_index_empty_example :
    open_index same_cosine above 0 of_text raw (save_snapshot none empty_state.0 no_files).0
    ≡ inl bad_nlist
open_index_empty_example =
    open_index_empty same_cosine above 0 of_text raw empty_state.0 no_files refl refl (omega arith)

-- A line that breaks off after its first byte.
decode_wal_torn_example :
    (decode_wal of_text (log_text to_text of_text (row_a ∷ []) ++ codes "{") ≡ row_a ∷ [])
    × (decode_wal of_text (
          log_text to_text of_text (row_a ∷ [])
          ++ (codes "{" ++ log_text to_text of_text (row_b ∷ [])))
        ≡ row_a ∷ [])
unfolding dph.Ann.Wal.drop_cr
decode_wal_torn_example =
    decode_wal_torn to_text of_text (row_a ∷ []) [] row_b (codes "{") (codes "b") (a_IsCodable, tt)
      (refl, (refl, tt)) refl refl refl
