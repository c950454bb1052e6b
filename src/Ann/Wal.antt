-- ===== src/Ann/Wal.antt =====
-- The log of internal/brain/ann/wal.go, and the operations of ann.go that write to it.
use dph.Base.{
  ℕ, suc, Bool, true, not, Option, none, some, List, [], ◌∷◌, ◌++◌, if◌then◌else◌, leb, ◌==◌,
  length, take,
}
use dph.Base.Text.{Bytes, is_empty}
use dph.Ann.{Vec, Row, Index, row_eligible, is_indexed, insert_row}

-- The files of an index: a snapshot, the log, and the snapshot that is being written.
pub record Disk : Type 0 where
  pub snapshot : Option Bytes
  pub wal : Option Bytes
  pub tmp : Option Bytes

abbrev pub wal_text : Option Bytes → Bytes
wal_text none = []
wal_text (some s) = s

-- The lines of a text, `cur` being the line so far; a last line needs no end.
unfoldable pub lines_from : Bytes → Bytes → List Bytes
lines_from cur [] = if is_empty cur then [] else cur ∷ []
lines_from cur (c ∷ s) =
    let next = lines_from [] s in
    let on = lines_from (cur ++ c ∷ []) s in if c == b'\n' then cur ∷ next else on

-- `bufio.ScanLines` cuts one carriage return at the end of a line.
unfoldable pub drop_cr : Bytes → Bytes
drop_cr [] = []
drop_cr (c ∷ []) = if c == b'\r' then [] else c ∷ []
drop_cr (c ∷ d ∷ s) = c ∷ drop_cr (d ∷ s)

-- The size of the buffer of the scanner: a longer line ends the scan.
abbrev pub max_line : ℕ
max_line = 4194304

module _ (unmarshal : Bytes → Option Row) where
  -- `WALDecoder.Next` until it ends.
  unfoldable pub decode_lines : List Bytes → List Row
  decode_lines [] = []
  decode_lines (l ∷ ls) =
      let rest = decode_lines ls in
      if leb max_line (length l)
      then []
      else elim (unmarshal (drop_cr l)) [ none ↦ [] | some r ↦ r ∷ rest ]

  -- The rows of a log.
  abbrev pub decode_wal : Bytes → List Row
  decode_wal s = decode_lines (lines_from [] s)

-- How a write to the log goes: whole, or with an error after some bytes.
pub data Write : Type 0 where
  whole : Write
  cut_off : ℕ → ℕ → Write

pub data WalError : Type 0 where
  cannot_open cannot_write : ℕ → WalError
  not_json : WalError

abbrev pub written : Bytes → Disk → Write → Disk × Option WalError
written line d whole = (record d { wal = some (wal_text d.wal ++ line) }, none)
written line d (cut_off n e) =
    (record d { wal = some (wal_text d.wal ++ take n line) }, some (cannot_write e))

-- `WALEncoder.Append`.
abbrev pub append_line : Option Bytes → Disk → Write → Disk × Option WalError
append_line none d w = (d, some not_json)
append_line (some s) d w = written (s ++ b'\n' ∷ []) d w

abbrev pub State : Type 0
State = Index × Disk

module _ {F : Type 0} (cosine : Vec → Vec → F) (gt : F → F → Bool) (low : F)
    (marshal : Row → Option Bytes) (writes : Row → Write) where
  abbrev pub logged : Index → Disk × Option WalError → State × Option WalError
  logged ix (d, e) = ((ix, d), e)

  -- A row that is not indexed yet.
  abbrev pub add_row : Row → State → State × Option WalError
  add_row r (ix, d) =
      if ix.is_stored
      then logged (insert_row cosine gt low r ix) (append_line (marshal r) d (writes r))
      else ((insert_row cosine gt low r ix, d), none)

  abbrev pub go_on :
      State × Option WalError → (State → State × Option WalError) → State × Option WalError
  go_on (s, none) k = k s
  go_on (s, some e) k = (s, some e)

  -- One round of the loop of `upsertLocked`.
  unfoldable pub upsert_row : Row → State → State × Option WalError
  upsert_row r (ix, d) =
      if not (row_eligible ix r)
      then ((record ix { skipped = suc ix.skipped }, d), none)
      else if is_indexed ix r.id
      then ((ix, d), none)
      else add_row r (ix, d)

  -- The loop of `upsertLocked`.
  unfoldable pub upsert_rows : List Row → State → State × Option WalError
  upsert_rows [] s = (s, none)
  upsert_rows (r ∷ rs) s = go_on (upsert_row r s) (upsert_rows rs)

  abbrev pub open_wal : Option ℕ → State → State × Option WalError
  open_wal none (ix, d) =
      ((record ix { wal_open = true }, record d { wal = some (wal_text d.wal) }), none)
  open_wal (some e) (ix, d) = ((ix, d), some (cannot_open e))

  -- `ensureWAL`: the log is made where it is missing; `opens` is the error of opening it.
  abbrev pub ensure_wal : Option ℕ → State → State × Option WalError
  ensure_wal opens (ix, d) = if ix.wal_open then ((ix, d), none) else open_wal opens (ix, d)

  -- `Upsert`.
  unfoldable pub upsert : Option ℕ → List Row → State → State × Option WalError
  upsert opens [] s = (s, none)
  upsert opens (r ∷ rs) (ix, d) =
      if ix.is_stored
      then go_on (ensure_wal opens (ix, d)) (upsert_rows (r ∷ rs))
      else upsert_rows (r ∷ rs) (ix, d)
