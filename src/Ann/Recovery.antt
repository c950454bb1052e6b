-- ===== src/Ann/Recovery.antt =====
-- What internal/brain/ann/ann.go finds again when an index is opened.
use dph.Base.{
  suc, ◌≡◌, refl, sym, ap, ◌∙◌, inl, inr, Bool, true, false, Option, none, some, List, [], ◌∷◌,
  ◌++◌, if◌then◌else◌, leb, length, All, Bool-cases, ◌==◌, append_assoc, append-nil,
}
use dph.Base.Text.{Bytes}
use dph.Base.Dict.{bytes_eq}
use dph.Ann.{
  Vec, Row, Index, RawParams, with_defaults, new_index, row_eligible, is_indexed, insert_row,
  replay,
}
use dph.Ann.Wal.{
  Disk, State, WalError, wal_text, lines_from, drop_cr, max_line, decode_lines, decode_wal, Write,
  whole, upsert_row, upsert_rows, ensure_wal, go_on, upsert,
}
use dph.Ann.Files.{load, open_index}
use dph.Ann.Views.{
  SameView, SameView-skipped, SameView-open, replay_row-new, replay_row-SameView, replay-append,
}

-- A line that the scanner gives back as it is.
pub record IsLine (b : Bytes) : Type 0 where
  pub no_break : All (λ c. (c == b'\n') ≡ false) b
  pub no_cr : drop_cr b ≡ b
  pub short : leb max_line (length b) ≡ false

abbrev line_end : Bytes
line_end = b'\n' ∷ []

pub lines_from-line :
    (b cur s : Bytes)
    → All (λ c. (c == b'\n') ≡ false) b
    → lines_from cur (b ++ b'\n' ∷ s) ≡ (cur ++ b) ∷ lines_from [] s
unfolding lines_from
lines_from-line [] cur s h = rw (append-nil cur) refl
lines_from-line (c ∷ b) cur s h = rw (h.0) (
    lines_from-line b (cur ++ c ∷ []) s h.1
    ∙ ap (λ l. l ∷ lines_from [] s) (append_assoc cur (c ∷ []) b))

module _ (marshal : Row → Option Bytes) (unmarshal : Bytes → Option Row) where
  -- The row has a text, on one line, from which it is read back.
  abbrev pub IsCodable : Row → Type 0
  IsCodable r = (b : Bytes) × (marshal r ≡ some b) × (unmarshal b ≡ some r) × IsLine b

  abbrev line_of : Option Bytes → Bytes
  line_of none = []
  line_of (some b) = b ++ line_end

  -- The log of the rows.
  abbrev pub log_text : List Row → Bytes
  log_text [] = []
  log_text (r ∷ rs) = line_of (marshal r) ++ log_text rs

  decode_lines-line :
      (b : Bytes) (r : Row) (ls : List Bytes)
      → unmarshal b ≡ some r
      → IsLine b
      → decode_lines unmarshal (b ∷ ls) ≡ r ∷ decode_lines unmarshal ls
  unfolding decode_lines
  decode_lines-line b r ls e h = rw (h.short, h.no_cr, e) refl

  -- A log that begins with the rows is read as the rows and what follows.
  pub decode_wal-log_text :
      (rs : List Row) (s : Bytes)
      → All IsCodable rs
      → decode_wal unmarshal (log_text rs ++ s) ≡ rs ++ decode_wal unmarshal s
  decode_wal-log_text [] s h = refl
  decode_wal-log_text (r ∷ rs) s ((b, m, u, l), h) = rw m (
      ap (λ t. decode_wal unmarshal t)
        (append_assoc (b ++ line_end) (log_text rs) s ∙ append_assoc b line_end (log_text rs ++ s))
      ∙ (ap (decode_lines unmarshal) (lines_from-line b [] (log_text rs ++ s) l.no_break)
          ∙ (decode_lines-line b r (lines_from [] (log_text rs ++ s)) u l
              ∙ ap (λ xs. r ∷ xs) (decode_wal-log_text rs s h))))

  log_text-append :
      (rs : List Row) (r : Row) → log_text rs ++ line_of (marshal r) ≡ log_text (rs ++ r ∷ [])
  log_text-append [] r = sym (append-nil (line_of (marshal r)))
  log_text-append (q ∷ rs) r =
      append_assoc (line_of (marshal q)) (log_text rs) (line_of (marshal r))
      ∙ ap (λ t. line_of (marshal q) ++ t) (log_text-append rs r)

  All-IsCodable-append :
      (rs : List Row) (r : Row) → All IsCodable rs → IsCodable r → All IsCodable (rs ++ r ∷ [])
  All-IsCodable-append [] r h c = (c, tt)
  All-IsCodable-append (q ∷ rs) r h c = (h.0, All-IsCodable-append rs r h.1 c)

  decode_wal_whole : (rs : List Row) → All IsCodable rs → decode_wal unmarshal (log_text rs) ≡ rs
  unfolding decode_lines lines_from
  decode_wal_whole rs h =
      ap (decode_wal unmarshal) (sym (append-nil (log_text rs)))
      ∙ (decode_wal-log_text rs [] h ∙ append-nil rs)

  module _ {F : Type 0} (cosine : Vec → Vec → F) (gt : F → F → Bool) (low : F)
      (raw : RawParams) where
    abbrev fresh : Index
    fresh = new_index true (with_defaults raw)

    abbrev replays : List Row → Index → Index
    replays rs ix = replay cosine gt low rs ix

    -- The files hold a snapshot that can be loaded, or none, and a log of whole lines of rows that are
    -- read back, and nothing more; and to replay the rows on the snapshot gives an index that answers
    -- like the one in memory.
    pub record IsDurable (s : State) : Type 0 where
      pub base : Index
      pub rows : List Row
      pub loads : load fresh s.1.snapshot ≡ inr base
      pub logs : wal_text s.1.wal ≡ log_text rows
      pub codable : All IsCodable rows
      pub same : SameView (replays rows base) s.0
      pub stored : s.0.is_stored ≡ true

    -- Open loads the snapshot and replays the rows of the log.
    pub open_index-replays :
        (s : State) (h : IsDurable s)
        → open_index cosine gt low unmarshal raw s.1 ≡ inr (replays h.rows h.base)
    unfolding open_index
    open_index-replays s h =
        rw (h.loads, h.logs)
          (ap (λ rs. inr (replays rs h.base)) (decode_wal_whole h.rows h.codable))

    pub open_index-SameView :
        (s : State)
        → IsDurable s
        → (jx : Index) × (open_index cosine gt low unmarshal raw s.1 ≡ inr jx) × SameView jx s.0
    open_index-SameView s h = (replays h.rows h.base, open_index-replays s h, h.same)

    -- The log takes every write whole.
    abbrev all_whole : Row → Write
    all_whole r = whole

    abbrev one_row : Row → State → State × Option WalError
    one_row r s = upsert_row cosine gt low marshal all_whole r s

    upsert_row-IsDurable :
        (r : Row) (s : State)
        → IsCodable r
        → IsDurable s
        → (t : State) × (one_row r s ≡ (t, none)) × IsDurable t × (t.0.params ≡ s.0.params)
    unfolding upsert_row
    upsert_row-IsDurable r (ix, d) c h = elim (Bool-cases (row_eligible ix r)) [
      | inr f ↦ (
        (record ix { skipped = suc ix.skipped }, d),
        rw f refl,
        record {
          base = h.base;
          rows = h.rows;
          loads = h.loads;
          logs = h.logs;
          codable = h.codable;
          same = SameView-skipped h.same;
          stored = h.stored;
        },
        refl,
      )
      | inl t ↦ elim (Bool-cases (is_indexed ix r.id)) [
        | inl k ↦ ((ix, d), rw (t, k) refl, h, refl)
        | inr k ↦ (
          (
            insert_row cosine gt low r ix,
            record d { wal = some (wal_text d.wal ++ (c.0 ++ line_end)) },
          ),
          rw (t, k, h.stored, c.1) refl,
          added t k,
          refl,
        )
      ]
    ]
      where
        added :
            row_eligible ix r ≡ true
            → is_indexed ix r.id ≡ false
            → IsDurable (
              insert_row cosine gt low r ix,
              record d { wal = some (wal_text d.wal ++ (c.0 ++ line_end)) },
            )
        added t k = record {
          base = h.base;
          rows = h.rows ++ r ∷ [];
          loads = h.loads;
          logs =
              ap (λ x. x ++ (c.0 ++ line_end)) h.logs
              ∙ (ap (λ l. log_text h.rows ++ l) (sym (ap line_of c.1)) ∙ log_text-append h.rows r);
          codable = All-IsCodable-append h.rows r h.codable c;
          same = rw (replay-append cosine gt low h.rows r h.base) (
              rw⁻¹ (replay_row-new cosine gt low r ix t k)
                (replay_row-SameView cosine gt low r h.same));
          stored = h.stored;
        }

    upsert_rows-IsDurable :
        (rs : List Row) (s : State)
        → All IsCodable rs
        → IsDurable s
        → (t : State) × (upsert_rows cosine gt low marshal all_whole rs s ≡ (t, none)) × IsDurable t
    unfolding upsert_rows
    upsert_rows-IsDurable [] s c h = (s, refl, h)
    upsert_rows-IsDurable (r ∷ rs) s c h =
        let q = upsert_row-IsDurable r s c.0 h in
        let k = upsert_rows-IsDurable rs q.0 c.1 q.2 in (k.0, rw q.1 k.1, k.2)

    -- Opening the log for writing leaves its text.
    ensure_wal-IsDurable :
        (ix : Index) (d : Disk)
        → IsDurable (ix, d)
        → (t : State) × (ensure_wal cosine gt low marshal all_whole none (ix, d) ≡ (t, none))
          × IsDurable t
    ensure_wal-IsDurable ix d h = elim (Bool-cases ix.wal_open) [
      | inl t ↦ ((ix, d), rw t refl, h)
      | inr f ↦ (
        (record ix { wal_open = true }, record d { wal = some (wal_text d.wal) }),
        rw f refl,
        record {
          base = h.base;
          rows = h.rows;
          loads = h.loads;
          logs = h.logs;
          codable = h.codable;
          same = SameView-open true h.same;
          stored = h.stored;
        },
      )
    ]

    -- Where the snapshot can be loaded, the log is exactly whole lines of rows that are read back, and
    -- to replay these on the snapshot gives the index in memory, and where the log can be opened and
    -- takes every write of rows that are read back: Upsert ends without an error, and all of this holds
    -- again.
    pub upsert-IsDurable :
        (rs : List Row) (s : State)
        → All IsCodable rs
        → IsDurable s
        → (t : State) × (upsert cosine gt low marshal all_whole none rs s ≡ (t, none)) × IsDurable t
    unfolding upsert
    upsert-IsDurable [] s c h = (s, refl, h)
    upsert-IsDurable (r ∷ rs) (ix, d) c h =
        let q = ensure_wal-IsDurable ix d h in
        let k = upsert_rows-IsDurable (r ∷ rs) q.0 c q.2 in
        (
          k.0,
          ap
                (λ b.
                  if b
                  then go_on cosine gt low marshal all_whole
                      (ensure_wal cosine gt low marshal all_whole none (ix, d)) all
                  else all (ix, d))
                h.stored
              ∙ (ap (λ s. go_on cosine gt low marshal all_whole s all) q.1 ∙ k.1),
          k.2,
        )
      where
        all : State → State × Option WalError
        all s = upsert_rows cosine gt low marshal all_whole (r ∷ rs) s
