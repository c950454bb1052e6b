-- ===== src/Ann/Torn.antt =====
-- Logs and snapshots of internal/brain/ann/ann.go that are not read back whole: a log that ends in
-- the middle of a line, and the snapshot of an index without cells.
use dph.Base.{
  ◌<◌, ◌^◌, ◌≡◌, refl, sym, ap, ◌∙◌, inl, Bool, true, false, Option, none, some, List, [], ◌∷◌,
  ◌++◌, ℕ, if◌then◌else◌, length, arith, All, ◌==◌, append_assoc, append-nil,
}
use dph.Base.Text.{Bytes, str_eq_refl, is_empty}
use dph.Ann.{Vec, Row, Index, RawParams, with_defaults, new_index}
use dph.Ann.Wal.{Disk, lines_from, drop_cr, decode_lines, decode_wal}
use dph.Ann.Snapshot.{bad_nlist, magic, write_snapshot, read_snapshot}
use dph.Ann.Snapshot.RoundTrip.{word, read_magic, same_dim, is_negative32-small, header, body}
use dph.Ann.Files.{open_index, save_snapshot}
use dph.Ann.Recovery.{IsCodable, log_text, decode_wal-log_text, lines_from-line}

-- A text without a line end is one line, if it is not empty.
lines_from-last :
    (b cur : Bytes)
    → All (λ c. (c == b'\n') ≡ false) b
    → lines_from cur b ≡ (if is_empty (cur ++ b) then [] else (cur ++ b) ∷ [])
unfolding lines_from
lines_from-last [] cur h = rw (append-nil cur) refl
lines_from-last (c ∷ b) cur h = rw (h.0) (
    lines_from-last b (cur ++ c ∷ []) h.1
    ∙ ap (λ l. if is_empty l then [] else l ∷ []) (append_assoc cur (c ∷ []) b))

All-front : (P : ℕ → Type 0) (xs ys : Bytes) → All P (xs ++ ys) → All P xs
All-front P [] ys h = tt
All-front P (x ∷ xs) ys h = (h.0, All-front P xs ys h.1)

module _ (marshal : Row → Option Bytes) (unmarshal : Bytes → Option Row) where
  -- Of a log of whole lines of rows that are read back, with a broken line after them that is no
  -- row, these rows are read. A row that is appended to it afterwards is written onto the broken
  -- line; where the two together are one line and no row either, that row and all after it are
  -- lost: again only the rows before the broken line are read.
  pub decode_wal_torn :
      (rs qs : List Row) (q : Row) (torn b : Bytes)
      → All (IsCodable marshal unmarshal) rs
      → All (λ c. (c == b'\n') ≡ false) (torn ++ b)
      → marshal q ≡ some b
      → unmarshal (drop_cr torn) ≡ none
      → unmarshal (drop_cr (torn ++ b)) ≡ none
      → (decode_wal unmarshal (log_text marshal unmarshal rs ++ torn) ≡ rs)
        × (decode_wal unmarshal
              (log_text marshal unmarshal rs ++ (torn ++ log_text marshal unmarshal (q ∷ qs)))
            ≡ rs)
  unfolding decode_lines
  decode_wal_torn rs qs q torn b h nb m v u = (
    decode_wal-log_text marshal unmarshal rs torn h ∙ (ap (λ xs. rs ++ xs) alone ∙ append-nil rs),
    decode_wal-log_text marshal unmarshal rs (torn ++ log_text marshal unmarshal (q ∷ qs)) h
        ∙ (ap (λ xs. rs ++ xs) lost ∙ append-nil rs),
  )
    where
      rest : Bytes
      rest = log_text marshal unmarshal qs

      none_there : (ls : List Bytes) → decode_lines unmarshal (torn ∷ ls) ≡ []
      none_there ls = rw v (ground arith)

      by_line : (t : Bool) → decode_lines unmarshal (if t then [] else torn ∷ []) ≡ []
      by_line true = refl
      by_line false = none_there []

      alone : decode_wal unmarshal torn ≡ []
      alone =
          ap (decode_lines unmarshal)
            (lines_from-last torn [] (All-front (λ c. (c == b'\n') ≡ false) torn b nb))
          ∙ by_line (is_empty torn)

      nothing : (ls : List Bytes) → decode_lines unmarshal ((torn ++ b) ∷ ls) ≡ []
      nothing ls = rw u (ground arith)

      lost : decode_wal unmarshal (torn ++ log_text marshal unmarshal (q ∷ qs)) ≡ []
      lost = rw m (
          ap (λ t. decode_wal unmarshal t)
            (ap (λ t. torn ++ t) (append_assoc b (b'\n' ∷ []) rest)
              ∙ sym (append_assoc torn b (b'\n' ∷ rest)))
          ∙ (ap (decode_lines unmarshal) (lines_from-line (torn ++ b) [] rest nb)
              ∙ nothing (lines_from [] rest)))

-- The snapshot of an index without cells is refused by readSnapshot.
read_snapshot_empty :
    (ix into : Index)
    → ix.centroids ≡ []
    → ix.params.dim < 2 ^ 31
    → into.params.dim ≡ ix.params.dim
    → read_snapshot into (write_snapshot ix) ≡ inl bad_nlist
unfolding read_snapshot write_snapshot
read_snapshot_empty ix into e h d =
    rw
      (
        read_magic (header ix (body ix)),
        str_eq_refl magic,
        word ix.params.dim (omega (arith, h)),
        is_negative32-small ix.params.dim h,
        same_dim ix.params.dim into.params.dim d,
        ap length e,
      )
      refl

module _ {F : Type 0} (cosine : Vec → Vec → F) (gt : F → F → Bool) (low : F)
    (unmarshal : Bytes → Option Row) where
  -- An index that has no cells, as Build makes it of no eligible rows, can be saved, but Open does
  -- not take the snapshot back: it ends with the error for a bad number of cells.
  pub open_index_empty :
      (raw : RawParams) (ix : Index) (d : Disk)
      → ix.centroids ≡ []
      → ix.params ≡ with_defaults raw
      → ix.params.dim < 2 ^ 31
      → open_index cosine gt low unmarshal raw (save_snapshot none ix d).0 ≡ inl bad_nlist
  unfolding open_index save_snapshot
  open_index_empty raw ix d e p h =
      rw (read_snapshot_empty ix (new_index true (with_defaults raw)) e h (ap (λ q. q.dim) (sym p)))
        refl
