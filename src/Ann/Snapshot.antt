-- ===== src/Ann/Snapshot.antt =====
-- The snapshot of internal/brain/ann/ann.go: writeSnapshot and readSnapshot, byte by byte.
pub mod RoundTrip
use dph.Base.{
  ℕ, zero, suc, ◌+◌, ◌*◌, ◌/◌, ◌%◌, ◌^◌, ◌≡◌, ◌⊎◌, inl, inr, Bool, true, false, not, ◌||◌, Option,
  none, some, List, [], ◌∷◌, ◌++◌, if◌then◌else◌, leb, ltb, ◌==◌, length, take, drop,
}
use dph.Base.Text.{Bytes, codes, str_eq}
use dph.Base.Dict.{bytes_eq, lookup, upsert}
use dph.Ann.{Vec, Row, Index, Params}

abbrev pub magic : Bytes
magic = codes "2DPHANN1"

-- An int32 or a float32, the lowest byte first; an int wraps to 32 bits.
abbrev pub le32 : ℕ → Bytes
le32 n = (n % 256) ∷ (n / 256 % 256) ∷ (n / 65536 % 256) ∷ (n / 16777216 % 256) ∷ []

unfoldable pub vec_bytes : Vec → Bytes
vec_bytes [] = []
vec_bytes (f ∷ v) = le32 f ++ vec_bytes v

unfoldable pub centroids_bytes : List Vec → Bytes
unfolding vec_bytes
centroids_bytes [] = []
centroids_bytes (c ∷ cs) = vec_bytes c ++ centroids_bytes cs

abbrev pub row_bytes : Row → Bytes
row_bytes r = le32 (length r.id) ++ (r.id ++ vec_bytes r.vec)

unfoldable pub rows_bytes : List Row → Bytes
rows_bytes [] = []
rows_bytes (r ∷ rs) = row_bytes r ++ rows_bytes rs

abbrev pub cell_bytes : List Row → Bytes
cell_bytes cell = le32 (length cell) ++ rows_bytes cell

unfoldable pub cells_bytes : List (List Row) → Bytes
cells_bytes [] = []
cells_bytes (cell ∷ cells) = cell_bytes cell ++ cells_bytes cells

-- `writeSnapshot`.
unfoldable pub write_snapshot : Index → Bytes
write_snapshot ix =
    magic
    ++ (le32 ix.params.dim
        ++ (le32 (length ix.centroids)
            ++ (le32 ix.params.nprobe ++ (centroids_bytes ix.centroids ++ cells_bytes ix.lists))))

pub data SnapshotError : Type 0 where
  cut_short bad_magic bad_dim bad_nlist bad_count bad_id_len : SnapshotError

-- A read: an error, or what was read and the bytes after it.
abbrev pub Read : Type 0 → Type 0
Read A = SnapshotError ⊎ (A × Bytes)

abbrev pub and_then : {A B : Type 0} → Read A → (A → Bytes → SnapshotError ⊎ B) → SnapshotError ⊎ B
and_then (inl e) k = inl e
and_then (inr (a, s)) k = k a s

-- `binary.Read` of four bytes.
abbrev pub read32 : Bytes → Read ℕ
read32 (a ∷ b ∷ c ∷ d ∷ s) = inr (a + 256 * b + 65536 * c + 16777216 * d, s)
read32 _ = inl cut_short

-- `io.ReadFull` of `n` bytes.
abbrev pub read_bytes : ℕ → Bytes → Read Bytes
read_bytes n s = if leb n (length s) then inr (take n s, drop n s) else inl cut_short

-- `binary.Read` of `n` float32 numbers.
unfoldable pub read_vec : ℕ → Bytes → Read Vec
read_vec zero s = inr ([], s)
read_vec (suc n) s = and_then (read32 s) (λ f s. and_then (read_vec n s) (λ v s. inr (f ∷ v, s)))

-- A negative int32, as its 32 bits.
abbrev pub is_negative32 : ℕ → Bool
is_negative32 n = leb (2 ^ 31) n

abbrev pub is_over : ℕ → ℕ → Bool
is_over limit n = is_negative32 n || ltb limit n

-- The inner loop over the rows of a cell.
abbrev pub read_row : ℕ → Bytes → Read Row
read_row dim s = and_then (read32 s) (λ n s.
    if is_over (2 ^ 16) n
    then inl bad_id_len
    else and_then (read_bytes n s)
        (λ id s. and_then (read_vec dim s) (λ v s. inr (record { id = id; vec = v }, s))))

unfoldable pub read_rows : ℕ → ℕ → Bytes → Read (List Row)
read_rows dim zero s = inr ([], s)
read_rows dim (suc n) s =
    and_then (read_row dim s) (λ r s. and_then (read_rows dim n s) (λ rs s. inr (r ∷ rs, s)))

abbrev pub read_cell : ℕ → Bytes → Read (List Row)
read_cell dim s =
    and_then (read32 s) (λ n s. if is_over (2 ^ 26) n then inl bad_count else read_rows dim n s)

-- The outer loop over the cells.
unfoldable pub read_cells : ℕ → ℕ → Bytes → Read (List (List Row))
read_cells dim zero s = inr ([], s)
read_cells dim (suc n) s =
    and_then (read_cell dim s)
      (λ cell s. and_then (read_cells dim n s) (λ cells s. inr (cell ∷ cells, s)))

unfoldable pub read_centroids : ℕ → ℕ → Bytes → Read (List Vec)
read_centroids dim zero s = inr ([], s)
read_centroids dim (suc n) s =
    and_then (read_vec dim s) (λ c s. and_then (read_centroids dim n s) (λ cs s. inr (c ∷ cs, s)))

-- `idCell[id] = c` for the rows of a cell, and for all cells.
unfoldable pub place_rows : ℕ → List Row → List (Bytes × ℕ) → List (Bytes × ℕ)
place_rows c [] m = m
place_rows c (r ∷ rs) m = place_rows c rs (upsert r.id (λ old. c) m)

unfoldable pub place_cells : ℕ → List (List Row) → List (Bytes × ℕ) → List (Bytes × ℕ)
place_cells c [] m = m
place_cells c (cell ∷ cells) m = place_cells (suc c) cells (place_rows c cell m)

abbrev pub loaded : Index → List Vec → List (List Row) → Index
loaded ix cs cells = record ix { centroids = cs; lists = cells; id_cell = place_cells 0 cells [] }

-- The cells, after the header was read.
abbrev pub read_body : Index → ℕ → Bytes → SnapshotError ⊎ Index
read_body ix n s =
    and_then (read_centroids ix.params.dim n s)
      (λ cs s. and_then (read_cells ix.params.dim n s) (λ cells s. inr (loaded ix cs cells)))

-- `readSnapshot`.
unfoldable pub read_snapshot : Index → Bytes → SnapshotError ⊎ Index
read_snapshot ix s = and_then (read_bytes 8 s) (λ m s.
    if not (str_eq m magic)
    then inl bad_magic
    else and_then (read32 s) (λ dim s. and_then (read32 s) (λ n s. and_then (read32 s) (λ nprobe s.
      if is_negative32 dim || not (dim == ix.params.dim)
      then inl bad_dim
      else if is_over (2 ^ 20) n || n == 0
      then inl bad_nlist
      else read_body ix n s))))
