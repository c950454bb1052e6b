-- ===== src/Ann/Snapshot/RoundTrip.antt =====
-- What readSnapshot of internal/brain/ann/ann.go reads back from writeSnapshot.
use dph.Base.{
  ℕ, ◌+◌, ◌*◌, ◌/◌, ◌%◌, ◌^◌, ◌≤◌, ◌<◌, ◌≡◌, refl, sym, ap, ◌∙◌, inr, true, false, List, [], ◌∷◌,
  ◌++◌, leb, ◌==◌, length, take, drop, arith, All, append_assoc, append-nil,
}
use dph.Base.Text.{Bytes, str_eq_refl}
use dph.Ann.{Vec, Row, Index}
use dph.Ann.Snapshot.{
  magic, le32, vec_bytes, centroids_bytes, row_bytes, rows_bytes, cell_bytes, cells_bytes,
  write_snapshot, read_bytes, read_vec, is_negative32, is_over, read_row, read_rows, read_cell,
  read_cells, read_centroids, loaded, read_body, read_snapshot,
}

pub word :
    (n : ℕ)
    → n < 2 ^ 32
    → n % 256 + 256 * (n / 256 % 256) + 65536 * (n / 65536 % 256) + 16777216 * (n / 16777216 % 256)
      ≡ n
word n h = omega arith

take-append : (a b : Bytes) → take (length a) (a ++ b) ≡ a
take-append [] b = refl
take-append (x ∷ a) b = ap (◌∷◌ x) (take-append a b)

drop-append : (a b : Bytes) → drop (length a) (a ++ b) ≡ b
drop-append [] b = refl
drop-append (x ∷ a) b = drop-append a b

length-le-append : (a b : Bytes) → length a ≤ length (a ++ b)
length-le-append [] b = omega arith
length-le-append (x ∷ a) b = omega (arith, length-le-append a b)

leb-le : (m n : ℕ) → m ≤ n → leb m n ≡ true
leb-le m n h = ground arith

read_bytes-append : (a b : Bytes) → read_bytes (length a) (a ++ b) ≡ inr (a, b)
read_bytes-append a b =
    rw
      (leb-le (length a) (length (a ++ b)) (length-le-append a b), take-append a b, drop-append a b)
      refl

abbrev pub FitsVec : ℕ → Vec → Type 0
FitsVec dim v = (length v ≡ dim) × All (λ f. f < 2 ^ 32) v

read_vec-vec_bytes :
    (v : Vec) (s : Bytes)
    → All (λ f. f < 2 ^ 32) v
    → read_vec (length v) (vec_bytes v ++ s) ≡ inr (v, s)
unfolding read_vec vec_bytes
read_vec-vec_bytes [] s h = refl
read_vec-vec_bytes (f ∷ v) s h = rw (word f h.0, read_vec-vec_bytes v s h.1) refl

read_vec-append :
    (dim : ℕ) (v : Vec) (s : Bytes) → FitsVec dim v → read_vec dim (vec_bytes v ++ s) ≡ inr (v, s)
read_vec-append dim v s (l, h) = rw⁻¹ l (read_vec-vec_bytes v s h)

-- What one row takes.
abbrev pub FitsRow : ℕ → Row → Type 0
FitsRow dim r = (length r.id ≤ 2 ^ 16) × FitsVec dim r.vec

abbrev pub FitsCell : ℕ → List Row → Type 0
FitsCell dim cell = (length cell ≤ 2 ^ 26) × All (FitsRow dim) cell

not_over : (limit n : ℕ) → n ≤ limit → limit < 2 ^ 31 → is_over limit n ≡ false
not_over limit n h k = ground arith

read_row-append :
    (dim : ℕ) (r : Row) (s : Bytes) → FitsRow dim r → read_row dim (row_bytes r ++ s) ≡ inr (r, s)
read_row-append dim r s (l, h) =
    rw
      (
        word (length r.id) (omega arith),
        not_over 65536 (length r.id) l (omega arith),
        append_assoc,
        read_bytes-append r.id (vec_bytes r.vec ++ s),
        read_vec-append dim r.vec s h,
      )
      refl

read_rows-append :
    (dim : ℕ) (rs : List Row) (s : Bytes)
    → All (FitsRow dim) rs
    → read_rows dim (length rs) (rows_bytes rs ++ s) ≡ inr (rs, s)
unfolding read_rows rows_bytes
read_rows-append dim [] s h = refl
read_rows-append dim (r ∷ rs) s h =
    rw (append_assoc, read_row-append dim r (rows_bytes rs ++ s) h.0, read_rows-append dim rs s h.1)
      refl

read_cell-append :
    (dim : ℕ) (cell : List Row) (s : Bytes)
    → FitsCell dim cell
    → read_cell dim (cell_bytes cell ++ s) ≡ inr (cell, s)
read_cell-append dim cell s (l, h) =
    rw
      (
        word (length cell) (omega arith),
        not_over 67108864 (length cell) l (omega arith),
        read_rows-append dim cell s h,
      )
      refl

read_cells-append :
    (dim : ℕ) (cells : List (List Row)) (s : Bytes)
    → All (FitsCell dim) cells
    → read_cells dim (length cells) (cells_bytes cells ++ s) ≡ inr (cells, s)
unfolding read_cells cells_bytes
read_cells-append dim [] s h = refl
read_cells-append dim (cell ∷ cells) s h =
    rw
      (
        append_assoc,
        read_cell-append dim cell (cells_bytes cells ++ s) h.0,
        read_cells-append dim cells s h.1,
      )
      refl

read_centroids-append :
    (dim : ℕ) (cs : List Vec) (s : Bytes)
    → All (FitsVec dim) cs
    → read_centroids dim (length cs) (centroids_bytes cs ++ s) ≡ inr (cs, s)
unfolding read_centroids centroids_bytes
read_centroids-append dim [] s h = refl
read_centroids-append dim (c ∷ cs) s h =
    rw
      (
        append_assoc,
        read_vec-append dim c (centroids_bytes cs ++ s) h.0,
        read_centroids-append dim cs s h.1,
      )
      refl

-- What the numbers of the format take: a dimension of 31 bits, up to 2 ^ 20 cells and at least one,
-- up to 2 ^ 26 rows in a cell, and ids of up to 2 ^ 16 bytes.
pub record Fits (ix : Index) : Type 0 where
  pub dim : ix.params.dim < 2 ^ 31
  pub cells : (1 ≤ length ix.centroids) × (length ix.centroids ≤ 2 ^ 20)
  pub sizes : length ix.lists ≡ length ix.centroids
  pub centroids : All (FitsVec ix.params.dim) ix.centroids
  pub rows : All (FitsCell ix.params.dim) ix.lists

abbrev pub header : Index → Bytes → Bytes
header ix s = le32 ix.params.dim ++ (le32 (length ix.centroids) ++ (le32 ix.params.nprobe ++ s))

abbrev pub body : Index → Bytes
body ix = centroids_bytes ix.centroids ++ cells_bytes ix.lists

pub read_magic : (s : Bytes) → read_bytes 8 (magic ++ s) ≡ inr (magic, s)
read_magic s = read_bytes-append magic s

pub is_negative32-small : (n : ℕ) → n < 2 ^ 31 → is_negative32 n ≡ false
is_negative32-small n h = ground arith

pub same_dim : (m n : ℕ) → n ≡ m → (m == n) ≡ true
same_dim m n e = ground arith

not_zero : (n : ℕ) → 1 ≤ n → (n == 0) ≡ false
not_zero n h = ground arith

read_body-body :
    (ix into : Index)
    → Fits ix
    → into.params.dim ≡ ix.params.dim
    → read_body into (length ix.centroids) (body ix) ≡ inr (loaded into ix.centroids ix.lists)
read_body-body ix into h e =
    rw
      (
        e,
        read_centroids-append ix.params.dim ix.centroids (cells_bytes ix.lists) h.centroids,
        read_all_cells,
      )
      refl
  where
    read_all_cells :
        read_cells ix.params.dim (length ix.centroids) (cells_bytes ix.lists) ≡ inr (ix.lists, [])
    read_all_cells = rw⁻¹ h.sizes (
        ap (λ t. read_cells ix.params.dim (length ix.lists) t)
          (sym (append-nil (cells_bytes ix.lists)))
        ∙ read_cells-append ix.params.dim ix.lists [] h.rows)

-- readSnapshot reads from what writeSnapshot wrote the same centroids and the same rows in the same
-- cells, for an index that fits the format, into any index of the same dimension.
pub write_snapshot-read_snapshot :
    (ix into : Index)
    → Fits ix
    → into.params.dim ≡ ix.params.dim
    → read_snapshot into (write_snapshot ix) ≡ inr (loaded into ix.centroids ix.lists)
unfolding read_snapshot write_snapshot
write_snapshot-read_snapshot ix into h e =
    rw
      (
        read_magic (header ix (body ix)),
        str_eq_refl magic,
        word ix.params.dim (omega (arith, h.dim)),
        word (length ix.centroids) (omega (arith, h.cells)),
        is_negative32-small ix.params.dim h.dim,
        same_dim ix.params.dim into.params.dim e,
        not_over 1048576 (length ix.centroids) h.cells.1 (omega arith),
        not_zero (length ix.centroids) h.cells.0,
      )
      (read_body-body ix into h e)
