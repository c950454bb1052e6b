-- ===== src/Address/Segments.antt =====
-- The segments of an address of internal/address/address.go in its text.
use dph.Base.{
  ℕ, ◌≤◌, ◌≡◌, refl, sym, ap, ◌∙◌, ◌⊎◌, inl, inr, Bool, true, false, ◌&&◌, ◌||◌, some, [], ◌∷◌,
  ◌++◌, arith, ◌==◌, All,
}
use dph.Base.Text.{Bytes}
use dph.Base.Number.{ℤ, pos, is_digit, atoi}
use dph.Base.Decimal.{decimal, decimal-IsDigit, decimal_some, atoi-decimal, is_some_byte, IsDigit}
use dph.Address.Parts.{all_bytes-append, all_bytes_mono, span_all, span_whole}
use dph.Address.{
  Segment, segment_text, is_letter, is_alnum, match_segment, parse_segment, all_bytes, is_match,
  segment_of, after_name, index_in,
}

-- A name of a segment: a letter, then letters and digits.
abbrev pub is_name : Bytes → Bool
is_name [] = false
is_name (c ∷ s) = is_letter c && all_bytes is_alnum s

-- A segment as `ParseSegment` gives it: a name, and an index that fits into 64 bits, or 0 for none.
abbrev pub IsCanonical : Segment → Type 0
IsCanonical s =
    (is_name s.kind ≡ true)
    × (((s.has_index ≡ false) × (s.index ≡ pos 0))
        ⊎ ((s.has_index ≡ true) × ((n : ℕ) × (s.index ≡ pos n) × (n ≤ 9223372036854775807))))

all_digits : (s : Bytes) → All IsDigit s → all_bytes is_digit s ≡ true
unfolding all_bytes
all_digits [] h = refl
all_digits (c ∷ s) h = ground (arith, h.0, all_digits s h.1)

name_alnum : (c : ℕ) (s : Bytes) → is_name (c ∷ s) ≡ true → all_bytes is_alnum (c ∷ s) ≡ true
unfolding all_bytes
name_alnum c s h = ground arith

name_letter : (c : ℕ) (s : Bytes) → is_name (c ∷ s) ≡ true → is_letter c ≡ true
name_letter c s h = ground arith

match_name : (k : Bytes) → is_name k ≡ true → match_segment k ≡ some (k, [])
unfolding match_segment
match_name [] h = cc
match_name (c ∷ s) h = rw (name_letter c s h, span_whole is_alnum (c ∷ s) (name_alnum c s h))

index_found : (k d : Bytes) → is_some_byte d ≡ true → index_in k (d, b']' ∷ []) ≡ some (k, d)
index_found k [] h = cc
index_found k (c ∷ d) h = refl

match_indexed :
    (k d : Bytes)
    → is_name k ≡ true
    → all_bytes is_digit d ≡ true
    → is_some_byte d ≡ true
    → match_segment (k ++ (b'[' ∷ (d ++ b']' ∷ []))) ≡ some (k, d)
unfolding match_segment
match_indexed [] d h i j = cc
match_indexed (c ∷ s) d h i j = rw (name_letter c s h) (
    ap after_name (span_all is_alnum (c ∷ s) b'[' (d ++ b']' ∷ []) (name_alnum c s h) refl)
    ∙ ap (index_in (c ∷ s)) (span_all is_digit d b']' [] i refl)
    ∙ index_found (c ∷ s) d j)

segment_of_index :
    (k d : Bytes) (n : ℕ)
    → is_some_byte d ≡ true
    → atoi d ≡ some (pos n)
    → segment_of (some (k, d)) ≡ inr (record { kind = k; index = pos n; has_index = true })
segment_of_index k [] n h e = cc
segment_of_index k (c ∷ d) n h e = rw e

plain_text : (s : Segment) → s.has_index ≡ false → segment_text s ≡ s.kind
unfolding segment_text
plain_text s e = rw e

indexed_text :
    (s : Segment) (n : ℕ)
    → s.has_index ≡ true
    → s.index ≡ pos n
    → segment_text s ≡ s.kind ++ (b'[' ∷ (decimal n ++ b']' ∷ []))
unfolding segment_text
indexed_text s n e q = rw (e, q)

abbrev segment_with : Bytes → ℤ → Bool → Segment
segment_with k i b = record { kind = k; index = i; has_index = b }

segment_eq :
    (k : Bytes) (i j : ℤ) (b c : Bool) → i ≡ j → b ≡ c → segment_with k i b ≡ segment_with k j c
segment_eq k i j b c e q = rw (e, q)

-- The matches of a canonical segment.
match_of :
    (s : Segment)
    → IsCanonical s
    → (d : Bytes) × (match_segment (segment_text s) ≡ some (s.kind, d))
      × (segment_of (some (s.kind, d)) ≡ inr s)
match_of s (name, inl (e, q)) = (
  [],
  (rw (plain_text s e) (match_name s.kind name)),
  ap inr (segment_eq s.kind (pos 0) s.index false s.has_index (sym q) (sym e)),
)
match_of s (name, inr (e, (n, q, l))) = (
  decimal n,
  rw (indexed_text s n e q) (
      match_indexed s.kind (decimal n) name (all_digits (decimal n) (decimal-IsDigit n))
        (decimal_some n)),
  segment_of_index s.kind (decimal n) n (decimal_some n) (atoi-decimal n l)
      ∙ ap inr (segment_eq s.kind (pos n) s.index true s.has_index (sym q) (sym e)),
)

pub parse_segment-text : (s : Segment) → IsCanonical s → parse_segment (segment_text s) ≡ inr s
unfolding parse_segment
parse_segment-text s c = let r = match_of s c in ap segment_of r.1 ∙ r.2

pub segment_matches :
    (s : Segment) → IsCanonical s → is_match (match_segment (segment_text s)) ≡ true
segment_matches s c = let r = match_of s c in rw (r.1)

-- The bytes of the text of a segment.
abbrev pub is_segment_byte : ℕ → Bool
is_segment_byte c = is_alnum c || (c == b'[' || c == b']')

name_bytes : (k : Bytes) → is_name k ≡ true → all_bytes is_segment_byte k ≡ true
name_bytes [] h = cc
name_bytes (c ∷ s) h =
    all_bytes_mono is_alnum is_segment_byte (λ d e. ground arith) (c ∷ s) (name_alnum c s h)

one_byte : (p : ℕ → Bool) (c : ℕ) → p c ≡ true → all_bytes p (c ∷ []) ≡ true
unfolding all_bytes
one_byte p c h = rw h

indexed_bytes :
    (k d : Bytes)
    → is_name k ≡ true
    → all_bytes is_digit d ≡ true
    → all_bytes is_segment_byte (k ++ (b'[' ∷ (d ++ b']' ∷ []))) ≡ true
indexed_bytes k d h i =
    all_bytes-append is_segment_byte k (b'[' ∷ (d ++ b']' ∷ [])) (name_bytes k h) (
      all_bytes-append is_segment_byte (b'[' ∷ []) (d ++ b']' ∷ [])
        (one_byte is_segment_byte b'[' refl)
        (all_bytes-append is_segment_byte d (b']' ∷ [])
          (all_bytes_mono is_digit is_segment_byte (λ c e. ground arith) d i)
          (one_byte is_segment_byte b']' refl)))

pub segment_text-bytes :
    (s : Segment) → IsCanonical s → all_bytes is_segment_byte (segment_text s) ≡ true
segment_text-bytes s (name, inl (e, q)) = rw (plain_text s e) (name_bytes s.kind name)
segment_text-bytes s (name, inr (e, (n, q, l))) =
    rw (indexed_text s n e q)
      (indexed_bytes s.kind (decimal n) name (all_digits (decimal n) (decimal-IsDigit n)))
