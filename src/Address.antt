-- ===== src/Address.antt =====
-- Content addresses: internal/address/address.go. The regular expressions are written as tests on
-- bytes: a pattern with a negated class, such as `[^/:#]+`, matches any text of other bytes.
pub mod Parts
pub mod Segments
pub mod RoundTrip
use dph.Base.{
  ℕ, suc, ◌+◌, ◌≡◌, ◌⊎◌, inl, inr, Bool, true, false, not, ◌&&◌, ◌||◌, Option, none, some, List, [],
  ◌∷◌, ◌++◌, map, if◌then◌else◌, ltb, leb, ◌==◌, drop,
}
use dph.Base.Text.{Bytes, codes, has_prefix, is_empty}
use dph.Base.Number.{ℤ, pos, negsuc, is_digit, atoi}
use dph.Base.Decimal.{decimal}

-- `Segment`.
pub record Segment : Type 0 where
  pub kind : Bytes
  pub index : ℤ
  pub has_index : Bool

-- `%d`.
abbrev pub show_int : ℤ → Bytes
show_int (pos n) = decimal n
show_int (negsuc n) = b'-' ∷ decimal (suc n)

-- `Segment.String`.
unfoldable pub segment_text : Segment → Bytes
segment_text s =
    if not s.has_index then s.kind else s.kind ++ (b'[' ∷ (show_int s.index ++ (b']' ∷ [])))

abbrev pub is_letter : ℕ → Bool
is_letter c = (leb b'A' c && leb c b'Z') || (leb b'a' c && leb c b'z')

abbrev pub is_alnum : ℕ → Bool
is_alnum c = is_letter c || is_digit c

-- The longest front of bytes that pass the test, and the rest.
abbrev add_front : ℕ → Bytes × Bytes → Bytes × Bytes
add_front c (a, b) = (c ∷ a, b)

unfoldable pub span : (ℕ → Bool) → Bytes → Bytes × Bytes
span p [] = ([], [])
span p (c ∷ s) = let rest = span p s in if p c then add_front c rest else ([], c ∷ s)

-- The rest of a segment after its name: nothing, or an index in brackets.
abbrev index_in : Bytes → Bytes × Bytes → Option (Bytes × Bytes)
index_in name ([], rest) = none
index_in name (d ∷ ds, []) = none
index_in name (d ∷ ds, c ∷ []) = if c == b']' then some (name, d ∷ ds) else none
index_in name (d ∷ ds, c ∷ e ∷ rest) = none

abbrev after_name : Bytes × Bytes → Option (Bytes × Bytes)
after_name (name, []) = some (name, [])
after_name (name, c ∷ s) = if c == b'[' then index_in name (span is_digit s) else none

-- `segRe`: the name and the digits of the index, which are empty where there is none.
unfoldable pub match_segment : Bytes → Option (Bytes × Bytes)
match_segment [] = none
match_segment (c ∷ s) = if is_letter c then after_name (span is_alnum (c ∷ s)) else none

pub data AddressError : Type 0 where
  bad_scheme bad_component bad_anchor bad_segment bad_index : AddressError
  no_separator empty_path too_few_parts : AddressError

abbrev with_index : Bytes → Option ℤ → AddressError ⊎ Segment
with_index name none = inl bad_index
with_index name (some n) = inr (record { kind = name; index = n; has_index = true })

abbrev segment_of : Option (Bytes × Bytes) → AddressError ⊎ Segment
segment_of none = inl bad_segment
segment_of (some (name, [])) = inr (record { kind = name; index = pos 0; has_index = false })
segment_of (some (name, d ∷ ds)) = with_index name (atoi (d ∷ ds))

-- `ParseSegment`.
unfoldable pub parse_segment : Bytes → AddressError ⊎ Segment
parse_segment s = segment_of (match_segment s)

-- `Parsed`.
pub record Parsed : Type 0 where
  pub scheme : Bytes
  pub platform : Bytes
  pub thread : Bytes
  pub msg : Bytes
  pub segments : List Segment
  pub anchor : Bytes

unfoldable pub all_bytes : (ℕ → Bool) → Bytes → Bool
all_bytes p [] = true
all_bytes p (c ∷ s) = p c && all_bytes p s

abbrev pub is_scheme_byte : ℕ → Bool
is_scheme_byte c = is_alnum c || (c == b'+' || (c == b'.' || c == b'-'))

-- `schemeRe`.
abbrev pub is_scheme : Bytes → Bool
is_scheme [] = false
is_scheme (c ∷ s) = is_letter c && all_bytes is_scheme_byte s

abbrev pub is_component_byte : ℕ → Bool
is_component_byte c = not (c == b'/') && (not (c == b':') && not (c == b'#'))

-- `compRe`.
abbrev pub is_component : Bytes → Bool
is_component s = not (is_empty s) && all_bytes is_component_byte s

abbrev pub is_anchor_byte : ℕ → Bool
is_anchor_byte c = not (c == b'/') && not (c == b'#')

-- `anchorRe`.
abbrev pub is_anchor : Bytes → Bool
is_anchor s = not (is_empty s) && all_bytes is_anchor_byte s

abbrev pub is_match : Option (Bytes × Bytes) → Bool
is_match none = false
is_match (some m) = true

unfoldable pub segments_match : List Segment → Bool
segments_match [] = true
segments_match (s ∷ ss) = is_match (match_segment (segment_text s)) && segments_match ss

unfoldable pub segment_path : List Segment → Bytes
segment_path [] = []
segment_path (s ∷ ss) = b'/' ∷ (segment_text s ++ segment_path ss)

abbrev pub anchor_text : Bytes → Bytes
anchor_text [] = []
anchor_text (c ∷ s) = b'#' ∷ c ∷ s

abbrev pub path_text : Parsed → Bytes
path_text p = p.platform ++ (b'/' ∷ (p.thread ++ (b'/' ∷ (p.msg ++ segment_path p.segments))))

abbrev pub url_text : Parsed → Bytes
url_text p = p.scheme ++ (codes "://" ++ (path_text p ++ anchor_text p.anchor))

-- `New`, on its arguments as one record.
unfoldable pub new_url : Parsed → AddressError ⊎ Bytes
new_url p =
    if not (is_scheme p.scheme)
    then inl bad_scheme
    else if not (is_component p.platform && (is_component p.thread && is_component p.msg))
    then inl bad_component
    else if not (is_empty p.anchor) && not (is_anchor p.anchor)
    then inl bad_anchor
    else if not (segments_match p.segments)
    then inl bad_segment
    else inr (url_text p)

-- The text before and after the first `://`, and before and after the first byte `c`.
abbrev front_of : ℕ → Option (Bytes × Bytes) → Option (Bytes × Bytes)
front_of c none = none
front_of c (some (a, b)) = some (c ∷ a, b)

unfoldable pub cut_scheme : Bytes → Option (Bytes × Bytes)
cut_scheme [] = none
cut_scheme (c ∷ s) =
    let rest = cut_scheme s in
    if has_prefix (c ∷ s) (codes "://") then some ([], drop 3 (c ∷ s)) else front_of c rest

unfoldable pub cut_byte : ℕ → Bytes → Option (Bytes × Bytes)
cut_byte d [] = none
cut_byte d (c ∷ s) = let rest = cut_byte d s in if c == d then some ([], s) else front_of c rest

-- `strings.Split(s, "/")`.
abbrev push_front : ℕ → List Bytes → List Bytes
push_front c [] = (c ∷ []) ∷ []
push_front c (p ∷ ps) = (c ∷ p) ∷ ps

unfoldable pub split_slash : Bytes → List Bytes
split_slash [] = [] ∷ []
split_slash (c ∷ s) = let rest = split_slash s in if c == b'/' then [] ∷ rest else push_front c rest

-- The segments in order, up to the first error.
abbrev cons_segment :
    AddressError ⊎ Segment → AddressError ⊎ List Segment → AddressError ⊎ List Segment
cons_segment (inl e) rest = inl e
cons_segment (inr s) (inl e) = inl e
cons_segment (inr s) (inr ss) = inr (s ∷ ss)

unfoldable pub parse_segments : List Bytes → AddressError ⊎ List Segment
parse_segments [] = inr []
parse_segments (t ∷ ts) = let rest = parse_segments ts in cons_segment (parse_segment t) rest

abbrev parsed_with : Parsed → AddressError ⊎ List Segment → AddressError ⊎ Parsed
parsed_with p (inl e) = inl e
parsed_with p (inr ss) = inr (record p { segments = ss })

abbrev pub parse_parts : Bytes → Bytes → List Bytes → AddressError ⊎ Parsed
parse_parts scheme anchor [] = inl too_few_parts
parse_parts scheme anchor (a ∷ []) = inl too_few_parts
parse_parts scheme anchor (a ∷ b ∷ []) = inl too_few_parts
parse_parts scheme anchor (a ∷ b ∷ c ∷ parts) =
    if not (is_component a && (is_component b && is_component c))
    then inl bad_component
    else parsed_with
        (record {
          scheme = scheme;
          platform = a;
          thread = b;
          msg = c;
          segments = [];
          anchor = anchor;
        })
        (parse_segments parts)

abbrev pub parse_path : Bytes → Bytes → Bytes → AddressError ⊎ Parsed
parse_path scheme anchor path =
    if is_empty path then inl empty_path else parse_parts scheme anchor (split_slash path)

abbrev pub parse_anchor : Bytes → Bytes → Option (Bytes × Bytes) → AddressError ⊎ Parsed
parse_anchor scheme rest none = parse_path scheme [] rest
parse_anchor scheme rest (some (path, anchor)) =
    if not (is_anchor anchor) then inl bad_anchor else parse_path scheme anchor path

abbrev pub parse_scheme : Option (Bytes × Bytes) → AddressError ⊎ Parsed
parse_scheme none = inl no_separator
parse_scheme (some (scheme, rest)) =
    if not (is_scheme scheme) then inl bad_scheme else parse_anchor scheme rest (cut_byte b'#' rest)

-- `Parse`.
unfoldable pub parse_url : Bytes → AddressError ⊎ Parsed
parse_url raw = parse_scheme (cut_scheme raw)
