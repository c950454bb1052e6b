-- ===== src/Address/RoundTrip.antt =====
-- `New` and then `Parse` of internal/address/address.go.
use dph.Base.{
  ℕ, ◌≡◌, refl, ap, ◌∙◌, ◌⊎◌, inl, inr, Bool, true, false, not, List, [], ◌∷◌, ◌++◌, arith, ◌==◌,
  All, append-nil, map, if_both,
}
use dph.Base.Text.{Bytes, is_empty}
use dph.Address.Parts.{
  Without, all_bytes-append, all_bytes_mono, cut_scheme_found, cut_byte_found, cut_byte-none,
  split_slash_at, split_slash_end,
}
use dph.Address.Segments.{
  IsCanonical, parse_segment-text, segment_matches, is_segment_byte, segment_text-bytes,
}
use dph.Address.{
  empty_path, bad_anchor, Segment, segment_text, all_bytes, is_scheme, is_scheme_byte, is_component,
  is_component_byte, is_anchor, Parsed, segments_match, segment_path, anchor_text, path_text,
  url_text, new_url, cut_byte, split_slash, parse_segments, parse_parts, parse_path, parse_anchor,
  parse_scheme, parse_url,
}

-- The parts of an address: a scheme, three components, canonical segments, and an anchor or none.
pub record IsAddress (p : Parsed) : Type 0 where
  pub scheme : is_scheme p.scheme ≡ true
  pub platform : is_component p.platform ≡ true
  pub thread : is_component p.thread ≡ true
  pub msg : is_component p.msg ≡ true
  pub segments : All IsCanonical p.segments
  pub anchor : (is_empty p.anchor ≡ true) ⊎ (is_anchor p.anchor ≡ true)

component-Without_slash : (a : Bytes) → is_component a ≡ true → Without b'/' a
component-Without_slash a h =
    all_bytes_mono is_component_byte (λ c. not (c == b'/')) (λ c e. ground arith) a (ground arith)

component-Without_hash : (a : Bytes) → is_component a ≡ true → Without b'#' a
component-Without_hash a h =
    all_bytes_mono is_component_byte (λ c. not (c == b'#')) (λ c e. ground arith) a (ground arith)

text-Without_slash : (s : Segment) → IsCanonical s → Without b'/' (segment_text s)
text-Without_slash s h =
    all_bytes_mono is_segment_byte (λ c. not (c == b'/')) (λ c e. ground arith) (segment_text s)
      (segment_text-bytes s h)

text-Without_hash : (s : Segment) → IsCanonical s → Without b'#' (segment_text s)
text-Without_hash s h =
    all_bytes_mono is_segment_byte (λ c. not (c == b'#')) (λ c e. ground arith) (segment_text s)
      (segment_text-bytes s h)

slash_then : (a : Bytes) → Without b'#' a → Without b'#' (b'/' ∷ a)
unfolding all_bytes
slash_then a h = h

segment_path-Without_hash :
    (ss : List Segment) → All IsCanonical ss → Without b'#' (segment_path ss)
unfolding segment_path all_bytes
segment_path-Without_hash [] h = refl
segment_path-Without_hash (s ∷ ss) h =
    all_bytes-append (λ c. not (c == b'#')) (segment_text s) (segment_path ss)
      (text-Without_hash s h.0) (segment_path-Without_hash ss h.1)

split-segment_path :
    (a : Bytes) (ss : List Segment)
    → Without b'/' a
    → All IsCanonical ss
    → split_slash (a ++ segment_path ss) ≡ a ∷ map segment_text ss
unfolding segment_path
split-segment_path a [] h c = ap split_slash (append-nil a) ∙ split_slash_end a h
split-segment_path a (s ∷ ss) h c =
    split_slash_at a (segment_text s ++ segment_path ss) h
    ∙ ap (◌∷◌ a) (split-segment_path (segment_text s) ss (text-Without_slash s c.0) c.1)

parse_segments-texts :
    (ss : List Segment) → All IsCanonical ss → parse_segments (map segment_text ss) ≡ inr ss
unfolding parse_segments
parse_segments-texts [] h = refl
parse_segments-texts (s ∷ ss) h = rw (parse_segment-text s h.0, parse_segments-texts ss h.1)

segments-All_match : (ss : List Segment) → All IsCanonical ss → segments_match ss ≡ true
unfolding segments_match
segments-All_match [] h = refl
segments-All_match (s ∷ ss) h = rw (segment_matches s h.0, segments-All_match ss h.1)

scheme_bytes : (a : Bytes) → is_scheme a ≡ true → all_bytes is_scheme_byte a ≡ true
unfolding all_bytes
scheme_bytes [] h = cc
scheme_bytes (c ∷ a) h = ground arith

some_append : (a b : Bytes) → is_component a ≡ true → is_empty (a ++ b) ≡ false
some_append [] b h = cc
some_append (c ∷ a) b h = refl

module _ (p : Parsed) (w : IsAddress p) where
  path-Without_hash : Without b'#' (path_text p)
  path-Without_hash =
      let q : ℕ → Bool = λ c. not (c == b'#') in
      all_bytes-append q p.platform _ (component-Without_hash p.platform w.platform) (
        slash_then _ (
          all_bytes-append q p.thread _ (component-Without_hash p.thread w.thread) (
            slash_then _ (
              all_bytes-append q p.msg _ (component-Without_hash p.msg w.msg)
                (segment_path-Without_hash p.segments w.segments)))))

  split-path :
      split_slash (path_text p) ≡ p.platform ∷ p.thread ∷ p.msg ∷ map segment_text p.segments
  split-path =
      split_slash_at p.platform _ (component-Without_slash p.platform w.platform)
      ∙ ap (◌∷◌ p.platform) (
          split_slash_at p.thread _ (component-Without_slash p.thread w.thread)
          ∙ ap (◌∷◌ p.thread) (
              split-segment_path p.msg p.segments (component-Without_slash p.msg w.msg) w.segments))

  path_some : is_empty (path_text p) ≡ false
  path_some = some_append p.platform _ w.platform

  parse_parts-text :
      parse_parts p.scheme p.anchor (p.platform ∷ p.thread ∷ p.msg ∷ map segment_text p.segments)
      ≡ inr p
  parse_parts-text = rw (w.platform, w.thread, w.msg, parse_segments-texts p.segments w.segments)

  parse_path-text : parse_path p.scheme p.anchor (path_text p) ≡ inr p
  parse_path-text =
      if_both (λ r. r ≡ inr p) (is_empty (path_text p)) (inl empty_path)
        (parse_parts p.scheme p.anchor (split_slash (path_text p))) (λ e. cc (e, path_some))
        (λ e. ap (parse_parts p.scheme p.anchor) split-path ∙ parse_parts-text)

  -- What follows the path: nothing, or an anchor.
  parse_anchor-text :
      (a : Bytes)
      → a ≡ p.anchor
      → (is_empty a ≡ true) ⊎ (is_anchor a ≡ true)
      → parse_anchor p.scheme
          (path_text p ++ anchor_text a)
          (cut_byte b'#' (path_text p ++ anchor_text a))
        ≡ inr p
  parse_anchor-text [] e h =
      ap (λ t. parse_anchor p.scheme t (cut_byte b'#' t)) (append-nil (path_text p))
      ∙ ap (parse_anchor p.scheme (path_text p))
          (cut_byte-none b'#' (path_text p) path-Without_hash)
      ∙ ap (λ x. parse_path p.scheme x (path_text p)) e
      ∙ parse_path-text
  parse_anchor-text (c ∷ a) e (inl h) = cc
  parse_anchor-text (c ∷ a) e (inr h) =
      ap (parse_anchor p.scheme (path_text p ++ (b'#' ∷ c ∷ a)))
        (cut_byte_found b'#' (path_text p) (c ∷ a) path-Without_hash)
      ∙ if_both (λ r. r ≡ inr p) (not (is_anchor (c ∷ a))) (inl bad_anchor)
          (parse_path p.scheme (c ∷ a) (path_text p)) (λ q. cc (q, ap not h))
          (λ q. ap (λ x. parse_path p.scheme x (path_text p)) e ∙ parse_path-text)

  parse_url-text : parse_url (url_text p) ≡ inr p
  unfolding parse_url
  parse_url-text =
      ap parse_scheme (
        cut_scheme_found p.scheme (path_text p ++ anchor_text p.anchor)
          (scheme_bytes p.scheme w.scheme))
      ∙ rw w.scheme (parse_anchor-text p.anchor refl w.anchor)

  -- An address of good parts is built, and read back as the same parts.
  pub new_url-parse_url : (new_url p ≡ inr (url_text p)) × (parse_url (url_text p) ≡ inr p)
  unfolding new_url
  new_url-parse_url = (
    ground (
      arith,
      w.scheme,
      w.platform,
      w.thread,
      w.msg,
      w.anchor,
      segments-All_match p.segments w.segments,
    ),
    parse_url-text,
  )
