-- ===== src/Contract.antt =====
-- The contract of a leaf: internal/contract/contract.go. SHA-256 in hexadecimal and
-- `strings.ToValidUTF8` are given.
pub mod Read
use dph.Base.{
  ℕ, ◌≡◌, Bool, true, false, ◌&&◌, ◌||◌, Option, none, some, List, [], ◌∷◌, ◌++◌, if◌then◌else◌,
  take, ◌==◌,
}
use dph.Base.Text.{Bytes, is_empty, trim_space}

pub record Leaf : Type 0 where
  pub source : Bytes
  pub external_id : Bytes
  pub kind : Bytes
  pub text : Bytes
  pub root : Bytes
  pub confidence : Bytes
  pub source_rev : Bytes
  pub how : Bytes
  pub loc : Bytes
  pub valid_from : Bytes
  pub valid_to : Bytes
  pub observed_at : Bytes

pub data LeafError : Type 0 where
  source_required external_id_required kind_required text_required : LeafError

-- `Leaf.Validate`: none for a valid leaf.
unfoldable pub validate : Leaf → Option LeafError
validate l =
    if is_empty l.source
    then some source_required
    else if is_empty l.external_id
    then some external_id_required
    else if is_empty l.kind
    then some kind_required
    else if is_empty l.text
    then some text_required
    else none

-- `strings.ReplaceAll(text, "\r\n", "\n")`.
unfoldable pub replace_crlf : Bytes → Bytes
replace_crlf [] = []
replace_crlf (a ∷ []) = a ∷ []
replace_crlf (a ∷ b ∷ s) =
    let rest1 = replace_crlf (b ∷ s) in
    let rest2 = replace_crlf s in if a == 13 && b == 10 then 10 ∷ rest2 else a ∷ rest1

module _ (to_valid_utf8 : Bytes → Bytes) (sha256_hex : Bytes → Bytes) where
  -- `NormalizeText`.
  unfoldable pub normalize_text : Bytes → Bytes
  normalize_text text = trim_space (replace_crlf (to_valid_utf8 text))

  -- `Leaf.ContentHash`.
  unfoldable pub content_hash : Leaf → Bytes
  content_hash l = take 32 (
      sha256_hex (
        l.source
        ++ (b'|' ∷ (l.external_id ++ (b'|' ∷ (l.kind ++ (b'|' ∷ normalize_text l.text)))))))
