-- ===== src/Contract/Read.antt =====
-- The contract of the answers: internal/contract/read.go. The JSON decoders are given: what a body
-- decodes to, or none, and whether it has a key at its top.
pub mod Day
pub mod Response
use dph.Base.{
  ℕ, suc, ◌+◌, ◌≡◌, Bool, true, false, not, ◌&&◌, ◌||◌, Option, none, some, List, [], ◌∷◌,
  if◌then◌else◌, ltb, leb, ◌==◌, length, get_elem?, take, drop,
}
use dph.Base.Text.{Bytes, codes, str_eq, is_empty}
use dph.Base.Number.{ℤ, pos, negsuc, is_negative, is_digit, atoi}

-- `IsRoot`.
unfoldable pub is_root : Bytes → Bool
is_root s = str_eq s (codes "facts") || str_eq s (codes "info")

-- `IsConfidence`.
abbrev pub is_confidence : Bytes → Bool
is_confidence s = not (is_empty s)

-- The loop of `ValidDay`, from byte `i`.
unfoldable pub all_digits : ℕ → Bytes → Bool
all_digits i [] = true
all_digits i (c ∷ s) =
    let rest = all_digits (suc i) s in
    if i == 4 || i == 7 then rest else if not (is_digit c) then false else rest

abbrev is_byte : ℕ → Option ℕ → Bool
is_byte c none = false
is_byte c (some d) = d == c

-- A number between 1 and the limit.
abbrev pub is_within : ℕ → Option ℤ → Bool
is_within limit none = false
is_within limit (some (negsuc n)) = false
is_within limit (some (pos n)) = leb 1 n && leb n limit

-- `s[i:j]`.
abbrev pub slice : Bytes → ℕ → ℕ → Bytes
slice s i n = take n (drop i s)

-- `ValidDay`.
unfoldable pub valid_day : Bytes → Bool
valid_day s =
    if is_empty s
    then true
    else if not (length s == 10)
        || (not (is_byte b'-' (get_elem? s 4)) || not (is_byte b'-' (get_elem? s 7)))
    then false
    else if not (all_digits 0 s)
    then false
    else is_within 12 (atoi (slice s 5 2)) && is_within 31 (atoi (slice s 8 2))

-- `strings.Split(s, ".")`: never empty.
abbrev push_byte : ℕ → List Bytes → List Bytes
push_byte c [] = (c ∷ []) ∷ []
push_byte c (p ∷ ps) = (c ∷ p) ∷ ps

unfoldable pub split_dots : Bytes → List Bytes
split_dots [] = [] ∷ []
split_dots (c ∷ s) = let rest = split_dots s in if c == b'.' then [] ∷ rest else push_byte c rest

-- The last test of `parseVersion`.
abbrev pub version_of : Option ℤ → Option ℤ → Option (ℕ × ℕ)
version_of (some (pos major)) (some (pos minor)) = some (major, minor)
version_of (some (pos major)) (some (negsuc n)) = none
version_of (some (pos major)) none = none
version_of (some (negsuc n)) minor = none
version_of none minor = none

abbrev pub version_parts : List Bytes → Option (ℕ × ℕ)
version_parts [] = none
version_parts (a ∷ []) = none
version_parts (a ∷ b ∷ []) = version_of (atoi a) (atoi b)
version_parts (a ∷ b ∷ c ∷ []) = version_of (atoi a) (atoi b)
version_parts (a ∷ b ∷ c ∷ d ∷ ps) = none

-- `parseVersion`.
unfoldable pub parse_version : Bytes → Option (ℕ × ℕ)
parse_version v = if is_empty v then none else version_parts (split_dots v)

-- `ReadContractVersion`.
abbrev pub read_contract_version : Bytes
read_contract_version = codes "1.0"

abbrev pub major_or_zero : Option (ℕ × ℕ) → ℕ
major_or_zero none = 0
major_or_zero (some (major, minor)) = major

-- `readContractMajor`.
unfoldable pub read_contract_major : ℕ
read_contract_major = major_or_zero (parse_version read_contract_version)

abbrev has_major : ℕ → Option (ℕ × ℕ) → Bool
has_major n none = false
has_major n (some (major, minor)) = major == n

-- `CompatibleVersion`.
unfoldable pub compatible_version : Bytes → Bool
compatible_version v = has_major read_contract_major (parse_version v)
