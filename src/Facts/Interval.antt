-- ===== src/Facts/Interval.antt =====
-- Intervals of truth: internal/facts/interval.go and `intervalsOverlap` of internal/facts/formal.go.
-- Days are strings, compared bytewise as the code compares them.
pub mod Overlap
use dph.Base.{
  ℕ, suc, ◌≤◌, ◌≡◌, refl, Bool, true, false, not, ◌&&◌, ◌||◌, Option, none, some, List, [], ◌∷◌,
  arith, length, get_elem?, take, if◌then◌else◌, leb, ◌==◌,
}
use mathlib.Core.List.{reverse}
use dph.Base.Text.{Bytes, str_lt, is_empty}

-- The white space that `trimSpace` cuts.
abbrev is_space : ℕ → Bool
is_space c = c == b' ' || c == b'\t' || c == b'\n' || c == b'\r'

-- The first loop of `trimSpace`.
unfoldable pub trim_left : Bytes → Bytes
trim_left [] = []
trim_left (c ∷ s) = let rest = trim_left s in if is_space c then rest else c ∷ s

-- `trimSpace`: the second loop is the first one on the reversed text.
unfoldable pub trim_day : Bytes → Bytes
unfolding trim_left
trim_day s = reverse (trim_left (reverse (trim_left s)))

abbrev is_dash : Option ℕ → Bool
is_dash none = false
is_dash (some c) = c == b'-'

abbrev pub day_of : Bytes → Bytes
day_of s =
    if leb 10 (length s) && is_dash (get_elem? s 4) && is_dash (get_elem? s 7) then take 10 s else s

-- `NormalizeDay`.
unfoldable pub normalize_day : Bytes → Bytes
unfolding trim_day
normalize_day s = day_of (trim_day s)

-- The two tests on normalised days.
unfoldable pub active_in : Bytes → Bytes → Bytes → Bool
active_in from to as_of =
    if not (is_empty from) && str_lt as_of from
    then false
    else if not (is_empty to) && str_lt to as_of
    then false
    else true

-- `ActiveAt`.
unfoldable pub active_at : Bytes → Bytes → Bytes → Bool
active_at valid_from valid_to as_of =
    let day = normalize_day as_of in
    if is_empty day then true else active_in (normalize_day valid_from) (normalize_day valid_to) day

unfoldable pub overlap_in : Bytes → Bytes → Bytes → Bytes → Bool
overlap_in f1 t1 f2 t2 =
    if not (is_empty t1) && not (is_empty f2) && str_lt t1 f2
    then false
    else if not (is_empty t2) && not (is_empty f1) && str_lt t2 f1
    then false
    else true

-- `intervalsOverlap`.
unfoldable pub intervals_overlap : Bytes → Bytes → Bytes → Bytes → Bool
intervals_overlap f1 t1 f2 t2 =
    overlap_in (normalize_day f1) (normalize_day t1) (normalize_day f2) (normalize_day t2)
