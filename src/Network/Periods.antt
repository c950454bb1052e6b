-- ===== src/Network/Periods.antt =====
-- The periods of internal/network/network.go: texts `a` or `a..b` of two days.
use dph.Base.{
  ℕ, ◌+◌, Bool, true, false, ◌&&◌, ◌||◌, Option, none, some, List, [], ◌∷◌, ◌++◌, if◌then◌else◌,
  leb, ltb, length, take, drop,
}
use dph.Base.Text.{Bytes, str_eq, str_lt, is_empty, index_of, codes}
use dph.Network.{Filter, CommitRow}

-- `dayOnly`.
abbrev pub day_only : Bytes → Bytes
day_only s = if leb 10 (length s) then take 10 s else []

-- `strings.Index(p, "..") > 0`, and the two sides.
abbrev pub split_at : Bytes → Option ℕ → Bytes × Bytes
split_at p none = (p, p)
split_at p (some i) = if ltb 0 i then (take i p, drop (i + 2) p) else (p, p)

-- `splitPeriod`.
abbrev pub split_period : Bytes → Bytes × Bytes
split_period p = split_at p (index_of p (codes ".."))

-- `joinSpan`.
abbrev pub join_span : Bytes → Bytes → Bytes
join_span first last =
    if is_empty first
    then []
    else if str_eq first last
    then first
    else first ++ (codes ".." ++ last)

abbrev pub earlier : Bytes → Bytes → Bytes
earlier a b = if str_lt b a then b else a

abbrev pub later : Bytes → Bytes → Bytes
later a b = if str_lt a b then b else a

-- `mergePeriods`.
unfoldable pub merge_periods : Bytes → Bytes → Bytes
merge_periods p q =
    if is_empty p
    then q
    else if is_empty q
    then p
    else join_span (earlier (split_period p).0 (split_period q).0)
        (later (split_period p).1 (split_period q).1)

-- `spanJoin`.
unfoldable pub span_join : Bytes → Bytes → Bytes
span_join p d =
    if is_empty d
    then p
    else if is_empty p
    then d
    else join_span (earlier (split_period p).0 d) (later (split_period p).1 d)

abbrev pub widen_first : Bytes → Bytes → Bytes
widen_first first x = if is_empty first || str_lt x first then x else first

abbrev pub widen_last : Bytes → Bytes → Bytes
widen_last last x = if is_empty last || str_lt last x then x else last

-- The loop of `spanDays`.
unfoldable pub span_from : Bytes → Bytes → List Bytes → Bytes × Bytes
span_from first last [] = (first, last)
span_from first last (d ∷ ds) =
    let x = day_only d in
    let skip = span_from first last ds in
    let take_it = span_from (widen_first first x) (widen_last last x) ds in
    if is_empty x then skip else take_it

-- `spanDays`.
abbrev pub span_days : List Bytes → Bytes
span_days ds = let s = span_from [] [] ds in join_span s.0 s.1

-- `commitDates`.
unfoldable pub commit_dates : List CommitRow → List Bytes
commit_dates [] = []
commit_dates (c ∷ cs) = c.date ∷ commit_dates cs

abbrev pub is_before : ℕ → Option ℕ → Bool
is_before t none = false
is_before t (some since) = ltb t since

abbrev pub is_after : ℕ → Option ℕ → Bool
is_after t none = false
is_after t (some until) = ltb until t

-- `inPeriod`, of the instant that the text was read as: a text that is no date is not cut off.
abbrev pub instant_in : Filter → Option ℕ → Bool
instant_in f none = true
instant_in f (some t) =
    if is_before t f.since then false else if is_after t f.until then false else true

abbrev pub is_unset : Option ℕ → Bool
is_unset none = true
is_unset (some t) = false

abbrev pub in_period : (Bytes → Option ℕ) → Filter → Bytes → Bool
in_period parse f date =
    if is_unset f.since && is_unset f.until then true else instant_in f (parse date)
