-- ===== src/Runner.antt =====
-- The pipeline of internal/runner and its registry of handlers, internal/etl/registry.go. Handlers,
-- the transform and the load are given: each ends with an error, a number, or none.
pub mod Pipeline
pub mod Steady
pub mod Loads
pub mod Ends
pub mod Progress
pub mod Handlers
use dph.Base.{
  ℕ, zero, suc, ◌+◌, ◌≡◌, Bool, true, false, ◌⊎◌, inl, inr, Option, none, some, List, [], ◌∷◌, ◌++◌,
  if◌then◌else◌, leb, map, length,
}
use dph.Base.Text.{Bytes, str_lt, is_empty, codes}
use dph.Base.Dict.{bytes_eq, lookup, upsert, keys}
use dph.Base.Sort.{sort_by}
use dph.Base.Number.{ℤ, pos, negsuc}
use dph.Sync.{Blob}

-- `Item`.
pub record Item : Type 0 where
  pub blob : Blob
  pub kind : Bytes
  pub out : Bytes

-- `etl.Handler`.
pub record Handler : Type 0 where
  pub name : Bytes
  pub handle : Bytes → Option ℕ

-- `etl.Registry`, without its lock.
abbrev pub Registry : Type 0
Registry = List (Bytes × Handler)

pub data RegisterError : Type 0 where
  empty_name : RegisterError
  duplicate_key : Bytes → RegisterError

abbrev pub or_handler : Handler → Option Handler → Handler
or_handler h none = h
or_handler h (some g) = g

-- The end of `Register`, of what stands at the key.
abbrev pub register_new : Registry → Handler → Option Handler → Registry × Option RegisterError
register_new r h none = (upsert h.name (or_handler h) r, none)
register_new r h (some g) = (r, some (duplicate_key h.name))

-- `Register`.
unfoldable pub register : Registry → Handler → Registry × Option RegisterError
register r h = if is_empty h.name then (r, some empty_name) else register_new r h (lookup h.name r)

-- `Names`.
abbrev pub names : Registry → List Bytes
names r = sort_by str_lt (keys r)

-- `HandlerStats`.
pub record HandlerStats : Type 0 where
  pub handler : Bytes
  pub ok : ℕ
  pub failed : ℕ

-- `handlerStats`: the two counts of each kind.
abbrev pub Stats : Type 0
Stats = List (Bytes × (ℕ × ℕ))

abbrev pub known : Bytes → Bytes
known kind = if is_empty kind then codes "unknown" else kind

abbrev pub one_ok : Option (ℕ × ℕ) → ℕ × ℕ
one_ok none = (1, 0)
one_ok (some c) = (suc c.0, c.1)

abbrev pub one_failed : Option (ℕ × ℕ) → ℕ × ℕ
one_failed none = (0, 1)
one_failed (some c) = (c.0, suc c.1)

-- `ok` and `failed` of `handlerStats`.
abbrev pub count_ok : Bytes → Stats → Stats
count_ok kind s = upsert (known kind) one_ok s

abbrev pub count_failed : Bytes → Stats → Stats
count_failed kind s = upsert (known kind) one_failed s

abbrev pub by_key : Bytes × (ℕ × ℕ) → Bytes × (ℕ × ℕ) → Bool
by_key a b = str_lt a.0 b.0

abbrev pub stats_row : Bytes × (ℕ × ℕ) → HandlerStats
stats_row c = record { handler = c.0; ok = c.1.0; failed = c.1.1 }

-- `snapshot`.
abbrev pub snapshot : Stats → List HandlerStats
snapshot s = map stats_row (sort_by by_key s)

-- `withDefaults` on one knob: the default where it is not positive.
abbrev pub or_default_size : ℕ → ℤ → ℕ
or_default_size d (pos zero) = d
or_default_size d (pos (suc n)) = suc n
or_default_size d (negsuc n) = d
