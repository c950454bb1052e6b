-- ===== src/Base/Lex.antt =====
-- Orders that compare strings one after another: an earlier string decides where it differs.
use mathlib.Core.Path.{◌≡◌}
use mathlib.Core.Bool.{Bool, true, false, not}
use native.Mathlib.Omega.{arith}
use dph.Base.Tests.{if◌then◌else◌}
use dph.Base.Text.{Bytes, str_eq, str_eq_iff, str_lt, str_lt_asymm, str_lt_total, not_lt_trans}

-- `if a != b { return a < b }; return rest`.
abbrev pub lex : Bytes → Bytes → Bool → Bool
lex a b rest = if not (str_eq a b) then str_lt a b else rest

pub lex_asymm :
    (a b : Bytes) (r s : Bool) → (r ≡ true → s ≡ false) → lex a b r ≡ true → lex b a s ≡ false
lex_asymm a b r s h k = ground (arith, str_eq_iff a b, str_eq_iff b a, str_lt_asymm a b)

pub lex_not_less_trans :
    (a b c : Bytes) (r s t : Bool)
    → (r ≡ false → s ≡ false → t ≡ false)
    → lex a b r ≡ false
    → lex b c s ≡ false
    → lex a c t ≡ false
lex_not_less_trans a b c r s t h k l = ground (
  arith,
  str_eq_iff a b,
  str_eq_iff b c,
  str_eq_iff a c,
  not_lt_trans a b c,
  str_lt_total a b,
  str_lt_total b c,
  not_lt_trans b c a,
  not_lt_trans c a b,
)
