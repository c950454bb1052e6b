-- ===== src/Base/Number.antt =====
-- Integers, and `strconv.Atoi` on 64-bit integers.
use Prim.Native.Nat.{ℕ, zero, suc, ◌+◌, ◌-◌, ◌*◌}
use mathlib.Core.Bool.{Bool, true, false, ◌&&◌}
use mathlib.Core.List.{[], ◌∷◌}
use mathlib.Core.Option.{Option, none, some}
use dph.Base.Tests.{leb, ◌==◌, if◌then◌else◌}
use dph.Base.Text.{Bytes}

-- `negsuc n` is `- (n + 1)`.
pub data ℤ : Type 0 where
  pos negsuc : ℕ → ℤ

abbrev pub is_negative : ℤ → Bool
is_negative (pos n) = false
is_negative (negsuc n) = true

abbrev pub negate : ℕ → ℤ
negate zero = pos 0
negate (suc n) = negsuc n

abbrev pub is_digit : ℕ → Bool
is_digit c = leb b'0' c && leb c b'9'

abbrev digit_of : ℕ → ℕ
digit_of c = c - b'0'

-- The value of a text of digits, none on any other byte; `acc` is the value so far.
unfoldable pub digits : ℕ → Bytes → Option ℕ
digits acc [] = some acc
digits acc (c ∷ s) =
    let rest = digits (10 * acc + digit_of c) s in if is_digit c then rest else none

abbrev pub digits_only : Bytes → Option ℕ
digits_only [] = none
digits_only (c ∷ s) = digits 0 (c ∷ s)

-- The bounds of a 64-bit integer.
abbrev pub in_range : Bool → Option ℕ → Option ℤ
in_range minus none = none
in_range true (some n) = if leb n 9223372036854775808 then some (negate n) else none
in_range false (some n) = if leb n 9223372036854775807 then some (pos n) else none

-- `strconv.Atoi`, none on an error.
unfoldable pub atoi : Bytes → Option ℤ
atoi [] = none
atoi (c ∷ s) =
    if c == b'-'
    then in_range true (digits_only s)
    else if c == b'+'
    then in_range false (digits_only s)
    else in_range false (digits_only (c ∷ s))
