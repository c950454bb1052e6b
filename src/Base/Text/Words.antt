-- ===== src/Base/Text/Words.antt =====
-- `strings.Fields` and `strings.Trim` on bytes in UTF-8.
use dph.Base.Tests.{if◌then◌else◌, ◌==◌}
use Prim.Native.Nat.{ℕ}
use mathlib.Core.Bool.{Bool, false, ◌||◌}
use mathlib.Core.List.{List, [], ◌∷◌, reverse}
use dph.Base.Text.{Bytes, is_empty, space1, space2, space3}

-- The words, where the first is empty if the text begins with white space.
abbrev pub closed_words : Bytes × List Bytes → List Bytes
closed_words w = if is_empty w.0 then w.1 else w.0 ∷ w.1

unfoldable pub split_words : Bytes → Bytes × List Bytes
split_words [] = ([], [])
split_words (a ∷ []) = if space1 a then ([], []) else (a ∷ [], [])
split_words (a ∷ b ∷ []) =
    let rest = split_words (b ∷ []) in
    if space1 a
    then ([], closed_words rest)
    else if space2 a b
    then ([], [])
    else (a ∷ rest.0, rest.1)
split_words (a ∷ b ∷ c ∷ s) =
    let rest1 = split_words (b ∷ c ∷ s) in
    let rest2 = split_words (c ∷ s) in
    let rest3 = split_words s in
    if space1 a
    then ([], closed_words rest1)
    else if space2 a b
    then ([], closed_words rest2)
    else if space3 a b c
    then ([], closed_words rest3)
    else (a ∷ rest1.0, rest1.1)

-- `strings.Fields(s)`.
abbrev pub fields : Bytes → List Bytes
fields s = closed_words (split_words s)

unfoldable pub is_byte_of : Bytes → ℕ → Bool
is_byte_of [] c = false
is_byte_of (x ∷ s) c = x == c || is_byte_of s c

unfoldable pub trim_front : Bytes → Bytes → Bytes
trim_front cut [] = []
trim_front cut (x ∷ s) = let rest = trim_front cut s in if is_byte_of cut x then rest else x ∷ s

-- `strings.Trim(s, cut)`, where `cut` is of ASCII characters.
abbrev pub trim_bytes : Bytes → Bytes → Bytes
trim_bytes cut s = reverse (trim_front cut (reverse (trim_front cut s)))
