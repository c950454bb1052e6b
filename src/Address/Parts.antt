-- ===== src/Address/Parts.antt =====
-- The parts of an address of internal/address/address.go in its text.
use dph.Base.{ℕ, ◌≡◌, refl, Bool, true, false, not, none, some, [], ◌∷◌, ◌++◌, arith, ◌==◌}
use dph.Base.Text.{Bytes, codes, has_prefix}
use dph.Address.{span, all_bytes, is_scheme_byte, cut_scheme, cut_byte, split_slash}

pub all_bytes-append :
    (p : ℕ → Bool) (a b : Bytes)
    → all_bytes p a ≡ true
    → all_bytes p b ≡ true
    → all_bytes p (a ++ b) ≡ true
unfolding all_bytes
all_bytes-append p [] b h k = k
all_bytes-append p (c ∷ a) b h k = ground (arith, all_bytes-append p a b)

-- A test that another one implies.
pub all_bytes_mono :
    (p q : ℕ → Bool)
    → ((c : ℕ) → p c ≡ true → q c ≡ true)
    → (a : Bytes) → all_bytes p a ≡ true
    → all_bytes q a ≡ true
unfolding all_bytes
all_bytes_mono p q f [] h = refl
all_bytes_mono p q f (c ∷ a) h = ground (arith, f c, all_bytes_mono p q f a)

-- A byte that no text of the test holds ends the longest front.
pub span_all :
    (p : ℕ → Bool) (a : Bytes) (d : ℕ) (s : Bytes)
    → all_bytes p a ≡ true
    → p d ≡ false
    → span p (a ++ (d ∷ s)) ≡ (a, d ∷ s)
unfolding all_bytes span
span_all p [] d s h k = rw k
span_all p (c ∷ a) d s h k =
    let e : p c ≡ true = ground arith in let r = span_all p a d s (ground arith) k in rw (e, r)

pub span_whole : (p : ℕ → Bool) (a : Bytes) → all_bytes p a ≡ true → span p a ≡ (a, [])
unfolding all_bytes span
span_whole p [] h = refl
span_whole p (c ∷ a) h =
    let e : p c ≡ true = ground arith in let r = span_whole p a (ground arith) in rw (e, r)

pub cut_scheme_found :
    (a s : Bytes)
    → all_bytes is_scheme_byte a ≡ true
    → cut_scheme (a ++ (codes "://" ++ s)) ≡ some (a, s)
unfolding cut_scheme all_bytes has_prefix
cut_scheme_found [] s h = refl
cut_scheme_found (c ∷ a) s h =
    let e : (c == b':') ≡ false = ground arith in
    let r = cut_scheme_found a s (ground arith) in rw (e, r)

abbrev pub Without : ℕ → Bytes → Type 0
Without d a = all_bytes (λ c. not (c == d)) a ≡ true

pub cut_byte_found : (d : ℕ) (a s : Bytes) → Without d a → cut_byte d (a ++ (d ∷ s)) ≡ some (a, s)
unfolding cut_byte all_bytes
cut_byte_found d [] s h = let e : (d == d) ≡ true = ground arith in rw e
cut_byte_found d (c ∷ a) s h =
    let e : (c == d) ≡ false = ground arith in
    let r = cut_byte_found d a s (ground arith) in rw (e, r)

pub cut_byte-none : (d : ℕ) (a : Bytes) → Without d a → cut_byte d a ≡ none
unfolding cut_byte all_bytes
cut_byte-none d [] h = refl
cut_byte-none d (c ∷ a) h =
    let e : (c == d) ≡ false = ground arith in let r = cut_byte-none d a (ground arith) in rw (e, r)

pub split_slash_at :
    (a s : Bytes) → Without b'/' a → split_slash (a ++ (b'/' ∷ s)) ≡ a ∷ split_slash s
unfolding split_slash all_bytes
split_slash_at [] s h = refl
split_slash_at (c ∷ a) s h =
    let e : (c == b'/') ≡ false = ground arith in
    let r = split_slash_at a s (ground arith) in rw (e, r)

pub split_slash_end : (a : Bytes) → Without b'/' a → split_slash a ≡ a ∷ []
unfolding split_slash all_bytes
split_slash_end [] h = refl
split_slash_end (c ∷ a) h =
    let e : (c == b'/') ≡ false = ground arith in
    let r = split_slash_end a (ground arith) in rw (e, r)
