-- ===== src/Network/Build/Recipients.antt =====
-- The recipients that BuildLinks of internal/network/network.go takes from a letter.
use dph.Base.{
  ℕ, ◌≡◌, refl, ap, ◌∙◌, ◌⊎◌, inl, inr, Bool, true, false, not, ◌&&◌, ◌||◌, Option, List, [], ◌∷◌,
  ◌++◌, arith, Bool-cases, map,
}
use dph.Base.Text.{Bytes, str_eq, str_eq_iff, is_empty, has}
use dph.Base.Dict.{bytes_eq, keys}
use dph.Network.{MsgRow, Filter, role_to, role_cc, role_bcc}
use dph.Network.Build.{add_recip, add_recips, recips}

-- No key stands twice.
abbrev pub NoKeyTwice : List (Bytes × ℕ) → Type 0
NoKeyTwice [] = Unit
NoKeyTwice ((e, role) ∷ rs) = (has (keys rs) e ≡ false) × NoKeyTwice rs

append-has :
    (k x : Bytes) (role : ℕ) (rs : List (Bytes × ℕ))
    → has (keys (rs ++ (x, role) ∷ [])) k ≡ (has (keys rs) k || str_eq x k)
unfolding has
append-has k x role [] = ground arith
append-has k x role ((y, r) ∷ rs) = ground (arith, append-has k x role rs)

append-NoKeyTwice :
    (x : Bytes) (role : ℕ) (rs : List (Bytes × ℕ))
    → NoKeyTwice rs
    → has (keys rs) x ≡ false
    → NoKeyTwice (rs ++ (x, role) ∷ [])
unfolding has
append-NoKeyTwice x role [] n h = (refl, tt)
append-NoKeyTwice x role ((y, r) ∷ rs) n h = (
  ground (arith, append-has y x role rs, str_eq_iff x y, str_eq_iff y x),
  append-NoKeyTwice x role rs n.1 (ground arith),
)

module _ (lower : Bytes → Bytes) (fold_eq : Bytes → Bytes → Bool) (parse : Bytes → Option ℕ)
    (f : Filter) (target : Bytes) where
  -- `k` is one of the addresses, and neither empty nor the target.
  abbrev names_other : Bytes → List Bytes → Bool
  names_other k es = has (map lower es) k && not (is_empty k || str_eq k target)

  -- `k` is one of the recipients of the letter, and neither empty nor the target.
  abbrev pub is_recipient : Bytes → MsgRow → Bool
  is_recipient k m = names_other k m.to || (names_other k m.cc || names_other k m.bcc)

  abbrev with_recip : ℕ → Bytes → List (Bytes × ℕ) → List (Bytes × ℕ)
  with_recip role e rs = add_recip lower fold_eq parse target role e rs

  abbrev skips : Bytes → List (Bytes × ℕ) → Bool
  skips e rs = is_empty (lower e) || (str_eq (lower e) target || has (keys rs) (lower e))

  alike :
      (k e : Bytes) (rs : List (Bytes × ℕ))
      → str_eq (lower e) k ≡ true
      → (is_empty (lower e) ≡ is_empty k)
        × (str_eq (lower e) target ≡ str_eq k target)
        × (has (keys rs) (lower e) ≡ has (keys rs) k)
  alike k e rs q = (ap is_empty p, ap (λ x. str_eq x target) p, ap (has (keys rs)) p)
    where
      p : lower e ≡ k
      p = (str_eq_iff (lower e) k).0 q

  with_recip-has :
      (k : Bytes) (role : ℕ) (e : Bytes) (rs : List (Bytes × ℕ))
      → has (keys (with_recip role e rs)) k ≡ (has (keys rs) k || names_other k (e ∷ []))
  unfolding has
  with_recip-has k role e rs = elim (Bool-cases (skips e rs)) [
    | inl t ↦ rw t (kept t (Bool-cases (str_eq (lower e) k)))
    | inr t ↦ rw t (
        append-has k (lower e) role rs
        ∙ ap (λ b. has (keys rs) k || b) (new t (Bool-cases (str_eq (lower e) k))))
  ]
    where
      kept :
          skips e rs ≡ true
          → (str_eq (lower e) k ≡ true) ⊎ (str_eq (lower e) k ≡ false)
          → has (keys rs) k ≡ (has (keys rs) k || names_other k (e ∷ []))
      kept t (inl q) = ground (arith, alike k e rs q)
      kept t (inr q) = ground arith

      new :
          skips e rs ≡ false
          → (str_eq (lower e) k ≡ true) ⊎ (str_eq (lower e) k ≡ false)
          → str_eq (lower e) k ≡ names_other k (e ∷ [])
      new t (inl q) = ground (arith, alike k e rs q)
      new t (inr q) = ground arith

  with_recip-NoKeyTwice :
      (role : ℕ) (e : Bytes) (rs : List (Bytes × ℕ))
      → NoKeyTwice rs
      → NoKeyTwice (with_recip role e rs)
  with_recip-NoKeyTwice role e rs n = elim (Bool-cases (skips e rs)) [
    | inl t ↦ rw t n
    | inr t ↦ rw t (append-NoKeyTwice (lower e) role rs n (ground arith))
  ]

  adds-has :
      (k : Bytes) (role : ℕ) (es : List Bytes) (rs : List (Bytes × ℕ))
      → has (keys (add_recips lower fold_eq parse target role es rs)) k
        ≡ (has (keys rs) k || names_other k es)
  unfolding add_recips has
  adds-has k role [] rs = ground arith
  adds-has k role (e ∷ es) rs =
      ground (arith, adds-has k role es (with_recip role e rs), with_recip-has k role e rs)

  adds-NoKeyTwice :
      (role : ℕ) (es : List Bytes) (rs : List (Bytes × ℕ))
      → NoKeyTwice rs
      → NoKeyTwice (add_recips lower fold_eq parse target role es rs)
  unfolding add_recips
  adds-NoKeyTwice role [] rs n = n
  adds-NoKeyTwice role (e ∷ es) rs n =
      adds-NoKeyTwice role es (with_recip role e rs) (with_recip-NoKeyTwice role e rs n)

  pub recips-has :
      (k : Bytes) (m : MsgRow)
      → has (keys (recips lower fold_eq parse target m)) k ≡ is_recipient k m
  unfolding has
  recips-has k m =
      adds-has k 1 m.bcc ccs ∙ ground (arith, adds-has k 2 m.cc tos, adds-has k 4 m.to [])
    where
      tos : List (Bytes × ℕ)
      tos = add_recips lower fold_eq parse target role_to m.to []

      ccs : List (Bytes × ℕ)
      ccs = add_recips lower fold_eq parse target role_cc m.cc tos

  pub recips-NoKeyTwice : (m : MsgRow) → NoKeyTwice (recips lower fold_eq parse target m)
  recips-NoKeyTwice m =
      adds-NoKeyTwice role_bcc m.bcc _
        (adds-NoKeyTwice role_cc m.cc _ (adds-NoKeyTwice role_to m.to [] tt))
