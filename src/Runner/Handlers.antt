-- ===== src/Runner/Handlers.antt =====
-- The registry of internal/etl/registry.go.
use dph.Base.{
  ◌≡◌, refl, ◌∙◌, ◌↔◌, inl, inr, false, none, some, if◌then◌else◌, Bool-cases, Option-cases,
}
use dph.Base.Text.{Bytes, str_eq, is_empty}
use dph.Base.Dict.{bytes_eq, lookup, lookup-upsert}
use dph.Runner.{Handler, Registry, or_handler, register}

-- The name may be registered.
abbrev pub IsOpen : Registry → Handler → Type 0
IsOpen r h = (is_empty h.name ≡ false) × (lookup h.name r ≡ none)

-- The registry takes a handler without an error when its name is not empty and not taken. Then that name
-- gives the handler and all other names give what they gave before; with an error nothing changes.
pub register_lem :
    (r : Registry) (h : Handler) (k : Bytes)
    → (((register r h).1 ≡ none) ↔ IsOpen r h)
      × (IsOpen r h → lookup k (register r h).0 ≡ (if str_eq h.name k then some h else lookup k r))
      × ((IsOpen r h → ⊥) → (register r h).0 ≡ r)
unfolding register
register_lem r h k = elim (Bool-cases (is_empty h.name)) [
  | inl e ↦ rw e ((λ q. cc, λ o. cc), λ o. cc, λ n. refl)
  | inr e ↦ elim (Option-cases (lookup h.name r)) [
    | inl l ↦
        rw (e, l)
          (
            (λ q. (refl, refl), λ o. refl),
            λ o. lookup-upsert h.name k (or_handler h) r ∙ stored l,
            λ n. absurd (n (refl, refl)),
          )
    | inr (g, l) ↦ rw (e, l) ((λ q. cc, λ o. cc), λ o. cc, λ n. refl)
  ]
]
  where
    stored :
        lookup h.name r ≡ none
        → (if str_eq h.name k then some (or_handler h (lookup h.name r)) else lookup k r)
          ≡ (if str_eq h.name k then some h else lookup k r)
    stored l = rw l refl
