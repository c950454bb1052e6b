-- ===== src/Facts/Contradict/Symmetry.antt =====
-- The winner of `Adjudicate` of internal/facts/contradict.go, and an exchange of the two sides.
use dph.Base.{ℕ, ◌≤◌, ◌<◌, ◌≡◌, ◌↔◌, ◌⊎◌, true, arith}
use dph.Base.Text.{Bytes}
use dph.Facts.Contradict.{
  Winner, nobody, yes_side, no_side, Claim, Result, Source, independent, fresh_n, strong_n,
  adjudicate,
}
use mathlib.Core.List.{List}

-- The claim with its sides exchanged, and the other winner.
abbrev pub swap_claim : Claim → Claim
swap_claim c = record c { sides_yes = c.sides_no; sides_no = c.sides_yes }

abbrev pub swap_winner : Winner → Winner
swap_winner nobody = nobody
swap_winner yes_side = no_side
swap_winner no_side = yes_side

abbrev pub swap_result : Result → Result
swap_result r = record r { winner = swap_winner r.winner; yes_n = r.no_n; no_n = r.yes_n }

module _ (itoa : ℕ → Bytes) where
  -- Side `a` wins against side `b`: it has two independent sources, and `b` does not, or `b`
  -- falls short of two fresh ones, or, freshness not deciding, of two strong ones.
  abbrev pub Prevails : List Source → List Source → Type 0
  Prevails a b =
      (2 ≤ independent itoa a)
      × ((independent itoa b < 2)
          ⊎ (((2 ≤ fresh_n a) × (fresh_n b < 2))
              ⊎ (((2 ≤ fresh_n a) ↔ (2 ≤ fresh_n b)) × (2 ≤ strong_n a) × (strong_n b < 2))))

  -- Exchanging the sides of a claim exchanges the winner and the counts, and changes nothing else.
  pub adjudicate-swap :
      (c : Claim) → adjudicate itoa (swap_claim c) ≡ swap_result (adjudicate itoa c)
  unfolding adjudicate
  adjudicate-swap c = ground arith

  adjudicate-yes :
      (c : Claim) → ((adjudicate itoa c).winner ≡ yes_side) ↔ Prevails c.sides_yes c.sides_no
  unfolding adjudicate
  adjudicate-yes c = ground arith

  adjudicate-no :
      (c : Claim) → ((adjudicate itoa c).winner ≡ no_side) ↔ Prevails c.sides_no c.sides_yes
  unfolding adjudicate
  adjudicate-no c = ground arith

  adjudicate-is_confirmed :
      (c : Claim)
      → ((adjudicate itoa c).is_confirmed ≡ true)
        ↔ (Prevails c.sides_yes c.sides_no ⊎ Prevails c.sides_no c.sides_yes)
  unfolding adjudicate
  adjudicate-is_confirmed c = ground arith

  -- The winner is the side that prevails, and a result is confirmed exactly when some side does.
  pub adjudicate-Prevails :
      (c : Claim)
      → (((adjudicate itoa c).winner ≡ yes_side) ↔ Prevails c.sides_yes c.sides_no)
        × (((adjudicate itoa c).winner ≡ no_side) ↔ Prevails c.sides_no c.sides_yes)
        × (((adjudicate itoa c).is_confirmed ≡ true)
            ↔ (Prevails c.sides_yes c.sides_no ⊎ Prevails c.sides_no c.sides_yes))
  adjudicate-Prevails c = (adjudicate-yes c, adjudicate-no c, adjudicate-is_confirmed c)
