-- ===== src/Facts/Contradict.antt =====
-- Adjudication of contradictions: internal/facts/contradict.go.
pub mod Symmetry
pub mod Keys
use dph.Base.{
  ℕ, suc, ◌+◌, ◌≤◌, ◌<◌, ◌≡◌, refl, ◌⊎◌, inl, inr, Bool, true, false, not, ◌&&◌, ◌||◌, List, [],
  ◌∷◌, ◌++◌, arith, length, if◌then◌else◌, leb, ltb,
}
use dph.Base.Text.{Bytes, codes, str_eq, has, is_empty}

pub data Conf : Type 0 where
  confirmed hypothesis : Conf

pub data Rule : Type 0 where
  unresolved temporal_freshness authority_pairing two_source single_source : Rule

pub data Winner : Type 0 where
  nobody yes_side no_side : Winner

pub record Source : Type 0 where
  pub id : Bytes
  pub kind : Bytes
  pub when : Bytes
  pub stale : Bool

pub record Claim : Type 0 where
  pub text : Bytes
  pub sides_yes : List Source
  pub sides_no : List Source

pub record Result : Type 0 where
  pub text : Bytes
  pub confidence : Conf
  pub is_confirmed : Bool
  pub rule : Rule
  pub winner : Winner
  pub yes_n : ℕ
  pub no_n : ℕ

-- The key of `seen`: the id, or `kind + "#" + strconv.Itoa(i)` where it is empty. The printer of
-- numbers is given.
module _ (itoa : ℕ → Bytes) where
  unfoldable pub source_key : ℕ → Source → Bytes
  source_key i s = if is_empty s.id then s.kind ++ b'#' ∷ itoa i else s.id

  -- The loop of `independent`: `seen` is the set of keys.
  unfoldable pub collect_keys : ℕ → List Bytes → List Source → List Bytes
  collect_keys i seen [] = seen
  collect_keys i seen (s ∷ ss) =
      let k = source_key i s in collect_keys (suc i) (if has seen k then seen else k ∷ seen) ss

  -- `independent`.
  unfoldable pub independent : List Source → ℕ
  independent ss = length (collect_keys 0 [] ss)

-- `freshN`.
unfoldable pub fresh_n : List Source → ℕ
fresh_n [] = 0
fresh_n (s ∷ ss) = let n = fresh_n ss in if s.stale then n else suc n

abbrev pub is_strong : Source → Bool
is_strong s = str_eq s.kind (codes "runtime") || str_eq s.kind (codes "config")

-- `strongN`.
unfoldable pub strong_n : List Source → ℕ
strong_n [] = 0
strong_n (s ∷ ss) = let n = strong_n ss in if is_strong s then suc n else n

abbrev is_conf_confirmed : Conf → Bool
is_conf_confirmed confirmed = true
is_conf_confirmed hypothesis = false

module _ (itoa : ℕ → Bytes) where
  -- `out`.
  unfoldable pub make_result : Claim → Conf → Rule → Winner → Result
  make_result c conf rule winner = record {
    text = c.text;
    confidence = conf;
    is_confirmed = is_conf_confirmed conf;
    rule = rule;
    winner = winner;
    yes_n = independent itoa c.sides_yes;
    no_n = independent itoa c.sides_no;
  }

  -- The rules for two sides of two independent sources each.
  unfoldable pub break_tie : Claim → Result
  unfolding make_result
  break_tie c =
      let yf = fresh_n c.sides_yes in
      let nf = fresh_n c.sides_no in
      let ys = strong_n c.sides_yes in
      let ns = strong_n c.sides_no in
      if leb 2 yf && ltb nf 2
      then make_result c confirmed temporal_freshness yes_side
      else if leb 2 nf && ltb yf 2
      then make_result c confirmed temporal_freshness no_side
      else if leb 2 ys && ltb ns 2
      then make_result c confirmed authority_pairing yes_side
      else if leb 2 ns && ltb ys 2
      then make_result c confirmed authority_pairing no_side
      else make_result c hypothesis unresolved nobody

  -- `Adjudicate`.
  unfoldable pub adjudicate : Claim → Result
  unfolding break_tie make_result
  adjudicate c =
      let yes_n = independent itoa c.sides_yes in
      let no_n = independent itoa c.sides_no in
      if ltb yes_n 2 || ltb no_n 2
      then if leb 2 yes_n
        then make_result c confirmed two_source yes_side
        else if leb 2 no_n
        then make_result c confirmed two_source no_side
        else make_result c hypothesis single_source nobody
      else break_tie c
