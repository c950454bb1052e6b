-- ===== src/GraphPlan.antt =====
-- The edges of a message, internal/canon/model.go, and the plan of what is written of it to the graph,
-- internal/brain/graphplan.go. The id of a paragraph, a part of a SHA-256, is given.
pub mod Persons
pub mod Closed
use dph.Base.{
  ℕ, zero, suc, ◌≡◌, Bool, true, false, not, ◌&&◌, ◌||◌, Option, none, some, List, [], ◌∷◌, ◌++◌,
  if◌then◌else◌, ◌==◌,
}
use dph.Base.Text.{Bytes, str_eq, has, is_empty, trim_space}

-- `canon.Person`.
pub record Person : Type 0 where
  pub id : Bytes
  pub name : Bytes
  pub email : Bytes
  pub handle : Bytes

-- The fields of `canon.Message` that make its edges.
pub record Message : Type 0 where
  pub id : Bytes
  pub sender : Person
  pub reply_to : Option Bytes
  pub to : List Person
  pub cc : List Person
  pub bcc : List Person
  pub body : Bytes

-- `EdgeType`.
pub data EdgeType : Type 0 where
  edge_sent edge_to edge_cc edge_bcc edge_reply_to edge_part_of : EdgeType

-- `Edge`.
pub record Edge : Type 0 where
  pub type_of : EdgeType
  pub source : Bytes
  pub target : Bytes

abbrev starts_with_newline : Bytes → Bool
starts_with_newline [] = false
starts_with_newline (c ∷ s) = c == 10

-- The pieces between runs of two newlines and more; `skipping` in such a run.
unfoldable pub pieces_from : Bool → Bytes → Bytes × List Bytes
pieces_from skipping [] = ([], [])
pieces_from skipping (c ∷ s) =
    let inside = pieces_from true s in
    let after = pieces_from false s in
    if skipping && c == 10
    then inside
    else if c == 10 && starts_with_newline s
    then ([], inside.0 ∷ inside.1)
    else (c ∷ after.0, after.1)

unfoldable pub trimmed_pieces : List Bytes → List Bytes
trimmed_pieces [] = []
trimmed_pieces (p ∷ ps) =
    let rest = trimmed_pieces ps in if is_empty (trim_space p) then rest else trim_space p ∷ rest

-- `paragraphs`.
abbrev pub paragraphs : Bytes → List Bytes
paragraphs body = let p = pieces_from false body in trimmed_pieces (p.0 ∷ p.1)

abbrev pub sent_edges : Message → List Edge
sent_edges m =
    if is_empty m.sender.id
    then []
    else record { type_of = edge_sent; source = m.sender.id; target = m.id } ∷ []

-- The loop over one list of recipients.
unfoldable pub edges_to : EdgeType → Bytes → List Person → List Edge
edges_to t id [] = []
edges_to t id (p ∷ ps) =
    let rest = edges_to t id ps in
    if is_empty p.id then rest else record { type_of = t; source = id; target = p.id } ∷ rest

abbrev pub reply_edges : Bytes → Option Bytes → List Edge
reply_edges id none = []
reply_edges id (some parent) =
    if is_empty parent
    then []
    else record { type_of = edge_reply_to; source = id; target = parent } ∷ []

-- `add` of `planGraph`, on the ids seen and the persons so far.
abbrev pub Planned : Type 0
Planned = List Bytes × List Person

abbrev pub add_person : Person → Planned → Planned
add_person p (seen, ps) =
    if is_empty p.id || has seen p.id then (seen, ps) else (p.id ∷ seen, ps ++ p ∷ [])

unfoldable pub add_persons : List Person → Planned → Planned
add_persons [] s = s
add_persons (p ∷ ps) s = add_persons ps (add_person p s)

abbrev pub planned_persons : Message → Planned
planned_persons m =
    add_persons m.bcc (add_persons m.cc (add_persons m.to (add_person m.sender ([], []))))

-- The edges that the loop leaves out.
abbrev pub is_left_out : Edge → Bool
is_left_out e = elim e.type_of [
  | edge_part_of ↦ true
  | edge_reply_to ↦ str_eq e.source e.target
  | edge_sent ↦ false
  | edge_to ↦ false
  | edge_cc ↦ false
  | edge_bcc ↦ false
]

unfoldable pub kept_edges : List Edge → List Edge
kept_edges [] = []
kept_edges (e ∷ es) = let rest = kept_edges es in if is_left_out e then rest else e ∷ rest

module _ (paragraph_id : Bytes → ℕ → Bytes) where
  -- The loop over the paragraphs.
  unfoldable pub paragraph_edges : Bytes → ℕ → List Bytes → List Edge
  paragraph_edges id i [] = []
  paragraph_edges id i (p ∷ ps) =
      let rest = paragraph_edges id (suc i) ps in
      if is_empty p
      then rest
      else record { type_of = edge_part_of; source = id; target = paragraph_id id i } ∷ rest

  -- `Edges`.
  abbrev pub edges : Message → List Edge
  edges m =
      sent_edges m
      ++ (edges_to edge_to m.id m.to
          ++ (edges_to edge_cc m.id m.cc
              ++ (edges_to edge_bcc m.id m.bcc
                  ++ (reply_edges m.id m.reply_to ++ paragraph_edges m.id 0 (paragraphs m.body)))))

  -- `planGraph`.
  abbrev pub plan_graph : Message → List Person × List Edge
  plan_graph m = ((planned_persons m).1, kept_edges (edges m))
