-- ===== src/Tests/GraphPlanExamples.antt =====
-- Examples on the plan of a message: one recipient is named twice, and the sender answers a letter.
use dph.Base.{ℕ, ◌≡◌, refl, inl, inr, false, some, [], ◌∷◌, In}
use dph.Base.Text.{Bytes, codes, str_eq, has, trim_space}
use dph.GraphPlan.{
  Person, Message, Edge, edge_sent, edge_to, edge_cc, edge_reply_to, pieces_from, trimmed_pieces,
  edges_to, paragraph_edges, add_persons, kept_edges, plan_graph,
}
use dph.GraphPlan.Persons.{person_ids, IdsOnce, names_person, plan_graph-IdsOnce}
use dph.GraphPlan.Closed.{IsJoined, plan_graph-IsJoined}

abbrev no_id : Bytes → ℕ → Bytes
no_id id i = codes "p"

abbrev person_of : Bytes → Person
person_of id = record { id = id; name = []; email = id; handle = [] }

abbrev letter : Message
letter = record {
  id = codes "2";
  sender = person_of (codes "me");
  reply_to = some (codes "1");
  to = person_of (codes "q") ∷ person_of [] ∷ [];
  cc = person_of (codes "q") ∷ [];
  bcc = [];
  body = codes "a\n\n\nb";
}

abbrev edge_of_reply : Edge
edge_of_reply = record { type_of = edge_reply_to; source = codes "2"; target = codes "1" }

planned_letter : plan_graph no_id letter ≡ (
  person_of (codes "me") ∷ person_of (codes "q") ∷ [],
  record { type_of = edge_sent; source = codes "me"; target = codes "2" }
      ∷ record { type_of = edge_to; source = codes "2"; target = codes "q" }
      ∷ record { type_of = edge_cc; source = codes "2"; target = codes "q" }
      ∷ edge_of_reply
      ∷ [],
)
unfolding pieces_from trimmed_pieces edges_to paragraph_edges add_persons kept_edges has str_eq
    trim_space
planned_letter = refl

two_paragraphs :
    trimmed_pieces ((pieces_from false letter.body).0 ∷ (pieces_from false letter.body).1)
    ≡ codes "a" ∷ codes "b" ∷ []
unfolding pieces_from trimmed_pieces trim_space
two_paragraphs = refl

reply_planned : In edge_of_reply (plan_graph no_id letter).1
unfolding pieces_from trimmed_pieces edges_to paragraph_edges add_persons kept_edges has str_eq
    trim_space
reply_planned = (inr (inr (inr (inl refl))))

plan_graph-IdsOnce_example :
    IdsOnce (plan_graph no_id letter).0
    × ((k : Bytes) → has (person_ids (plan_graph no_id letter).0) k ≡ names_person k letter)
plan_graph-IdsOnce_example = plan_graph-IdsOnce no_id letter

plan_graph-IsJoined_example : IsJoined no_id letter edge_of_reply
plan_graph-IsJoined_example = plan_graph-IsJoined no_id letter edge_of_reply reply_planned
