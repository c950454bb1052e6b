-- ===== src/GraphPlan/Closed.antt =====
-- The edges that internal/brain/graphplan.go plans.
use dph.Base.{
  ℕ, suc, ◌≡◌, refl, sym, ap, ◌∙◌, inl, inr, Bool, true, false, Option, none, some, List, [], ◌∷◌,
  if◌then◌else◌, arith, In, In-append,
}
use mathlib.Core.Path.{transport}
use dph.Base.Text.{Bytes, str_eq, str_eq_refl, has, is_empty}
use dph.GraphPlan.{
  Person, Message, Edge, EdgeType, edge_sent, edge_to, edge_cc, edge_bcc, edge_reply_to,
  edge_part_of, paragraphs, sent_edges, edges_to, reply_edges, paragraph_edges, edges, is_left_out,
  kept_edges, plan_graph,
}
use dph.GraphPlan.Persons.{person_ids, names_id, names_person, planned_persons-has}

module _ (paragraph_id : Bytes → ℕ → Bytes) where
  -- The ends of an edge: the message and a planned person, or the message and the one that its field
  -- `reply_to` names, which is another one.
  abbrev pub IsJoined : Message → Edge → Type 0
  IsJoined m e = elim e.type_of [
    | edge_sent ↦
        (has (person_ids (plan_graph paragraph_id m).0) e.source ≡ true) × (e.target ≡ m.id)
    | edge_to ↦ (e.source ≡ m.id) × (has (person_ids (plan_graph paragraph_id m).0) e.target ≡ true)
    | edge_cc ↦ (e.source ≡ m.id) × (has (person_ids (plan_graph paragraph_id m).0) e.target ≡ true)
    | edge_bcc ↦
        (e.source ≡ m.id) × (has (person_ids (plan_graph paragraph_id m).0) e.target ≡ true)
    | edge_reply_to ↦
        (e.source ≡ m.id) × (m.reply_to ≡ some e.target) × (str_eq m.id e.target ≡ false)
    | edge_part_of ↦ ⊥
  ]

  kept-In : (e : Edge) (es : List Edge) → In e (kept_edges es) → In e es × (is_left_out e ≡ false)
  unfolding kept_edges
  kept-In e [] h = absurd h
  kept-In e (x ∷ es) h = chosen (kept-In e es) (is_left_out x) refl h
    where
      chosen :
          (In e (kept_edges es) → In e es × (is_left_out e ≡ false))
          → (b : Bool) → is_left_out x ≡ b
          → In e (if b then kept_edges es else x ∷ kept_edges es)
          → In e (x ∷ es) × (is_left_out e ≡ false)
      chosen k true q h = (inr (k h).0, (k h).1)
      chosen k false q (inl p) = (inl p, ap is_left_out p ∙ q)
      chosen k false q (inr h) = (inr (k h).0, (k h).1)

  In-has : (p : Person) (ps : List Person) → In p ps → has (person_ids ps) p.id ≡ true
  unfolding has
  In-has p [] i = absurd i
  In-has p (q ∷ ps) (inl e) = rw (sym e) (rw (str_eq_refl p.id) refl)
  In-has p (q ∷ ps) (inr i) = ground (arith, In-has p ps i)

  -- An edge to a person of the list.
  edges_to-In :
      (t : EdgeType) (id : Bytes) (e : Edge) (ps : List Person)
      → In e (edges_to t id ps)
      → (p : Person) × In p ps
        × (is_empty p.id ≡ false)
        × (e ≡ record { type_of = t; source = id; target = p.id })
  unfolding edges_to
  edges_to-In t id e [] h = absurd h
  edges_to-In t id e (p ∷ ps) h = chosen (edges_to-In t id e ps) (is_empty p.id) refl h
    where
      here : Edge
      here = record { type_of = t; source = id; target = p.id }

      chosen :
          (In e (edges_to t id ps)
            → (q : Person) × In q ps
              × (is_empty q.id ≡ false)
              × (e ≡ record { type_of = t; source = id; target = q.id }))
          → (b : Bool) → is_empty p.id ≡ b
          → In e (if b then edges_to t id ps else here ∷ edges_to t id ps)
          → (q : Person) × In q (p ∷ ps)
            × (is_empty q.id ≡ false)
            × (e ≡ record { type_of = t; source = id; target = q.id })
      chosen k true n h = let r = k h in (r.0, inr r.1, r.2, r.3)
      chosen k false n (inl q) = (p, inl refl, n, q)
      chosen k false n (inr h) = let r = k h in (r.0, inr r.1, r.2, r.3)

  paragraph-In :
      (id : Bytes) (i : ℕ) (e : Edge) (ps : List Bytes)
      → In e (paragraph_edges paragraph_id id i ps)
      → e.type_of ≡ edge_part_of
  unfolding paragraph_edges
  paragraph-In id i e [] h = absurd h
  paragraph-In id i e (p ∷ ps) h = chosen (paragraph-In id (suc i) e ps) (is_empty p) h
    where
      chosen :
          (In e (paragraph_edges paragraph_id id (suc i) ps) → e.type_of ≡ edge_part_of)
          → (b : Bool)
          → In e (
              if b
              then paragraph_edges paragraph_id id (suc i) ps
              else record { type_of = edge_part_of; source = id; target = paragraph_id id i }
                ∷ paragraph_edges paragraph_id id (suc i) ps)
          → e.type_of ≡ edge_part_of
      chosen k true h = k h
      chosen k false (inl q) = ap (λ x. x.type_of) q
      chosen k false (inr h) = k h

  left_out : (e : Edge) → e.type_of ≡ edge_part_of → is_left_out e ≡ true
  left_out e q = rw q refl

  planned :
      (m : Message) (k : Bytes)
      → names_person k m ≡ true
      → has (person_ids (plan_graph paragraph_id m).0) k ≡ true
  planned m k t = planned_persons-has k m ∙ t

  module _ (m : Message) where
    to_person :
        (ps : List Person) (p : Person) → In p ps → is_empty p.id ≡ false → names_id p.id ps ≡ true
    to_person ps p i n = ground (arith, In-has p ps i, n)

    recipient-end : (e : Edge) → In e (edges_to edge_to m.id m.to) → IsJoined m e
    recipient-end e h =
        let r = edges_to-In edge_to m.id e m.to h in
        transport (ap (IsJoined m) (sym r.3))
          (refl, planned m r.0.id (ground (arith, to_person m.to r.0 r.1 r.2)))

    cc-end : (e : Edge) → In e (edges_to edge_cc m.id m.cc) → IsJoined m e
    cc-end e h =
        let r = edges_to-In edge_cc m.id e m.cc h in
        transport (ap (IsJoined m) (sym r.3))
          (refl, planned m r.0.id (ground (arith, to_person m.cc r.0 r.1 r.2)))

    bcc-end : (e : Edge) → In e (edges_to edge_bcc m.id m.bcc) → IsJoined m e
    bcc-end e h =
        let r = edges_to-In edge_bcc m.id e m.bcc h in
        transport (ap (IsJoined m) (sym r.3))
          (refl, planned m r.0.id (ground (arith, to_person m.bcc r.0 r.1 r.2)))

    sent-end : (e : Edge) → In e (sent_edges m) → IsJoined m e
    sent-end e h = by_id (is_empty m.sender.id) refl h
      where
        by_id :
            (b : Bool)
            → is_empty m.sender.id ≡ b
            → In e (
                if b
                then []
                else record { type_of = edge_sent; source = m.sender.id; target = m.id } ∷ [])
            → IsJoined m e
        by_id true n h = absurd h
        by_id false n (inl q) = transport (ap (IsJoined m) (sym q)) (
          planned m m.sender.id (ground (arith, to_person (m.sender ∷ []) m.sender (inl refl) n)),
          refl,
        )
        by_id false n (inr h) = absurd h

    reply-end :
        (e : Edge) (o : Option Bytes)
        → m.reply_to ≡ o
        → is_left_out e ≡ false
        → In e (reply_edges m.id o)
        → IsJoined m e
    reply-end e none r l h = absurd h
    reply-end e (some parent) r l h = by_parent (is_empty parent) h
      where
        by_parent :
            (b : Bool)
            → In e (
                if b
                then []
                else record { type_of = edge_reply_to; source = m.id; target = parent } ∷ [])
            → IsJoined m e
        by_parent true h = absurd h
        by_parent false (inl q) =
            transport (ap (IsJoined m) (sym q)) (refl, r, sym (ap is_left_out q) ∙ l)
        by_parent false (inr h) = absurd h

    paragraph-end :
        (e : Edge)
        → is_left_out e ≡ false
        → In e (paragraph_edges paragraph_id m.id 0 (paragraphs m.body))
        → IsJoined m e
    paragraph-end e l h = absurd (cc (l, left_out e (paragraph-In m.id 0 e (paragraphs m.body) h)))

  -- Every edge that is planned joins the message with a planned person, or leads from the message to the
  -- other one that its field `reply_to` names; none leads to a paragraph.
  pub plan_graph-IsJoined :
      (m : Message) (e : Edge) → In e (plan_graph paragraph_id m).1 → IsJoined m e
  plan_graph-IsJoined m e h = elim (In-append e (sent_edges m) _ k.0) [
    | inl a ↦ sent-end m e a
    | inr r1 ↦ elim (In-append e (edges_to edge_to m.id m.to) _ r1) [
      | inl a ↦ recipient-end m e a
      | inr r2 ↦ elim (In-append e (edges_to edge_cc m.id m.cc) _ r2) [
        | inl a ↦ cc-end m e a
        | inr r3 ↦ elim (In-append e (edges_to edge_bcc m.id m.bcc) _ r3) [
          | inl a ↦ bcc-end m e a
          | inr r4 ↦ elim (In-append e (reply_edges m.id m.reply_to) _ r4) [
            | inl a ↦ reply-end m e m.reply_to refl k.1 a
            | inr a ↦ paragraph-end m e k.1 a
          ]
        ]
      ]
    ]
  ]
    where
      k : In e (edges paragraph_id m) × (is_left_out e ≡ false)
      k = kept-In e (edges paragraph_id m) h
