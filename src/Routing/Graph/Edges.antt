-- ===== src/Routing/Graph/Edges.antt =====
-- The cost of the edge between two vertices after each operation of Graph.
use ndn_based_protocol.Prelude.{
  ◌≡◌, refl, ℤ, Bool, true, false, ◌&&◌, Option, none, some, List, [], ◌∷◌, int_eq, int_beq_iff,
  ◌==◌, if◌then◌else◌, arith, Option-cases, inl, inr, ◌∙◌,
}
use ndn_based_protocol.Prelude.Map.{lookup, insert, lookup-insert, lookup-erase}
use ndn_based_protocol.Routing.Graph.{
  Edge, Graph, int_min, edges_of, add_vertex, put_edge, add_edge, remove_vertex, erase_edge,
  remove_edge, has_edge, is_bidirectional_edge,
}

-- The cost of the first edge to a vertex.
abbrev pub cost_in : ℤ → List Edge → Option ℤ
cost_in target [] = none
cost_in target (e ∷ es) =
    let rest = cost_in target es in if e.target == target then some e.cost else rest

abbrev pub cost_between : Graph → ℤ → ℤ → Option ℤ
cost_between g a b = cost_in b (edges_of g a)

abbrev pub is_some : Option ℤ → Bool
is_some none = false
is_some (some c) = true

-- The least of a new cost and that of an edge that may be there.
abbrev pub lowered : ℤ → Option ℤ → ℤ
lowered cost none = cost
lowered cost (some old) = int_min old cost

-- No vertex has two edges to one target.
abbrev pub DistinctTargets : List Edge → Type 0
DistinctTargets [] = Unit
DistinctTargets (e ∷ es) = (cost_in e.target es ≡ none) × DistinctTargets es

pub edges_of-insert :
    (g : Graph) (source a : ℤ) (es : List Edge)
    → edges_of (insert source es g) a ≡ (if source == a then es else edges_of g a)
unfolding edges_of
edges_of-insert g source a es = rw (edges_of, lookup-insert source a es g) (ground arith)

pub edges_of-add_vertex : (g : Graph) (v a : ℤ) → edges_of (add_vertex g v) a ≡ edges_of g a
unfolding add_vertex edges_of
edges_of-add_vertex g v a = elim (Option-cases (lookup v g)) [
  | inl absent ↦
      rw (edges_of, add_vertex, absent, lookup-insert v a [] g)
        (ground (arith, int_beq_iff v a, absent))
  | inr (es, present) ↦ rw (edges_of, add_vertex, present)
]

cost_in-put_edge :
    (source target cost b : ℤ) (es : List Edge)
    → cost_in b (put_edge source target cost es)
      ≡ (if target == b then some (lowered cost (cost_in target es)) else cost_in b es)
unfolding put_edge
cost_in-put_edge source target cost b [] = ground (arith, int_beq_iff target b)
cost_in-put_edge source target cost b (e ∷ es) = ground (
  arith,
  cost_in-put_edge source target cost b es,
  int_beq_iff target b,
  int_beq_iff e.target target,
  int_beq_iff e.target b,
)

Distinct-put_edge :
    (source target cost : ℤ) (es : List Edge)
    → DistinctTargets es
    → DistinctTargets (put_edge source target cost es)
unfolding put_edge
Distinct-put_edge source target cost [] d = (refl, tt)
Distinct-put_edge source target cost (e ∷ es) d = ground (
  arith,
  Distinct-put_edge source target cost es d.1,
  cost_in-put_edge source target cost e.target es,
  int_beq_iff target e.target,
  int_beq_iff e.target target,
)

-- Where no vertex has two edges to one target, addEdge keeps it so. It lowers the cost of an edge that is there
-- to the new one, or adds the edge, and leaves the cost of every other edge.
pub cost-add_edge :
    (g : Graph) (source target cost : ℤ)
    → ((a : ℤ) → DistinctTargets (edges_of g a))
    → ((a : ℤ) → DistinctTargets (edges_of (add_edge g source target cost) a))
      × ((a b : ℤ)
          → cost_between (add_edge g source target cost) a b ≡ (
              if source == a && target == b
              then some (lowered cost (cost_between g source target))
              else cost_between g a b))
unfolding add_edge
cost-add_edge g source target cost d =
    let grown : Graph = add_vertex (add_vertex g source) target in
    let same : (a : ℤ) → edges_of grown a ≡ edges_of g a =
      λ a. edges_of-add_vertex (add_vertex g source) target a ∙ edges_of-add_vertex g source a in
    let added : List Edge = put_edge source target cost (edges_of grown source) in
    (
      λ a. rw (edges_of-insert grown source a added) (
          rw (same source, same a)
            (ground
              (arith, Distinct-put_edge source target cost (edges_of g source) (d source), d a))),
      λ a b. rw (edges_of-insert grown source a added) (
          rw (same source, same a)
            (ground (
              arith,
              cost_in-put_edge source target cost b (edges_of g source),
              int_beq_iff source a,
            ))),
    )

cost_in-erase_edge :
    (target b : ℤ) (es : List Edge)
    → DistinctTargets es
    → cost_in b (erase_edge target es) ≡ (if target == b then none else cost_in b es)
unfolding erase_edge
cost_in-erase_edge target b [] d = ground arith
cost_in-erase_edge target b (e ∷ es) d = ground (
  arith,
  cost_in-erase_edge target b es d.1,
  int_beq_iff target b,
  int_beq_iff e.target target,
  int_beq_iff e.target b,
)

-- Where no vertex has two edges to one target, removeEdge removes the edge from the first vertex to
-- the second, and leaves the cost of every other edge.
pub cost-remove_edge :
    (g : Graph) (source target a b : ℤ)
    → DistinctTargets (edges_of g source)
    → cost_between (remove_edge g source target) a b
      ≡ (if source == a && target == b then none else cost_between g a b)
unfolding remove_edge edges_of
cost-remove_edge g source target a b d = elim (Option-cases (lookup source g)) [
  | inl absent ↦ rw (remove_edge, edges_of, absent) (ground (arith, int_beq_iff source a, absent))
  | inr (es, present) ↦
      let distinct : DistinctTargets es = rw (edges_of, present) at d in
      rw (remove_edge, edges_of, present, lookup-insert source a (erase_edge target es) g)
        (ground (arith, cost_in-erase_edge target b es distinct, int_beq_iff source a, present))
]

-- removeVertex removes the edges that leave the vertex, and no other: the edges to it stay.
pub cost-remove_vertex :
    (g : Graph) (v a b : ℤ)
    → cost_between (remove_vertex g v) a b ≡ (if v == a then none else cost_between g a b)
unfolding remove_vertex edges_of
cost-remove_vertex g v a b = elim (Option-cases (lookup v g)) [
  | inl absent ↦ rw (remove_vertex, edges_of, absent) (ground (arith, int_beq_iff v a, absent))
  | inr (es, present) ↦
      rw (remove_vertex, edges_of, present, lookup-erase v a g) (ground (arith, int_beq_iff v a))
]

has_edge-cost : (target : ℤ) (es : List Edge) → has_edge target es ≡ is_some (cost_in target es)
unfolding has_edge
has_edge-cost target [] = refl
has_edge-cost target (e ∷ es) = ground (arith, has_edge-cost target es)

-- isBidirectionalEdge holds of two vertices exactly where there is an edge from each to the other.
pub is_bidirectional_edge_iff :
    (g : Graph) (a b : ℤ)
    → is_bidirectional_edge g a b ≡ (is_some (cost_between g a b) && is_some (cost_between g b a))
unfolding is_bidirectional_edge edges_of
is_bidirectional_edge_iff g a b = elim (Option-cases (lookup a g)) [
  | inl no_a ↦ rw (is_bidirectional_edge, edges_of, no_a)
  | inr (es, has_a) ↦ elim (Option-cases (lookup b g)) [
    | inl no_b ↦ rw (is_bidirectional_edge, edges_of, has_a, no_b) (ground arith)
    | inr (fs, has_b) ↦
        rw (is_bidirectional_edge, edges_of, has_a, has_b, has_edge-cost b es, has_edge-cost a fs)
  ]
]
