-- ===== src/Routing/LsaDatabase/Topology/Index.antt =====
-- The vertices that the graph of the LSA database is built on: routers and indices correspond.
use ndn_based_protocol.Prelude.{
  ◌≡◌, refl, ℕ, ℤ, pos, none, some, int_eq, int_beq_iff, nat_eq, nat_beq_iff, ◌==◌, arith,
  Option-cases, Bool-cases, inl, inr, ◌∙◌, ◌≤◌, ◌||◌, ◌&&◌, List, [], ◌∷◌,
}
use ndn_based_protocol.Prelude.Map.{lookup, lookup-insert}
use ndn_based_protocol.Routing.Graph.{
  Edge, Graph, add_edge, add_vertex, edges_of, has_edge, put_edge,
}
use ndn_based_protocol.Routing.Graph.Edges.{edges_of-insert, edges_of-add_vertex}
use ndn_based_protocol.Routing.LsaDatabase.Topology.{
  Vertex, Topology, new_router, no_topology, router_vertex,
}

pub record IsIndexed (t : Topology) : Type 0 where
  pub by_id :
      (id : ℕ) (v : Vertex)
      → lookup id t.router_vertices ≡ some v
      → (v.router_id ≡ id) × (lookup v.index t.vertices ≡ some v)
  pub by_index :
      (i : ℤ) (v : Vertex)
      → lookup i t.vertices ≡ some v
      → (v.index ≡ i) × (lookup v.router_id t.router_vertices ≡ some v)
  pub fresh : (n : ℕ) → t.index ≤ n → lookup (pos n) t.vertices ≡ none

lookup-nil_id : (id : ℕ) → lookup {V = Vertex} id [] ≡ none
unfolding lookup
lookup-nil_id id = refl

lookup-nil_index : (i : ℤ) → lookup {V = Vertex} i [] ≡ none
unfolding lookup
lookup-nil_index i = refl

pub no_topology-IsIndexed : IsIndexed no_topology
no_topology-IsIndexed = record {
  by_id = λ id v e. absurd (ground (arith, lookup-nil_id id, e));
  by_index = λ i v e. absurd (ground (arith, lookup-nil_index i, e));
  fresh = λ n h. lookup-nil_index (pos n);
}

-- router_vertex answers with the vertex of the router, and keeps the vertices of the others.
pub router_vertex-IsIndexed :
    (t : Topology) (id : ℕ)
    → IsIndexed t
    → IsIndexed (router_vertex t id).1
      × (lookup id (router_vertex t id).1.router_vertices ≡ some (router_vertex t id).0)
      × ((other : ℕ) (v : Vertex)
          → lookup other t.router_vertices ≡ some v
          → lookup other (router_vertex t id).1.router_vertices ≡ some v)
      × ((router_vertex t id).1.graph ≡ t.graph)
unfolding router_vertex
router_vertex-IsIndexed t id h = elim (Option-cases (lookup id t.router_vertices)) [
  | inr (v, present) ↦ rw (router_vertex, present) (h, present, λ other w e. e, refl)
  | inl absent ↦
      let made : Vertex = new_router t.index id in
      let at_id = λ (other : ℕ). lookup-insert id other made t.router_vertices in
      let at_index = λ (i : ℤ). lookup-insert (pos t.index) i made t.vertices in
      let free : lookup (pos t.index) t.vertices ≡ none = h.fresh t.index (omega arith) in
      rw (router_vertex, absent)
        (
          record {
            by_id = λ other v e. elim (Bool-cases (id == other)) [
              | inl same ↦
                  let is_made : made ≡ v = ground (arith, at_id other, same, e) in
                  (
                    ground (arith, is_made, nat_beq_iff id other),
                    ground (arith, at_index v.index, is_made, int_beq_iff (pos t.index) v.index),
                  )
              | inr different ↦
                  let before : lookup other t.router_vertices ≡ some v =
                    ground (arith, at_id other, different, e) in
                  let (its_id, its_index) = h.by_id other v before in
                  (
                    its_id,
                    ground (
                      arith,
                      at_index v.index,
                      int_beq_iff (pos t.index) v.index,
                      free,
                      its_index,
                    ),
                  )
            ];
            by_index = λ i v e. elim (Bool-cases (pos t.index == i)) [
              | inl same ↦
                  let is_made : made ≡ v = ground (arith, at_index i, same, e) in
                  (
                    ground (arith, is_made, int_beq_iff (pos t.index) i),
                    ground (arith, at_id v.router_id, is_made, nat_beq_iff id v.router_id),
                  )
              | inr different ↦
                  let before : lookup i t.vertices ≡ some v =
                    ground (arith, at_index i, different, e) in
                  let (its_index, its_id) = h.by_index i v before in
                  (
                    its_index,
                    ground (arith, at_id v.router_id, nat_beq_iff id v.router_id, absent, its_id),
                  )
            ];
            fresh = λ n le.
                ground (arith, at_index (pos n), int_beq_iff (pos t.index) (pos n), h.fresh n);
          },
          ground (arith, at_id id, nat_beq_iff id id),
          λ other v e. ground (arith, at_id other, nat_beq_iff id other, absent, e),
          refl,
        )
]

has_edge-put_edge :
    (source target cost b : ℤ) (es : List Edge)
    → has_edge b (put_edge source target cost es) ≡ (target == b || has_edge b es)
unfolding put_edge has_edge
has_edge-put_edge source target cost b [] = ground (arith, int_beq_iff target b)
has_edge-put_edge source target cost b (e ∷ es) = ground (
  arith,
  has_edge-put_edge source target cost b es,
  int_beq_iff target b,
  int_beq_iff e.target target,
  int_beq_iff e.target b,
)

-- The edges after addEdge: the new one and those before.
pub has_edge-add_edge :
    (g : Graph) (source target cost a b : ℤ)
    → has_edge b (edges_of (add_edge g source target cost) a)
      ≡ ((source == a && target == b) || has_edge b (edges_of g a))
unfolding add_edge
has_edge-add_edge g source target cost a b =
    let grown : Graph = add_vertex (add_vertex g source) target in
    let same : (x : ℤ) → edges_of grown x ≡ edges_of g x =
      λ x. edges_of-add_vertex (add_vertex g source) target x ∙ edges_of-add_vertex g source x in
    let added : List Edge = put_edge source target cost (edges_of grown source) in
    rw (edges_of-insert grown source a added) (
      rw (same source, same a)
        (ground (
          arith,
          has_edge-put_edge source target cost b (edges_of g source),
          int_beq_iff source a,
        )))
