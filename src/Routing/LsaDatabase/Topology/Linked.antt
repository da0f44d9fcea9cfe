-- ===== src/Routing/LsaDatabase/Topology/Linked.antt =====
-- The edges of the graph of the LSA database are the point-to-point links of the LSAs, both ways.
use ndn_based_protocol.Prelude.{
  ◌≡◌, refl, ℕ, ℤ, Bool, true, false, some, int_eq, int_beq_iff, nat_eq, nat_beq_iff, ◌==◌, arith,
  Bool-cases, inl, inr, ◌∙◌, sym, subst, ◌||◌, ◌&&◌, if◌then◌else◌, List, [], ◌∷◌,
}
use ndn_based_protocol.Prelude.Map.{lookup}
use ndn_based_protocol.Routing.Lsa.{NdnLink, LsaDataPack}
use ndn_based_protocol.Routing.Graph.{add_vertex, add_edge, edges_of, has_edge}
use ndn_based_protocol.Routing.Graph.Edges.{edges_of-add_vertex}
use ndn_based_protocol.Routing.LsaDatabase.Topology.{
  Vertex, Topology, no_topology, int_of, point_to_point_link, router_vertex, add_point_to_point,
  add_links, add_lsa, add_lsas,
}
use ndn_based_protocol.Routing.LsaDatabase.Topology.Index.{
  IsIndexed, no_topology-IsIndexed, router_vertex-IsIndexed, has_edge-add_edge,
}

abbrev pub links_to : List NdnLink → ℕ → Bool
links_to [] id = false
links_to (link ∷ links) id =
    (link.link_type == point_to_point_link && link.link_id == id) || links_to links id

abbrev pub pair : ℕ → ℕ → ℕ → ℕ → Bool
pair x y a b = (x == a && y == b) || (x == b && y == a)

-- An LSA of one of two routers has a point-to-point link to the other.
abbrev pub linked : List LsaDataPack → ℕ → ℕ → Bool
linked [] a b = false
linked (lsa ∷ lsas) a b =
    ((lsa.router_id == a && links_to lsa.links b) || (lsa.router_id == b && links_to lsa.links a))
    || linked lsas a b

-- Routers stay at their vertices.
abbrev pub Keeps : Topology → Topology → Type 0
Keeps t u =
    (id : ℕ) (v : Vertex)
    → lookup id t.router_vertices ≡ some v
    → lookup id u.router_vertices ≡ some v

-- The edges of the graph are those of a relation between routers.
pub record IsTopology (t : Topology) (related : ℕ → ℕ → Bool) : Type 0 where
  pub indexed : IsIndexed t
  pub sound :
      (i j : ℤ)
      → has_edge j (edges_of t.graph i) ≡ true
      → (v : Vertex) × (w : Vertex) × (lookup i t.vertices ≡ some v)
        × (lookup j t.vertices ≡ some w)
        × (related v.router_id w.router_id ≡ true)
  pub complete :
      (a b : ℕ)
      → related a b ≡ true
      → (v : Vertex) × (w : Vertex) × (lookup a t.router_vertices ≡ some v)
        × (lookup b t.router_vertices ≡ some w)
        × (has_edge w.index (edges_of t.graph v.index) ≡ true)

pub IsTopology-same :
    (t : Topology) (r s : ℕ → ℕ → Bool)
    → ((a b : ℕ) → r a b ≡ s a b)
    → IsTopology t r
    → IsTopology t s
IsTopology-same t r s e h = record {
  indexed = h.indexed;
  sound = λ i j k.
      let (v, w, at_i, at_j, related) = h.sound i j k in
      (v, w, at_i, at_j, sym (e v.router_id w.router_id) ∙ related);
  complete = λ a b k. h.complete a b (e a b ∙ k);
}

edges_of-no_topology : (i : ℤ) → edges_of no_topology.graph i ≡ []
unfolding edges_of lookup
edges_of-no_topology i = refl

has_edge-no_topology : (i j : ℤ) → has_edge j (edges_of no_topology.graph i) ≡ false
unfolding has_edge
has_edge-no_topology i j = rw (edges_of-no_topology i)

pub no_topology-IsTopology : IsTopology no_topology (λ a b. false)
no_topology-IsTopology = record {
  indexed = no_topology-IsIndexed;
  sound = λ i j k. absurd (ground (arith, has_edge-no_topology i j, k));
  complete = λ a b k. absurd (ground (arith, k));
}

-- A new vertex leaves the edges as they are.
pub router_vertex-IsTopology :
    (t : Topology) (id : ℕ) (related : ℕ → ℕ → Bool)
    → IsTopology t related
    → IsTopology (router_vertex t id).1 related
      × (lookup id (router_vertex t id).1.router_vertices ≡ some (router_vertex t id).0)
      × Keeps t (router_vertex t id).1
router_vertex-IsTopology t id related h =
    let (indexed, here, keeps, same) = router_vertex-IsIndexed t id h.indexed in
    let moved : (i : ℤ) (v : Vertex)
        → lookup i t.vertices ≡ some v
        → lookup i (router_vertex t id).1.vertices ≡ some v =
      λ i v e.
        let (at_i, its_id) = h.indexed.by_index i v e in
        let (_, found) = indexed.by_id v.router_id v (keeps v.router_id v its_id) in
        subst (λ x. lookup x (router_vertex t id).1.vertices ≡ some v) at_i found in
    (
      record {
        indexed = indexed;
        sound = λ i j k.
            let (v, w, at_i, at_j, related) = h.sound i j (rw same at k) in
            (v, w, moved i v at_i, moved j w at_j, related);
        complete = λ a b k.
            let (v, w, at_a, at_b, edge) = h.complete a b k in
            (v, w, keeps a v at_a, keeps b w at_b, rw same edge);
      },
      here,
      keeps,
    )

-- The two edges of a link between two vertices.
add_both-IsTopology :
    (t : Topology) (related : ℕ → ℕ → Bool) (v w : Vertex) (cost : ℤ) (x y : ℕ)
    → IsTopology t related
    → lookup x t.router_vertices ≡ some v
    → lookup y t.router_vertices ≡ some w
    → IsTopology
        (record t { graph = add_edge (add_edge t.graph v.index w.index cost) w.index v.index cost })
        (λ a b. pair x y a b || related a b)
add_both-IsTopology t related v w cost x y h at_x at_y =
    let (v_id, v_here) = h.indexed.by_id x v at_x in
    let (w_id, w_here) = h.indexed.by_id y w at_y in
    let edges = λ (i j : ℤ).
      has_edge-add_edge (add_edge t.graph v.index w.index cost) w.index v.index cost i j in
    let edges1 = λ (i j : ℤ). has_edge-add_edge t.graph v.index w.index cost i j in
    record {
      indexed = record {
        by_id = h.indexed.by_id;
        by_index = h.indexed.by_index;
        fresh = h.indexed.fresh;
      };
      sound = λ i j k. elim (Bool-cases (v.index == i && w.index == j)) [
        | inl forth ↦ (
          v,
          w,
          ground (arith, forth, int_beq_iff v.index i, v_here),
          ground (arith, forth, int_beq_iff w.index j, w_here),
          ground (arith, v_id, w_id, nat_beq_iff x v.router_id, nat_beq_iff y w.router_id),
        )
        | inr not_forth ↦ elim (Bool-cases (w.index == i && v.index == j)) [
          | inl back ↦ (
            w,
            v,
            ground (arith, back, int_beq_iff w.index i, w_here),
            ground (arith, back, int_beq_iff v.index j, v_here),
            ground (arith, v_id, w_id, nat_beq_iff x v.router_id, nat_beq_iff y w.router_id),
          )
          | inr neither ↦
              let old : has_edge j (edges_of t.graph i) ≡ true =
                ground (arith, edges i j, edges1 i j, not_forth, neither, k) in
              let (v', w', at_i, at_j, r) = h.sound i j old in
              (v', w', at_i, at_j, ground (arith, r))
        ]
      ];
      complete = λ a b k. elim (Bool-cases (x == a && y == b)) [
        | inl forth ↦ (
          v,
          w,
          ground (arith, forth, nat_beq_iff x a, at_x),
          ground (arith, forth, nat_beq_iff y b, at_y),
          ground (
            arith,
            edges v.index w.index,
            edges1 v.index w.index,
            int_beq_iff v.index v.index,
            int_beq_iff w.index w.index,
          ),
        )
        | inr not_forth ↦ elim (Bool-cases (x == b && y == a)) [
          | inl back ↦ (
            w,
            v,
            ground (arith, back, nat_beq_iff y a, at_y),
            ground (arith, back, nat_beq_iff x b, at_x),
            ground (
              arith,
              edges w.index v.index,
              int_beq_iff v.index v.index,
              int_beq_iff w.index w.index,
            ),
          )
          | inr neither ↦
              let (v', w', at_a, at_b, e) =
                h.complete a b (ground (arith, not_forth, neither, k)) in
              (
                v',
                w',
                at_a,
                at_b,
                ground (arith, edges v'.index w'.index, edges1 v'.index w'.index, e),
              )
        ]
      ];
    }

pub add_point_to_point-IsTopology :
    (t : Topology) (related : ℕ → ℕ → Bool) (v : Vertex) (link : NdnLink)
    → IsTopology t related
    → lookup v.router_id t.router_vertices ≡ some v
    → IsTopology
        (add_point_to_point v link t)
        (λ a b. pair v.router_id link.link_id a b || related a b)
      × Keeps t (add_point_to_point v link t)
unfolding add_point_to_point
add_point_to_point-IsTopology t related v link h here =
    let (h', there, keeps) = router_vertex-IsTopology t link.link_id related h in
    (
      add_both-IsTopology (router_vertex t link.link_id).1 related v
          (router_vertex t link.link_id).0 (int_of link.link_cost) v.router_id link.link_id h'
          (keeps v.router_id v here) there,
      keeps,
    )

-- One link, of any type.
add_link-IsTopology :
    (link : NdnLink) (t : Topology) (related : ℕ → ℕ → Bool) (v : Vertex)
    → IsTopology t related
    → lookup v.router_id t.router_vertices ≡ some v
    → IsTopology
        (if link.link_type == point_to_point_link then add_point_to_point v link t else t)
        (λ a b.
          (link.link_type == point_to_point_link && pair v.router_id link.link_id a b)
          || related a b)
      × Keeps t (if link.link_type == point_to_point_link then add_point_to_point v link t else t)
add_link-IsTopology link t related v h here =
    elim (Bool-cases (link.link_type == point_to_point_link)) [
      | inl is_p2p ↦ rw is_p2p (add_point_to_point-IsTopology t related v link h here)
      | inr other ↦ rw other (h, λ id w e. e)
    ]

pub add_links-IsTopology :
    (links : List NdnLink) (t : Topology) (related : ℕ → ℕ → Bool) (v : Vertex)
    → IsTopology t related
    → lookup v.router_id t.router_vertices ≡ some v
    → IsTopology (add_links v links t) (λ a b.
      ((v.router_id == a && links_to links b) || (v.router_id == b && links_to links a))
      || related a b)
      × Keeps t (add_links v links t)
unfolding add_links
add_links-IsTopology [] t related v h here =
    (IsTopology-same t related _ (λ a b. ground arith) h, λ id w e. e)
add_links-IsTopology (link ∷ links) t related v h here =
    let (h1, k1) = add_link-IsTopology link t related v h here in
    let (h2, k2) = add_links-IsTopology links _ _ v h1 (k1 v.router_id v here) in
    (IsTopology-same _ _ _ (λ a b. ground arith) h2, λ id w e. k2 id w (k1 id w e))

pub add_lsa-IsTopology :
    (lsa : LsaDataPack) (t : Topology) (related : ℕ → ℕ → Bool)
    → IsTopology t related
    → IsTopology (add_lsa lsa t) (λ a b. linked (lsa ∷ []) a b || related a b)
      × Keeps t (add_lsa lsa t)
      × ((v : Vertex) × (lookup lsa.router_id (add_lsa lsa t).router_vertices ≡ some v))
unfolding add_lsa
add_lsa-IsTopology lsa t related h =
    let (h1, here, k1) = router_vertex-IsTopology t lsa.router_id related h in
    let v : Vertex = (router_vertex t lsa.router_id).0 in
    let t1 : Topology = (router_vertex t lsa.router_id).1 in
    let t2 : Topology = record t1 { graph = add_vertex t1.graph v.index } in
    let same = λ (i : ℤ). edges_of-add_vertex t1.graph v.index i in
    let h2 : IsTopology t2 related = record {
      indexed = record {
        by_id = h1.indexed.by_id;
        by_index = h1.indexed.by_index;
        fresh = h1.indexed.fresh;
      };
      sound = λ i j k. h1.sound i j (rw (same i) at k);
      complete = λ a b k.
          let (v', w', at_a, at_b, e) = h1.complete a b k in
          (v', w', at_a, at_b, rw (same v'.index) e);
    } in
    let its_id : v.router_id ≡ lsa.router_id = (h1.indexed.by_id lsa.router_id v here).0 in
    let (h3, k3) = add_links-IsTopology lsa.links t2 related v h2 (rw its_id here) in
    (
      IsTopology-same _ _ _ (λ a b. rw its_id (ground arith)) h3,
      λ id w e. k3 id w (k1 id w e),
      (v, k3 lsa.router_id v here),
    )

pub add_lsas-IsTopology :
    (lsas : List LsaDataPack) (t : Topology) (related : ℕ → ℕ → Bool)
    → IsTopology t related
    → IsTopology (add_lsas lsas t) (λ a b. linked lsas a b || related a b)
      × Keeps t (add_lsas lsas t)
unfolding add_lsas
add_lsas-IsTopology [] t related h = (IsTopology-same t related _ (λ a b. refl) h, λ id v e. e)
add_lsas-IsTopology (lsa ∷ lsas) t related h =
    let (h1, k1, _) = add_lsa-IsTopology lsa t related h in
    let (h2, k2) = add_lsas-IsTopology lsas (add_lsa lsa t) _ h1 in
    (IsTopology-same _ _ _ (λ a b. ground arith) h2, λ id v e. k2 id v (k1 id v e))
