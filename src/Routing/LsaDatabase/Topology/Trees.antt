-- ===== src/Routing/LsaDatabase/Topology/Trees.antt =====
-- What LsaDatabase::calculateMinHopTree answers for a router with an LSA of its own.
use ndn_based_protocol.Prelude.{
  ◌≡◌, refl, ℕ, ℤ, some, int_eq, nat_eq, nat_beq_iff, ◌==◌, arith, Bool-cases, Option-cases, inl,
  inr, subst, Bool, List, [], ◌∷◌, All, >>=-some,
}
use ndn_based_protocol.Prelude.Map.{Map, lookup, beq_self, DistinctKeys}
use ndn_based_protocol.Routing.Lsa.{LsaDataPack}
use ndn_based_protocol.Routing.LsaDatabase.{LsaDatabase, find_in}
use ndn_based_protocol.Routing.LsaDatabase.Topology.{
  Vertex, Topology, no_topology, add_lsa, add_lsas, calculate_min_hop_trees,
}
use ndn_based_protocol.Routing.LsaDatabase.Topology.Linked.{
  linked, IsTopology, IsTopology-same, no_topology-IsTopology, add_lsa-IsTopology,
  add_lsas-IsTopology,
}
use ndn_based_protocol.Routing.LsaDatabase.Topology.Parents.{
  Connected, IsParent, Present, Connected-known, add_parents-finds,
}

-- The keys of entries have a value.
keys-present :
    (left all : Map ℤ Vertex)
    → ((i : ℤ) (v : Vertex) → lookup i left ≡ some v → (w : Vertex) × (lookup i all ≡ some w))
    → All (λ (entry : ℤ × Vertex). (v : Vertex) × (lookup entry.0 all ≡ some v)) left
unfolding lookup
keys-present [] all h = tt
keys-present (entry ∷ left) all h = (
  h entry.0 entry.1 (ground (arith, beq_self entry.0)),
  keys-present left all (λ i v e. elim (Bool-cases (entry.0 == i)) [
    | inl same ↦ h i entry.1 (ground (arith, same))
    | inr other ↦ h i v (ground (arith, other, e))
  ]),
)

-- A router with an LSA has a vertex.
find_in-vertex :
    (lsas : List LsaDataPack) (source : ℕ) (t : Topology) (related : ℕ → ℕ → Bool)
    {lsa : LsaDataPack}
    → IsTopology t related
    → find_in source lsas ≡ some lsa
    → (v : Vertex) × (lookup source (add_lsas lsas t).router_vertices ≡ some v)
unfolding find_in add_lsas
find_in-vertex [] source t related h e = cc
find_in-vertex (first ∷ lsas) source t related {lsa} h e =
    let (h1, keeps, (v, at_v)) = add_lsa-IsTopology first t related h in
    let (_, kept) = add_lsas-IsTopology lsas (add_lsa first t) _ h1 in
    elim (Bool-cases (source == first.router_id)) [
      | inl same ↦
          let is_first : first.router_id ≡ source =
            ground (arith, nat_beq_iff source first.router_id, same) in
          (
            v,
            kept source v
                (subst (λ id. lookup id (add_lsa first t).router_vertices ≡ some v) is_first at_v),
          )
      | inr other ↦
          find_in-vertex lsas source (add_lsa first t) _ {lsa = lsa} h1 (ground (arith, other, e))
    ]

module _ (db : LsaDatabase) (source : ℕ) where
  -- The answer for a router with a vertex.
  known_trees :
      (v : Vertex)
      → lookup source (add_lsas db.adj_lsa no_topology).router_vertices ≡ some v
      → (result : Map ℕ ℕ) × (calculate_min_hop_trees db source ≡ some result)
        × ((root parent : ℕ)
            → lookup root result ≡ some parent
            → IsParent (linked db.adj_lsa) source root parent)
        × ((root : ℕ) → Connected (linked db.adj_lsa) root source → Present root result)
        × DistinctKeys result
  unfolding calculate_min_hop_trees lookup
  known_trees s at_source =
      let t : Topology = add_lsas db.adj_lsa no_topology in
      let (built, _) = add_lsas-IsTopology db.adj_lsa no_topology _ no_topology-IsTopology in
      let h : IsTopology t (linked db.adj_lsa) =
        IsTopology-same t _ _ (λ a b. ground arith) built in
      let (g, result, ends, right, _, all, keys) =
        add_parents-finds t (linked db.adj_lsa) h source s at_source t.vertices t.graph []
          (λ i j. refl) (keys-present t.vertices t.vertices (λ i v found. (v, found))) in
      (
        result,
        rw (calculate_min_hop_trees, at_source) (>>=-some _ ends refl),
        λ root parent found. elim (right root parent found) [
          | inl before ↦ absurd (ground (arith, before))
          | inr good ↦ good
        ],
        λ root path.
            let (v, at_v) = Connected-known t (linked db.adj_lsa) h root source s path at_source in
            let (its_id, at_index) = h.indexed.by_id root v at_v in
            let named : Connected (linked db.adj_lsa) v.router_id source = rw its_id path in
            rw its_id at (all v.index v v at_index at_index named),
        keys tt,
      )

  -- The function ends for every database, with one entry for each root at most.
  pub calculate_min_hop_trees-ends :
      (result : Map ℕ ℕ) × (calculate_min_hop_trees db source ≡ some result) × DistinctKeys result
  unfolding calculate_min_hop_trees
  calculate_min_hop_trees-ends =
      elim (Option-cases (lookup source (add_lsas db.adj_lsa no_topology).router_vertices)) [
        | inl unknown ↦ ([], rw (calculate_min_hop_trees, unknown) refl, tt)
        | inr (v, known) ↦
            let (result, ends, _, _, keys) = known_trees v known in (result, ends, keys)
      ]

-- For a router with an adjacency LSA, calculateMinHopTree of the database ends without a fault. It gives
-- a parent for exactly the roots that point-to-point links connect to the router. The
-- parent is connected to the root as well and has a link with the router, but the router itself may
-- be its own parent on the tree of which it is the root.
pub calculate_min_hop_trees-IsParent :
    (db : LsaDatabase) (source : ℕ) {lsa : LsaDataPack}
    → find_in source db.adj_lsa ≡ some lsa
    → (result : Map ℕ ℕ) × (calculate_min_hop_trees db source ≡ some result)
      × ((root parent : ℕ)
          → lookup root result ≡ some parent
          → IsParent (linked db.adj_lsa) source root parent)
      × ((root : ℕ) → Connected (linked db.adj_lsa) root source → Present root result)
calculate_min_hop_trees-IsParent db source e =
    let (s, at_source) = find_in-vertex db.adj_lsa source no_topology _ no_topology-IsTopology e in
    let (result, ends, right, all, _) = known_trees db source s at_source in
    (result, ends, right, all)
