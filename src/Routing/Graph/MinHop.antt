-- ===== src/Routing/Graph/MinHop.antt =====
-- The nodes of the minimum hop tree are those that the source reaches.
use ndn_based_protocol.Prelude.{
  ◌+◌, ◌≡◌, refl, ℤ, true, ◌||◌, none, some, List, [], ◌∷◌, int_eq, int_beq_iff, ◌==◌, arith,
  length, Option-cases, Bool-cases, inl, inr, ◌⊎◌, ◌∙◌, sym, subst, ◌↔◌,
}
use ndn_based_protocol.Prelude.Map.{Map, lookup, insert, lookup-insert}
use ndn_based_protocol.Routing.Graph.{
  Edge, Graph, edges_of, has_edge, place_edge, sort_edges, sort_graph, all_edges,
  calculate_min_hop_tree,
}
use ndn_based_protocol.Routing.Graph.Tree.{calculate_min_hop_tree-ends}
use ndn_based_protocol.Routing.Graph.Reach.{Reach, start, along, Sound, scan_layers-Sound, Reach-in}
use ndn_based_protocol.Routing.Graph.Cover.{in_tree, Covered, Front, scan_layers-Covered}

has_edge-place_edge :
    (v : ℤ) (e : Edge) (es : List Edge)
    → has_edge v (place_edge e es) ≡ (e.target == v || has_edge v es)
unfolding has_edge place_edge
has_edge-place_edge v e [] = ground arith
has_edge-place_edge v e (f ∷ fs) = ground (arith, has_edge-place_edge v e fs)

has_edge-sort_edges : (v : ℤ) (es : List Edge) → has_edge v (sort_edges es) ≡ has_edge v es
unfolding has_edge sort_edges
has_edge-sort_edges v [] = refl
has_edge-sort_edges v (e ∷ es) =
    has_edge-place_edge v e (sort_edges es) ∙ ground (arith, has_edge-sort_edges v es)

edges_of-sort_graph : (g : Graph) (i : ℤ) → edges_of (sort_graph g) i ≡ sort_edges (edges_of g i)
unfolding edges_of sort_graph sort_edges lookup
edges_of-sort_graph [] i = refl
edges_of-sort_graph (entry ∷ g) i = elim (Bool-cases (entry.0 == i)) [
  | inl here ↦ rw (edges_of, here)
  | inr there ↦ rw (edges_of, there) (edges_of-sort_graph g i)
]

pub has_edge-sort_graph :
    (g : Graph) (a b : ℤ) → has_edge b (edges_of (sort_graph g) a) ≡ has_edge b (edges_of g a)
has_edge-sort_graph g a b = rw (edges_of-sort_graph g a) (has_edge-sort_edges b (edges_of g a))

-- The same reachability in two graphs with the same edges.
Reach-same :
    (g h : Graph) (source : ℤ)
    → ((a b : ℤ) → has_edge b (edges_of g a) ≡ true → has_edge b (edges_of h a) ≡ true)
    → (v : ℤ) → Reach g source v
    → Reach h source v
Reach-same g h source f v start = start
Reach-same g h source f v (along {a} r e) = along (Reach-same g h source f a r) (f a v e)

Reach-in_tree :
    (g : Graph) (source : ℤ) (tree : Map ℤ ℤ)
    → in_tree source tree ≡ true
    → ((v : ℤ) → in_tree v tree ≡ true → Covered g tree v)
    → (v : ℤ) → Reach g source v
    → in_tree v tree ≡ true
Reach-in_tree g source tree h c v start = h
Reach-in_tree g source tree h c v (along {a} r e) = c a (Reach-in_tree g source tree h c a r) v e

pub lookup-in_tree :
    (v : ℤ) (tree : Map ℤ ℤ) → in_tree v tree ≡ true → (p : ℤ) × (lookup v tree ≡ some p)
lookup-in_tree v tree h = elim (Option-cases (lookup v tree)) [
  | inl absent ↦ absurd (ground (arith, absent, h))
  | inr found ↦ found
]

lookup-empty : (v : ℤ) → lookup {V = ℤ} v [] ≡ none
unfolding lookup
lookup-empty v = refl

start-Sound : (g : Graph) (source : ℤ) → Sound g source (insert source source [])
start-Sound g source v p h = elim (Bool-cases (source == v)) [
  | inl same ↦
      let at_v : source ≡ v = (int_beq_iff source v).0 same in
      let is_p : source ≡ p = ground (arith, lookup-insert source v source [], same, h) in
      (subst (Reach g source) is_p start, inl (sym at_v, sym is_p))
  | inr other ↦ absurd (ground (arith, lookup-insert source v source [], other, h, lookup-empty v))
]

start-Front : (g : Graph) (source : ℤ) → Front g (insert source source []) (source ∷ [])
start-Front g source v h = inl (ground (arith, lookup-insert source v source [], lookup-empty v, h))

start-in_tree : (source : ℤ) → in_tree source (insert source source []) ≡ true
start-in_tree source =
    ground (arith, lookup-insert source source source [], int_beq_iff source source)

-- calculateMinHopTree ends with a tree whose nodes are exactly the vertices that the source reaches
-- over directed edges of the graph, also over an edge that has none back, although the comment in Graph.h
-- calls only bidirectional edges valid. The parent of a node is reached as well and has an edge to
-- the node, but that of the source may be the source itself.
pub calculate_min_hop_tree-Reach :
    (g : Graph) (source : ℤ)
    → (tree : Map ℤ ℤ) × ((calculate_min_hop_tree g source).1 ≡ some tree)
      × ((v : ℤ) → (in_tree v tree ≡ true) ↔ Reach g source v)
      × ((v p : ℤ)
          → lookup v tree ≡ some p
          → Reach g source p × (((v ≡ source) × (p ≡ source)) ⊎ (has_edge v (edges_of g p) ≡ true)))
unfolding calculate_min_hop_tree
calculate_min_hop_tree-Reach g source =
    let h : Graph = sort_graph g in
    let begin : Map ℤ ℤ = insert source source [] in
    let (tree, e) = calculate_min_hop_tree-ends g source in
    let sound =
      scan_layers-Sound h source (length (all_edges h) + 2) (source ∷ []) begin
        (start-Sound h source) (start, tt) e in
    let (later, closed) =
      scan_layers-Covered (length (all_edges h) + 2) h (source ∷ []) begin (start-Front h source)
        e in
    let back : (v : ℤ) → Reach h source v → Reach g source v =
      Reach-same h g source (λ a b k. sym (has_edge-sort_graph g a b) ∙ k) in
    (
      tree,
      e,
      λ v. (
        λ k. let (p, at) = lookup-in_tree v tree k in back v (Reach-in h source tree v p sound at),
        λ r.
            Reach-in_tree h source tree (later source (start-in_tree source)) closed v
              (Reach-same g h source (λ a b k. has_edge-sort_graph g a b ∙ k) v r),
      ),
      λ v p at.
          let (r, how) = sound v p at in
          (
            back p r,
            elim how [
              | inl at_source ↦ inl at_source
              | inr edge ↦ inr (sym (has_edge-sort_graph g p v) ∙ edge)
            ],
          ),
    )
