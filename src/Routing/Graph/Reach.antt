-- ===== src/Routing/Graph/Reach.antt =====
-- What calculateMinHopTree adds to the tree is reached from the source, over an edge from its parent.
use ndn_based_protocol.Prelude.{
  ℕ, zero, suc, ◌≡◌, refl, ℤ, true, some, List, [], ◌∷◌, int_eq, int_beq_iff, ◌==◌, arith,
  Option-cases, Bool-cases, inl, inr, ◌⊎◌, All, All-append, ◌∙◌, sym, subst,
}
use ndn_based_protocol.Prelude.Map.{Map, lookup, insert, lookup-insert}
use ndn_based_protocol.Routing.Graph.{
  Edge, Graph, Scan, edges_of, has_edge, visit, visit_edges, visit_layer, scan_layers,
}
use ndn_based_protocol.Routing.Graph.Tree.{Within, Within-self}

-- A path over edges of the graph.
pub data Reach (g : Graph) (source : ℤ) : ℤ → Type 0 where
  start : Reach g source source
  along : {a b : ℤ} → Reach g source a → has_edge b (edges_of g a) ≡ true → Reach g source b

-- Every node of the tree has a parent that the source reaches, and an edge from its parent; or it is
-- the source, with itself as the parent.
abbrev pub Sound : Graph → ℤ → Map ℤ ℤ → Type 0
Sound g source tree =
    (v p : ℤ)
    → lookup v tree ≡ some p
    → Reach g source p × (((v ≡ source) × (p ≡ source)) ⊎ (has_edge v (edges_of g p) ≡ true))

module _ (g : Graph) (source : ℤ) where
  insert-Sound :
      (tree : Map ℤ ℤ) (v p : ℤ)
      → Sound g source tree
      → Reach g source p
      → has_edge v (edges_of g p) ≡ true
      → Sound g source (insert v p tree)
  insert-Sound tree v p s r e w q h = elim (Bool-cases (v == w)) [
    | inl same ↦
        let at_w : v ≡ w = (int_beq_iff v w).0 same in
        let is_p : p ≡ q = ground (arith, lookup-insert v w p tree, same, h) in
        (subst (Reach g source) is_p r, inr (rw (sym at_w, sym is_p) e))
    | inr other ↦ s w q (sym (rw (lookup-insert v w p tree, other) refl) ∙ h)
  ]

  visit-Sound :
      (i : ℤ) (e : Edge) (s : Scan)
      → Sound g source s.tree
      → All (Reach g source) s.next_layer
      → Reach g source i
      → has_edge e.target (edges_of g i) ≡ true
      → Sound g source (visit i e s).tree × All (Reach g source) (visit i e s).next_layer
  unfolding visit
  visit-Sound i e s h n r edge = elim (Option-cases (lookup e.target s.tree)) [
    | inl absent ↦
        rw (visit, absent)
          (
            insert-Sound s.tree e.target i h r edge,
            All-append (Reach g source) s.next_layer (e.target ∷ []) n (along r edge, tt),
          )
    | inr (p, present) ↦ rw (visit, present) (h, n)
  ]

  visit_edges-Sound :
      (i : ℤ) (es : List Edge) (s : Scan)
      → Sound g source s.tree
      → All (Reach g source) s.next_layer
      → Reach g source i
      → Within (edges_of g i) es
      → Sound g source (visit_edges i es s).tree
        × All (Reach g source) (visit_edges i es s).next_layer
  unfolding visit_edges
  visit_edges-Sound i [] s h n r w = (h, n)
  visit_edges-Sound i (e ∷ es) s h n r w =
      let (h', n') = visit-Sound i e s h n r w.0 in visit_edges-Sound i es (visit i e s) h' n' r w.1

  visit_layer-Sound :
      (layer : List ℤ) (s : Scan)
      → Sound g source s.tree
      → All (Reach g source) s.next_layer
      → All (Reach g source) layer
      → Sound g source (visit_layer g layer s).tree
        × All (Reach g source) (visit_layer g layer s).next_layer
  unfolding visit_layer
  visit_layer-Sound [] s h n r = (h, n)
  visit_layer-Sound (i ∷ layer) s h n r =
      let (h', n') = visit_edges-Sound i (edges_of g i) s h n r.0 (Within-self (edges_of g i)) in
      visit_layer-Sound layer (visit_edges i (edges_of g i) s) h' n' r.1

  pub scan_layers-Sound :
      (fuel : ℕ) (layer : List ℤ) (tree : Map ℤ ℤ) {result : Map ℤ ℤ}
      → Sound g source tree
      → All (Reach g source) layer
      → scan_layers fuel g layer tree ≡ some result
      → Sound g source result
  unfolding scan_layers
  scan_layers-Sound zero layer tree h r e = cc
  scan_layers-Sound (suc fuel) [] tree {result} h r e =
      let same : tree ≡ result = ground (arith, e) in subst (Sound g source) same h
  scan_layers-Sound (suc fuel) (i ∷ layer) tree h r e =
      let begin : Scan = record { tree = tree; next_layer = [] } in
      let s : Scan = visit_layer g (i ∷ layer) begin in
      let (h', n') = visit_layer-Sound (i ∷ layer) begin h tt r in
      scan_layers-Sound fuel s.next_layer s.tree h' n' e

  -- What a node of the tree has: the node is reached.
  pub Reach-in :
      (tree : Map ℤ ℤ) (v p : ℤ) → Sound g source tree → lookup v tree ≡ some p → Reach g source v
  Reach-in tree v p h e =
      let (r, how) = h v p e in
      elim how [ inl at_source ↦ rw at_source.0 start | inr edge ↦ along r edge ]
