-- ===== src/Routing/Graph/Tree.antt =====
-- calculateMinHopTree ends with a tree, whose nodes are reached over edges of the graph.
use ndn_based_protocol.Prelude.{
  Bool-cases, ℕ, zero, suc, ◌+◌, ◌≤◌, ◌<◌, ◌≡◌, refl, ℤ, true, ◌||◌, none, some, List, [], ◌∷◌,
  ◌++◌, int_eq, int_beq_iff, ◌==◌, arith, length, length-append, Option-cases, inl, inr, All,
}
use ndn_based_protocol.Prelude.Map.{Map, lookup, insert, lookup-insert}
use ndn_based_protocol.Routing.Graph.{
  Edge, Graph, Scan, edges_of, has_edge, sort_graph, visit, visit_edges, visit_layer, scan_layers,
  all_edges, calculate_min_hop_tree,
}

-- How many of these edges lead to a node that the tree has not.
abbrev unvisited : Map ℤ ℤ → List Edge → ℕ
unvisited tree [] = 0
unvisited tree (e ∷ es) =
    let rest = unvisited tree es in elim (lookup e.target tree) [ none ↦ suc rest | some p ↦ rest ]

unvisited-le : (tree : Map ℤ ℤ) (es : List Edge) → unvisited tree es ≤ length es
unvisited-le tree [] = omega arith
unvisited-le tree (e ∷ es) = ground (arith, unvisited-le tree es)

unvisited-insert :
    (v p : ℤ) (tree : Map ℤ ℤ) (es : List Edge)
    → lookup v tree ≡ none
    → (unvisited (insert v p tree) es ≤ unvisited tree es)
      × (has_edge v es ≡ true → unvisited (insert v p tree) es < unvisited tree es)
unfolding has_edge
unvisited-insert v p tree [] h = (omega arith, λ k. ground arith)
unvisited-insert v p tree (e ∷ es) h =
    let (le, lt) = unvisited-insert v p tree es h in
    let new = lookup-insert v e.target p tree in
    (
      ground (arith, new, int_beq_iff v e.target, le, h),
      λ k. ground (arith, new, int_beq_iff v e.target, le, lt, h, k),
    )

-- Every edge of the list leads where some edge of `every` leads.
abbrev pub Within : List Edge → List Edge → Type 0
Within every es = All (λ (e : Edge). has_edge e.target every ≡ true) es

visit-unvisited :
    (i : ℤ) (e : Edge) (every : List Edge) (s : Scan)
    → has_edge e.target every ≡ true
    → unvisited (visit i e s).tree every + length (visit i e s).next_layer
      ≤ unvisited s.tree every + length s.next_layer
unfolding visit
visit-unvisited i e every s h = elim (Option-cases (lookup e.target s.tree)) [
  | inl absent ↦
      rw (visit, absent)
        (omega (
          arith,
          (unvisited-insert e.target i s.tree every absent).1 h,
          length-append s.next_layer (e.target ∷ []),
        ))
  | inr (p, present) ↦ rw (visit, present) (omega arith)
]

visit_edges-unvisited :
    (i : ℤ) (es every : List Edge) (s : Scan)
    → Within every es
    → unvisited (visit_edges i es s).tree every + length (visit_edges i es s).next_layer
      ≤ unvisited s.tree every + length s.next_layer
unfolding visit_edges
visit_edges-unvisited i [] every s w = omega arith
visit_edges-unvisited i (e ∷ es) every s w =
    omega
      (arith, visit-unvisited i e every s w.0, visit_edges-unvisited i es every (visit i e s) w.1)

visit_layer-unvisited :
    (g : Graph) (layer : List ℤ) (every : List Edge) (s : Scan)
    → ((i : ℤ) → Within every (edges_of g i))
    → unvisited (visit_layer g layer s).tree every + length (visit_layer g layer s).next_layer
      ≤ unvisited s.tree every + length s.next_layer
unfolding visit_layer
visit_layer-unvisited g [] every s w = omega arith
visit_layer-unvisited g (i ∷ layer) every s w = omega (
  arith,
  visit_edges-unvisited i (edges_of g i) every s (w i),
  visit_layer-unvisited g layer every (visit_edges i (edges_of g i) s) w,
)

-- 1 where there is a layer to scan.
abbrev pending : List ℤ → ℕ
pending [] = 0
pending (i ∷ layer) = 1

scan_layers-ends :
    (fuel : ℕ) (g : Graph) (layer : List ℤ) (tree : Map ℤ ℤ) (every : List Edge)
    → ((i : ℤ) → Within every (edges_of g i))
    → unvisited tree every + pending layer < fuel
    → (result : Map ℤ ℤ) × (scan_layers fuel g layer tree ≡ some result)
unfolding scan_layers
scan_layers-ends zero g layer tree every w h = absurd (omega arith)
scan_layers-ends (suc fuel) g [] tree every w h = (tree, refl)
scan_layers-ends (suc fuel) g (i ∷ layer) tree every w h =
    let start : Scan = record { tree = tree; next_layer = [] } in
    let s : Scan = visit_layer g (i ∷ layer) start in
    let less = visit_layer-unvisited g (i ∷ layer) every start w in
    scan_layers-ends fuel g s.next_layer s.tree every w
      (omega (arith, less, pending-le s.next_layer))
  where
    pending-le : (xs : List ℤ) → pending xs ≤ length xs
    pending-le [] = omega arith
    pending-le (x ∷ xs) = omega arith

has_edge-append :
    (v : ℤ) (xs ys : List Edge) → has_edge v (xs ++ ys) ≡ (has_edge v xs || has_edge v ys)
unfolding has_edge
has_edge-append v [] ys = refl
has_edge-append v (x ∷ xs) ys = ground (arith, has_edge-append v xs ys)

pub Within-weaken :
    (every more es : List Edge)
    → ((v : ℤ) → has_edge v every ≡ true → has_edge v more ≡ true)
    → Within every es
    → Within more es
Within-weaken every more [] f w = tt
Within-weaken every more (e ∷ es) f w = (f e.target w.0, Within-weaken every more es f w.1)

pub Within-self : (es : List Edge) → Within es es
unfolding has_edge
Within-self [] = tt
Within-self (e ∷ es) = (
  ground (arith, int_beq_iff e.target e.target),
  Within-weaken es (e ∷ es) es (λ v h. ground arith) (Within-self es),
)

Within-all_edges : (g : Graph) (i : ℤ) → Within (all_edges g) (edges_of g i)
unfolding edges_of all_edges lookup
Within-all_edges [] i = tt
Within-all_edges (entry ∷ g) i = elim (Bool-cases (entry.0 == i)) [
  | inl here ↦
      rw (edges_of, here)
        (Within-weaken entry.1 (entry.1 ++ all_edges g) entry.1
          (λ v h. rw (has_edge-append v entry.1 (all_edges g)) (ground arith))
          (Within-self entry.1))
  | inr there ↦
      rw (edges_of, there)
        (Within-weaken (all_edges g) (entry.1 ++ all_edges g) (edges_of g i)
          (λ v h. rw (has_edge-append v entry.1 (all_edges g)) (ground arith))
          (Within-all_edges g i))
]

-- calculateMinHopTree ends with a tree on every graph and from every source.
pub calculate_min_hop_tree-ends :
    (g : Graph) (source : ℤ) → (tree : Map ℤ ℤ) × ((calculate_min_hop_tree g source).1 ≡ some tree)
unfolding calculate_min_hop_tree
calculate_min_hop_tree-ends g source =
    let every : List Edge = all_edges (sort_graph g) in
    let tree : Map ℤ ℤ = insert source source [] in
    scan_layers-ends (length every + 2) (sort_graph g) (source ∷ []) tree every
      (Within-all_edges (sort_graph g)) (omega (arith, unvisited-le tree every))
