-- ===== src/Routing/Graph/Cover.antt =====
-- calculateMinHopTree ends only when every target of every node of the tree is in the tree.
use ndn_based_protocol.Prelude.{
  ℕ, zero, suc, ◌≡◌, refl, ℤ, Bool, true, false, ◌||◌, none, some, List, [], ◌∷◌, ◌++◌, int_eq,
  int_beq_iff, ◌==◌, arith, Option-cases, Bool-cases, inl, inr, ◌⊎◌, subst,
}
use ndn_based_protocol.Prelude.Map.{Map, lookup, lookup-insert}
use ndn_based_protocol.Routing.Graph.{
  Edge, Graph, Scan, edges_of, has_edge, visit, visit_edges, visit_layer, scan_layers,
}

abbrev pub in_tree : ℤ → Map ℤ ℤ → Bool
in_tree v tree = elim (lookup v tree) [ none ↦ false | some p ↦ true ]

abbrev member : ℤ → List ℤ → Bool
member v [] = false
member v (w ∷ ws) = w == v || member v ws

member-append : (v : ℤ) (xs ys : List ℤ) → member v (xs ++ ys) ≡ (member v xs || member v ys)
member-append v [] ys = refl
member-append v (x ∷ xs) ys = ground (arith, member-append v xs ys)

-- After a visit, the target is in the tree, and nothing is in the tree that was not but the target,
-- which then is in the next layer.
visit-in_tree :
    (i v : ℤ) (e : Edge) (s : Scan)
    → (in_tree v (visit i e s).tree ≡ (e.target == v || in_tree v s.tree))
      × (in_tree v (visit i e s).tree ≡ true
          → (in_tree v s.tree || member v (visit i e s).next_layer) ≡ true)
      × (member v s.next_layer ≡ true → member v (visit i e s).next_layer ≡ true)
unfolding visit
visit-in_tree i v e s = elim (Option-cases (lookup e.target s.tree)) [
  | inl absent ↦
      let new = lookup-insert e.target v i s.tree in
      let next = member-append v s.next_layer (e.target ∷ []) in
      rw (visit, absent)
        (ground (arith, new), λ h. ground (arith, new, next, h), λ h. ground (arith, next, h))
  | inr (p, present) ↦
      rw (visit, present)
        (ground (arith, present, int_beq_iff e.target v), λ h. ground (arith, h), λ h. h)
]

-- Some vertex of the layer has an edge to the node.
abbrev leads : Graph → List ℤ → ℤ → Bool
leads g [] v = false
leads g (i ∷ layer) v = has_edge v (edges_of g i) || leads g layer v

visit_edges-in_tree :
    (i v : ℤ) (es : List Edge) (s : Scan)
    → (in_tree v (visit_edges i es s).tree ≡ (has_edge v es || in_tree v s.tree))
      × (in_tree v (visit_edges i es s).tree ≡ true
          → (in_tree v s.tree || member v (visit_edges i es s).next_layer) ≡ true)
      × (member v s.next_layer ≡ true → member v (visit_edges i es s).next_layer ≡ true)
unfolding visit_edges has_edge
visit_edges-in_tree i v [] s = (refl, λ h. ground (arith, h), λ h. h)
visit_edges-in_tree i v (e ∷ es) s =
    let (in1, new1, keep1) = visit-in_tree i v e s in
    let (in2, new2, keep2) = visit_edges-in_tree i v es (visit i e s) in
    (ground (arith, in1, in2), λ h. ground (arith, new1, new2, keep2, h), λ h. keep2 (keep1 h))

visit_layer-in_tree :
    (g : Graph) (layer : List ℤ) (v : ℤ) (s : Scan)
    → (in_tree v (visit_layer g layer s).tree ≡ (leads g layer v || in_tree v s.tree))
      × (in_tree v (visit_layer g layer s).tree ≡ true
          → (in_tree v s.tree || member v (visit_layer g layer s).next_layer) ≡ true)
      × (member v s.next_layer ≡ true → member v (visit_layer g layer s).next_layer ≡ true)
unfolding visit_layer
visit_layer-in_tree g [] v s = (refl, λ h. ground (arith, h), λ h. h)
visit_layer-in_tree g (i ∷ layer) v s =
    let (in1, new1, keep1) = visit_edges-in_tree i v (edges_of g i) s in
    let (in2, new2, keep2) = visit_layer-in_tree g layer v (visit_edges i (edges_of g i) s) in
    (ground (arith, in1, in2), λ h. ground (arith, new1, new2, keep2, h), λ h. keep2 (keep1 h))

-- Every target of the node is in the tree.
abbrev pub Covered : Graph → Map ℤ ℤ → ℤ → Type 0
Covered g tree v = (b : ℤ) → has_edge b (edges_of g v) ≡ true → in_tree b tree ≡ true

-- What is in the tree is still to be scanned, or is covered.
abbrev pub Front : Graph → Map ℤ ℤ → List ℤ → Type 0
Front g tree layer = (v : ℤ) → in_tree v tree ≡ true → (member v layer ≡ true) ⊎ Covered g tree v

leads-member :
    (g : Graph) (layer : List ℤ) (v b : ℤ)
    → member v layer ≡ true
    → has_edge b (edges_of g v) ≡ true
    → leads g layer b ≡ true
leads-member g [] v b m h = cc
leads-member g (i ∷ layer) v b m h = elim (Bool-cases (i == v)) [
  | inl same ↦ rw ((int_beq_iff i v).0 same, h)
  | inr other ↦ ground (arith, leads-member g layer v b, m, h, other)
]

pub scan_layers-Covered :
    (fuel : ℕ) (g : Graph) (layer : List ℤ) (tree : Map ℤ ℤ) {result : Map ℤ ℤ}
    → Front g tree layer
    → scan_layers fuel g layer tree ≡ some result
    → ((v : ℤ) → in_tree v tree ≡ true → in_tree v result ≡ true)
      × ((v : ℤ) → in_tree v result ≡ true → Covered g result v)
unfolding scan_layers
scan_layers-Covered zero g layer tree f e = cc
scan_layers-Covered (suc fuel) g [] tree {result} f e =
    let same : tree ≡ result = ground (arith, e) in
    subst
      (λ (t : Map ℤ ℤ).
        ((v : ℤ) → in_tree v tree ≡ true → in_tree v t ≡ true)
        × ((v : ℤ) → in_tree v t ≡ true → Covered g t v))
      same (λ v h. h, λ v h. elim (f v h) [ inl m ↦ cc | inr c ↦ c ])
scan_layers-Covered (suc fuel) g (i ∷ layer) tree {result} f e =
    let begin : Scan = record { tree = tree; next_layer = [] } in
    let s : Scan = visit_layer g (i ∷ layer) begin in
    let grows : (v : ℤ) → in_tree v tree ≡ true → in_tree v s.tree ≡ true =
      λ v h. ground (arith, (visit_layer-in_tree g (i ∷ layer) v begin).0, h) in
    let front : Front g s.tree s.next_layer = λ v h. elim (Bool-cases (member v s.next_layer)) [
      | inl next ↦ inl next
      | inr not_next ↦
          let before : in_tree v tree ≡ true =
            ground (arith, (visit_layer-in_tree g (i ∷ layer) v begin).1 h, not_next) in
          inr (elim (f v before) [
            | inl scanned ↦ λ b edge. ground (
              arith,
              (visit_layer-in_tree g (i ∷ layer) b begin).0,
              leads-member g (i ∷ layer) v b scanned edge,
            )
            | inr covered ↦ λ b edge. grows b (covered b edge)
          ])
    ] in
    let (later, closed) = scan_layers-Covered fuel g s.next_layer s.tree front e in
    (λ v h. later v (grows v h), closed)
