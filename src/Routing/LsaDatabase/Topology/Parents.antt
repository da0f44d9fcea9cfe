-- ===== src/Routing/LsaDatabase/Topology/Parents.antt =====
-- The parents that LsaDatabase::calculateMinHopTree finds, in terms of the links of the LSAs.
use ndn_based_protocol.Prelude.{
  ◌≡◌, refl, ℕ, ℤ, Bool, true, some, int_eq, int_beq_iff, nat_eq, nat_beq_iff, ◌==◌, arith,
  Option-cases, Bool-cases, inl, inr, ◌⊎◌, ◌∙◌, sym, ap, subst, [], ◌∷◌, All, >>=-some,
}
use ndn_based_protocol.Prelude.Map.{
  Map, lookup, insert, lookup-insert, DistinctKeys, insert-DistinctKeys,
}
use ndn_based_protocol.Routing.Graph.{Graph, edges_of, has_edge, sort_graph, calculate_min_hop_tree}
use ndn_based_protocol.Routing.Graph.Reach.{Reach, start, along}
use ndn_based_protocol.Routing.Graph.Cover.{in_tree}
use ndn_based_protocol.Routing.Graph.MinHop.{calculate_min_hop_tree-Reach, has_edge-sort_graph}
use ndn_based_protocol.Routing.LsaDatabase.Topology.{
  Vertex, Topology, router_at, add_parent, add_parents,
}
use ndn_based_protocol.Routing.LsaDatabase.Topology.Linked.{IsTopology}

-- A path of routers, each related to the next.
pub data Connected (related : ℕ → ℕ → Bool) (root : ℕ) : ℕ → Type 0 where
  at_root : Connected related root root
  onward : {a b : ℕ} → Connected related root a → related a b ≡ true → Connected related root b

-- What holds of the parent of `source` on the tree of a root.
abbrev pub IsParent : (ℕ → ℕ → Bool) → ℕ → ℕ → ℕ → Type 0
IsParent related source root parent =
    Connected related root source
    × Connected related root parent
    × (((root ≡ source) × (parent ≡ source)) ⊎ (related parent source ≡ true))

abbrev pub Present : ℕ → Map ℕ ℕ → Type 0
Present root result = (parent : ℕ) × (lookup root result ≡ some parent)

abbrev SameEdges : Graph → Graph → Type 0
SameEdges g h = (i j : ℤ) → has_edge j (edges_of g i) ≡ has_edge j (edges_of h i)

module _ (t : Topology) (related : ℕ → ℕ → Bool) (h : IsTopology t related) where
  -- A path of the graph is a path of routers.
  Reach-Connected :
      (g : Graph) (i : ℤ) (v : Vertex)
      → SameEdges g t.graph
      → lookup i t.vertices ≡ some v
      → {j : ℤ} → Reach g i j
      → (w : Vertex) × (lookup j t.vertices ≡ some w) × Connected related v.router_id w.router_id
  Reach-Connected g i v same at_i start = (v, at_i, at_root)
  Reach-Connected g i v same at_i (along {a} {b} r e) =
      let (w, at_a, path) = Reach-Connected g i v same at_i r in
      let (w', x, at_a', at_b, link) = h.sound a b (sym (same a b) ∙ e) in
      let one : w' ≡ w = ground (arith, at_a, at_a') in (x, at_b, onward path (rw one at link))

  Connected-Reach :
      (g : Graph) (root : ℕ) (v : Vertex)
      → SameEdges g t.graph
      → lookup root t.router_vertices ≡ some v
      → {c : ℕ} → Connected related root c
      → (w : Vertex) × (lookup c t.router_vertices ≡ some w) × Reach g v.index w.index
  Connected-Reach g root v same at_v at_root = (v, at_v, start)
  Connected-Reach g root v same at_v (onward {a} {b} path link) =
      let (w, at_a, r) = Connected-Reach g root v same at_v path in
      let (w', x, at_a', at_b, edge) = h.complete a b link in
      let one : w' ≡ w = ground (arith, at_a, at_a') in
      (x, at_b, along r (same w.index x.index ∙ (rw one at edge)))

  -- Who is connected to a router with a vertex has a vertex.
  pub Connected-known :
      (root c : ℕ) (w : Vertex)
      → Connected related root c
      → lookup c t.router_vertices ≡ some w
      → (v : Vertex) × (lookup root t.router_vertices ≡ some v)
  Connected-known root c w at_root at_c = (w, at_c)
  Connected-known root c w (onward {a} path link) at_c =
      let (w', x, at_a, at_b, edge) = h.complete a c link in Connected-known root a w' path at_a

  module _ (source : ℕ) (s : Vertex) (at_source : lookup source t.router_vertices ≡ some s) where
    -- A map of parents after a tree: its entries are right or old, none is lost, and that of the
    -- root is there, if the root is connected to the source.
    Extends : ℕ → Map ℕ ℕ → Map ℕ ℕ → Type 0
    Extends root before after =
        ((r p : ℕ)
          → lookup r after ≡ some p
          → (lookup r before ≡ some p) ⊎ IsParent related source r p)
        × ((r : ℕ) → Present r before → Present r after)
        × (Connected related root source → Present root after)
        × (DistinctKeys before → DistinctKeys after)

    insert-Extends :
        (root parent : ℕ) (before : Map ℕ ℕ)
        → IsParent related source root parent
        → Extends root before (insert root parent before)
    unfolding Extends
    insert-Extends root parent before good =
        let at_r = λ (r : ℕ). lookup-insert root r parent before in
        (
          λ r p e. elim (Bool-cases (root == r)) [
            | inl same ↦
                let is_root : root ≡ r = (nat_beq_iff root r).0 same in
                let is_parent : parent ≡ p = ground (arith, at_r r, same, e) in
                inr (
                  subst (λ x. IsParent related source x p) is_root
                    (subst (IsParent related source root) is_parent good))
            | inr other ↦ inl (ground (arith, at_r r, other, e))
          ],
          λ r (p, e). elim (Bool-cases (root == r)) [
            | inl same ↦ (parent, ground (arith, at_r r, same))
            | inr other ↦ (p, ground (arith, at_r r, other, e))
          ],
          λ path. (parent, ground (arith, at_r root, nat_beq_iff root root)),
          insert-DistinctKeys root parent before,
        )

    router_at-some :
        (i : ℤ) (v : Vertex)
        → lookup i t.vertices ≡ some v
        → router_at t.vertices i ≡ some v.router_id
    unfolding router_at
    router_at-some i v e = rw e

    add_parent-Extends :
        (g : Graph) (result : Map ℕ ℕ) (i : ℤ) (v : Vertex)
        → SameEdges g t.graph
        → lookup i t.vertices ≡ some v
        → (g' : Graph) × (result' : Map ℕ ℕ) × (add_parent t.vertices s.index i (g, result)
            ≡ some (g', result'))
          × SameEdges g' t.graph
          × Extends v.router_id result result'
    unfolding add_parent calculate_min_hop_tree Extends
    add_parent-Extends g result i v same at_i =
        let (tree, ends, nodes, parents) = calculate_min_hop_tree-Reach g i in
        let (v_index, v_id) = h.indexed.by_index i v at_i in
        let (s_id, s_index) = h.indexed.by_id source s at_source in
        let same' : SameEdges (sort_graph g) t.graph =
          λ a b. has_edge-sort_graph g a b ∙ same a b in
        elim (Option-cases (lookup s.index tree)) [
          | inl absent ↦ (
            sort_graph g,
            result,
            >>=-some _ ends (rw absent),
            same',
            (
              λ r p e. inl e,
              λ r present. present,
              λ path.
                  let (w, at_w, reach) = Connected-Reach g v.router_id v same v_id path in
                  let one : w ≡ s = ground (arith, at_w, at_source) in
                  let inside : in_tree s.index tree ≡ true = (nodes s.index).1 (
                    subst (λ x. Reach g x s.index) v_index
                      (subst (λ (x : Vertex). Reach g v.index x.index) one reach)) in
                  absurd (ground (arith, absent, inside)),
              λ d. d,
            ),
          )
          | inr (q, found) ↦
              let (to_parent, how) = parents s.index q found in
              let (w, at_q, path) = Reach-Connected g i v same at_i to_parent in
              let (w', at_s, to_source) =
                Reach-Connected g i v same at_i ((nodes s.index).0 (ground (arith, found))) in
              let one : w' ≡ s = ground (arith, at_s, s_index) in
              let source_path : Connected related v.router_id source =
                subst (Connected related v.router_id) s_id (
                  subst (λ (x : Vertex). Connected related v.router_id x.router_id) one
                    to_source) in
              let good : IsParent related source v.router_id w.router_id = (
                source_path,
                path,
                elim how [
                  | inl (is_source, is_root) ↦
                      let v_is : v ≡ s = ground (arith, at_i, is_source, s_index) in
                      let w_is : w ≡ s = ground (arith, at_q, is_root, at_i, is_source, s_index) in
                      inl (
                        ap (λ (x : Vertex). x.router_id) v_is ∙ s_id,
                        ap (λ (x : Vertex). x.router_id) w_is ∙ s_id,
                      )
                  | inr edge ↦
                      let (x, y, at_q', at_s', link) =
                        h.sound q s.index (sym (same q s.index) ∙ edge) in
                      let x_is : x ≡ w = ground (arith, at_q', at_q) in
                      let y_is : y ≡ s = ground (arith, at_s', s_index) in
                      inr (
                        subst (λ a. related w.router_id a ≡ true) s_id
                          (subst (λ (a : Vertex). related w.router_id a.router_id ≡ true) y_is
                            (subst (λ (a : Vertex). related a.router_id y.router_id ≡ true) x_is
                              link)))
                ],
              ) in
              (
                sort_graph g,
                insert v.router_id w.router_id result,
                >>=-some _ ends (
                    rw found (
                      >>=-some _ (router_at-some i v at_i)
                        (>>=-some _ (router_at-some q w at_q) refl))),
                same',
                insert-Extends v.router_id w.router_id result good,
              )
        ]

    -- The loop over the vertices that are left.
    pub add_parents-finds :
        (left : Map ℤ Vertex) (g : Graph) (result : Map ℕ ℕ)
        → SameEdges g t.graph
        → All (λ (entry : ℤ × Vertex). (v : Vertex) × (lookup entry.0 t.vertices ≡ some v)) left
        → (g' : Graph) × (result' : Map ℕ ℕ) × (add_parents t.vertices s.index left (g, result)
            ≡ some (g', result'))
          × ((r p : ℕ)
              → lookup r result' ≡ some p
              → (lookup r result ≡ some p) ⊎ IsParent related source r p)
          × ((r : ℕ) → Present r result → Present r result')
          × ((i : ℤ) (v v' : Vertex)
              → lookup i left ≡ some v'
              → lookup i t.vertices ≡ some v
              → Connected related v.router_id source
              → Present v.router_id result')
          × (DistinctKeys result → DistinctKeys result')
    unfolding add_parents lookup Extends
    add_parents-finds [] g result same all =
        (g, result, refl, λ r p e. inl e, λ r e. e, λ i v v' e. absurd (ground (arith, e)), λ d. d)
    add_parents-finds (entry ∷ left) g result same all =
        let (v, at_entry) = all.0 in
        let (g1, result1, e1, same1, (right1, kept1, new1, keys1)) =
          add_parent-Extends g result entry.0 v same at_entry in
        let (g2, result2, e2, right2, kept2, new2, keys2) =
          add_parents-finds left g1 result1 same1 all.1 in
        (
          g2,
          result2,
          >>=-some _ e1 e2,
          λ r p e. elim (right2 r p e) [ inl before ↦ right1 r p before | inr good ↦ inr good ],
          λ r e. kept2 r (kept1 r e),
          λ i w w' here at_i path. elim (Bool-cases (entry.0 == i)) [
            | inl same_index ↦
                let is_i : entry.0 ≡ i = (int_beq_iff entry.0 i).0 same_index in
                let one : w ≡ v = ground (arith, at_i, at_entry, is_i) in
                kept2 w.router_id (
                  subst (λ (x : Vertex). Present x.router_id result1) (sym one)
                    (new1 (subst (λ (x : Vertex). Connected related x.router_id source) one path)))
            | inr other ↦ new2 i w w' (ground (arith, other, here)) at_i path
          ],
          λ d. keys2 (keys1 d),
        )
