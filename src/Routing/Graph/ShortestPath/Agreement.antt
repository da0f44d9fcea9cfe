-- ===== src/Routing/Graph/ShortestPath/Agreement.antt =====
-- Where calculateShortestPath agrees with the one whose sums do not wrap around.
use ndn_based_protocol.Prelude.{
  ℕ, zero, suc, ◌+◌, ◌*◌, ◌^◌, ◌<◌, ◌≤◌, ◌≡◌, refl, ℤ, pos, negsuc, false, List, [], ◌∷◌, All,
  int_eq, is_negative, arith, Option-cases, inl, inr, ap, sym, subst, ◌∙◌,
}
use ndn_based_protocol.Prelude.Map.{Map, lookup, insert}
use ndn_based_protocol.Routing.Graph.{Edge, Graph, edges_of, add_vertex}
use ndn_based_protocol.Routing.Graph.Edges.{edges_of-add_vertex}
use ndn_based_protocol.Routing.Graph.ShortestPath.{
  Route, exact_add, int_add, take_least, new_edge, push_all, expand, search,
}
use ndn_based_protocol.Routing.Graph.ShortestPath.Exact.{
  exact_edge, exact_push_all, exact_expand, exact_search,
}
use ndn_based_protocol.Routing.Graph.ShortestPath.Queue.{value, All-take_least}
use ndn_based_protocol.Routing.Graph.ShortestPath.Fuel.{expand-same}

-- Costs that are not negative and at most the bound.
abbrev pub Costs : ℕ → List Edge → Type 0
Costs bound es = All (λ (e : Edge). (is_negative e.cost ≡ false) × (value e.cost ≤ bound)) es

int_add-exact :
    (a b : ℤ)
    → is_negative a ≡ false
    → is_negative b ≡ false
    → value a + value b < 2 ^ 31
    → int_add a b ≡ exact_add a b
int_add-exact (pos a) (pos b) p q small = ground arith
int_add-exact (pos a) (negsuc b) p q small = cc
int_add-exact (negsuc a) (pos b) p q small = cc
int_add-exact (negsuc a) (negsuc b) p q small = cc

exact_add-Cost :
    (a b : ℤ)
    → is_negative a ≡ false
    → is_negative b ≡ false
    → (is_negative (exact_add a b) ≡ false) × (value (exact_add a b) ≡ value a + value b)
exact_add-Cost (pos a) (pos b) p q = (refl, refl)
exact_add-Cost (pos a) (negsuc b) p q = cc
exact_add-Cost (negsuc a) (pos b) p q = cc
exact_add-Cost (negsuc a) (negsuc b) p q = cc

Costs-weaken : (m k : ℕ) (es : List Edge) → m ≤ k → Costs m es → Costs k es
Costs-weaken m k [] le all = tt
Costs-weaken m k (e ∷ es) le all = ((all.0.0, omega (arith, all.0.1)), Costs-weaken m k es le all.1)

module _ (source : ℤ) (m limit : ℕ) (small : m + limit < 2 ^ 31) (e : Edge)
    (natural : is_negative e.cost ≡ false) (below : value e.cost ≤ m) where
  new_edge-exact :
      (i : Edge)
      → is_negative i.cost ≡ false
      → value i.cost ≤ limit
      → new_edge source e i ≡ exact_edge source e i
  unfolding new_edge exact_edge
  new_edge-exact i p le =
      let sum : int_add i.cost e.cost ≡ exact_add i.cost e.cost =
        int_add-exact i.cost e.cost p natural (omega arith) in
      ap (λ (c : ℤ). record (exact_edge source e i) { cost = c }) sum

  exact_edge-Cost :
      (i : Edge)
      → is_negative i.cost ≡ false
      → value i.cost ≤ limit
      → (is_negative (exact_edge source e i).cost ≡ false)
        × (value (exact_edge source e i).cost ≤ m + limit)
  unfolding exact_edge
  exact_edge-Cost i p le =
      let (q, sum) = exact_add-Cost i.cost e.cost p natural in (q, omega (arith, sum))

  push_all-exact :
      (edges queue : List Edge)
      → Costs limit edges
      → Costs (m + limit) queue
      → (push_all source e edges queue ≡ exact_push_all source e edges queue)
        × Costs (m + limit) (push_all source e edges queue)
  unfolding push_all exact_push_all
  push_all-exact [] queue all costs = (refl, costs)
  push_all-exact (i ∷ edges) queue all costs =
      let same = new_edge-exact i all.0.0 all.0.1 in
      let cost = exact_edge-Cost i all.0.0 all.0.1 in
      let (rest, kept) = push_all-exact edges (exact_edge source e i ∷ queue) all.1 (cost, costs) in
      rw same (rest, kept)

-- A round agrees, and adds at most the dearest edge to the costs of the queue.
expand-exact :
    (g h : Graph) (source : ℤ) (m limit : ℕ) (e : Edge) (queue : List Edge) (result : Map ℤ Route)
    → m + limit < 2 ^ 31
    → ((v : ℤ) → Costs limit (edges_of g v))
    → ((v : ℤ) → edges_of h v ≡ edges_of g v)
    → (is_negative e.cost ≡ false) × (value e.cost ≤ m)
    → Costs m queue
    → (expand source e queue h result ≡ exact_expand source e queue h result)
      × Costs (m + limit) (expand source e queue h result).1
unfolding expand exact_expand
expand-exact g h source m limit e queue result small costs same cost all =
    let wider = Costs-weaken m (m + limit) queue (omega arith) all in
    elim (Option-cases (lookup e.target result)) [
      | inr (route, present) ↦ rw (expand, exact_expand, present) (refl, wider)
      | inl absent ↦
          let edges : List Edge = edges_of (add_vertex h e.target) e.target in
          let bounded : Costs limit edges =
            subst (Costs limit) (sym (edges_of-add_vertex h e.target e.target ∙ same e.target))
              (costs e.target) in
          let (pushed, kept) =
            push_all-exact source m limit small e cost.0 cost.1 edges queue bounded wider in
          rw (expand, exact_expand, absent)
            (
              ap
                  (λ (q : List Edge). (
                    add_vertex h e.target,
                    q,
                    insert e.target
                        (record {
                          next_hop = e.next_hop;
                          nextnext_hop = e.nextnext_hop;
                          cost = e.cost;
                        })
                        result,
                  ))
                  pushed,
              kept,
            )
    ]

-- The loop agrees where the costs in the queue and those of an edge for each round left fit an `int`.
pub search-exact :
    (fuel : ℕ) (g h : Graph) (source : ℤ) (m limit : ℕ) (queue : List Edge) (result : Map ℤ Route)
    → m + fuel * limit < 2 ^ 31
    → ((v : ℤ) → Costs limit (edges_of g v))
    → ((v : ℤ) → edges_of h v ≡ edges_of g v)
    → Costs m queue
    → search fuel source h queue result ≡ exact_search fuel source h queue result
unfolding search exact_search
search-exact zero g h source m limit queue result small costs same all = refl
search-exact (suc fuel) g h source m limit [] result small costs same all = refl
search-exact (suc fuel) g h source m limit (first ∷ others) result small costs same all =
    let e : Edge = (take_least first others).0 in
    let queue : List Edge = (take_least first others).1 in
    let (cost, left) =
      All-take_least (λ (x : Edge). (is_negative x.cost ≡ false) × (value x.cost ≤ m)) first others
        all.0 all.1 in
    let (round, kept) =
      expand-exact g h source m limit e queue result (omega arith) costs same cost left in
    let next = expand source e queue h result in
    search-exact fuel g next.0 source (m + limit) limit next.1 next.2 (omega arith) costs
      (expand-same g h source e queue result same) kept
    ∙ ap (λ (n : Graph × List Edge × Map ℤ Route). exact_search fuel source n.0 n.1 n.2) round
