-- ===== src/Routing/Graph/ShortestPath/Exact.antt =====
-- calculateShortestPath with sums that do not wrap around, for comparison.
use ndn_based_protocol.Prelude.{
  ℕ, zero, suc, ℤ, Option, none, some, List, [], ◌∷◌, int_eq, ◌==◌, if◌then◌else◌,
}
use ndn_based_protocol.Prelude.Map.{Map, lookup, insert}
use ndn_based_protocol.Routing.Graph.{Edge, Graph, edges_of, add_vertex}
use ndn_based_protocol.Routing.Graph.ShortestPath.{Route, exact_add, take_least}

unfoldable pub exact_edge : ℤ → Edge → Edge → Edge
exact_edge source e i = record {
  source = source;
  target = i.target;
  cost = exact_add i.cost e.cost;
  next_hop = if e.target == source then i.target else e.next_hop;
  nextnext_hop =
      if e.target == source
      then i.target
      else if e.next_hop == e.target
      then i.target
      else e.nextnext_hop;
}

unfoldable pub exact_push_all : ℤ → Edge → List Edge → List Edge → List Edge
exact_push_all source e [] queue = queue
exact_push_all source e (i ∷ edges) queue =
    exact_push_all source e edges (exact_edge source e i ∷ queue)

unfoldable pub exact_expand :
    ℤ → Edge → List Edge → Graph → Map ℤ Route → Graph × List Edge × Map ℤ Route
exact_expand source e queue g result = elim (lookup e.target result) [
  | none ↦
      let grown = add_vertex g e.target in
      (
        grown,
        exact_push_all source e (edges_of grown e.target) queue,
        insert e.target
            (record { next_hop = e.next_hop; nextnext_hop = e.nextnext_hop; cost = e.cost }) result,
      )
  | some route ↦ (g, queue, result)
]

unfoldable pub exact_search : ℕ → ℤ → Graph → List Edge → Map ℤ Route → Option (Graph × Map ℤ Route)
exact_search zero source g queue result = none
exact_search (suc fuel) source g [] result = some (g, result)
exact_search (suc fuel) source g (first ∷ others) result =
    let (e, queue) = take_least first others in
    let (g', queue', result') = exact_expand source e queue g result in
    exact_search fuel source g' queue' result'
