-- ===== src/Routing/Graph/ShortestPath.antt =====
-- src/networkLayerPlus/ndnRouting/model/lsaDatabase/Graph.cpp: calculateShortestPath. The sum of two `int`s
-- wraps around.
pub mod Queue
pub mod Searching
pub mod Expansion
pub mod Fuel
pub mod Exact
pub mod Agreement
pub mod Shortest
use ndn_based_protocol.Prelude.{
  ℕ, zero, suc, ◌+◌, ◌-◌, ◌%◌, ◌^◌, ℤ, pos, negsuc, Option, none, some, List, [], ◌∷◌, leb, ltb,
  length, int_eq, ◌==◌, if◌then◌else◌, ◌>>=◌,
}
use ndn_based_protocol.Prelude.Map.{Map, lookup, insert, erase}
use ndn_based_protocol.Routing.Graph.{Edge, Graph, int_ltb, edges_of, add_vertex, all_edges}

-- [nexthop, nextnexthop, cost]
pub record Route : Type 0 where
  pub next_hop : ℤ
  pub nextnext_hop : ℤ
  pub cost : ℤ

-- The sum of two integers, and the `int` that has the same 32 bits.
abbrev pub exact_add : ℤ → ℤ → ℤ
exact_add (pos a) (pos b) = pos (a + b)
exact_add (pos a) (negsuc b) = if leb (suc b) a then pos (a - suc b) else negsuc (b - a)
exact_add (negsuc a) (pos b) = if leb (suc a) b then pos (b - suc a) else negsuc (a - b)
exact_add (negsuc a) (negsuc b) = negsuc (suc (a + b))

abbrev pub to_int : ℤ → ℤ
to_int (pos n) =
    let bits = n % 2 ^ 32 in if ltb bits (2 ^ 31) then pos bits else negsuc (2 ^ 32 - 1 - bits)
to_int (negsuc n) =
    let bits = n % 2 ^ 32 in if ltb bits (2 ^ 31) then negsuc bits else pos (2 ^ 32 - 1 - bits)

-- a + b on `int`, where it wraps around on overflow
abbrev pub int_add : ℤ → ℤ → ℤ
int_add a b = to_int (exact_add a b)

-- top and pop of a priority queue that holds `best` and the others: an edge of least cost, and what is
-- left. Which of several comes first, std::priority_queue leaves open.
unfoldable pub take_least : Edge → List Edge → Edge × List Edge
take_least best [] = (best, [])
take_least best (e ∷ queue) =
    let less = int_ltb e.cost best.cost in
    let (least, left) = take_least (if less then e else best) queue in
    (least, (if less then best else e) ∷ left)

-- The new edge for an edge `i` of the target of `e`.
unfoldable pub new_edge : ℤ → Edge → Edge → Edge
new_edge source e i = record {
  source = source;
  target = i.target;
  cost = int_add i.cost e.cost;
  next_hop = if e.target == source then i.target else e.next_hop;
  nextnext_hop =
      if e.target == source
      then i.target
      else if e.next_hop == e.target
      then i.target
      else e.nextnext_hop;
}

unfoldable pub push_all : ℤ → Edge → List Edge → List Edge → List Edge
push_all source e [] queue = queue
push_all source e (i ∷ edges) queue = push_all source e edges (new_edge source e i ∷ queue)

-- The body of the loop, for the edge `e` that was popped: graph[e.target] makes a vertex where there
-- is none.
unfoldable pub expand : ℤ → Edge → List Edge → Graph → Map ℤ Route → Graph × List Edge × Map ℤ Route
expand source e queue g result = elim (lookup e.target result) [
  | none ↦
      let grown = add_vertex g e.target in
      (
        grown,
        push_all source e (edges_of grown e.target) queue,
        insert e.target
            (record { next_hop = e.next_hop; nextnext_hop = e.nextnext_hop; cost = e.cost }) result,
      )
  | some route ↦ (g, queue, result)
]

-- The loop; `none` where the fuel does not reach.
unfoldable pub search : ℕ → ℤ → Graph → List Edge → Map ℤ Route → Option (Graph × Map ℤ Route)
search zero source g queue result = none
search (suc fuel) source g [] result = some (g, result)
search (suc fuel) source g (first ∷ others) result =
    let (e, queue) = take_least first others in
    let (g', queue', result') = expand source e queue g result in
    search fuel source g' queue' result'

-- Graph::calculateShortestPath. Every edge of the graph is pushed at most once.
unfoldable pub calculate_shortest_path : Graph → ℤ → Option (Graph × Map ℤ Route)
calculate_shortest_path g source = do
  (g', result) ←
      search (length (all_edges g) + 2) source g
        (record {
          source = source;
          target = source;
          cost = pos 0;
          next_hop = source;
          nextnext_hop = source;
        }
          ∷ [])
        []
  some (g', erase source result)
