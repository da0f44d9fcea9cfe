-- ===== src/Routing/Graph.antt =====
-- src/networkLayerPlus/ndnRouting/model/lsaDatabase/Graph.{h,cpp}: the topology graph and the minimum
-- hop tree. An `int` vertex and an `int` cost are integers.
pub mod Order
pub mod Edges
pub mod Tree
pub mod Reach
pub mod Cover
pub mod MinHop
pub mod ShortestPath
use ndn_based_protocol.Prelude.{
  ℕ, zero, suc, ◌+◌, ℤ, pos, negsuc, Bool, true, false, ◌&&◌, Option, none, some, List, [], ◌∷◌,
  ◌++◌, map, ltb, length, int_eq, ◌==◌, if◌then◌else◌,
}
use ndn_based_protocol.Prelude.Map.{Map, lookup, insert, erase}

pub record Edge : Type 0 where
  pub source : ℤ
  pub target : ℤ
  pub cost : ℤ
  pub next_hop : ℤ
  pub nextnext_hop : ℤ

abbrev pub Graph : Type 0
Graph = Map ℤ (List Edge)

-- a < b on `int`.
abbrev pub int_ltb : ℤ → ℤ → Bool
int_ltb (pos a) (pos b) = ltb a b
int_ltb (pos a) (negsuc b) = false
int_ltb (negsuc a) (pos b) = true
int_ltb (negsuc a) (negsuc b) = ltb b a

-- std::min
abbrev pub int_min : ℤ → ℤ → ℤ
int_min a b = if int_ltb b a then b else a

-- graph[rid], which is empty for a vertex that is not there.
unfoldable pub edges_of : Graph → ℤ → List Edge
edges_of g rid = elim (lookup rid g) [ none ↦ [] | some es ↦ es ]

-- Graph::addVertex
unfoldable pub add_vertex : Graph → ℤ → Graph
add_vertex g rid = elim (lookup rid g) [ none ↦ insert rid [] g | some es ↦ g ]

-- The loop of addEdge, and the push_back behind it.
unfoldable pub put_edge : ℤ → ℤ → ℤ → List Edge → List Edge
put_edge source target cost [] =
    record { source = source; target = target; cost = cost; next_hop = pos 0; nextnext_hop = pos 0 }
    ∷ []
put_edge source target cost (e ∷ es) =
    let rest = put_edge source target cost es in
    if e.target == target then record e { cost = int_min e.cost cost } ∷ es else e ∷ rest

-- Graph::addEdge
unfoldable pub add_edge : Graph → ℤ → ℤ → ℤ → Graph
add_edge g source target cost =
    let grown = add_vertex (add_vertex g source) target in
    insert source (put_edge source target cost (edges_of grown source)) grown

-- Graph::removeVertex. The loop that erases the edges to the vertex iterates over copies,
-- `for (auto p : graph)`, and leaves the graph as it is.
unfoldable pub remove_vertex : Graph → ℤ → Graph
remove_vertex g rid = elim (lookup rid g) [ none ↦ g | some es ↦ erase rid g ]

unfoldable pub erase_edge : ℤ → List Edge → List Edge
erase_edge target [] = []
erase_edge target (e ∷ es) =
    let rest = erase_edge target es in if e.target == target then es else e ∷ rest

-- Graph::removeEdge
unfoldable pub remove_edge : Graph → ℤ → ℤ → Graph
remove_edge g source target = elim (lookup source g) [
  | none ↦ g
  | some es ↦ insert source (erase_edge target es) g
]

-- A loop of isBidirectionalEdge.
unfoldable pub has_edge : ℤ → List Edge → Bool
has_edge target [] = false
has_edge target (e ∷ es) =
    let rest = has_edge target es in if e.target == target then true else rest

-- Graph::isBidirectionalEdge
unfoldable pub is_bidirectional_edge : Graph → ℤ → ℤ → Bool
is_bidirectional_edge g a b = elim (lookup a g) [
  | none ↦ false
  | some es ↦ elim (lookup b g) [ none ↦ false | some fs ↦ has_edge b es && has_edge a fs ]
]

-- Graph::getAllVertices
abbrev pub get_all_vertices : Graph → List ℤ
get_all_vertices g = map (λ (entry : ℤ × List Edge). entry.0) g

-- std::sort by target; no two edges of a vertex have the same target.
unfoldable pub place_edge : Edge → List Edge → List Edge
place_edge e [] = e ∷ []
place_edge e (f ∷ fs) =
    let rest = place_edge e fs in if int_ltb f.target e.target then f ∷ rest else e ∷ (f ∷ fs)

unfoldable pub sort_edges : List Edge → List Edge
sort_edges [] = []
sort_edges (e ∷ es) = place_edge e (sort_edges es)

unfoldable pub sort_graph : Graph → Graph
sort_graph [] = []
sort_graph (entry ∷ g) = (entry.0, sort_edges entry.1) ∷ sort_graph g

-- The tree, as the parent of each node, and the next layer, while calculateMinHopTree scans a layer.
pub record Scan : Type 0 where
  pub tree : Map ℤ ℤ
  pub next_layer : List ℤ

-- The body of the innermost loop, for an edge of the vertex `i`.
unfoldable pub visit : ℤ → Edge → Scan → Scan
visit i e s = elim (lookup e.target s.tree) [
  | none ↦ record { tree = insert e.target i s.tree; next_layer = s.next_layer ++ (e.target ∷ []) }
  | some parent ↦ s
]

unfoldable pub visit_edges : ℤ → List Edge → Scan → Scan
visit_edges i [] s = s
visit_edges i (e ∷ es) s = visit_edges i es (visit i e s)

-- The loop over a layer; a vertex that is not in the graph is skipped.
unfoldable pub visit_layer : Graph → List ℤ → Scan → Scan
visit_layer g [] s = s
visit_layer g (i ∷ layer) s = visit_layer g layer (visit_edges i (edges_of g i) s)

-- The outer loop; `none` where the fuel does not reach.
unfoldable pub scan_layers : ℕ → Graph → List ℤ → Map ℤ ℤ → Option (Map ℤ ℤ)
scan_layers zero g layer tree = none
scan_layers (suc fuel) g [] tree = some tree
scan_layers (suc fuel) g (i ∷ layer) tree =
    let s = visit_layer g (i ∷ layer) (record { tree = tree; next_layer = [] }) in
    scan_layers fuel g s.next_layer s.tree

unfoldable pub all_edges : Graph → List Edge
all_edges [] = []
all_edges (entry ∷ g) = entry.1 ++ all_edges g

-- Graph::calculateMinHopTree, which also leaves the edges of the graph sorted. Each layer but the last
-- adds a node that some edge leads to.
unfoldable pub calculate_min_hop_tree : Graph → ℤ → Graph × Option (Map ℤ ℤ)
calculate_min_hop_tree g source =
    let sorted = sort_graph g in
    (
      sorted,
      scan_layers (length (all_edges sorted) + 2) sorted (source ∷ []) (insert source source []),
    )
