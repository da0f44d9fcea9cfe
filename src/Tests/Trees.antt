-- ===== src/Tests/Trees.antt =====
-- The LSA database, shortest paths, the trees and the insert list at concrete values.
use mathlib.Core.List.{Memᴰ}
use ndn_based_protocol.Prelude.{
  ℕ, ◌+◌, ◌*◌, ◌^◌, ◌<◌, ◌≤◌, length, ◌≡◌, ◌≢◌, refl, ℤ, pos, true, false, Bool-cases, inl, inr,
  some, List, [], ◌∷◌, arith, int_eq, nat_eq, ◌==◌, is_negative,
}
use ndn_based_protocol.Prelude.Map.{Map, lookup}
use ndn_based_protocol.Routing.Lsa.{NdnLink, LsaDataPack}
use ndn_based_protocol.Routing.LsaDatabase.{find_in, find_lsa}
use ndn_based_protocol.Routing.LsaDatabase.Contents.{IsDatabase}
use ndn_based_protocol.Routing.LsaDatabase.Refinement.{
  Operation, inserting, deleting, run, replay, run-refines,
}
use ndn_based_protocol.Routing.LsaDatabase.Topology.{Vertex, new_router, calculate_min_hop_trees}
use ndn_based_protocol.Routing.LsaDatabase.Topology.Linked.{linked}
use ndn_based_protocol.Routing.LsaDatabase.Topology.Parents.{Connected, IsParent, Present}
use ndn_based_protocol.Routing.LsaDatabase.Topology.Trees.{calculate_min_hop_trees-IsParent}
use ndn_based_protocol.Routing.LsaDatabase.Routes.{
  RoutingItem, add_routes, resolve, is_direct, next_hop_vertex, next_hop_addr,
}
use ndn_based_protocol.Routing.LsaDatabase.Routes.Listed.{Advertised, item_of, add_routes-cheapest}
use ndn_based_protocol.Routing.Graph.{int_ltb, Graph, all_edges, edges_of, has_edge}
use ndn_based_protocol.Routing.Graph.ShortestPath.{Route, calculate_shortest_path}
use ndn_based_protocol.Routing.Graph.ShortestPath.Agreement.{Costs}
use ndn_based_protocol.Routing.Graph.ShortestPath.Queue.{value}
use ndn_based_protocol.Routing.Graph.ShortestPath.Searching.{Walk}
use ndn_based_protocol.Routing.Graph.ShortestPath.Shortest.{calculate_shortest_path-Walk}
use ndn_based_protocol.Tests.Routing.{our_lsa, new_lsa, one_lsa, one_lsa-IsDatabase, one_edge}

abbrev changes : List Operation
changes = inserting new_lsa ∷ deleting our_lsa ∷ []

run-refines_example :
    IsDatabase (run changes one_lsa)
    × (find_lsa (run changes one_lsa) ≡ replay changes (find_lsa one_lsa))
run-refines_example = run-refines changes one_lsa one_lsa-IsDatabase (omega arith, (tt, tt))

one_edge-Costs : (v : ℤ) → Costs 100 (edges_of one_edge v)
unfolding edges_of lookup
one_edge-Costs v = elim (Bool-cases (pos 1 == v)) [
  | inl same ↦ rw (edges_of, lookup, same) ((refl, omega arith), tt)
  | inr other ↦ rw (edges_of, lookup, other) tt
]

one_edge-small : (length (all_edges one_edge) + 2) * 100 < 2 ^ 31
unfolding all_edges
one_edge-small = omega arith

calculate_shortest_path-Walk_example :
    (g' : Graph) × (result : Map ℤ Route) × (calculate_shortest_path one_edge (pos 1)
      ≡ some (g', result))
    × ((v : ℤ) (route : Route)
        → lookup v result ≡ some route
        → (v ≢ pos 1)
          × (is_negative route.cost ≡ false)
          × Walk one_edge (pos 1) v (value route.cost)
          × ((k : ℕ) → Walk one_edge (pos 1) v k → value route.cost ≤ k)
          × (has_edge route.next_hop (edges_of one_edge (pos 1)) ≡ true))
    × ((v : ℤ) (k : ℕ)
        → Walk one_edge (pos 1) v k
        → v ≢ pos 1
        → (route : Route) × (lookup v result ≡ some route))
calculate_shortest_path-Walk_example =
    calculate_shortest_path-Walk one_edge (pos 1) 100 one_edge-Costs one_edge-small

our_lsa-found : find_in 11 one_lsa.adj_lsa ≡ some our_lsa
unfolding find_in
our_lsa-found = refl

calculate_min_hop_trees-IsParent_example :
    (result : Map ℕ ℕ) × (calculate_min_hop_trees one_lsa 11 ≡ some result)
    × ((root parent : ℕ)
        → lookup root result ≡ some parent
        → IsParent (linked one_lsa.adj_lsa) 11 root parent)
    × ((root : ℕ) → Connected (linked one_lsa.adj_lsa) root 11 → Present root result)
calculate_min_hop_trees-IsParent_example = calculate_min_hop_trees-IsParent one_lsa 11 our_lsa-found

-- Router 12, one hop away, advertises a network of its own.
abbrev far_lsa : LsaDataPack
far_lsa = record our_lsa {
  router_id = 12;
  links =
      record {
        link_type = 1;
        link_id = 13;
        link_data = 167772161;
        link_data_mask = 255;
        link_cost = 1;
      }
      ∷ [];
}

abbrev lsas : Map ℕ LsaDataPack
lsas = (11, our_lsa) ∷ (12, far_lsa) ∷ []

abbrev vertices : Map ℤ Vertex
vertices = (pos 1, new_router 1 11) ∷ (pos 2, new_router 2 12) ∷ []

abbrev to_12 : Route
to_12 = record { next_hop = pos 2; nextnext_hop = pos 2; cost = pos 10 }

abbrev routes : Map ℤ Route
routes = (pos 2, to_12) ∷ []

resolved : resolve 0 our_lsa lsas vertices (pos 2) to_12 ≡ some (far_lsa, 3232235777)
unfolding resolve next_hop_vertex next_hop_addr lookup
resolved = refl

abbrev far_link : NdnLink
far_link = record {
  link_type = 1;
  link_id = 13;
  link_data = 167772161;
  link_data_mask = 255;
  link_cost = 1;
}

far_away : is_direct our_lsa.links far_link ≡ false
unfolding is_direct ndn_based_protocol.Ip.and_mask
far_away = refl

advertised : Advertised 0 our_lsa lsas vertices routes 1 (item_of far_link 3232235777 (pos 10))
unfolding ndn_based_protocol.Ip.and_mask
advertised = record {
  entry = (pos 2, to_12);
  target = far_lsa;
  addr = 3232235777;
  link = far_link;
  reached = Memᴰ.head refl;
  passes = resolved;
  listed = Memᴰ.head refl;
  away = far_away;
  is_network = refl;
  is_item = refl;
}

add_routes-cheapest_example :
    let list = add_routes 0 our_lsa lsas vertices routes [] in
    ((item : RoutingItem) × (lookup 1 list ≡ some item)
      × Advertised 0 our_lsa lsas vertices routes 1 item
      × (int_ltb (pos 10) item.cost ≡ false))
    × ((n : ℕ) (i : RoutingItem)
        → lookup n list ≡ some i
        → Advertised 0 our_lsa lsas vertices routes n i)
add_routes-cheapest_example =
    add_routes-cheapest 0 our_lsa lsas vertices routes 1 (item_of far_link 3232235777 (pos 10))
      advertised
