-- ===== src/Routing/LsaDatabase/Routes.antt =====
-- src/networkLayerPlus/ndnRouting/model/lsaDatabase/LsaDatabase.cpp: calculateRoutingTable. `junk` is what
-- the next hop address holds, which has no initialiser. The output of `route -n` for the log is left out.
pub mod Cheapest
pub mod Listed
pub mod Table
use ndn_based_protocol.Prelude.{
  ℕ, ◌-◌, ◌^◌, ◌%◌, ℤ, Bool, true, false, Option, none, some, List, [], ◌∷◌, ltb, int_eq, nat_eq,
  ◌==◌, if◌then◌else◌, ◌>>=◌,
}
use ndn_based_protocol.Prelude.Map.{Map, lookup, insert}
use ndn_based_protocol.Ip.{
  RoutingTable, Command, and_mask, new_item, add_routing_table_item, remove_all_item,
}
use ndn_based_protocol.Routing.Lsa.{NdnLink, LsaDataPack}
use ndn_based_protocol.Routing.LsaDatabase.{LsaDatabase}
use ndn_based_protocol.Routing.LsaDatabase.Topology.{
  Vertex, VertexType, router, net, no_topology, add_whole_lsas,
}
use ndn_based_protocol.Routing.Graph.{int_ltb}
use ndn_based_protocol.Routing.Graph.ShortestPath.{Route, calculate_shortest_path}

-- struct RoutingItem
pub record RoutingItem : Type 0 where
  pub target_ip : ℕ
  pub target_mask : ℕ
  pub next_hop : ℕ
  pub cost : ℤ

-- The keys of adjLsaMap have 32 bits.
abbrev pub lsa_key : ℕ → ℕ
lsa_key id = id % 2 ^ 32

unfoldable pub adj_lsa_map : List LsaDataPack → Map ℕ LsaDataPack → Map ℕ LsaDataPack
adj_lsa_map [] m = m
adj_lsa_map (lsa ∷ lsas) m = adj_lsa_map lsas (insert (lsa_key lsa.router_id) lsa m)

abbrev pub is_router : VertexType → Bool
is_router router = true
is_router net = false

-- The vertex of the next hop, or of the hop behind it where the next hop is a network.
unfoldable pub next_hop_vertex : Map ℤ Vertex → Route → Option Vertex
next_hop_vertex vertices route = do
  next ← lookup route.next_hop vertices
  if is_router next.vertex_type then some next else lookup route.nextnext_hop vertices

-- The loop for the address of the next hop: whether a link was found, and the address of the cheapest.
unfoldable pub next_hop_addr : ℕ → List NdnLink → Bool × ℕ × ℕ → Bool × ℕ × ℕ
next_hop_addr id [] s = s
next_hop_addr id (link ∷ links) (found, current_cost, addr) = next_hop_addr id links (
    if link.link_id == id
    then (if ltb link.link_cost current_cost
        then (true, link.link_cost, link.link_data)
        else (true, current_cost, addr))
    else (found, current_cost, addr))

-- The tests of the loop over the result, for one target: its LSA, and the address of the next hop.
unfoldable pub resolve :
    ℕ → LsaDataPack → Map ℕ LsaDataPack → Map ℤ Vertex → ℤ → Route → Option (LsaDataPack × ℕ)
resolve junk our_lsa lsas vertices target_index route = do
  target ← lookup target_index vertices
  next ← if is_router target.vertex_type then next_hop_vertex vertices route else none
  target_lsa ← lookup (lsa_key target.router_id) lsas
  next_lsa ← lookup (lsa_key next.router_id) lsas
  (let (found, current_cost, addr) =
        next_hop_addr next.router_id our_lsa.links (false, 2 ^ 31 - 1, junk) in
      if found then some (target_lsa, addr) else none)

-- Whether a link of ours is in the network of the link.
unfoldable pub is_direct : List NdnLink → NdnLink → Bool
is_direct [] target = false
is_direct (ours ∷ links) target =
    let rest = is_direct links target in
    if and_mask target.link_data target.link_data_mask
      == and_mask ours.link_data ours.link_data_mask
    then true
    else rest

abbrev pub network_of : NdnLink → ℕ
network_of link = and_mask link.link_data link.link_data_mask

abbrev pub put_route : NdnLink → ℕ → ℤ → Map ℕ RoutingItem → Map ℕ RoutingItem
put_route link addr cost items =
    insert (network_of link)
      (record {
        target_ip = link.link_data;
        target_mask = link.link_data_mask;
        next_hop = addr;
        cost = cost;
      })
      items

-- A network is entered, unless a cheaper route to it is there.
unfoldable pub add_route : NdnLink → ℕ → ℤ → Map ℕ RoutingItem → Map ℕ RoutingItem
add_route link addr cost items = elim (lookup (network_of link) items) [
  | none ↦ put_route link addr cost items
  | some item ↦ if int_ltb item.cost cost then items else put_route link addr cost items
]

-- The loop over the links of the target.
unfoldable pub add_target :
    List NdnLink → ℕ → ℤ → List NdnLink → Map ℕ RoutingItem → Map ℕ RoutingItem
add_target ours addr cost [] items = items
add_target ours addr cost (link ∷ links) items =
    add_target ours addr cost links
      (if is_direct ours link then items else add_route link addr cost items)

-- The loop over the result of calculateShortestPath.
unfoldable pub add_routes :
    ℕ
    → LsaDataPack
    → Map ℕ LsaDataPack
    → Map ℤ Vertex
    → Map ℤ Route
    → Map ℕ RoutingItem
    → Map ℕ RoutingItem
add_routes junk our_lsa lsas vertices [] items = items
add_routes junk our_lsa lsas vertices (entry ∷ routes) items =
    add_routes junk our_lsa lsas vertices routes
      (elim (resolve junk our_lsa lsas vertices entry.0 entry.1) [
        | none ↦ items
        | some (target_lsa, addr) ↦
            add_target our_lsa.links addr entry.1.cost target_lsa.links items
      ])

-- insertList; `none` where a warning ends the function.
unfoldable pub insert_list : ℕ → LsaDatabase → ℕ → Option (Option (Map ℕ RoutingItem))
insert_list junk db source =
    let t = add_whole_lsas db.adj_lsa no_topology in
    let lsas = adj_lsa_map db.adj_lsa [] in
    elim (lookup source t.router_vertices) [
      | none ↦ some none
      | some vertex ↦ do
        (g, result) ← calculate_shortest_path t.graph vertex.index
        elim (lookup (lsa_key source) lsas) [
          | none ↦ some none
          | some our_lsa ↦ some (some (add_routes junk our_lsa lsas t.vertices result []))
        ]
    ]

unfoldable pub add_items : (Command → Bool) → Map ℕ RoutingItem → RoutingTable → RoutingTable
add_items run [] table = table
add_items run ((network, item) ∷ items) table =
    add_items run items
      (add_routing_table_item run table
        (record (new_item item.target_ip item.target_mask item.next_hop) {
          from_routing_protocol = true;
        })).1

-- LsaDatabase::calculateRoutingTable
unfoldable pub calculate_routing_table :
    (Command → Bool) → ℕ → LsaDatabase → ℕ → RoutingTable → Option RoutingTable
calculate_routing_table run junk db source table = do
  list ← insert_list junk db source
  elim list [
    | none ↦ some table
    | some items ↦ some (add_items run items (remove_all_item run table))
  ]
