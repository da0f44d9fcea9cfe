-- ===== src/Routing/LsaDatabase/Topology.antt =====
-- src/networkLayerPlus/ndnRouting/model/lsaDatabase/LsaDatabase.cpp: the graph that calculateMinHopTree and
-- calculateRoutingTable build from the adjacency LSAs, and calculateMinHopTree. The text for the log
-- is left out.
pub mod Index
pub mod Linked
pub mod Parents
pub mod Trees
use ndn_based_protocol.Prelude.{
  ℕ, suc, ◌-◌, ◌^◌, ℤ, pos, negsuc, Option, none, some, List, [], ◌∷◌, ltb, int_eq, nat_eq, ◌==◌,
  if◌then◌else◌, ◌>>=◌,
}
use ndn_based_protocol.Prelude.Map.{Map, lookup, insert}
use ndn_based_protocol.Ip.{and_mask}
use ndn_based_protocol.Routing.Lsa.{NdnLink, LsaDataPack}
use ndn_based_protocol.Routing.LsaDatabase.{LsaDatabase}
use ndn_based_protocol.Routing.Graph.{Graph, add_vertex, add_edge, calculate_min_hop_tree}

-- POINTTOPOINT_LINK and TRANSIT_LINK of enum LinkType.
abbrev pub point_to_point_link : ℕ
point_to_point_link = 1

abbrev pub transit_link : ℕ
transit_link = 2

-- The `int` of a 32-bit pattern.
abbrev pub int_of : ℕ → ℤ
int_of n = if ltb n (2 ^ 31) then pos n else negsuc (2 ^ 32 - 1 - n)

-- enum VertexType and struct Vertex, whose fields are 0 before they are set.
pub data VertexType : Type 0 where
  router : VertexType
  net : VertexType

pub record Vertex : Type 0 where
  pub index : ℤ
  pub vertex_type : VertexType
  pub router_id : ℕ
  pub addr : ℕ
  pub mask : ℕ

-- The local variables of the two functions. The counter `index` does not wrap around.
pub record Topology : Type 0 where
  pub index : ℕ
  pub vertices : Map ℤ Vertex
  pub router_vertices : Map ℕ Vertex
  pub net_vertices : Map ℕ Vertex
  pub graph : Graph

abbrev pub no_topology : Topology
no_topology = record {
  index = 1;
  vertices = [];
  router_vertices = [];
  net_vertices = [];
  graph = [];
}

abbrev pub new_router : ℕ → ℕ → Vertex
new_router index id = record {
  index = pos index;
  vertex_type = router;
  router_id = id;
  addr = 0;
  mask = 0;
}

-- The vertex of a router, which is made where there is none.
unfoldable pub router_vertex : Topology → ℕ → Vertex × Topology
router_vertex t id = elim (lookup id t.router_vertices) [
  | none ↦ (
    new_router t.index id,
    record t {
      index = suc t.index;
      router_vertices = insert id (new_router t.index id) t.router_vertices;
      vertices = insert (pos t.index) (new_router t.index id) t.vertices;
    },
  )
  | some vertex ↦ (vertex, t)
]

-- A point-to-point link of the router at `vertex`.
unfoldable pub add_point_to_point : Vertex → NdnLink → Topology → Topology
add_point_to_point vertex link t =
    let (vertex2, t') = router_vertex t link.link_id in
    let cost = int_of link.link_cost in
    record t' {
      graph =
          add_edge (add_edge t'.graph vertex.index vertex2.index cost) vertex2.index vertex.index
            cost;
    }

-- The vertex of a network. Its type is not set, which leaves the 0 of ROUTER.
unfoldable pub net_vertex : Topology → ℕ → ℕ → Vertex × Topology
net_vertex t network mask = elim (lookup network t.net_vertices) [
  | none ↦
      let vertex : Vertex = record {
        index = pos t.index;
        vertex_type = router;
        router_id = 0;
        addr = network;
        mask = mask;
      } in
      (
        vertex,
        record t {
          index = suc t.index;
          net_vertices = insert network vertex t.net_vertices;
          vertices = insert (pos t.index) vertex t.vertices;
        },
      )
  | some vertex ↦ (vertex, t)
]

-- A transit link of the router at `vertex`: an edge to the network, and none back.
unfoldable pub add_transit : Vertex → NdnLink → Topology → Topology
add_transit vertex link t =
    let (vertex2, t') =
      net_vertex t (and_mask link.link_data link.link_data_mask) link.link_data_mask in
    record t' { graph = add_edge t'.graph vertex.index vertex2.index (int_of link.link_cost) }

-- The links of an LSA as calculateMinHopTree reads them.
unfoldable pub add_links : Vertex → List NdnLink → Topology → Topology
add_links vertex [] t = t
add_links vertex (link ∷ links) t =
    add_links vertex links
      (if link.link_type == point_to_point_link then add_point_to_point vertex link t else t)

unfoldable pub add_lsa : LsaDataPack → Topology → Topology
add_lsa lsa t =
    let (vertex, t') = router_vertex t lsa.router_id in
    add_links vertex lsa.links (record t' { graph = add_vertex t'.graph vertex.index })

unfoldable pub add_lsas : List LsaDataPack → Topology → Topology
add_lsas [] t = t
add_lsas (lsa ∷ lsas) t = add_lsas lsas (add_lsa lsa t)

-- The links of an LSA as calculateRoutingTable reads them.
unfoldable pub add_all_links : Vertex → List NdnLink → Topology → Topology
add_all_links vertex [] t = t
add_all_links vertex (link ∷ links) t = add_all_links vertex links (
    if link.link_type == point_to_point_link
    then add_point_to_point vertex link t
    else if link.link_type == transit_link
    then add_transit vertex link t
    else t)

unfoldable pub add_whole_lsas : List LsaDataPack → Topology → Topology
add_whole_lsas [] t = t
add_whole_lsas (lsa ∷ lsas) t =
    let (vertex, t') = router_vertex t lsa.router_id in
    add_whole_lsas lsas
      (add_all_links vertex lsa.links (record t' { graph = add_vertex t'.graph vertex.index }))

-- vertices[index]->routerID, which faults where there is no such vertex.
unfoldable pub router_at : Map ℤ Vertex → ℤ → Option ℕ
router_at vertices index = lookup index vertices >>= (λ v. some v.router_id)

-- The tree from a vertex: the source's parent on it, if the source is there, and the sorted graph.
unfoldable pub add_parent : Map ℤ Vertex → ℤ → ℤ → Graph × Map ℕ ℕ → Option (Graph × Map ℕ ℕ)
add_parent vertices source_index index (g, result) = do
  tree ← (calculate_min_hop_tree g index).1
  elim (lookup source_index tree) [
    | none ↦ some ((calculate_min_hop_tree g index).0, result)
    | some parent_index ↦ do
      root ← router_at vertices index
      parent ← router_at vertices parent_index
      some ((calculate_min_hop_tree g index).0, insert root parent result)
  ]

-- The loop over the vertices.
unfoldable pub add_parents :
    Map ℤ Vertex → ℤ → Map ℤ Vertex → Graph × Map ℕ ℕ → Option (Graph × Map ℕ ℕ)
add_parents vertices source_index [] s = some s
add_parents vertices source_index (entry ∷ rest) s = do
  s' ← add_parent vertices source_index entry.0 s
  add_parents vertices source_index rest s'

-- LsaDatabase::calculateMinHopTree: the parent of `source` on the tree of each root.
unfoldable pub calculate_min_hop_trees : LsaDatabase → ℕ → Option (Map ℕ ℕ)
calculate_min_hop_trees db source =
    let t = add_lsas db.adj_lsa no_topology in
    elim (lookup source t.router_vertices) [
      | none ↦ some []
      | some vertex ↦ do
        (g, result) ← add_parents t.vertices vertex.index t.vertices (t.graph, [])
        some result
    ]
