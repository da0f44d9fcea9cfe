-- ===== src/Routing/Protocol/Triggers.antt =====
-- src/networkLayerPlus/ndnRouting/NdnRoutingProtocol.cpp: the registration with parents, the distribution of
-- INFO, and what a new LSA triggers (model/neighbor/state/NdnRoutingNeighborState.cpp: triggerNewLsa).
use ndn_based_protocol.Prelude.{
  ℕ, suc, ◌+◌, ℤ, Bool, true, false, ◌&&◌, Option, none, some, List, [], ◌∷◌, nat_eq, int_eq, ◌==◌,
  if◌then◌else◌, ◌>>=◌,
}
use ndn_based_protocol.Prelude.Map.{Map, lookup, insert}
use ndn_based_protocol.Declaration.{broadcast_mac, zero_mac}
use ndn_based_protocol.Packet.{NdnInterest, interest, new_interest}
use ndn_based_protocol.Strategy.{Face}
use ndn_based_protocol.Routing.Lsa.{LsaDataPack, generate_ls_digest}
use ndn_based_protocol.Routing.LsaDatabase.Topology.{calculate_min_hop_trees}
use ndn_based_protocol.Routing.LsaDatabase.Routes.{calculate_routing_table}
use ndn_based_protocol.Routing.MinimumHopTree.{
  get_registered_sons, get_registered_parent, set_registered_parent, remove_registered_parent,
}
use ndn_based_protocol.Routing.Neighbor.{
  is_full, NeighborEvent, Action, dd_interest_sent, lsa_interest_sent, new_lsa_triggered,
  process_event,
}
use ndn_based_protocol.Routing.PacketName.{info_name, dd_name, local_lsa_name}
use ndn_based_protocol.Routing.Protocol.{
  Peer, Interface, Protocol, Environment, send_packet, get_neighbor_by_router_id, generate_lsa,
  send_register_packet, send_deregister_packet,
}

-- A different parent before is told.
abbrev pub leave_parent : Environment → ℕ → ℕ → Option ℕ → Protocol → Protocol
leave_parent env root parent none s = s
leave_parent env root parent (some old) s =
    if old == parent then s else send_deregister_packet env root old s

abbrev pub is_parent : ℕ → Option ℕ → Bool
is_parent parent none = false
is_parent parent (some old) = old == parent

-- The body of the first loop of registerParents.
unfoldable pub register_parent : Environment → ℕ → ℕ → Protocol → Protocol
register_parent env root parent s =
    let registered = get_registered_parent s.minimum_hop_tree root in
    let left = leave_parent env root parent registered s in
    if root == s.router_id
    then s
    else if is_parent parent registered
    then left
    else (let sent = send_register_packet env root parent left in
        record sent { minimum_hop_tree = set_registered_parent sent.minimum_hop_tree root parent })

unfoldable pub register_all : Environment → Map ℕ ℕ → Protocol → Protocol
register_all env [] s = s
register_all env (entry ∷ res) s = register_all env res (register_parent env entry.0 entry.1 s)

-- The second loop, over the registered parents.
unfoldable pub remove_old : Environment → Map ℕ ℕ → Map ℕ ℕ → Protocol → Protocol
remove_old env res [] s = s
remove_old env res (entry ∷ registered) s =
    remove_old env res registered (elim (lookup entry.0 res) [
      | some parent ↦ s
      | none ↦
          let sent = send_deregister_packet env entry.0 entry.1 s in
          record sent { minimum_hop_tree = remove_registered_parent sent.minimum_hop_tree entry.0 }
    ])

-- NdnRoutingProtocol::registerParents
unfoldable pub register_parents : Environment → Protocol → Option Protocol
register_parents env s = do
  res ← calculate_min_hop_trees s.database s.router_id
  (let s' = register_all env res s in
      some (remove_old env res s'.minimum_hop_tree.registered_parents s'))

-- LsaDataPack::generateInfoInterest with its faces
unfoldable pub info_interest :
    Environment → LsaDataPack → List Face → Protocol → NdnInterest × Protocol
info_interest env lsa faces s = (
  record (new_interest env.junk) {
    name = info_name (generate_ls_digest lsa);
    nonce = env.rand s.drawn;
    prefered_interfaces = faces;
  },
  record s { drawn = suc s.drawn },
)

unfoldable pub send_info_to : Environment → LsaDataPack → List ℕ → Protocol → Protocol
send_info_to env lsa [] s = s
send_info_to env lsa (son ∷ sons) s =
    send_info_to env lsa sons (elim (get_neighbor_by_router_id son s.interfaces) [
      | none ↦ s
      | some (interface, peer) ↦
          let (packet, s') =
            info_interest env lsa ((interface.interface_id, peer.mac_address) ∷ []) s in
          send_packet interface.mac_address (interest packet) s'
    ])

-- NdnRoutingProtocol::sendInfoToChildren
unfoldable pub send_info_to_children : Environment → LsaDataPack → Protocol → Protocol
send_info_to_children env lsa s =
    send_info_to env lsa (get_registered_sons s.minimum_hop_tree lsa.router_id) s

unfoldable pub other_faces : ℤ → Map ℤ Interface → List Face
other_faces exempted [] = []
other_faces exempted (entry ∷ interfaces) =
    let rest = other_faces exempted interfaces in
    if entry.0 == exempted then rest else (entry.0, broadcast_mac) ∷ rest

-- NdnRoutingProtocol::sendInfoToAll
unfoldable pub send_info_to_all : Environment → LsaDataPack → ℤ → Protocol → Protocol
send_info_to_all env lsa exempted s =
    let faces = other_faces exempted s.interfaces in
    let (packet, s') = info_interest env lsa faces s in
    elim faces [ [] ↦ s' | face ∷ others ↦ send_packet zero_mac (interest packet) s' ]

-- NdnRoutingProtocol::rebuildRoutingTable
unfoldable pub rebuild_routing_table : Environment → Protocol → Option Protocol
rebuild_routing_table env s = do
  table ← calculate_routing_table env.run env.junk s.database s.router_id s.routing_table
  some (record s { routing_table = table })

-- NdnRoutingNeighborState::triggerNewLsa
unfoldable pub trigger_new_lsa : Environment → Protocol → Option Protocol
trigger_new_lsa env s = do
  registered ← register_parents env (generate_lsa env s).1
  rebuild_routing_table env (send_info_to_children env (generate_lsa env s).0 registered)

-- NdnRoutingProtocol::allNeighboursFull
unfoldable pub all_peers_full : Map ℕ Peer → Bool
all_peers_full [] = true
all_peers_full (entry ∷ peers) = is_full entry.1.neighbor.state && all_peers_full peers

unfoldable pub all_neighbours_full : Map ℤ Interface → Bool
all_neighbours_full [] = true
all_neighbours_full (entry ∷ interfaces) =
    all_peers_full entry.1.neighbors && all_neighbours_full interfaces

-- NdnRoutingProtocol::fullNeighborNum
unfoldable pub full_peers : Map ℕ Peer → ℕ
full_peers [] = 0
full_peers (entry ∷ peers) =
    let rest = full_peers peers in if is_full entry.1.neighbor.state then suc rest else rest

unfoldable pub full_neighbor_num : Map ℤ Interface → ℕ
full_neighbor_num [] = 0
full_neighbor_num (entry ∷ interfaces) = full_peers entry.1.neighbors + full_neighbor_num interfaces

-- The packets of sendDDInterest and of sendLocalLsaInterest, and triggerNewLsa.
unfoldable pub perform : Environment → Interface → Peer → Action → Protocol → Option Protocol
perform env interface peer (dd_interest_sent index) s = some (
    send_packet interface.mac_address
      (interest (record (new_interest env.junk) {
        name = dd_name peer.router_id index;
        nonce = env.rand s.drawn;
        prefered_interfaces = (interface.interface_id, peer.mac_address) ∷ [];
      }))
      (record s { drawn = suc s.drawn }))
perform env interface peer (lsa_interest_sent digest) s = some (
    send_packet interface.mac_address
      (interest (record (new_interest env.junk) {
        name = local_lsa_name digest;
        nonce = env.rand s.drawn;
        prefered_interfaces = (interface.interface_id, peer.mac_address) ∷ [];
      }))
      (record s { drawn = suc s.drawn }))
perform env interface peer new_lsa_triggered s = trigger_new_lsa env s

unfoldable pub perform_all :
    Environment → Interface → Peer → List Action → Protocol → Option Protocol
perform_all env interface peer [] s = some s
perform_all env interface peer (action ∷ actions) s = do
  s' ← perform env interface peer action s
  perform_all env interface peer actions s'

-- A neighbour after a change, in the table of its interface.
unfoldable pub put_peer : ℤ → Interface → Peer → Protocol → Protocol
put_peer index interface peer s = record s {
  interfaces =
      insert index (record interface { neighbors = insert peer.router_id peer interface.neighbors })
        s.interfaces;
}

-- NdnRoutingNeighbor::processEvent, with what it sends. The state is set before the packets go
-- out; generateLsa and the others do not read it.
unfoldable pub peer_event :
    Environment → ℤ → Interface → Peer → NeighborEvent → Protocol → Option Protocol
peer_event env index interface peer event s =
    let (neighbor, actions) = process_event s.database peer.neighbor event in
    perform_all env interface peer actions
      (put_peer index interface (record peer { neighbor = neighbor }) s)
