-- ===== src/Routing/Protocol.antt =====
-- src/networkLayerPlus/ndnRouting/NdnRoutingProtocol.{h,cpp} and model/interface/NdnRoutingInterface.cpp: the
-- state of the routing protocol, and the functions that the controllers use. `sent` holds what sendPacket
-- hands to NdnProtocol, in order. The audit events, the rules of the ACL, whose answer the code drops, and the
-- log are left out. A use of a null pointer is `none`.
pub mod Triggers
pub mod Events
pub mod Registering
pub mod Parents
use ndn_based_protocol.Prelude.{
  ℕ, zero, suc, ◌+◌, ◌-◌, ◌%◌, ◌^◌, ℤ, Bool, true, false, ◌&&◌, not, Option, none, some, List, [],
  ◌∷◌, ◌++◌, ltb, length, nat_eq, int_eq, bytes_eq, bytes_beq, ◌==◌, if◌then◌else◌, ◌>>=◌,
}
use ndn_based_protocol.Prelude.Map.{Map, lookup, insert, erase}
use ndn_based_protocol.Declaration.{MacAddress, broadcast_mac, zero_mac}
use ndn_based_protocol.Util.{codes}
use ndn_based_protocol.Packet.{
  NdnInterest, NdnData, NdnPacket, interest, data_packet, new_interest, new_data,
}
use ndn_based_protocol.Ip.{RoutingTable, Command}
use ndn_based_protocol.Routing.Lsa.{NdnLink, LinkStateDigest, LsaDataPack, adj, generate_ls_digest}
use ndn_based_protocol.Routing.LsaDatabase.{LsaDatabase, find_lsa, insert_lsa}
use ndn_based_protocol.Routing.LsaDatabase.Topology.{point_to_point_link, calculate_min_hop_trees}
use ndn_based_protocol.Routing.LsaDatabase.Routes.{calculate_routing_table}
use ndn_based_protocol.Routing.MinimumHopTree.{
  MinimumHopTree, get_registered_sons, get_registered_parent, set_registered_parent,
  remove_registered_parent,
}
use ndn_based_protocol.Routing.Neighbor.{Neighbor, NeighborState}
use ndn_based_protocol.Routing.Packs.{
  RegisterInterestPack, DeRegisterInterestPack, encode_register, encode_deregister,
}
use ndn_based_protocol.Routing.HelloPack.{HelloInterestPack}
use ndn_based_protocol.Routing.DdPack.{DdWirePack}
use ndn_based_protocol.Routing.PacketName.{register_name, deregister_name, info_name}

-- NdnRoutingNeighbor, with the state and the requests of the exchange in `neighbor`.
pub record Peer : Type 0 where
  pub router_id : ℕ
  pub mac_address : MacAddress
  pub ipv4_address : ℕ
  pub ipv4_mask : ℕ
  pub public_key : List ℕ
  pub neighbor : Neighbor

-- enum class NdnRoutingInterfaceStateType
pub data InterfaceState : Type 0 where
  down : InterfaceState
  up : InterfaceState

pub record Interface : Type 0 where
  pub interface_id : ℤ
  pub mac_address : MacAddress
  pub ipv4_address : ℕ
  pub ipv4_mask : ℕ
  pub cost : ℕ
  pub neighbors : Map ℕ Peer
  pub state : InterfaceState

-- What the callback of a retransmission timer captured: the packet, the address of the interface and
-- the count.
pub record Retransmission : Type 0 where
  pub packet : NdnInterest
  pub source_mac : MacAddress
  pub retransmission_time : ℕ

pub record Protocol : Type 0 where
  pub router_id : ℕ
  pub interfaces : Map ℤ Interface
  pub database : LsaDatabase
  pub broadcast_lsa_pending_request_list : List LinkStateDigest
  pub minimum_hop_tree : MinimumHopTree
  pub public_key : List ℕ
  pub routing_table : RoutingTable
  pub timers : Map (List ℕ) Retransmission
  pub hello_timers : List ℤ
  pub sent : List (MacAddress × NdnPacket)
  pub drawn : ℕ  -- calls of rand()
  pub read : ℕ  -- calls of getTimeStamp()

-- What the protocol takes from elsewhere: the values of rand() and of the clock, the signatures and the
-- cipher, the hash, whether a `route` command succeeds, and memory that has no initialiser. A hello is
-- verified with its own key or with the key of the neighbour.
pub record Environment : Type 0 where
  pub rand : ℕ → ℕ
  pub clock : ℕ → ℕ
  pub sign_signature : LsaDataPack → List ℕ
  pub verify_signature : LsaDataPack → Bool
  pub verify_router_id : LsaDataPack → Bool
  pub sign_hello : HelloInterestPack → List ℕ
  pub verify_hello : Option (List ℕ) → HelloInterestPack → Bool
  pub verify_hello_router_id : HelloInterestPack → Bool
  pub sign_dd : DdWirePack → List ℕ
  pub verify_dd : List ℕ → DdWirePack → Bool
  pub md5 : List ℕ → List ℕ
  pub encrypt : List ℕ → List ℕ
  pub decrypt : List ℕ → List ℕ
  pub run : Command → Bool
  pub junk : ℕ

-- NdnRoutingProtocol::sendPacket
unfoldable pub send_packet : MacAddress → NdnPacket → Protocol → Protocol
send_packet mac packet s = record s { sent = s.sent ++ ((mac, packet) ∷ []) }

-- Timer::startTimer does nothing where the timer exists; Timer::cancelTimer
unfoldable pub start_retransmission : List ℕ → NdnInterest → MacAddress → Protocol → Protocol
start_retransmission timer packet mac s = elim (lookup timer s.timers) [
  | none ↦ record s {
    timers =
        insert timer (record { packet = packet; source_mac = mac; retransmission_time = 0 })
          s.timers;
  }
  | some other ↦ s
]

unfoldable pub cancel_retransmission : List ℕ → Protocol → Protocol
cancel_retransmission timer s = record s { timers = erase timer s.timers }

-- NdnRoutingInterface::getNeighborByMac
unfoldable pub get_neighbor_by_mac : MacAddress → Map ℕ Peer → Option Peer
get_neighbor_by_mac mac [] = none
get_neighbor_by_mac mac (entry ∷ neighbors) =
    let rest = get_neighbor_by_mac mac neighbors in
    if bytes_beq entry.1.mac_address.addr mac.addr then some entry.1 else rest

-- NdnRoutingProtocol::getNeighborByRouterID, with the interface of the neighbour.
unfoldable pub get_neighbor_by_router_id : ℕ → Map ℤ Interface → Option (Interface × Peer)
get_neighbor_by_router_id id [] = none
get_neighbor_by_router_id id (entry ∷ interfaces) =
    let rest = get_neighbor_by_router_id id interfaces in
    elim (lookup id entry.1.neighbors) [ none ↦ rest | some peer ↦ some (entry.1, peer) ]

-- NdnRoutingProtocol::inBroadcastLsaPendingRequestList, and removeFromBroadcastLsaPendingRequestList.
unfoldable pub in_pending : ℕ → ℕ → ℕ → List LinkStateDigest → Bool
in_pending type id sequence_num [] = false
in_pending type id sequence_num (d ∷ ds) =
    let rest = in_pending type id sequence_num ds in
    if d.link_state_type == type && d.router_id == id && d.sequence_num == sequence_num
    then true
    else rest

unfoldable pub remove_pending : ℕ → ℕ → ℕ → List LinkStateDigest → List LinkStateDigest
remove_pending type id sequence_num [] = []
remove_pending type id sequence_num (d ∷ ds) =
    let rest = remove_pending type id sequence_num ds in
    if d.link_state_type == type && d.router_id == id && d.sequence_num == sequence_num
    then ds
    else d ∷ rest

-- The links of generateLsa.
unfoldable pub peer_links : ℕ → Map ℕ Peer → List NdnLink
peer_links cost [] = []
peer_links cost (entry ∷ neighbors) =
    record {
      link_type = point_to_point_link;
      link_id = entry.1.router_id;
      link_data = entry.1.ipv4_address;
      link_data_mask = entry.1.ipv4_mask;
      link_cost = cost;
    }
    ∷ peer_links cost neighbors

unfoldable pub interface_links : Map ℤ Interface → List NdnLink
interface_links [] = []
interface_links (entry ∷ interfaces) =
    let rest = interface_links interfaces in
    elim entry.1.state [ down ↦ rest | up ↦ peer_links entry.1.cost entry.1.neighbors ++ rest ]

-- `n` bytes that are 0.
unfoldable pub zeros : ℕ → List ℕ
zeros zero = []
zeros (suc n) = 0 ∷ zeros n

module _ (env : Environment) where
  -- NdnRoutingProtocol::generateLsa
  unfoldable pub generate_lsa : Protocol → LsaDataPack × Protocol
  generate_lsa s =
      let links = interface_links s.interfaces in
      let unsigned : LsaDataPack = record {
        ls_type = adj;
        router_id = s.router_id;
        seq_num = elim (find_lsa s.database adj s.router_id) [
          | none ↦ 0
          | some existing ↦ (existing.seq_num + 1) % 2 ^ 32
        ];
        ls_age = 0;
        number_of_links = length links % 2 ^ 16;
        public_key = s.public_key;
        signature = [];
        links = links;
      } in
      let lsa = record unsigned { signature = env.sign_signature unsigned } in
      (lsa, record s { database = insert_lsa s.database lsa })

  -- The interest of sendRegisterPacket and of sendDeregisterPacket, the start of its timer, and
  -- sendPacket.
  unfoldable pub send_registration :
      List ℕ → List ℕ → List ℕ → Interface → Peer → Protocol → Protocol
  send_registration timer name content interface peer s =
      let packet : NdnInterest = record (new_interest env.junk) {
        name = name;
        nonce = env.rand s.drawn;
        application_parameters = content;
        prefered_interfaces = (interface.interface_id, peer.mac_address) ∷ [];
      } in
      send_packet interface.mac_address (interest packet)
        (start_retransmission timer packet interface.mac_address (record s { drawn = suc s.drawn }))

  -- NdnRoutingProtocol::sendRegisterPacket
  unfoldable pub send_register_packet : ℕ → ℕ → Protocol → Protocol
  send_register_packet root parent s =
      let time = env.clock s.read in
      let s' = record s { read = suc s.read } in
      elim (get_neighbor_by_router_id parent s.interfaces) [
        | none ↦ s'
        | some (interface, peer) ↦
            let name = register_name s.router_id parent time in
            send_registration (codes "register_" ++ name) name
              (encode_register (record {
                root = root;
                adj_sequence_num = elim (find_lsa s.database adj root) [
                  | none ↦ 2 ^ 32 - 1
                  | some lsa ↦ lsa.seq_num
                ];
                rch_sequence_num = env.junk;
                signature = zeros 128;
              }))
              interface peer s'
      ]

  -- NdnRoutingProtocol::sendDeregisterPacket
  unfoldable pub send_deregister_packet : ℕ → ℕ → Protocol → Protocol
  send_deregister_packet root parent s =
      let time = env.clock s.read in
      let s' = record s { read = suc s.read } in
      elim (get_neighbor_by_router_id parent s.interfaces) [
        | none ↦ s'
        | some (interface, peer) ↦
            let name = deregister_name s.router_id parent time in
            send_registration (codes "deregister_" ++ name) name
              (encode_deregister (record { root = root; signature = zeros 128 })) interface peer s'
      ]
