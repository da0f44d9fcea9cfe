-- ===== src/Routing/InfoController.antt =====
-- src/networkLayerPlus/ndnRouting/controller: InfoController. A packet on an interface that is not there is
-- dropped; the null pointer that interfaces[i] then enters is left out.
pub mod Requests
use ndn_based_protocol.Prelude.{
  ℕ, suc, ◌+◌, ◌-◌, ◌%◌, ◌^◌, ℤ, pos, negsuc, Bool, true, false, ◌&&◌, ◌||◌, not, Option, none,
  some, List, [], ◌∷◌, ◌++◌, length, nat_eq, int_eq, bytes_eq, ◌==◌, if◌then◌else◌, ◌>>=◌,
}
use ndn_based_protocol.Prelude.Map.{Map, lookup}
use ndn_based_protocol.Declaration.{MacAddress}
use ndn_based_protocol.Util.{codes, slash, split}
use ndn_based_protocol.Util.Numbers.{ato_rid, atoll}
use ndn_based_protocol.Packet.{NdnInterest, NdnData, interest, data_packet, new_interest, new_data}
use ndn_based_protocol.Strategy.{Face, local_word, hop_word}
use ndn_based_protocol.Routing.Lsa.{
  LsaDataPack, LinkStateDigest, adj, rch, signed_ltb, generate_ls_digest, encode_lsa, decode_lsa,
}
use ndn_based_protocol.Routing.LsaDatabase.{find_lsa}
use ndn_based_protocol.Routing.MinimumHopTree.{get_registered_parent, get_registered_sons}
use ndn_based_protocol.Routing.Neighbor.{
  NeighborState, down, init, loading_done, cancel_lsa_interest_request, is_empty,
}
use ndn_based_protocol.Routing.Packs.{new_lsa_pack}
use ndn_based_protocol.Routing.PacketName.{global_lsa_timer, hop_lsa_name}
use ndn_based_protocol.Routing.Protocol.{
  Peer, Interface, Protocol, Environment, send_packet, start_retransmission, cancel_retransmission,
  get_neighbor_by_mac, get_neighbor_by_router_id, in_pending, remove_pending,
}
use ndn_based_protocol.Routing.Protocol.Triggers.{
  register_parents, send_info_to_all, send_info_to_children, rebuild_routing_table, put_peer,
  peer_event,
}
use ndn_based_protocol.Routing.RegisterController.{
  part_at, Novelty, unknown_router, newer, not_newer, novelty, insert_received,
}
use ndn_based_protocol.Routing.LsaController.{named_digest}

-- The interest for an LSA that an INFO announces: towards the parent, or without a face where there is none.
unfoldable pub request_lsa :
    Environment → Interface → LinkStateDigest → List Face → Protocol → Protocol
request_lsa env interface d faces s =
    let packet : NdnInterest = record (new_interest env.junk) {
      name = hop_lsa_name d;
      nonce = env.rand s.drawn;
      prefered_interfaces = faces;
    } in
    send_packet interface.mac_address (interest packet) (
      start_retransmission (global_lsa_timer d.router_id d.link_state_type d.sequence_num) packet
        interface.mac_address (record s { drawn = suc s.drawn }))

-- The faces of the sons that are neighbours.
unfoldable pub son_faces : List ℕ → Map ℤ Interface → List Face
son_faces [] interfaces = []
son_faces (son ∷ sons) interfaces =
    let rest = son_faces sons interfaces in
    elim (get_neighbor_by_router_id son interfaces) [
      | none ↦ rest
      | some (interface, peer) ↦ (interface.interface_id, peer.mac_address) ∷ rest
    ]

unfoldable pub forward_info : Interface → NdnInterest → ℕ → Protocol → Protocol
forward_info interface packet id s =
    let faces = son_faces (get_registered_sons s.minimum_hop_tree id) s.interfaces in
    elim faces [
      | [] ↦ s
      | face ∷ others ↦
          send_packet interface.mac_address
            (interest (record packet { prefered_interfaces = face ∷ others })) s
    ]

-- Whether an announced LSA is to be requested.
unfoldable pub is_wanted : LinkStateDigest → Protocol → Bool
is_wanted d s =
    elim (find_lsa s.database d.link_state_type d.router_id) [
      | none ↦ true
      | some existing ↦ signed_ltb existing.seq_num d.sequence_num
    ]
    && not (
        in_pending d.link_state_type d.router_id d.sequence_num
          s.broadcast_lsa_pending_request_list)

-- InfoController::onReceiveInterest for the digest of a name. The INFO is not passed on where the parent
-- is not a neighbour.
unfoldable pub handle_info :
    Environment → Interface → NdnInterest → LinkStateDigest → Protocol → Protocol
handle_info env interface packet d s =
    let recorded = record s {
      broadcast_lsa_pending_request_list = s.broadcast_lsa_pending_request_list ++ (d ∷ []);
    } in
    if d.router_id == s.router_id
    then s
    else if is_wanted d s
    then elim (get_registered_parent s.minimum_hop_tree d.router_id) [
      | none ↦ forward_info interface packet d.router_id (request_lsa env interface d [] recorded)
      | some parent ↦ elim (get_neighbor_by_router_id parent s.interfaces) [
        | none ↦ record recorded { drawn = suc s.drawn }
        | some (other, peer) ↦
            forward_info interface packet d.router_id
              (request_lsa env interface d ((other.interface_id, peer.mac_address) ∷ []) recorded)
      ]
    ]
    else forward_info interface packet d.router_id s

-- InfoController::onReceiveInterest
unfoldable pub on_info_interest : Environment → ℤ → MacAddress → NdnInterest → Protocol → Protocol
on_info_interest env index mac packet s = elim (lookup index s.interfaces) [
  | none ↦ s
  | some interface ↦
      let splits = split packet.name slash in
      if length splits == 7 then handle_info env interface packet (named_digest splits) s else s
]
