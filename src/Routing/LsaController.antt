-- ===== src/Routing/LsaController.antt =====
-- src/networkLayerPlus/ndnRouting/controller: LsaController. A packet on an interface that is
-- not there is dropped; the null pointer that interfaces[i] then enters is left out.
pub mod Newest
use ndn_based_protocol.Prelude.{
  ℕ, suc, ◌+◌, ◌-◌, ◌%◌, ◌^◌, ℤ, pos, negsuc, Bool, true, false, ◌&&◌, ◌||◌, not, Option, none,
  some, List, [], ◌∷◌, ◌++◌, length, nat_eq, int_eq, bytes_eq, ◌==◌, if◌then◌else◌, ◌>>=◌,
}
use ndn_based_protocol.Prelude.Map.{Map, lookup}
use ndn_based_protocol.Declaration.{MacAddress}
use ndn_based_protocol.Util.{codes, slash, split}
use ndn_based_protocol.Util.Numbers.{ato_rid, atoll}
use ndn_based_protocol.Packet.{NdnInterest, NdnData, interest, data_packet, new_interest, new_data}
use ndn_based_protocol.Strategy.{Face, local_word, hop_word}
use ndn_based_protocol.Routing.Lsa.{
  LsaDataPack, LinkStateDigest, adj, rch, signed_ltb, generate_ls_digest, encode_lsa, decode_lsa,
}
use ndn_based_protocol.Routing.LsaDatabase.{find_lsa}
use ndn_based_protocol.Routing.MinimumHopTree.{get_registered_parent, get_registered_sons}
use ndn_based_protocol.Routing.Neighbor.{
  before_exchange, loading_done, cancel_lsa_interest_request, is_empty,
}
use ndn_based_protocol.Routing.Packs.{new_lsa_pack}
use ndn_based_protocol.Routing.PacketName.{global_lsa_timer, hop_lsa_name}
use ndn_based_protocol.Routing.Protocol.{
  Peer, Interface, Protocol, Environment, send_packet, start_retransmission, cancel_retransmission,
  get_neighbor_by_mac, get_neighbor_by_router_id, in_pending, remove_pending,
}
use ndn_based_protocol.Routing.Protocol.Triggers.{
  register_parents, send_info_to_all, send_info_to_children, rebuild_routing_table, put_peer,
  peer_event,
}
use ndn_based_protocol.Routing.RegisterController.{
  part_at, Novelty, unknown_router, newer, not_newer, novelty, insert_received,
}

-- The 32 bits of an `int`.
abbrev pub to_word : ℤ → ℕ
to_word (pos n) = n % 2 ^ 32
to_word (negsuc n) = 2 ^ 32 - 1 - n % 2 ^ 32

-- splits[4] == "ADJ" ? ADJ : RCH
abbrev pub type_of : List ℕ → ℕ
type_of word = if word == codes "ADJ" then adj else rch

-- The digest of a name ".../<type>/<router id>/<sequence number>" of seven parts.
unfoldable pub named_digest : List (List ℕ) → LinkStateDigest
named_digest splits = record {
  router_id = ato_rid (part_at splits 5);
  link_state_type = type_of (part_at splits 4);
  sequence_num = to_word (atoll (part_at splits 6));
  ls_age = 0;
}

-- The LSA of an interest; a type that has no name is not found.
unfoldable pub requested_lsa : List (List ℕ) → Protocol → Option LsaDataPack
requested_lsa splits s =
    if part_at splits 4 == codes "ADJ"
    then find_lsa s.database adj (ato_rid (part_at splits 5))
    else if part_at splits 4 == codes "RCH"
    then find_lsa s.database rch (ato_rid (part_at splits 5))
    else none

abbrev pub send_data : List ℕ → List ℕ → List Face → Interface → Protocol → Protocol
send_data name content faces interface s =
    send_packet interface.mac_address
      (data_packet
        (record new_data { name = name; content = content; prefered_interfaces = faces }))
      s

-- An interest for an LSA of ours, which the neighbour answers.
unfoldable pub answer_local :
    Environment → ℤ → MacAddress → Interface → List ℕ → List (List ℕ) → Protocol → Protocol
answer_local env index mac interface name splits s = elim (requested_lsa splits s) [
  | none ↦ s
  | some lsa ↦ send_data name (env.encrypt (encode_lsa lsa)) ((index, mac) ∷ []) interface s
]

-- An interest that goes towards the router of the LSA.
unfoldable pub forward_hop : NdnInterest → ℕ → Protocol → Protocol
forward_hop packet id s = elim (get_registered_parent s.minimum_hop_tree id) [
  | none ↦ s
  | some target ↦ elim (get_neighbor_by_router_id target s.interfaces) [
    | none ↦ s
    | some (interface, peer) ↦
        send_packet interface.mac_address
          (interest (record packet {
            prefered_interfaces = (interface.interface_id, peer.mac_address) ∷ [];
          }))
          s
  ]
]

unfoldable pub answer_hop :
    Environment → Interface → NdnInterest → List (List ℕ) → Protocol → Protocol
answer_hop env interface packet splits s =
    let d = named_digest splits in
    elim (requested_lsa splits s) [
      | none ↦ forward_hop packet d.router_id s
      | some lsa ↦
          if lsa.seq_num == d.sequence_num
          then send_data packet.name (env.encrypt (encode_lsa lsa)) [] interface s
          else if signed_ltb d.sequence_num lsa.seq_num
          then send_data packet.name [] [] interface s
          else forward_hop packet d.router_id s
    ]

-- LsaController::onReceiveInterest
unfoldable pub on_lsa_interest : Environment → ℤ → MacAddress → NdnInterest → Protocol → Protocol
on_lsa_interest env index mac packet s =
    let splits = split packet.name slash in
    elim (lookup index s.interfaces) [
      | none ↦ s
      | some interface ↦ elim (get_neighbor_by_mac mac interface.neighbors) [
        | none ↦ s
        | some peer ↦
            if not (length splits == 7)
            then s
            else if part_at splits 2 == local_word
            then answer_local env index mac interface packet.name splits s
            else if part_at splits 2 == hop_word
            then answer_hop env interface packet splits s
            else s
      ]
    ]

-- The switch of onReceiveData: what enters the database, whether it is new, and the INFO that goes out.
unfoldable pub accept_lsa : Environment → ℤ → LsaDataPack → Protocol → Bool × Protocol
accept_lsa env index lsa s =
    if lsa.ls_type == adj || lsa.ls_type == rch
    then elim (novelty s lsa.ls_type lsa) [
      | unknown_router ↦ (true, send_info_to_all env lsa index (insert_received lsa s))
      | newer ↦ (true, send_info_to_children env lsa (insert_received lsa s))
      | not_newer ↦ (false, send_info_to_children env lsa s)
    ]
    else (false, s)

-- The body of the loop over the neighbours of an interface after a local LSA.
unfoldable pub finish_request :
    Environment → ℤ → Interface → LsaDataPack → Peer → Protocol → Option Protocol
finish_request env index interface lsa peer s =
    let n = cancel_lsa_interest_request peer.neighbor (generate_ls_digest lsa) in
    let peer' = record peer { neighbor = n } in
    if before_exchange peer.neighbor.state
    then some s
    else if is_empty n.local_lsa_pending_request_list
    then peer_event env index interface peer' loading_done s
    else some (put_peer index interface peer' s)

-- The loop. Each neighbour is looked up in the state that the last round left.
unfoldable pub finish_requests :
    Environment → ℤ → LsaDataPack → Map ℕ Peer → Protocol → Option Protocol
finish_requests env index lsa [] s = some s
finish_requests env index lsa (entry ∷ peers) s = do
  s' ← elim (lookup index s.interfaces) [
    | none ↦ some s
    | some interface ↦ elim (lookup entry.0 interface.neighbors) [
      | none ↦ some s
      | some peer ↦ finish_request env index interface lsa peer s
    ]
  ]
  finish_requests env index lsa peers s'

-- The end of a local request, or of one to a router further away.
unfoldable pub end_request :
    Environment → ℤ → Interface → Bool → LsaDataPack → Protocol → Option Protocol
end_request env index interface is_local lsa s =
    if is_local
    then finish_requests env index lsa interface.neighbors s
    else some (record s {
      broadcast_lsa_pending_request_list =
          remove_pending lsa.ls_type lsa.router_id lsa.seq_num s.broadcast_lsa_pending_request_list;
    })

-- LsaController::onReceiveData, for an LSA that has passed the checks.
unfoldable pub handle_lsa :
    Environment → ℤ → Interface → Bool → LsaDataPack → Protocol → Option Protocol
handle_lsa env index interface is_local lsa s =
    let (rebuild, accepted) = accept_lsa env index lsa s in
    end_request env index interface is_local lsa accepted
    >>= (λ t. if rebuild then register_parents env t >>= rebuild_routing_table env else some t)

-- An LSA that is decoded, with its signature and its router id checked.
unfoldable pub take_lsa : Environment → ℤ → Interface → Bool → List ℕ → Protocol → Option Protocol
take_lsa env index interface is_local content s = do
  let plain = env.decrypt content
  lsa ← decode_lsa new_lsa_pack plain (length plain)
  (if env.verify_signature lsa && env.verify_router_id lsa
      then handle_lsa env index interface is_local lsa s
      else some s)

unfoldable pub on_lsa_data : Environment → ℤ → MacAddress → NdnData → Protocol → Option Protocol
on_lsa_data env index mac packet s =
    let splits = split packet.name slash in
    let d = named_digest splits in
    let cancelled =
      cancel_retransmission (global_lsa_timer d.router_id d.link_state_type d.sequence_num) s in
    elim (lookup index s.interfaces) [
      | none ↦ some s
      | some interface ↦
          if not (length splits == 7)
          then some s
          else if length packet.content == 0
          then some (record cancelled {
            broadcast_lsa_pending_request_list =
                remove_pending d.link_state_type d.router_id d.sequence_num
                  cancelled.broadcast_lsa_pending_request_list;
          })
          else take_lsa env index interface (part_at splits 2 == local_word) packet.content
              cancelled
    ]
