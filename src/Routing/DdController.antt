-- ===== src/Routing/DdController.antt =====
-- src/networkLayerPlus/ndnRouting/controller/DDController.cpp. A packet on an interface that is not there is
-- dropped; the null pointer that interfaces[i] then enters is left out.
use ndn_based_protocol.Prelude.{
  ℕ, suc, ℤ, pos, negsuc, Bool, true, false, ◌&&◌, ◌||◌, not, Option, none, some, List, [], ◌∷◌,
  ltb, length, nat_eq, int_eq, ◌==◌, if◌then◌else◌, ◌>>=◌,
}
use ndn_based_protocol.Prelude.Map.{lookup}
use ndn_based_protocol.Declaration.{MacAddress}
use ndn_based_protocol.Util.{slash, split}
use ndn_based_protocol.Util.Numbers.{atoll, to_unsigned}
use ndn_based_protocol.Packet.{NdnInterest, NdnData, data_packet, new_data}
use ndn_based_protocol.Routing.Lsa.{LinkStateDigest, adj, rch, digest_older, generate_ls_digest}
use ndn_based_protocol.Routing.LsaDatabase.{find_lsa}
use ndn_based_protocol.Routing.Graph.{int_ltb}
use ndn_based_protocol.Routing.DdPack.{DdWirePack, encode_dd, decode_dd}
use ndn_based_protocol.Routing.Neighbor.{
  NeighborState, init, DdDataPack, dd_interest, twoway_received, exchange_done, delete_timer,
  send_dd_interest, send_local_lsa_interest,
}
use ndn_based_protocol.Routing.Neighbor.DdData.{send_dd_data}
use ndn_based_protocol.Routing.Protocol.{
  Peer, Interface, Protocol, Environment, send_packet, get_neighbor_by_mac, in_pending, zeros,
}
use ndn_based_protocol.Routing.Protocol.Triggers.{put_peer}
use ndn_based_protocol.Routing.Protocol.Events.{change_peer, event_at, drag_peer_to_init}
use ndn_based_protocol.Routing.RegisterController.{part_at}

-- MTU
abbrev pub mtu : ℕ
mtu = 1500

abbrev pub is_init : NeighborState → Bool
is_init init = true
is_init _ = false

-- The pack as it is sent, signed.
unfoldable pub wire_pack : Environment → Interface → DdDataPack → DdWirePack
wire_pack env interface p =
    let unsigned : DdWirePack = record {
      neighbor = to_unsigned interface.interface_id;
      interface_mtu = mtu;
      number_of_dd_packets = p.number_of_dd_packets;
      ls = p.ls;
      signature = zeros 128;
    } in
    record unsigned { signature = env.sign_dd unsigned }

-- sendDDData, or dragPeerToInit where it refuses the index, as it does a negative one.
unfoldable pub answer_dd : Environment → ℤ → ℕ → List ℕ → ℤ → Protocol → Option Protocol
answer_dd env index id name (negsuc n) s = drag_peer_to_init env index id s
answer_dd env index id name (pos n) s = do
  interface ← lookup index s.interfaces
  peer ← lookup id interface.neighbors
  elim (send_dd_data peer.neighbor n) [
    | none ↦ drag_peer_to_init env index id s
    | some (neighbor, pack) ↦ do
      p ← pack
      some (
          send_packet interface.mac_address
            (data_packet (record new_data {
              name = name;
              content = env.encrypt (encode_dd (wire_pack env interface p));
              prefered_interfaces = (interface.interface_id, peer.mac_address) ∷ [];
            }))
            (put_peer index interface (record peer { neighbor = neighbor }) s))
  ]

unfoldable pub handle_dd_interest : Environment → ℤ → Peer → List ℕ → Protocol → Option Protocol
handle_dd_interest env index peer name s = do
  let splits = split name slash
  s1 ←
      if is_init peer.neighbor.state
      then event_at env index peer.router_id twoway_received s
      else some s
  (if ltb (length splits) 6
      then some s1
      else answer_dd env index peer.router_id name (atoll (part_at splits 5)) s1)

-- DDController::onReceiveInterest
unfoldable pub on_dd_interest :
    Environment → ℤ → MacAddress → NdnInterest → Protocol → Option Protocol
on_dd_interest env index mac packet s = elim (lookup index s.interfaces) [
  | none ↦ some s
  | some interface ↦ elim (get_neighbor_by_mac mac interface.neighbors) [
    | none ↦ some s
    | some peer ↦ handle_dd_interest env index peer packet.name s
  ]
]

-- Whether an LSA of the neighbour's summary is to be requested.
unfoldable pub is_missing : LinkStateDigest → Protocol → Bool
is_missing d s = elim (find_lsa s.database d.link_state_type d.router_id) [
  | none ↦ true
  | some existing ↦
      digest_older (generate_ls_digest existing) d
      && not (
          in_pending d.link_state_type d.router_id d.sequence_num
            s.broadcast_lsa_pending_request_list)
]

-- The loop over the digests; `false` where a type that is none of the two ends the function.
unfoldable pub request_digests :
    Environment → ℤ → ℕ → List LinkStateDigest → Protocol → Option (Bool × Protocol)
request_digests env index id [] s = some (true, s)
request_digests env index id (d ∷ ds) s =
    if d.link_state_type == adj || d.link_state_type == rch
    then (do
      s' ←
          if is_missing d s
          then change_peer env index id (λ n. send_local_lsa_interest n d) s
          else some s
      request_digests env index id ds s')
    else some (false, s)

-- What follows the pack of the index `received`: the end of the exchange, or the next interest.
unfoldable pub next_pack : Environment → ℤ → ℕ → ℕ → ℕ → Protocol → Option Protocol
next_pack env index id received number s = do
  s1 ← change_peer env index id (λ n. (record n { receiving_index = suc n.receiving_index }, [])) s
  (if suc received == number || number == 0
      then event_at env index id exchange_done s1
      else change_peer env index id send_dd_interest s1)

-- The digests of a pack whose signature is right, and what follows.
unfoldable pub take_pack : Environment → ℤ → ℕ → ℕ → DdWirePack → Protocol → Option Protocol
take_pack env index id received pack s = do
  (through, s') ← request_digests env index id pack.ls s
  elim through [
    | false ↦ some s'
    | true ↦ next_pack env index id received pack.number_of_dd_packets s'
  ]

-- The part of onReceiveData behind the tests of the index.
unfoldable pub handle_dd_data : Environment → ℤ → Peer → List ℕ → Protocol → Option Protocol
handle_dd_data env index peer content s = do
  let received = peer.neighbor.receiving_index
  let plain = env.decrypt content
  s1 ← change_peer env index peer.router_id (λ n. (delete_timer n (dd_interest received), [])) s
  pack ← decode_dd plain (length plain)
  elim (env.verify_dd peer.public_key pack) [
    | false ↦ some s1
    | true ↦ take_pack env index peer.router_id received pack s1
  ]

unfoldable pub check_dd_data : Environment → ℤ → Peer → NdnData → Protocol → Option Protocol
check_dd_data env index peer packet s =
    let splits = split packet.name slash in
    let offered = atoll (part_at splits 5) in
    let expected = pos peer.neighbor.receiving_index in
    if ltb (length splits) 6
    then some s
    else if int_ltb offered expected
    then some s
    else if int_ltb expected offered
    then drag_peer_to_init env index peer.router_id s
    else handle_dd_data env index peer packet.content s

-- DDController::onReceiveData. A pack for a neighbour that is not in the exchange state is only logged.
unfoldable pub on_dd_data : Environment → ℤ → MacAddress → NdnData → Protocol → Option Protocol
on_dd_data env index mac packet s = elim (lookup index s.interfaces) [
  | none ↦ some s
  | some interface ↦ elim (get_neighbor_by_mac mac interface.neighbors) [
    | none ↦ some s
    | some peer ↦ check_dd_data env index peer packet s
  ]
]
