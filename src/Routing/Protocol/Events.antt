-- ===== src/Routing/Protocol/Events.antt =====
-- src/networkLayerPlus/ndnRouting: the events of a neighbour in the table of its interface, the hello packet, and
-- model/neighbor/NdnRoutingNeighbor.cpp: dragPeerToInit. A use of a null pointer is `none`.
use ndn_based_protocol.Prelude.{
  ℕ, zero, suc, ◌%◌, ℤ, Option, some, List, [], ◌∷◌, ◌++◌, take_exact, nat_eq, int_eq, ◌>>=◌,
}
use ndn_based_protocol.Prelude.Map.{lookup}
use ndn_based_protocol.Declaration.{broadcast_mac}
use ndn_based_protocol.Util.{codes}
use ndn_based_protocol.Packet.{NdnInterest, interest, new_interest}
use ndn_based_protocol.Routing.Lsa.{public_key_length}
use ndn_based_protocol.Routing.HelloPack.{HelloInterestPack, hash_length, encode_hello}
use ndn_based_protocol.Routing.Neighbor.{
  Neighbor, NeighborEvent, oneway_received, Action, clear, process_event,
}
use ndn_based_protocol.Routing.Protocol.{Interface, Protocol, Environment, send_packet, zeros}
use ndn_based_protocol.Routing.Protocol.Triggers.{perform_all, put_peer}

-- NDNROUTING_HELLOINTERVAL and NDNROUTING_ROUTERDEADINTERVAL
abbrev pub hello_seconds : ℕ
hello_seconds = 10

abbrev pub router_dead_seconds : ℕ
router_dead_seconds = 40

-- A change of the neighbour `id`, with the packets that it sends.
unfoldable pub change_peer :
    Environment → ℤ → ℕ → (Neighbor → Neighbor × List Action) → Protocol → Option Protocol
change_peer env index id change s = do
  interface ← lookup index s.interfaces
  peer ← lookup id interface.neighbors
  perform_all env interface peer (change peer.neighbor).1
      (put_peer index interface (record peer { neighbor = (change peer.neighbor).0 }) s)

-- NdnRoutingNeighbor::processEvent
unfoldable pub event_at : Environment → ℤ → ℕ → NeighborEvent → Protocol → Option Protocol
event_at env index id event s = change_peer env index id (λ n. process_event s.database n event) s

-- The pack of a hello, signed.
unfoldable pub make_hello :
    Environment → Interface → ℕ → List ℕ → List ℕ → List ℕ → HelloInterestPack
make_hello env interface id neighbor hash key =
    let unsigned : HelloInterestPack = record {
      router_id = id;
      interface_ip = interface.ipv4_address;
      network_mask = interface.ipv4_mask;
      hello_interval = hello_seconds;
      router_dead_interval = router_dead_seconds;
      neighbor = neighbor;
      database_hash = hash;
      signature = zeros 128;
      public_key = some key;
    } in
    record unsigned { signature = env.sign_hello unsigned }

-- "/routing/local/hello", to all on the interface.
unfoldable pub hello_packet : Environment → ℤ → HelloInterestPack → ℕ → NdnInterest
hello_packet env index pack nonce = record (new_interest env.junk) {
  name = codes "/routing/local/hello";
  nonce = nonce;
  application_parameters = env.encrypt (encode_hello env.junk pack);
  prefered_interfaces = (index, broadcast_mac) ∷ [];
}

unfoldable pub repeated : ℕ → ℕ → List ℕ
repeated zero b = []
repeated (suc n) b = b ∷ repeated n b

-- NdnRoutingNeighbor::dragPeerToInit. The pack holds the public key of the neighbour, and a hash that has
-- no initialiser.
unfoldable pub drag_peer_to_init : Environment → ℤ → ℕ → Protocol → Option Protocol
drag_peer_to_init env index id s = do
  interface ← lookup index s.interfaces
  peer ← lookup id interface.neighbors
  key ← take_exact public_key_length (peer.public_key ++ (0 ∷ []))
  let pack = make_hello env interface s.router_id [] (repeated hash_length (env.junk % 256)) key
  let packet = hello_packet env interface.interface_id pack (env.rand s.drawn)
  cleared ← change_peer env index id (λ n. (clear n, [])) (record s { drawn = suc s.drawn })
  s' ← event_at env index id oneway_received cleared
  some (send_packet interface.mac_address (interest packet) s')
