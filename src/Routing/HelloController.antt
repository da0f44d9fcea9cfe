-- ===== src/Routing/HelloController.antt =====
-- src/networkLayerPlus/ndnRouting/controller/HelloController.cpp: onReceiveInterest. The interface of a hello and
-- its public key are used without a test: where they are not there, the answer is `none`.
use ndn_based_protocol.Prelude.{
  ℕ, ℤ, Bool, true, false, ◌&&◌, not, Option, none, some, List, [], ◌∷◌, nat_eq, int_eq, bytes_eq,
  ◌==◌, if◌then◌else◌, ◌>>=◌,
}
use ndn_based_protocol.Prelude.Map.{lookup}
use ndn_based_protocol.Declaration.{MacAddress}
use ndn_based_protocol.Packet.{NdnInterest}
use ndn_based_protocol.Routing.HelloPack.{HelloInterestPack, decode_hello}
use ndn_based_protocol.Routing.DatabaseHash.{database_hash}
use ndn_based_protocol.Routing.Neighbor.{
  new_neighbor, before_exchange, hello_received, twoway_received, oneway_received, invalid_hash,
  is_empty,
}
use ndn_based_protocol.Routing.Protocol.{Peer, Interface, Protocol, Environment}
use ndn_based_protocol.Routing.Protocol.Triggers.{all_neighbours_full, put_peer}
use ndn_based_protocol.Routing.Protocol.Events.{router_dead_seconds, event_at}

-- std::string(const char*), which reads up to a byte 0.
unfoldable pub c_string : List ℕ → Option (List ℕ)
c_string [] = none
c_string (b ∷ bytes) = elim (b == 0) [
  | true ↦ some []
  | false ↦ do rest ← c_string bytes; some (b ∷ rest)
]

-- Whether the hello names our address.
unfoldable pub has_address : ℕ → List ℕ → Bool
has_address ip [] = false
has_address ip (a ∷ addrs) = let rest = has_address ip addrs in if a == ip then true else rest

-- The events of a hello whose signature is right, and the check of the hash.
unfoldable pub hello_events : Environment → ℤ → ℕ → HelloInterestPack → Protocol → Option Protocol
hello_events env index ip pack s = do
  s1 ← event_at env index pack.router_id hello_received s
  s2 ←
      event_at env index pack.router_id
        (if has_address ip pack.neighbor then twoway_received else oneway_received) s1
  (if all_neighbours_full s2.interfaces
        && is_empty s2.broadcast_lsa_pending_request_list
        && not (database_hash env.md5 s2.database == pack.database_hash)
      then event_at env index pack.router_id invalid_hash s2
      else some s2)

-- A neighbour before the exchange is verified with the key in the hello, the others with theirs.
unfoldable pub check_hello :
    Environment → ℤ → ℕ → HelloInterestPack → Peer → Protocol → Option Protocol
check_hello env index ip pack peer s =
    if env.verify_hello (if before_exchange peer.neighbor.state then none else some peer.public_key)
      pack
    then hello_events env index ip pack s
    else some s

-- A hello of a router that is not recorded enters it.
unfoldable pub meet_neighbor :
    Environment → ℤ → Interface → MacAddress → HelloInterestPack → Protocol → Option Protocol
meet_neighbor env index interface mac pack s = do
  bytes ← pack.public_key
  key ← c_string bytes
  let peer : Peer = record {
    router_id = pack.router_id;
    mac_address = mac;
    ipv4_address = pack.interface_ip;
    ipv4_mask = pack.network_mask;
    public_key = key;
    neighbor = new_neighbor;
  }
  check_hello env index interface.ipv4_address pack peer (put_peer index interface peer s)

unfoldable pub handle_hello :
    Environment → ℤ → Interface → MacAddress → HelloInterestPack → Protocol → Option Protocol
handle_hello env index interface mac pack s =
    if not (pack.network_mask == interface.ipv4_mask)
    then some s
    else if not (pack.router_dead_interval == router_dead_seconds)
    then some s
    else elim (lookup pack.router_id interface.neighbors) [
      | some peer ↦ check_hello env index interface.ipv4_address pack peer s
      | none ↦
          if env.verify_hello_router_id pack
          then meet_neighbor env index interface mac pack s
          else some s
    ]

-- HelloController::onReceiveInterest
unfoldable pub on_hello_interest :
    Environment → ℤ → MacAddress → NdnInterest → Protocol → Option Protocol
on_hello_interest env index mac packet s = do
  pack ← decode_hello (env.decrypt packet.application_parameters)
  interface ← lookup index s.interfaces
  handle_hello env index interface mac pack s
