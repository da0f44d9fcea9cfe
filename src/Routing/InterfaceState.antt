-- ===== src/Routing/InterfaceState.antt =====
-- src/networkLayerPlus/ndnRouting/model/interface: the two states of an interface, and NdnRoutingProtocol::start.
-- `hello_timers` holds the interfaces whose hello timer runs.
use ndn_based_protocol.Prelude.{
  ℕ, ℤ, Bool, true, false, Option, some, List, [], ◌∷◌, nat_eq, int_eq, ◌==◌, if◌then◌else◌, ◌>>=◌,
}
use ndn_based_protocol.Prelude.Map.{Map, lookup, insert}
use ndn_based_protocol.Declaration.{MacAddress}
use ndn_based_protocol.Routing.Neighbor.{ll_down}
use ndn_based_protocol.Routing.Protocol.{
  Peer, Interface, InterfaceState, down, up, Protocol, Environment,
}
use ndn_based_protocol.Routing.Protocol.Events.{event_at}

-- enum class NdnRoutingInterfaceEventType
pub data InterfaceEvent : Type 0 where
  interface_up : InterfaceEvent
  interface_down : InterfaceEvent

unfoldable pub remove_hello : ℤ → List ℤ → List ℤ
remove_hello index [] = []
remove_hello index (i ∷ timers) =
    let rest = remove_hello index timers in if i == index then timers else i ∷ rest

unfoldable pub has_hello : ℤ → List ℤ → Bool
has_hello index [] = false
has_hello index (i ∷ timers) =
    let rest = has_hello index timers in if i == index then true else rest

abbrev pub add_hello : ℤ → List ℤ → List ℤ
add_hello index timers = if has_hello index timers then timers else index ∷ timers

-- The loop of NdnRoutingInterface::clear
unfoldable pub all_down : Environment → ℤ → Map ℕ Peer → Protocol → Option Protocol
all_down env index [] s = some s
all_down env index (entry ∷ peers) s = do
  s' ← event_at env index entry.0 ll_down s
  all_down env index peers s'

-- A change of the interface itself.
unfoldable pub put_interface : ℤ → Interface → Protocol → Protocol
put_interface index interface s = record s { interfaces = insert index interface s.interfaces }

-- NdnRoutingInterfaceDown::processEvent and NdnRoutingInterfaceUp::processEvent
unfoldable pub process_in :
    Environment → ℤ → Interface → InterfaceState → InterfaceEvent → Protocol → Option Protocol
process_in env index interface down interface_up s = some (
    put_interface index (record interface { state = up })
      (record s { hello_timers = add_hello interface.interface_id s.hello_timers }))
process_in env index interface up interface_down s = do
  s1 ←
      all_down env index interface.neighbors
        (record s { hello_timers = remove_hello interface.interface_id s.hello_timers })
  some (put_interface index (record interface { neighbors = []; state = down }) s1)
process_in env index interface _ _ s = some s

-- NdnRoutingInterface::processInterfaceEvent
unfoldable pub process_interface_event :
    Environment → ℤ → InterfaceEvent → Protocol → Option Protocol
process_interface_event env index event s = do
  interface ← lookup index s.interfaces
  process_in env index interface interface.state event s

-- What NicManager tells of an interface.
pub record Nic : Type 0 where
  pub interface_id : ℤ
  pub mac_address : MacAddress
  pub ipv4_address : ℕ
  pub ipv4_mask : ℕ

-- NdnRoutingProtocol::start, over the interfaces of the NIC manager.
unfoldable pub start : Environment → List Nic → Protocol → Option Protocol
start env [] s = some s
start env (nic ∷ nics) s = do
  s' ← process_interface_event env nic.interface_id interface_up (
      put_interface nic.interface_id
        (record {
          interface_id = nic.interface_id;
          mac_address = nic.mac_address;
          ipv4_address = nic.ipv4_address;
          ipv4_mask = nic.ipv4_mask;
          cost = 1;
          neighbors = [];
          state = down;
        })
        s)
  start env nics s'
