-- ===== src/Ip.antt =====
-- src/networkLayer/ip: Ipv4Address, RoutingTableItem and RoutingTable. An address is the `uint32_t` that
-- the code stores. `run` answers whether a `route` command succeeds.
pub mod Prefix
pub mod Items
use Prim.Native.Nat.{bit_and}
use ndn_based_protocol.Prelude.{
  ℕ, zero, suc, ◌+◌, ◌-◌, ◌*◌, ◌/◌, ◌%◌, ◌^◌, ℤ, pos, negsuc, Bool, true, false, ◌&&◌, List, [],
  ◌∷◌, ◌++◌, nat_eq, ◌==◌, if◌then◌else◌,
}

-- ntohl and htonl on a little-endian machine
unfoldable pub ntohl : ℕ → ℕ
ntohl a = a % 256 * 2 ^ 24 + a / 256 % 256 * 2 ^ 16 + a / 2 ^ 16 % 256 * 256 + a / 2 ^ 24 % 256

-- Ipv4Address::andMask
unfoldable pub and_mask : ℕ → ℕ → ℕ
unfolding ntohl
and_mask addr mask = ntohl (bit_and (ntohl addr) (ntohl mask))

-- The loop of getPrefixLength from the bit `i` on, of which `left` are left.
unfoldable pub prefix_from : ℕ → ℕ → ℕ → ℤ
prefix_from zero i mask = negsuc 0
prefix_from (suc left) i mask =
    let rest = prefix_from left (suc i) mask in if mask / 2 ^ i % 2 == 1 then pos (32 - i) else rest

-- Ipv4Address::getPrefixLength
unfoldable pub get_prefix_length : ℕ → ℤ
unfolding prefix_from ntohl
get_prefix_length addr = prefix_from 32 0 (ntohl addr)

pub record RoutingTableItem : Type 0 where
  pub destination : ℕ
  pub mask : ℕ
  pub next_hop : ℕ
  pub from_routing_protocol : Bool

-- RoutingTableItem(_dest, _mask, _nextHop)
unfoldable pub new_item : ℕ → ℕ → ℕ → RoutingTableItem
new_item dest mask next_hop = record {
  destination = and_mask dest mask;
  mask = mask;
  next_hop = next_hop;
  from_routing_protocol = false;
}

-- route add -net <destination>/<prefix> gw <next hop>, and route delete -net <destination>/<prefix>
pub data Command : Type 0 where
  route_add : ℕ → ℤ → ℕ → Command
  route_delete : ℕ → ℤ → Command

abbrev pub RoutingTable : Type 0
RoutingTable = List RoutingTableItem

abbrev pub same_net : RoutingTableItem → RoutingTableItem → Bool
same_net i j = i.destination == j.destination && i.mask == j.mask

unfoldable pub has_net : RoutingTableItem → RoutingTable → Bool
has_net item [] = false
has_net item (i ∷ table) = let rest = has_net item table in if same_net i item then true else rest

unfoldable pub erase_net : RoutingTableItem → RoutingTable → RoutingTable
erase_net item [] = []
erase_net item (i ∷ table) =
    let rest = erase_net item table in if same_net i item then table else i ∷ rest

module _ (run : Command → Bool) where
  -- RoutingTable::addRoutingTableItem
  unfoldable pub add_routing_table_item : RoutingTable → RoutingTableItem → Bool × RoutingTable
  add_routing_table_item table item =
      if has_net item table
      then (false, table)
      else if run (route_add item.destination (get_prefix_length item.mask) item.next_hop)
      then (true, table ++ (item ∷ []))
      else (false, table)

  -- RoutingTable::deleteRoutingTableItem
  unfoldable pub delete_routing_table_item : RoutingTable → RoutingTableItem → Bool × RoutingTable
  delete_routing_table_item table item =
      if has_net item table
      then (if run (route_delete item.destination (get_prefix_length item.mask))
          then (true, erase_net item table)
          else (false, table))
      else (false, table)

  -- The loop of removeAllItem over the copy.
  unfoldable pub remove_items : RoutingTable → RoutingTable → RoutingTable
  remove_items [] table = table
  remove_items (i ∷ copy) table =
      remove_items copy
        (if i.from_routing_protocol then (delete_routing_table_item table i).1 else table)

  -- RoutingTable::removeAllItem
  unfoldable pub remove_all_item : RoutingTable → RoutingTable
  remove_all_item table = remove_items table table
