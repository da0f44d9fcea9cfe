-- ===== src/Tests/Routes.antt =====
-- Addresses, numbers as text, the IP routing table and the registration packs at concrete values.
use ndn_based_protocol.Prelude.{
  ◌≡◌, ◌⊎◌, ◌-◌, ◌^◌, refl, pos, Bool, true, false, none, some, [], ◌∷◌, ◌++◌, length, ltb, arith,
  nat_eq, if◌then◌else◌,
}
use mathlib.Core.List.{Permᴰ}
use mathlib.Core.List.Perm
use ndn_based_protocol.Util.Numbers.{to_string, atoll, ato_rid}
use ndn_based_protocol.Util.Numbers.Digits.{ato_rid-to_string}
use ndn_based_protocol.Ip.{
  ntohl, get_prefix_length, RoutingTableItem, RoutingTable, Command, has_net,
  add_routing_table_item, delete_routing_table_item, remove_all_item,
}
use ndn_based_protocol.Ip.Prefix.{mask_of, get_prefix_length-mask_of}
use ndn_based_protocol.Ip.Items.{Distinct, others, operations-Distinct}
use ndn_based_protocol.Routing.Packs.{RegisterDataPack, encode_register_data, decode_register_data}
use ndn_based_protocol.Routing.Packs.RoundTrip.{decode-encode_register_data}
use ndn_based_protocol.Routing.HelloPack.{HelloInterestPack, hello_size, encode_hello, decode_hello}
use ndn_based_protocol.Routing.HelloPack.RoundTrip.{IsHello, decode-encode_hello}
use ndn_based_protocol.Routing.DdPack.{DdWirePack, dd_size, encode_dd, decode_dd}
use ndn_based_protocol.Routing.DdPack.RoundTrip.{IsDd, decode-encode_dd}
use ndn_based_protocol.Routing.LsaDatabase.{LsaDatabase}
use ndn_based_protocol.Routing.DatabaseHash.{database_hash}
use ndn_based_protocol.Routing.DatabaseHash.AnyOrder.{database_hash-Perm}
use ndn_based_protocol.Routing.LsaDatabase.Routes.{calculate_routing_table}
use ndn_based_protocol.Routing.LsaDatabase.Routes.Table.{calculate_routing_table-others}
use ndn_based_protocol.Tests.Routing.{our_lsa, our_lsa-IsLsa, one_lsa, digest_1, digest_1-IsDigest}

ato_rid-to_string_example :
    (ato_rid (to_string 12345678901234567890) ≡ 12345678901234567890)
    × (atoll (to_string 12345678901234567890) ≡ (
        if ltb 12345678901234567890 (2 ^ 63) then pos 12345678901234567890 else pos (2 ^ 63 - 1)))
ato_rid-to_string_example = ato_rid-to_string 12345678901234567890 (omega arith)

get_prefix_length-mask_of_example : get_prefix_length (ntohl (mask_of 24)) ≡ pos 24
get_prefix_length-mask_of_example = get_prefix_length-mask_of 24 (omega arith)

abbrev succeeding : Command → Bool
succeeding command = true

abbrev ours : RoutingTableItem
ours = record { destination = 43200; mask = 65535; next_hop = 9; from_routing_protocol = true }

abbrev static : RoutingTableItem
static = record { destination = 10; mask = 255; next_hop = 8; from_routing_protocol = false }

abbrev two_items : RoutingTable
two_items = ours ∷ static ∷ []

two_items-Distinct : Distinct two_items
unfolding has_net
two_items-Distinct = (refl, (refl, tt))

operations-Distinct_example :
    Distinct (add_routing_table_item succeeding two_items static).1
    × (((add_routing_table_item succeeding two_items static).1 ≡ two_items)
        ⊎ ((has_net static two_items ≡ false)
            × ((add_routing_table_item succeeding two_items static).1
                ≡ two_items ++ (static ∷ []))))
    × Distinct (delete_routing_table_item succeeding two_items static).1
    × Distinct (remove_all_item succeeding two_items)
operations-Distinct_example = operations-Distinct succeeding two_items static two_items-Distinct

calculate_routing_table-others_example :
    (table : RoutingTable) × (calculate_routing_table succeeding 0 one_lsa 11 two_items
      ≡ some table)
    × Distinct table
    × (others table ≡ others two_items)
calculate_routing_table-others_example =
    calculate_routing_table-others succeeding 0 one_lsa 11 two_items (λ dest prefix. refl)
      two_items-Distinct

abbrev answer : RegisterDataPack
answer = record { adj_lsa = some our_lsa; rch_lsa = none }

decode-encode_register_data_example :
    decode_register_data (encode_register_data answer) ≡ some answer
decode-encode_register_data_example =
    decode-encode_register_data answer (our_lsa-IsLsa, omega arith) tt

abbrev hello : HelloInterestPack
hello = record {
  router_id = 11;
  interface_ip = 3232235777;
  network_mask = 4294967040;
  hello_interval = 10;
  router_dead_interval = 40;
  neighbor = 3232235778 ∷ 3232235779 ∷ [];
  database_hash = 1 ∷ 2 ∷ 3 ∷ 4 ∷ 5 ∷ 6 ∷ 7 ∷ 8 ∷ 9 ∷ 10 ∷ 11 ∷ 12 ∷ 13 ∷ 14 ∷ 15 ∷ 16 ∷ [];
  signature = our_lsa.signature;
  public_key = some our_lsa.public_key;
}

hello-IsHello : IsHello hello
hello-IsHello = record {
  id = omega arith;
  ip = omega arith;
  mask = omega arith;
  period = omega arith;
  dead = omega arith;
  small = omega arith;
  addresses = (omega arith, (omega arith, tt));
  hash = refl;
  sign = refl;
  key = refl;
}

decode-encode_hello_example :
    (length (encode_hello 0 hello) ≡ hello_size hello)
    × (decode_hello (encode_hello 0 hello) ≡ some hello)
decode-encode_hello_example = decode-encode_hello hello hello-IsHello

abbrev two_digests : DdWirePack
two_digests = record {
  neighbor = 2;
  interface_mtu = 1500;
  number_of_dd_packets = 1;
  ls = digest_1 ∷ digest_1 ∷ [];
  signature = our_lsa.signature;
}

two_digests-IsDd : IsDd two_digests
two_digests-IsDd = record {
  id = omega arith;
  size = omega arith;
  number = omega arith;
  small = omega arith;
  digests = (digest_1-IsDigest, (digest_1-IsDigest, tt));
  sign = refl;
}

decode-encode_dd_example :
    (length (encode_dd two_digests) ≡ dd_size two_digests)
    × (decode_dd (encode_dd two_digests ++ (1 ∷ 2 ∷ [])) (dd_size two_digests) ≡ some two_digests)
decode-encode_dd_example = decode-encode_dd two_digests (1 ∷ 2 ∷ []) two_digests-IsDd

abbrev a_then_b : LsaDatabase
a_then_b = record { adj_lsa = our_lsa ∷ record our_lsa { router_id = 12 } ∷ []; rch_lsa = [] }

abbrev b_then_a : LsaDatabase
b_then_a = record { adj_lsa = record our_lsa { router_id = 12 } ∷ our_lsa ∷ []; rch_lsa = [] }

database_hash-Perm_example :
    database_hash (λ bytes. bytes) a_then_b ≡ database_hash (λ bytes. bytes) b_then_a
database_hash-Perm_example =
    database_hash-Perm (λ bytes. bytes) a_then_b b_then_a ∣ Permᴰ.swap refl refl ∣₁ (Perm.refl [])
