-- ===== src/Routing/Dispatch.antt =====
-- src/networkLayerPlus/ndnRouting/NdnRoutingProtocol.cpp: onReceiveNdnPacket.
pub mod Kept
pub mod Exchange
pub mod Received
pub mod Registered
pub mod Invariant
pub mod Reachable
use ndn_based_protocol.Prelude.{
  ℕ, ℤ, Bool, false, Option, none, some, List, ltb, length, bytes_eq, ◌==◌, ◌&&◌, if◌then◌else◌,
}
use Prim.Native.String.{String}
use ndn_based_protocol.Declaration.{MacAddress}
use ndn_based_protocol.Util.{codes, slash, split}
use ndn_based_protocol.Packet.{NdnInterest, NdnData, NdnPacket, interest, data_packet}
use ndn_based_protocol.Routing.Protocol.{Protocol, Environment}
use ndn_based_protocol.Routing.RegisterController.{
  part_at, on_register_interest, on_register_data, on_deregister_interest, on_deregister_data,
}
use ndn_based_protocol.Routing.LsaController.{on_lsa_interest, on_lsa_data}
use ndn_based_protocol.Routing.InfoController.{on_info_interest}
use ndn_based_protocol.Routing.HelloController.{on_hello_interest}
use ndn_based_protocol.Routing.DdController.{on_dd_interest, on_dd_data}

-- splits.size() > 3 && splits[3] == word
abbrev pub is_kind : String → List ℕ → Bool
is_kind word name =
    let splits = split name slash in ltb 3 (length splits) && part_at splits 3 == codes word

-- NdnRoutingProtocol::onReceiveNdnPacket
unfoldable pub on_receive_ndn_packet :
    Environment → ℤ → MacAddress → NdnPacket → Protocol → Option Protocol
on_receive_ndn_packet env index mac (interest p) s =
    if is_kind "hello" p.name
    then on_hello_interest env index mac p s
    else if is_kind "dd" p.name
    then on_dd_interest env index mac p s
    else if is_kind "LSA" p.name
    then some (on_lsa_interest env index mac p s)
    else if is_kind "INFO" p.name
    then some (on_info_interest env index mac p s)
    else if is_kind "register" p.name
    then on_register_interest index mac p s
    else if is_kind "deregister" p.name
    then on_deregister_interest index mac p s
    else some s
on_receive_ndn_packet env index mac (data_packet p) s =
    if is_kind "dd" p.name
    then on_dd_data env index mac p s
    else if is_kind "LSA" p.name
    then on_lsa_data env index mac p s
    else if is_kind "INFO" p.name
    then some s
    else if is_kind "register" p.name
    then on_register_data env index mac p s
    else if is_kind "deregister" p.name
    then on_deregister_data index mac p s
    else some s
