-- ===== src/Lib.antt =====
-- Models and proofs for the NDN stack of this repository (src/): the TLV wire format, NDN packets,
-- the forwarding tables, the forwarding pipelines of NdnProtocol, and of the routing protocol the link
-- state advertisements, their database, the topology graph, the minimum hop trees, the neighbours, the
-- controllers, the interfaces and the routing table.
--
-- How the parts interact. A frame arrives at NdnProtocol::onReceiveEthernetPacket, which decodes the
-- payload with NdnPacket::decode. That uses TlvObject and TlvObjectList. The packet then goes through
-- the interest or the data pipeline, which use the dead nonce list, the pending interest table with
-- one timer for each entry, the content store, and the two strategies that choose the faces. Packets
-- leave through sendPacket, to an interface or to an upper protocol. The routing protocol exchanges
-- digests of LSAs and the LSAs, keeps them in the LSA database, and computes trees on the graph of
-- their links. It registers with its parent on the tree of each root; an LSA of the root then goes from
-- parent to son, announced by INFO. Each new LSA triggers the computation of the parents and of the IP
-- routing table, which holds the shortest paths.
--
-- Files, and the code that they model:
--   Declaration      src/util/declaration.h, and the MAC address constants
--   Util             src/util/util.cpp: split and join
--   Util/Numbers     decimal text, and src/networkLayerPlus/ndnRouting/dataPack/PacketCommon.h: atoRID
--   Ip               src/networkLayer/ip: Ipv4Address, RoutingTable, RoutingTableItem
--   Tlv              src/networkLayer/ndn/ndnPacket/tlv/TlvObject.{h,cpp}
--   Tlv/ObjectList   src/networkLayer/ndn/ndnPacket/tlv/TlvObjectList.{h,cpp}
--   Packet           src/networkLayer/ndn/ndnPacket/NdnInterest.cpp, NdnData.cpp, NdnPacket.cpp
--   Pit              src/networkLayer/ndn/component/pit: PitInRecord, PitEntry, Pit
--   DeadNonceList    src/networkLayer/ndn/component/deadNonceList/DeadNonceList.{h,cpp}
--   ContentStore     src/networkLayer/ndn/component/cs/ContentStore.{h,cpp}
--   Strategy         src/networkLayer/ndn/strategy: MyNextHopStrategy, MyForwardStrategy
--   NdnProtocol      src/networkLayer/ndn/NdnProtocol.{h,cpp}, src/util/timer/Timer.cpp
--   Routing          src/networkLayerPlus/ndnRouting, with
--     Lsa            dataPack/NdnLink.cpp, LinkStateDigest.cpp, LsaDataPack.cpp
--     LsaDatabase    model/lsaDatabase/LsaDatabase.cpp
--     LsaDatabase/Topology, LsaDatabase/Routes: calculateMinHopTree and calculateRoutingTable of it
--     Graph          model/lsaDatabase/Graph.cpp, with Graph/ShortestPath for calculateShortestPath
--     MinimumHopTree model/tree/MinimumHopTree.cpp
--     Neighbor       model/neighbor/NdnRoutingNeighbor.cpp and the five states in state
--     Packs          dataPack/RegisterInterestPack.cpp, DeRegisterInterestPack.cpp, RegisterDataPack.cpp
--     HelloPack, DdPack  dataPack/HelloInterestPack.cpp, DDDataPack.cpp
--     PacketName     the names of the packets
--     DatabaseHash   LsaDatabase::databaseHash
--     Protocol       NdnRoutingProtocol.{h,cpp}, model/interface/NdnRoutingInterface.cpp
--     RegisterController  controller/RegisterController.cpp, DeRegisterController.cpp
--     LsaController  controller/LsaController.cpp
--     InfoController controller/InfoController.cpp
--     HelloController, DdController  controller/HelloController.cpp, DDController.cpp
--     CronJobHandler controller/CronJobHandler.cpp
--     InterfaceState model/interface: the two states, and NdnRoutingProtocol::start
--     Dispatch       NdnRoutingProtocol::onReceiveNdnPacket; Dispatch/Reachable has the steps of the protocol
--   Prelude          shared types, tests and lemmas; Tests holds examples
-- The definitions have the names of the functions that they model, in snake case.
--
-- Conventions. A byte is a natural number, a string or a buffer is a list of bytes, and a machine
-- integer is a natural number with its wrap-around written out. A read past the end of a buffer is
-- `none`, as is the use of a null pointer: C++ leaves both undefined. An unordered map is an
-- association list whose iteration order is the list's. An `int` that names an interface is an
-- integer. TlvObjectList::decode runs on the length of the buffer plus one as fuel: each object takes
-- at least one byte, so that is enough. LsaDataPack::decode runs on the length of the data, of which each
-- round passes 22 bytes; Graph::calculateMinHopTree on the number of edges plus two, since each layer
-- but the last adds a node that an edge leads to; Graph::calculateShortestPath on the number of edges plus
-- two, since each edge is pushed at most once. A number has at most as many digits as its value plus one.
--
-- A handler maps the state and its arguments to the state after its last change and the packets that
-- it then sends, in order. The code holds one lock in each handler, so that handlers run one after
-- another. CityHash32 and the interfaces of the NIC manager are parameters.
-- The routing protocol takes a record of parameters: the sequences of values that rand and the clock
-- give, the cipher, the signatures and their verification, the hash, and whether a route command succeeds.
--
-- Not modelled: the threads and the durations of the timers (a timer that is armed may run at any
-- time), logging, audit and text output, the rules of the ACL, whose answer the controllers drop, the link
-- layer, the address assignment, and the block chain. The sizes of the packs that hello, DDDataPack and
-- LsaDataPack encode are `int`s: the encoders are modelled where the size is below 2 ^ 31, which their
-- round trips ask for. strtoll stops at the bounds of `long long`, which the C standard leaves open for atoll.
-- A packet on an interface that is not there is dropped, and the null pointer that interfaces[i] then
-- enters is left out.
pub mod Prelude
pub mod Tlv
pub mod Declaration
pub mod Packet
pub mod Util
pub mod Pit
pub mod DeadNonceList
pub mod ContentStore
pub mod Strategy
pub mod NdnProtocol
pub mod Ip
pub mod Routing
pub mod Tests
