-- ===== src/Routing.antt =====
-- src/networkLayerPlus/ndnRouting: link state advertisements, their database, the graph and the trees.
pub mod Lsa
pub mod LsaDatabase
pub mod Graph
pub mod MinimumHopTree
pub mod Neighbor
pub mod Packs
pub mod PacketName
pub mod Protocol
pub mod RegisterController
pub mod LsaController
pub mod InfoController
pub mod CronJobHandler
pub mod HelloPack
pub mod DdPack
pub mod DatabaseHash
pub mod HelloController
pub mod DdController
pub mod InterfaceState
pub mod Dispatch
