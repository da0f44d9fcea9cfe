-- ===== src/Routing/PacketName.antt =====
-- The names of the packets of the routing protocol:
-- src/networkLayerPlus/ndnRouting/NdnRoutingProtocol.cpp, controller and dataPack.
use ndn_based_protocol.Prelude.{ℕ, List, ◌++◌, nat_eq, ◌==◌, if◌then◌else◌}
use ndn_based_protocol.Util.{codes}
use ndn_based_protocol.Util.Numbers.{to_string, int_to_string}
use ndn_based_protocol.Routing.Lsa.{LinkStateDigest, adj, rch}
use ndn_based_protocol.Routing.LsaDatabase.Topology.{int_of}

-- getNameForLinkStateType
unfoldable pub type_name : ℕ → List ℕ
type_name type = if type == adj then codes "ADJ" else if type == rch then codes "RCH" else codes ""

abbrev pub slashed : List ℕ → List ℕ → List ℕ
slashed front back = front ++ (codes "/" ++ back)

-- "/routing/local/register/<from>/<to>/<timestamp>" and the same with "deregister"
unfoldable pub register_name : ℕ → ℕ → ℕ → List ℕ
register_name from to time =
    codes "/routing/local/register/"
    ++ slashed (to_string from) (slashed (to_string to) (to_string time))

unfoldable pub deregister_name : ℕ → ℕ → ℕ → List ℕ
deregister_name from to time =
    codes "/routing/local/deregister/"
    ++ slashed (to_string from) (slashed (to_string to) (to_string time))

-- "<type>/<router id>/<sequence number>"
unfoldable pub digest_name : LinkStateDigest → List ℕ
digest_name d =
    slashed (type_name d.link_state_type)
      (slashed (to_string d.router_id) (int_to_string (int_of d.sequence_num)))

abbrev pub info_name : LinkStateDigest → List ℕ
info_name d = codes "/routing/hop/INFO/" ++ digest_name d

abbrev pub local_lsa_name : LinkStateDigest → List ℕ
local_lsa_name d = codes "/routing/local/LSA/" ++ digest_name d

abbrev pub hop_lsa_name : LinkStateDigest → List ℕ
hop_lsa_name d = codes "/routing/hop/LSA/" ++ digest_name d

-- "/routing/local/dd/<router id>/<index>"
unfoldable pub dd_name : ℕ → ℕ → List ℕ
dd_name id index = codes "/routing/local/dd/" ++ slashed (to_string id) (to_string index)

-- "global_lsa_interest_timer <router id>_<type>_<sequence number>"
unfoldable pub global_lsa_timer : ℕ → ℕ → ℕ → List ℕ
global_lsa_timer id type sequence_num =
    codes "global_lsa_interest_timer "
    ++ (to_string id
        ++ (codes "_" ++ (to_string type ++ (codes "_" ++ int_to_string (int_of sequence_num)))))
