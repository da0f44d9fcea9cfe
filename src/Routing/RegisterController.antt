-- ===== src/Routing/RegisterController.antt =====
-- src/networkLayerPlus/ndnRouting/controller: RegisterController and DeRegisterController. A packet on an
-- interface that is not there is dropped; the null pointer that interfaces[i] then enters is left out.
pub mod Ordering
use ndn_based_protocol.Prelude.{
  ℕ, ◌+◌, ℤ, pos, Bool, true, false, ◌&&◌, not, Option, none, some, List, [], ◌∷◌, ◌++◌, length,
  get_elem?, nat_eq, int_eq, bytes_eq, ◌==◌, if◌then◌else◌, ◌>>=◌,
}
use ndn_based_protocol.Prelude.Map.{lookup}
use ndn_based_protocol.Declaration.{MacAddress}
use ndn_based_protocol.Util.{codes, slash, split}
use ndn_based_protocol.Util.Numbers.{ato_rid, atoll}
use ndn_based_protocol.Packet.{NdnInterest, NdnData, data_packet, new_data}
use ndn_based_protocol.Routing.Lsa.{
  LsaDataPack, adj, rch, signed_ltb, digest_older, generate_ls_digest,
}
use ndn_based_protocol.Routing.LsaDatabase.{find_lsa, insert_lsa}
use ndn_based_protocol.Routing.Graph.{int_ltb}
use ndn_based_protocol.Routing.MinimumHopTree.{
  MinimumHopTree, get_last_registration_time, set_last_registration_time, add_to_registered_son,
  delete_from_registered_son, get_registered_parent,
}
use ndn_based_protocol.Routing.Packs.{
  RegisterInterestPack, RegisterDataPack, decode_register, decode_deregister, encode_register_data,
  decode_register_data,
}
use ndn_based_protocol.Routing.Protocol.{
  Peer, Interface, Protocol, Environment, send_packet, cancel_retransmission, get_neighbor_by_mac,
}
use ndn_based_protocol.Routing.Protocol.Triggers.{
  is_parent, register_parents, send_info_to_all, send_info_to_children, rebuild_routing_table,
}

-- splits[i]; the code has tested the length.
abbrev pub part_at : List (List ℕ) → ℕ → List ℕ
part_at splits i = elim (get_elem? splits i) [ none ↦ [] | some part ↦ part ]

-- Whether a registration is newer than the last, and the tree after it.
unfoldable pub register_son : MinimumHopTree → ℕ → ℕ → ℤ → Bool × MinimumHopTree
register_son t root source time =
    let (old, asked) = get_last_registration_time t root source in
    if int_ltb old time
    then (
      true,
      set_last_registration_time (add_to_registered_son asked root source) root source time,
    )
    else (false, asked)

-- The same for a deregistration.
unfoldable pub deregister_son : MinimumHopTree → ℕ → ℕ → ℤ → Bool × MinimumHopTree
deregister_son t root source time =
    let (old, asked) = get_last_registration_time t root source in
    if int_ltb old time
    then (
      true,
      set_last_registration_time (delete_from_registered_son asked root source) root source time,
    )
    else (false, asked)

-- The LSA of the root, if ours is newer than the requested number.
unfoldable pub newer_lsa : Protocol → RegisterInterestPack → Option LsaDataPack
newer_lsa s pack = elim (find_lsa s.database adj pack.root) [
  | none ↦ none
  | some existing ↦
      if signed_ltb pack.adj_sequence_num existing.seq_num then some existing else none
]

-- The response of the two controllers.
abbrev pub respond : List ℕ → List ℕ → ℤ → MacAddress → Interface → Protocol → Protocol
respond name content index mac interface s =
    send_packet interface.mac_address
      (data_packet (record new_data {
        name = name;
        content = content;
        prefered_interfaces = (index, mac) ∷ [];
      }))
      s

-- The part of RegisterController::onReceiveInterest behind the decoding.
unfoldable pub handle_register :
    ℤ → MacAddress → Interface → List ℕ → ℕ → ℤ → RegisterInterestPack → Protocol → Protocol
handle_register index mac interface name source time pack s =
    let (accepted, tree) = register_son s.minimum_hop_tree pack.root source time in
    respond name
      (encode_register_data
        (record { adj_lsa = if accepted then newer_lsa s pack else none; rch_lsa = none }))
      index mac interface (record s { minimum_hop_tree = tree })

-- RegisterController::onReceiveInterest
unfoldable pub on_register_interest : ℤ → MacAddress → NdnInterest → Protocol → Option Protocol
on_register_interest index mac packet s = elim (lookup index s.interfaces) [
  | none ↦ some s
  | some interface ↦
      let splits = split packet.name slash in
      if length splits == 7
      then (do
        pack ← decode_register packet.application_parameters
        some (
            handle_register index mac interface packet.name (ato_rid (part_at splits 4))
              (atoll (part_at splits 6)) pack s))
      else some s
]

-- DeRegisterController::onReceiveInterest
unfoldable pub handle_deregister :
    ℤ → MacAddress → Interface → List ℕ → ℕ → ℤ → ℕ → Protocol → Protocol
handle_deregister index mac interface name source time root s =
    let (accepted, tree) = deregister_son s.minimum_hop_tree root source time in
    respond name [] index mac interface (record s { minimum_hop_tree = tree })

unfoldable pub on_deregister_interest : ℤ → MacAddress → NdnInterest → Protocol → Option Protocol
on_deregister_interest index mac packet s = elim (lookup index s.interfaces) [
  | none ↦ some s
  | some interface ↦
      let splits = split packet.name slash in
      if length splits == 7
      then (do
        pack ← decode_deregister packet.application_parameters
        some (
            handle_deregister index mac interface packet.name (ato_rid (part_at splits 4))
              (atoll (part_at splits 6)) pack.root s))
      else some s
]

-- How a received LSA compares with that of the database.
pub data Novelty : Type 0 where
  unknown_router : Novelty
  newer : Novelty
  not_newer : Novelty

unfoldable pub novelty : Protocol → ℕ → LsaDataPack → Novelty
novelty s type lsa = elim (find_lsa s.database type lsa.router_id) [
  | none ↦ unknown_router
  | some existing ↦
      if digest_older (generate_ls_digest existing) (generate_ls_digest lsa)
      then newer
      else not_newer
]

abbrev pub insert_received : LsaDataPack → Protocol → Protocol
insert_received lsa s = record s { database = insert_lsa s.database lsa }

-- The routing table follows an ADJ LSA.
abbrev pub follow : Environment → Bool → Protocol → Option Protocol
follow env rebuilds t = if rebuilds then rebuild_routing_table env t else some t

-- What an LSA of a registration response changes; `rebuild` is whether parents are to be registered.
unfoldable pub take_response :
    Environment
    → Bool
    → ℤ
    → LsaDataPack
    → Bool
    → Novelty
    → Protocol
    → Option (Option (Bool × Protocol))
take_response env rebuilds index lsa rebuild unknown_router s = do
  s' ← follow env rebuilds (send_info_to_all env lsa index (insert_received lsa s))
  some (some (true, s'))
take_response env rebuilds index lsa rebuild newer s = do
  s' ← follow env rebuilds (send_info_to_children env lsa (insert_received lsa s))
  some (some (true, s'))
take_response env rebuilds index lsa true not_newer s = do
  s' ← follow env rebuilds (send_info_to_children env lsa s)
  some (some (true, s'))
take_response env rebuilds index lsa false not_newer s = some (some (false, s))

-- The LSA of a registration response, which counts where it comes from the parent on the tree of its root.
-- There is `none` inside where the signature or the router id ends the function.
unfoldable pub receive_lsa :
    Environment
    → Bool
    → ℕ
    → ℤ
    → Peer
    → LsaDataPack
    → Bool × Protocol
    → Option (Option (Bool × Protocol))
receive_lsa env rebuilds type index peer lsa (rebuild, s) =
    if not (env.verify_signature lsa && env.verify_router_id lsa)
    then some none
    else if is_parent peer.router_id (get_registered_parent s.minimum_hop_tree lsa.router_id)
    then take_response env rebuilds index lsa rebuild (novelty s type lsa) s
    else some (some (rebuild, s))

unfoldable pub receive_optional :
    Environment
    → Bool
    → ℕ
    → ℤ
    → Peer
    → Option LsaDataPack
    → Bool × Protocol
    → Option (Option (Bool × Protocol))
receive_optional env rebuilds type index peer none s = some (some s)
receive_optional env rebuilds type index peer (some lsa) s =
    receive_lsa env rebuilds type index peer lsa s

-- RegisterController::onReceiveData behind the search for the neighbour.
unfoldable pub handle_register_data :
    Environment → ℤ → Peer → List ℕ → RegisterDataPack → Protocol → Option Protocol
handle_register_data env index peer name pack s = do
  let start = cancel_retransmission (codes "register_" ++ name) s
  after_adj ← receive_optional env true adj index peer pack.adj_lsa (false, start)
  elim after_adj [
    | none ↦ some start
    | some (rebuild, s1) ↦ do
      after_rch ← receive_optional env false rch index peer pack.rch_lsa (rebuild, s1)
      elim after_rch [
        | none ↦ some s1
        | some (rebuild', s2) ↦ if rebuild' then register_parents env s2 else some s2
      ]
  ]

unfoldable pub on_register_data :
    Environment → ℤ → MacAddress → NdnData → Protocol → Option Protocol
on_register_data env index mac packet s = do
  pack ← decode_register_data packet.content
  elim (lookup index s.interfaces) [
    | none ↦ some s
    | some interface ↦ elim (get_neighbor_by_mac mac interface.neighbors) [
      | none ↦ some s
      | some peer ↦ handle_register_data env index peer packet.name pack s
    ]
  ]

-- DeRegisterController::onReceiveData
unfoldable pub on_deregister_data : ℤ → MacAddress → NdnData → Protocol → Option Protocol
on_deregister_data index mac packet s = elim (lookup index s.interfaces) [
  | none ↦ some s
  | some interface ↦ elim (get_neighbor_by_mac mac interface.neighbors) [
    | none ↦ some s
    | some peer ↦ some (cancel_retransmission (codes "deregister_" ++ packet.name) s)
  ]
]
