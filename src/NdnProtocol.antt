-- ===== src/NdnProtocol.antt =====
-- src/networkLayer/ndn/NdnProtocol.{h,cpp}: the forwarding pipelines. Each handler maps the state to
-- the state after its last change and the packets that it then sends, with the lock released.
-- The PIT timers are those of src/util/timer/Timer.cpp, keyed by their names.
pub mod Tables
pub mod Timers
pub mod Pipelines
use ndn_based_protocol.Prelude.{
  ℕ, ◌+◌, ℤ, Bool, true, false, ◌&&◌, ◌||◌, not, Option, none, some, List, [], ◌∷◌, ◌++◌, map, ltb,
  leb, length, nat_beq, int_beq, int_eq, bytes_eq, bytes_beq, is_negative, ◌>>=◌, if◌then◌else◌,
}
use ndn_based_protocol.Prelude.Map.{Map, lookup, insert, erase}
use ndn_based_protocol.Declaration.{MacAddress}
use ndn_based_protocol.Util.{codes, slash, split, part_is}
use ndn_based_protocol.Packet.{
  NdnInterest, NdnData, NdnPacket, interest, data_packet, encode_interest, encode_data,
  decode_packet,
}
use ndn_based_protocol.Pit.{
  Pit, PitEntry, find_pit_entry, get_pit_entry, delete_pit_entry, is_pending, is_looping_interest,
  add_input_record, get_all_nonce,
}
use ndn_based_protocol.DeadNonceList.{DeadNonceList, add_to_dead_nonce_list, is_in_dead_nonce_list}
use ndn_based_protocol.ContentStore.{ContentStore, insert_packet, content_hit}
use ndn_based_protocol.Strategy.{
  Face, routing_word, addr_word, local_word, hop_word, next_hops, forward_faces,
}

abbrev pub info_word : List ℕ
info_word = codes "INFO"

-- `timers` maps the name of an armed timer to the name of the interest that its callback captured.
pub record Node : Type 0 where
  pub dead_nonce_list : DeadNonceList
  pub pit : Pit
  pub cs : ContentStore
  pub upper_layer_protocols : List ℤ
  pub timers : Map (List ℕ) (List ℕ)

-- What sendPacket does: it hands a packet to an upper protocol with its source, or puts the encoded
-- packet on an interface with destination and source address; or the protocol is not registered;
-- or the interface does not exist, and the code follows a null pointer.
pub data Sent : Type 0 where
  delivered : ℤ → ℤ → MacAddress → NdnPacket → Sent
  transmitted : ℤ → MacAddress → MacAddress → Option (List ℕ) → Sent
  unrecognized : ℤ → Sent
  no_such_nic : ℤ → Sent

-- PitEntry::getTimerName
unfoldable pub timer_name : List ℕ → List ℕ
timer_name name = codes "PitEntry::expire::" ++ name

-- Timer::startTimer does nothing where the timer exists.
unfoldable pub start_timer : List ℕ → List ℕ → Map (List ℕ) (List ℕ) → Map (List ℕ) (List ℕ)
start_timer timer captured timers = elim (lookup timer timers) [
  | none ↦ insert timer captured timers
  | some other ↦ timers
]

-- Timer::cancelTimer
unfoldable pub cancel_timer : List ℕ → Map (List ℕ) (List ℕ) → Map (List ℕ) (List ℕ)
cancel_timer = erase

-- NdnProtocol::excludedFromPit
unfoldable pub excluded_splits : List (List ℕ) → Bool
excluded_splits splits =
    (ltb 3 (length splits)
      && (part_is splits 1 routing_word || part_is splits 1 addr_word)
      && part_is splits 2 local_word)
    || (ltb 3 (length splits) && part_is splits 1 routing_word && part_is splits 3 info_word)

unfoldable pub excluded_from_pit : List ℕ → Bool
excluded_from_pit name = excluded_splits (split name slash)

-- splits.size() > 2 && splits[2] == "hop" && interfaceIndex < 0
unfoldable pub hop_exception : ℤ → List ℕ → Bool
hop_exception i name =
    ltb 2 (length (split name slash)) && part_is (split name slash) 2 hop_word && is_negative i

abbrev pub encode_packet : NdnPacket → Option (List ℕ)
encode_packet (interest i) = encode_interest i
encode_packet (data_packet d) = encode_data d

abbrev pub int_member : ℤ → List ℤ → Bool
int_member i [] = false
int_member i (j ∷ js) = int_beq j i || int_member i js

-- contentHit(name) != nullptr
abbrev pub is_hit : Option NdnData → Bool
is_hit none = false
is_hit (some d) = true

-- NdnProtocol::registerUpperLayerProtocol
unfoldable pub register_upper_layer_protocol : Node → ℤ → Node
register_upper_layer_protocol s i =
    if int_member i s.upper_layer_protocols
    then s
    else record s { upper_layer_protocols = i ∷ s.upper_layer_protocols }

-- NdnProtocol::onInterestLoop
abbrev pub on_interest_loop : Node → Node × List Sent
on_interest_loop s = (s, [])

-- NdnProtocol::onContentStoreHit
abbrev pub on_content_store_hit : Node → Node × List Sent
on_content_store_hit s = (s, [])

-- NdnProtocol::onDataUnsolicited
abbrev pub on_data_unsolicited : Node → Node × List Sent
on_data_unsolicited s = (s, [])

-- The in-record and the timer that onContentStoreMiss adds.
unfoldable pub record_interest : Node → ℤ → NdnInterest → Node
record_interest s i p =
    let (entry, pit) = get_pit_entry s.pit p.name in
    record s {
      pit = insert p.name (add_input_record entry i p.nonce) pit;
      timers = start_timer (timer_name p.name) p.name s.timers;
    }

-- CityHash32, and the interfaces of the NIC manager with their addresses.
module _ (city_hash32 : List ℕ → ℕ) (nics : Map ℤ MacAddress) where
  -- NdnProtocol::sendPacket
  unfoldable pub send_packet : List ℤ → NdnPacket → ℤ → MacAddress → Face → Sent
  send_packet upper packet source source_mac (target, destination) =
      if is_negative target
      then (if int_member target upper
          then delivered target source source_mac packet
          else unrecognized target)
      else (elim (lookup target nics) [
        | none ↦ no_such_nic target
        | some address ↦ transmitted target destination address (encode_packet packet)
      ])

  abbrev pub send_all : List ℤ → NdnPacket → ℤ → MacAddress → List Face → List Sent
  send_all upper packet source source_mac faces =
      map (send_packet upper packet source source_mac) faces

  -- NdnProtocol::onOutgoingInterest
  unfoldable pub on_outgoing_interest :
      Node → ℤ → MacAddress → NdnInterest → List Face → Node × List Sent
  on_outgoing_interest s i mac p faces =
      if not p.hop_limit_omitted && leb p.hop_limit 1
      then (s, [])
      else (s, send_all s.upper_layer_protocols (interest p) i mac faces)

  abbrev pub interest_faces : ℤ → NdnInterest → List Face
  interest_faces i p = elim p.prefered_interfaces [
    | [] ↦ next_hops (map (λ (n : ℤ × MacAddress). n.0) nics) i p.name
    | face ∷ faces ↦ face ∷ faces
  ]

  -- NdnProtocol::onContentStoreMiss
  unfoldable pub on_content_store_miss : Node → ℤ → MacAddress → NdnInterest → Node × List Sent
  on_content_store_miss s i mac p =
      let excluded = excluded_from_pit p.name in
      let pending = if excluded then false else is_pending (get_pit_entry s.pit p.name).0 in
      let s' = if excluded then s else record_interest s i p in
      if (if hop_exception i p.name then false else pending)
      then (s', [])
      else on_outgoing_interest s' i mac p (interest_faces i p)

  -- Steps 5 to 8 of onIncomingInterest, for an interest that the PIT takes.
  unfoldable pub match_pit : Node → ℤ → MacAddress → NdnInterest → Node × List Sent
  match_pit s i mac p =
      let (entry, pit) = get_pit_entry s.pit p.name in
      let s' = record s { pit = pit } in
      let cancelled = record s' {
        timers = if is_pending entry then cancel_timer (timer_name p.name) s'.timers else s'.timers;
      } in
      if is_looping_interest entry i p.nonce && not (hop_exception i p.name)
      then on_interest_loop s'
      else if not (is_pending entry) && is_hit (content_hit s'.cs p.name)
      then on_content_store_hit cancelled
      else on_content_store_miss cancelled i mac p

  -- NdnProtocol::onIncomingInterest
  unfoldable pub on_incoming_interest : Node → ℤ → MacAddress → NdnInterest → Node × List Sent
  on_incoming_interest s i mac p =
      if not p.hop_limit_omitted && nat_beq p.hop_limit 0
      then (s, [])
      else if is_in_dead_nonce_list city_hash32 s.dead_nonce_list p.name p.nonce
      then on_interest_loop s
      else if excluded_from_pit p.name
      then on_content_store_miss s i mac p
      else match_pit s i mac p

  -- for (auto nonce : pitEntry->getAllNonce()) deadNonceList->addToDeadNonceList(name, nonce)
  unfoldable pub bury : List ℕ → List ℕ → DeadNonceList → DeadNonceList
  bury name [] d = d
  bury name (nonce ∷ nonces) d = bury name nonces (add_to_dead_nonce_list city_hash32 d name nonce)

  -- NdnProtocol::onInterestFinalize
  unfoldable pub on_interest_finalize : Node → List ℕ → Node
  on_interest_finalize s name = elim (find_pit_entry s.pit name) [
    | none ↦ s
    | some entry ↦ record s {
      dead_nonce_list = bury name (get_all_nonce entry) s.dead_nonce_list;
      pit = delete_pit_entry s.pit name;
    }
  ]

  -- Timer::onTimerUp for a timer whose thread is still the registered one: the timer is taken out,
  -- and the callback finalises the interest that it captured.
  unfoldable pub on_timer_up : Node → List ℕ → Node
  on_timer_up s timer = elim (lookup timer s.timers) [
    | none ↦ s
    | some name ↦ on_interest_finalize (record s { timers = cancel_timer timer s.timers }) name
  ]

  abbrev pub data_faces : ℤ → NdnData → Option PitEntry → List Face
  data_faces i d entry = elim d.prefered_interfaces [
    | [] ↦ forward_faces i d.name entry
    | face ∷ faces ↦ face ∷ faces
  ]

  -- The state after a PIT entry is satisfied: its nonces are dead, it is deleted, its timer is
  -- cancelled, and the data is stored.
  unfoldable pub satisfy : Node → NdnData → PitEntry → Node
  satisfy s d entry = record s {
    dead_nonce_list = bury d.name (get_all_nonce entry) s.dead_nonce_list;
    pit = delete_pit_entry s.pit d.name;
    timers = cancel_timer (timer_name entry.name) s.timers;
    cs = insert_packet s.cs d;
  }

  -- NdnProtocol::onOutgoingData
  abbrev pub on_outgoing_data : Node → ℤ → MacAddress → NdnData → List Face → Node × List Sent
  on_outgoing_data s i mac d faces =
      (s, send_all s.upper_layer_protocols (data_packet d) i mac faces)

  abbrev pub match_data : Node → ℤ → MacAddress → NdnData → Option PitEntry → Node × List Sent
  match_data s i mac d none = on_data_unsolicited s
  match_data s i mac d (some entry) =
      on_outgoing_data (satisfy s d entry) i mac d (data_faces i d (some entry))

  -- NdnProtocol::onIncomingData
  unfoldable pub on_incoming_data : Node → ℤ → MacAddress → NdnData → Node × List Sent
  on_incoming_data s i mac d =
      let entry = find_pit_entry s.pit d.name in
      if bytes_beq d.name [] || bytes_beq d.name slash
      then (s, [])
      else if excluded_from_pit d.name
      then on_outgoing_data s i mac d (data_faces i d entry)
      else match_data s i mac d entry

  -- NdnProtocol::onReceiveNdnPacket
  unfoldable pub on_receive_ndn_packet : Node → ℤ → MacAddress → NdnPacket → Node × List Sent
  on_receive_ndn_packet s i mac (interest p) = on_incoming_interest s i mac p
  on_receive_ndn_packet s i mac (data_packet d) = on_incoming_data s i mac d

  -- A null packet is dereferenced in onReceiveNdnPacket: a fault.
  abbrev pub receive_decoded : Node → ℤ → MacAddress → Option NdnPacket → Option (Node × List Sent)
  receive_decoded s i mac none = none
  receive_decoded s i mac (some packet) = some (on_receive_ndn_packet s i mac packet)

  -- NdnProtocol::onReceiveEthernetPacket, on the frame's payload and source address.
  unfoldable pub on_receive_ethernet_packet :
      ℕ → Node → ℤ → MacAddress → List ℕ → Option (Node × List Sent)
  on_receive_ethernet_packet junk s i mac frame =
      decode_packet junk frame >>= receive_decoded s i mac
