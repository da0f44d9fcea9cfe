-- ===== src/Routing/Neighbor.antt =====
-- src/networkLayerPlus/ndnRouting/model/neighbor: NdnRoutingNeighbor and its five states. The packets
-- that are sent, and the new LSA that triggerNewLsa makes, are recorded as actions. `armed` holds the
-- timers of this neighbour that the timer component runs. The interface and the router id in the
-- names of the timers are those of the neighbour and are left out.
pub mod Timers
pub mod Requests
pub mod Changes
pub mod Machine
pub mod Path
pub mod DdData
use ndn_based_protocol.Prelude.{
  ℕ, suc, ◌+◌, Bool, true, false, ◌&&◌, ◌||◌, not, Option, none, some, List, [], ◌∷◌, ◌++◌, nat_beq,
  ltb, length, if◌then◌else◌,
}
use ndn_based_protocol.Declaration.{max_age}
use ndn_based_protocol.Routing.Lsa.{LinkStateDigest, LsaDataPack, generate_ls_digest, digest_older}
use ndn_based_protocol.Routing.LsaDatabase.{LsaDatabase}

-- enum class NeighborStateType
pub data NeighborState : Type 0 where
  down : NeighborState
  init : NeighborState
  exchange : NeighborState
  loading : NeighborState
  full : NeighborState

-- state == NeighborStateType::FULL
abbrev pub is_full : NeighborState → Bool
is_full full = true
is_full _ = false

-- state < NeighborStateType::EXCHANGE
abbrev pub before_exchange : NeighborState → Bool
before_exchange down = true
before_exchange init = true
before_exchange _ = false

-- enum class NeighborEventType
pub data NeighborEvent : Type 0 where
  hello_received : NeighborEvent
  twoway_received : NeighborEvent
  oneway_received : NeighborEvent
  kill_neighbor : NeighborEvent
  inactivity_timer : NeighborEvent
  ll_down : NeighborEvent
  exchange_done : NeighborEvent
  loading_done : NeighborEvent
  invalid_hash : NeighborEvent

-- "lsatrigger…", which the constructor starts and never records, "inactivity_timer_…",
-- "dd_interest_timer…_<index>" and "lsa_interest_timer…_<type>_<sequence>".
pub data TimerName : Type 0 where
  trigger_timer : TimerName
  inactivity : TimerName
  dd_interest : ℕ → TimerName
  lsa_interest : ℕ → ℕ → TimerName

abbrev pub timer_beq : TimerName → TimerName → Bool
timer_beq trigger_timer trigger_timer = true
timer_beq inactivity inactivity = true
timer_beq (dd_interest i) (dd_interest j) = nat_beq i j
timer_beq (lsa_interest t n) (lsa_interest u m) = nat_beq t u && nat_beq n m
timer_beq _ _ = false

pub data Action : Type 0 where
  dd_interest_sent : ℕ → Action
  lsa_interest_sent : LinkStateDigest → Action
  new_lsa_triggered : Action

-- DDDataPack, of which numberOfDDPackets and the digests are kept.
pub record DdDataPack : Type 0 where
  pub number_of_dd_packets : ℕ
  pub ls : List LinkStateDigest

pub record Neighbor : Type 0 where
  pub state : NeighborState
  pub active_timers : List TimerName
  pub armed : List TimerName
  pub database_summary : List LinkStateDigest
  pub dd_list : List DdDataPack
  pub receiving_index : ℕ
  pub sending_index : ℕ
  pub local_lsa_pending_request_list : List LinkStateDigest
  pub need_trigger_lsa : Bool

abbrev pub is_armed : TimerName → List TimerName → Bool
is_armed t [] = false
is_armed t (u ∷ us) = timer_beq u t || is_armed t us

unfoldable pub remove_timer : TimerName → List TimerName → List TimerName
remove_timer t [] = []
remove_timer t (u ∷ us) = let rest = remove_timer t us in if timer_beq u t then rest else u ∷ rest

-- std::set::insert, and Timer::startTimer, which does nothing where the timer runs.
unfoldable pub add_timer : TimerName → List TimerName → List TimerName
add_timer t us = if is_armed t us then us else t ∷ us

-- NdnRoutingNeighbor(_root)
abbrev pub new_neighbor : Neighbor
new_neighbor = record {
  state = down;
  active_timers = [];
  armed = trigger_timer ∷ [];
  database_summary = [];
  dd_list = [];
  receiving_index = 0;
  sending_index = 0;
  local_lsa_pending_request_list = [];
  need_trigger_lsa = true;
}

-- The callback of the timer that the constructor starts, which runs once.
unfoldable pub expire_lsa_trigger : Neighbor → Neighbor × List Action
unfolding remove_timer
expire_lsa_trigger n = (
  record n { armed = remove_timer trigger_timer n.armed; need_trigger_lsa = false },
  if n.need_trigger_lsa then new_lsa_triggered ∷ [] else [],
)

-- NdnRoutingNeighbor::deleteTimer
unfoldable pub delete_timer : Neighbor → TimerName → Neighbor
delete_timer n t = record n {
  armed = remove_timer t n.armed;
  active_timers = remove_timer t n.active_timers;
}

-- A timer is started and recorded.
unfoldable pub start_and_record : Neighbor → TimerName → Neighbor
start_and_record n t = record n {
  armed = add_timer t n.armed;
  active_timers = add_timer t n.active_timers;
}

unfoldable pub cancel_all : List TimerName → List TimerName → List TimerName
cancel_all [] armed = armed
cancel_all (t ∷ ts) armed = cancel_all ts (remove_timer t armed)

-- NdnRoutingNeighbor::clear, which leaves the set of recorded timers as it is.
unfoldable pub clear : Neighbor → Neighbor
clear n = record n {
  armed = cancel_all n.active_timers n.armed;
  database_summary = [];
  dd_list = [];
  receiving_index = 0;
  sending_index = 0;
  local_lsa_pending_request_list = [];
}

unfoldable pub young_digests : List LsaDataPack → List LinkStateDigest
young_digests [] = []
young_digests (lsa ∷ rest) =
    let digests = young_digests rest in
    if ltb lsa.ls_age max_age then generate_ls_digest lsa ∷ digests else digests

-- NdnRoutingNeighbor::createDatabaseSummary
unfoldable pub create_database_summary : LsaDatabase → Neighbor → Neighbor
create_database_summary db n = record n {
  database_summary = young_digests db.adj_lsa ++ young_digests db.rch_lsa;
}

-- NdnRoutingNeighbor::sendDDInterest
unfoldable pub send_dd_interest : Neighbor → Neighbor × List Action
send_dd_interest n =
    (start_and_record n (dd_interest n.receiving_index), dd_interest_sent n.receiving_index ∷ [])

abbrev pub is_empty : List LinkStateDigest → Bool
is_empty [] = true
is_empty (d ∷ ds) = false

-- setState(EXCHANGE) after a new summary and the first interest for the peer's.
unfoldable pub start_exchange : LsaDatabase → Neighbor → Neighbor × List Action
start_exchange db n =
    let (sent, actions) = send_dd_interest (create_database_summary db n) in
    (record sent { state = exchange }, actions)

-- The restart of the inactivity timer.
unfoldable pub restart_inactivity : Neighbor → Neighbor
restart_inactivity n = start_and_record (delete_timer n inactivity) inactivity

-- triggerNewLsa and setState(FULL)
abbrev pub become_full : Neighbor → Neighbor × List Action
become_full n = (record n { state = full; need_trigger_lsa = false }, new_lsa_triggered ∷ [])

-- NdnRoutingNeighborStateDown::processEvent and NdnRoutingNeighborStateInit::processEvent
unfoldable pub process_down : NeighborEvent → Neighbor → Neighbor × List Action
process_down hello_received n = (record (start_and_record n inactivity) { state = init }, [])
process_down _ n = (n, [])

unfoldable pub process_init : LsaDatabase → NeighborEvent → Neighbor → Neighbor × List Action
process_init db ll_down n = (record (clear n) { state = down }, [])
process_init db kill_neighbor n = (record (clear n) { state = down }, [])
process_init db inactivity_timer n = (record (clear n) { state = down }, [])
process_init db hello_received n = (restart_inactivity n, [])
process_init db twoway_received n = start_exchange db n
process_init db _ n = (n, [])

-- The cases that the last three states share; the others are given.
unfoldable pub process_common :
    NeighborEvent → Neighbor → Neighbor × List Action → Neighbor × List Action
process_common ll_down n other = (record (clear n) { state = down }, [])
process_common kill_neighbor n other = (record (clear n) { state = down }, [])
process_common inactivity_timer n other = (record (clear n) { state = down }, [])
process_common oneway_received n other = (record (clear n) { state = init }, [])
process_common hello_received n other = (restart_inactivity n, [])
process_common _ n other = other

-- NdnRoutingNeighborStateExchange::processEvent
unfoldable pub process_exchange : NeighborEvent → Neighbor → Neighbor × List Action
process_exchange exchange_done n =
    if not (is_empty n.local_lsa_pending_request_list)
    then (record n { state = loading }, [])
    else become_full n
process_exchange e n = process_common e n (n, [])

-- NdnRoutingNeighborStateLoading::processEvent
unfoldable pub process_loading : NeighborEvent → Neighbor → Neighbor × List Action
process_loading loading_done n = become_full n
process_loading e n = process_common e n (n, [])

-- NdnRoutingNeighborStateFull::processEvent
unfoldable pub process_full : LsaDatabase → NeighborEvent → Neighbor → Neighbor × List Action
process_full db invalid_hash n = start_exchange db n
process_full db e n = process_common e n (n, [])

-- NdnRoutingNeighbor::processEvent
unfoldable pub process_event : LsaDatabase → Neighbor → NeighborEvent → Neighbor × List Action
process_event db n e = elim n.state [
  | down ↦ process_down e n
  | init ↦ process_init db e n
  | exchange ↦ process_exchange e n
  | loading ↦ process_loading e n
  | full ↦ process_full db e n
]

-- NdnRoutingNeighbor::sendLocalLsaInterest
unfoldable pub send_local_lsa_interest : Neighbor → LinkStateDigest → Neighbor × List Action
send_local_lsa_interest n d = (
  start_and_record
      (record n { local_lsa_pending_request_list = n.local_lsa_pending_request_list ++ (d ∷ []) })
      (lsa_interest d.link_state_type d.sequence_num),
  lsa_interest_sent d ∷ [],
)

-- The loop of cancelLsaInterestRequest: the first request for an LSA that is not newer is erased.
unfoldable pub erase_request : LinkStateDigest → List LinkStateDigest → List LinkStateDigest
erase_request d [] = []
erase_request d (p ∷ ps) =
    let rest = erase_request d ps in
    if nat_beq p.router_id d.router_id
      && nat_beq p.link_state_type d.link_state_type
      && not (digest_older d p)
    then ps
    else p ∷ rest

-- NdnRoutingNeighbor::cancelLsaInterestRequest
unfoldable pub cancel_lsa_interest_request : Neighbor → LinkStateDigest → Neighbor
cancel_lsa_interest_request n d =
    let m = delete_timer n (lsa_interest d.link_state_type d.sequence_num) in
    record m { local_lsa_pending_request_list = erase_request d m.local_lsa_pending_request_list }
