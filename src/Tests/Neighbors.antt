-- ===== src/Tests/Neighbors.antt =====
-- The neighbour state machine and the minimum hop trees at concrete states.
use ndn_based_protocol.Prelude.{List, map, some, ◌≡◌, refl, true, false, [], ◌∷◌, arith, nat_eq}
use ndn_based_protocol.Routing.Lsa.{LinkStateDigest}
use ndn_based_protocol.Routing.LsaDatabase.{LsaDatabase}
use ndn_based_protocol.Routing.Neighbor.{
  hello_received, twoway_received, full, down, Neighbor, NeighborEvent, inactivity, exchange,
  exchange_done, is_armed, process_event, expire_lsa_trigger, trigger_timer,
  send_local_lsa_interest, cancel_lsa_interest_request,
}
use ndn_based_protocol.Routing.Neighbor.Timers.{timer_beq_iff}
use ndn_based_protocol.Routing.Neighbor.Changes.{IsNeighbor}
use ndn_based_protocol.Routing.Neighbor.Machine.{process_event-IsNeighbor}
use ndn_based_protocol.Routing.Neighbor.Path.{run, has_twoway, full_path}
use ndn_based_protocol.Routing.Neighbor.Machine.{is_established}
use ndn_based_protocol.Routing.Neighbor.DdData.{pack_of, send_dd_data, send_dd_data_first}
use ndn_based_protocol.Routing.Neighbor.Requests.{is_requested, timer_of, cancel_disarms_other}

abbrev no_lsas : LsaDatabase
no_lsas = record { adj_lsa = []; rch_lsa = [] }

abbrev pub talking : Neighbor
talking = record {
  state = exchange;
  active_timers = inactivity ∷ [];
  armed = inactivity ∷ trigger_timer ∷ [];
  database_summary = [];
  dd_list = [];
  receiving_index = 0;
  sending_index = 0;
  local_lsa_pending_request_list = [];
  need_trigger_lsa = true;
}

talking-IsNeighbor : IsNeighbor talking
talking-IsNeighbor = record {
  tracked = λ t own h. ground (arith, timer_beq_iff trigger_timer t, own, h);
  quiet = λ h t own. absurd (ground (arith, h));
  idle = λ h. absurd (ground (arith, h));
  settled = λ h. absurd (ground (arith, h));
}

process_event-IsNeighbor_example :
    IsNeighbor (process_event no_lsas talking exchange_done).0
    × IsNeighbor (expire_lsa_trigger talking).0
process_event-IsNeighbor_example =
    process_event-IsNeighbor no_lsas talking exchange_done talking-IsNeighbor

abbrev of_11 : LinkStateDigest
of_11 = record { router_id = 11; link_state_type = 0; sequence_num = 5; ls_age = 1 }

abbrev of_12 : LinkStateDigest
of_12 = record of_11 { router_id = 12 }

cancel_disarms_other_example :
    let asked = (send_local_lsa_interest (send_local_lsa_interest talking of_11).0 of_12).0 in
    let left = cancel_lsa_interest_request asked of_11 in
    (is_requested of_11 asked.local_lsa_pending_request_list ≡ true)
    × (is_requested of_12 asked.local_lsa_pending_request_list ≡ true)
    × (is_armed (timer_of of_12) asked.armed ≡ true)
    × (is_requested of_12 left.local_lsa_pending_request_list ≡ true)
    × (is_armed (timer_of of_12) left.armed ≡ false)
cancel_disarms_other_example = cancel_disarms_other talking of_11 of_12 refl refl (omega arith)

abbrev silent : Neighbor
silent = record talking { state = down; active_timers = []; armed = [] }

full_path_example :
    ((run no_lsas silent (hello_received ∷ twoway_received ∷ exchange_done ∷ [])).state ≡ full)
    × ((es : List NeighborEvent)
        → is_established (run no_lsas silent es).state ≡ true
        → has_twoway es ≡ true)
full_path_example = full_path no_lsas silent refl refl

abbrev summarised : Neighbor
summarised = record talking { database_summary = of_11 ∷ of_12 ∷ [] }

send_dd_data_first_example :
    let after = record summarised {
      dd_list = map (pack_of 2) (of_11 ∷ of_12 ∷ []);
      sending_index = 1;
    } in
    (send_dd_data summarised 0 ≡ some (after, some (pack_of 2 of_11)))
    × ((again : Neighbor) × (send_dd_data after 0
          ≡ some (again, some (record { number_of_dd_packets = 2; ls = of_11 ∷ of_11 ∷ [] }))))
send_dd_data_first_example = send_dd_data_first summarised of_11 (of_12 ∷ []) refl refl refl
