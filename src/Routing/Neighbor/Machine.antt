-- ===== src/Routing/Neighbor/Machine.antt =====
-- The invariant of a neighbour under every event, and what a one-way hello leaves.
use ndn_based_protocol.Prelude.{◌≡◌, refl, Bool, true, false, [], arith, Bool-cases, inl, inr}
use ndn_based_protocol.Routing.LsaDatabase.{LsaDatabase}
use ndn_based_protocol.Routing.Neighbor.{
  Neighbor, NeighborState, NeighborEvent, TimerName, trigger_timer, inactivity, expire_lsa_trigger,
  down, init, exchange, loading, full, hello_received, twoway_received, oneway_received,
  kill_neighbor, inactivity_timer, ll_down, exchange_done, loading_done, invalid_hash, is_armed,
  start_and_record, clear, is_empty, become_full, process_down, process_init, process_common,
  process_exchange, process_loading, process_full, process_event,
}
use ndn_based_protocol.Routing.Neighbor.Timers.{is_armed-remove_timer}
use ndn_based_protocol.Routing.Neighbor.Changes.{
  is_down, is_trigger, IsNeighbor, clear-quiet, clear-down, clear-init, start-tracked,
  restart-IsNeighbor, start_exchange-IsNeighbor,
}

process_common-IsNeighbor :
    (e : NeighborEvent) (n : Neighbor)
    → is_down n.state ≡ false
    → IsNeighbor n
    → IsNeighbor (process_common e n (n, [])).0
unfolding process_common
process_common-IsNeighbor ll_down n up h = clear-down n h
process_common-IsNeighbor kill_neighbor n up h = clear-down n h
process_common-IsNeighbor inactivity_timer n up h = clear-down n h
process_common-IsNeighbor oneway_received n up h = clear-init n h
process_common-IsNeighbor hello_received n up h = restart-IsNeighbor n up h
process_common-IsNeighbor twoway_received n up h = h
process_common-IsNeighbor exchange_done n up h = h
process_common-IsNeighbor loading_done n up h = h
process_common-IsNeighbor invalid_hash n up h = h

become_full-IsNeighbor : (n : Neighbor) → IsNeighbor n → IsNeighbor (become_full n).0
become_full-IsNeighbor n h = record {
  tracked = h.tracked;
  quiet = λ k t own. absurd (ground (arith, k));
  idle = λ k. absurd (ground (arith, k));
  settled = λ k. refl;
}

process_down-IsNeighbor :
    (e : NeighborEvent) (n : Neighbor) → IsNeighbor n → IsNeighbor (process_down e n).0
unfolding process_down start_and_record
process_down-IsNeighbor hello_received n h = record {
  tracked = start-tracked n inactivity h.tracked;
  quiet = λ k t own. absurd (ground (arith, k));
  idle = λ k. absurd (ground (arith, k));
  settled = λ k. absurd (ground (arith, k));
}
process_down-IsNeighbor twoway_received n h = h
process_down-IsNeighbor oneway_received n h = h
process_down-IsNeighbor kill_neighbor n h = h
process_down-IsNeighbor inactivity_timer n h = h
process_down-IsNeighbor ll_down n h = h
process_down-IsNeighbor exchange_done n h = h
process_down-IsNeighbor loading_done n h = h
process_down-IsNeighbor invalid_hash n h = h

process_init-IsNeighbor :
    (db : LsaDatabase) (e : NeighborEvent) (n : Neighbor)
    → is_down n.state ≡ false
    → IsNeighbor n
    → IsNeighbor (process_init db e n).0
unfolding process_init
process_init-IsNeighbor db hello_received n up h = restart-IsNeighbor n up h
process_init-IsNeighbor db twoway_received n up h = start_exchange-IsNeighbor db n h
process_init-IsNeighbor db oneway_received n up h = h
process_init-IsNeighbor db kill_neighbor n up h = clear-down n h
process_init-IsNeighbor db inactivity_timer n up h = clear-down n h
process_init-IsNeighbor db ll_down n up h = clear-down n h
process_init-IsNeighbor db exchange_done n up h = h
process_init-IsNeighbor db loading_done n up h = h
process_init-IsNeighbor db invalid_hash n up h = h

loading-IsNeighbor : (n : Neighbor) → IsNeighbor n → IsNeighbor (record n { state = loading })
loading-IsNeighbor n h = record {
  tracked = h.tracked;
  quiet = λ k t own. absurd (ground (arith, k));
  idle = λ k. absurd (ground (arith, k));
  settled = λ k. absurd (ground (arith, k));
}

process_exchange-IsNeighbor :
    (e : NeighborEvent) (n : Neighbor)
    → is_down n.state ≡ false
    → IsNeighbor n
    → IsNeighbor (process_exchange e n).0
unfolding process_exchange
process_exchange-IsNeighbor exchange_done n up h =
    elim (Bool-cases (is_empty n.local_lsa_pending_request_list)) [
      | inl none_left ↦ rw none_left (become_full-IsNeighbor n h)
      | inr some_left ↦ rw some_left (loading-IsNeighbor n h)
    ]
process_exchange-IsNeighbor hello_received n up h = process_common-IsNeighbor hello_received n up h
process_exchange-IsNeighbor twoway_received n up h =
    process_common-IsNeighbor twoway_received n up h
process_exchange-IsNeighbor oneway_received n up h =
    process_common-IsNeighbor oneway_received n up h
process_exchange-IsNeighbor kill_neighbor n up h = process_common-IsNeighbor kill_neighbor n up h
process_exchange-IsNeighbor inactivity_timer n up h =
    process_common-IsNeighbor inactivity_timer n up h
process_exchange-IsNeighbor ll_down n up h = process_common-IsNeighbor ll_down n up h
process_exchange-IsNeighbor loading_done n up h = process_common-IsNeighbor loading_done n up h
process_exchange-IsNeighbor invalid_hash n up h = process_common-IsNeighbor invalid_hash n up h

process_loading-IsNeighbor :
    (e : NeighborEvent) (n : Neighbor)
    → is_down n.state ≡ false
    → IsNeighbor n
    → IsNeighbor (process_loading e n).0
unfolding process_loading
process_loading-IsNeighbor loading_done n up h = become_full-IsNeighbor n h
process_loading-IsNeighbor hello_received n up h = process_common-IsNeighbor hello_received n up h
process_loading-IsNeighbor twoway_received n up h = process_common-IsNeighbor twoway_received n up h
process_loading-IsNeighbor oneway_received n up h = process_common-IsNeighbor oneway_received n up h
process_loading-IsNeighbor kill_neighbor n up h = process_common-IsNeighbor kill_neighbor n up h
process_loading-IsNeighbor inactivity_timer n up h =
    process_common-IsNeighbor inactivity_timer n up h
process_loading-IsNeighbor ll_down n up h = process_common-IsNeighbor ll_down n up h
process_loading-IsNeighbor exchange_done n up h = process_common-IsNeighbor exchange_done n up h
process_loading-IsNeighbor invalid_hash n up h = process_common-IsNeighbor invalid_hash n up h

process_full-IsNeighbor :
    (db : LsaDatabase) (e : NeighborEvent) (n : Neighbor)
    → is_down n.state ≡ false
    → IsNeighbor n
    → IsNeighbor (process_full db e n).0
unfolding process_full
process_full-IsNeighbor db invalid_hash n up h = start_exchange-IsNeighbor db n h
process_full-IsNeighbor db hello_received n up h = process_common-IsNeighbor hello_received n up h
process_full-IsNeighbor db twoway_received n up h = process_common-IsNeighbor twoway_received n up h
process_full-IsNeighbor db oneway_received n up h = process_common-IsNeighbor oneway_received n up h
process_full-IsNeighbor db kill_neighbor n up h = process_common-IsNeighbor kill_neighbor n up h
process_full-IsNeighbor db inactivity_timer n up h =
    process_common-IsNeighbor inactivity_timer n up h
process_full-IsNeighbor db ll_down n up h = process_common-IsNeighbor ll_down n up h
process_full-IsNeighbor db exchange_done n up h = process_common-IsNeighbor exchange_done n up h
process_full-IsNeighbor db loading_done n up h = process_common-IsNeighbor loading_done n up h

process_event-at :
    (db : LsaDatabase) (n : Neighbor) (e : NeighborEvent) (s : NeighborState)
    → n.state ≡ s
    → IsNeighbor n
    → IsNeighbor (process_event db n e).0
unfolding process_event
process_event-at db n e down at h = rw (process_event, at) (process_down-IsNeighbor e n h)
process_event-at db n e init at h =
    rw (process_event, at) (process_init-IsNeighbor db e n (rw at) h)
process_event-at db n e exchange at h =
    rw (process_event, at) (process_exchange-IsNeighbor e n (rw at) h)
process_event-at db n e loading at h =
    rw (process_event, at) (process_loading-IsNeighbor e n (rw at) h)
process_event-at db n e full at h =
    rw (process_event, at) (process_full-IsNeighbor db e n (rw at) h)

expire_lsa_trigger-IsNeighbor : (n : Neighbor) → IsNeighbor n → IsNeighbor (expire_lsa_trigger n).0
unfolding expire_lsa_trigger
expire_lsa_trigger-IsNeighbor n h = record {
  tracked =
      λ t own k. ground (arith, is_armed-remove_timer t trigger_timer n.armed, h.tracked t own, k);
  quiet = λ k t own. ground (arith, is_armed-remove_timer t trigger_timer n.armed, h.quiet k t own);
  idle = h.idle;
  settled = λ k. refl;
}

-- Every event, and the end of the timer that the constructor starts, keeps the invariant of a neighbour:
-- each running timer other than that one is recorded; a neighbour that is down has no other running
-- timer and no pending request; one that is full has no new LSA left to trigger.
pub process_event-IsNeighbor :
    (db : LsaDatabase) (n : Neighbor) (e : NeighborEvent)
    → IsNeighbor n
    → IsNeighbor (process_event db n e).0 × IsNeighbor (expire_lsa_trigger n).0
process_event-IsNeighbor db n e h =
    (process_event-at db n e n.state refl h, expire_lsa_trigger-IsNeighbor n h)

abbrev pub is_established : NeighborState → Bool
is_established down = false
is_established init = false
is_established _ = true

oneway-at :
    (db : LsaDatabase) (n : Neighbor) (s : NeighborState)
    → n.state ≡ s
    → is_established s ≡ true
    → (process_event db n oneway_received ≡ (record (clear n) { state = init }, []))
unfolding process_event process_exchange process_loading process_full process_common clear
oneway-at db n down at h = absurd (ground (arith, h))
oneway-at db n init at h = absurd (ground (arith, h))
oneway-at db n exchange at h = rw (process_event, at)
oneway-at db n loading at h = rw (process_event, at)
oneway-at db n full at h = rw (process_event, at)

-- A one-way hello takes a neighbour in the exchange, the loading or the full state back to the init
-- state with no timer running but that of the constructor: the inactivity timer, which would take a silent neighbour down, is
-- cancelled as well.
pub oneway_disarms :
    (db : LsaDatabase) (n : Neighbor)
    → IsNeighbor n
    → is_established n.state ≡ true
    → ((process_event db n oneway_received).0.state ≡ init)
      × ((t : TimerName)
          → is_trigger t ≡ false
          → is_armed t (process_event db n oneway_received).0.armed ≡ false)
oneway_disarms db n h up = let at = oneway-at db n n.state refl up in rw at (refl, clear-quiet n h)
