-- ===== src/Routing/Neighbor/Changes.antt =====
-- The changes that the states of a neighbour make keep its invariant.
use ndn_based_protocol.Prelude.{◌≡◌, refl, Bool, true, false, [], arith, ◌∙◌}
use ndn_based_protocol.Routing.LsaDatabase.{LsaDatabase}
use ndn_based_protocol.Routing.Neighbor.{
  Neighbor, NeighborState, TimerName, trigger_timer, inactivity, dd_interest, down, init, is_full,
  is_armed, delete_timer, start_and_record, clear, create_database_summary, send_dd_interest,
  start_exchange, restart_inactivity,
}
use ndn_based_protocol.Routing.Neighbor.Timers.{
  is_armed-remove_timer, is_armed-add_timer, is_armed-cancel_all,
}

abbrev pub is_down : NeighborState → Bool
is_down down = true
is_down _ = false

abbrev pub is_trigger : TimerName → Bool
is_trigger trigger_timer = true
is_trigger _ = false

-- Every running timer but that of the constructor is recorded; a neighbour that is down has no other timer
-- and no pending request; and one that is full has no new LSA left to trigger.
pub record IsNeighbor (n : Neighbor) : Type 0 where
  pub tracked :
      (t : TimerName)
      → is_trigger t ≡ false
      → is_armed t n.armed ≡ true
      → is_armed t n.active_timers ≡ true
  pub quiet :
      is_down n.state ≡ true → (t : TimerName) → is_trigger t ≡ false → is_armed t n.armed ≡ false
  pub idle : is_down n.state ≡ true → n.local_lsa_pending_request_list ≡ []
  pub settled : is_full n.state ≡ true → n.need_trigger_lsa ≡ false

-- The state is changed after a `clear`: no timer runs but that of the constructor.
pub clear-quiet :
    (n : Neighbor)
    → IsNeighbor n
    → (t : TimerName) → is_trigger t ≡ false
    → is_armed t (clear n).armed ≡ false
unfolding clear
clear-quiet n h t own =
    is_armed-cancel_all t n.active_timers n.armed ∙ ground (arith, h.tracked t own)

pub clear-down : (n : Neighbor) → IsNeighbor n → IsNeighbor (record (clear n) { state = down })
unfolding clear
clear-down n h = record {
  tracked = λ t own k. ground (arith, clear-quiet n h t own, k);
  quiet = λ k t own. clear-quiet n h t own;
  idle = λ k. refl;
  settled = λ k. ground (arith, k);
}

pub clear-init : (n : Neighbor) → IsNeighbor n → IsNeighbor (record (clear n) { state = init })
unfolding clear
clear-init n h = record {
  tracked = λ t own k. ground (arith, clear-quiet n h t own, k);
  quiet = λ k t own. clear-quiet n h t own;
  idle = λ k. refl;
  settled = λ k. ground (arith, k);
}

pub start-tracked :
    (n : Neighbor) (u : TimerName)
    → ((t : TimerName)
        → is_trigger t ≡ false
        → is_armed t n.armed ≡ true
        → is_armed t n.active_timers ≡ true)
    → (t : TimerName) → is_trigger t ≡ false
    → is_armed t (start_and_record n u).armed ≡ true
    → is_armed t (start_and_record n u).active_timers ≡ true
unfolding start_and_record
start-tracked n u h t own k =
    ground
      (arith, is_armed-add_timer t u n.armed, is_armed-add_timer t u n.active_timers, h t own, k)

restart-tracked :
    (n : Neighbor)
    → IsNeighbor n
    → (t : TimerName) → is_trigger t ≡ false
    → is_armed t (restart_inactivity n).armed ≡ true
    → is_armed t (restart_inactivity n).active_timers ≡ true
unfolding restart_inactivity delete_timer
restart-tracked n h = start-tracked (delete_timer n inactivity) inactivity λ t own k. ground (
  arith,
  is_armed-remove_timer t inactivity n.armed,
  is_armed-remove_timer t inactivity n.active_timers,
  h.tracked t own,
  k,
)

pub restart-IsNeighbor :
    (n : Neighbor) → is_down n.state ≡ false → IsNeighbor n → IsNeighbor (restart_inactivity n)
unfolding restart_inactivity delete_timer start_and_record
restart-IsNeighbor n up h = record {
  tracked = restart-tracked n h;
  quiet = λ k t own. absurd (ground (arith, up, k));
  idle = λ k. absurd (ground (arith, up, k));
  settled = h.settled;
}

pub start_exchange-IsNeighbor :
    (db : LsaDatabase) (n : Neighbor) → IsNeighbor n → IsNeighbor (start_exchange db n).0
unfolding start_exchange send_dd_interest create_database_summary start_and_record
start_exchange-IsNeighbor db n h = record {
  tracked = start-tracked (create_database_summary db n) (dd_interest n.receiving_index) h.tracked;
  quiet = λ k t own. absurd (ground (arith, k));
  idle = λ k. absurd (ground (arith, k));
  settled = λ k. absurd (ground (arith, k));
}
