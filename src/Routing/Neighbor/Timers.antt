-- ===== src/Routing/Neighbor/Timers.antt =====
-- Which timers of a neighbour run after it starts, deletes or clears timers.
use ndn_based_protocol.Prelude.{◌≡◌, true, ◌&&◌, ◌||◌, not, List, [], ◌∷◌, arith, ◌↔◌, ◌∙◌}
use ndn_based_protocol.Routing.Neighbor.{
  TimerName, trigger_timer, inactivity, dd_interest, lsa_interest, timer_beq, is_armed,
  remove_timer, add_timer, cancel_all,
}

pub timer_beq_iff : (a b : TimerName) → (timer_beq a b ≡ true) ↔ (a ≡ b)
timer_beq_iff trigger_timer trigger_timer = ground arith
timer_beq_iff trigger_timer inactivity = ground arith
timer_beq_iff trigger_timer (dd_interest j) = ground arith
timer_beq_iff trigger_timer (lsa_interest u m) = ground arith
timer_beq_iff inactivity trigger_timer = ground arith
timer_beq_iff inactivity inactivity = ground arith
timer_beq_iff inactivity (dd_interest j) = ground arith
timer_beq_iff inactivity (lsa_interest u m) = ground arith
timer_beq_iff (dd_interest i) trigger_timer = ground arith
timer_beq_iff (dd_interest i) inactivity = ground arith
timer_beq_iff (dd_interest i) (dd_interest j) = ground arith
timer_beq_iff (dd_interest i) (lsa_interest u m) = ground arith
timer_beq_iff (lsa_interest t n) trigger_timer = ground arith
timer_beq_iff (lsa_interest t n) inactivity = ground arith
timer_beq_iff (lsa_interest t n) (dd_interest j) = ground arith
timer_beq_iff (lsa_interest t n) (lsa_interest u m) = ground arith

pub is_armed-remove_timer :
    (t u : TimerName) (us : List TimerName)
    → is_armed t (remove_timer u us) ≡ (not (timer_beq u t) && is_armed t us)
unfolding remove_timer
is_armed-remove_timer t u [] = ground arith
is_armed-remove_timer t u (x ∷ xs) =
    ground
      (arith, is_armed-remove_timer t u xs, timer_beq_iff u t, timer_beq_iff x u, timer_beq_iff x t)

is_armed-same :
    (t u : TimerName) (us : List TimerName) → timer_beq u t ≡ true → is_armed u us ≡ is_armed t us
is_armed-same t u us h = rw ((timer_beq_iff u t).0 h)

pub is_armed-add_timer :
    (t u : TimerName) (us : List TimerName)
    → is_armed t (add_timer u us) ≡ (timer_beq u t || is_armed t us)
unfolding add_timer
is_armed-add_timer t u us = ground (arith, is_armed-same t u us)

pub is_armed-cancel_all :
    (t : TimerName) (ts armed : List TimerName)
    → is_armed t (cancel_all ts armed) ≡ (is_armed t armed && not (is_armed t ts))
unfolding cancel_all
is_armed-cancel_all t [] armed = ground arith
is_armed-cancel_all t (x ∷ xs) armed =
    is_armed-cancel_all t xs (remove_timer x armed)
    ∙ rw (is_armed-remove_timer t x armed) (ground arith)
