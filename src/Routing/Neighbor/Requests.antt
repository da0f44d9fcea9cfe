-- ===== src/Routing/Neighbor/Requests.antt =====
-- The retransmission timers of the requests for LSAs.
use ndn_based_protocol.Prelude.{
  ◌≡◌, ◌≢◌, refl, Bool, true, false, ◌&&◌, ◌||◌, List, [], ◌∷◌, ◌++◌, nat_beq, nat_beq_iff, arith,
  ◌∙◌,
}
use ndn_based_protocol.Routing.Lsa.{LinkStateDigest}
use ndn_based_protocol.Routing.Neighbor.{
  Neighbor, TimerName, lsa_interest, is_armed, delete_timer, start_and_record,
  send_local_lsa_interest, cancel_lsa_interest_request, erase_request,
}
use ndn_based_protocol.Routing.Neighbor.Timers.{is_armed-remove_timer, is_armed-add_timer}

-- Whether an LSA of the router, the type and the sequence number is requested.
abbrev pub is_requested : LinkStateDigest → List LinkStateDigest → Bool
is_requested d [] = false
is_requested d (p ∷ ps) =
    nat_beq p.router_id d.router_id
      && nat_beq p.link_state_type d.link_state_type
      && nat_beq p.sequence_num d.sequence_num
    || is_requested d ps

is_requested-append :
    (d : LinkStateDigest) (ps qs : List LinkStateDigest)
    → is_requested d (ps ++ qs) ≡ (is_requested d ps || is_requested d qs)
is_requested-append d [] qs = refl
is_requested-append d (p ∷ ps) qs = ground (arith, is_requested-append d ps qs)

is_requested_self : (d : LinkStateDigest) → is_requested d (d ∷ []) ≡ true
is_requested_self d = ground (
  arith,
  nat_beq_iff d.router_id d.router_id,
  nat_beq_iff d.link_state_type d.link_state_type,
  nat_beq_iff d.sequence_num d.sequence_num,
)

-- The end of a request erases no request for another router.
is_requested-erase_request :
    (d other : LinkStateDigest) (ps : List LinkStateDigest)
    → d.router_id ≢ other.router_id
    → is_requested other (erase_request d ps) ≡ is_requested other ps
unfolding erase_request
is_requested-erase_request d other [] differ = refl
is_requested-erase_request d other (p ∷ ps) differ = ground (
  arith,
  is_requested-erase_request d other ps differ,
  nat_beq_iff p.router_id d.router_id,
  nat_beq_iff p.router_id other.router_id,
)

abbrev pub timer_of : LinkStateDigest → TimerName
timer_of d = lsa_interest d.link_state_type d.sequence_num

-- The name of the timer of a request leaves out the router of the LSA. Where two LSAs that agree in the
-- type and the sequence number but not in the router are requested one after the other, both requests
-- are pending and a retransmission timer runs for them; when the first is answered, the other is
-- pending still and has no timer any more.
pub cancel_disarms_other :
    (n : Neighbor) (done other : LinkStateDigest)
    → done.link_state_type ≡ other.link_state_type
    → done.sequence_num ≡ other.sequence_num
    → done.router_id ≢ other.router_id
    → let asked = (send_local_lsa_interest (send_local_lsa_interest n done).0 other).0 in
      let left = cancel_lsa_interest_request asked done in
      (is_requested done asked.local_lsa_pending_request_list ≡ true)
      × (is_requested other asked.local_lsa_pending_request_list ≡ true)
      × (is_armed (timer_of other) asked.armed ≡ true)
      × (is_requested other left.local_lsa_pending_request_list ≡ true)
      × (is_armed (timer_of other) left.armed ≡ false)
unfolding send_local_lsa_interest start_and_record cancel_lsa_interest_request delete_timer
cancel_disarms_other n done other type seq router =
    let before : List LinkStateDigest = n.local_lsa_pending_request_list ++ (done ∷ []) in
    let both : List LinkStateDigest = before ++ (other ∷ []) in
    let asked = (send_local_lsa_interest (send_local_lsa_interest n done).0 other).0 in
    let other_in : is_requested other both ≡ true =
      ground (arith, is_requested-append other before (other ∷ []), is_requested_self other) in
    (
      ground (
        arith,
        is_requested-append done before (other ∷ []),
        is_requested-append done n.local_lsa_pending_request_list (done ∷ []),
        is_requested_self done,
      ),
      other_in,
      ground (
        arith,
        is_armed-add_timer (timer_of other) (timer_of other)
            (send_local_lsa_interest n done).0.armed,
        nat_beq_iff other.link_state_type other.link_state_type,
        nat_beq_iff other.sequence_num other.sequence_num,
      ),
      is_requested-erase_request done other both router ∙ other_in,
      ground (
        arith,
        is_armed-remove_timer (timer_of other) (timer_of done) asked.armed,
        nat_beq_iff done.link_state_type other.link_state_type,
        nat_beq_iff done.sequence_num other.sequence_num,
        type,
        seq,
      ),
    )
