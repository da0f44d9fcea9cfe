-- ===== src/Routing/Neighbor/Path.antt =====
-- Sequences of events: what it takes for a neighbour to become established.
use ndn_based_protocol.Prelude.{
  ◌≡◌, refl, Bool, true, false, ◌||◌, List, [], ◌∷◌, arith, Bool-cases, inl, inr,
}
use ndn_based_protocol.Routing.LsaDatabase.{LsaDatabase}
use ndn_based_protocol.Routing.Neighbor.{
  Neighbor, NeighborState, NeighborEvent, down, init, exchange, loading, full, hello_received,
  twoway_received, oneway_received, kill_neighbor, inactivity_timer, ll_down, exchange_done,
  loading_done, invalid_hash, process_event, process_down, process_init, process_exchange,
  restart_inactivity, start_and_record, delete_timer, start_exchange, send_dd_interest,
  create_database_summary,
}
use ndn_based_protocol.Routing.Neighbor.Machine.{is_established}

-- The neighbour after a sequence of events.
unfoldable pub run : LsaDatabase → Neighbor → List NeighborEvent → Neighbor
run db n [] = n
run db n (e ∷ es) = run db (process_event db n e).0 es

abbrev pub is_twoway : NeighborEvent → Bool
is_twoway twoway_received = true
is_twoway _ = false

abbrev pub has_twoway : List NeighborEvent → Bool
has_twoway [] = false
has_twoway (e ∷ es) = is_twoway e || has_twoway es

down-stays :
    (n : Neighbor) (e : NeighborEvent)
    → n.state ≡ down
    → is_established (process_down e n).0.state ≡ false
unfolding process_down
down-stays n hello_received at = refl
down-stays n twoway_received at = rw at
down-stays n oneway_received at = rw at
down-stays n kill_neighbor at = rw at
down-stays n inactivity_timer at = rw at
down-stays n ll_down at = rw at
down-stays n exchange_done at = rw at
down-stays n loading_done at = rw at
down-stays n invalid_hash at = rw at

init-stays :
    (db : LsaDatabase) (n : Neighbor) (e : NeighborEvent)
    → n.state ≡ init
    → is_twoway e ≡ false
    → is_established (process_init db e n).0.state ≡ false
unfolding process_init restart_inactivity start_and_record delete_timer
init-stays db n hello_received at h = rw at
init-stays db n twoway_received at h = absurd (ground (arith, h))
init-stays db n oneway_received at h = rw at
init-stays db n kill_neighbor at h = refl
init-stays db n inactivity_timer at h = refl
init-stays db n ll_down at h = refl
init-stays db n exchange_done at h = rw at
init-stays db n loading_done at h = rw at
init-stays db n invalid_hash at h = rw at

stays :
    (db : LsaDatabase) (n : Neighbor) (e : NeighborEvent) (s : NeighborState)
    → n.state ≡ s
    → is_established s ≡ false
    → is_twoway e ≡ false
    → is_established (process_event db n e).0.state ≡ false
unfolding process_event
stays db n e down at h k = rw (process_event, at) (down-stays n e at)
stays db n e init at h k = rw (process_event, at) (init-stays db n e at k)
stays db n e exchange at h k = absurd (ground (arith, h))
stays db n e loading at h k = absurd (ground (arith, h))
stays db n e full at h k = absurd (ground (arith, h))

needs_twoway :
    (db : LsaDatabase) (n : Neighbor) (es : List NeighborEvent)
    → is_established n.state ≡ false
    → is_established (run db n es).state ≡ true
    → has_twoway es ≡ true
unfolding run
needs_twoway db n [] h k = absurd (ground (arith, h, k))
needs_twoway db n (e ∷ es) h k = elim (Bool-cases (is_twoway e)) [
  | inl two ↦ rw two
  | inr other ↦
      rw other (needs_twoway db (process_event db n e).0 es (stays db n e n.state refl h other) k)
]

-- A neighbour that is down with no pending request becomes full by a hello, a two-way hello and the
-- end of the exchange; and no sequence of events without a two-way hello makes it established.
pub full_path :
    (db : LsaDatabase) (n : Neighbor)
    → n.state ≡ down
    → n.local_lsa_pending_request_list ≡ []
    → ((run db n (hello_received ∷ twoway_received ∷ exchange_done ∷ [])).state ≡ full)
      × ((es : List NeighborEvent)
          → is_established (run db n es).state ≡ true
          → has_twoway es ≡ true)
unfolding run process_event process_down process_init process_exchange start_exchange
    send_dd_interest create_database_summary start_and_record
full_path db n at idle = (rw (at, idle), λ es. needs_twoway db n es (rw at refl))
