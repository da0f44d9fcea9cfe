-- ===== src/NdnProtocol/Pipelines.antt =====
-- What the interest and data pipelines of NdnProtocol.cpp forward, record and drop.
use ndn_based_protocol.Prelude.{
  ℕ, ℤ, ◌≡◌, refl, inl, inr, Bool, ◌∙◌, true, false, ◌&&◌, not, none, some, List, [], bytes_eq,
  bytes_beq, bytes_beq_iff, if◌then◌else◌, arith, Bool-cases, nat_beq, leb,
}
use ndn_based_protocol.Prelude.Map.{Map, lookup, insert, lookup-insert}
use ndn_based_protocol.Declaration.{MacAddress}
use ndn_based_protocol.Packet.{NdnInterest, interest}
use ndn_based_protocol.Pit.{
  Pit, PitEntry, new_entry, is_pending, is_looping_interest, add_input_record, set_contains,
}
use ndn_based_protocol.Pit.Records.{nonces_elsewhere, looping-elsewhere}
use ndn_based_protocol.DeadNonceList.{DeadNonceList, is_in_dead_nonce_list}
use ndn_based_protocol.NdnProtocol.{
  Node, timer_name, cancel_timer, excluded_from_pit, record_interest, hop_exception, send_all,
  on_outgoing_interest, on_content_store_miss, match_pit, on_incoming_interest, interest_faces,
}
use ndn_based_protocol.NdnProtocol.Tables.{
  get_pit_entry-some, get_pit_entry-none, record_interest-pit, not-looping-new, content_hit-none,
}

upper-record_interest :
    (s : Node) (i : ℤ) (p : NdnInterest)
    → (record_interest s i p).upper_layer_protocols ≡ s.upper_layer_protocols
unfolding record_interest
upper-record_interest s i p = refl

-- The tests that an interest passes before the PIT is asked.
pub record IsAdmitted (h : List ℕ → ℕ) (s : Node) (p : NdnInterest) : Type 0 where
  pub hops_left : (not p.hop_limit_omitted && nat_beq p.hop_limit 0) ≡ false
  pub fresh : is_in_dead_nonce_list h s.dead_nonce_list p.name p.nonce ≡ false
  pub taken : excluded_from_pit p.name ≡ false

module _ (h : List ℕ → ℕ) (nics : Map ℤ MacAddress) (s : Node) (i : ℤ) (mac : MacAddress)
    (p : NdnInterest) (e : PitEntry) (admitted : IsAdmitted h s p)
    (present : lookup p.name s.pit ≡ some e) (ordinary : hop_exception i p.name ≡ false) where
  -- An interest with hops left that is not in the dead nonce list, whose name the PIT takes and the
  -- hop exception does not cover, and which does not loop, is aggregated where its name is pending:
  -- nothing is sent, and the PIT differs only in that the entry of the name has the new record.
  pub pending_aggregated :
      is_looping_interest e i p.nonce ≡ false
      → is_pending e ≡ true
      → ((on_incoming_interest h nics s i mac p).1 ≡ [])
        × ((j : List ℕ)
            → lookup j (on_incoming_interest h nics s i mac p).0.pit ≡ (
                if bytes_beq p.name j then some (add_input_record e i p.nonce) else lookup j s.pit))
  unfolding on_incoming_interest match_pit on_content_store_miss
  pending_aggregated fine pending =
      rw
        (
          admitted.hops_left,
          admitted.fresh,
          admitted.taken,
          get_pit_entry-some s.pit p.name e present,
          fine,
          pending,
          ordinary,
        )
        (rw (get_pit_entry-some s.pit p.name e present, pending)
          (
            refl,
            λ j. ground (
              arith,
              record_interest-pit (record s { timers = cancel_timer (timer_name p.name) s.timers })
                  i p j,
              get_pit_entry-some s.pit p.name e present,
            ),
          ))

  drop_loop :
      is_looping_interest e i p.nonce ≡ true → on_incoming_interest h nics s i mac p ≡ (s, [])
  unfolding on_incoming_interest match_pit
  drop_loop looping = rw (
    admitted.hops_left,
    admitted.fresh,
    admitted.taken,
    get_pit_entry-some s.pit p.name e present,
    looping,
    ordinary,
  )

  -- An interest with hops left that is not in the dead nonce list, whose name is pending in the PIT and not
  -- covered by the hop exception, is never sent. Where an interface other than its own has brought its
  -- nonce, it is dropped as a loop and the state stays as it was; where none has, also where its own
  -- interface has, the PIT entry of the name has the new record.
  pub loop_dropped :
      is_pending e ≡ true
      → let (after, sent) = on_incoming_interest h nics s i mac p in
        let heard = set_contains p.nonce (nonces_elsewhere i e.in_records) in
        (sent ≡ [])
        × ((if heard then after else s) ≡ s)
        × (lookup p.name after.pit ≡ some (if heard then e else add_input_record e i p.nonce))
  loop_dropped pending =
      let heard : Bool = set_contains p.nonce (nonces_elsewhere i e.in_records) in
      let looping : is_looping_interest e i p.nonce ≡ heard = looping-elsewhere e i p.nonce in
      elim (Bool-cases heard) [
        | inl loops ↦
            let dropped = drop_loop (looping ∙ loops) in rw (loops, dropped) (refl, refl, present)
        | inr fine ↦
            let (quiet, recorded) = pending_aggregated (looping ∙ fine) pending in
            rw fine (quiet, refl, ground (arith, recorded p.name, bytes_beq_iff p.name p.name))
      ]

module _ (h : List ℕ → ℕ) (nics : Map ℤ MacAddress) (s : Node) (i : ℤ) (mac : MacAddress)
    (p : NdnInterest) (admitted : IsAdmitted h s p) (absent : lookup p.name s.pit ≡ none) where
  -- An interest with hops left that is not in the dead nonce list, and whose name the PIT takes but
  -- does not have, gets an entry with its record, the only change in the PIT, and is sent, as it came,
  -- to its preferred interfaces or those of the strategy, unless its hop limit is at most one.
  pub new_forwarded :
      ((on_incoming_interest h nics s i mac p).1 ≡ (
        if not p.hop_limit_omitted && leb p.hop_limit 1
        then []
        else send_all h nics s.upper_layer_protocols
            (interest p)
            i
            mac
            (interest_faces h nics i p)))
      × ((j : List ℕ)
          → lookup j (on_incoming_interest h nics s i mac p).0.pit ≡ (
              if bytes_beq p.name j
              then some (add_input_record (new_entry p.name) i p.nonce)
              else lookup j s.pit))
  unfolding on_incoming_interest match_pit on_content_store_miss on_outgoing_interest
  new_forwarded =
      let pit : Pit = insert p.name (new_entry p.name) s.pit in
      let s' : Node = record s { pit = pit } in
      let stored : lookup p.name pit ≡ some (new_entry p.name) =
        rw lookup-insert (ground (arith, bytes_beq_iff p.name p.name)) in
      rw
        (
          admitted.hops_left,
          admitted.fresh,
          admitted.taken,
          get_pit_entry-none s.pit p.name absent,
          not-looping-new p.name i p.nonce,
          content_hit-none,
        )
        (rw (get_pit_entry-some pit p.name (new_entry p.name) stored) (
          ground (arith, upper-record_interest s' i p),
          λ j. ground (
            arith,
            record_interest-pit s' i p j,
            get_pit_entry-some pit p.name (new_entry p.name) stored,
            lookup-insert p.name j (new_entry p.name) s.pit,
          ),
        ))
