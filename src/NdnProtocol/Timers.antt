-- ===== src/NdnProtocol/Timers.antt =====
-- The handlers of NdnProtocol keep a timer for each PIT entry.
use ndn_based_protocol.Prelude.{
  ℕ, ℤ, ◌≡◌, nat_beq, subst, ◌∙◌, inl, inr, false, ◌&&◌, not, none, some, List, bytes_eq,
  bytes_beq_iff, arith, Bool-cases, Option-cases,
}
use ndn_based_protocol.Prelude.Map.{Map, lookup, insert, erase, lookup-insert, lookup-erase}
use ndn_based_protocol.Declaration.{MacAddress}
use ndn_based_protocol.Packet.{NdnInterest, NdnData, NdnPacket, interest, data_packet}
use ndn_based_protocol.Pit.{PitEntry, new_entry, delete_pit_entry, add_input_record}
use ndn_based_protocol.DeadNonceList.{is_in_dead_nonce_list}
use ndn_based_protocol.NdnProtocol.{
  Node, timer_name, cancel_timer, excluded_from_pit, record_interest, match_pit,
  on_incoming_interest, on_interest_finalize, on_timer_up, satisfy, on_incoming_data,
  on_receive_ndn_packet,
}
use ndn_based_protocol.NdnProtocol.Tables.{
  EntryTimed, IsTimed, add_input_record-name, add_input_record-pending, put-IsTimed, remove-IsTimed,
  miss-state, record_interest-pit, record_interest-timers, get_pit_entry-some, match_pit-absent,
  match_pit-present,
}

abbrev pub Timed : Node → Type 0
Timed s = IsTimed s.pit s.timers

-- An entry that was not there is made, and its timer armed.
record_new-Timed :
    (s : Node) (i : ℤ) (p : NdnInterest)
    → lookup p.name s.pit ≡ none
    → Timed s
    → Timed (record_interest (record s { pit = insert p.name (new_entry p.name) s.pit }) i p)
record_new-Timed s i p absent v =
    let s' : Node = record s { pit = insert p.name (new_entry p.name) s.pit } in
    let e : PitEntry = add_input_record (new_entry p.name) i p.nonce in
    let stored : lookup p.name s'.pit ≡ some (new_entry p.name) =
      rw lookup-insert (ground (arith, bytes_beq_iff p.name p.name)) in
    let unarmed : lookup (timer_name p.name) s.timers ≡ none =
      subst (EntryTimed s.timers p.name) absent (v.entry p.name) in
    put-IsTimed s.pit _ s.timers _ p.name e (add_input_record-name (new_entry p.name) i p.nonce)
      (add_input_record-pending (new_entry p.name) i p.nonce)
      (λ j. ground (
        arith,
        record_interest-pit s' i p j,
        get_pit_entry-some s'.pit p.name (new_entry p.name) stored,
        lookup-insert p.name j (new_entry p.name) s.pit,
      ))
      (λ t. record_interest-timers s' i p t unarmed) v

-- An entry that was there gets a record, and its timer is armed again.
record_again-Timed :
    (s : Node) (i : ℤ) (p : NdnInterest) (e : PitEntry)
    → lookup p.name s.pit ≡ some e
    → Timed s
    → Timed (record_interest (record s { timers = cancel_timer (timer_name p.name) s.timers }) i p)
unfolding cancel_timer
record_again-Timed s i p e present v =
    let s' : Node = record s { timers = cancel_timer (timer_name p.name) s.timers } in
    let named : EntryTimed s.timers p.name (some e) =
      subst (EntryTimed s.timers p.name) present (v.entry p.name) in
    let unarmed : lookup (timer_name p.name) s'.timers ≡ none =
      rw lookup-erase (ground (arith, bytes_beq_iff (timer_name p.name) (timer_name p.name))) in
    put-IsTimed s.pit _ s.timers _ p.name (add_input_record e i p.nonce)
      (add_input_record-name e i p.nonce ∙ named.0) (add_input_record-pending e i p.nonce)
      (λ j. ground (arith, record_interest-pit s' i p j, get_pit_entry-some s.pit p.name e present))
      (λ t. ground (
        arith,
        record_interest-timers s' i p t,
        unarmed,
        lookup-erase (timer_name p.name) t s.timers,
      ))
      v

module _ (h : List ℕ → ℕ) (nics : Map ℤ MacAddress) (s : Node) (v : Timed s) where
  match_pit-Timed :
      (i : ℤ) (mac : MacAddress) (p : NdnInterest)
      → excluded_from_pit p.name ≡ false
      → Timed (match_pit h nics s i mac p).0
  match_pit-Timed i mac p taken = elim (Option-cases (lookup p.name s.pit)) [
    | inl absent ↦
        rw (match_pit-absent h nics s i mac p taken absent) (record_new-Timed s i p absent v)
    | inr (e, present) ↦
        let named : EntryTimed s.timers p.name (some e) =
          subst (EntryTimed s.timers p.name) present (v.entry p.name) in
        rw (match_pit-present h nics s i mac p taken e present named.1)
          (ground (arith, record_again-Timed s i p e present v, v))
  ]

  on_incoming_interest-Timed :
      (i : ℤ) (mac : MacAddress) (p : NdnInterest) → Timed (on_incoming_interest h nics s i mac p).0
  unfolding on_incoming_interest
  on_incoming_interest-Timed i mac p =
      elim (Bool-cases (not p.hop_limit_omitted && nat_beq p.hop_limit 0)) [
        | inl spent ↦ rw spent v
        | inr alive ↦
            rw alive (elim (Bool-cases (is_in_dead_nonce_list h s.dead_nonce_list p.name p.nonce)) [
              | inl dead ↦ rw dead v
              | inr fresh ↦ rw fresh (elim (Bool-cases (excluded_from_pit p.name)) [
                | inl out ↦ rw (out, miss-state, out) v
                | inr taken ↦ rw taken (match_pit-Timed i mac p taken)
              ])
            ])
      ]

  satisfy-Timed :
      (d : NdnData) (e : PitEntry) → lookup d.name s.pit ≡ some e → Timed (satisfy h nics s d e)
  unfolding satisfy delete_pit_entry cancel_timer
  satisfy-Timed d e present =
      let named : EntryTimed s.timers d.name (some e) =
        subst (EntryTimed s.timers d.name) present (v.entry d.name) in
      rw named.0 (remove-IsTimed s.pit s.timers d.name v)

  on_incoming_data-Timed :
      (i : ℤ) (mac : MacAddress) (d : NdnData) → Timed (on_incoming_data h nics s i mac d).0
  unfolding on_incoming_data
  on_incoming_data-Timed i mac d = elim (Option-cases (lookup d.name s.pit)) [
    | inl absent ↦ rw absent (ground (arith, v))
    | inr (e, present) ↦ rw present (ground (arith, v, satisfy-Timed d e present))
  ]

  on_timer_up-Timed : (t : List ℕ) → Timed (on_timer_up h nics s t)
  unfolding on_timer_up on_interest_finalize delete_pit_entry cancel_timer
  on_timer_up-Timed t = elim (Option-cases (lookup t s.timers)) [
    | inl unarmed ↦ rw (unarmed, on_timer_up) v
    | inr (n, armed) ↦ rw (armed, on_timer_up) (finalized n armed (v.keyed t n armed))
  ]
    where
      finalized :
          (n : List ℕ)
          → lookup t s.timers ≡ some n
          → t ≡ timer_name n
          → Timed (on_interest_finalize h nics (record s { timers = erase t s.timers }) n)
      finalized n armed e = elim (Option-cases (lookup n s.pit)) [
        | inl absent ↦
            let none_armed : lookup (timer_name n) s.timers ≡ none =
              subst (EntryTimed s.timers n) absent (v.entry n) in
            absurd (ground (arith, e, armed, none_armed))
        | inr (x, present) ↦
            rw (present, on_interest_finalize, e) (remove-IsTimed s.pit s.timers n v)
      ]

-- Every handler keeps each PIT entry pending under its own name with its expiry timer armed, and
-- every armed timer that of a PIT entry: interests and data from any interface, and expiries.
pub handlers-Timed :
    (h : List ℕ → ℕ) (nics : Map ℤ MacAddress) (s : Node) (i : ℤ) (mac : MacAddress)
    (packet : NdnPacket) (t : List ℕ)
    → Timed s
    → Timed (on_receive_ndn_packet h nics s i mac packet).0 × Timed (on_timer_up h nics s t)
unfolding on_receive_ndn_packet
handlers-Timed h nics s i mac (interest p) t v =
    (on_incoming_interest-Timed h nics s v i mac p, on_timer_up-Timed h nics s v t)
handlers-Timed h nics s i mac (data_packet d) t v =
    (on_incoming_data-Timed h nics s v i mac d, on_timer_up-Timed h nics s v t)
