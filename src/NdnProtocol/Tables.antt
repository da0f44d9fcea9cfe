-- ===== src/NdnProtocol/Tables.antt =====
-- What the handlers do to the tables: the PIT entry of a name and its timer after each step.
use ndn_based_protocol.Prelude.{
  ℕ, ℤ, ◌≡◌, refl, ap, ◌∙◌, inl, inr, true, false, ◌&&◌, not, Option, none, some, List, [], ◌∷◌,
  bytes_eq, bytes_beq, bytes_beq_iff, if◌then◌else◌, arith, Bool-cases, Option-cases,
}
use ndn_based_protocol.Prelude.Map.{Map, lookup, insert, erase, lookup-insert, lookup-erase}
use ndn_based_protocol.Declaration.{MacAddress}
use ndn_based_protocol.Packet.{NdnInterest}
use ndn_based_protocol.Pit.{
  Pit, PitEntry, PitInRecord, new_entry, get_pit_entry, is_pending, add_input_record,
  is_looping_interest, has_records, add_to_records,
}
use ndn_based_protocol.ContentStore.{ContentStore, content_hit}
use ndn_based_protocol.NdnProtocol.{
  Node, timer_name, start_timer, cancel_timer, excluded_from_pit, record_interest, hop_exception,
  on_outgoing_interest, on_content_store_miss, match_pit, interest_faces,
}

abbrev pub Timers : Type 0
Timers = Map (List ℕ) (List ℕ)

-- Every PIT entry is stored under its own name, is pending and has its timer armed; and every armed
-- timer is that of a PIT entry.
abbrev pub EntryTimed : Timers → List ℕ → Option PitEntry → Type 0
EntryTimed timers name none = lookup (timer_name name) timers ≡ none
EntryTimed timers name (some e) =
    (e.name ≡ name) × (is_pending e ≡ true) × (lookup (timer_name name) timers ≡ some name)

pub record IsTimed (pit : Pit) (timers : Timers) : Type 0 where
  pub entry : (name : List ℕ) → EntryTimed timers name (lookup name pit)
  pub keyed : (t n : List ℕ) → lookup t timers ≡ some n → t ≡ timer_name n

timer_name_beq : (a b : List ℕ) → bytes_beq (timer_name a) (timer_name b) ≡ bytes_beq a b
unfolding timer_name
timer_name_beq a b = refl

pub add_input_record-name : (e : PitEntry) (i : ℤ) (n : ℕ) → (add_input_record e i n).name ≡ e.name
unfolding add_input_record
add_input_record-name e i n = refl

pub add_input_record-pending :
    (e : PitEntry) (i : ℤ) (n : ℕ) → is_pending (add_input_record e i n) ≡ true
unfolding add_input_record add_to_records
add_input_record-pending e i n = over_records e.in_records
  where
    over_records : (rs : List PitInRecord) → has_records (add_to_records i n rs) ≡ true
    over_records [] = refl
    over_records (r ∷ rs) = ground arith

EntryTimed-transfer :
    (t u : Timers) (name : List ℕ) (o : Option PitEntry)
    → lookup (timer_name name) u ≡ lookup (timer_name name) t
    → EntryTimed t name o
    → EntryTimed u name o
EntryTimed-transfer t u name none e h = e ∙ h
EntryTimed-transfer t u name (some x) e h = (h.0, h.1, e ∙ h.2)

-- An entry that is put into the table while its timer is armed, seen through the look-ups.
pub put-IsTimed :
    (pit pit' : Pit) (timers timers' : Timers) (name : List ℕ) (e : PitEntry)
    → e.name ≡ name
    → is_pending e ≡ true
    → ((j : List ℕ) → lookup j pit' ≡ (if bytes_beq name j then some e else lookup j pit))
    → ((t : List ℕ)
        → lookup t timers' ≡ (if bytes_beq (timer_name name) t then some name else lookup t timers))
    → IsTimed pit timers
    → IsTimed pit' timers'
put-IsTimed pit pit' timers timers' name e en ep hp ht v = record {
  entry = λ j. elim (Bool-cases (bytes_beq name j)) [
    | inl same ↦
        let eq : name ≡ j = (bytes_beq_iff name j).0 same in
        rw (hp j, same) (en ∙ eq, ep, rw (ht (timer_name j), timer_name_beq, same) (ap some eq))
    | inr other ↦
        rw (hp j, other)
          (EntryTimed-transfer timers timers' j (lookup j pit)
            (rw (ht (timer_name j), timer_name_beq, other)) (v.entry j))
  ];
  keyed = λ t n h. ground (arith, ht t, bytes_beq_iff (timer_name name) t, v.keyed t n);
}

-- An entry that is deleted while its timer is cancelled.
pub remove-IsTimed :
    (pit : Pit) (timers : Timers) (name : List ℕ)
    → IsTimed pit timers
    → IsTimed (erase name pit) (erase (timer_name name) timers)
remove-IsTimed pit timers name v = record {
  entry = λ j. elim (Bool-cases (bytes_beq name j)) [
    | inl same ↦ rw (lookup-erase, same) (rw (lookup-erase, timer_name_beq, same))
    | inr other ↦
        rw (lookup-erase, other)
          (EntryTimed-transfer timers (erase (timer_name name) timers) j (lookup j pit)
            (rw (lookup-erase, timer_name_beq, other)) (v.entry j))
  ];
  keyed = λ t n h. ground (arith, lookup-erase (timer_name name) t timers, v.keyed t n);
}

get_pit_entry-lookup :
    (pit : Pit) (name j : List ℕ)
    → lookup j (get_pit_entry pit name).1
      ≡ (if bytes_beq name j then some (get_pit_entry pit name).0 else lookup j pit)
unfolding get_pit_entry
get_pit_entry-lookup pit name j = elim (Option-cases (lookup name pit)) [
  | inl e ↦ rw (e, get_pit_entry) (lookup-insert name j (new_entry name) pit)
  | inr (x, e) ↦ rw (e, get_pit_entry) (ground (arith, bytes_beq_iff name j))
]

on_outgoing_interest-state :
    (h : List ℕ → ℕ) (nics : Map ℤ MacAddress) (s : Node) (i : ℤ) (mac : MacAddress)
    (p : NdnInterest) (faces : List (ℤ × MacAddress))
    → (on_outgoing_interest h nics s i mac p faces).0 ≡ s
unfolding on_outgoing_interest
on_outgoing_interest-state h nics s i mac p faces = ground arith

pub miss-state :
    (h : List ℕ → ℕ) (nics : Map ℤ MacAddress) (s : Node) (i : ℤ) (mac : MacAddress)
    (p : NdnInterest)
    → (on_content_store_miss h nics s i mac p).0
      ≡ (if excluded_from_pit p.name then s else record_interest s i p)
unfolding on_content_store_miss
miss-state h nics s i mac p = ground (
  arith,
  on_outgoing_interest-state h nics (if excluded_from_pit p.name then s else record_interest s i p)
      i mac p (interest_faces h nics i p),
)

-- What onContentStoreMiss leaves in the table and among the timers.
pub record_interest-pit :
    (s : Node) (i : ℤ) (p : NdnInterest) (j : List ℕ)
    → lookup j (record_interest s i p).pit ≡ (
        if bytes_beq p.name j
        then some (add_input_record (get_pit_entry s.pit p.name).0 i p.nonce)
        else lookup j s.pit)
unfolding record_interest
record_interest-pit s i p j = ground (
  arith,
  lookup-insert p.name j (add_input_record (get_pit_entry s.pit p.name).0 i p.nonce)
      (get_pit_entry s.pit p.name).1,
  get_pit_entry-lookup s.pit p.name j,
)

start_timer-lookup :
    (t n u : List ℕ) (timers : Timers)
    → lookup t timers ≡ none
    → lookup u (start_timer t n timers) ≡ (if bytes_beq t u then some n else lookup u timers)
unfolding start_timer
start_timer-lookup t n u timers h = rw (h, start_timer) (lookup-insert t u n timers)

pub record_interest-timers :
    (s : Node) (i : ℤ) (p : NdnInterest) (t : List ℕ)
    → lookup (timer_name p.name) s.timers ≡ none
    → lookup t (record_interest s i p).timers
      ≡ (if bytes_beq (timer_name p.name) t then some p.name else lookup t s.timers)
unfolding record_interest
record_interest-timers s i p t h = start_timer-lookup (timer_name p.name) p.name t s.timers h

pub not-looping-new :
    (name : List ℕ) (i : ℤ) (n : ℕ) → is_looping_interest (new_entry name) i n ≡ false
unfolding is_looping_interest
not-looping-new name i n = refl

pub content_hit-none : (cs : ContentStore) (name : List ℕ) → content_hit cs name ≡ none
unfolding content_hit
content_hit-none cs name = refl

pub get_pit_entry-some :
    (pit : Pit) (name : List ℕ) (e : PitEntry)
    → lookup name pit ≡ some e
    → get_pit_entry pit name ≡ (e, pit)
unfolding get_pit_entry
get_pit_entry-some pit name e h = rw (h, get_pit_entry)

pub get_pit_entry-none :
    (pit : Pit) (name : List ℕ)
    → lookup name pit ≡ none
    → get_pit_entry pit name ≡ (new_entry name, insert name (new_entry name) pit)
unfolding get_pit_entry
get_pit_entry-none pit name h = rw (h, get_pit_entry)

module _ (h : List ℕ → ℕ) (nics : Map ℤ MacAddress) (s : Node) (i : ℤ) (mac : MacAddress)
    (p : NdnInterest) (taken : excluded_from_pit p.name ≡ false) where
  pub match_pit-absent :
      lookup p.name s.pit ≡ none
      → (match_pit h nics s i mac p).0
        ≡ record_interest (record s { pit = insert p.name (new_entry p.name) s.pit }) i p
  unfolding match_pit
  match_pit-absent absent = rw (
    get_pit_entry-none s.pit p.name absent,
    not-looping-new p.name i p.nonce,
    content_hit-none,
    miss-state,
    taken,
  )

  pub match_pit-present :
      (e : PitEntry)
      → lookup p.name s.pit ≡ some e
      → is_pending e ≡ true
      → (match_pit h nics s i mac p).0 ≡ (
          if is_looping_interest e i p.nonce && not (hop_exception i p.name)
          then s
          else record_interest
              (record s { timers = cancel_timer (timer_name p.name) s.timers })
              i
              p)
  unfolding match_pit
  match_pit-present e present pending =
      rw (get_pit_entry-some s.pit p.name e present, pending)
        (ground (
          arith,
          taken,
          miss-state h nics (record s { timers = cancel_timer (timer_name p.name) s.timers }) i mac
              p,
        ))
