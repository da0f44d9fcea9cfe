-- ===== src/Tests/Forwarding.antt =====
-- The forwarding pipelines and their tables at concrete states.
use ndn_based_protocol.Prelude.{
  ℕ, ℤ, pos, negsuc, ◌≡◌, ◌≤◌, ◌<◌, ◌+◌, ◌-◌, ◌++◌, refl, true, false, none, some, List, [], ◌∷◌,
  length, drop, arith, if◌then◌else◌, bytes_beq, bytes_eq, int_eq, nat_eq,
}
use ndn_based_protocol.Prelude.Map.{Map, lookup}
use ndn_based_protocol.Declaration.{MacAddress, zero_mac}
use ndn_based_protocol.Util.{codes, split}
use ndn_based_protocol.Packet.{NdnInterest, NdnData, interest}
use ndn_based_protocol.Pit.{
  PitEntry, new_entry, is_looping_interest, add_input_record, set_contains, find_nonce,
}
use ndn_based_protocol.Pit.Records.{nonces_elsewhere}
use ndn_based_protocol.DeadNonceList
use ndn_based_protocol.DeadNonceList.{
  DeadNonceList, insert_to_list, on_timer_triggered, add_to_dead_nonce_list, is_in_dead_nonce_list,
}
use ndn_based_protocol.DeadNonceList.Window.{
  IsWindow, insert_to_list-IsWindow, on_timer_triggered-shrinks,
}
use ndn_based_protocol.ContentStore
use ndn_based_protocol.ContentStore.{ContentStore, insert_packet}
use ndn_based_protocol.ContentStore.Queue.{IsCovered, insert_packet-IsCovered}
use ndn_based_protocol.NdnProtocol.{
  Node, timer_name, on_receive_ndn_packet, on_incoming_interest, on_timer_up, excluded_from_pit,
  excluded_splits, hop_exception, send_all, interest_faces,
}
use ndn_based_protocol.NdnProtocol.Timers.{Timed, handlers-Timed}
use ndn_based_protocol.NdnProtocol.Pipelines.{
  IsAdmitted, loop_dropped, pending_aggregated, new_forwarded,
}

-- A hash of byte strings for the tests.
abbrev sum_hash : List ℕ → ℕ
sum_hash [] = 0
sum_hash (b ∷ bytes) = b + sum_hash bytes

abbrev two_nics : Map ℤ MacAddress
two_nics = (pos 1, zero_mac) ∷ (pos 2, zero_mac) ∷ []

abbrev asked : List ℕ
asked = codes "/data/x"

abbrev request : NdnInterest
request = record {
  name = asked;
  can_be_prefix = false;
  must_be_fresh = false;
  nonce = 7;
  hop_limit = 0;
  hop_limit_omitted = true;
  application_parameters = [];
  prefered_interfaces = [];
}

abbrev request_2 : NdnInterest
request_2 = record request { nonce = 8 }

abbrev reply_data : NdnData
reply_data = record { name = asked; content = 1 ∷ []; prefered_interfaces = [] }

abbrev waiting_entry : PitEntry
waiting_entry = record {
  name = asked;
  in_records = record { interface_id = pos 1; nonce_list = 7 ∷ [] } ∷ [];
}

abbrev start : Node
start = record {
  dead_nonce_list = DeadNonceList.new;
  pit = [];
  cs = ContentStore.empty;
  upper_layer_protocols = negsuc 0 ∷ [];
  timers = [];
}

abbrev waiting : Node
waiting = record start {
  pit = (asked, waiting_entry) ∷ [];
  timers = (timer_name asked, asked) ∷ [];
}

abbrev asked_nonce : ℕ
asked_nonce = 9

abbrev two_items : DeadNonceList
two_items = record {
  size_limit = 2;
  mark_number = 1;
  dead_nonce_list = (0, true) ∷ (5, false) ∷ [];
}

insert_to_list-IsWindow_example :
    ((insert_to_list two_items 9 false).dead_nonce_list
      ≡ drop
          (length two_items.dead_nonce_list + 1 - two_items.size_limit)
          (two_items.dead_nonce_list ++ ((9, false) ∷ [])))
    × IsWindow (insert_to_list two_items 9 false)
insert_to_list-IsWindow_example = insert_to_list-IsWindow two_items 9 false refl (omega arith)

on_timer_triggered-shrinks_example :
    IsWindow (on_timer_triggered two_items)
    × ((on_timer_triggered two_items).size_limit ≤ two_items.size_limit)
    × (0 < two_items.mark_number
        → 1 < two_items.size_limit
        → (on_timer_triggered two_items).size_limit < two_items.size_limit)
on_timer_triggered-shrinks_example = on_timer_triggered-shrinks two_items (omega arith)

empty-IsCovered : IsCovered ContentStore.empty
unfolding lookup
empty-IsCovered = record { bounded = omega arith; covered = λ name d h. cc }

insert_packet-IsCovered_example : IsCovered (insert_packet ContentStore.empty reply_data)
insert_packet-IsCovered_example =
    insert_packet-IsCovered ContentStore.empty reply_data empty-IsCovered

start-Timed : Timed start
unfolding lookup
start-Timed = record { entry = λ name. refl; keyed = λ t n h. cc }

handlers-Timed_example :
    Timed (on_receive_ndn_packet sum_hash two_nics start (pos 1) zero_mac (interest request)).0
    × Timed (on_timer_up sum_hash two_nics start asked)
handlers-Timed_example =
    handlers-Timed sum_hash two_nics start (pos 1) zero_mac (interest request) asked start-Timed

not_excluded : excluded_from_pit asked ≡ false
unfolding excluded_from_pit split excluded_splits
not_excluded = refl

ordinary_2 : hop_exception (pos 2) asked ≡ false
unfolding hop_exception split
ordinary_2 = refl

IsAdmitted-waiting : IsAdmitted sum_hash waiting request
unfolding is_in_dead_nonce_list
IsAdmitted-waiting = record { hops_left = refl; fresh = refl; taken = not_excluded }

IsAdmitted-waiting_2 : IsAdmitted sum_hash waiting request_2
unfolding is_in_dead_nonce_list
IsAdmitted-waiting_2 = record { hops_left = refl; fresh = refl; taken = not_excluded }

IsAdmitted-start : IsAdmitted sum_hash start request
unfolding is_in_dead_nonce_list
IsAdmitted-start = record { hops_left = refl; fresh = refl; taken = not_excluded }

waiting_present : lookup asked waiting.pit ≡ some waiting_entry
unfolding lookup
waiting_present = refl

start_absent : lookup asked start.pit ≡ none
unfolding lookup
start_absent = refl

not_looping_2 : is_looping_interest waiting_entry (pos 2) 8 ≡ false
unfolding is_looping_interest find_nonce
not_looping_2 = refl

loop_dropped_example :
    let (after, sent) = on_incoming_interest sum_hash two_nics waiting (pos 2) zero_mac request in
    let heard = set_contains 7 (nonces_elsewhere (pos 2) waiting_entry.in_records) in
    (sent ≡ [])
    × ((if heard then after else waiting) ≡ waiting)
    × (lookup asked after.pit
        ≡ some (if heard then waiting_entry else add_input_record waiting_entry (pos 2) 7))
loop_dropped_example =
    loop_dropped sum_hash two_nics waiting (pos 2) zero_mac request waiting_entry IsAdmitted-waiting
      waiting_present ordinary_2 refl

pending_aggregated_example :
    ((on_incoming_interest sum_hash two_nics waiting (pos 2) zero_mac request_2).1 ≡ [])
    × ((j : List ℕ)
        → lookup j (on_incoming_interest sum_hash two_nics waiting (pos 2) zero_mac request_2).0.pit
          ≡ (if bytes_beq asked j
              then some (add_input_record waiting_entry (pos 2) 8)
              else lookup j waiting.pit))
pending_aggregated_example =
    pending_aggregated sum_hash two_nics waiting (pos 2) zero_mac request_2 waiting_entry
      IsAdmitted-waiting_2 waiting_present ordinary_2 not_looping_2 refl

new_forwarded_example :
    ((on_incoming_interest sum_hash two_nics start (pos 1) zero_mac request).1
      ≡ send_all sum_hash two_nics start.upper_layer_protocols
          (interest request)
          (pos 1)
          zero_mac
          (interest_faces sum_hash two_nics (pos 1) request))
    × ((j : List ℕ)
        → lookup j (on_incoming_interest sum_hash two_nics start (pos 1) zero_mac request).0.pit ≡ (
            if bytes_beq asked j
            then some (add_input_record (new_entry asked) (pos 1) 7)
            else lookup j start.pit))
new_forwarded_example =
    new_forwarded sum_hash two_nics start (pos 1) zero_mac request IsAdmitted-start start_absent
