-- ===== src/Pit.antt =====
-- src/networkLayer/ndn/component/pit: the pending interest table.
pub mod Records
use ndn_based_protocol.Prelude.{
  ℕ, ◌+◌, ℤ, Bool, true, false, ◌||◌, Option, none, some, List, [], ◌∷◌, ◌++◌, ltb, nat_eq, int_eq,
  bytes_eq, ◌==◌, if◌then◌else◌,
}
use ndn_based_protocol.Prelude.Map.{Map, lookup, insert, erase}

-- `std::set<uint32_t>` as the list of its elements in order.
unfoldable pub set_contains : ℕ → List ℕ → Bool
set_contains n [] = false
set_contains n (m ∷ ms) = n == m || set_contains n ms

pub set_insert : ℕ → List ℕ → List ℕ
set_insert n [] = n ∷ []
set_insert n (m ∷ ms) =
    let rest = set_insert n ms in
    if ltb n m then n ∷ (m ∷ ms) else if n == m then m ∷ ms else m ∷ rest

pub record PitInRecord : Type 0 where
  pub interface_id : ℤ
  pub nonce_list : List ℕ

pub record PitEntry : Type 0 where
  pub name : List ℕ
  pub in_records : List PitInRecord

-- PitInRecord::findNonce and PitInRecord::addNonce
unfoldable pub find_nonce : PitInRecord → ℕ → Bool
unfolding set_contains
find_nonce r nonce = set_contains nonce r.nonce_list

unfoldable pub add_nonce : PitInRecord → ℕ → PitInRecord
unfolding set_insert
add_nonce r nonce = record r { nonce_list = set_insert nonce r.nonce_list }

-- PitEntry(name)
abbrev pub new_entry : List ℕ → PitEntry
new_entry name = record { name = name; in_records = [] }

-- PitEntry::isPending
abbrev pub has_records : List PitInRecord → Bool
has_records [] = false
has_records (r ∷ rs) = true

abbrev pub is_pending : PitEntry → Bool
is_pending e = has_records e.in_records

-- PitEntry::isLoopingInterest: another interface has asked with this nonce.
unfoldable pub looping_records : ℤ → ℕ → List PitInRecord → Bool
looping_records interface nonce [] = false
looping_records interface nonce (r ∷ rs) =
    let rest = looping_records interface nonce rs in
    if interface == r.interface_id then rest else if find_nonce r nonce then true else rest

unfoldable pub is_looping_interest : PitEntry → ℤ → ℕ → Bool
unfolding looping_records
is_looping_interest e interface nonce = looping_records interface nonce e.in_records

-- PitEntry::addInputRecord
unfoldable pub add_to_records : ℤ → ℕ → List PitInRecord → List PitInRecord
unfolding add_nonce
add_to_records interface nonce [] =
    add_nonce (record { interface_id = interface; nonce_list = [] }) nonce ∷ []
add_to_records interface nonce (r ∷ rs) =
    if r.interface_id == interface
    then add_nonce r nonce ∷ rs
    else r ∷ add_to_records interface nonce rs

unfoldable pub add_input_record : PitEntry → ℤ → ℕ → PitEntry
unfolding add_to_records
add_input_record e interface nonce = record e {
  in_records = add_to_records interface nonce e.in_records;
}

-- PitEntry::getAllNonce and PitEntry::getAllPendingInterfaces
unfoldable pub nonces_of : List PitInRecord → List ℕ
nonces_of [] = []
nonces_of (r ∷ rs) = r.nonce_list ++ nonces_of rs

abbrev pub get_all_nonce : PitEntry → List ℕ
get_all_nonce e = nonces_of e.in_records

unfoldable pub interfaces_of : List PitInRecord → List ℤ
interfaces_of [] = []
interfaces_of (r ∷ rs) = r.interface_id ∷ interfaces_of rs

abbrev pub get_all_pending_interfaces : PitEntry → List ℤ
get_all_pending_interfaces e = interfaces_of e.in_records

abbrev pub Pit : Type 0
Pit = Map (List ℕ) PitEntry

-- Pit::findPitEntry
abbrev pub find_pit_entry : Pit → List ℕ → Option PitEntry
find_pit_entry pit name = lookup name pit

-- Pit::getPitEntry: the entry, and the table, to which a new entry is added where there was none.
unfoldable pub get_pit_entry : Pit → List ℕ → PitEntry × Pit
get_pit_entry pit name = elim (lookup name pit) [
  | none ↦ (new_entry name, insert name (new_entry name) pit)
  | some e ↦ (e, pit)
]

-- Pit::deletePitEntry
unfoldable pub delete_pit_entry : Pit → List ℕ → Pit
delete_pit_entry pit name = erase name pit
