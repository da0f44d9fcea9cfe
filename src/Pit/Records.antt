-- ===== src/Pit/Records.antt =====
-- The in-records of a PIT entry: loops, pending interfaces and nonces.
use ndn_based_protocol.Prelude.{
  ℕ, ◌<◌, ◌≡◌, refl, ℤ, Bool, true, false, ◌||◌, List, [], ◌∷◌, ◌++◌, nat_eq, int_eq, int_beq_iff,
  ◌==◌, arith, int_beq, not, ◌&&◌, Bool-cases, inl, inr, if◌then◌else◌,
}
use ndn_based_protocol.Pit.{
  PitInRecord, PitEntry, set_contains, set_insert, find_nonce, add_nonce, looping_records,
  is_looping_interest, add_to_records, add_input_record, nonces_of, interfaces_of, get_all_nonce,
  get_all_pending_interfaces, is_pending, has_records,
}

set_contains-insert :
    (n m : ℕ) (ms : List ℕ) → set_contains n (set_insert m ms) ≡ (n == m || set_contains n ms)
unfolding set_contains set_insert
set_contains-insert n m [] = refl
set_contains-insert n m (k ∷ ms) = ground (arith, set_contains-insert n m ms)

-- Whether some record of an interface other than this one holds the nonce.
abbrev pub int_mem : ℤ → List ℤ → Bool
int_mem i [] = false
int_mem i (j ∷ js) = int_beq i j || int_mem i js

-- The interfaces of the records are distinct, and the nonces of each record are ascending.
abbrev pub Ascending : List ℕ → Type 0
Ascending [] = Unit {0}
Ascending (n ∷ []) = Unit {0}
Ascending (n ∷ m ∷ ns) = (n < m) × Ascending (m ∷ ns)

abbrev pub DistinctRecords : List PitInRecord → Type 0
DistinctRecords [] = Unit {0}
DistinctRecords (r ∷ rs) =
    (int_mem r.interface_id (interfaces_of rs) ≡ false)
    × Ascending r.nonce_list
    × DistinctRecords rs

find_nonce-add :
    (r : PitInRecord) (n m : ℕ) → find_nonce (add_nonce r n) m ≡ (m == n || find_nonce r m)
unfolding find_nonce add_nonce
find_nonce-add r n m = set_contains-insert m n r.nonce_list

interface_id-add_nonce : (r : PitInRecord) (n : ℕ) → (add_nonce r n).interface_id ≡ r.interface_id
unfolding add_nonce
interface_id-add_nonce r n = refl

find_nonce-new :
    (i : ℤ) (m : ℕ) → find_nonce (record { interface_id = i; nonce_list = [] }) m ≡ false
unfolding find_nonce set_contains
find_nonce-new i m = refl

looping_records-add :
    (i j : ℤ) (n m : ℕ) (rs : List PitInRecord)
    → looping_records j m (add_to_records i n rs)
      ≡ ((not (j == i) && m == n) || looping_records j m rs)
unfolding looping_records add_to_records
looping_records-add i j n m [] =
    let r : PitInRecord = record { interface_id = i; nonce_list = [] } in
    ground
      (arith, find_nonce-add r n m, interface_id-add_nonce r n, find_nonce-new i m, int_beq_iff j i)
looping_records-add i j n m (r ∷ rs) = ground (
  arith,
  find_nonce-add r n m,
  interface_id-add_nonce r n,
  looping_records-add i j n m rs,
  int_beq_iff j i,
  int_beq_iff r.interface_id i,
  int_beq_iff j r.interface_id,
)

set_contains-append :
    (n : ℕ) (xs ys : List ℕ) → set_contains n (xs ++ ys) ≡ (set_contains n xs || set_contains n ys)
unfolding set_contains
set_contains-append n [] ys = refl
set_contains-append n (x ∷ xs) ys = ground (arith, set_contains-append n xs ys)

-- The nonces that interfaces other than the given one have brought.
abbrev pub nonces_elsewhere : ℤ → List PitInRecord → List ℕ
nonces_elsewhere i [] = []
nonces_elsewhere i (r ∷ rs) =
    let rest = nonces_elsewhere i rs in if r.interface_id == i then rest else r.nonce_list ++ rest

looping_records-elsewhere :
    (i : ℤ) (n : ℕ) (rs : List PitInRecord)
    → looping_records i n rs ≡ set_contains n (nonces_elsewhere i rs)
unfolding looping_records find_nonce set_contains
looping_records-elsewhere i n [] = refl
looping_records-elsewhere i n (r ∷ rs) = ground (
  arith,
  looping_records-elsewhere i n rs,
  set_contains-append n r.nonce_list (nonces_elsewhere i rs),
  int_beq_iff r.interface_id i,
  int_beq_iff i r.interface_id,
)

-- isLoopingInterest holds where another interface has brought the nonce.
pub looping-elsewhere :
    (e : PitEntry) (i : ℤ) (n : ℕ)
    → is_looping_interest e i n ≡ set_contains n (nonces_elsewhere i e.in_records)
unfolding is_looping_interest
looping-elsewhere e i n = looping_records-elsewhere i n e.in_records

-- After addInputRecord(i, n), isLoopingInterest answers at every interface and nonce as before, but
-- for the nonce n at any interface other than i, where it is now true.
pub looping-add :
    (e : PitEntry) (i j : ℤ) (n m : ℕ)
    → is_looping_interest (add_input_record e i n) j m
      ≡ ((not (j == i) && m == n) || is_looping_interest e j m)
unfolding is_looping_interest add_input_record
looping-add e i j n m = looping_records-add i j n m e.in_records

int_mem-add :
    (i j : ℤ) (n : ℕ) (rs : List PitInRecord)
    → int_mem j (interfaces_of (add_to_records i n rs)) ≡ (j == i || int_mem j (interfaces_of rs))
unfolding interfaces_of add_to_records
int_mem-add i j n [] = rw (interface_id-add_nonce (record { interface_id = i; nonce_list = [] }) n)
int_mem-add i j n (r ∷ rs) = ground (
  arith,
  interface_id-add_nonce r n,
  int_mem-add i j n rs,
  int_beq_iff j i,
  int_beq_iff r.interface_id i,
  int_beq_iff j r.interface_id,
)

Ascending-insert : (n : ℕ) (ms : List ℕ) → Ascending ms → Ascending (set_insert n ms)
unfolding set_insert
Ascending-insert n [] h = tt
Ascending-insert n (m ∷ []) h = ground arith
Ascending-insert n (m ∷ k ∷ ms) h = ground (arith, Ascending-insert n (k ∷ ms) h.1)

Distinct-add :
    (i : ℤ) (n : ℕ) (rs : List PitInRecord)
    → DistinctRecords rs
    → DistinctRecords (add_to_records i n rs)
unfolding add_to_records interfaces_of add_nonce
Distinct-add i n [] h = (refl, tt, tt)
Distinct-add i n (r ∷ rs) h = elim (Bool-cases (int_beq r.interface_id i)) [
  | inl hit ↦ rw hit (h.0, Ascending-insert n r.nonce_list h.1, h.2)
  | inr miss ↦
      rw miss (rw (int_mem-add i r.interface_id n rs, miss, h.0), h.1, Distinct-add i n rs h.2)
]

nonces_of-add :
    (i : ℤ) (n m : ℕ) (rs : List PitInRecord)
    → set_contains m (nonces_of (add_to_records i n rs)) ≡ (m == n || set_contains m (nonces_of rs))
unfolding nonces_of add_to_records add_nonce
nonces_of-add i n m [] = rw set_contains-append (rw set_contains-insert (ground arith))
nonces_of-add i n m (r ∷ rs) = elim (Bool-cases (int_beq r.interface_id i)) [
  | inl hit ↦
      rw hit (rw (set_contains-append, set_contains-append) (rw set_contains-insert (ground arith)))
  | inr miss ↦
      rw miss
        (rw (set_contains-append, set_contains-append) (rw (nonces_of-add i n m rs) (ground arith)))
]

-- addInputRecord(i, n) makes the entry pending, adds i to its pending interfaces and n to its
-- nonces, loses none of either, and keeps one record for each interface with its nonces ascending.
pub add_input_record_adds :
    (e : PitEntry) (i : ℤ) (n : ℕ)
    → DistinctRecords e.in_records
    → (is_pending (add_input_record e i n) ≡ true)
      × ((j : ℤ)
          → int_mem j (get_all_pending_interfaces (add_input_record e i n))
            ≡ (j == i || int_mem j (get_all_pending_interfaces e)))
      × ((m : ℕ)
          → set_contains m (get_all_nonce (add_input_record e i n))
            ≡ (m == n || set_contains m (get_all_nonce e)))
      × DistinctRecords (add_input_record e i n).in_records
unfolding add_input_record add_to_records
add_input_record_adds e i n h = (
  pending e.in_records,
  λ j. int_mem-add i j n e.in_records,
  λ m. nonces_of-add i n m e.in_records,
  Distinct-add i n e.in_records h,
)
  where
    pending : (rs : List PitInRecord) → has_records (add_to_records i n rs) ≡ true
    pending [] = refl
    pending (r ∷ rs) = ground arith
