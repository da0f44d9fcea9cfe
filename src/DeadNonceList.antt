-- ===== src/DeadNonceList.antt =====
-- src/networkLayer/ndn/component/deadNonceList/DeadNonceList.{h,cpp}. `int` values here stay far
-- below 2^31, and the products with 1.2 and 0.9, truncated to `int`, are those of integers.
pub mod Window
use ndn_based_protocol.Prelude.{
  ℕ, zero, ◌+◌, ◌*◌, ◌/◌, ◌%◌, ◌^◌, ◌-◌, Bool, true, false, ◌&&◌, ◌||◌, not, List, [], ◌∷◌, ◌++◌,
  ltb, leb, nat_beq, length, if◌then◌else◌,
}

pub record DeadNonceList : Type 0 where
  pub size_limit : ℕ
  pub mark_number : ℕ
  pub dead_nonce_list : List (ℕ × Bool)

-- int entryLifeTime = 6; int interval = 100000;
abbrev pub entry_life_time : ℕ
entry_life_time = 6

abbrev pub interval : ℕ
interval = 100000

-- DeadNonceList()
abbrev pub new : DeadNonceList
new = record { size_limit = 100; mark_number = 0; dead_nonce_list = [] }

-- The `while` loop of insertToList, which returns the mark number and the list.
unfoldable pub trim : ℕ → ℕ → List (ℕ × Bool) → ℕ × List (ℕ × Bool)
trim limit marks [] = (marks, [])
trim limit marks (front ∷ rest) =
    let popped = trim limit (if front.1 then marks - 1 else marks) rest in
    if ltb limit (length (front ∷ rest)) then popped else (marks, front ∷ rest)

-- DeadNonceList::insertToList
unfoldable pub insert_to_list : DeadNonceList → ℕ → Bool → DeadNonceList
insert_to_list d value is_mark =
    let (marks, items) =
      trim d.size_limit (if is_mark then d.mark_number + 1 else d.mark_number)
        (d.dead_nonce_list ++ ((value, is_mark) ∷ [])) in
    record d { mark_number = marks; dead_nonce_list = items }

-- DeadNonceList::onTimerTriggered
unfoldable pub resized : ℕ → ℕ → ℕ → ℕ
resized expected marks size =
    if ltb marks expected
    then size * 12 / 10
    else if ltb expected marks
    then (if nat_beq (size * 9 / 10) 0 then 1 else size * 9 / 10)
    else size

unfoldable pub on_timer_triggered : DeadNonceList → DeadNonceList
unfolding resized
on_timer_triggered d =
    insert_to_list
      (record d { size_limit = resized (entry_life_time / interval) d.mark_number d.size_limit }) 0
      true

abbrev pub contains_item : ℕ → List (ℕ × Bool) → Bool
contains_item hash [] = false
contains_item hash ((value, is_mark) ∷ rest) =
    (nat_beq value hash && not is_mark) || contains_item hash rest

-- CityHash32 of a name with its final NUL is a parameter.
module _ (city_hash32 : List ℕ → ℕ) where
  -- (nameHash << 32) | nonce
  unfoldable pub nonce_hash : List ℕ → ℕ → ℕ
  nonce_hash name nonce = city_hash32 (name ++ (0 ∷ [])) % 2 ^ 32 * 2 ^ 32 + nonce % 2 ^ 32

  -- DeadNonceList::addToDeadNonceList
  unfoldable pub add_to_dead_nonce_list : DeadNonceList → List ℕ → ℕ → DeadNonceList
  add_to_dead_nonce_list d name nonce = insert_to_list d (nonce_hash name nonce) false

  -- DeadNonceList::isInDeadNonceList
  unfoldable pub is_in_dead_nonce_list : DeadNonceList → List ℕ → ℕ → Bool
  is_in_dead_nonce_list d name nonce = contains_item (nonce_hash name nonce) d.dead_nonce_list
