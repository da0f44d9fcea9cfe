-- ===== src/DeadNonceList/Window.antt =====
-- The dead nonce list is a window over the history of insertions, with a count of its marks.
use ndn_based_protocol.Prelude.{
  ℕ, zero, suc, ◌+◌, ◌-◌, ◌≤◌, ◌<◌, ◌≡◌, refl, Bool, true, false, List, [], ◌∷◌, ◌++◌, ltb, length,
  drop, if◌then◌else◌, arith, length-append, Bool-cases, inl, inr, length-drop, ap, ◌∙◌,
}
use ndn_based_protocol.DeadNonceList.{
  DeadNonceList, new, trim, insert_to_list, resized, on_timer_triggered, contains_item, nonce_hash,
  add_to_dead_nonce_list, is_in_dead_nonce_list,
}

abbrev pub marks_in : List (ℕ × Bool) → ℕ
marks_in [] = 0
marks_in ((value, is_mark) ∷ rest) = (if is_mark then 1 else 0) + marks_in rest

-- The loop keeps the last `limit` items, and counts the marks among them.
trim-window :
    (limit marks : ℕ) (items : List (ℕ × Bool))
    → marks ≡ marks_in items
    → ((trim limit marks items).1 ≡ drop (length items - limit) items)
      × ((trim limit marks items).0 ≡ marks_in (trim limit marks items).1)
unfolding trim
trim-window limit marks [] h = (ground arith, ground arith)
trim-window limit marks (front ∷ rest) h = elim (Bool-cases (ltb limit (suc (length rest)))) [
  | inl over ↦
      let shift : suc (length rest) - limit ≡ suc (length rest - limit) = ground arith in
      rw (over, shift)
        (trim-window limit (if front.1 then marks - 1 else marks) rest (ground arith))
  | inr fits ↦
      let none_dropped : suc (length rest) - limit ≡ 0 = ground arith in
      rw (fits, none_dropped) (refl, h)
]

pub record IsWindow (d : DeadNonceList) : Type 0 where
  pub counted : d.mark_number ≡ marks_in d.dead_nonce_list
  pub within : length d.dead_nonce_list ≤ d.size_limit
  pub positive : 0 < d.size_limit

marks_in-append : (xs ys : List (ℕ × Bool)) → marks_in (xs ++ ys) ≡ marks_in xs + marks_in ys
marks_in-append [] ys = omega arith
marks_in-append (x ∷ xs) ys = ground (arith, marks_in-append xs ys)

-- insertToList appends the item and keeps the last `sizeLimit` items; from a right mark count it
-- restores the size bound, also after the limit was lowered, and keeps the count right.
pub insert_to_list-IsWindow :
    (d : DeadNonceList) (value : ℕ) (is_mark : Bool)
    → d.mark_number ≡ marks_in d.dead_nonce_list
    → 0 < d.size_limit
    → ((insert_to_list d value is_mark).dead_nonce_list
        ≡ drop
            (length d.dead_nonce_list + 1 - d.size_limit)
            (d.dead_nonce_list ++ ((value, is_mark) ∷ [])))
      × IsWindow (insert_to_list d value is_mark)
unfolding insert_to_list
insert_to_list-IsWindow d value is_mark h p =
    let items : List (ℕ × Bool) = d.dead_nonce_list ++ ((value, is_mark) ∷ []) in
    let marks : ℕ = if is_mark then d.mark_number + 1 else d.mark_number in
    let counted : marks ≡ marks_in items =
      ground (arith, marks_in-append d.dead_nonce_list ((value, is_mark) ∷ [])) in
    let window = trim-window d.size_limit marks items counted in
    let size : length items ≡ length d.dead_nonce_list + 1 =
      length-append d.dead_nonce_list ((value, is_mark) ∷ []) in
    (
      window.0 ∙ ap (λ k. drop (k - d.size_limit) items) size,
      record {
        counted = window.1;
        within = omega (arith, ap length window.0, length-drop (length items - d.size_limit) items);
        positive = p;
      },
    )

pub new-IsWindow : IsWindow new
new-IsWindow = omega arith

size_limit-insert :
    (d : DeadNonceList) (value : ℕ) (is_mark : Bool)
    → (insert_to_list d value is_mark).size_limit ≡ d.size_limit
unfolding insert_to_list
size_limit-insert d value is_mark = refl

resized-shrinks :
    (marks size : ℕ)
    → 0 < size
    → (0 < resized 0 marks size)
      × (resized 0 marks size ≤ size)
      × (0 < marks → 1 < size → resized 0 marks size < size)
unfolding resized
resized-shrinks marks size h = (ground arith, ground arith, λ m l. ground arith)

-- The timer keeps the window invariant; and since `entryLifeTime / interval` is 6 / 100000 = 0, the
-- limit never grows, and it shrinks whenever a mark is in the list and the limit exceeds one.
pub on_timer_triggered-shrinks :
    (d : DeadNonceList)
    → IsWindow d
    → IsWindow (on_timer_triggered d)
      × ((on_timer_triggered d).size_limit ≤ d.size_limit)
      × (0 < d.mark_number → 1 < d.size_limit → (on_timer_triggered d).size_limit < d.size_limit)
unfolding on_timer_triggered
on_timer_triggered-shrinks d w =
    let (positive, le, lt) = resized-shrinks d.mark_number d.size_limit w.positive in
    let resized_list : DeadNonceList = record d {
      size_limit = resized 0 d.mark_number d.size_limit;
    } in
    (
      (insert_to_list-IsWindow resized_list 0 true w.counted positive).1,
      rw (size_limit-insert resized_list 0 true) le,
      λ marked large. rw (size_limit-insert resized_list 0 true) (lt marked large),
    )

contains-last :
    (hash k : ℕ) (items : List (ℕ × Bool))
    → k ≤ length items
    → contains_item hash (drop k (items ++ ((hash, false) ∷ []))) ≡ true
contains-last hash zero [] h = ground arith
contains-last hash (suc k) [] h = absurd (omega arith)
contains-last hash zero (x ∷ items) h = ground (arith, contains-last hash zero items (omega arith))
contains-last hash (suc k) (x ∷ items) h = contains-last hash k items (omega arith)

contains-append :
    (hash : ℕ) (xs ys : List (ℕ × Bool))
    → contains_item hash xs ≡ true
    → contains_item hash (xs ++ ys) ≡ true
contains-append hash [] ys h = cc
contains-append hash (x ∷ xs) ys h = ground (arith, contains-append hash xs ys)

module _ (city_hash32 : List ℕ → ℕ) where
  -- In a window of dead nonces with its marks counted, a name and nonce that were just added are found.
  pub is_in-add_self :
      (d : DeadNonceList) (name : List ℕ) (nonce : ℕ)
      → IsWindow d
      → is_in_dead_nonce_list city_hash32
          (add_to_dead_nonce_list city_hash32 d name nonce)
          name
          nonce
        ≡ true
  unfolding add_to_dead_nonce_list is_in_dead_nonce_list
  is_in-add_self d name nonce w =
      let hash : ℕ = nonce_hash city_hash32 name nonce in
      rw ((insert_to_list-IsWindow d hash false w.counted w.positive).0) (
        contains-last hash (length d.dead_nonce_list + 1 - d.size_limit) d.dead_nonce_list
          (omega arith))

  -- What is in a list with room left is still found after an insertion.
  pub is_in-add_room :
      (d : DeadNonceList) (name other : List ℕ) (nonce m : ℕ)
      → IsWindow d
      → length d.dead_nonce_list < d.size_limit
      → is_in_dead_nonce_list city_hash32 d other m ≡ true
      → is_in_dead_nonce_list city_hash32 (add_to_dead_nonce_list city_hash32 d name nonce) other m
        ≡ true
  unfolding add_to_dead_nonce_list is_in_dead_nonce_list
  is_in-add_room d name other nonce m w room h =
      let hash : ℕ = nonce_hash city_hash32 name nonce in
      let no_drop : length d.dead_nonce_list + 1 - d.size_limit ≡ 0 = omega arith in
      rw ((insert_to_list-IsWindow d hash false w.counted w.positive).0, no_drop)
        (contains-append (nonce_hash city_hash32 other m) d.dead_nonce_list _ h)

  pub add-IsWindow :
      (d : DeadNonceList) (name : List ℕ) (nonce : ℕ)
      → IsWindow d
      → IsWindow (add_to_dead_nonce_list city_hash32 d name nonce)
  unfolding add_to_dead_nonce_list
  add-IsWindow d name nonce w =
      (insert_to_list-IsWindow d (nonce_hash city_hash32 name nonce) false w.counted w.positive).1

  -- With room left, an insertion adds one item and leaves the limit.
  pub add-length :
      (d : DeadNonceList) (name : List ℕ) (nonce : ℕ)
      → IsWindow d
      → length d.dead_nonce_list < d.size_limit
      → (length (add_to_dead_nonce_list city_hash32 d name nonce).dead_nonce_list
          ≡ length d.dead_nonce_list + 1)
        × ((add_to_dead_nonce_list city_hash32 d name nonce).size_limit ≡ d.size_limit)
  unfolding add_to_dead_nonce_list
  add-length d name nonce w room =
      let hash : ℕ = nonce_hash city_hash32 name nonce in
      let no_drop : length d.dead_nonce_list + 1 - d.size_limit ≡ 0 = omega arith in
      (
        rw ((insert_to_list-IsWindow d hash false w.counted w.positive).0, no_drop)
            (length-append d.dead_nonce_list ((hash, false) ∷ [])),
        size_limit-insert d hash false,
      )
