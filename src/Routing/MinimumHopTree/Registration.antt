-- ===== src/Routing/MinimumHopTree/Registration.antt =====
-- What registering and deregistering a son changes, and what the registration times answer.
use ndn_based_protocol.Prelude.{
  ◌∙◌, ℕ, ℤ, ◌≡◌, refl, Bool, false, not, ◌&&◌, ◌||◌, List, [], ◌∷◌, nat_eq, nat_beq_iff, ◌==◌,
  if◌then◌else◌, arith, Option-cases, inl, inr,
}
use ndn_based_protocol.Prelude.Map.{Map, lookup, insert, lookup-insert}
use ndn_based_protocol.Routing.MinimumHopTree.{
  MinimumHopTree, or_empty, or_zero, get_registered_sons, add_son, add_to_registered_son,
  delete_son, delete_from_registered_son, get_last_registration_time, set_last_registration_time,
}

abbrev pub is_son : ℕ → List ℕ → Bool
is_son s [] = false
is_son s (x ∷ xs) = x == s || is_son s xs

-- No son is registered twice.
abbrev pub DistinctSons : List ℕ → Type 0
DistinctSons [] = Unit
DistinctSons (x ∷ xs) = (is_son x xs ≡ false) × DistinctSons xs

is_son-add_son : (s son : ℕ) (xs : List ℕ) → is_son s (add_son son xs) ≡ (son == s || is_son s xs)
unfolding add_son
is_son-add_son s son [] = refl
is_son-add_son s son (x ∷ xs) = ground (arith, is_son-add_son s son xs)

Distinct-add_son : (son : ℕ) (xs : List ℕ) → DistinctSons xs → DistinctSons (add_son son xs)
unfolding add_son
Distinct-add_son son [] d = (refl, tt)
Distinct-add_son son (x ∷ xs) d =
    ground (arith, Distinct-add_son son xs d.1, is_son-add_son x son xs, d.0)

is_son-delete_son :
    (s son : ℕ) (xs : List ℕ)
    → DistinctSons xs
    → is_son s (delete_son son xs) ≡ (not (son == s) && is_son s xs)
unfolding delete_son
is_son-delete_son s son [] d = ground arith
is_son-delete_son s son (x ∷ xs) d = ground (arith, is_son-delete_son s son xs d.1, d.0)

Distinct-delete_son : (son : ℕ) (xs : List ℕ) → DistinctSons xs → DistinctSons (delete_son son xs)
unfolding delete_son
Distinct-delete_son son [] d = tt
Distinct-delete_son son (x ∷ xs) d =
    ground (arith, Distinct-delete_son son xs d.1, is_son-delete_son x son xs d.1, d.0)

sons-add :
    (t : MinimumHopTree) (root son r : ℕ)
    → get_registered_sons (add_to_registered_son t root son) r
      ≡ (if root == r then add_son son (get_registered_sons t root) else get_registered_sons t r)
unfolding get_registered_sons add_to_registered_son
sons-add t root son r = ground (
  arith,
  lookup-insert root r (add_son son (or_empty (lookup root t.registered_sons))) t.registered_sons,
)

sons-delete :
    (t : MinimumHopTree) (root son r : ℕ)
    → get_registered_sons (delete_from_registered_son t root son) r
      ≡ (if root == r then delete_son son (get_registered_sons t root) else get_registered_sons t r)
unfolding get_registered_sons delete_from_registered_son delete_son
sons-delete t root son r = elim (Option-cases (lookup root t.registered_sons)) [
  | inl absent ↦
      rw (get_registered_sons, delete_from_registered_son, absent)
        (ground (arith, absent, nat_beq_iff root r))
  | inr (sons, present) ↦
      rw
        (
          get_registered_sons,
          delete_from_registered_son,
          present,
          lookup-insert root r (delete_son son sons) t.registered_sons,
        )
        (ground arith)
]

-- Where no son is registered twice, registering and deregistering keep it so. Registering a son on
-- the tree of a root adds it there, deregistering removes it there, and neither changes whether any
-- other son is registered on any tree.
pub registered_sons_change :
    (t : MinimumHopTree) (root son : ℕ)
    → ((r : ℕ) → DistinctSons (get_registered_sons t r))
    → ((r : ℕ) → DistinctSons (get_registered_sons (add_to_registered_son t root son) r))
      × ((r : ℕ) → DistinctSons (get_registered_sons (delete_from_registered_son t root son) r))
      × ((r s : ℕ)
          → is_son s (get_registered_sons (add_to_registered_son t root son) r)
            ≡ ((root == r && son == s) || is_son s (get_registered_sons t r)))
      × ((r s : ℕ)
          → is_son s (get_registered_sons (delete_from_registered_son t root son) r)
            ≡ (not (root == r && son == s) && is_son s (get_registered_sons t r)))
registered_sons_change t root son d = (
  λ r.
      rw (sons-add t root son r)
        (ground (arith, Distinct-add_son son (get_registered_sons t root) (d root), d r)),
  λ r.
      rw (sons-delete t root son r)
        (ground (arith, Distinct-delete_son son (get_registered_sons t root) (d root), d r)),
  λ r s.
      rw (sons-add t root son r)
        (ground (arith, is_son-add_son s son (get_registered_sons t root), nat_beq_iff root r)),
  λ r s. rw (sons-delete t root son r) (
      ground
        (arith, is_son-delete_son s son (get_registered_sons t root) (d root), nat_beq_iff root r)),
)

time-insert :
    (times : Map ℕ (Map ℕ ℤ)) (root son r s : ℕ) (time : ℤ)
    → or_zero (
        lookup s (
          or_empty (lookup r (insert root (insert son time (or_empty (lookup root times))) times))))
      ≡ (if root == r && son == s then time else or_zero (lookup s (or_empty (lookup r times))))
time-insert times root son r s time = ground (
  arith,
  lookup-insert root r (insert son time (or_empty (lookup root times))) times,
  lookup-insert son s time (or_empty (lookup root times)),
  nat_beq_iff root r,
)

-- getLastRegistrationTime answers the time that was last set for the root and the son, and for every
-- other pair what it answered before; asking changes no answer.
pub registration_time_change :
    (t : MinimumHopTree) (root son r s : ℕ) (time : ℤ)
    → ((get_last_registration_time (set_last_registration_time t root son time) r s).0
        ≡ (if root == r && son == s then time else (get_last_registration_time t r s).0))
      × ((get_last_registration_time (get_last_registration_time t root son).1 r s).0
          ≡ (get_last_registration_time t r s).0)
unfolding get_last_registration_time set_last_registration_time
registration_time_change t root son r s time =
    let before : ℤ = or_zero (lookup son (or_empty (lookup root t.last_operation_time))) in
    (
      time-insert t.last_operation_time root son r s time,
      time-insert t.last_operation_time root son r s before
          ∙ ground (arith, nat_beq_iff root r, nat_beq_iff son s),
    )
