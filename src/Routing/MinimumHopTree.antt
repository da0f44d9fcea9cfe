-- ===== src/Routing/MinimumHopTree.antt =====
-- src/networkLayerPlus/ndnRouting/model/tree/MinimumHopTree.cpp: who is registered with whom on the
-- minimum hop tree of each root.
pub mod Registration
use ndn_based_protocol.Prelude.{
  ℕ, ℤ, pos, Bool, true, false, ◌||◌, Option, none, some, List, [], ◌∷◌, ◌++◌, nat_eq, ◌==◌,
  if◌then◌else◌,
}
use ndn_based_protocol.Prelude.Map.{Map, lookup, insert, erase}

pub record MinimumHopTree : Type 0 where
  pub registered_sons : Map ℕ (List ℕ)
  pub last_operation_time : Map ℕ (Map ℕ ℤ)
  pub registered_parents : Map ℕ ℕ

-- m[root] for vectors and maps, which are empty where the root is new.
abbrev pub or_empty {ℓ} : {A : Type ℓ} → Option (List A) → List A
or_empty none = []
or_empty (some xs) = xs

abbrev pub or_zero : Option ℤ → ℤ
or_zero none = pos 0
or_zero (some t) = t

-- MinimumHopTree::getRegisteredSons
unfoldable pub get_registered_sons : MinimumHopTree → ℕ → List ℕ
get_registered_sons t root = or_empty (lookup root t.registered_sons)

unfoldable pub add_son : ℕ → List ℕ → List ℕ
add_son son [] = son ∷ []
add_son son (s ∷ sons) = let rest = add_son son sons in if s == son then s ∷ sons else s ∷ rest

-- MinimumHopTree::addToRegisteredSon
unfoldable pub add_to_registered_son : MinimumHopTree → ℕ → ℕ → MinimumHopTree
add_to_registered_son t root son = record t {
  registered_sons = insert root (add_son son (get_registered_sons t root)) t.registered_sons;
}

unfoldable pub delete_son : ℕ → List ℕ → List ℕ
delete_son son [] = []
delete_son son (s ∷ sons) = let rest = delete_son son sons in if s == son then sons else s ∷ rest

-- MinimumHopTree::deleteFromRegisteredSon
unfoldable pub delete_from_registered_son : MinimumHopTree → ℕ → ℕ → MinimumHopTree
delete_from_registered_son t root son = elim (lookup root t.registered_sons) [
  | none ↦ t
  | some sons ↦ record t { registered_sons = insert root (delete_son son sons) t.registered_sons }
]

-- MinimumHopTree::getLastRegistrationTime, which enters a 0 where there was no time.
unfoldable pub get_last_registration_time : MinimumHopTree → ℕ → ℕ → ℤ × MinimumHopTree
get_last_registration_time t root son =
    let times = or_empty (lookup root t.last_operation_time) in
    let time = or_zero (lookup son times) in
    (
      time,
      record t { last_operation_time = insert root (insert son time times) t.last_operation_time },
    )

-- MinimumHopTree::setLastRegistrationTime
unfoldable pub set_last_registration_time : MinimumHopTree → ℕ → ℕ → ℤ → MinimumHopTree
set_last_registration_time t root son time = record t {
  last_operation_time =
      insert root (insert son time (or_empty (lookup root t.last_operation_time)))
        t.last_operation_time;
}

-- MinimumHopTree::getRegisteredParent, without the parent 0 that the code returns with `false`.
abbrev pub get_registered_parent : MinimumHopTree → ℕ → Option ℕ
get_registered_parent t root = lookup root t.registered_parents

-- MinimumHopTree::removeRegisteredParent and MinimumHopTree::setRegisteredParent
abbrev pub remove_registered_parent : MinimumHopTree → ℕ → MinimumHopTree
remove_registered_parent t root = record t { registered_parents = erase root t.registered_parents }

abbrev pub set_registered_parent : MinimumHopTree → ℕ → ℕ → MinimumHopTree
set_registered_parent t root parent = record t {
  registered_parents = insert root parent t.registered_parents;
}
