-- ===== src/Routing/RegisterController/Ordering.antt =====
-- Registrations and deregistrations of a son that arrive in any order.
use ndn_based_protocol.Prelude.{
  ℕ, ℤ, ◌≡◌, refl, Bool, true, false, nat_eq, nat_beq_iff, arith, ◌∙◌, sym, ap, subst,
}
use ndn_based_protocol.Routing.Graph.{int_ltb}
use ndn_based_protocol.Routing.Graph.Order.{int_ltb_asym, int_ltb_trans}
use ndn_based_protocol.Routing.MinimumHopTree.{
  MinimumHopTree, get_registered_sons, get_last_registration_time, set_last_registration_time,
  add_to_registered_son, delete_from_registered_son,
}
use ndn_based_protocol.Routing.MinimumHopTree.Registration.{
  is_son, DistinctSons, registered_sons_change, registration_time_change,
}
use ndn_based_protocol.Routing.RegisterController.{register_son, deregister_son}

abbrev pub is_registered : MinimumHopTree → ℕ → ℕ → Bool
is_registered t root son = is_son son (get_registered_sons t root)

abbrev pub last_time : MinimumHopTree → ℕ → ℕ → ℤ
last_time t root son = (get_last_registration_time t root son).0

abbrev pub AllDistinct : MinimumHopTree → Type 0
AllDistinct t = (r : ℕ) → DistinctSons (get_registered_sons t r)

module _ (t : MinimumHopTree) (root son : ℕ) (time : ℤ) where
  asked_sons :
      (r : ℕ)
      → get_registered_sons (get_last_registration_time t root son).1 r ≡ get_registered_sons t r
  unfolding get_last_registration_time get_registered_sons
  asked_sons r = refl

  set_sons :
      (u : MinimumHopTree) (r : ℕ)
      → get_registered_sons (set_last_registration_time u root son time) r ≡ get_registered_sons u r
  unfolding set_last_registration_time get_registered_sons
  set_sons u r = refl

  last-set :
      (u : MinimumHopTree) → last_time (set_last_registration_time u root son time) root son ≡ time
  last-set u =
      (registration_time_change u root son root son time).0
      ∙ ground (arith, nat_beq_iff root root, nat_beq_iff son son)

  last-asked : last_time (get_last_registration_time t root son).1 root son ≡ last_time t root son
  last-asked = (registration_time_change t root son root son time).1

  -- What an accepted step leaves: the sons are those of a tree `u`, and the time is the new one.
  Accepted : Bool → MinimumHopTree → Type 0
  Accepted registered u =
      AllDistinct u × (is_registered u root son ≡ registered) × (last_time u root son ≡ time)

  register_newer :
      AllDistinct t
      → int_ltb (last_time t root son) time ≡ true
      → Accepted true (register_son t root son time).1
  unfolding register_son Accepted
  register_newer d newer =
      let asked : MinimumHopTree = (get_last_registration_time t root son).1 in
      let (distinct, _, added, _) =
        registered_sons_change asked root son
          (λ r. subst DistinctSons (sym (asked_sons r)) (d r)) in
      let u : MinimumHopTree = add_to_registered_son asked root son in
      rw (register_son, newer)
        (
          λ r. subst DistinctSons (sym (set_sons u r)) (distinct r),
          ap (is_son son) (set_sons u root)
              ∙ (added root son ∙ ground (arith, nat_beq_iff root root, nat_beq_iff son son)),
          last-set u,
        )

  deregister_newer :
      AllDistinct t
      → int_ltb (last_time t root son) time ≡ true
      → Accepted false (deregister_son t root son time).1
  unfolding deregister_son Accepted
  deregister_newer d newer =
      let asked : MinimumHopTree = (get_last_registration_time t root son).1 in
      let (_, distinct, _, removed) =
        registered_sons_change asked root son
          (λ r. subst DistinctSons (sym (asked_sons r)) (d r)) in
      let u : MinimumHopTree = delete_from_registered_son asked root son in
      rw (deregister_son, newer)
        (
          λ r. subst DistinctSons (sym (set_sons u r)) (distinct r),
          ap (is_son son) (set_sons u root)
              ∙ (removed root son ∙ ground (arith, nat_beq_iff root root, nat_beq_iff son son)),
          last-set u,
        )

  -- An outdated step changes neither the sons nor the time.
  Ignored : MinimumHopTree → Type 0
  Ignored u =
      (is_registered u root son ≡ is_registered t root son)
      × (last_time u root son ≡ last_time t root son)

  outdated-Ignored :
      int_ltb (last_time t root son) time ≡ false
      → Ignored (register_son t root son time).1 × Ignored (deregister_son t root son time).1
  unfolding register_son deregister_son Ignored
  outdated-Ignored old = (
    rw (register_son, old) (ap (is_son son) (asked_sons root), last-asked),
    rw (deregister_son, old) (ap (is_son son) (asked_sons root), last-asked),
  )

-- A registration and a deregistration of the same son with different times, both newer than the last:
-- in whichever order they arrive, the one with the later time decides whether the son is registered, and its
-- time is the last.
pub latest_decides :
    (t : MinimumHopTree) (root son : ℕ) (earlier later : ℤ)
    → AllDistinct t
    → int_ltb (last_time t root son) earlier ≡ true
    → int_ltb earlier later ≡ true
    → let register = λ (u : MinimumHopTree) (time : ℤ). (register_son u root son time).1 in
      let deregister = λ (u : MinimumHopTree) (time : ℤ). (deregister_son u root son time).1 in
      (is_registered (deregister (register t earlier) later) root son ≡ false)
      × (is_registered (register (deregister t later) earlier) root son ≡ false)
      × (is_registered (register (deregister t earlier) later) root son ≡ true)
      × (is_registered (deregister (register t later) earlier) root son ≡ true)
      × (last_time (deregister (register t earlier) later) root son ≡ later)
      × (last_time (register (deregister t later) earlier) root son ≡ later)
unfolding Accepted Ignored
latest_decides t root son earlier later d new order =
    let newest : int_ltb (last_time t root son) later ≡ true =
      int_ltb_trans (last_time t root son) earlier later new order in
    let late : int_ltb later earlier ≡ false = int_ltb_asym earlier later order in
    let (d1, _, time1) = register_newer t root son earlier d new in
    let (d2, _, time2) = deregister_newer t root son earlier d new in
    let (d3, on3, time3) = register_newer t root son later d newest in
    let (d4, off4, time4) = deregister_newer t root son later d newest in
    let (_, off5, time5) =
      deregister_newer (register_son t root son earlier).1 root son later d1 (rw time1 order) in
    let (_, on6, _) =
      register_newer (deregister_son t root son earlier).1 root son later d2 (rw time2 order) in
    let (kept7, time7) =
      (outdated-Ignored (deregister_son t root son later).1 root son earlier (rw time4 late)).0 in
    let (kept8, _) =
      (outdated-Ignored (register_son t root son later).1 root son earlier (rw time3 late)).1 in
    (off5, kept7 ∙ off4, on6, kept8 ∙ on3, time5, time7 ∙ time4)
