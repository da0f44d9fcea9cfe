-- ===== src/Routing/Protocol/Parents.antt =====
-- The registered parents after registerParents.
use ndn_based_protocol.Prelude.{
  ℕ, ◌≡◌, ◌≢◌, refl, Option, none, some, [], ◌∷◌, nat_eq, nat_beq_iff, ◌==◌, arith, Bool-cases,
  Option-cases, inl, inr, ◌∙◌, sym, subst, ap, >>=-some,
}
use ndn_based_protocol.Prelude.Map.{Map, lookup, erase, lookup-erase, DistinctKeys}
use ndn_based_protocol.Routing.Lsa.{LsaDataPack}
use ndn_based_protocol.Routing.LsaDatabase.{find_in}
use ndn_based_protocol.Routing.LsaDatabase.Topology.{calculate_min_hop_trees}
use ndn_based_protocol.Routing.LsaDatabase.Topology.Linked.{linked}
use ndn_based_protocol.Routing.LsaDatabase.Topology.Parents.{Connected, IsParent, Present}
use ndn_based_protocol.Routing.LsaDatabase.Topology.Trees.{
  calculate_min_hop_trees-ends, calculate_min_hop_trees-IsParent,
}
use ndn_based_protocol.Routing.MinimumHopTree.{MinimumHopTree}
use ndn_based_protocol.Routing.Protocol.{Protocol, Environment, send_deregister_packet}
use ndn_based_protocol.Routing.Protocol.Triggers.{register_all, remove_old, register_parents}
use ndn_based_protocol.Routing.Protocol.Registering.{
  parents_of, Stays, or_old, send_deregister-Frame, register_all-lookup,
}

module _ (env : Environment) where
  -- A root without a parent in `res` loses its entry.
  abbrev without : Option ℕ → Option ℕ → Option ℕ → Option ℕ
  without (some p) was old = old
  without none none old = old
  without none (some p) old = none

  remove_old-lookup :
      (res registered : Map ℕ ℕ) (s : Protocol)
      → Stays env s (remove_old env res registered s)
        × ((r : ℕ)
            → lookup r (parents_of (remove_old env res registered s))
              ≡ without (lookup r res) (lookup r registered) (lookup r (parents_of s)))
  unfolding remove_old lookup
  remove_old-lookup res [] s = ((refl, refl), λ r. ground arith)
  remove_old-lookup res (entry ∷ registered) s = elim (Option-cases (lookup entry.0 res)) [
    | inr (p, present) ↦
        let (stays, others) = remove_old-lookup res registered s in
        rw (remove_old, present)
          (
            stays,
            λ r. others r ∙ elim (Bool-cases (entry.0 == r)) [
              | inl same ↦
                  let is_r : entry.0 ≡ r = (nat_beq_iff entry.0 r).0 same in
                  let at_r : lookup r res ≡ some p =
                    subst (λ x. lookup x res ≡ some p) is_r present in
                  rw at_r refl
              | inr other ↦ rw (lookup, other) refl
            ],
          )
    | inl absent ↦
        let sent : Protocol = send_deregister_packet env entry.0 entry.1 s in
        let f = send_deregister-Frame env entry.0 entry.1 s in
        let next : Protocol = record sent {
          minimum_hop_tree = record (sent.minimum_hop_tree) {
            registered_parents = erase entry.0 (parents_of sent);
          };
        } in
        let (stays, others) = remove_old-lookup res registered next in
        rw (remove_old, absent)
          (
            (stays.0 ∙ f.same_id, stays.1 ∙ f.same_database),
            λ r.
                others r
                ∙ rw (lookup-erase entry.0 r (parents_of sent)) (elim (Bool-cases (entry.0 == r)) [
                  | inl same ↦
                      let is_r : entry.0 ≡ r = (nat_beq_iff entry.0 r).0 same in
                      let at_r : lookup r res ≡ none =
                        subst (λ x. lookup x res ≡ none) is_r absent in
                      rw (at_r, lookup, same) (ground arith)
                  | inr other ↦
                      rw (lookup, other)
                        (ap
                          (λ (t : MinimumHopTree).
                            without (lookup r res) (lookup r registered)
                              (lookup r t.registered_parents))
                          f.same_tree)
                ]),
          )
  ]

  -- registerParents in terms of the trees.
  pub register_parents-lookup :
      (s : Protocol) (res : Map ℕ ℕ)
      → calculate_min_hop_trees s.database s.router_id ≡ some res
      → DistinctKeys res
      → (t : Protocol) × (register_parents env s ≡ some t)
        × (t.database ≡ s.database)
        × (t.router_id ≡ s.router_id)
        × ((r : ℕ) → r ≢ s.router_id → lookup r (parents_of t) ≡ lookup r res)
  unfolding register_parents
  register_parents-lookup s res ends keys =
      let s' : Protocol = register_all env res s in
      let (stays, first) = register_all-lookup env res s keys in
      let (stays', second) = remove_old-lookup res (parents_of s') s' in
      (
        remove_old env res (parents_of s') s',
        >>=-some _ ends refl,
        stays'.1 ∙ stays.1,
        stays'.0 ∙ stays.0,
        λ r other.
            second r
            ∙ rw (first r) (elim (Bool-cases (r == s.router_id)) [
              | inl same ↦ absurd (other ((nat_beq_iff r s.router_id).0 same))
              | inr different ↦ rw different (merged (lookup r res) (lookup r (parents_of s)))
            ]),
      )
    where
      merged : (o old : Option ℕ) → without o (or_old env o old) (or_old env o old) ≡ o
      merged none none = refl
      merged none (some p) = refl
      merged (some p) none = refl
      merged (some p) (some q) = refl

-- For a router with an adjacency LSA, registerParents ends and leaves the database. Then,
-- for roots other than the router itself, a parent is registered exactly where point-to-point links
-- connect the root to the router; the parent is connected to the root and has a link with the router.
pub register_parents-IsParent :
    (env : Environment) (s : Protocol) {lsa : LsaDataPack}
    → find_in s.router_id s.database.adj_lsa ≡ some lsa
    → (t : Protocol) × (register_parents env s ≡ some t)
      × (t.database ≡ s.database)
      × ((root parent : ℕ)
          → root ≢ s.router_id
          → lookup root (parents_of t) ≡ some parent
          → IsParent (linked s.database.adj_lsa) s.router_id root parent)
      × ((root : ℕ)
          → root ≢ s.router_id
          → Connected (linked s.database.adj_lsa) root s.router_id
          → Present root (parents_of t))
register_parents-IsParent env s e =
    let (res, ends, keys) = calculate_min_hop_trees-ends s.database s.router_id in
    let (res', ends', right, all) = calculate_min_hop_trees-IsParent s.database s.router_id e in
    let one : res' ≡ res = ground (arith, ends, ends') in
    let (t, done, database, _, agree) = register_parents-lookup env s res ends keys in
    (
      t,
      done,
      database,
      λ root parent other at_root. right root parent (rw one (sym (agree root other) ∙ at_root)),
      λ root other path.
          let (parent, at_root) = all root path in (parent, agree root other ∙ (rw one at at_root)),
    )

-- registerParents ends for every state, with the parent of the trees for every root but the router
-- itself. So another run on the same database changes no parent but that entry.
pub register_parents-settles :
    (env : Environment) (s : Protocol)
    → (t u : Protocol) × (register_parents env s ≡ some t)
      × (register_parents env t ≡ some u)
      × ((root : ℕ) → root ≢ s.router_id → lookup root (parents_of u) ≡ lookup root (parents_of t))
register_parents-settles env s =
    let (res, ends, keys) = calculate_min_hop_trees-ends s.database s.router_id in
    let (t, done, database, id, agree) = register_parents-lookup env s res ends keys in
    let again : calculate_min_hop_trees t.database t.router_id ≡ some res =
      rw (database, id) ends in
    let (u, done', _, _, agree') = register_parents-lookup env t res again keys in
    (t, u, done, done', λ root other. agree' root (rw id other) ∙ sym (agree root other))
