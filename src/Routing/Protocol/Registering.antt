-- ===== src/Routing/Protocol/Registering.antt =====
-- registerParents makes the registered parents those of the minimum hop trees.
use ndn_based_protocol.Prelude.{
  ℕ, suc, ◌≡◌, refl, true, Option, none, some, List, [], ◌∷◌, nat_eq, nat_beq_iff, int_eq, bytes_eq,
  ◌==◌, arith, Bool-cases, Option-cases, inl, inr, ◌∙◌, subst, ap, if◌then◌else◌,
}
use ndn_based_protocol.Prelude.Map.{Map, lookup, lookup-insert, DistinctKeys}
use ndn_based_protocol.Routing.MinimumHopTree.{MinimumHopTree, get_registered_parent}
use ndn_based_protocol.Routing.Protocol.{
  Interface, Peer, Protocol, Environment, send_packet, start_retransmission,
  get_neighbor_by_router_id, send_registration, send_register_packet, send_deregister_packet,
}
use ndn_based_protocol.Routing.Protocol.Triggers.{
  leave_parent, is_parent, register_parent, register_all,
}

-- What sending leaves as it is.
pub record Frame (s t : Protocol) : Type 0 where
  pub same_id : t.router_id ≡ s.router_id
  pub same_interfaces : t.interfaces ≡ s.interfaces
  pub same_database : t.database ≡ s.database
  pub same_tree : t.minimum_hop_tree ≡ s.minimum_hop_tree

-- The parents that are registered.
abbrev pub parents_of : Protocol → Map ℕ ℕ
parents_of s = s.minimum_hop_tree.registered_parents

pub Frame-refl : (s : Protocol) → Frame s s
Frame-refl s = record {
  same_id = refl;
  same_interfaces = refl;
  same_database = refl;
  same_tree = refl;
}

module _ (env : Environment) where
  send_registration-Frame :
      (timer name content : List ℕ) (interface : Interface) (peer : Peer) (s : Protocol)
      → Frame s (send_registration env timer name content interface peer s)
  unfolding send_registration start_retransmission send_packet
  send_registration-Frame timer name content interface peer s =
      elim (Option-cases (lookup timer s.timers)) [
        | inl new ↦
            rw (send_registration, start_retransmission, send_packet, new)
              (record {
                same_id = refl;
                same_interfaces = refl;
                same_database = refl;
                same_tree = refl;
              })
        | inr (other, old) ↦
            rw (send_registration, start_retransmission, send_packet, old)
              (record {
                same_id = refl;
                same_interfaces = refl;
                same_database = refl;
                same_tree = refl;
              })
      ]

  send_register-Frame :
      (root parent : ℕ) (s : Protocol) → Frame s (send_register_packet env root parent s)
  unfolding send_register_packet
  send_register-Frame root parent s =
      elim (Option-cases (get_neighbor_by_router_id parent s.interfaces)) [
        | inl unknown ↦
            rw (send_register_packet, unknown)
              (record {
                same_id = refl;
                same_interfaces = refl;
                same_database = refl;
                same_tree = refl;
              })
        | inr ((interface, peer), known) ↦
            let f = send_registration-Frame _ _ _ interface peer (record s { read = suc s.read }) in
            rw (send_register_packet, known)
              (record {
                same_id = f.same_id;
                same_interfaces = f.same_interfaces;
                same_database = f.same_database;
                same_tree = f.same_tree;
              })
      ]

  pub send_deregister-Frame :
      (root parent : ℕ) (s : Protocol) → Frame s (send_deregister_packet env root parent s)
  unfolding send_deregister_packet
  send_deregister-Frame root parent s =
      elim (Option-cases (get_neighbor_by_router_id parent s.interfaces)) [
        | inl unknown ↦
            rw (send_deregister_packet, unknown)
              (record {
                same_id = refl;
                same_interfaces = refl;
                same_database = refl;
                same_tree = refl;
              })
        | inr ((interface, peer), known) ↦
            let f = send_registration-Frame _ _ _ interface peer (record s { read = suc s.read }) in
            rw (send_deregister_packet, known)
              (record {
                same_id = f.same_id;
                same_interfaces = f.same_interfaces;
                same_database = f.same_database;
                same_tree = f.same_tree;
              })
      ]

  leave_parent-Frame :
      (root parent : ℕ) (o : Option ℕ) (s : Protocol) → Frame s (leave_parent env root parent o s)
  leave_parent-Frame root parent none s = Frame-refl s
  leave_parent-Frame root parent (some old) s = elim (Bool-cases (old == parent)) [
    | inl same ↦ rw same (Frame-refl s)
    | inr other ↦ rw other (send_deregister-Frame root old s)
  ]

  -- The parents after a step, and what stays.
  abbrev pub Stays : Protocol → Protocol → Type 0
  Stays s t = (t.router_id ≡ s.router_id) × (t.database ≡ s.database)

  register_parent-lookup :
      (root parent : ℕ) (s : Protocol)
      → Stays s (register_parent env root parent s)
        × ((r : ℕ)
            → lookup r (parents_of (register_parent env root parent s)) ≡ (
                if root == s.router_id
                then lookup r (parents_of s)
                else if root == r
                then some parent
                else lookup r (parents_of s)))
  unfolding register_parent
  register_parent-lookup root parent s =
      let registered : Option ℕ = get_registered_parent s.minimum_hop_tree root in
      let left : Protocol = leave_parent env root parent registered s in
      let f = leave_parent-Frame root parent registered s in
      elim (Bool-cases (root == s.router_id)) [
        | inl ours ↦ rw (register_parent, ours) ((refl, refl), λ r. refl)
        | inr other ↦ elim (Bool-cases (is_parent parent registered)) [
          | inl kept ↦
              let at_root : lookup root (parents_of s) ≡ some parent =
                is_parent-some parent registered kept in
              rw (register_parent, other, kept)
                (
                  (f.same_id, f.same_database),
                  λ r.
                      ap (λ (t : MinimumHopTree). lookup r t.registered_parents) f.same_tree
                      ∙ elim (Bool-cases (root == r)) [
                        | inl same ↦
                            let is_r : root ≡ r = (nat_beq_iff root r).0 same in
                            rw same
                              (subst (λ x. lookup x (parents_of s) ≡ some parent) is_r at_root)
                        | inr different ↦ rw different refl
                      ],
                )
          | inr changed ↦
              let sent : Protocol = send_register_packet env root parent left in
              let g = send_register-Frame root parent left in
              let tree : sent.minimum_hop_tree ≡ s.minimum_hop_tree = g.same_tree ∙ f.same_tree in
              rw (register_parent, other, changed)
                (
                  (g.same_id ∙ f.same_id, g.same_database ∙ f.same_database),
                  λ r.
                      lookup-insert root r parent (parents_of sent)
                      ∙ ap
                          (λ (t : MinimumHopTree).
                            if root == r then some parent else lookup r t.registered_parents)
                          tree,
                )
        ]
      ]
    where
      is_parent-some : (p : ℕ) (o : Option ℕ) → is_parent p o ≡ true → o ≡ some p
      is_parent-some p none h = cc
      is_parent-some p (some old) h = ap some ((nat_beq_iff old p).0 h)

  -- What a registered parent becomes where the trees give `o`.
  abbrev pub or_old : Option ℕ → Option ℕ → Option ℕ
  or_old none old = old
  or_old (some p) old = some p

  pub register_all-lookup :
      (res : Map ℕ ℕ) (s : Protocol)
      → DistinctKeys res
      → Stays s (register_all env res s)
        × ((r : ℕ)
            → lookup r (parents_of (register_all env res s)) ≡ (
                if r == s.router_id
                then lookup r (parents_of s)
                else or_old (lookup r res) (lookup r (parents_of s))))
  unfolding register_all lookup
  register_all-lookup [] s d = ((refl, refl), λ r. ground arith)
  register_all-lookup (entry ∷ res) s d =
      let next : Protocol = register_parent env entry.0 entry.1 s in
      let (stays, first) = register_parent-lookup entry.0 entry.1 s in
      let (stays', others) = register_all-lookup res next d.1 in
      (
        (stays'.0 ∙ stays.0, stays'.1 ∙ stays.1),
        λ r.
            others r
            ∙ rw stays.0 (
                rw (first r) (
                  ground (
                    arith,
                    nat_beq_iff entry.0 r,
                    nat_beq_iff entry.0 s.router_id,
                    nat_beq_iff r s.router_id,
                    d.0,
                  ))),
      )
