-- ===== src/Routing/Dispatch/Received.antt =====
-- What the LSA controller keeps of the database.
use ndn_based_protocol.Prelude.{
  ℕ, ℤ, ◌≡◌, refl, Bool, true, false, ◌||◌, List, [], ◌∷◌, length, arith, Bool-cases, Option-cases,
  inl, inr, sym, subst, ◌>>=◌, int_eq, nat_eq, bytes_eq, ◌==◌,
}
use ndn_based_protocol.Prelude.Map.{Map, lookup}
use ndn_based_protocol.Declaration.{MacAddress}
use ndn_based_protocol.Util.{slash, split}
use ndn_based_protocol.Packet.{NdnInterest, NdnData}
use ndn_based_protocol.Strategy.{local_word}
use ndn_based_protocol.Routing.Lsa.{LsaDataPack, adj, rch, decode_lsa, generate_ls_digest}
use ndn_based_protocol.Routing.LsaDatabase.{LsaDatabase, insert_lsa}
use ndn_based_protocol.Routing.Neighbor.{loading_done, cancel_lsa_interest_request}
use ndn_based_protocol.Routing.Packs.{new_lsa_pack}
use ndn_based_protocol.Routing.PacketName.{global_lsa_timer}
use ndn_based_protocol.Routing.MinimumHopTree.{get_registered_parent}
use ndn_based_protocol.Routing.Protocol.{
  Peer, Interface, Protocol, Environment, send_packet, cancel_retransmission, get_neighbor_by_mac,
  get_neighbor_by_router_id,
}
use ndn_based_protocol.Routing.Protocol.Triggers.{
  put_peer, register_parents, send_info_to_all, send_info_to_children, rebuild_routing_table,
}
use ndn_based_protocol.Routing.RegisterController.{
  part_at, Novelty, unknown_router, newer, not_newer, novelty, insert_received,
}
use ndn_based_protocol.Routing.LsaController.{
  named_digest, requested_lsa, answer_local, answer_hop, forward_hop, on_lsa_interest, accept_lsa,
  finish_request, finish_requests, end_request, handle_lsa, take_lsa, on_lsa_data,
}
use ndn_based_protocol.Routing.LsaController.Newest.{send_info_to_all-database}
use ndn_based_protocol.Routing.Dispatch.Kept.{
  Kept, bind-Kept, read-Kept, Kept-lookup, peer_event-Kept, register_parents-Kept,
  rebuild_routing_table-Kept, send_info_to_children-database,
}

module _ (env : Environment) (P : LsaDatabase → Type 0)
    (closed : (db : LsaDatabase) (lsa : LsaDataPack) → P db → P (insert_lsa db lsa)) where
  pub send_info_to_all-kept :
      (lsa : LsaDataPack) (index : ℤ) (s : Protocol)
      → P s.database
      → P (send_info_to_all env lsa index s).database
  send_info_to_all-kept lsa index s h = subst P (sym (send_info_to_all-database env lsa index s)) h

  pub send_info_to_children-kept :
      (lsa : LsaDataPack) (s : Protocol)
      → P s.database
      → P (send_info_to_children env lsa s).database
  send_info_to_children-kept lsa s h =
      subst P (sym (send_info_to_children-database env P closed lsa s)) h

  accept_lsa-kept :
      (index : ℤ) (lsa : LsaDataPack) (s : Protocol)
      → P s.database
      → P (accept_lsa env index lsa s).1.database
  unfolding accept_lsa
  accept_lsa-kept index lsa s h = elim (Bool-cases (lsa.ls_type == adj || lsa.ls_type == rch)) [
    | inr untyped ↦ rw untyped h
    | inl typed ↦ rw typed (after (novelty s lsa.ls_type lsa))
  ]
    where
      inserted : P (insert_received lsa s).database
      inserted = closed s.database lsa h

      after :
          (n : Novelty)
          → let r : Bool × Protocol = elim n [
            | unknown_router ↦ (true, send_info_to_all env lsa index (insert_received lsa s))
            | newer ↦ (true, send_info_to_children env lsa (insert_received lsa s))
            | not_newer ↦ (false, send_info_to_children env lsa s)
          ] in
            P r.1.database
      after unknown_router = send_info_to_all-kept lsa index (insert_received lsa s) inserted
      after newer = send_info_to_children-kept lsa (insert_received lsa s) inserted
      after not_newer = send_info_to_children-kept lsa s h

  finish_request-Kept :
      (index : ℤ) (interface : Interface) (lsa : LsaDataPack) (peer : Peer) (s : Protocol)
      → P s.database
      → Kept P (finish_request env index interface lsa peer s)
  unfolding finish_request put_peer
  finish_request-Kept index interface lsa peer s h = ground (
    arith,
    h,
    peer_event-Kept env P closed index interface
        (record peer {
          neighbor = cancel_lsa_interest_request peer.neighbor (generate_ls_digest lsa);
        })
        loading_done s h,
  )

  finish_requests-Kept :
      (index : ℤ) (lsa : LsaDataPack) (peers : Map ℕ Peer) (s : Protocol)
      → P s.database
      → Kept P (finish_requests env index lsa peers s)
  unfolding finish_requests
  finish_requests-Kept index lsa [] s h = h
  finish_requests-Kept index lsa (entry ∷ peers) s h =
      bind-Kept P _ _
        (Kept-lookup P (lookup index s.interfaces) s _ h (λ interface.
          Kept-lookup P (lookup entry.0 interface.neighbors) s _ h
            (λ peer. finish_request-Kept index interface lsa peer s h)))
        (λ t k. finish_requests-Kept index lsa peers t k)

  end_request-Kept :
      (index : ℤ) (interface : Interface) (is_local : Bool) (lsa : LsaDataPack) (s : Protocol)
      → P s.database
      → Kept P (end_request env index interface is_local lsa s)
  unfolding end_request
  end_request-Kept index interface true lsa s h =
      finish_requests-Kept index lsa interface.neighbors s h
  end_request-Kept index interface false lsa s h = h

  computed :
      (t : Protocol) → P t.database → Kept P (register_parents env t >>= rebuild_routing_table env)
  computed t m =
      bind-Kept P (register_parents env t) (rebuild_routing_table env)
        (register_parents-Kept env P closed t m) (rebuild_routing_table-Kept env P closed)

  handle_lsa-Kept :
      (index : ℤ) (interface : Interface) (is_local : Bool) (lsa : LsaDataPack) (s : Protocol)
      → P s.database
      → Kept P (handle_lsa env index interface is_local lsa s)
  unfolding handle_lsa
  handle_lsa-Kept index interface is_local lsa s h =
      bind-Kept P _ _
        (end_request-Kept index interface is_local lsa (accept_lsa env index lsa s).1
          (accept_lsa-kept index lsa s h))
        (λ t m. ground (arith, m, computed t m))

  take_lsa-Kept :
      (index : ℤ) (interface : Interface) (is_local : Bool) (content : List ℕ) (s : Protocol)
      → P s.database
      → Kept P (take_lsa env index interface is_local content s)
  unfolding take_lsa
  take_lsa-Kept index interface is_local content s h =
      read-Kept P (decode_lsa new_lsa_pack (env.decrypt content) (length (env.decrypt content))) _
        (λ lsa. ground (arith, h, handle_lsa-Kept index interface is_local lsa s h))

  pub on_lsa_data-Kept :
      (index : ℤ) (mac : MacAddress) (packet : NdnData) (s : Protocol)
      → P s.database
      → Kept P (on_lsa_data env index mac packet s)
  unfolding on_lsa_data cancel_retransmission
  on_lsa_data-Kept index mac packet s h =
      let splits = split packet.name slash in
      let d = named_digest splits in
      Kept-lookup P (lookup index s.interfaces) s _ h (λ interface.
        let taken =
          take_lsa-Kept index interface (part_at splits 2 == local_word) packet.content
            (cancel_retransmission (global_lsa_timer d.router_id d.link_state_type d.sequence_num)
              s)
            h in
        ground (arith, h, taken))

  forward_hop-database :
      (packet : NdnInterest) (id : ℕ) (s : Protocol)
      → (forward_hop packet id s).database ≡ s.database
  unfolding forward_hop send_packet
  forward_hop-database packet id s =
      elim (Option-cases (get_registered_parent s.minimum_hop_tree id)) [
        | inl root ↦ rw (forward_hop, root) refl
        | inr (target, known) ↦
            elim (Option-cases (get_neighbor_by_router_id target s.interfaces)) [
              | inl away ↦ rw (forward_hop, known, away) refl
              | inr ((interface, peer), here) ↦ rw (forward_hop, known, here) refl
            ]
      ]

  answer_hop-database :
      (interface : Interface) (packet : NdnInterest) (splits : List (List ℕ)) (s : Protocol)
      → (answer_hop env interface packet splits s).database ≡ s.database
  unfolding answer_hop send_packet
  answer_hop-database interface packet splits s =
      let forwarded = forward_hop-database packet (named_digest splits).router_id s in
      elim (Option-cases (requested_lsa splits s)) [
        | inl missing ↦ rw (answer_hop, missing) forwarded
        | inr (lsa, found) ↦ ground (arith, found, forwarded)
      ]

  answer_local-database :
      (index : ℤ) (mac : MacAddress) (interface : Interface) (name : List ℕ)
      (splits : List (List ℕ)) (s : Protocol)
      → (answer_local env index mac interface name splits s).database ≡ s.database
  unfolding answer_local send_packet
  answer_local-database index mac interface name splits s =
      elim (Option-cases (requested_lsa splits s)) [
        | inl missing ↦ rw (answer_local, missing) refl
        | inr (lsa, found) ↦ rw (answer_local, found) refl
      ]

  pub on_lsa_interest-database :
      (index : ℤ) (mac : MacAddress) (packet : NdnInterest) (s : Protocol)
      → (on_lsa_interest env index mac packet s).database ≡ s.database
  unfolding on_lsa_interest
  on_lsa_interest-database index mac packet s =
      let splits = split packet.name slash in
      elim (Option-cases (lookup index s.interfaces)) [
        | inl away ↦ rw (on_lsa_interest, away) refl
        | inr (interface, here) ↦
            elim (Option-cases (get_neighbor_by_mac mac interface.neighbors)) [
              | inl stranger ↦ rw (on_lsa_interest, here, stranger) refl
              | inr (peer, known) ↦ ground (
                arith,
                here,
                known,
                answer_local-database index mac interface packet.name splits s,
                answer_hop-database interface packet splits s,
              )
            ]
      ]
