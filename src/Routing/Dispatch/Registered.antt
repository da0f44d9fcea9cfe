-- ===== src/Routing/Dispatch/Registered.antt =====
-- What the INFO and registration controllers keep of the database.
use ndn_based_protocol.Prelude.{
  ℕ, ℤ, ◌≡◌, refl, Bool, true, false, Option, none, some, List, [], ◌∷◌, ◌++◌, arith, Option-cases,
  inl, inr, ◌∙◌, ◌>>=◌, int_eq, nat_eq, bytes_eq,
}
use ndn_based_protocol.Prelude.Map.{lookup}
use ndn_based_protocol.Declaration.{MacAddress}
use ndn_based_protocol.Util.{slash, split}
use ndn_based_protocol.Util.Numbers.{atoll, ato_rid}
use ndn_based_protocol.Packet.{NdnInterest, NdnData, interest}
use ndn_based_protocol.Strategy.{Face}
use ndn_based_protocol.Routing.Lsa.{LsaDataPack, LinkStateDigest, adj, rch}
use ndn_based_protocol.Routing.LsaDatabase.{LsaDatabase, insert_lsa}
use ndn_based_protocol.Routing.Packs.{
  RegisterDataPack, decode_register, decode_deregister, decode_register_data,
}
use ndn_based_protocol.Routing.PacketName.{global_lsa_timer}
use ndn_based_protocol.Routing.MinimumHopTree.{get_registered_parent, get_registered_sons}
use ndn_based_protocol.Routing.Protocol.{
  Peer, Interface, Protocol, Environment, send_packet, start_retransmission, cancel_retransmission,
  get_neighbor_by_mac, get_neighbor_by_router_id,
}
use ndn_based_protocol.Routing.Protocol.Triggers.{rebuild_routing_table}
use ndn_based_protocol.Routing.RegisterController.{
  part_at, Novelty, unknown_router, newer, not_newer, novelty, insert_received, handle_register,
  handle_deregister, on_register_interest, on_deregister_interest, follow, take_response,
  receive_lsa, receive_optional, handle_register_data, on_register_data, on_deregister_data,
}
use ndn_based_protocol.Routing.LsaController.{named_digest}
use ndn_based_protocol.Routing.InfoController.{
  request_lsa, forward_info, handle_info, on_info_interest, son_faces,
}
use ndn_based_protocol.Routing.Dispatch.Kept.{
  Kept, read-Kept, Kept-lookup, register_parents-Kept, rebuild_routing_table-Kept,
}
use ndn_based_protocol.Routing.Dispatch.Received.{send_info_to_all-kept, send_info_to_children-kept}

module _ (env : Environment) (P : LsaDatabase → Type 0)
    (closed : (db : LsaDatabase) (lsa : LsaDataPack) → P db → P (insert_lsa db lsa)) where
  request_lsa-database :
      (interface : Interface) (d : LinkStateDigest) (faces : List Face) (s : Protocol)
      → (request_lsa env interface d faces s).database ≡ s.database
  unfolding request_lsa start_retransmission send_packet
  request_lsa-database interface d faces s =
      elim (Option-cases
        (lookup (global_lsa_timer d.router_id d.link_state_type d.sequence_num) s.timers)) [
          | inl new ↦ rw (request_lsa, start_retransmission, new) refl
          | inr (old, armed) ↦ rw (request_lsa, start_retransmission, armed) refl
        ]

  forward_info-database :
      (interface : Interface) (packet : NdnInterest) (id : ℕ) (s : Protocol)
      → (forward_info interface packet id s).database ≡ s.database
  unfolding forward_info send_packet
  forward_info-database interface packet id s =
      after (son_faces (get_registered_sons s.minimum_hop_tree id) s.interfaces)
    where
      after :
          (faces : List Face)
          → let t : Protocol = elim faces [
            | [] ↦ s
            | face ∷ others ↦
                send_packet interface.mac_address
                  (interest (record packet { prefered_interfaces = face ∷ others }))
                  s
          ] in
            t.database ≡ s.database
      after [] = refl
      after (face ∷ others) = refl

  handle_info-database :
      (interface : Interface) (packet : NdnInterest) (d : LinkStateDigest) (s : Protocol)
      → (handle_info env interface packet d s).database ≡ s.database
  unfolding handle_info
  handle_info-database interface packet d s =
      let recorded : Protocol = record s {
        broadcast_lsa_pending_request_list = s.broadcast_lsa_pending_request_list ++ (d ∷ []);
      } in
      let plain = forward_info-database interface packet d.router_id s in
      let requested = λ (faces : List Face).
        forward_info-database interface packet d.router_id
          (request_lsa env interface d faces recorded)
        ∙ request_lsa-database interface d faces recorded in
      elim (Option-cases (get_registered_parent s.minimum_hop_tree d.router_id)) [
        | inl root ↦ ground (arith, root, plain, requested [])
        | inr (parent, known) ↦
            elim (Option-cases (get_neighbor_by_router_id parent s.interfaces)) [
              | inl away ↦ ground (arith, known, away, plain)
              | inr ((other, peer), here) ↦ ground (
                arith,
                known,
                here,
                plain,
                requested ((other.interface_id, peer.mac_address) ∷ []),
              )
            ]
      ]

  pub on_info_interest-database :
      (index : ℤ) (mac : MacAddress) (packet : NdnInterest) (s : Protocol)
      → (on_info_interest env index mac packet s).database ≡ s.database
  unfolding on_info_interest
  on_info_interest-database index mac packet s = elim (Option-cases (lookup index s.interfaces)) [
    | inl away ↦ rw (on_info_interest, away) refl
    | inr (interface, here) ↦ ground (
      arith,
      here,
      handle_info-database interface packet (named_digest (split packet.name slash)) s,
    )
  ]

  pub on_register_interest-Kept :
      (index : ℤ) (mac : MacAddress) (packet : NdnInterest) (s : Protocol)
      → P s.database
      → Kept P (on_register_interest index mac packet s)
  unfolding on_register_interest handle_register send_packet
  on_register_interest-Kept index mac packet s h =
      Kept-lookup P (lookup index s.interfaces) s _ h (λ interface.
        let decoded =
          read-Kept P (decode_register packet.application_parameters)
            (λ pack. some (
              handle_register index mac interface packet.name
                (ato_rid (part_at (split packet.name slash) 4))
                (atoll (part_at (split packet.name slash) 6)) pack s))
            (λ pack. h) in
        ground (arith, h, decoded))

  pub on_deregister_interest-Kept :
      (index : ℤ) (mac : MacAddress) (packet : NdnInterest) (s : Protocol)
      → P s.database
      → Kept P (on_deregister_interest index mac packet s)
  unfolding on_deregister_interest handle_deregister send_packet
  on_deregister_interest-Kept index mac packet s h =
      Kept-lookup P (lookup index s.interfaces) s _ h (λ interface.
        let decoded =
          read-Kept P (decode_deregister packet.application_parameters)
            (λ pack. some (
              handle_deregister index mac interface packet.name
                (ato_rid (part_at (split packet.name slash) 4))
                (atoll (part_at (split packet.name slash) 6)) pack.root s))
            (λ pack. h) in
        ground (arith, h, decoded))

  -- The same inside an answer that may end the function.
  abbrev KeptInside : Option (Option (Bool × Protocol)) → Type 0
  KeptInside none = Unit
  KeptInside (some none) = Unit
  KeptInside (some (some (flag, t))) = P t.database

  followed :
      (rebuilds : Bool) (t : Protocol)
      → P t.database
      → KeptInside (follow env rebuilds t >>= (λ u. some (some (true, u))))
  followed true t h =
      with_flag (rebuild_routing_table env t) (rebuild_routing_table-Kept env P closed t h)
    where
      with_flag : (o : Option Protocol) → Kept P o → KeptInside (o >>= (λ u. some (some (true, u))))
      with_flag none k = tt
      with_flag (some u) k = k
  followed false t h = h

  take_response-Kept :
      (rebuilds : Bool) (index : ℤ) (lsa : LsaDataPack) (rebuild : Bool) (n : Novelty)
      (s : Protocol)
      → P s.database
      → KeptInside (take_response env rebuilds index lsa rebuild n s)
  unfolding take_response
  take_response-Kept rebuilds index lsa rebuild unknown_router s h = followed rebuilds _ (
      send_info_to_all-kept env P closed lsa index (insert_received lsa s)
        (closed s.database lsa h))
  take_response-Kept rebuilds index lsa rebuild newer s h = followed rebuilds _ (
      send_info_to_children-kept env P closed lsa (insert_received lsa s) (closed s.database lsa h))
  take_response-Kept rebuilds index lsa true not_newer s h =
      followed rebuilds _ (send_info_to_children-kept env P closed lsa s h)
  take_response-Kept rebuilds index lsa false not_newer s h = h

  receive_lsa-Kept :
      (rebuilds : Bool) (type : ℕ) (index : ℤ) (peer : Peer) (lsa : LsaDataPack) (rebuild : Bool)
      (s : Protocol)
      → P s.database
      → KeptInside (receive_lsa env rebuilds type index peer lsa (rebuild, s))
  unfolding receive_lsa
  receive_lsa-Kept rebuilds type index peer lsa rebuild s h =
      ground (arith, h, take_response-Kept rebuilds index lsa rebuild (novelty s type lsa) s h)

  receive_optional-Kept :
      (rebuilds : Bool) (type : ℕ) (index : ℤ) (peer : Peer) (lsa : Option LsaDataPack)
      (rebuild : Bool) (s : Protocol)
      → P s.database
      → KeptInside (receive_optional env rebuilds type index peer lsa (rebuild, s))
  unfolding receive_optional
  receive_optional-Kept rebuilds type index peer none rebuild s h = h
  receive_optional-Kept rebuilds type index peer (some lsa) rebuild s h =
      receive_lsa-Kept rebuilds type index peer lsa rebuild s h

  -- What follows an LSA of the response.
  after_response :
      (o : Option (Option (Bool × Protocol))) (s : Protocol) (f : Bool × Protocol → Option Protocol)
      → KeptInside o
      → P s.database
      → ((flag : Bool) (t : Protocol) → P t.database → Kept P (f (flag, t)))
      → Kept P (o >>= (λ r. elim r [ none ↦ some s | some u ↦ f u ]))
  after_response none s f h k g = tt
  after_response (some none) s f h k g = k
  after_response (some (some (flag, t))) s f h k g = g flag t h

  handle_register_data-Kept :
      (index : ℤ) (peer : Peer) (name : List ℕ) (pack : RegisterDataPack) (s : Protocol)
      → P s.database
      → Kept P (handle_register_data env index peer name pack s)
  unfolding handle_register_data cancel_retransmission
  handle_register_data-Kept index peer name pack s h =
      after_response _ _ _ (receive_optional-Kept true adj index peer pack.adj_lsa false _ h) h
        (λ flag t k.
          after_response _ _ _ (receive_optional-Kept false rch index peer pack.rch_lsa flag t k) k
            (λ flag' u m. ground (arith, m, register_parents-Kept env P closed u m)))

  pub on_register_data-Kept :
      (index : ℤ) (mac : MacAddress) (packet : NdnData) (s : Protocol)
      → P s.database
      → Kept P (on_register_data env index mac packet s)
  unfolding on_register_data
  on_register_data-Kept index mac packet s h =
      read-Kept P (decode_register_data packet.content) _ (λ pack.
        Kept-lookup P (lookup index s.interfaces) s _ h (λ interface.
          Kept-lookup P (get_neighbor_by_mac mac interface.neighbors) s _ h
            (λ peer. handle_register_data-Kept index peer packet.name pack s h)))

  pub on_deregister_data-Kept :
      (index : ℤ) (mac : MacAddress) (packet : NdnData) (s : Protocol)
      → P s.database
      → Kept P (on_deregister_data index mac packet s)
  unfolding on_deregister_data cancel_retransmission
  on_deregister_data-Kept index mac packet s h =
      Kept-lookup P (lookup index s.interfaces) s _ h
        (λ interface. Kept-lookup P (get_neighbor_by_mac mac interface.neighbors) s _ h (λ peer. h))
