-- ===== src/Routing/Dispatch/Kept.antt =====
-- What the steps that the handlers share keep of the database.
use ndn_based_protocol.Prelude.{
  ℕ, suc, ℤ, ◌≡◌, Bool, true, false, Option, none, some, List, [], ◌∷◌, ◌++◌, take_exact, sym,
  subst, ◌>>=◌, if◌then◌else◌, int_eq, nat_eq,
}
use ndn_based_protocol.Prelude.Map.{lookup}
use ndn_based_protocol.Routing.Lsa.{LsaDataPack, public_key_length}
use ndn_based_protocol.Routing.LsaDatabase.{LsaDatabase, insert_lsa}
use ndn_based_protocol.Routing.LsaDatabase.Topology.Trees.{calculate_min_hop_trees-ends}
use ndn_based_protocol.Routing.LsaDatabase.Routes.{calculate_routing_table}
use ndn_based_protocol.Routing.MinimumHopTree.{get_registered_sons}
use ndn_based_protocol.Routing.Neighbor.{
  oneway_received, Neighbor, NeighborEvent, Action, dd_interest_sent, lsa_interest_sent,
  new_lsa_triggered, process_event,
}
use ndn_based_protocol.Routing.Protocol.{
  Peer, Interface, Protocol, Environment, send_packet, generate_lsa,
}
use ndn_based_protocol.Routing.Protocol.Triggers.{
  register_parents, send_info_to_children, rebuild_routing_table, trigger_new_lsa, perform,
  perform_all, put_peer, peer_event,
}
use ndn_based_protocol.Routing.Protocol.Events.{change_peer, event_at, drag_peer_to_init}
use ndn_based_protocol.Routing.Protocol.Parents.{register_parents-lookup}
use ndn_based_protocol.Routing.LsaController.Newest.{send_info_to-database}

-- A property of the database of the state after a handler, where it ends without a fault.
abbrev pub Kept : (LsaDatabase → Type 0) → Option Protocol → Type 0
Kept P none = Unit
Kept P (some t) = P t.database

module _ (P : LsaDatabase → Type 0) where
  pub bind-Kept :
      (o : Option Protocol) (f : Protocol → Option Protocol)
      → Kept P o
      → ((t : Protocol) → P t.database → Kept P (f t))
      → Kept P (o >>= f)
  bind-Kept none f h k = tt
  bind-Kept (some t) f h k = k t h

  pub read-Kept {ℓ} :
      {A : Type ℓ} (o : Option A) (f : A → Option Protocol)
      → ((a : A) → Kept P (f a))
      → Kept P (o >>= f)
  read-Kept none f k = tt
  read-Kept (some a) f k = k a

  pub Kept-if :
      (test : Bool) (a b : Option Protocol) → Kept P a → Kept P b → Kept P (if test then a else b)
  Kept-if true a b h k = h
  Kept-if false a b h k = k

  pub Kept-lookup {ℓ} :
      {A : Type ℓ} (o : Option A) (s : Protocol) (f : A → Option Protocol)
      → P s.database
      → ((a : A) → Kept P (f a))
      → Kept P (elim o [ none ↦ some s | some a ↦ f a ])
  Kept-lookup none s f h k = h
  Kept-lookup (some a) s f h k = k a

module _ (env : Environment) (P : LsaDatabase → Type 0)
    (closed : (db : LsaDatabase) (lsa : LsaDataPack) → P db → P (insert_lsa db lsa)) where
  pub register_parents-Kept : (s : Protocol) → P s.database → Kept P (register_parents env s)
  register_parents-Kept s h =
      let (res, ends, keys) = calculate_min_hop_trees-ends s.database s.router_id in
      let (t, done, database, _, _) = register_parents-lookup env s res ends keys in
      subst (Kept P) (sym done) (subst P (sym database) h)

  pub rebuild_routing_table-Kept :
      (s : Protocol) → P s.database → Kept P (rebuild_routing_table env s)
  unfolding rebuild_routing_table
  rebuild_routing_table-Kept s h =
      read-Kept P (calculate_routing_table env.run env.junk s.database s.router_id s.routing_table)
        _ (λ table. h)

  pub send_info_to_children-database :
      (lsa : LsaDataPack) (s : Protocol) → (send_info_to_children env lsa s).database ≡ s.database
  unfolding send_info_to_children
  send_info_to_children-database lsa s =
      send_info_to-database env lsa (get_registered_sons s.minimum_hop_tree lsa.router_id) s

  pub trigger_new_lsa-Kept : (s : Protocol) → P s.database → Kept P (trigger_new_lsa env s)
  unfolding trigger_new_lsa generate_lsa
  trigger_new_lsa-Kept s h =
      bind-Kept P (register_parents env (generate_lsa env s).1) _
        (register_parents-Kept (generate_lsa env s).1 (closed s.database (generate_lsa env s).0 h))
        (λ t k.
          rebuild_routing_table-Kept _
            (subst P (sym (send_info_to_children-database (generate_lsa env s).0 t)) k))

  perform-Kept :
      (interface : Interface) (peer : Peer) (action : Action) (s : Protocol)
      → P s.database
      → Kept P (perform env interface peer action s)
  unfolding perform send_packet
  perform-Kept interface peer (dd_interest_sent index) s h = h
  perform-Kept interface peer (lsa_interest_sent digest) s h = h
  perform-Kept interface peer new_lsa_triggered s h = trigger_new_lsa-Kept s h

  perform_all-Kept :
      (interface : Interface) (peer : Peer) (actions : List Action) (s : Protocol)
      → P s.database
      → Kept P (perform_all env interface peer actions s)
  unfolding perform_all
  perform_all-Kept interface peer [] s h = h
  perform_all-Kept interface peer (action ∷ actions) s h =
      bind-Kept P (perform env interface peer action s) _ (perform-Kept interface peer action s h)
        (λ t k. perform_all-Kept interface peer actions t k)

  pub peer_event-Kept :
      (index : ℤ) (interface : Interface) (peer : Peer) (event : NeighborEvent) (s : Protocol)
      → P s.database
      → Kept P (peer_event env index interface peer event s)
  unfolding peer_event put_peer
  peer_event-Kept index interface peer event s h =
      perform_all-Kept interface peer (process_event s.database peer.neighbor event).1 _ h

  pub change_peer-Kept :
      (index : ℤ) (id : ℕ) (change : Neighbor → Neighbor × List Action) (s : Protocol)
      → P s.database
      → Kept P (change_peer env index id change s)
  unfolding change_peer put_peer
  change_peer-Kept index id change s h = read-Kept P (lookup index s.interfaces) _ (λ interface.
      read-Kept P (lookup id interface.neighbors) _
        (λ peer. perform_all-Kept interface peer (change peer.neighbor).1 _ h))

  pub event_at-Kept :
      (index : ℤ) (id : ℕ) (event : NeighborEvent) (s : Protocol)
      → P s.database
      → Kept P (event_at env index id event s)
  unfolding event_at
  event_at-Kept index id event s h = change_peer-Kept index id _ s h

  pub drag_peer_to_init-Kept :
      (index : ℤ) (id : ℕ) (s : Protocol) → P s.database → Kept P (drag_peer_to_init env index id s)
  unfolding drag_peer_to_init send_packet
  drag_peer_to_init-Kept index id s h = read-Kept P (lookup index s.interfaces) _ (λ interface.
      read-Kept P (lookup id interface.neighbors) _ (λ peer.
        read-Kept P (take_exact public_key_length (peer.public_key ++ (0 ∷ []))) _ (λ key.
          bind-Kept P _ _ (change_peer-Kept index id _ (record s { drawn = suc s.drawn }) h)
            (λ t k. bind-Kept P _ _ (event_at-Kept index id oneway_received t k) (λ u m. m)))))
