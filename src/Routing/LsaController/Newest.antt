-- ===== src/Routing/LsaController/Newest.antt =====
-- What a received LSA changes in the database.
use ndn_based_protocol.Prelude.{
  ℕ, suc, ℤ, ◌≡◌, ◌≤◌, refl, Bool, true, ◌&&◌, ◌||◌, Option, none, some, ◌>>=◌, List, [], ◌∷◌,
  nat_eq, int_eq, bytes_eq, ◌==◌, arith, Bool-cases, Option-cases, inl, inr, if◌then◌else◌, ◌∙◌, ap,
  sym, subst,
}
use ndn_based_protocol.Declaration.{zero_mac}
use ndn_based_protocol.Packet.{NdnInterest, interest}
use ndn_based_protocol.Strategy.{Face}
use ndn_based_protocol.Routing.MinimumHopTree.{get_registered_sons}
use ndn_based_protocol.Routing.Lsa.{LsaDataPack, adj, rch, digest_older, generate_ls_digest}
use ndn_based_protocol.Routing.LsaDatabase.{LsaDatabase, find_lsa, insert_lsa}
use ndn_based_protocol.Routing.LsaDatabase.Contents.{IsDatabase, find-insert_lsa}
use ndn_based_protocol.Routing.Protocol.{
  Interface, Protocol, Environment, send_packet, get_neighbor_by_router_id,
}
use ndn_based_protocol.Routing.Protocol.Triggers.{
  send_info_to, send_info_to_children, send_info_to_all, info_interest, other_faces,
  register_parents, rebuild_routing_table,
}
use ndn_based_protocol.Routing.RegisterController.{novelty, insert_received}
use ndn_based_protocol.Routing.LsaController.{accept_lsa, end_request, handle_lsa}

module _ (env : Environment) (lsa : LsaDataPack) where
  pub send_info_to-database :
      (sons : List ℕ) (s : Protocol) → (send_info_to env lsa sons s).database ≡ s.database
  unfolding send_info_to info_interest send_packet
  send_info_to-database [] s = refl
  send_info_to-database (son ∷ sons) s =
      elim (Option-cases (get_neighbor_by_router_id son s.interfaces)) [
        | inl unknown ↦ rw (send_info_to, unknown) (send_info_to-database sons s)
        | inr ((interface, peer), known) ↦ rw (send_info_to, known) (send_info_to-database sons _)
      ]

  pub send_info_to_all-database :
      (index : ℤ) (s : Protocol) → (send_info_to_all env lsa index s).database ≡ s.database
  unfolding send_info_to_all info_interest send_packet
  send_info_to_all-database index s =
      after (info_interest env lsa (other_faces index s.interfaces) s).0
        (other_faces index s.interfaces)
    where
      after :
          (packet : NdnInterest) (faces : List Face)
          → let t : Protocol = elim faces [
            | [] ↦ record s { drawn = suc s.drawn }
            | face ∷ others ↦
                send_packet zero_mac (interest packet) (record s { drawn = suc s.drawn })
          ] in
            t.database ≡ s.database
      after packet [] = refl
      after packet (face ∷ others) = refl

-- An LSA that is received replaces that of the database only where it is newer.
abbrev pub is_news : LsaDataPack → Protocol → Bool
is_news lsa s =
    (lsa.ls_type == adj || lsa.ls_type == rch)
    && elim (find_lsa s.database lsa.ls_type lsa.router_id) [
      | none ↦ true
      | some existing ↦ digest_older (generate_ls_digest existing) (generate_ls_digest lsa)
    ]

accept_lsa-news :
    (env : Environment) (index : ℤ) (lsa : LsaDataPack) (s : Protocol)
    → IsDatabase s.database
    → let (rebuild, t) = accept_lsa env index lsa s in
      (rebuild ≡ is_news lsa s)
      × IsDatabase t.database
      × ((type id : ℕ)
          → find_lsa t.database type id ≡ (
              if is_news lsa s && (type == lsa.ls_type && id == lsa.router_id)
              then some lsa
              else find_lsa s.database type id))
unfolding accept_lsa novelty send_info_to_children
accept_lsa-news env index lsa s h = elim (Bool-cases (lsa.ls_type == adj || lsa.ls_type == rch)) [
  | inr untyped ↦ rw (accept_lsa, untyped) (refl, h, λ type id. refl)
  | inl typed ↦
      let valid : lsa.ls_type ≤ 1 = ground (arith, typed) in
      let (kept, found) = find-insert_lsa s.database lsa h valid in
      let inserted : Protocol = insert_received lsa s in
      let all = send_info_to_all-database env lsa index inserted in
      let children = λ (t : Protocol).
        send_info_to-database env lsa (get_registered_sons t.minimum_hop_tree lsa.router_id) t in
      let changed = λ (d : LsaDatabase) (e : d ≡ insert_lsa s.database lsa) (type : ℕ) (id : ℕ).
        ap (λ (x : LsaDatabase). find_lsa x type id) e ∙ found type id in
      elim (Option-cases (find_lsa s.database lsa.ls_type lsa.router_id)) [
        | inl unknown ↦
            rw (accept_lsa, novelty, typed, unknown)
              (refl, subst IsDatabase (sym all) kept, changed _ all)
        | inr (existing, present) ↦
            elim (Bool-cases
              (digest_older (generate_ls_digest existing) (generate_ls_digest lsa))) [
                | inl older ↦
                    rw (accept_lsa, novelty, typed, present, older)
                      (
                        refl,
                        subst IsDatabase (sym (children inserted)) kept,
                        changed _ (children inserted),
                      )
                | inr not_older ↦
                    rw (accept_lsa, novelty, typed, present, not_older)
                      (
                        refl,
                        subst IsDatabase (sym (children s)) h,
                        λ type id. ap (λ (x : LsaDatabase). find_lsa x type id) (children s),
                      )
              ]
      ]
]

-- What a received LSA leaves behind the end of its request: with news, the parents that are registered
-- with and the routing table are computed anew.
unfoldable pub after_news : Environment → Bool → Option Protocol → Option Protocol
after_news env news ended = do
  t ← ended
  if news then register_parents env t >>= rebuild_routing_table env else some t

handle_lsa-news :
    (env : Environment) (index : ℤ) (interface : Interface) (is_local : Bool) (lsa : LsaDataPack)
    (s : Protocol)
    → (accept_lsa env index lsa s).0 ≡ is_news lsa s
    → handle_lsa env index interface is_local lsa s
      ≡ after_news env
          (is_news lsa s)
          (end_request env index interface is_local lsa (accept_lsa env index lsa s).1)
unfolding handle_lsa after_news
handle_lsa-news env index interface is_local lsa s e =
    ap
      (λ (news : Bool).
        end_request env index interface is_local lsa (accept_lsa env index lsa s).1
        >>= (λ t. if news then register_parents env t >>= rebuild_routing_table env else some t))
      e

-- Where the database has one LSA for each type and router, a received LSA keeps it so. It enters the database
-- exactly where its type is one of the two and no LSA of its type and router is there or the one there is
-- older; then it replaces that one. Every other search of the database answers as before. The handler ends
-- the request in the state with that database, and goes on to register with the parents and to compute
-- the routing table anew exactly where the LSA has entered; otherwise it stops with the end of the request.
pub accept_lsa-newest :
    (env : Environment) (index : ℤ) (interface : Interface) (is_local : Bool) (lsa : LsaDataPack)
    (s : Protocol)
    → IsDatabase s.database
    → let t = (accept_lsa env index lsa s).1 in
      IsDatabase t.database
      × ((type id : ℕ)
          → find_lsa t.database type id ≡ (
              if is_news lsa s && (type == lsa.ls_type && id == lsa.router_id)
              then some lsa
              else find_lsa s.database type id))
      × (handle_lsa env index interface is_local lsa s
          ≡ after_news env (is_news lsa s) (end_request env index interface is_local lsa t))
accept_lsa-newest env index interface is_local lsa s h =
    let (news, kept, found) = accept_lsa-news env index lsa s h in
    (kept, found, handle_lsa-news env index interface is_local lsa s news)
