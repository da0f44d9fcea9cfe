-- ===== src/Routing/InfoController/Requests.antt =====
-- An announced LSA is requested once.
use mathlib.Core.List.{append-nil}
use ndn_based_protocol.Prelude.{
  ℕ, ℤ, ◌≡◌, ◌≢◌, refl, Bool, true, false, Option, none, some, List, [], ◌∷◌, ◌++◌, nat_eq, int_eq,
  bytes_eq, nat_beq_iff, ◌==◌, arith, Option-cases, inl, inr, ◌∙◌, ap, sym,
}
use ndn_based_protocol.Prelude.Map.{Map, lookup, insert, lookup-insert, beq_self}
use ndn_based_protocol.Packet.{NdnInterest, NdnPacket, interest, new_interest}
use ndn_based_protocol.Declaration.{MacAddress}
use ndn_based_protocol.Strategy.{Face}
use ndn_based_protocol.Routing.Lsa.{LinkStateDigest}
use ndn_based_protocol.Routing.MinimumHopTree.{get_registered_parent, get_registered_sons}
use ndn_based_protocol.Routing.PacketName.{global_lsa_timer, hop_lsa_name}
use ndn_based_protocol.Routing.Protocol.{
  Peer, Interface, Protocol, Environment, Retransmission, send_packet, start_retransmission,
  in_pending, get_neighbor_by_router_id,
}
use ndn_based_protocol.Routing.InfoController.{
  request_lsa, son_faces, forward_info, is_wanted, handle_info,
}

in_pending-append :
    (d : LinkStateDigest) (ds : List LinkStateDigest)
    → in_pending d.link_state_type d.router_id d.sequence_num (ds ++ (d ∷ [])) ≡ true
unfolding in_pending
in_pending-append d [] = ground (
  arith,
  nat_beq_iff d.link_state_type d.link_state_type,
  nat_beq_iff d.router_id d.router_id,
  nat_beq_iff d.sequence_num d.sequence_num,
)
in_pending-append d (e ∷ ds) = ground (arith, in_pending-append d ds)

-- What passing an INFO on leaves: it sends at most one packet more.
pub record Quiet (s t : Protocol) : Type 0 where
  pub same_pending : t.broadcast_lsa_pending_request_list ≡ s.broadcast_lsa_pending_request_list
  pub same_timers : t.timers ≡ s.timers
  pub more : (rest : List (MacAddress × NdnPacket)) × (t.sent ≡ s.sent ++ rest)

forward_info-Quiet :
    (interface : Interface) (packet : NdnInterest) (id : ℕ) (s : Protocol)
    → Quiet s (forward_info interface packet id s)
unfolding forward_info send_packet
forward_info-Quiet interface packet id s =
    after (son_faces (get_registered_sons s.minimum_hop_tree id) s.interfaces)
  where
    after :
        (faces : List Face)
        → let t : Protocol = elim faces [
          | [] ↦ s
          | face ∷ others ↦
              send_packet interface.mac_address
                (interest (record packet { prefered_interfaces = face ∷ others }))
                s
        ] in
          Quiet s t
    after [] = record {
      same_pending = refl;
      same_timers = refl;
      more = ([], sym (append-nil s.sent));
    }
    after (face ∷ others) = record {
      same_pending = refl;
      same_timers = refl;
      more = (
        (interface.mac_address, interest (record packet { prefered_interfaces = face ∷ others }))
            ∷ [],
        refl,
      );
    }

abbrev pub timer_of : LinkStateDigest → List ℕ
timer_of d = global_lsa_timer d.router_id d.link_state_type d.sequence_num

abbrev pub is_armed : List ℕ → Map (List ℕ) Retransmission → Bool
is_armed timer timers = elim (lookup timer timers) [ none ↦ false | some r ↦ true ]

armed-insert :
    (timer : List ℕ) (r : Retransmission) (timers : Map (List ℕ) Retransmission)
    → is_armed timer (insert timer r timers) ≡ true
armed-insert timer r timers = ground (arith, lookup-insert timer timer r timers, beq_self timer)

-- The interest for an announced LSA.
abbrev pub request_of : Environment → LinkStateDigest → List Face → Protocol → NdnInterest
request_of env d faces s = record (new_interest env.junk) {
  name = hop_lsa_name d;
  nonce = env.rand s.drawn;
  prefered_interfaces = faces;
}

request_lsa-armed :
    (env : Environment) (interface : Interface) (d : LinkStateDigest) (faces : List Face)
    (s : Protocol)
    → let t = request_lsa env interface d faces s in
      (is_armed (timer_of d) t.timers ≡ true)
      × (t.broadcast_lsa_pending_request_list ≡ s.broadcast_lsa_pending_request_list)
      × (t.sent ≡ s.sent ++ ((interface.mac_address, interest (request_of env d faces s)) ∷ []))
unfolding request_lsa start_retransmission send_packet
request_lsa-armed env interface d faces s = elim (Option-cases (lookup (timer_of d) s.timers)) [
  | inl new ↦
      rw (request_lsa, start_retransmission, send_packet, new)
        (armed-insert (timer_of d) _ s.timers, refl, refl)
  | inr (old, running) ↦
      rw (request_lsa, start_retransmission, send_packet, running)
        (ground (arith, running), refl, refl)
]

abbrev pub digest_pending : LinkStateDigest → Protocol → Bool
digest_pending d s =
    in_pending d.link_state_type d.router_id d.sequence_num s.broadcast_lsa_pending_request_list

-- The faces that a request is sent to: that of the registered parent, and none where no parent is registered.
-- There is no request where the registered parent is not a neighbour.
abbrev pub faces_to : Option (Interface × Peer) → Option (List Face)
faces_to none = none
faces_to (some (interface, peer)) = some ((interface.interface_id, peer.mac_address) ∷ [])

abbrev pub faces_of : Option ℕ → Map ℤ Interface → Option (List Face)
faces_of none interfaces = some []
faces_of (some parent) interfaces = faces_to (get_neighbor_by_router_id parent interfaces)

abbrev pub request_faces : LinkStateDigest → Protocol → Option (List Face)
request_faces d s = faces_of (get_registered_parent s.minimum_hop_tree d.router_id) s.interfaces

-- With faces, the request is the next packet that is sent, and its timer runs; without, nothing is sent and
-- the timers are as they were.
abbrev pub Answer :
    Environment → Interface → LinkStateDigest → Protocol → Protocol → Option (List Face) → Type 0
Answer env interface d s t none = (t.sent ≡ s.sent) × (t.timers ≡ s.timers)
Answer env interface d s t (some faces) =
    (is_armed (timer_of d) t.timers ≡ true)
    × (rest : List (MacAddress × NdnPacket)) × (t.sent
        ≡ (s.sent ++ ((interface.mac_address, interest (request_of env d faces s)) ∷ [])) ++ rest)

-- Where an INFO of another router announces an LSA that is wanted, its digest is pending afterwards, so that
-- the next INFO does not request it again. Where no parent is registered for the router, or the parent is a
-- neighbour, the interest for the LSA is sent, without a face or to the face of the parent, before
-- anything else, and a retransmission timer runs for it. Where the registered parent is not a
-- neighbour, nothing is sent and no timer is started, and the digest is pending all the same.
pub handle_info_once :
    (env : Environment) (interface : Interface) (packet : NdnInterest) (d : LinkStateDigest)
    (s : Protocol)
    → d.router_id ≢ s.router_id
    → is_wanted d s ≡ true
    → let t = handle_info env interface packet d s in
      (digest_pending d t ≡ true) × Answer env interface d s t (request_faces d s)
unfolding handle_info
handle_info_once env interface packet d s other wanted =
    let recorded : Protocol = record s {
      broadcast_lsa_pending_request_list = s.broadcast_lsa_pending_request_list ++ (d ∷ []);
    } in
    let added = in_pending-append d s.broadcast_lsa_pending_request_list in
    let not_ours : (d.router_id == s.router_id) ≡ false =
      ground (arith, nat_beq_iff d.router_id s.router_id, other) in
    let passed : List Face → Protocol = λ faces.
      forward_info interface packet d.router_id (request_lsa env interface d faces recorded) in
    let requested : (faces : List Face)
        → (digest_pending d (passed faces) ≡ true)
          × Answer env interface d s (passed faces) (some faces) =
      λ faces.
        let (armed, pending, out) = request_lsa-armed env interface d faces recorded in
        let q =
          forward_info-Quiet interface packet d.router_id
            (request_lsa env interface d faces recorded) in
        let (rest, more) = q.more in
        (
          ap (in_pending d.link_state_type d.router_id d.sequence_num) (q.same_pending ∙ pending)
              ∙ added,
          (
            ap (is_armed (timer_of d)) q.same_timers ∙ armed,
            rest,
            more ∙ ap (λ (sent : List (MacAddress × NdnPacket)). sent ++ rest) out,
          ),
        ) in
    elim (Option-cases (get_registered_parent s.minimum_hop_tree d.router_id)) [
      | inl no_parent ↦ rw (handle_info, not_ours, wanted, no_parent) (requested [])
      | inr (parent, registered) ↦
          elim (Option-cases (get_neighbor_by_router_id parent s.interfaces)) [
            | inl unknown ↦
                rw (handle_info, not_ours, wanted, registered, unknown) (added, (refl, refl))
            | inr ((next, peer), known) ↦
                rw (handle_info, not_ours, wanted, registered, known)
                  (requested ((next.interface_id, peer.mac_address) ∷ []))
          ]
    ]
