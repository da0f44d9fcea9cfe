-- ===== src/Routing/Dispatch/Exchange.antt =====
-- What the Hello and DD controllers keep of the database.
use ndn_based_protocol.Prelude.{
  ℕ, ℤ, pos, negsuc, Bool, true, false, Option, none, some, List, [], ◌∷◌, length, arith,
  Bool-cases, Option-cases, inl, inr, ◌>>=◌, if◌then◌else◌, int_eq, nat_eq, bytes_eq,
}
use ndn_based_protocol.Prelude.Map.{lookup}
use ndn_based_protocol.Declaration.{MacAddress}
use ndn_based_protocol.Util.{slash, split}
use ndn_based_protocol.Util.Numbers.{atoll}
use ndn_based_protocol.Packet.{NdnInterest, NdnData}
use ndn_based_protocol.Routing.Lsa.{LsaDataPack, LinkStateDigest}
use ndn_based_protocol.Routing.LsaDatabase.{LsaDatabase, insert_lsa}
use ndn_based_protocol.Routing.Neighbor.{
  hello_received, twoway_received, invalid_hash, exchange_done, send_dd_interest,
  send_local_lsa_interest,
}
use ndn_based_protocol.Routing.Neighbor.DdData.{send_dd_data}
use ndn_based_protocol.Routing.HelloPack.{HelloInterestPack, decode_hello}
use ndn_based_protocol.Routing.DdPack.{DdWirePack, decode_dd}
use ndn_based_protocol.Routing.Protocol.{
  Peer, Interface, Protocol, Environment, send_packet, get_neighbor_by_mac,
}
use ndn_based_protocol.Routing.Protocol.Triggers.{put_peer}
use ndn_based_protocol.Routing.Protocol.Events.{change_peer, event_at}
use ndn_based_protocol.Routing.HelloController.{
  c_string, hello_events, check_hello, meet_neighbor, handle_hello, on_hello_interest,
}
use ndn_based_protocol.Routing.DdController.{
  is_init, is_missing, answer_dd, handle_dd_interest, on_dd_interest, request_digests, next_pack,
  take_pack, handle_dd_data, check_dd_data, on_dd_data,
}
use ndn_based_protocol.Routing.RegisterController.{part_at}
use ndn_based_protocol.Routing.Dispatch.Kept.{
  Kept, bind-Kept, read-Kept, Kept-lookup, event_at-Kept, change_peer-Kept, drag_peer_to_init-Kept,
}

module _ (env : Environment) (P : LsaDatabase → Type 0)
    (closed : (db : LsaDatabase) (lsa : LsaDataPack) → P db → P (insert_lsa db lsa)) where
  -- The same of a state beside a flag.
  abbrev KeptToo : Option (Bool × Protocol) → Type 0
  KeptToo none = Unit
  KeptToo (some (flag, t)) = P t.database

  bind-KeptToo :
      (o : Option Protocol) (f : Protocol → Option (Bool × Protocol))
      → Kept P o
      → ((t : Protocol) → P t.database → KeptToo (f t))
      → KeptToo (o >>= f)
  bind-KeptToo none f h k = tt
  bind-KeptToo (some t) f h k = k t h

  hello_events-Kept :
      (index : ℤ) (ip : ℕ) (pack : HelloInterestPack) (s : Protocol)
      → P s.database
      → Kept P (hello_events env index ip pack s)
  unfolding hello_events
  hello_events-Kept index ip pack s h =
      bind-Kept P _ _ (event_at-Kept env P closed index pack.router_id hello_received s h) (λ s1 h1.
        bind-Kept P _ _ (event_at-Kept env P closed index pack.router_id _ s1 h1) (λ s2 h2.
          ground (arith, event_at-Kept env P closed index pack.router_id invalid_hash s2 h2, h2)))

  check_hello-Kept :
      (index : ℤ) (ip : ℕ) (pack : HelloInterestPack) (peer : Peer) (s : Protocol)
      → P s.database
      → Kept P (check_hello env index ip pack peer s)
  unfolding check_hello
  check_hello-Kept index ip pack peer s h = ground (arith, hello_events-Kept index ip pack s h, h)

  meet_neighbor-Kept :
      (index : ℤ) (interface : Interface) (mac : MacAddress) (pack : HelloInterestPack)
      (s : Protocol)
      → P s.database
      → Kept P (meet_neighbor env index interface mac pack s)
  unfolding meet_neighbor put_peer
  meet_neighbor-Kept index interface mac pack s h = read-Kept P pack.public_key _ (λ bytes.
      read-Kept P (c_string bytes) _
        (λ key. check_hello-Kept index interface.ipv4_address pack _ _ h))

  handle_hello-Kept :
      (index : ℤ) (interface : Interface) (mac : MacAddress) (pack : HelloInterestPack)
      (s : Protocol)
      → P s.database
      → Kept P (handle_hello env index interface mac pack s)
  unfolding handle_hello
  handle_hello-Kept index interface mac pack s h =
      elim (Option-cases (lookup pack.router_id interface.neighbors)) [
        | inr (peer, known) ↦
            ground (arith, known, h, check_hello-Kept index interface.ipv4_address pack peer s h)
        | inl unknown ↦ ground (arith, unknown, h, meet_neighbor-Kept index interface mac pack s h)
      ]

  pub on_hello_interest-Kept :
      (index : ℤ) (mac : MacAddress) (packet : NdnInterest) (s : Protocol)
      → P s.database
      → Kept P (on_hello_interest env index mac packet s)
  unfolding on_hello_interest
  on_hello_interest-Kept index mac packet s h =
      read-Kept P (decode_hello (env.decrypt packet.application_parameters)) _ (λ pack.
        read-Kept P (lookup index s.interfaces) _
          (λ interface. handle_hello-Kept index interface mac pack s h))

  answer_dd-Kept :
      (index : ℤ) (id : ℕ) (name : List ℕ) (requested : ℤ) (s : Protocol)
      → P s.database
      → Kept P (answer_dd env index id name requested s)
  unfolding answer_dd send_packet put_peer
  answer_dd-Kept index id name (negsuc n) s h = drag_peer_to_init-Kept env P closed index id s h
  answer_dd-Kept index id name (pos n) s h = read-Kept P (lookup index s.interfaces) _ (λ interface.
      read-Kept P (lookup id interface.neighbors) _ (λ peer.
        elim (Option-cases (send_dd_data peer.neighbor n)) [
          | inl refused ↦ rw refused (drag_peer_to_init-Kept env P closed index id s h)
          | inr ((neighbor, pack), sent) ↦ rw sent (read-Kept P pack _ (λ p. h))
        ]))

  handle_dd_interest-Kept :
      (index : ℤ) (peer : Peer) (name : List ℕ) (s : Protocol)
      → P s.database
      → Kept P (handle_dd_interest env index peer name s)
  unfolding handle_dd_interest
  handle_dd_interest-Kept index peer name s h =
      bind-Kept P
        (if is_init peer.neighbor.state
          then event_at env index peer.router_id twoway_received s
          else some s)
        _ (ground (arith, h, event_at-Kept env P closed index peer.router_id twoway_received s h))
        (λ t k. ground (
          arith,
          k,
          answer_dd-Kept index peer.router_id name (atoll (part_at (split name slash) 5)) t k,
        ))

  pub on_dd_interest-Kept :
      (index : ℤ) (mac : MacAddress) (packet : NdnInterest) (s : Protocol)
      → P s.database
      → Kept P (on_dd_interest env index mac packet s)
  unfolding on_dd_interest
  on_dd_interest-Kept index mac packet s h =
      Kept-lookup P (lookup index s.interfaces) s _ h (λ interface.
        Kept-lookup P (get_neighbor_by_mac mac interface.neighbors) s _ h
          (λ peer. handle_dd_interest-Kept index peer packet.name s h))

  request_digests-Kept :
      (index : ℤ) (id : ℕ) (ds : List LinkStateDigest) (s : Protocol)
      → P s.database
      → KeptToo (request_digests env index id ds s)
  unfolding request_digests
  request_digests-Kept index id [] s h = h
  request_digests-Kept index id (d ∷ ds) s h =
      let rest =
        bind-KeptToo
          (if is_missing d s
            then change_peer env index id (λ n. send_local_lsa_interest n d) s
            else some s)
          (λ t. request_digests env index id ds t)
          (ground (
            arith,
            h,
            change_peer-Kept env P closed index id (λ n. send_local_lsa_interest n d) s h,
          ))
          (λ t k. request_digests-Kept index id ds t k) in
      ground (arith, h, rest)

  next_pack-Kept :
      (index : ℤ) (id received number : ℕ) (s : Protocol)
      → P s.database
      → Kept P (next_pack env index id received number s)
  unfolding next_pack
  next_pack-Kept index id received number s h =
      bind-Kept P _ _ (change_peer-Kept env P closed index id _ s h) (λ t k. ground (
        arith,
        event_at-Kept env P closed index id exchange_done t k,
        change_peer-Kept env P closed index id send_dd_interest t k,
      ))

  take_pack-Kept :
      (index : ℤ) (id received : ℕ) (pack : DdWirePack) (s : Protocol)
      → P s.database
      → Kept P (take_pack env index id received pack s)
  unfolding take_pack
  take_pack-Kept index id received pack s h =
      after (request_digests env index id pack.ls s) (request_digests-Kept index id pack.ls s h)
    where
      after :
          (o : Option (Bool × Protocol))
          → KeptToo o
          → Kept P (
              o >>= (λ r. elim r.0 [
                | false ↦ some r.1
                | true ↦ next_pack env index id received pack.number_of_dd_packets r.1
              ]))
      after none k = tt
      after (some (false, t)) k = k
      after (some (true, t)) k = next_pack-Kept index id received pack.number_of_dd_packets t k

  handle_dd_data-Kept :
      (index : ℤ) (peer : Peer) (content : List ℕ) (s : Protocol)
      → P s.database
      → Kept P (handle_dd_data env index peer content s)
  unfolding handle_dd_data
  handle_dd_data-Kept index peer content s h =
      bind-Kept P _ _ (change_peer-Kept env P closed index peer.router_id _ s h) (λ t k.
        read-Kept P (decode_dd (env.decrypt content) (length (env.decrypt content))) _ (λ pack.
          elim (Bool-cases (env.verify_dd peer.public_key pack)) [
            | inl right ↦
                rw right
                  (take_pack-Kept index peer.router_id peer.neighbor.receiving_index pack t k)
            | inr wrong ↦ rw wrong k
          ]))

  check_dd_data-Kept :
      (index : ℤ) (peer : Peer) (packet : NdnData) (s : Protocol)
      → P s.database
      → Kept P (check_dd_data env index peer packet s)
  unfolding check_dd_data
  check_dd_data-Kept index peer packet s h = ground (
    arith,
    h,
    drag_peer_to_init-Kept env P closed index peer.router_id s h,
    handle_dd_data-Kept index peer packet.content s h,
  )

  pub on_dd_data-Kept :
      (index : ℤ) (mac : MacAddress) (packet : NdnData) (s : Protocol)
      → P s.database
      → Kept P (on_dd_data env index mac packet s)
  unfolding on_dd_data
  on_dd_data-Kept index mac packet s h =
      Kept-lookup P (lookup index s.interfaces) s _ h (λ interface.
        Kept-lookup P (get_neighbor_by_mac mac interface.neighbors) s _ h
          (λ peer. check_dd_data-Kept index peer packet s h))
