-- ===== src/Routing/Dispatch/Reachable.antt =====
-- The states that the routing protocol reaches, by packets, timers and the state of its interfaces.
use ndn_based_protocol.Prelude.{
  ℕ, ◌+◌, ℤ, ◌≡◌, refl, Bool, true, false, ◌&&◌, Option, none, some, List, [], ◌∷◌, arith,
  Bool-cases, Option-cases, inl, inr, sym, subst, if◌then◌else◌, leb, int_eq, nat_eq, bytes_eq,
}
use ndn_based_protocol.Prelude.Map.{Map, lookup}
use ndn_based_protocol.Declaration.{MacAddress}
use ndn_based_protocol.Packet.{NdnPacket}
use ndn_based_protocol.Routing.Lsa.{LsaDataPack}
use ndn_based_protocol.Routing.LsaDatabase.{LsaDatabase, find_lsa, insert_lsa}
use ndn_based_protocol.Routing.LsaDatabase.Contents.{IsDatabase, find-insert_lsa}
use ndn_based_protocol.Routing.Neighbor.{ll_down, inactivity_timer, trigger_timer, is_armed}
use ndn_based_protocol.Routing.Protocol.{
  Peer, Interface, InterfaceState, down, up, Protocol, Environment, Retransmission, send_packet,
}
use ndn_based_protocol.Routing.Protocol.Triggers.{trigger_new_lsa}
use ndn_based_protocol.Routing.InterfaceState.{
  InterfaceEvent, interface_up, interface_down, all_down, put_interface, process_in,
  process_interface_event,
}
use ndn_based_protocol.Routing.CronJobHandler.{
  register_expire_cron_job, info_lsa_expire_cron_job, expire, sending_hello_message_cron_job,
  neighbor_inactivity_cron_job, lsa_trigger,
}
use ndn_based_protocol.Routing.Dispatch.{on_receive_ndn_packet}
use ndn_based_protocol.Routing.Dispatch.Kept.{
  Kept, bind-Kept, read-Kept, event_at-Kept, change_peer-Kept, trigger_new_lsa-Kept,
}
use ndn_based_protocol.Routing.Dispatch.Invariant.{insert_untyped, on_receive_ndn_packet-Kept}

-- What happens to the protocol; a step that faults leads nowhere.
pub data Occurrence : Type 0 where
  packet_received : ℤ → MacAddress → NdnPacket → Occurrence
  retransmission_expired : Bool → List ℕ → Occurrence
  hello_due : ℤ → Occurrence
  neighbor_silent : ℤ → ℕ → Occurrence
  lsa_due : ℤ → ℕ → Occurrence
  interface_changed : ℤ → InterfaceEvent → Occurrence

unfoldable pub occur : Environment → Occurrence → Protocol → Option Protocol
occur env (packet_received index mac packet) s = on_receive_ndn_packet env index mac packet s
occur env (retransmission_expired is_info timer) s = some (expire env is_info timer s)
occur env (hello_due index) s = sending_hello_message_cron_job env index s
occur env (neighbor_silent index id) s = neighbor_inactivity_cron_job env index id s
occur env (lsa_due index id) s = lsa_trigger env index id s
occur env (interface_changed index event) s = process_interface_event env index event s

pub data Reaches (env : Environment) (s : Protocol) : Protocol → Type 0 where
  at_once : Reaches env s s
  after :
      {t u : Protocol} (o : Occurrence) → Reaches env s t → occur env o t ≡ some u → Reaches env s u

abbrev pub is_known : LsaDatabase → ℕ → ℕ → Bool
is_known db type id = elim (find_lsa db type id) [ none ↦ false | some lsa ↦ true ]

-- The database is well-formed, and knows the LSAs that `before` knew.
abbrev pub Grown : LsaDatabase → LsaDatabase → Type 0
Grown before db =
    IsDatabase db × ((type id : ℕ) → is_known before type id ≡ true → is_known db type id ≡ true)

insert_lsa-Grown :
    (before db : LsaDatabase) (lsa : LsaDataPack)
    → Grown before db
    → Grown before (insert_lsa db lsa)
insert_lsa-Grown before db lsa (h, known) = elim (Bool-cases (leb lsa.ls_type 1)) [
  | inr untyped ↦ subst (Grown before) (sym (insert_untyped db lsa untyped)) (h, known)
  | inl typed ↦
      let (kept, found) = find-insert_lsa db lsa h (ground (arith, typed)) in
      (kept, λ type id was. ground (arith, found type id, known type id was))
]

info_lsa_expire-database :
    (env : Environment) (r : Retransmission) (s : Protocol)
    → (info_lsa_expire_cron_job env r s).2.database ≡ s.database
unfolding info_lsa_expire_cron_job register_expire_cron_job send_packet
info_lsa_expire-database env r s = elim (Bool-cases (leb 3 (r.retransmission_time + 1))) [
  | inl last ↦ rw (info_lsa_expire_cron_job, register_expire_cron_job, last) refl
  | inr more ↦ rw (info_lsa_expire_cron_job, register_expire_cron_job, more) refl
]

expire-database :
    (env : Environment) (is_info : Bool) (timer : List ℕ) (s : Protocol)
    → (expire env is_info timer s).database ≡ s.database
unfolding expire register_expire_cron_job send_packet
expire-database env is_info timer s = elim (Option-cases (lookup timer s.timers)) [
  | inl gone ↦ rw (expire, gone) refl
  | inr (r, armed) ↦ rw (expire, armed) (job is_info r)
]
  where
    job :
        (info : Bool) (r : Retransmission)
        → (if info
            then info_lsa_expire_cron_job env r s
            else register_expire_cron_job env r s).2.database
          ≡ s.database
    job true r = info_lsa_expire-database env r s
    job false r = refl

module _ (env : Environment) (P : LsaDatabase → Type 0)
    (closed : (db : LsaDatabase) (lsa : LsaDataPack) → P db → P (insert_lsa db lsa)) where
  expire-kept :
      (is_info : Bool) (timer : List ℕ) (s : Protocol)
      → P s.database
      → P (expire env is_info timer s).database
  expire-kept is_info timer s h = subst P (sym (expire-database env is_info timer s)) h

  all_down-Kept :
      (index : ℤ) (peers : Map ℕ Peer) (s : Protocol)
      → P s.database
      → Kept P (all_down env index peers s)
  unfolding all_down
  all_down-Kept index [] s h = h
  all_down-Kept index (entry ∷ peers) s h =
      bind-Kept P _ _ (event_at-Kept env P closed index entry.0 ll_down s h)
        (λ t k. all_down-Kept index peers t k)

  process_in-Kept :
      (index : ℤ) (interface : Interface) (state : InterfaceState) (event : InterfaceEvent)
      (s : Protocol)
      → P s.database
      → Kept P (process_in env index interface state event s)
  unfolding process_in put_interface
  process_in-Kept index interface down interface_up s h = h
  process_in-Kept index interface down interface_down s h = h
  process_in-Kept index interface up interface_up s h = h
  process_in-Kept index interface up interface_down s h =
      bind-Kept P _ _ (all_down-Kept index interface.neighbors _ h) (λ t k. k)

  process_interface_event-Kept :
      (index : ℤ) (event : InterfaceEvent) (s : Protocol)
      → P s.database
      → Kept P (process_interface_event env index event s)
  unfolding process_interface_event
  process_interface_event-Kept index event s h =
      read-Kept P (lookup index s.interfaces) _
        (λ interface. process_in-Kept index interface interface.state event s h)

  occur-Kept : (o : Occurrence) (s : Protocol) → P s.database → Kept P (occur env o s)
  unfolding occur sending_hello_message_cron_job neighbor_inactivity_cron_job lsa_trigger
      send_packet
  occur-Kept (packet_received index mac packet) s h =
      on_receive_ndn_packet-Kept env P closed index mac packet s h
  occur-Kept (retransmission_expired is_info timer) s h = expire-kept is_info timer s h
  occur-Kept (hello_due index) s h = read-Kept P (lookup index s.interfaces) _ (λ interface. h)
  occur-Kept (neighbor_silent index id) s h =
      event_at-Kept env P closed index id inactivity_timer s h
  occur-Kept (lsa_due index id) s h = read-Kept P (lookup index s.interfaces) _ (λ interface.
      read-Kept P (lookup id interface.neighbors) _ (λ peer.
        bind-Kept P
          (if is_armed trigger_timer peer.neighbor.armed && peer.neighbor.need_trigger_lsa
            then trigger_new_lsa env s
            else some s)
          _ (ground (arith, h, trigger_new_lsa-Kept env P closed s h))
          (λ t k. elim (Bool-cases (is_armed trigger_timer peer.neighbor.armed)) [
            | inl armed ↦ rw armed (change_peer-Kept env P closed index id _ t k)
            | inr gone ↦ rw gone h
          ])))
  occur-Kept (interface_changed index event) s h = process_interface_event-Kept index event s h

-- In every state that the protocol reaches, by packets of any content, by timers in any order and by changes
-- of its interfaces, the database has one LSA for each type and router if it had so at the start, and
-- it still has an LSA wherever it had one: an LSA is replaced, but never lost.
pub reached-Grown :
    (env : Environment) (s t : Protocol)
    → IsDatabase s.database
    → Reaches env s t
    → Grown s.database t.database
reached-Grown env s t h at_once = (h, λ type id was. was)
reached-Grown env s t h (after {t = middle} o path step) =
    let grown = reached-Grown env s middle h path in
    subst (Kept (Grown s.database)) step
      (occur-Kept env (Grown s.database) (insert_lsa-Grown s.database) o middle grown)
