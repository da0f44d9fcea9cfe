-- ===== src/Routing/CronJobHandler.antt =====
-- src/networkLayerPlus/ndnRouting/controller/CronJobHandler.cpp: the periodic jobs, and the retransmission of the
-- requests whose timers the protocol holds. A timer that expires runs its job, and goes on where that answers true.
pub mod Retries
use ndn_based_protocol.Prelude.{
  ℕ, zero, suc, ◌+◌, ℤ, Bool, true, false, ◌&&◌, not, Option, none, some, List, [], ◌∷◌, ◌++◌,
  bytes_eq, int_eq, nat_eq, leb, ◌==◌, if◌then◌else◌, ◌>>=◌,
}
use ndn_based_protocol.Prelude.Map.{Map, lookup, insert, erase}
use ndn_based_protocol.Util.{slash, split}
use ndn_based_protocol.Packet.{NdnInterest, interest}
use ndn_based_protocol.Routing.Protocol.{
  Peer, Interface, Protocol, Environment, Retransmission, send_packet, remove_pending,
}
use ndn_based_protocol.Routing.LsaController.{named_digest}
use ndn_based_protocol.Routing.Neighbor.{
  inactivity_timer, trigger_timer, is_armed, expire_lsa_trigger,
}
use ndn_based_protocol.Routing.DatabaseHash.{database_hash}
use ndn_based_protocol.Routing.Protocol.Triggers.{trigger_new_lsa}
use ndn_based_protocol.Routing.Protocol.Events.{change_peer, event_at, make_hello, hello_packet}

-- registerExpireCronJob, deRegisterExpireCronJob, ddInterestExpireCronJob and localLsaExpireCronJob: the answer, what the
-- callback holds afterwards, and the packet sent again with a new nonce.
unfoldable pub register_expire_cron_job :
    Environment → Retransmission → Protocol → Bool × Retransmission × Protocol
register_expire_cron_job env r s =
    let packet : NdnInterest = record r.packet { nonce = env.rand s.drawn } in
    (
      not (leb 3 (r.retransmission_time + 1)),
      record r { packet = packet; retransmission_time = r.retransmission_time + 1 },
      send_packet r.source_mac (interest packet) (record s { drawn = suc s.drawn }),
    )

-- infoLsaExpireCronJob, which gives the request up after the last time.
unfoldable pub info_lsa_expire_cron_job :
    Environment → Retransmission → Protocol → Bool × Retransmission × Protocol
info_lsa_expire_cron_job env r s =
    let (again, r', sent) = register_expire_cron_job env r s in
    let d = named_digest (split r.packet.name slash) in
    (
      again,
      r',
      if again then sent else record sent {
        broadcast_lsa_pending_request_list =
            remove_pending d.link_state_type d.router_id d.sequence_num
              sent.broadcast_lsa_pending_request_list;
      },
    )

-- A timer that expires. `is_info` tells the job of its callback.
unfoldable pub expire : Environment → Bool → List ℕ → Protocol → Protocol
expire env is_info timer s = elim (lookup timer s.timers) [
  | none ↦ s
  | some r ↦
      let (again, r', t) =
        if is_info then info_lsa_expire_cron_job env r s else register_expire_cron_job env r s in
      record t { timers = if again then insert timer r' t.timers else erase timer t.timers }
]

unfoldable pub expire_times : ℕ → Environment → Bool → List ℕ → Protocol → Protocol
expire_times zero env is_info timer s = s
expire_times (suc n) env is_info timer s =
    expire_times n env is_info timer (expire env is_info timer s)

-- The addresses of all neighbours.
unfoldable pub peer_addresses : Map ℕ Peer → List ℕ
peer_addresses [] = []
peer_addresses (entry ∷ peers) = entry.1.ipv4_address ∷ peer_addresses peers

unfoldable pub all_addresses : Map ℤ Interface → List ℕ
all_addresses [] = []
all_addresses (entry ∷ interfaces) = peer_addresses entry.1.neighbors ++ all_addresses interfaces

-- sendingHelloMessageCronJob
unfoldable pub sending_hello_message_cron_job : Environment → ℤ → Protocol → Option Protocol
sending_hello_message_cron_job env index s = do
  interface ← lookup index s.interfaces
  let pack =
      make_hello env interface s.router_id (all_addresses s.interfaces)
        (database_hash env.md5 s.database) s.public_key
  some (
      send_packet interface.mac_address (interest (hello_packet env index pack (env.rand s.drawn)))
        (record s { drawn = suc s.drawn }))

-- neighborInactivityCronJob
unfoldable pub neighbor_inactivity_cron_job : Environment → ℤ → ℕ → Protocol → Option Protocol
neighbor_inactivity_cron_job env index id s = event_at env index id inactivity_timer s

-- The callback of the timer that the constructor of NdnRoutingNeighbor starts, which runs once.
unfoldable pub lsa_trigger : Environment → ℤ → ℕ → Protocol → Option Protocol
lsa_trigger env index id s = do
  interface ← lookup index s.interfaces
  peer ← lookup id interface.neighbors
  let due = is_armed trigger_timer peer.neighbor.armed
  s' ← if due && peer.neighbor.need_trigger_lsa then trigger_new_lsa env s else some s
  (if due then change_peer env index id (λ n. ((expire_lsa_trigger n).0, [])) s' else some s)
