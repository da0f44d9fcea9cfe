-- ===== src/Routing/Dispatch/Invariant.antt =====
-- What every packet keeps of the LSA database.
use ndn_based_protocol.Prelude.{
  ℤ, ◌≡◌, false, arith, Bool-cases, inl, inr, sym, subst, int_eq, nat_eq, nat_beq_iff, bytes_eq,
  ◌==◌, leb,
}
use ndn_based_protocol.Declaration.{MacAddress}
use ndn_based_protocol.Packet.{NdnPacket, interest, data_packet}
use ndn_based_protocol.Routing.Lsa.{LsaDataPack, adj, rch}
use ndn_based_protocol.Routing.LsaDatabase.{LsaDatabase, insert_lsa, delete_lsa, push_lsa}
use ndn_based_protocol.Routing.LsaDatabase.Contents.{IsDatabase, find-insert_lsa}
use ndn_based_protocol.Routing.Protocol.{Protocol, Environment}
use ndn_based_protocol.Routing.Dispatch.Kept.{Kept}
use ndn_based_protocol.Routing.Protocol.{Environment}
use ndn_based_protocol.Routing.Dispatch.{on_receive_ndn_packet}
use ndn_based_protocol.Routing.Dispatch.Exchange.{
  on_hello_interest-Kept, on_dd_interest-Kept, on_dd_data-Kept,
}
use ndn_based_protocol.Routing.Dispatch.Received.{on_lsa_data-Kept, on_lsa_interest-database}
use ndn_based_protocol.Routing.Dispatch.Registered.{
  on_info_interest-database, on_register_interest-Kept, on_deregister_interest-Kept,
  on_register_data-Kept, on_deregister_data-Kept,
}

-- What is of neither type is not inserted.
pub insert_untyped :
    (db : LsaDatabase) (lsa : LsaDataPack) → leb lsa.ls_type 1 ≡ false → insert_lsa db lsa ≡ db
unfolding insert_lsa delete_lsa push_lsa
insert_untyped db lsa untyped =
    let not_adj : (lsa.ls_type == adj) ≡ false =
      ground (arith, nat_beq_iff lsa.ls_type adj, untyped) in
    let not_rch : (lsa.ls_type == rch) ≡ false =
      ground (arith, nat_beq_iff lsa.ls_type rch, untyped) in
    rw (not_adj, not_rch)

pub insert_lsa-IsDatabase :
    (db : LsaDatabase) (lsa : LsaDataPack) → IsDatabase db → IsDatabase (insert_lsa db lsa)
insert_lsa-IsDatabase db lsa h = elim (Bool-cases (leb lsa.ls_type 1)) [
  | inl typed ↦ (find-insert_lsa db lsa h (ground (arith, typed))).0
  | inr untyped ↦ subst IsDatabase (sym (insert_untyped db lsa untyped)) h
]

pub on_receive_ndn_packet-Kept :
    (env : Environment) (P : LsaDatabase → Type 0)
    → ((db : LsaDatabase) (lsa : LsaDataPack) → P db → P (insert_lsa db lsa))
    → (index : ℤ) (mac : MacAddress) (packet : NdnPacket) (s : Protocol) → P s.database
    → Kept P (on_receive_ndn_packet env index mac packet s)
unfolding on_receive_ndn_packet
on_receive_ndn_packet-Kept env P closed index mac (interest p) s h =
    let lsa = subst P (sym (on_lsa_interest-database env P closed index mac p s)) h in
    let info = subst P (sym (on_info_interest-database env P closed index mac p s)) h in
    ground (
      arith,
      h,
      on_hello_interest-Kept env P closed index mac p s h,
      on_dd_interest-Kept env P closed index mac p s h,
      lsa,
      info,
      on_register_interest-Kept env P closed index mac p s h,
      on_deregister_interest-Kept env P closed index mac p s h,
    )
on_receive_ndn_packet-Kept env P closed index mac (data_packet p) s h = ground (
  arith,
  h,
  on_dd_data-Kept env P closed index mac p s h,
  on_lsa_data-Kept env P closed index mac p s h,
  on_register_data-Kept env P closed index mac p s h,
  on_deregister_data-Kept env P closed index mac p s h,
)
