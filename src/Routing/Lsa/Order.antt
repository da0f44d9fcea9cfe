-- ===== src/Routing/Lsa/Order.antt =====
-- The age order of LinkStateDigest and LsaDataPack: `a < b` means that a is the older one.
use ndn_based_protocol.Prelude.{ℕ, ◌^◌, ◌<◌, ◌≡◌, refl, true, false, arith, nat_eq}
use ndn_based_protocol.Routing.Lsa.{
  LinkStateDigest, LsaDataPack, signed_ltb, digest_older, lsa_older, generate_ls_digest,
}
use ndn_based_protocol.Routing.Lsa.RoundTrip.{IsDigest}

signed_ltb_irrefl : (a : ℕ) → signed_ltb a a ≡ false
unfolding signed_ltb
signed_ltb_irrefl a = ground arith

signed_ltb-total :
    (a b : ℕ) → a < 2 ^ 32 → b < 2 ^ 32 → signed_ltb a b ≡ false → signed_ltb b a ≡ false → a ≡ b
unfolding signed_ltb
signed_ltb-total a b p q h k = ground arith

digest_older_trans :
    (a b c : LinkStateDigest)
    → digest_older a b ≡ true
    → digest_older b c ≡ true
    → digest_older a c ≡ true
unfolding digest_older signed_ltb
digest_older_trans a b c h k = ground arith

digest_older-total :
    (a b : LinkStateDigest)
    → IsDigest a
    → IsDigest b
    → digest_older a b ≡ false
    → digest_older b a ≡ false
    → (a.router_id ≡ b.router_id)
      × (a.link_state_type ≡ b.link_state_type)
      × (a.sequence_num ≡ b.sequence_num)
      × (a.ls_age ≡ b.ls_age)
unfolding digest_older
digest_older-total a b p q h k =
    let seqs = signed_ltb-total a.sequence_num b.sequence_num p.seq q.seq in ground (arith, seqs)

-- The order of digests is a strict order, which leaves only digests with the same four fields
-- unordered; and the order of LSAs is the order of their digests.
pub digest_older-order :
    (a b c : LinkStateDigest) (l m : LsaDataPack)
    → IsDigest a
    → IsDigest b
    → (digest_older a a ≡ false)
      × (digest_older a b ≡ true → digest_older b c ≡ true → digest_older a c ≡ true)
      × (digest_older a b ≡ false
          → digest_older b a ≡ false
          → (a.router_id ≡ b.router_id)
            × (a.link_state_type ≡ b.link_state_type)
            × (a.sequence_num ≡ b.sequence_num)
            × (a.ls_age ≡ b.ls_age))
      × (lsa_older l m ≡ digest_older (generate_ls_digest l) (generate_ls_digest m))
unfolding digest_older lsa_older
digest_older-order a b c l m p q = (
  ground (arith, signed_ltb_irrefl a.sequence_num),
  digest_older_trans a b c,
  digest_older-total a b p q,
  refl,
)
