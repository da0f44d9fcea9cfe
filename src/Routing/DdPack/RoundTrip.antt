-- ===== src/Routing/DdPack/RoundTrip.antt =====
-- A pack of digests, encoded and decoded.
use ndn_based_protocol.Prelude.{
  ℕ, zero, suc, ◌-◌, ◌+◌, ◌*◌, ◌^◌, ◌<◌, ◌≤◌, ◌≡◌, refl, true, some, List, [], ◌∷◌, ◌++◌, length,
  length-append, drop, drop-append, take_exact, take_exact-append, ltb, arith, sym, All,
}
use mathlib.Core.List.{append_assoc}
use ndn_based_protocol.Tlv.{be16, be32, be64}
use ndn_based_protocol.Tlv.Number.{read16-be16, read64-be64}
use ndn_based_protocol.Routing.Lsa.{LinkStateDigest, encode_digest, signature_length}
use ndn_based_protocol.Routing.Lsa.RoundTrip.{IsDigest, decode-encode_digest}
use ndn_based_protocol.Routing.DdPack.{
  DdWirePack, dd_header_size, dd_size, encode_digests, decode_digests, encode_dd, decode_dd,
}

length-encode_digest : (d : LinkStateDigest) → length (encode_digest d) ≡ 16
unfolding encode_digest be16 be32 be64
length-encode_digest d = refl

length-encode_digests : (ds : List LinkStateDigest) → length (encode_digests ds) ≡ length ds * 16
unfolding encode_digests
length-encode_digests [] = refl
length-encode_digests (d ∷ ds) = omega (
  arith,
  length-encode_digest d,
  length-encode_digests ds,
  length-append (encode_digest d) (encode_digests ds),
)

decode-encode_digests :
    (fuel : ℕ) (ds : List LinkStateDigest) (rest : List ℕ)
    → length ds ≤ fuel
    → All IsDigest ds
    → decode_digests fuel (encode_digests ds ++ rest) (length ds * 16) ≡ some ds
unfolding decode_digests encode_digests
decode-encode_digests zero [] rest le all = refl
decode-encode_digests zero (d ∷ ds) rest le all = absurd (omega arith)
decode-encode_digests (suc fuel) [] rest le all = refl
decode-encode_digests (suc fuel) (d ∷ ds) rest le all =
    let more : ltb 0 (length (d ∷ ds) * 16) ≡ true = ground arith in
    let step : length (d ∷ ds) * 16 - 16 ≡ length ds * 16 = omega arith in
    rw (
      append_assoc (encode_digest d) (encode_digests ds) rest,
      decode-encode_digest d (encode_digests ds ++ rest) all.0,
      drop-append 16 (encode_digest d) (encode_digests ds ++ rest) (sym (length-encode_digest d)),
      step,
      more,
      decode-encode_digests fuel ds rest (omega arith) all.1,
    )

-- The fields fit their widths, and the size of the pack an `int`.
pub record IsDd (p : DdWirePack) : Type 0 where
  pub id : p.neighbor < 2 ^ 64
  pub size : p.interface_mtu < 2 ^ 16
  pub number : p.number_of_dd_packets < 2 ^ 16
  pub small : dd_size p < 2 ^ 31
  pub digests : All IsDigest p.ls
  pub sign : length p.signature ≡ signature_length

length-encode_dd :
    (p : DdWirePack) → IsDd p → length (encode_dd p) ≡ dd_header_size + length p.ls * 16
unfolding encode_dd be16 be32 be64
length-encode_dd p h =
    omega
      (arith, h.sign, length-encode_digests p.ls, length-append p.signature (encode_digests p.ls))

-- A pack of digests of less than 2 ^ 31 bytes whose fields fit their widths is encoded in as many bytes as its
-- size says, and decoded as it was encoded, with that length and whatever memory follows.
pub decode-encode_dd :
    (p : DdWirePack) (rest : List ℕ)
    → IsDd p
    → (length (encode_dd p) ≡ dd_size p) × (decode_dd (encode_dd p ++ rest) (dd_size p) ≡ some p)
unfolding decode_dd encode_dd
decode-encode_dd p rest h =
    let digests : List ℕ = encode_digests p.ls ++ rest in
    let sign : take_exact signature_length (p.signature ++ digests) ≡ some p.signature =
      rw h.sign at (take_exact-append p.signature digests) in
    let after : drop signature_length (p.signature ++ digests) ≡ digests =
      drop-append signature_length p.signature digests (sym h.sign) in
    let left : dd_size p - dd_header_size ≡ length p.ls * 16 = omega arith in
    let all : decode_digests (dd_size p) digests (dd_size p - dd_header_size) ≡ some p.ls =
      rw left (decode-encode_digests (dd_size p) p.ls rest (omega arith) h.digests) in
    (
      length-encode_dd p h,
      simp (
        append_assoc,
        read64-be64 p.neighbor _ h.id,
        read16-be16 p.interface_mtu _ h.size,
        read16-be16 p.number_of_dd_packets _ h.number,
        sign,
        after,
        all,
      ),
    )
