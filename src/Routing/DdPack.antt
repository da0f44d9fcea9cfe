-- ===== src/Routing/DdPack.antt =====
-- src/networkLayerPlus/ndnRouting/dataPack/DDDataPack.cpp: encode and decode. A read past the end of the memory is
-- `none`.
pub mod RoundTrip
use ndn_based_protocol.Prelude.{
  ℕ, zero, suc, ◌-◌, ◌+◌, ◌*◌, Option, none, some, List, [], ◌∷◌, ◌++◌, length, drop, take_exact,
  ltb, if◌then◌else◌, ◌>>=◌,
}
use ndn_based_protocol.Tlv.{be16, be64, read16, read64}
use ndn_based_protocol.Routing.Lsa.{LinkStateDigest, encode_digest, decode_digest, signature_length}

pub record DdWirePack : Type 0 where
  pub neighbor : ℕ
  pub interface_mtu : ℕ
  pub number_of_dd_packets : ℕ
  pub ls : List LinkStateDigest
  pub signature : List ℕ

-- sizeof(DDDataPacketHeader) and sizeof(LinkStateDigestPacket)
abbrev pub dd_header_size : ℕ
dd_header_size = 140

abbrev pub digest_size : ℕ
digest_size = 16

unfoldable pub encode_digests : List LinkStateDigest → List ℕ
encode_digests [] = []
encode_digests (d ∷ ds) = encode_digest d ++ encode_digests ds

-- The `int` size of DDDataPack::encode, before it wraps around.
abbrev pub dd_size : DdWirePack → ℕ
dd_size p = dd_header_size + length p.ls * digest_size

-- DDDataPack::encode, where the size does not wrap around.
unfoldable pub encode_dd : DdWirePack → List ℕ
encode_dd p =
    be64 p.neighbor
    ++ (be16 p.interface_mtu
        ++ (be16 p.number_of_dd_packets ++ (p.signature ++ encode_digests p.ls)))

-- The loop of decode: `left` is how far the end of the data is ahead. A round passes 16 bytes.
unfoldable pub decode_digests : ℕ → List ℕ → ℕ → Option (List LinkStateDigest)
decode_digests zero raw left = if ltb 0 left then none else some []
decode_digests (suc fuel) raw left =
    let rest = decode_digests fuel (drop digest_size raw) (left - digest_size) in
    if ltb 0 left then decode_digest raw >>= (λ d. rest >>= λ ds. some (d ∷ ds)) else some []

-- DDDataPack::decode into a new object.
unfoldable pub decode_dd : List ℕ → ℕ → Option DdWirePack
decode_dd raw data_length = do
  (neighbor, r1) ← read64 raw
  (mtu, r2) ← read16 r1
  (number, r3) ← read16 r2
  signature ← take_exact signature_length r3
  ls ← decode_digests data_length (drop signature_length r3) (data_length - dd_header_size)
  some (record {
    neighbor = neighbor;
    interface_mtu = mtu;
    number_of_dd_packets = number;
    ls = ls;
    signature = signature;
  })
