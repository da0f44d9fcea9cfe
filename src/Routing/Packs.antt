-- ===== src/Routing/Packs.antt =====
-- src/networkLayerPlus/ndnRouting/dataPack: RegisterInterestPack, RegisterDataPack and
-- DeRegisterInterestPack. A read past the end of the memory is `none`.
pub mod RoundTrip
use ndn_based_protocol.Prelude.{
  ℕ, zero, suc, ◌+◌, ◌%◌, ◌^◌, Option, none, some, List, [], ◌∷◌, ◌++◌, nat_eq, ◌==◌, drop,
  take_exact, if◌then◌else◌, ◌>>=◌,
}
use ndn_based_protocol.Tlv.{be16, be32, be64, read16, read32, read64}
use ndn_based_protocol.Routing.Lsa.{
  LsaDataPack, signature_length, get_packet_size, encode_lsa, decode_lsa,
}

-- `signature` is signatureOfPacketName.
pub record RegisterInterestPack : Type 0 where
  pub root : ℕ
  pub adj_sequence_num : ℕ
  pub rch_sequence_num : ℕ
  pub signature : List ℕ

-- RegisterInterestPack::encode and RegisterInterestPack::decode
unfoldable pub encode_register : RegisterInterestPack → List ℕ
encode_register p =
    be64 p.root ++ (be32 p.rch_sequence_num ++ (be32 p.adj_sequence_num ++ p.signature))

unfoldable pub decode_register : List ℕ → Option RegisterInterestPack
decode_register raw = do
  (root, r1) ← read64 raw
  (rch, r2) ← read32 r1
  (adj, r3) ← read32 r2
  signature ← take_exact signature_length r3
  some (record {
    root = root;
    adj_sequence_num = adj;
    rch_sequence_num = rch;
    signature = signature;
  })

pub record DeRegisterInterestPack : Type 0 where
  pub root : ℕ
  pub signature : List ℕ

-- DeRegisterInterestPack::encode and DeRegisterInterestPack::decode
unfoldable pub encode_deregister : DeRegisterInterestPack → List ℕ
encode_deregister p = be64 p.root ++ p.signature

unfoldable pub decode_deregister : List ℕ → Option DeRegisterInterestPack
decode_deregister raw = do
  (root, r1) ← read64 raw
  signature ← take_exact signature_length r1
  some (record { root = root; signature = signature })

-- A null pointer is `none`.
pub record RegisterDataPack : Type 0 where
  pub adj_lsa : Option LsaDataPack
  pub rch_lsa : Option LsaDataPack

abbrev pub size_of : Option LsaDataPack → ℕ
size_of none = 0
size_of (some lsa) = get_packet_size lsa

abbrev pub encode_optional : Option LsaDataPack → List ℕ
encode_optional none = []
encode_optional (some lsa) = encode_lsa lsa

-- RegisterDataPack::encode; the two sizes are written in 16 bits.
unfoldable pub encode_register_data : RegisterDataPack → List ℕ
encode_register_data p =
    be16 (size_of p.adj_lsa)
    ++ (be16 (size_of p.rch_lsa) ++ (encode_optional p.adj_lsa ++ encode_optional p.rch_lsa))

-- make_shared<LsaDataPack>()
abbrev pub new_lsa_pack : LsaDataPack
new_lsa_pack = record {
  ls_type = 0;
  router_id = 0;
  seq_num = 0;
  ls_age = 0;
  number_of_links = 0;
  public_key = [];
  signature = [];
  links = [];
}

unfoldable pub decode_optional : ℕ → List ℕ → Option (Option LsaDataPack)
decode_optional size raw =
    if size == 0 then some none else decode_lsa new_lsa_pack raw size >>= (λ lsa. some (some lsa))

-- RegisterDataPack::decode
unfoldable pub decode_register_data : List ℕ → Option RegisterDataPack
decode_register_data raw = do
  (adj_size, r1) ← read16 raw
  (rch_size, r2) ← read16 r1
  adj ← decode_optional adj_size r2
  rch ← decode_optional rch_size (drop adj_size r2)
  some (record { adj_lsa = adj; rch_lsa = rch })
