-- ===== src/Routing/Lsa.antt =====
-- src/networkLayerPlus/ndnRouting/dataPack: NdnLink, LinkStateDigest and LsaDataPack.
-- A signed field is its bit pattern. An enum is the number that the packet carries: the code casts
-- the number without a check. Reading past the end of the memory is `none`.
pub mod Order
pub mod RoundTrip
pub mod Extent
use ndn_based_protocol.Prelude.{
  ℕ, zero, suc, ◌+◌, ◌-◌, ◌*◌, ◌^◌, ◌%◌, Bool, Option, none, some, List, [], ◌∷◌, ◌++◌, ltb, length,
  nat_eq, ◌==◌, not, if◌then◌else◌, drop, take_exact, ◌>>=◌,
}
use ndn_based_protocol.Tlv.{be16, be32, be64, read16, read32, read64}

-- enum LinkStateType
abbrev pub adj : ℕ
adj = 0

abbrev pub rch : ℕ
rch = 1

pub record NdnLink : Type 0 where
  pub link_type : ℕ
  pub link_id : ℕ
  pub link_data : ℕ
  pub link_data_mask : ℕ
  pub link_cost : ℕ

pub record LinkStateDigest : Type 0 where
  pub router_id : ℕ
  pub link_state_type : ℕ
  pub sequence_num : ℕ
  pub ls_age : ℕ

pub record LsaDataPack : Type 0 where
  pub ls_type : ℕ
  pub router_id : ℕ
  pub seq_num : ℕ
  pub ls_age : ℕ
  pub number_of_links : ℕ
  pub public_key : List ℕ
  pub signature : List ℕ
  pub links : List NdnLink

-- PUBLIC_KEY_LENGTH, the length of the signature, and the sizes of the packed structs.
abbrev pub public_key_length : ℕ
public_key_length = 252

abbrev pub signature_length : ℕ
signature_length = 128

abbrev pub header_size : ℕ
header_size = 398

abbrev pub link_size : ℕ
link_size = 22

-- NdnLink::encode
unfoldable pub encode_link : NdnLink → List ℕ
encode_link l =
    be16 l.link_type
    ++ (be64 l.link_id ++ (be32 l.link_data ++ (be32 l.link_data_mask ++ be32 l.link_cost)))

-- NdnLink::decode
unfoldable pub decode_link : List ℕ → Option NdnLink
decode_link raw = do
  (type, r1) ← read16 raw
  (id, r2) ← read64 r1
  (data_field, r3) ← read32 r2
  (mask, r4) ← read32 r3
  (cost, r5) ← read32 r4
  some (record {
    link_type = type;
    link_id = id;
    link_data = data_field;
    link_data_mask = mask;
    link_cost = cost;
  })

-- LinkStateDigest::encode
unfoldable pub encode_digest : LinkStateDigest → List ℕ
encode_digest d =
    be64 d.router_id ++ (be16 d.link_state_type ++ (be32 d.sequence_num ++ be16 d.ls_age))

-- LinkStateDigest::decode
unfoldable pub decode_digest : List ℕ → Option LinkStateDigest
decode_digest raw = do
  (id, r1) ← read64 raw
  (type, r2) ← read16 r1
  (seq, r3) ← read32 r2
  (age, r4) ← read16 r3
  some (record { router_id = id; link_state_type = type; sequence_num = seq; ls_age = age })

-- a < b for the `int32_t` values of two bit patterns.
unfoldable pub signed_ltb : ℕ → ℕ → Bool
signed_ltb a b = ltb ((a + 2 ^ 31) % 2 ^ 32) ((b + 2 ^ 31) % 2 ^ 32)

-- LinkStateDigest::operator<
unfoldable pub digest_older : LinkStateDigest → LinkStateDigest → Bool
digest_older a b =
    if not (a.link_state_type == b.link_state_type)
    then ltb a.link_state_type b.link_state_type
    else if not (a.router_id == b.router_id)
    then ltb a.router_id b.router_id
    else if not (a.sequence_num == b.sequence_num)
    then signed_ltb a.sequence_num b.sequence_num
    else ltb b.ls_age a.ls_age

-- LsaDataPack::operator<
unfoldable pub lsa_older : LsaDataPack → LsaDataPack → Bool
lsa_older a b =
    if not (a.ls_type == b.ls_type)
    then ltb a.ls_type b.ls_type
    else if not (a.router_id == b.router_id)
    then ltb a.router_id b.router_id
    else if not (a.seq_num == b.seq_num)
    then signed_ltb a.seq_num b.seq_num
    else ltb b.ls_age a.ls_age

-- LsaDataPack::generateLSDigest
abbrev pub generate_ls_digest : LsaDataPack → LinkStateDigest
generate_ls_digest l = record {
  router_id = l.router_id;
  link_state_type = l.ls_type;
  sequence_num = l.seq_num;
  ls_age = l.ls_age;
}

-- The bytes that an LSA takes on the wire.
abbrev pub wire_size : LsaDataPack → ℕ
wire_size l = header_size + length l.links * link_size

-- LsaDataPack::getPacketSize, the 32 bits of an `int`.
abbrev pub get_packet_size : LsaDataPack → ℕ
get_packet_size l = wire_size l % 2 ^ 32

unfoldable pub encode_links : List NdnLink → List ℕ
encode_links [] = []
encode_links (l ∷ ls) = encode_link l ++ encode_links ls

-- The packed header, and LsaDataPack::encode.
unfoldable pub encode_header : LsaDataPack → List ℕ
encode_header l =
    be16 l.ls_type
    ++ (be64 l.router_id
        ++ (be32 l.seq_num
            ++ (be16 l.ls_age ++ (l.public_key ++ (l.signature ++ be16 l.number_of_links)))))

-- LsaDataPack::encode, where the size does not wrap around.
unfoldable pub encode_lsa : LsaDataPack → List ℕ
encode_lsa l = encode_header l ++ encode_links l.links

-- The loop of LsaDataPack::decode: `raw` is the memory from `ptr` on, and `left` is how far the end
-- of the data is ahead of `ptr`, 0 where it is behind.
unfoldable pub decode_links : ℕ → List ℕ → ℕ → Option (List NdnLink)
decode_links zero raw left = if ltb 0 left then none else some []
decode_links (suc fuel) raw left =
    let rest = decode_links fuel (drop link_size raw) (left - link_size) in
    if ltb 0 left then decode_link raw >>= (λ l. rest >>= λ ls. some (l ∷ ls)) else some []

-- The reads of the packed header, with the memory behind it; the links are those of the object.
unfoldable pub decode_header : LsaDataPack → List ℕ → Option (LsaDataPack × List ℕ)
decode_header self raw = do
  (type, r1) ← read16 raw
  (id, r2) ← read64 r1
  (seq, r3) ← read32 r2
  (age, r4) ← read16 r3
  key ← take_exact public_key_length r4
  sign ← take_exact signature_length (drop public_key_length r4)
  (count, r5) ← read16 (drop signature_length (drop public_key_length r4))
  some (
    record self {
      ls_type = type;
      router_id = id;
      seq_num = seq;
      ls_age = age;
      number_of_links = count;
      public_key = key;
      signature = sign;
    },
    r5,
  )

-- LsaDataPack::decode into an object, whose links are appended to. A round passes 22 bytes, so that
-- `data_length` rounds are enough.
unfoldable pub decode_lsa : LsaDataPack → List ℕ → ℕ → Option LsaDataPack
decode_lsa self raw data_length = do
  (head, behind) ← decode_header self raw
  more ← decode_links data_length behind (data_length - header_size)
  some (record head { links = head.links ++ more })
