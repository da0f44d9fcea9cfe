-- ===== src/Routing/Lsa/RoundTrip.antt =====
-- The packed encodings of NdnLink, LinkStateDigest and LsaDataPack are decoded to what they hold.
use mathlib.Core.List.{append_assoc}
use ndn_based_protocol.Prelude.{
  true, ℕ, suc, ◌-◌, ◌*◌, ◌^◌, ◌<◌, ◌≤◌, ◌≡◌, refl, some, List, [], ◌∷◌, ◌++◌, length, arith, All,
  take_exact-append, drop-append, length-append, ltb, sym, zero, drop-length_append,
}
use ndn_based_protocol.Tlv.{be16, be32, be64}
use ndn_based_protocol.Tlv.Number.{read16-be16, read32-be32, read64-be64}
use ndn_based_protocol.Routing.Lsa.{
  NdnLink, LinkStateDigest, LsaDataPack, encode_link, decode_link, encode_digest, decode_digest,
  encode_links, decode_links, encode_header, decode_header, encode_lsa, decode_lsa, link_size,
  header_size, public_key_length, signature_length, wire_size, get_packet_size,
}

-- The fields fit their widths.
pub record IsLink (l : NdnLink) : Type 0 where
  pub type : l.link_type < 2 ^ 16
  pub id : l.link_id < 2 ^ 64
  pub link_data : l.link_data < 2 ^ 32
  pub mask : l.link_data_mask < 2 ^ 32
  pub cost : l.link_cost < 2 ^ 32

pub record IsDigest (d : LinkStateDigest) : Type 0 where
  pub id : d.router_id < 2 ^ 64
  pub type : d.link_state_type < 2 ^ 16
  pub seq : d.sequence_num < 2 ^ 32
  pub age : d.ls_age < 2 ^ 16

pub record IsLsa (l : LsaDataPack) : Type 0 where
  pub type : l.ls_type < 2 ^ 16
  pub id : l.router_id < 2 ^ 64
  pub seq : l.seq_num < 2 ^ 32
  pub age : l.ls_age < 2 ^ 16
  pub small : wire_size l < 2 ^ 31
  pub count : l.number_of_links < 2 ^ 16
  pub key : length l.public_key ≡ public_key_length
  pub sign : length l.signature ≡ signature_length
  pub all : All IsLink l.links

decode-encode_link :
    (l : NdnLink) (rest : List ℕ) → IsLink l → decode_link (encode_link l ++ rest) ≡ some l
unfolding decode_link encode_link
decode-encode_link l rest h = simp (
  append_assoc,
  read16-be16 l.link_type _ h.type,
  read64-be64 l.link_id _ h.id,
  read32-be32 l.link_data _ h.link_data,
  read32-be32 l.link_data_mask _ h.mask,
  read32-be32 l.link_cost _ h.cost,
)

-- The bytes of a digest whose fields fit their widths are decoded to the digest, whatever memory
-- follows.
pub decode-encode_digest :
    (d : LinkStateDigest) (rest : List ℕ)
    → IsDigest d
    → decode_digest (encode_digest d ++ rest) ≡ some d
unfolding decode_digest encode_digest
decode-encode_digest d rest h = simp (
  append_assoc,
  read64-be64 d.router_id _ h.id,
  read16-be16 d.link_state_type _ h.type,
  read32-be32 d.sequence_num _ h.seq,
  read16-be16 d.ls_age _ h.age,
)

length-encode_link : (l : NdnLink) → 22 ≡ length (encode_link l)
unfolding encode_link be16 be32 be64
length-encode_link l = refl

pub length-encode_links : (ls : List NdnLink) → length (encode_links ls) ≡ length ls * 22
unfolding encode_links
length-encode_links [] = omega arith
length-encode_links (l ∷ ls) = omega (
  arith,
  length-append (encode_link l) (encode_links ls),
  length-encode_link l,
  length-encode_links ls,
)

decode-encode_links :
    (fuel : ℕ) (ls : List NdnLink) (rest : List ℕ)
    → length ls ≤ fuel
    → All IsLink ls
    → decode_links fuel (encode_links ls ++ rest) (length ls * 22) ≡ some ls
unfolding decode_links encode_links
decode-encode_links zero [] rest le h = refl
decode-encode_links zero (l ∷ ls) rest le h = absurd (omega arith)
decode-encode_links (suc fuel) [] rest le h = refl
decode-encode_links (suc fuel) (l ∷ ls) rest le h =
    let step : length (l ∷ ls) * 22 - link_size ≡ length ls * 22 = omega arith in
    let more : ltb 0 (length (l ∷ ls) * 22) ≡ true = ground arith in
    rw (
      append_assoc (encode_link l) (encode_links ls) rest,
      decode-encode_link l (encode_links ls ++ rest) h.0,
      drop-append 22 (encode_link l) (encode_links ls ++ rest) (length-encode_link l),
      step,
      more,
      decode-encode_links fuel ls rest (omega arith) h.1,
    )

decode-encode_header :
    (self l : LsaDataPack) (rest : List ℕ)
    → IsLsa l
    → decode_header self (encode_header l ++ rest) ≡ some (record l { links = self.links }, rest)
unfolding decode_header encode_header
decode-encode_header self l rest h =
    let key = take_exact-append l.public_key (l.signature ++ (be16 l.number_of_links ++ rest)) in
    let sign = take_exact-append l.signature (be16 l.number_of_links ++ rest) in
    simp (
      append_assoc,
      read16-be16 l.ls_type _ h.type,
      read64-be64 l.router_id _ h.id,
      read32-be32 l.seq_num _ h.seq,
      read16-be16 l.ls_age _ h.age,
      sym h.key,
      sym h.sign,
      key,
      sign,
      drop-length_append,
      read16-be16 l.number_of_links _ h.count,
    )

length-encode_header : (l : LsaDataPack) → IsLsa l → length (encode_header l) ≡ header_size
unfolding encode_header be16 be32 be64
length-encode_header l h = omega (
  arith,
  h.key,
  h.sign,
  length-append l.public_key (l.signature ++ be16 l.number_of_links),
  length-append l.signature (be16 l.number_of_links),
)

-- LsaDataPack::encode writes getPacketSize() bytes.
pub length-encode_lsa : (l : LsaDataPack) → IsLsa l → length (encode_lsa l) ≡ get_packet_size l
unfolding encode_lsa
length-encode_lsa l h = omega (
  arith,
  length-encode_header l h,
  length-encode_links l.links,
  length-append (encode_header l) (encode_links l.links),
)

-- An LSA of less than 2 ^ 31 bytes whose fields fit their widths is encoded in getPacketSize() bytes, and decoding these, with
-- that length and whatever memory follows, gives the LSA back, its links behind those that the
-- object already had.
pub decode-encode_lsa :
    (self l : LsaDataPack) (rest : List ℕ)
    → IsLsa l
    → (length (encode_lsa l) ≡ get_packet_size l)
      × (decode_lsa self (encode_lsa l ++ rest) (get_packet_size l)
          ≡ some (record l { links = self.links ++ l.links }))
unfolding decode_lsa encode_lsa
decode-encode_lsa self l rest h =
    let left : get_packet_size l - header_size ≡ length l.links * 22 = omega arith in
    (
      length-encode_lsa l h,
      rw (
        append_assoc (encode_header l) (encode_links l.links) rest,
        decode-encode_header self l (encode_links l.links ++ rest) h,
        left,
        decode-encode_links (get_packet_size l) l.links rest (omega arith) h.all,
      ),
    )
