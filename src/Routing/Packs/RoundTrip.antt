-- ===== src/Routing/Packs/RoundTrip.antt =====
-- The packs of the registration protocol, encoded and decoded.
use mathlib.Core.List.{append-nil}
use ndn_based_protocol.Prelude.{
  ℕ, ◌^◌, ◌<◌, ◌≡◌, refl, Option, none, some, List, [], ◌++◌, length, drop-append, take_exact,
  take_exact_self, arith, nat_eq, ◌==◌, sym, ◌∙◌, >>=-some, false, ap,
}
use ndn_based_protocol.Tlv.Number.{read16-be16, read32-be32, read64-be64}
use ndn_based_protocol.Routing.Lsa.{LsaDataPack, signature_length, get_packet_size}
use ndn_based_protocol.Routing.Lsa.RoundTrip.{IsLsa, decode-encode_lsa, length-encode_lsa}
use ndn_based_protocol.Routing.Packs.{
  RegisterInterestPack, DeRegisterInterestPack, RegisterDataPack, encode_register, decode_register,
  encode_deregister, decode_deregister, encode_register_data, decode_register_data, size_of,
  encode_optional, decode_optional, new_lsa_pack,
}

take_signature :
    (signature : List ℕ)
    → length signature ≡ signature_length
    → take_exact signature_length signature ≡ some signature
take_signature signature h = rw h at (take_exact_self signature)

-- RegisterInterestPack and DeRegisterInterestPack, with fields of their widths, are decoded as they were
-- encoded.
pub decode-encode_register :
    (p : RegisterInterestPack) (d : DeRegisterInterestPack)
    → p.root < 2 ^ 64
    → p.rch_sequence_num < 2 ^ 32
    → p.adj_sequence_num < 2 ^ 32
    → length p.signature ≡ signature_length
    → d.root < 2 ^ 64
    → length d.signature ≡ signature_length
    → (decode_register (encode_register p) ≡ some p)
      × (decode_deregister (encode_deregister d) ≡ some d)
unfolding encode_register decode_register encode_deregister decode_deregister
decode-encode_register p d root rch adj sign root' sign' = (
  simp (
    read64-be64 p.root _ root,
    read32-be32 p.rch_sequence_num _ rch,
    read32-be32 p.adj_sequence_num _ adj,
    take_signature p.signature sign,
  ),
  simp (read64-be64 d.root _ root', take_signature d.signature sign'),
)

-- An optional LSA that fits.
abbrev pub Fits : Option LsaDataPack → Type 0
Fits none = Unit
Fits (some lsa) = IsLsa lsa × (get_packet_size lsa < 2 ^ 16)

size-Fits : (o : Option LsaDataPack) → Fits o → size_of o < 2 ^ 16
size-Fits none h = omega arith
size-Fits (some lsa) h = h.1

length-encode_optional : (o : Option LsaDataPack) → Fits o → length (encode_optional o) ≡ size_of o
length-encode_optional none h = refl
length-encode_optional (some lsa) h = length-encode_lsa lsa h.0

decode-encode_optional :
    (o : Option LsaDataPack) (rest : List ℕ)
    → Fits o
    → decode_optional (size_of o) (encode_optional o ++ rest) ≡ some o
unfolding decode_optional
decode-encode_optional none rest h = refl
decode-encode_optional (some lsa) rest h =
    let decoded = (decode-encode_lsa new_lsa_pack lsa rest h.0).1 in
    let not_zero : (get_packet_size lsa == 0) ≡ false = ground arith in rw (not_zero, decoded)

-- RegisterDataPack with LSAs that fit their fields and 16 bits of size, or none, is decoded as it was encoded:
-- each part is found behind the other.
pub decode-encode_register_data :
    (p : RegisterDataPack)
    → Fits p.adj_lsa
    → Fits p.rch_lsa
    → decode_register_data (encode_register_data p) ≡ some p
unfolding encode_register_data decode_register_data
decode-encode_register_data p adj rch =
    let adj_bytes : List ℕ = encode_optional p.adj_lsa in
    let rch_bytes : List ℕ = encode_optional p.rch_lsa in
    >>=-some _ (read16-be16 (size_of p.adj_lsa) _ (size-Fits p.adj_lsa adj)) (
      >>=-some _ (read16-be16 (size_of p.rch_lsa) _ (size-Fits p.rch_lsa rch)) (
        >>=-some _ (decode-encode_optional p.adj_lsa rch_bytes adj) (
          >>=-some _
            (ap (decode_optional (size_of p.rch_lsa)) (
                drop-append (size_of p.adj_lsa) adj_bytes rch_bytes
                  (sym (length-encode_optional p.adj_lsa adj))
                ∙ sym (append-nil rch_bytes))
              ∙ decode-encode_optional p.rch_lsa [] rch)
            refl)))
