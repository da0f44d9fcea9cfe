-- ===== src/Packet.antt =====
-- src/networkLayer/ndn/ndnPacket: NdnPacket, NdnInterest and NdnData, and their wire format.
-- `none` is a fault (a read outside written memory, an allocation of negative size), `some none` is
-- the `nullptr` that a decoder returns.
pub mod Objects
pub mod Wire
pub mod RoundTrip
use mathlib.Core.Option
use ndn_based_protocol.Prelude.{
  not, ℕ, ◌+◌, ◌%◌, ◌^◌, ℤ, Bool, true, false, Option, none, some, List, [], ◌∷◌, ◌++◌, nat_eq,
  ◌==◌, length, take_exact, ◌>>=◌, if◌then◌else◌,
}
use ndn_based_protocol.Declaration.{
  MacAddress, tlv_interest, tlv_data, tlv_name, tlv_can_be_prefix, tlv_must_be_freshed, tlv_nonce,
  tlv_hop_limit, tlv_application_parameters, tlv_content,
}
use ndn_based_protocol.Tlv
use ndn_based_protocol.Tlv.{
  TlvObject, is_negative32, make, make_empty, make_string, make_u32, make_u8, raw_data_length,
  parse_data, parse_u32, parse_u8, parse_string, peek_type,
}
use ndn_based_protocol.Tlv.ObjectList.{
  ObjectList, Decoded, objects, fault, out_of_fuel, empty, of_raw, decode_objects,
}
use ndn_based_protocol.Tlv.ObjectList.RoundTrip.{insert_all}

pub record NdnInterest : Type 0 where
  pub name : List ℕ
  pub can_be_prefix : Bool
  pub must_be_fresh : Bool
  pub nonce : ℕ  -- uint32_t
  pub hop_limit : ℕ  -- uint8_t
  pub hop_limit_omitted : Bool
  pub application_parameters : List ℕ
  pub prefered_interfaces : List (ℤ × MacAddress)

pub record NdnData : Type 0 where
  pub name : List ℕ
  pub content : List ℕ
  pub prefered_interfaces : List (ℤ × MacAddress)

pub data NdnPacket : Type 0 where
  interest : NdnInterest → NdnPacket
  data_packet : NdnData → NdnPacket

-- NdnInterest(); `junk` is what the member `hopLimit`, which has no initialiser, holds.
abbrev pub new_interest : ℕ → NdnInterest
new_interest junk = record {
  name = [];
  can_be_prefix = false;
  must_be_fresh = false;
  nonce = 0;
  hop_limit = junk;
  hop_limit_omitted = true;
  application_parameters = [];
  prefered_interfaces = [];
}

abbrev pub new_data : NdnData
new_data = record { name = []; content = []; prefered_interfaces = [] }

-- An attribute that is encoded on a condition only.
abbrev pub optional : Bool → Option TlvObject → Option (List TlvObject)
optional true o = o >>= λ x. some (x ∷ [])
optional false o = some []

abbrev pub not_empty : List ℕ → Bool
not_empty [] = false
not_empty (b ∷ bytes) = true

-- NdnInterest::encodeIntoTlvObjectArray
unfoldable pub interest_objects : NdnInterest → Option (List TlvObject)
interest_objects i = do
  name ← make_string tlv_name i.name
  can_be_prefix ← optional i.can_be_prefix (some (make_empty tlv_can_be_prefix))
  must_be_fresh ← optional i.must_be_fresh (some (make_empty tlv_must_be_freshed))
  nonce ← make_u32 tlv_nonce i.nonce
  hop_limit ← optional (not i.hop_limit_omitted) (make_u8 tlv_hop_limit i.hop_limit)
  parameters ←
      optional (not_empty i.application_parameters)
        (make tlv_application_parameters (length i.application_parameters) i.application_parameters)
  some (name ∷ (can_be_prefix ++ (must_be_fresh ++ (nonce ∷ (hop_limit ++ parameters)))))

-- NdnData::encodeIntoTlvObjectArray
unfoldable pub data_objects : NdnData → Option (List TlvObject)
data_objects d = do
  name ← make_string tlv_name d.name
  content ← optional (not_empty d.content) (make tlv_content (length d.content) d.content)
  some (name ∷ content)

-- The sum of the raw lengths, which the code keeps in an `int`.
unfoldable pub total_length : List TlvObject → ℕ
total_length [] = 0
total_length (o ∷ os) = raw_data_length o + total_length os

-- The common body of NdnInterest::encode and NdnData::encode.
unfoldable pub encode_objects : ℕ → List TlvObject → Option (List ℕ)
encode_objects type os =
    if is_negative32 (total_length os % 2 ^ 32)
    then none
    else (let list = insert_all (empty (total_length os % 2 ^ 32)) os in
        make type (length list.written) list.written >>= λ o. some (Tlv.encode o))

unfoldable pub encode_interest : NdnInterest → Option (List ℕ)
encode_interest i = interest_objects i >>= encode_objects tlv_interest

unfoldable pub encode_data : NdnData → Option (List ℕ)
encode_data d = data_objects d >>= encode_objects tlv_data

-- What a setter copies through `getLength()`, as an `int`, and `parseData()`.
unfoldable pub payload : TlvObject → Option (List ℕ)
payload o =
    if is_negative32 (o.length_field % 2 ^ 32)
    then none
    else take_exact (o.length_field % 2 ^ 32) (parse_data o)

-- The switch in NdnInterest::decode.
unfoldable pub apply_interest : NdnInterest → TlvObject → Option NdnInterest
apply_interest i o =
    if o.type == tlv_name
    then parse_string o >>= (λ s. some (record i { name = s }))
    else if o.type == tlv_can_be_prefix
    then some (record i { can_be_prefix = true })
    else if o.type == tlv_must_be_freshed
    then some (record i { must_be_fresh = true })
    else if o.type == tlv_nonce
    then parse_u32 o >>= (λ n. some (record i { nonce = n }))
    else if o.type == tlv_hop_limit
    then parse_u8 o >>= (λ h. some (record i { hop_limit = h; hop_limit_omitted = false }))
    else if o.type == tlv_application_parameters
    then payload o >>= (λ p. some (record i { application_parameters = p }))
    else some i

-- The switch in NdnData::decode.
unfoldable pub apply_data : NdnData → TlvObject → Option NdnData
apply_data d o =
    if o.type == tlv_name
    then parse_string o >>= (λ s. some (record d { name = s }))
    else if o.type == tlv_content
    then payload o >>= (λ p. some (record d { content = p }))
    else some d

-- The loop over the decoded objects.
unfoldable pub apply_all {ℓ} :
    {A : Type ℓ} → (A → TlvObject → Option A) → A → List TlvObject → Option A
apply_all f a [] = some a
apply_all f a (o ∷ os) = f a o >>= λ b. apply_all f b os

abbrev pub decoded_objects : Decoded → Option (List TlvObject)
decoded_objects (objects os) = some os
decoded_objects fault = none
decoded_objects out_of_fuel = none

-- The common body of NdnInterest::decode and NdnData::decode: the outer object, its type, the inner
-- list and the loop over it, which does not read the list's bufferSize.
unfoldable pub decode_as {ℓ} :
    {A : Type ℓ} → ℕ → (A → TlvObject → Option A) → A → List ℕ → Option (Option A)
decode_as type f a raw = do
  outer ← Tlv.decode raw
  (if outer.type == type
      then (do
        inner ← payload outer
        os ← decoded_objects (decode_objects (of_raw 0 inner))
        packet ← apply_all f a os
        some (some packet))
      else some none)

unfoldable pub decode_interest : ℕ → List ℕ → Option (Option NdnInterest)
decode_interest junk = decode_as tlv_interest apply_interest (new_interest junk)

unfoldable pub decode_data : List ℕ → Option (Option NdnData)
decode_data = decode_as tlv_data apply_data new_data

-- NdnPacket::decode
unfoldable pub decode_packet : ℕ → List ℕ → Option (Option NdnPacket)
decode_packet junk raw = do
  type ← peek_type raw
  (if type == tlv_interest
      then (do i ← decode_interest junk raw; some (Option.map interest i))
      else if type == tlv_data
      then (do d ← decode_data raw; some (Option.map data_packet d))
      else some none)
