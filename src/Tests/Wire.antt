-- ===== src/Tests/Wire.antt =====
-- The wire format at concrete packets.
use ndn_based_protocol.Prelude.{ℕ, ◌≡◌, ◌≢◌, ◌++◌, refl, true, false, some, List, [], ◌∷◌, arith}
use ndn_based_protocol.Util.{codes, split, join, slash, has_byte}
use ndn_based_protocol.Util.Names.{AllParts, split-join}
use ndn_based_protocol.Tlv.{TlvObject, read_type_or_length, encode, decode}
use ndn_based_protocol.Tlv.Codec.{built, decode-encode, make-small}
use ndn_based_protocol.Tlv.ObjectList.{
  ObjectList, empty, objects, fault, out_of_fuel, of_raw, decode_objects, decode_from, insert_type,
  insert_object,
}
use ndn_based_protocol.Tlv.ObjectList.Bounds.{IsWithin, insert-IsWithin, decode_objects-ends}
use ndn_based_protocol.Tlv.ObjectList.RoundTrip.{raw_bytes, decode_objects-raw}
use ndn_based_protocol.Packet.{
  NdnInterest, NdnData, encode_interest, decode_interest, encode_data, decode_data,
}
use ndn_based_protocol.Packet.Objects.{holding, holding-IsDecodable}
use ndn_based_protocol.Packet.RoundTrip.{received, decode-encode_interest, decode-encode_data}

abbrev hello : NdnInterest
hello = record {
  name = codes "/routing/local/hello";
  can_be_prefix = true;
  must_be_fresh = false;
  nonce = 305419896;
  hop_limit = 32;
  hop_limit_omitted = false;
  application_parameters = 1 ∷ 2 ∷ 3 ∷ [];
  prefered_interfaces = [];
}

decode-encode_interest_example :
    (bytes : List ℕ) × (encode_interest hello ≡ some bytes)
    × ((rest : List ℕ) → decode_interest 0 (bytes ++ rest) ≡ some (some (received 0 hello)))
decode-encode_interest_example = decode-encode_interest 0 hello (omega arith)

abbrev answer : NdnData
answer = record {
  name = codes "/routing/local/dd/7/0";
  content = 9 ∷ 8 ∷ [];
  prefered_interfaces = [];
}

decode-encode_data_example :
    (bytes : List ℕ) × (encode_data answer ≡ some bytes)
    × ((rest : List ℕ)
        → decode_data (bytes ++ rest) ≡ some (some (record answer { prefered_interfaces = [] })))
decode-encode_data_example = decode-encode_data answer (omega arith)

abbrev payload_bytes : List ℕ
payload_bytes = 65 ∷ 66 ∷ 67 ∷ []

abbrev long_type : TlvObject
long_type = built 70000 3 payload_bytes

decode-encode_example : decode (encode long_type ++ (0 ∷ [])) ≡ some long_type
decode-encode_example =
    decode-encode 70000 3 payload_bytes (0 ∷ []) (omega arith) (omega arith)
      (make-small 70000 payload_bytes (omega arith))

abbrev all_ones : ℕ
all_ones = 4294967295

decode_objects-raw_example :
    decode_objects (of_raw 5 (raw_bytes (holding 7 payload_bytes ∷ holding 18 [] ∷ [])))
    ≡ objects (holding 7 payload_bytes ∷ holding 18 [] ∷ [])
decode_objects-raw_example = decode_objects-raw 5 (holding 7 payload_bytes) (holding 18 [] ∷ []) (
  holding-IsDecodable 7 payload_bytes (omega arith) (omega arith),
  (holding-IsDecodable 18 [] (omega arith) (omega arith), tt),
)

decode_objects-ends_example : decode_objects (of_raw 5 (7 ∷ 9 ∷ 1 ∷ [])) ≢ out_of_fuel
decode_objects-ends_example = decode_objects-ends (of_raw 5 (7 ∷ 9 ∷ 1 ∷ []))

abbrev small_list : ObjectList
small_list = record { allocated = 3; buffer_size = 3; written = [] }

insert-IsWithin_example :
    IsWithin (empty 7)
    × IsWithin (insert_type small_list 70000)
    × IsWithin (insert_object small_list long_type)
insert-IsWithin_example = insert-IsWithin 7 small_list 70000 long_type (omega arith, refl)

abbrev name_parts : List (List ℕ)
name_parts = [] ∷ codes "routing" ∷ codes "hop" ∷ []

name_parts-AllParts : AllParts 47 name_parts
unfolding has_byte
name_parts-AllParts = ground arith

split-join_example : split (join name_parts (47 ∷ [])) (47 ∷ []) ≡ name_parts
split-join_example = split-join 47 name_parts name_parts-AllParts (omega arith)

-- A trailing separator is not followed by an empty part.
split_name : split (codes "/a//b/") slash ≡ [] ∷ codes "a" ∷ [] ∷ codes "b" ∷ []
unfolding split
split_name = refl

-- A packet with an empty body makes the decoder read past the end.
empty_body : decode_objects (of_raw 5 []) ≡ fault
unfolding decode_objects of_raw decode read_type_or_length decode_from
empty_body = refl
