-- ===== src/Tlv/ObjectList/RoundTrip.antt =====
-- TlvObjectList.cpp: objects that are inserted come back from the decoder.
use mathlib.Core.List.{append_assoc, append-nil}
use ndn_based_protocol.Prelude.{
  ℕ, zero, suc, ◌+◌, ◌<◌, ◌≤◌, ◌≡◌, sym, some, List, [], ◌∷◌, ◌++◌, arith, length, drop,
  drop-length_append, length-append, nat_eq, ap, ◌∙◌, All,
}
use ndn_based_protocol.Tlv.{TlvObject, encode, decode, raw_data_length}
use ndn_based_protocol.Tlv.ObjectList.{
  ObjectList, write, insert_object, objects, push, decode_from, decode_objects, after_object,
  of_raw,
}
use ndn_based_protocol.Tlv.ObjectList.Bounds.{decode-pos, after_object-last, after_object-more}

abbrev pub IsDecodable : TlvObject → Type 0
IsDecodable o = (rest : List ℕ) → decode (encode o ++ rest) ≡ some o

-- The encodings of a list of objects, one after the other.
abbrev pub raw_bytes : List TlvObject → List ℕ
raw_bytes [] = []
raw_bytes (o ∷ os) = encode o ++ raw_bytes os

-- The loop over `insertObject` in NdnInterest::encode and NdnData::encode.
unfoldable pub insert_all : ObjectList → List TlvObject → ObjectList
insert_all l [] = l
insert_all l (o ∷ os) = insert_all (insert_object l o) os

write-fits :
    (l : ObjectList) (bytes : List ℕ)
    → length l.written + length bytes ≤ l.buffer_size
    → write l bytes ≡ record l { written = l.written ++ bytes }
unfolding write
write-fits l bytes h = ground arith

pub insert_all-written :
    (l : ObjectList) (os : List TlvObject)
    → length l.written + length (raw_bytes os) ≤ l.buffer_size
    → (insert_all l os).written ≡ l.written ++ raw_bytes os
unfolding insert_all insert_object
insert_all-written l [] h = sym (append-nil l.written)
insert_all-written l (o ∷ os) h =
    let split = length-append (encode o) (raw_bytes os) in
    rw (write-fits l (encode o) (omega (arith, split)), insert_all)
      (insert_all-written (record l { written = l.written ++ encode o }) os
          (omega (arith, split, length-append l.written (encode o)))
        ∙ append_assoc l.written (encode o) (raw_bytes os))

length-raw_bytes : (os : List TlvObject) → All IsDecodable os → length os ≤ length (raw_bytes os)
length-raw_bytes [] h = omega arith
length-raw_bytes (o ∷ os) h = omega (
  arith,
  length-append (encode o) (raw_bytes os),
  length-raw_bytes os h.1,
  decode-pos (encode o ++ []) (h.0 []),
)

decode_from-step :
    (fuel : ℕ) (buffer : List ℕ) (position : ℕ) (o : TlvObject)
    → decode (drop position buffer) ≡ some o
    → decode_from (suc fuel) buffer position
      ≡ after_object buffer
          (position + raw_data_length o)
          o
          (decode_from fuel buffer (position + raw_data_length o))
unfolding decode_from
decode_from-step fuel buffer position o h = rw (h, decode_from)

decode_from-raw :
    (fuel : ℕ) (pre : List ℕ) (o : TlvObject) (os : List TlvObject)
    → All IsDecodable (o ∷ os)
    → length os < fuel
    → decode_from fuel (pre ++ raw_bytes (o ∷ os)) (length pre) ≡ objects (o ∷ os)
decode_from-raw zero pre o os h f = absurd (omega arith)
decode_from-raw (suc fuel) pre o [] h f =
    let buffer : List ℕ = pre ++ raw_bytes (o ∷ []) in
    decode_from-step fuel buffer (length pre) o
      (rw (drop-length_append pre (encode o ++ [])) (h.0 []))
    ∙ after_object-last buffer (length pre + raw_data_length o) o _
        (omega (arith, length-append pre (encode o ++ []), length-append (encode o) []))
decode_from-raw (suc fuel) pre o (o' ∷ os) h f =
    let later : List ℕ = raw_bytes (o' ∷ os) in
    let buffer : List ℕ = pre ++ (encode o ++ later) in
    let rest : decode_from fuel buffer (length pre + raw_data_length o) ≡ objects (o' ∷ os) =
      rw (← append_assoc, ← length-append)
        (decode_from-raw fuel (pre ++ encode o) o' os h.1 (omega arith)) in
    decode_from-step fuel buffer (length pre) o
      (rw (drop-length_append pre (encode o ++ later)) (h.0 later))
    ∙ after_object-more buffer (length pre + raw_data_length o) o _ (
        omega (
          arith,
          length-append pre (encode o ++ later),
          length-append (encode o) later,
          length-append (encode o') (raw_bytes os),
          decode-pos (encode o' ++ []) (h.1.0 []),
        ))
    ∙ ap (push o) rest

-- A list of decodable objects with at least one element is decoded from the concatenation of their
-- encodings, in order.
pub decode_objects-raw :
    (junk : ℕ) (o : TlvObject) (os : List TlvObject)
    → All IsDecodable (o ∷ os)
    → decode_objects (of_raw junk (raw_bytes (o ∷ os))) ≡ objects (o ∷ os)
unfolding decode_objects of_raw
decode_objects-raw junk o os h =
    decode_from-raw (suc (length (raw_bytes (o ∷ os)))) [] o os h
      (omega (arith, length-raw_bytes (o ∷ os) h))
