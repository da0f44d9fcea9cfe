-- ===== src/Tlv/ObjectList/Bounds.antt =====
-- TlvObjectList.cpp: the buffer bound, and the end of the decoding loop.
use ndn_based_protocol.Prelude.{
  ℕ, zero, suc, ◌+◌, ◌<◌, ◌≤◌, ◌≡◌, ◌≢◌, refl, some, List, [], ◌∷◌, arith, length, drop,
  length-append, inl, inr, Bool-cases, leb, ltb, Option-cases, >>=-eq-some, nat_eq,
}
use ndn_based_protocol.Tlv.{
  TlvObject, be16, be32, be64, make, encode, decode, raw_data_length, read_type_or_length,
}
use ndn_based_protocol.Tlv.Number.{length-write-pos}
use ndn_based_protocol.Tlv.Codec.{make-Built, length-built}
use ndn_based_protocol.Tlv.ObjectList.{
  ObjectList, empty, write, write_byte, write_number, insert_type, insert_object, Decoded, objects,
  fault, out_of_fuel, push, decode_from, decode_objects, after_object,
}

-- The bytes fit the memory, whose size bufferSize knows.
abbrev pub IsWithin : ObjectList → Type 0
IsWithin l = (length l.written ≤ l.allocated) × (l.buffer_size ≡ l.allocated)

pub write-IsWithin : (l : ObjectList) (bytes : List ℕ) → IsWithin l → IsWithin (write l bytes)
unfolding write
write-IsWithin l bytes h =
    (ground (arith, length-append l.written bytes, h.0, h.1), ground (arith, h.1))

pub write_byte-IsWithin : (l : ObjectList) (b : ℕ) → IsWithin l → IsWithin (write_byte l b)
unfolding write_byte
write_byte-IsWithin l b h =
    (ground (arith, length-append l.written (b ∷ []), h.0, h.1), ground (arith, h.1))

write_number-IsWithin : (l : ObjectList) (n : ℕ) → IsWithin l → IsWithin (write_number l n)
unfolding write_number
write_number-IsWithin l n h =
    let byte = λ (b : ℕ). write_byte-IsWithin l b h in
    elim (Bool-cases (leb n 0xfc)) [
      | inl one ↦ rw one (byte n)
      | inr more ↦ elim (Bool-cases (leb n 0xffff)) [
        | inl two ↦ rw (more, two) (write-IsWithin _ (be16 n) (byte 0xfd))
        | inr large ↦ elim (Bool-cases (ltb n 0xffffffff)) [
          | inl four ↦ rw (more, large, four) (write-IsWithin _ (be32 n) (byte 0xfe))
          | inr eight ↦ rw (more, large, eight) (write-IsWithin _ (be64 n) (byte 0xff))
        ]
      ]
    ]

-- A new list, and one whose bytes fit its memory and whose bufferSize is the size of that memory, has bytes
-- that fit after each insertion, of a bare type or of an object, and its bufferSize stays the size of the
-- memory.
pub insert-IsWithin :
    (size : ℕ) (l : ObjectList) (type : ℕ) (o : TlvObject)
    → IsWithin l
    → IsWithin (empty size) × IsWithin (insert_type l type) × IsWithin (insert_object l o)
unfolding insert_type insert_object empty
insert-IsWithin size l type o h = (
  (omega arith, refl),
  write_number-IsWithin _ 0 (write_number-IsWithin l type h),
  write-IsWithin l (encode o) h,
)

make-pos : (t l : ℕ) (src : List ℕ) {o : TlvObject} → make t l src ≡ some o → 0 < raw_data_length o
make-pos t l src h =
    let (c, fine, e, eq) = make-Built t l src h in
    rw eq (omega (arith, length-built t l c, length-write-pos t))

pub decode-pos : (raw : List ℕ) {o : TlvObject} → decode raw ≡ some o → 0 < raw_data_length o
unfolding decode
decode-pos raw {o} h =
    let (a, e, f) = >>=-eq-some (read_type_or_length raw) _ h in
    let (b, e', g) = >>=-eq-some (read_type_or_length a.1) _ f in make-pos a.0 b.0 b.1 g

push-ne : (o : TlvObject) (d : Decoded) → d ≢ out_of_fuel → push o d ≢ out_of_fuel
push-ne o (objects os) h = λ e. cc
push-ne o fault h = λ e. cc
push-ne o out_of_fuel h = λ e. h refl

pub after_object-last :
    (buffer : List ℕ) (next : ℕ) (o : TlvObject) (rest : Decoded)
    → next ≡ length buffer
    → after_object buffer next o rest ≡ objects (o ∷ [])
unfolding after_object
after_object-last buffer next o rest h = ground arith

pub after_object-more :
    (buffer : List ℕ) (next : ℕ) (o : TlvObject) (rest : Decoded)
    → next < length buffer
    → after_object buffer next o rest ≡ push o rest
unfolding after_object
after_object-more buffer next o rest h = ground arith

after_object-ends :
    (buffer : List ℕ) (next : ℕ) (o : TlvObject) (rest : Decoded)
    → (next < length buffer → rest ≢ out_of_fuel)
    → after_object buffer next o rest ≢ out_of_fuel
unfolding after_object
after_object-ends buffer next o rest h = ground (arith, push-ne o rest)

decode_from-ends :
    (fuel : ℕ) (buffer : List ℕ) (position : ℕ)
    → length buffer < position + fuel
    → position ≤ length buffer
    → decode_from fuel buffer position ≢ out_of_fuel
unfolding decode_from
decode_from-ends zero buffer position h p = absurd (omega arith)
decode_from-ends (suc fuel) buffer position h p =
    elim (Option-cases (decode (drop position buffer))) [
      | inl e ↦ rw (e, decode_from) (λ bad. cc)
      | inr (o, e) ↦
          rw (e, decode_from)
            (after_object-ends buffer (position + raw_data_length o) o _ λ more.
              decode_from-ends fuel buffer (position + raw_data_length o)
                (omega (arith, decode-pos (drop position buffer) e)) (omega arith))
    ]

-- TlvObjectList::decode ends on every buffer: it returns objects or reads past the end.
pub decode_objects-ends : (l : ObjectList) → decode_objects l ≢ out_of_fuel
unfolding decode_objects
decode_objects-ends l =
    decode_from-ends (suc (length l.written)) l.written 0 (omega arith) (omega arith)
