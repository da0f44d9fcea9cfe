-- ===== src/Tlv/ObjectList.antt =====
-- TlvObjectList.{h,cpp}: a bounded buffer of encoded objects, and the loop that decodes it.
pub mod Bounds
pub mod RoundTrip
use ndn_based_protocol.Prelude.{
  ℕ, zero, suc, ◌+◌, ◌<◌, ◌≤◌, ◌≡◌, ◌≢◌, refl, Option, none, some, List, [], ◌∷◌, ◌++◌, arith,
  length, leb, ltb, if◌then◌else◌, nat_eq, ◌==◌, drop, ◌>>=◌,
}
use ndn_based_protocol.Tlv.{
  TlvObject, be16, be32, be64, make_string, encode, raw_data_length, decode,
}

-- `written` holds the bytes from `buffer` up to `currentPos`, `allocated` is the size of the memory at `buffer`,
-- and `buffer_size` is the member bufferSize.
pub record ObjectList : Type 0 where
  pub allocated : ℕ
  pub buffer_size : ℕ
  pub written : List ℕ

-- TlvObjectList(int)
unfoldable pub empty : ℕ → ObjectList
empty size = record { allocated = size; buffer_size = size; written = [] }

-- TlvObjectList::write of a region and of a byte: past the end of the buffer nothing is written.
unfoldable pub write : ObjectList → List ℕ → ObjectList
write l bytes =
    if ltb l.buffer_size (length l.written + length bytes)
    then l
    else record l { written = l.written ++ bytes }

unfoldable pub write_byte : ObjectList → ℕ → ObjectList
write_byte l byte =
    if leb l.buffer_size (length l.written)
    then l
    else record l { written = l.written ++ (byte ∷ []) }

-- TlvObjectList::writeTypeOrLength
unfoldable pub write_number : ObjectList → ℕ → ObjectList
write_number l n =
    if leb n 0xfc
    then write_byte l n
    else if leb n 0xffff
    then write (write_byte l 0xfd) (be16 n)
    else if ltb n 0xffffffff
    then write (write_byte l 0xfe) (be32 n)
    else write (write_byte l 0xff) (be64 n)

-- The three insertObject overloads.
unfoldable pub insert_type : ObjectList → ℕ → ObjectList
insert_type l type = write_number (write_number l type) 0

unfoldable pub insert_string : ObjectList → ℕ → List ℕ → Option ObjectList
insert_string l type text = do object ← make_string type text; some (write l (encode object))

unfoldable pub insert_object : ObjectList → TlvObject → ObjectList
insert_object l object = write l (encode object)

-- TlvObjectList(rawData, length), with what bufferSize holds, which has no initialiser.
unfoldable pub of_raw : ℕ → List ℕ → ObjectList
of_raw junk bytes = record { allocated = length bytes; buffer_size = junk; written = bytes }

-- How TlvObjectList::decode ends: with the objects, or by reading memory that was never written.
pub data Decoded : Type 0 where
  objects : List TlvObject → Decoded
  fault : Decoded
  out_of_fuel : Decoded

abbrev pub push : TlvObject → Decoded → Decoded
push o (objects os) = objects (o ∷ os)
push o fault = fault
push o out_of_fuel = out_of_fuel

-- The end of a round of the loop, with `ptr` at offset `next`: the buffer ends here, or it is broken
-- and what was read so far is returned, or the loop goes on.
pub after_object : List ℕ → ℕ → TlvObject → Decoded → Decoded
after_object buffer next o rest =
    if next == length buffer
    then objects (o ∷ [])
    else if ltb (length buffer) next
    then objects (o ∷ [])
    else push o rest

-- The loop of TlvObjectList::decode with `ptr` at offset `position`.
unfoldable pub decode_from : ℕ → List ℕ → ℕ → Decoded
unfolding after_object
decode_from zero buffer position = out_of_fuel
decode_from (suc fuel) buffer position = elim (decode (drop position buffer)) [
  | none ↦ fault
  | some o ↦
      let next = position + raw_data_length o in
      after_object buffer next o (decode_from fuel buffer next)
]

-- TlvObjectList::decode; each round passes at least two bytes.
unfoldable pub decode_objects : ObjectList → Decoded
decode_objects l = decode_from (suc (length l.written)) l.written 0
