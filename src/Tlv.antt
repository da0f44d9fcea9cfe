-- ===== src/Tlv.antt =====
-- src/networkLayer/ndn/ndnPacket/tlv/TlvObject.{h,cpp}: type-length-value objects.
-- A memory region is the list of the bytes written to it; reading past its end is a fault, `none`.
pub mod Number
pub mod Codec
pub mod ObjectList
use ndn_based_protocol.Prelude.{
  ℕ, ◌+◌, ◌*◌, ◌/◌, ◌%◌, ◌^◌, Bool, ◌||◌, Option, none, some, List, [], ◌∷◌, ◌++◌, ltb, leb, nat_eq,
  ◌==◌, if◌then◌else◌, length, drop, take_exact, ◌>>=◌,
}

-- The memory image of `htons`, `htonl` and `htonll` of a number: its bytes, highest first.
unfoldable pub be16 : ℕ → List ℕ
be16 n = (n / 256 % 256) ∷ (n % 256) ∷ []

unfoldable pub be32 : ℕ → List ℕ
unfolding be16
be32 n = be16 (n / 65536) ++ be16 n

unfoldable pub be64 : ℕ → List ℕ
unfolding be32
be64 n = be32 (n / 4294967296) ++ be32 n

-- `ntohs`, `ntohl` and `ntohll` of what a pointer points at, and the memory behind it.
unfoldable pub read16 : List ℕ → Option (ℕ × List ℕ)
read16 (a ∷ b ∷ rest) = some (a * 256 + b, rest)
read16 _ = none

unfoldable pub read32 : List ℕ → Option (ℕ × List ℕ)
unfolding read16
read32 bytes = do
  (hi, rest) ← read16 bytes
  (lo, rest') ← read16 rest
  some (hi * 65536 + lo, rest')

unfoldable pub read64 : List ℕ → Option (ℕ × List ℕ)
unfolding read32
read64 bytes = do
  (hi, rest) ← read32 bytes
  (lo, rest') ← read32 rest
  some (hi * 4294967296 + lo, rest')

-- TlvObject::writeTypeOrLength
unfoldable pub write_type_or_length : ℕ → List ℕ
write_type_or_length n =
    if leb n 0xfc
    then (n % 256) ∷ []
    else if leb n 0xffff
    then 0xfd ∷ be16 n
    else if ltb n 0xffffffff
    then 0xfe ∷ be32 n
    else 0xff ∷ be64 n

-- The two switches on the mark byte in TlvObject::decode.
unfoldable pub read_type_or_length : List ℕ → Option (ℕ × List ℕ)
read_type_or_length [] = none
read_type_or_length (mark ∷ rest) =
    if mark == 0xff
    then read64 rest
    else if mark == 0xfe
    then read32 rest
    else if mark == 0xfd
    then read16 rest
    else some (mark, rest)

-- TlvObject::peekType, which returns the mark byte and not the type that it has read.
unfoldable pub peek_type : List ℕ → Option ℕ
peek_type [] = none
peek_type (mark ∷ rest) =
    if mark == 0xff
    then (do (type, behind) ← read64 rest; some mark)
    else if mark == 0xfe
    then (do (type, behind) ← read32 rest; some mark)
    else if mark == 0xfd
    then (do (type, behind) ← read16 rest; some mark)
    else some mark

-- TlvObject::getTLLength
unfoldable pub get_tl_length : ℕ → ℕ
get_tl_length n =
    if ltb 0xffffffff n then 9 else if ltb 0xffff n then 5 else if ltb 0xfc n then 3 else 1

-- `buffer` holds the bytes up to `currentPos`; `buffer_size` is an `int`, as a 32-bit pattern.
pub record TlvObject : Type 0 where
  pub type : ℕ
  pub length_field : ℕ
  pub buffer : List ℕ
  pub buffer_size : ℕ

-- An `int` with this bit pattern is negative.
abbrev pub is_negative32 : ℕ → Bool
is_negative32 n = leb (2 ^ 31) n

-- TlvObject(type, length, buffer): `new char[negative]` throws, and `memcpy` of a negative count
-- or past the end of the source is a fault.
unfoldable pub make : ℕ → ℕ → List ℕ → Option TlvObject
make type len source =
    if is_negative32 ((len + 9 + 9) % 2 ^ 32) || is_negative32 (len % 2 ^ 32) then none else do
      copied ← take_exact (len % 2 ^ 32) source
      some (record {
        type = type;
        length_field = len;
        buffer = write_type_or_length type ++ (write_type_or_length len ++ copied);
        buffer_size = (len + 9 + 9) % 2 ^ 32;
      })

-- TlvObject(type)
unfoldable pub make_empty : ℕ → TlvObject
make_empty type = record {
  type = type;
  length_field = 0;
  buffer = write_type_or_length type ++ write_type_or_length 0;
  buffer_size = 18;
}

-- TlvObject(type, string)
unfoldable pub make_string : ℕ → List ℕ → Option TlvObject
make_string type text = make type (length text) text

-- TlvObject(type, uint32_t), TlvObject(type, uint16_t) and TlvObject(type, uint8_t)
unfoldable pub make_u32 : ℕ → ℕ → Option TlvObject
make_u32 type n = make type 4 (be32 n)

unfoldable pub make_u16 : ℕ → ℕ → Option TlvObject
make_u16 type n = make type 2 (be16 n)

unfoldable pub make_u8 : ℕ → ℕ → Option TlvObject
make_u8 type n = make type 1 ((n % 256) ∷ [])

-- TlvObject::encode and TlvObject::getRawDataLength
abbrev pub encode : TlvObject → List ℕ
encode o = o.buffer

abbrev pub raw_data_length : TlvObject → ℕ
raw_data_length o = length o.buffer

-- TlvObject::decode
unfoldable pub decode : List ℕ → Option TlvObject
decode raw = do
  (type, rest) ← read_type_or_length raw
  (len, source) ← read_type_or_length rest
  make type len source

-- TlvObject::parseData: the memory behind what getTLLength takes for the header.
unfoldable pub parse_data : TlvObject → List ℕ
parse_data o = drop (get_tl_length o.type + get_tl_length o.length_field) o.buffer

-- TlvObject::parseUInt32, parseUInt16, parseUInt8 and parseString
unfoldable pub parse_u32 : TlvObject → Option ℕ
parse_u32 o = do (n, rest) ← read32 (parse_data o); some n

unfoldable pub parse_u16 : TlvObject → Option ℕ
parse_u16 o = do (n, rest) ← read16 (parse_data o); some n

first_byte : List ℕ → Option ℕ
first_byte [] = none
first_byte (b ∷ rest) = some b

unfoldable pub parse_u8 : TlvObject → Option ℕ
unfolding first_byte
parse_u8 o = first_byte (parse_data o)

unfoldable pub parse_string : TlvObject → Option (List ℕ)
parse_string o = take_exact o.length_field (parse_data o)
