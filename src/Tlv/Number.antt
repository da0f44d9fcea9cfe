-- ===== src/Tlv/Number.antt =====
-- The variable-length type and length numbers of TlvObject.cpp.
use ndn_based_protocol.Prelude.{
  ℕ, ◌^◌, ◌≤◌, ◌<◌, ◌≡◌, ◌≢◌, some, List, ◌++◌, arith, length, if◌then◌else◌, leb, ltb,
}
use ndn_based_protocol.Tlv.{
  be16, be32, be64, read16, read32, read64, write_type_or_length, read_type_or_length, peek_type,
  get_tl_length,
}

pub read16-be16 : (n : ℕ) (rest : List ℕ) → n < 2 ^ 16 → read16 (be16 n ++ rest) ≡ some (n, rest)
unfolding read16 be16
read16-be16 n rest h = ground arith

pub read32-be32 : (n : ℕ) (rest : List ℕ) → n < 2 ^ 32 → read32 (be32 n ++ rest) ≡ some (n, rest)
unfolding read32 be32
read32-be32 n rest h = ground arith

pub read64-be64 : (n : ℕ) (rest : List ℕ) → n < 2 ^ 64 → read64 (be64 n ++ rest) ≡ some (n, rest)
unfolding read64 be64
read64-be64 n rest h = ground arith

-- What writeTypeOrLength writes for any 64-bit number is read back as that number, and the memory
-- behind it is left.
pub read-write :
    (n : ℕ) (rest : List ℕ)
    → n < 2 ^ 64
    → read_type_or_length (write_type_or_length n ++ rest) ≡ some (n, rest)
unfolding read_type_or_length write_type_or_length
read-write n rest h = ground (arith, read16-be16 n rest, read32-be32 n rest, read64-be64 n rest)

-- getTLLength is the number of bytes that writeTypeOrLength writes for every number but
-- 0xffffffff, for which nine bytes are written and getTLLength answers five.
pub get_tl_length-write :
    (n : ℕ)
    → (n ≢ 0xffffffff → get_tl_length n ≡ length (write_type_or_length n))
      × (n ≡ 0xffffffff → (get_tl_length n ≡ 5) × (length (write_type_or_length n) ≡ 9))
unfolding get_tl_length write_type_or_length be16 be32 be64
get_tl_length-write n = (λ h. ground arith, λ e. (ground arith, ground arith))

pub length-write-pos : (n : ℕ) → 0 < length (write_type_or_length n)
unfolding write_type_or_length be16 be32 be64
length-write-pos n = ground arith

pub length-write-le : (n : ℕ) → length (write_type_or_length n) ≤ 9
unfolding write_type_or_length be16 be32 be64
length-write-le n = ground arith

-- peekType answers the type that was written where that is at most 0xfc, and for every larger 64-bit
-- type it answers the mark byte 0xfd, 0xfe or 0xff that stands before the type.
pub peek_type-write :
    (n : ℕ) (rest : List ℕ)
    → n < 2 ^ 64
    → peek_type (write_type_or_length n ++ rest)
      ≡ some (
          if leb n 0xfc
          then n
          else if leb n 0xffff
          then 0xfd
          else if ltb n 0xffffffff
          then 0xfe
          else 0xff)
unfolding peek_type write_type_or_length be16 be32 be64 read16 read32 read64
peek_type-write n rest h = ground arith
