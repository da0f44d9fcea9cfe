-- ===== src/Routing/HelloPack/RoundTrip.antt =====
-- A hello pack, encoded and decoded.
use mathlib.Core.List.{append_assoc}
use ndn_based_protocol.Prelude.{
  ℕ, ◌*◌, ◌^◌, ◌<◌, length-append, ◌≡◌, refl, Option, none, some, List, [], ◌∷◌, ◌++◌, length, drop,
  take_exact, take_exact-append, take_exact_self, drop-append, arith, nat_eq, sym, All, >>=-some,
}
use ndn_based_protocol.Tlv.{be16, be32, be64}
use ndn_based_protocol.Tlv.Number.{read16-be16, read32-be32, read64-be64}
use ndn_based_protocol.Routing.Lsa.{public_key_length, signature_length}
use ndn_based_protocol.Routing.HelloPack.{
  HelloInterestPack, hash_length, address_bytes, read_address, all_address_bytes, read_addresses,
  key_bytes, hello_size, encode_hello, decode_key, read_byte, decode_hello,
}

read_address-bytes :
    (a : ℕ) (rest : List ℕ) → a < 2 ^ 32 → read_address (address_bytes a ++ rest) ≡ some (a, rest)
unfolding read_address address_bytes
read_address-bytes a rest h = ground arith

read_addresses-bytes :
    (addrs : List ℕ) (rest : List ℕ)
    → All (λ (a : ℕ). a < 2 ^ 32) addrs
    → read_addresses (length addrs) (all_address_bytes addrs ++ rest) ≡ some (addrs, rest)
unfolding read_addresses all_address_bytes
read_addresses-bytes [] rest all = refl
read_addresses-bytes (a ∷ addrs) rest all =
    rw (append_assoc (address_bytes a) (all_address_bytes addrs) rest) (
      >>=-some _ (read_address-bytes a (all_address_bytes addrs ++ rest) all.0)
        (>>=-some _ (read_addresses-bytes addrs rest all.1) refl))

abbrev pub IsKey : Option (List ℕ) → Type 0
IsKey none = Unit
IsKey (some key) = length key ≡ public_key_length

-- The fields fit their widths, and the size of the pack an `int`.
pub record IsHello (p : HelloInterestPack) : Type 0 where
  pub id : p.router_id < 2 ^ 64
  pub ip : p.interface_ip < 2 ^ 32
  pub mask : p.network_mask < 2 ^ 32
  pub period : p.hello_interval < 2 ^ 16
  pub dead : p.router_dead_interval < 2 ^ 16
  pub small : hello_size p < 2 ^ 31
  pub addresses : All (λ (a : ℕ). a < 2 ^ 32) p.neighbor
  pub hash : length p.database_hash ≡ hash_length
  pub sign : length p.signature ≡ signature_length
  pub key : IsKey p.public_key

decode_key-bytes :
    (key : Option (List ℕ))
    → IsKey key
    → decode_key (key_bytes 0 key).0 (key_bytes 0 key).1 ≡ some key
unfolding decode_key
decode_key-bytes none h = refl
decode_key-bytes (some key) h = >>=-some _ (rw h at (take_exact_self key)) refl

length-address_bytes : (a : ℕ) → length (address_bytes a) ≡ 4
unfolding address_bytes
length-address_bytes a = refl

length-all_address_bytes : (addrs : List ℕ) → length (all_address_bytes addrs) ≡ length addrs * 4
unfolding all_address_bytes
length-all_address_bytes [] = refl
length-all_address_bytes (a ∷ addrs) = omega (
  arith,
  length-append (address_bytes a) (all_address_bytes addrs),
  length-address_bytes a,
  length-all_address_bytes addrs,
)

length-key_bytes :
    (key : Option (List ℕ))
    → IsKey key
    → length (key_bytes 0 key).1 ≡ elim key [ none ↦ 0 | some k ↦ public_key_length ]
length-key_bytes none h = refl
length-key_bytes (some k) h = h

length-encode_hello : (p : HelloInterestPack) → IsHello p → length (encode_hello 0 p) ≡ hello_size p
unfolding encode_hello be16 be32 be64 address_bytes
length-encode_hello p h =
    let (flag, key) = key_bytes 0 p.public_key in
    let behind : List ℕ = flag ∷ (all_address_bytes p.neighbor ++ key) in
    omega (
      arith,
      h.hash,
      h.sign,
      length-append p.database_hash (p.signature ++ behind),
      length-append p.signature behind,
      length-append (all_address_bytes p.neighbor) key,
      length-all_address_bytes p.neighbor,
      length-key_bytes p.public_key h.key,
    )

-- A hello pack of less than 2 ^ 31 bytes whose fields fit their widths is encoded in as many bytes as its size
-- says and decoded as it was encoded, with a public key or, where the uninitialised byte is 0, without one. The addresses of the neighbours and the
-- key are read behind the header.
pub decode-encode_hello :
    (p : HelloInterestPack)
    → IsHello p
    → (length (encode_hello 0 p) ≡ hello_size p) × (decode_hello (encode_hello 0 p) ≡ some p)
unfolding decode_hello encode_hello read_byte
decode-encode_hello p h =
    let (flag, key) = key_bytes 0 p.public_key in
    let behind : List ℕ = flag ∷ (all_address_bytes p.neighbor ++ key) in
    let hash : take_exact hash_length (p.database_hash ++ (p.signature ++ behind))
        ≡ some p.database_hash =
      rw h.hash at (take_exact-append p.database_hash (p.signature ++ behind)) in
    let sign : take_exact signature_length (p.signature ++ behind) ≡ some p.signature =
      rw h.sign at (take_exact-append p.signature behind) in
    let after_hash : drop hash_length (p.database_hash ++ (p.signature ++ behind))
        ≡ p.signature ++ behind =
      drop-append hash_length p.database_hash (p.signature ++ behind) (sym h.hash) in
    let after_sign : drop signature_length (p.signature ++ behind) ≡ behind =
      drop-append signature_length p.signature behind (sym h.sign) in
    (
      length-encode_hello p h,
      >>=-some _ (read64-be64 p.router_id _ h.id) (
          >>=-some _ (read_address-bytes p.interface_ip _ h.ip) (
            >>=-some _ (read_address-bytes p.network_mask _ h.mask) (
              >>=-some _ (read16-be16 p.hello_interval _ h.period) (
                >>=-some _ (read16-be16 p.router_dead_interval _ h.dead) (
                  >>=-some _ (read32-be32 (length p.neighbor) _ (omega (arith, h.small))) (
                    >>=-some _ hash (
                      rw (after_hash, after_sign)
                        (>>=-some _ sign (
                          >>=-some _ (read_addresses-bytes p.neighbor key h.addresses)
                            (>>=-some _ (decode_key-bytes p.public_key h.key) refl)))))))))),
    )
