-- ===== src/Routing/HelloPack.antt =====
-- src/networkLayerPlus/ndnRouting/dataPack/HelloInterestPack.cpp: encode and decode. A null pointer is `none`, as
-- is a read past the end of the memory. An address is copied as its four bytes in memory.
pub mod RoundTrip
use ndn_based_protocol.Prelude.{
  ℕ, zero, suc, ◌+◌, ◌*◌, ◌/◌, ◌%◌, ◌^◌, Option, none, some, List, [], ◌∷◌, ◌++◌, length, drop,
  take_exact, nat_eq, ◌==◌, if◌then◌else◌, ◌>>=◌,
}
use ndn_based_protocol.Tlv.{be16, be32, be64, read16, read32, read64}
use ndn_based_protocol.Routing.Lsa.{public_key_length, signature_length}

abbrev pub hash_length : ℕ
hash_length = 16

pub record HelloInterestPack : Type 0 where
  pub router_id : ℕ
  pub interface_ip : ℕ
  pub network_mask : ℕ
  pub hello_interval : ℕ
  pub router_dead_interval : ℕ
  pub neighbor : List ℕ
  pub database_hash : List ℕ
  pub signature : List ℕ
  pub public_key : Option (List ℕ)

-- The bytes of a `uint32_t` in the memory of a little-endian machine.
unfoldable pub address_bytes : ℕ → List ℕ
address_bytes a = a % 256 ∷ a / 256 % 256 ∷ a / 65536 % 256 ∷ a / 16777216 % 256 ∷ []

unfoldable pub read_address : List ℕ → Option (ℕ × List ℕ)
read_address (a ∷ b ∷ c ∷ d ∷ rest) = some (a + b * 256 + c * 65536 + d * 16777216, rest)
read_address _ = none

unfoldable pub all_address_bytes : List ℕ → List ℕ
all_address_bytes [] = []
all_address_bytes (a ∷ addrs) = address_bytes a ++ all_address_bytes addrs

unfoldable pub read_addresses : ℕ → List ℕ → Option (List ℕ × List ℕ)
read_addresses zero raw = some ([], raw)
read_addresses (suc n) raw = do
  (a, r1) ← read_address raw
  (addrs, r2) ← read_addresses n r1
  some (a ∷ addrs, r2)

-- The header's last byte, which has no initialiser where there is no public key, and the key.
abbrev pub key_bytes : ℕ → Option (List ℕ) → ℕ × List ℕ
key_bytes junk none = (junk % 256, [])
key_bytes junk (some key) = (1, key)

-- The `int` size of HelloInterestPack::encode, before it wraps around.
abbrev pub hello_size : HelloInterestPack → ℕ
hello_size p =
    169 + length p.neighbor * 4 + elim p.public_key [ none ↦ 0 | some key ↦ public_key_length ]

-- HelloInterestPack::encode, where the size does not wrap around.
unfoldable pub encode_hello : ℕ → HelloInterestPack → List ℕ
encode_hello junk p =
    let (has_public_key, key) = key_bytes junk p.public_key in
    be64 p.router_id
    ++ (address_bytes p.interface_ip
        ++ (address_bytes p.network_mask
            ++ (be16 p.hello_interval
                ++ (be16 p.router_dead_interval
                    ++ (be32 (length p.neighbor)
                        ++ (p.database_hash
                            ++ (p.signature
                                ++ (has_public_key ∷ (all_address_bytes p.neighbor ++ key)))))))))

unfoldable pub decode_key : ℕ → List ℕ → Option (Option (List ℕ))
decode_key has_public_key raw =
    if has_public_key == 0
    then some none
    else take_exact public_key_length raw >>= (λ key. some (some key))

-- The byte of `_hasPublicKey`.
unfoldable pub read_byte : List ℕ → Option (ℕ × List ℕ)
read_byte [] = none
read_byte (b ∷ rest) = some (b, rest)

-- HelloInterestPack::decode into a new object.
unfoldable pub decode_hello : List ℕ → Option HelloInterestPack
decode_hello raw = do
  (id, r1) ← read64 raw
  (ip, r2) ← read_address r1
  (mask, r3) ← read_address r2
  (hello_interval, r4) ← read16 r3
  (dead_interval, r5) ← read16 r4
  (size, r6) ← read32 r5
  hash ← take_exact hash_length r6
  signature ← take_exact signature_length (drop hash_length r6)
  (has_public_key, r7) ← read_byte (drop signature_length (drop hash_length r6))
  (neighbor, r8) ← read_addresses size r7
  key ← decode_key has_public_key r8
  some (record {
    router_id = id;
    interface_ip = ip;
    network_mask = mask;
    hello_interval = hello_interval;
    router_dead_interval = dead_interval;
    neighbor = neighbor;
    database_hash = hash;
    signature = signature;
    public_key = key;
  })
