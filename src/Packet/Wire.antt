-- ===== src/Packet/Wire.antt =====
-- The objects of an interest: they are what the constructors make, and they fit an allocation.
use ndn_based_protocol.Prelude.{
  ℕ, ◌+◌, ◌%◌, ◌^◌, ◌<◌, ◌≤◌, ◌≡◌, refl, some, List, [], ◌∷◌, ◌++◌, arith, length, Bool, true,
  false, not, All-append, All,
}
use ndn_based_protocol.Declaration.{
  tlv_name, tlv_can_be_prefix, tlv_must_be_freshed, tlv_nonce, tlv_hop_limit,
  tlv_application_parameters,
}
use ndn_based_protocol.Tlv
use ndn_based_protocol.Tlv.{
  TlvObject, be16, be32, make_empty, make_u32, make_u8, make_string, encode, write_type_or_length,
  parse_u8, parse_u32, parse_string,
}
use ndn_based_protocol.Tlv.Codec.{max_payload, make-small}
use ndn_based_protocol.Tlv.ObjectList.RoundTrip.{IsDecodable, raw_bytes}
use ndn_based_protocol.Packet.{NdnInterest, optional, not_empty, interest_objects}
use ndn_based_protocol.Packet.Objects.{
  holding, holding-IsDecodable, make_empty-holding, length-raw_append, length-holding,
}

-- An attribute of a packet as zero or one object.
abbrev pub flag : Bool → ℕ → List TlvObject
flag true t = holding t [] ∷ []
flag false t = []

abbrev pub filled : ℕ → List ℕ → List TlvObject
filled t [] = []
filled t (b ∷ bytes) = holding t (b ∷ bytes) ∷ []

abbrev pub hop : Bool → ℕ → List TlvObject
hop true h = []
hop false h = holding tlv_hop_limit ((h % 256) ∷ []) ∷ []

abbrev pub interest_tail : NdnInterest → List TlvObject
interest_tail i =
    flag i.can_be_prefix tlv_can_be_prefix
    ++ (flag i.must_be_fresh tlv_must_be_freshed
        ++ (holding tlv_nonce (be32 i.nonce)
            ∷ (hop i.hop_limit_omitted i.hop_limit
                ++ filled tlv_application_parameters i.application_parameters)))

-- The values fit the fields of the class, and the packet fits what can be allocated.
pub record IsWire (i : NdnInterest) : Type 0 where
  pub nonce_fits : i.nonce < 2 ^ 32
  pub hop_limit_fits : i.hop_limit < 256
  pub size_fits : length i.name + length i.application_parameters + 120 ≤ max_payload

optional-flag : (b : Bool) (t : ℕ) → optional b (some (make_empty t)) ≡ some (flag b t)
optional-flag true t = rw (make_empty-holding t)
optional-flag false t = refl

pub optional-filled :
    (t : ℕ) (c : List ℕ)
    → length c ≤ max_payload
    → optional (not_empty c) (Tlv.make t (length c) c) ≡ some (filled t c)
optional-filled t [] h = refl
optional-filled t (b ∷ bytes) h = rw (make-small t (b ∷ bytes) h)

optional-hop : (b : Bool) (h : ℕ) → optional (not b) (make_u8 tlv_hop_limit h) ≡ some (hop b h)
unfolding make_u8
optional-hop true h = refl
optional-hop false h = rw (make-small tlv_hop_limit ((h % 256) ∷ []) (omega arith))

make_u32-holding : (t n : ℕ) → make_u32 t n ≡ some (holding t (be32 n))
unfolding make_u32 be32
make_u32-holding t n = make-small t (be32 n) (omega arith)

pub interest_objects-list :
    (i : NdnInterest)
    → IsWire i
    → interest_objects i ≡ some (holding tlv_name i.name ∷ interest_tail i)
unfolding interest_objects make_string
interest_objects-list i w = rw (
  make-small tlv_name i.name (omega arith),
  optional-flag i.can_be_prefix tlv_can_be_prefix,
  optional-flag i.must_be_fresh tlv_must_be_freshed,
  make_u32-holding tlv_nonce i.nonce,
  optional-hop i.hop_limit_omitted i.hop_limit,
  optional-filled tlv_application_parameters i.application_parameters (omega arith),
)

flag-IsDecodable : (b : Bool) (t : ℕ) → t < 2 ^ 64 → All IsDecodable (flag b t)
flag-IsDecodable true t h = (holding-IsDecodable t [] h (omega arith), tt)
flag-IsDecodable false t h = tt

pub filled-IsDecodable :
    (t : ℕ) (c : List ℕ) → t < 2 ^ 64 → length c ≤ max_payload → All IsDecodable (filled t c)
filled-IsDecodable t [] h k = tt
filled-IsDecodable t (b ∷ c) h k = (holding-IsDecodable t (b ∷ c) h k, tt)

hop-IsDecodable : (b : Bool) (h : ℕ) → All IsDecodable (hop b h)
hop-IsDecodable true h = tt
hop-IsDecodable false h =
    (holding-IsDecodable tlv_hop_limit ((h % 256) ∷ []) (omega arith) (omega arith), tt)

pub tail-IsDecodable : (i : NdnInterest) → IsWire i → All IsDecodable (interest_tail i)
unfolding be32
tail-IsDecodable i w =
    All-append IsDecodable (flag i.can_be_prefix _) _
      (flag-IsDecodable i.can_be_prefix _ (omega arith))
      (All-append IsDecodable (flag i.must_be_fresh _) _
        (flag-IsDecodable i.must_be_fresh _ (omega arith))
        (
          holding-IsDecodable tlv_nonce (be32 i.nonce) (omega arith) (omega arith),
          All-append IsDecodable (hop i.hop_limit_omitted i.hop_limit) _
              (hop-IsDecodable i.hop_limit_omitted i.hop_limit)
              (filled-IsDecodable tlv_application_parameters i.application_parameters (omega arith)
                (omega arith)),
        ))

length-flag : (b : Bool) (t : ℕ) → t < 2 ^ 64 → length (raw_bytes (flag b t)) ≤ 18
length-flag true t h = length-holding t [] h
length-flag false t h = omega arith

pub length-filled :
    (t : ℕ) (c : List ℕ) → t < 2 ^ 64 → length (raw_bytes (filled t c)) ≤ length c + 18
length-filled t [] h = omega arith
length-filled t (b ∷ c) h = length-holding t (b ∷ c) h

length-hop : (b : Bool) (h : ℕ) → length (raw_bytes (hop b h)) ≤ 19
length-hop true h = omega arith
length-hop false h = length-holding tlv_hop_limit ((h % 256) ∷ []) (omega arith)

pub interest-fits :
    (i : NdnInterest)
    → IsWire i
    → length (raw_bytes (holding tlv_name i.name ∷ interest_tail i)) ≤ max_payload
unfolding be32
interest-fits i w =
    let parameters : List TlvObject = filled tlv_application_parameters i.application_parameters in
    let from_hop : List TlvObject = hop i.hop_limit_omitted i.hop_limit ++ parameters in
    let from_nonce : List TlvObject = holding tlv_nonce (be32 i.nonce) ∷ from_hop in
    let from_fresh : List TlvObject = flag i.must_be_fresh tlv_must_be_freshed ++ from_nonce in
    omega (
      arith,
      length-raw_append (holding tlv_name i.name ∷ []) (interest_tail i),
      length-raw_append (flag i.can_be_prefix tlv_can_be_prefix) from_fresh,
      length-raw_append (flag i.must_be_fresh tlv_must_be_freshed) from_nonce,
      length-raw_append (holding tlv_nonce (be32 i.nonce) ∷ []) from_hop,
      length-raw_append (hop i.hop_limit_omitted i.hop_limit) parameters,
      length-holding tlv_name i.name (omega arith),
      length-flag i.can_be_prefix tlv_can_be_prefix (omega arith),
      length-flag i.must_be_fresh tlv_must_be_freshed (omega arith),
      length-holding tlv_nonce (be32 i.nonce) (omega arith),
      length-hop i.hop_limit_omitted i.hop_limit,
      length-filled tlv_application_parameters i.application_parameters (omega arith),
    )
