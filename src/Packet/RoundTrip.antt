-- ===== src/Packet/RoundTrip.antt =====
-- An interest or a data packet is decoded from its encoding.
use native.Mathlib.Nat.{mod-eq_of_lt}
use ndn_based_protocol.Prelude.{
  ℕ, ◌+◌, ◌%◌, ◌^◌, ◌<◌, ◌≤◌, ◌≡◌, ◌∙◌, refl, some, List, [], ◌∷◌, ◌++◌, arith, length, Bool, true,
  false,
}
use ndn_based_protocol.Declaration.{
  tlv_interest, tlv_data, tlv_name, tlv_can_be_prefix, tlv_must_be_freshed, tlv_nonce,
  tlv_hop_limit, tlv_application_parameters, tlv_content,
}
use ndn_based_protocol.Tlv.{TlvObject, be32, make_string, encode}
use ndn_based_protocol.Tlv.Codec.{
  max_payload, make-small, parse_u32-make, parse_u8-make, parse_string-make,
}
use ndn_based_protocol.Tlv.ObjectList.RoundTrip.{raw_bytes}
use ndn_based_protocol.Packet.{
  NdnInterest, NdnData, new_interest, new_data, data_objects, encode_interest, encode_data,
  decode_interest, decode_data, apply_interest, apply_data, apply_all,
}
use ndn_based_protocol.Packet.Objects.{
  holding, holding-IsDecodable, payload-holding, encode_objects-holding, decode_as-holding,
  apply_all-after, apply_all-cons, length-raw_append, length-holding,
}
use ndn_based_protocol.Packet.Wire.{
  flag, filled, hop, interest_tail, IsWire, optional-filled, interest_objects-list,
  filled-IsDecodable, tail-IsDecodable, length-filled, interest-fits,
}

-- What the loop of NdnInterest::decode does with each part.
apply-name :
    (i : NdnInterest) (c : List ℕ)
    → length c ≤ max_payload
    → apply_interest i (holding tlv_name c) ≡ some (record i { name = c })
unfolding apply_interest
apply-name i c h = rw (parse_string-make tlv_name c (omega arith) (omega arith))

apply-nonce :
    (i : NdnInterest) (n : ℕ)
    → n < 2 ^ 32
    → apply_interest i (holding tlv_nonce (be32 n)) ≡ some (record i { nonce = n })
unfolding apply_interest be32
apply-nonce i n h = rw (parse_u32-make tlv_nonce n (omega arith) h)

apply-can_be_prefix :
    (i : NdnInterest) (b : Bool)
    → i.can_be_prefix ≡ false
    → apply_all apply_interest i (flag b tlv_can_be_prefix) ≡ some (record i { can_be_prefix = b })
unfolding apply_interest apply_all
apply-can_be_prefix i true h = refl
apply-can_be_prefix i false h = ground arith

apply-must_be_fresh :
    (i : NdnInterest) (b : Bool)
    → i.must_be_fresh ≡ false
    → apply_all apply_interest i (flag b tlv_must_be_freshed)
      ≡ some (record i { must_be_fresh = b })
unfolding apply_interest apply_all
apply-must_be_fresh i true h = refl
apply-must_be_fresh i false h = ground arith

-- An omitted hop limit leaves the junk of the constructor.
abbrev pub hop_received : Bool → ℕ → ℕ → ℕ
hop_received true h junk = junk
hop_received false h junk = h

apply-hop :
    (i : NdnInterest) (b : Bool) (h : ℕ)
    → h < 256
    → i.hop_limit_omitted ≡ true
    → apply_all apply_interest i (hop b h)
      ≡ some (record i { hop_limit = hop_received b h i.hop_limit; hop_limit_omitted = b })
unfolding apply_interest apply_all
apply-hop i true h k e = ground arith
apply-hop i false h k e =
    rw (parse_u8-make tlv_hop_limit (h % 256) (omega arith), mod-eq_of_lt {n = h} {m = 256} k)

apply-parameters :
    (i : NdnInterest) (c : List ℕ)
    → length c ≤ max_payload
    → i.application_parameters ≡ []
    → apply_all apply_interest i (filled tlv_application_parameters c)
      ≡ some (record i { application_parameters = c })
unfolding apply_interest apply_all
apply-parameters i [] h e = ground arith
apply-parameters i (b ∷ c) h e =
    rw (payload-holding tlv_application_parameters (b ∷ c) (omega arith) h)

-- The interest that a receiver sees: the preferred interfaces are not on the wire.
unfoldable pub received : ℕ → NdnInterest → NdnInterest
received junk i = record i {
  hop_limit = hop_received i.hop_limit_omitted i.hop_limit junk;
  prefered_interfaces = [];
}

apply_all-interest :
    (junk : ℕ) (i : NdnInterest)
    → IsWire i
    → apply_all apply_interest (new_interest junk) (holding tlv_name i.name ∷ interest_tail i)
      ≡ some (received junk i)
unfolding received
apply_all-interest junk i w =
    let f = apply_interest in
    apply_all-cons f _ _ (interest_tail i) (apply-name (new_interest junk) i.name (omega arith))
    ∙ apply_all-after f _ (flag i.can_be_prefix tlv_can_be_prefix) _
        (apply-can_be_prefix (record (new_interest junk) { name = i.name }) i.can_be_prefix refl)
    ∙ apply_all-after f _ (flag i.must_be_fresh tlv_must_be_freshed) _
        (apply-must_be_fresh _ i.must_be_fresh refl)
    ∙ apply_all-cons f _ _ _ (apply-nonce _ i.nonce w.nonce_fits)
    ∙ apply_all-after f _ (hop i.hop_limit_omitted i.hop_limit) _
        (apply-hop _ i.hop_limit_omitted i.hop_limit w.hop_limit_fits refl)
    ∙ apply-parameters _ i.application_parameters (omega arith) refl

-- Any interest whose values fit its fields and whose name and parameters fit an allocation is
-- encoded, and decoding its bytes, whatever memory follows them, gives the interest back without its
-- preferred interfaces; a hop limit that was omitted stays as the constructor left it.
pub decode-encode_interest :
    (junk : ℕ) (i : NdnInterest)
    → IsWire i
    → (bytes : List ℕ) × (encode_interest i ≡ some bytes)
      × ((rest : List ℕ) → decode_interest junk (bytes ++ rest) ≡ some (some (received junk i)))
unfolding encode_interest decode_interest
decode-encode_interest junk i w =
    let objects : List TlvObject = holding tlv_name i.name ∷ interest_tail i in
    (
      encode (holding tlv_interest (raw_bytes objects)),
      rw (
        interest_objects-list i w,
        encode_objects-holding tlv_interest objects (interest-fits i w),
      ),
      λ rest.
          decode_as-holding tlv_interest apply_interest (new_interest junk) (received junk i)
            (holding tlv_name i.name) (interest_tail i) rest (omega arith)
            (holding-IsDecodable tlv_name i.name (omega arith) (omega arith), tail-IsDecodable i w)
            (interest-fits i w) (apply_all-interest junk i w),
    )

apply_all-data :
    (d : NdnData)
    → length d.name + length d.content + 60 ≤ max_payload
    → apply_all apply_data new_data (holding tlv_name d.name ∷ filled tlv_content d.content)
      ≡ some (record d { prefered_interfaces = [] })
unfolding apply_all apply_data
apply_all-data d h =
    rw (parse_string-make tlv_name d.name (omega arith) (omega arith))
      (content_of d.content (omega arith))
  where
    content_of :
        (c : List ℕ)
        → length c ≤ max_payload
        → apply_all apply_data (record new_data { name = d.name }) (filled tlv_content c)
          ≡ some (record { name = d.name; content = c; prefered_interfaces = [] })
    content_of [] k = refl
    content_of (b ∷ c) k = rw (payload-holding tlv_content (b ∷ c) (omega arith) k)

-- A data packet whose name and content fit an allocation is encoded, and decoding its bytes,
-- whatever memory follows them, gives the packet back without its preferred interfaces.
pub decode-encode_data :
    (d : NdnData)
    → length d.name + length d.content + 60 ≤ max_payload
    → (bytes : List ℕ) × (encode_data d ≡ some bytes)
      × ((rest : List ℕ)
          → decode_data (bytes ++ rest) ≡ some (some (record d { prefered_interfaces = [] })))
unfolding encode_data decode_data data_objects make_string
decode-encode_data d h =
    let objects : List TlvObject = holding tlv_name d.name ∷ filled tlv_content d.content in
    let fits : length (raw_bytes objects) ≤ max_payload = omega (
      arith,
      length-raw_append (holding tlv_name d.name ∷ []) (filled tlv_content d.content),
      length-holding tlv_name d.name (omega arith),
      length-filled tlv_content d.content (omega arith),
    ) in
    (
      encode (holding tlv_data (raw_bytes objects)),
      rw (
        make-small tlv_name d.name (omega arith),
        optional-filled tlv_content d.content (omega arith),
        encode_objects-holding tlv_data objects fits,
      ),
      λ rest.
          decode_as-holding tlv_data apply_data new_data (record d { prefered_interfaces = [] })
            (holding tlv_name d.name) (filled tlv_content d.content) rest (omega arith)
            (
              holding-IsDecodable tlv_name d.name (omega arith) (omega arith),
              filled-IsDecodable tlv_content d.content (omega arith) (omega arith),
            )
            fits (apply_all-data d h),
    )
