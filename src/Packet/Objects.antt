-- ===== src/Packet/Objects.antt =====
-- The parts of a packet's round trip that do not depend on its kind: the outer object, the inner
-- list, and the loop over it.
use mathlib.Core.List.{append-nil}
use native.Mathlib.Nat.{mod-eq_of_lt}
use ndn_based_protocol.Prelude.{
  ℕ, ◌+◌, ◌%◌, ◌^◌, ◌<◌, ◌≤◌, ◌≡◌, refl, Option, none, some, List, [], ◌∷◌, ◌++◌, arith, length,
  length-append, take_exact_self, ◌>>=◌, All, nat_beq_iff, false,
}
use ndn_based_protocol.Tlv.{TlvObject, make_empty, is_negative32, encode}
use ndn_based_protocol.Tlv.Codec.{
  built, max_payload, make-small, length-built, decode-encode, parse_data-built,
}
use ndn_based_protocol.Tlv.Number.{length-write-le}
use ndn_based_protocol.Tlv.ObjectList.{empty}
use ndn_based_protocol.Tlv.ObjectList.RoundTrip.{
  IsDecodable, raw_bytes, insert_all-written, decode_objects-raw,
}
use ndn_based_protocol.Packet.{encode_objects, decode_as, total_length, payload, apply_all}

-- The object with this payload.
abbrev pub holding : ℕ → List ℕ → TlvObject
holding t c = built t (length c) c

pub holding-IsDecodable :
    (t : ℕ) (c : List ℕ) → t < 2 ^ 64 → length c ≤ max_payload → IsDecodable (holding t c)
holding-IsDecodable t c ht hc rest =
    decode-encode t (length c) c rest ht (omega arith) (make-small t c hc)

pub make_empty-holding : (t : ℕ) → make_empty t ≡ holding t []
unfolding make_empty
make_empty-holding t = rw append-nil

pub payload-holding :
    (t : ℕ) (c : List ℕ) → t < 0xffffffff → length c ≤ max_payload → payload (holding t c) ≡ some c
unfolding payload
payload-holding t c ht hc =
    rw
      (
        mod-eq_of_lt {n = length c} {m = 2 ^ 32} (omega arith),
        parse_data-built t (length c) c (omega arith) (omega arith),
        not_negative,
        payload,
      )
      (take_exact_self c)
  where
    not_negative : is_negative32 (length c) ≡ false
    not_negative = ground arith

total_length-raw : (os : List TlvObject) → total_length os ≡ length (raw_bytes os)
unfolding total_length
total_length-raw [] = refl
total_length-raw (o ∷ os) =
    omega (arith, total_length-raw os, length-append (encode o) (raw_bytes os))

pub encode_objects-holding :
    (t : ℕ) (os : List TlvObject)
    → length (raw_bytes os) ≤ max_payload
    → encode_objects t os ≡ some (encode (holding t (raw_bytes os)))
unfolding encode_objects empty
encode_objects-holding t os h =
    let sized : total_length os % 2 ^ 32 ≡ length (raw_bytes os) =
      rw (total_length-raw os)
        (mod-eq_of_lt {n = length (raw_bytes os)} {m = 2 ^ 32} (omega arith)) in
    rw (
      sized,
      not_negative,
      insert_all-written (empty (length (raw_bytes os))) os (omega arith),
      make-small t (raw_bytes os) h,
    )
  where
    not_negative : is_negative32 (length (raw_bytes os)) ≡ false
    not_negative = ground arith

pub decode_as-holding {ℓ} :
    {A : Type ℓ} (t : ℕ) (f : A → TlvObject → Option A) (a b : A) (o : TlvObject)
    (os : List TlvObject) (rest : List ℕ)
    → t < 0xffffffff
    → All IsDecodable (o ∷ os)
    → length (raw_bytes (o ∷ os)) ≤ max_payload
    → apply_all f a (o ∷ os) ≡ some b
    → decode_as t f a (encode (holding t (raw_bytes (o ∷ os))) ++ rest) ≡ some (some b)
unfolding decode_as
decode_as-holding t f a b o os rest ht hd hl happ = rw (
  holding-IsDecodable t (raw_bytes (o ∷ os)) (omega arith) hl rest,
  (nat_beq_iff t t).1 refl,
  payload-holding t (raw_bytes (o ∷ os)) ht hl,
  decode_objects-raw 0 o os hd,
  happ,
)

apply_all-append {ℓ} :
    {A : Type ℓ} (f : A → TlvObject → Option A) (a : A) (xs ys : List TlvObject)
    → apply_all f a (xs ++ ys) ≡ (apply_all f a xs >>= λ b. apply_all f b ys)
unfolding apply_all
apply_all-append f a [] ys = refl
apply_all-append {A} f a (o ∷ xs) ys = step (λ b. apply_all-append f b xs ys) (f a o)
  where
    step :
        ((b : A) → apply_all f b (xs ++ ys) ≡ (apply_all f b xs >>= λ c. apply_all f c ys))
        → (r : Option A)
        → (r >>= λ b. apply_all f b (xs ++ ys))
          ≡ ((r >>= λ b. apply_all f b xs) >>= λ c. apply_all f c ys)
    step ih none = refl
    step ih (some b) = ih b

-- The loop in steps: after a run of objects, and after one.
pub apply_all-after {ℓ} :
    {A : Type ℓ} (f : A → TlvObject → Option A) (a : A) (xs ys : List TlvObject) {b : A}
    → apply_all f a xs ≡ some b
    → apply_all f a (xs ++ ys) ≡ apply_all f b ys
apply_all-after f a xs ys h = rw (apply_all-append f a xs ys, h)

pub apply_all-cons {ℓ} :
    {A : Type ℓ} (f : A → TlvObject → Option A) (a : A) (o : TlvObject) (os : List TlvObject)
    {b : A}
    → f a o ≡ some b
    → apply_all f a (o ∷ os) ≡ apply_all f b os
unfolding apply_all
apply_all-cons f a o os h = rw h

pub length-raw_append :
    (xs ys : List TlvObject)
    → length (raw_bytes (xs ++ ys)) ≡ length (raw_bytes xs) + length (raw_bytes ys)
length-raw_append [] ys = omega arith
length-raw_append (o ∷ xs) ys = omega (
  arith,
  length-append (encode o) (raw_bytes (xs ++ ys)),
  length-append (encode o) (raw_bytes xs),
  length-raw_append xs ys,
)

pub length-holding :
    (t : ℕ) (c : List ℕ) → t < 2 ^ 64 → length (raw_bytes (holding t c ∷ [])) ≤ length c + 18
length-holding t c ht =
    rw append-nil
      (omega (arith, length-built t (length c) c, length-write-le t, length-write-le (length c)))
