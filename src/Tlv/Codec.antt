-- ===== src/Tlv/Codec.antt =====
-- Whole objects of TlvObject.cpp: construction, decoding, and the accessors.
use mathlib.Core.List.{append_assoc, append-nil}
use native.Mathlib.Nat.{mod-eq_of_lt}
use ndn_based_protocol.Prelude.{
  ℕ, ◌+◌, ◌%◌, ◌^◌, ◌≤◌, ◌<◌, ◌≡◌, ◌≢◌, sym, ap, subst, ◌∙◌, some, List, [], ◌∷◌, ◌++◌, arith,
  length, length-append, drop-append, take_exact, take_exact-append, take_exact_self,
  length-take_exact, Bool, false, ◌||◌, Bool-cases, Option-cases, inl, inr,
}
use ndn_based_protocol.Tlv.{
  TlvObject, be32, write_type_or_length, is_negative32, make, encode, decode, parse_data, parse_u32,
  parse_u8, parse_string,
}
use ndn_based_protocol.Tlv.Number.{read-write, length-write-le, get_tl_length-write, read32-be32}

-- The object that the constructor builds from the copied bytes.
abbrev pub built : ℕ → ℕ → List ℕ → TlvObject
built t l copied = record {
  type = t;
  length_field = l;
  buffer = write_type_or_length t ++ (write_type_or_length l ++ copied);
  buffer_size = (l + 9 + 9) % 2 ^ 32;
}

-- The constructor's test on the two signed conversions.
abbrev pub negative_size : ℕ → Bool
negative_size l = is_negative32 ((l + 9 + 9) % 2 ^ 32) || is_negative32 (l % 2 ^ 32)

abbrev pub Built : ℕ → ℕ → List ℕ → TlvObject → Type 0
Built t l src o =
    (copied : List ℕ) × (negative_size l ≡ false)
    × (take_exact (l % 2 ^ 32) src ≡ some copied)
    × (o ≡ built t l copied)

pub make-Built : (t l : ℕ) (src : List ℕ) {o : TlvObject} → make t l src ≡ some o → Built t l src o
unfolding make
make-Built t l src h = elim (Bool-cases (negative_size l)) [
  | inl bad ↦ absurd (ground arith)
  | inr fine ↦ elim (Option-cases (take_exact (l % 2 ^ 32) src)) [
    | inl short ↦ absurd (ground arith)
    | inr (c, e) ↦ (c, fine, e, ground arith)
  ]
]

pub make-built :
    (t l : ℕ) (src copied : List ℕ)
    → negative_size l ≡ false
    → take_exact (l % 2 ^ 32) src ≡ some copied
    → make t l src ≡ some (built t l copied)
unfolding make
make-built t l src copied p q = rw (p, q)

pub length-built :
    (t l : ℕ) (c : List ℕ)
    → length (encode (built t l c))
      ≡ length (write_type_or_length t) + (length (write_type_or_length l) + length c)
length-built t l c = omega (
  arith,
  length-append (write_type_or_length t) (write_type_or_length l ++ c),
  length-append (write_type_or_length l) c,
)

-- The object that is constructed fits its buffer: `write` never runs past the end of the allocation.
pub make-fits :
    (t l : ℕ) (src : List ℕ) {o : TlvObject}
    → make t l src ≡ some o
    → length (encode o) ≤ o.buffer_size
make-fits t l src {o} h =
    let (c, fine, e, eq) = make-Built t l src h in
    rw (eq, length-built t l c)
      (ground (arith, length-take_exact (l % 2 ^ 32) src e, length-write-le t, length-write-le l))

-- Decoding the encoding of any constructed object gives the object again, whatever memory follows.
pub decode-encode :
    (t l : ℕ) (src rest : List ℕ) {o : TlvObject}
    → t < 2 ^ 64
    → l < 2 ^ 64
    → make t l src ≡ some o
    → decode (encode o ++ rest) ≡ some o
unfolding decode
decode-encode t l src rest {o} ht hl h =
    let (c, fine, e, eq) = make-Built t l src h in
    let again : take_exact (l % 2 ^ 32) (c ++ rest) ≡ some c =
      subst (λ k. take_exact k (c ++ rest) ≡ some c) (length-take_exact (l % 2 ^ 32) src e)
        (take_exact-append c rest) in
    rw (eq, append_assoc, append_assoc, read-write t _ ht, read-write l _ hl)
      (make-built t l _ c fine again)

pub parse_data-built :
    (t l : ℕ) (c : List ℕ) → t ≢ 0xffffffff → l ≢ 0xffffffff → parse_data (built t l c) ≡ c
unfolding parse_data
parse_data-built t l c ht hl = rw (← append_assoc) (
    drop-append _ (write_type_or_length t ++ write_type_or_length l) c (
      omega (
        arith,
        (get_tl_length-write t).0 ht,
        (get_tl_length-write l).0 hl,
        length-append (write_type_or_length t) (write_type_or_length l),
      )))

-- parseData of a constructed object is the copied bytes, unless the type or the length is
-- 0xffffffff, where getTLLength is off.
pub parse_data-make :
    (t l : ℕ) (src : List ℕ) {o : TlvObject}
    → t ≢ 0xffffffff
    → l ≢ 0xffffffff
    → make t l src ≡ some o
    → take_exact (l % 2 ^ 32) src ≡ some (parse_data o)
parse_data-make t l src {o} ht hl h =
    let (c, fine, e, eq) = make-Built t l src h in
    e ∙ ap some (sym (rw eq (parse_data-built t l c ht hl)))

-- What `new char[bufferSize]` can allocate: the largest payload whose buffer size is a positive int.
abbrev pub max_payload : ℕ
max_payload = 2147483629

pub make-small :
    (t : ℕ) (c : List ℕ)
    → length c ≤ max_payload
    → make t (length c) c ≡ some (built t (length c) c)
make-small t c h =
    make-built t (length c) c c (ground arith)
      (rw (mod-eq_of_lt {n = length c} {m = 2 ^ 32} (omega arith)) (take_exact_self c))

pub parse_u32-make :
    (t n : ℕ) → t ≢ 0xffffffff → n < 2 ^ 32 → parse_u32 (built t 4 (be32 n)) ≡ some n
unfolding parse_u32
parse_u32-make t n ht h =
    rw (parse_data-built t 4 (be32 n) ht (omega arith), ← append-nil (be32 n), read32-be32 n [] h)

pub parse_string-make :
    (t : ℕ) (c : List ℕ)
    → t ≢ 0xffffffff
    → length c ≢ 0xffffffff
    → parse_string (built t (length c) c) ≡ some c
unfolding parse_string
parse_string-make t c ht hl = rw (parse_data-built t (length c) c ht hl) (take_exact_self c)

pub parse_u8-make : (t b : ℕ) → t ≢ 0xffffffff → parse_u8 (built t 1 (b ∷ [])) ≡ some b
unfolding parse_u8
parse_u8-make t b ht = rw (parse_data-built t 1 (b ∷ []) ht (omega arith))
