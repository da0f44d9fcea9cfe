-- ===== src/Util/Names.antt =====
-- Splitting undoes joining, for the one-byte separator of names.
use native.Mathlib.Numerals.{add-one}
use ndn_based_protocol.Prelude.{
  ℕ, zero, suc, ◌+◌, ◌<◌, ◌≤◌, ◌≡◌, refl, ap, false, List, [], ◌∷◌, ◌++◌, length, drop, arith,
  length-append, All, drop-past, drop-all,
}
use ndn_based_protocol.Util.{has_byte, before_separator, split_loop, split, join}

-- No byte of the part is the separator.
abbrev pub IsPart : ℕ → List ℕ → Type 0
IsPart b = All (λ c. has_byte (b ∷ []) c ≡ false)

abbrev pub AllParts : ℕ → List (List ℕ) → Type 0
AllParts b = All (IsPart b)

-- The last part is not empty: `split` does not report an empty rest behind a separator.
abbrev pub LastFilled : List (List ℕ) → Type 0
LastFilled [] = Unit {0}
LastFilled (part ∷ []) = 0 < length part
LastFilled (part ∷ next ∷ parts) = LastFilled (next ∷ parts)

before_separator-part :
    (b : ℕ) (part rest : List ℕ)
    → IsPart b part
    → before_separator (b ∷ []) (part ++ (b ∷ rest)) ≡ part
unfolding before_separator has_byte
before_separator-part b [] rest h = ground arith
before_separator-part b (c ∷ part) rest h = ground (arith, before_separator-part b part rest h.1)

before_separator-last :
    (b : ℕ) (part : List ℕ) → IsPart b part → before_separator (b ∷ []) part ≡ part
unfolding before_separator has_byte
before_separator-last b [] h = refl
before_separator-last b (c ∷ part) h = ground (arith, before_separator-last b part h.1)

split_loop-nil : (fuel : ℕ) (sep : List ℕ) → split_loop fuel sep [] ≡ []
unfolding split_loop
split_loop-nil zero sep = refl
split_loop-nil (suc fuel) sep = refl

-- One round of the loop on a text that is not empty.
split_loop-step :
    (fuel : ℕ) (sep text : List ℕ)
    → 0 < length text
    → split_loop (suc fuel) sep text
      ≡ before_separator sep text
        ∷ split_loop fuel sep (drop (length (before_separator sep text) + length sep) text)
unfolding split_loop
split_loop-step fuel sep [] h = elim h [ ]
split_loop-step fuel sep (c ∷ text) h = refl

split_loop-join :
    (fuel b : ℕ) (parts : List (List ℕ))
    → AllParts b parts
    → LastFilled parts
    → length (join parts (b ∷ [])) ≤ fuel
    → split_loop fuel (b ∷ []) (join parts (b ∷ [])) ≡ parts
unfolding join
split_loop-join fuel b [] a l h = split_loop-nil fuel (b ∷ [])
split_loop-join zero b (part ∷ []) a l h = absurd (omega arith)
split_loop-join (suc fuel) b (part ∷ []) a l h =
    rw (split_loop-step fuel (b ∷ []) part l, before_separator-last b part a.0)
      (rw (drop-all (length part + 1) part (omega arith), split_loop-nil))
split_loop-join zero b (part ∷ next ∷ parts) a l h =
    absurd (omega (arith, length-append part (b ∷ join (next ∷ parts) (b ∷ []))))
split_loop-join (suc fuel) b (part ∷ next ∷ parts) a l h =
    let rest : List ℕ = join (next ∷ parts) (b ∷ []) in
    rw
      (
        split_loop-step fuel (b ∷ []) (part ++ (b ∷ rest))
            (omega (arith, length-append part (b ∷ rest))),
        before_separator-part b part rest a.0,
      )
      (ap (λ r. part ∷ r)
        (rw (
          add-one,
          drop-past,
          split_loop-join fuel b (next ∷ parts) a.1 l
              (omega (arith, length-append part (b ∷ rest))),
        )))

-- Splitting a join of parts gives the parts, where no part holds the separator and the last part is
-- not empty.
pub split-join :
    (b : ℕ) (parts : List (List ℕ))
    → AllParts b parts
    → LastFilled parts
    → split (join parts (b ∷ [])) (b ∷ []) ≡ parts
unfolding split
split-join b parts a l = split_loop-join (length (join parts (b ∷ []))) b parts a l (omega arith)
