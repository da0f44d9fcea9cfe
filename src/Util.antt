-- ===== src/Util.antt =====
-- src/util/util.cpp: splitting and joining of names.
pub mod Names
pub mod Numbers
use Prim.Native.Char.{code}
use Prim.Native.String
use Prim.Native.String.{String}
use ndn_based_protocol.Prelude.{
  ℕ, zero, suc, ◌+◌, Bool, true, false, ◌||◌, Option, none, some, List, [], ◌∷◌, ◌++◌, length, drop,
  get_elem?, nat_beq, bytes_beq, if◌then◌else◌,
}

-- The bytes of an ASCII literal.
abbrev pub codes : String → List ℕ
codes String.[] = []
codes (String.◌∷◌ letter text) = code letter ∷ codes text

abbrev pub slash : List ℕ
slash = 47 ∷ []

unfoldable pub has_byte : List ℕ → ℕ → Bool
has_byte [] b = false
has_byte (c ∷ bytes) b = nat_beq c b || has_byte bytes b

-- s.substr(pos, s.find_first_of(sep, pos) - pos), at the text from `pos` on.
unfoldable pub before_separator : List ℕ → List ℕ → List ℕ
before_separator sep [] = []
before_separator sep (c ∷ text) =
    let rest = before_separator sep text in if has_byte sep c then [] else c ∷ rest

-- The loop of `split`, over the text from `pos` on.
unfoldable pub split_loop : ℕ → List ℕ → List ℕ → List (List ℕ)
unfolding before_separator has_byte
split_loop zero sep text = []
split_loop (suc fuel) sep [] = []
split_loop (suc fuel) sep (c ∷ text) =
    let part = before_separator sep (c ∷ text) in
    part ∷ split_loop fuel sep (drop (length part + length sep) (c ∷ text))

-- split(s, sep); each round passes at least the separator.
unfoldable pub split : List ℕ → List ℕ → List (List ℕ)
unfolding split_loop
split s [] = []
split s (b ∷ sep) = split_loop (length s) (b ∷ sep) s

-- join(all, sep)
unfoldable pub join : List (List ℕ) → List ℕ → List ℕ
join [] sep = []
join (part ∷ []) sep = part
join (part ∷ next ∷ parts) sep = part ++ (sep ++ join (next ∷ parts) sep)

-- splits[i] == word, where the code has tested that `splits` is long enough.
abbrev pub part_is : List (List ℕ) → ℕ → List ℕ → Bool
part_is splits i word = elim (get_elem? splits i) [ none ↦ false | some part ↦ bytes_beq part word ]
