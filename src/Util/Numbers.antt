-- ===== src/Util/Numbers.antt =====
-- The decimal text of numbers, as std::to_string and atoll read and write it, and
-- src/networkLayerPlus/ndnRouting/dataPack/PacketCommon.h: atoRID.
pub mod Digits
use ndn_based_protocol.Prelude.{
  ℕ, zero, suc, ◌+◌, ◌-◌, ◌*◌, ◌/◌, ◌%◌, ◌^◌, ℤ, pos, negsuc, Bool, ◌&&◌, List, [], ◌∷◌, ◌++◌, ltb,
  leb, length, drop, nat_eq, ◌==◌, if◌then◌else◌,
}

unfoldable pub digits : ℕ → ℕ → List ℕ
digits zero n = []
digits (suc fuel) n =
    let front = digits fuel (n / 10) in
    if ltb n 10 then (48 + n) ∷ [] else front ++ ((48 + n % 10) ∷ [])

-- to_string of an unsigned number, which has no more digits than its value plus one.
unfoldable pub to_string : ℕ → List ℕ
unfolding digits
to_string n = digits (suc n) n

-- to_string of an `int`
unfoldable pub int_to_string : ℤ → List ℕ
int_to_string (pos n) = to_string n
int_to_string (negsuc n) = 45 ∷ to_string (suc n)

abbrev pub is_digit : ℕ → Bool
is_digit c = leb 48 c && leb c 57

unfoldable pub read_digits : ℕ → List ℕ → ℕ
read_digits n [] = n
read_digits n (c ∷ text) =
    let rest = read_digits (n * 10 + (c - 48)) text in if is_digit c then rest else n

abbrev pub negate : ℕ → ℤ
negate zero = pos 0
negate (suc n) = negsuc n

-- The number at the start of a text that does not start with a space.
unfoldable pub read_int : List ℕ → ℤ
unfolding read_digits
read_int [] = pos 0
read_int (c ∷ text) =
    if c == 45
    then negate (read_digits 0 text)
    else if c == 43
    then pos (read_digits 0 text)
    else pos (read_digits 0 (c ∷ text))

-- What strtoll makes of a number out of the range of `long long`: the bound that it passes.
abbrev pub saturate : ℤ → ℤ
saturate (pos n) = if ltb n (2 ^ 63) then pos n else pos (2 ^ 63 - 1)
saturate (negsuc n) = if ltb n (2 ^ 63) then negsuc n else negsuc (2 ^ 63 - 1)

-- atoll, atol and atoi, which are strtoll of the text; the standard leaves open what comes out of range.
unfoldable pub atoll : List ℕ → ℤ
unfolding read_int
atoll text = saturate (read_int text)

-- The `uint64_t` of an integer.
abbrev pub to_unsigned : ℤ → ℕ
to_unsigned (pos n) = n % 18446744073709551616
to_unsigned (negsuc n) = 18446744073709551615 - n % 18446744073709551616

unfoldable pub first_of : ℕ → List ℕ → List ℕ
first_of zero text = []
first_of (suc n) [] = []
first_of (suc n) (c ∷ text) = c ∷ first_of n text

-- atoRID, for a RouterID of eight bytes: the last four digits apart from the others.
unfoldable pub ato_rid : List ℕ → ℕ
ato_rid text =
    if ltb (length text) 5
    then to_unsigned (atoll text)
    else (to_unsigned (atoll (first_of (length text - 4) text)) * 10000
        + to_unsigned (atoll (drop (length text - 4) text)))
      % 18446744073709551616
