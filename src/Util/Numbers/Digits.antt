-- ===== src/Util/Numbers/Digits.antt =====
-- Reading back what to_string writes.
use ndn_based_protocol.Prelude.{
  ℕ, zero, suc, ◌+◌, ◌-◌, ◌*◌, ◌/◌, ◌%◌, ◌^◌, ◌≤◌, ◌<◌, ◌≡◌, refl, pos, List, [], ◌∷◌, ◌++◌, ltb,
  length, drop, length-drop, if◌then◌else◌, nat_eq, arith, Bool-cases, inl, inr, ◌∙◌, sym, ap, All,
  All-append,
}
use ndn_based_protocol.Util.Numbers.{
  digits, to_string, read_digits, read_int, saturate, atoll, first_of, ato_rid,
}

abbrev AllDigits : List ℕ → Type 0
AllDigits text = All (λ (c : ℕ). (48 ≤ c) × (c ≤ 57)) text

-- The value of a text of digits.
abbrev number : ℕ → List ℕ → ℕ
number n [] = n
number n (c ∷ text) = number (n * 10 + (c - 48)) text

read_digits-number : (n : ℕ) (text : List ℕ) → AllDigits text → read_digits n text ≡ number n text
unfolding read_digits
read_digits-number n [] all = refl
read_digits-number n (c ∷ text) all =
    ground (arith, all.0, read_digits-number (n * 10 + (c - 48)) text all.1)

number-append :
    (n : ℕ) (front : List ℕ) (c : ℕ) → number n (front ++ (c ∷ [])) ≡ number n front * 10 + (c - 48)
number-append n [] c = refl
number-append n (d ∷ front) c = number-append (n * 10 + (d - 48)) front c

digits-AllDigits : (fuel n : ℕ) → AllDigits (digits fuel n)
unfolding digits
digits-AllDigits zero n = tt
digits-AllDigits (suc fuel) n = elim (Bool-cases (ltb n 10)) [
  | inl small ↦ rw small ((omega arith, ground (arith, small)), tt)
  | inr large ↦ rw large (
      All-append _ (digits fuel (n / 10)) ((48 + n % 10) ∷ []) (digits-AllDigits fuel (n / 10))
        ((omega arith, omega arith), tt))
]

number-digits : (fuel n : ℕ) → n < fuel → number 0 (digits fuel n) ≡ n
unfolding digits
number-digits zero n enough = absurd (omega arith)
number-digits (suc fuel) n enough = elim (Bool-cases (ltb n 10)) [
  | inl small ↦ rw small (omega arith)
  | inr large ↦
      let big : 10 ≤ n = ground (arith, large) in
      rw large (
        number-append 0 (digits fuel (n / 10)) (48 + n % 10)
        ∙ omega (arith, number-digits fuel (n / 10) (omega arith)))
]

read_int-number : (text : List ℕ) → AllDigits text → read_int text ≡ pos (number 0 text)
unfolding read_int
read_int-number [] all = refl
read_int-number (c ∷ text) all = ground (arith, all.0, read_digits-number 0 (c ∷ text) all)

-- Within its range, atoll reads the number of the digits.
atoll-number :
    (text : List ℕ) → AllDigits text → number 0 text < 2 ^ 63 → atoll text ≡ pos (number 0 text)
unfolding atoll
atoll-number text all small = ap saturate (read_int-number text all) ∙ ground (arith, small)

-- Four digits are less than 10000.
number_small : (text : List ℕ) → AllDigits text → length text ≤ 4 → number 0 text < 10000
number_small [] all h = omega arith
number_small (a ∷ []) all h = omega (arith, all.0)
number_small (a ∷ b ∷ []) all h = omega (arith, all.0, all.1.0)
number_small (a ∷ b ∷ c ∷ []) all h = omega (arith, all.0, all.1.0, all.1.1.0)
number_small (a ∷ b ∷ c ∷ d ∷ []) all h = omega (arith, all.0, all.1.0, all.1.1.0, all.1.1.1.0)
number_small (a ∷ b ∷ c ∷ d ∷ e ∷ rest) all h = absurd (omega arith)

number-append_all :
    (n : ℕ) (front back : List ℕ) → number n (front ++ back) ≡ number (number n front) back
number-append_all n [] back = refl
number-append_all n (c ∷ front) back = number-append_all (n * 10 + (c - 48)) front back

first_of-drop : (k : ℕ) (text : List ℕ) → first_of k text ++ drop k text ≡ text
unfolding first_of
first_of-drop zero text = refl
first_of-drop (suc k) [] = refl
first_of-drop (suc k) (c ∷ text) = ap (λ (rest : List ℕ). c ∷ rest) (first_of-drop k text)

first_of-AllDigits : (k : ℕ) (text : List ℕ) → AllDigits text → AllDigits (first_of k text)
unfolding first_of
first_of-AllDigits zero text all = tt
first_of-AllDigits (suc k) [] all = tt
first_of-AllDigits (suc k) (c ∷ text) all = (all.0, first_of-AllDigits k text all.1)

drop-AllDigits : (k : ℕ) (text : List ℕ) → AllDigits text → AllDigits (drop k text)
drop-AllDigits zero text all = all
drop-AllDigits (suc k) [] all = tt
drop-AllDigits (suc k) (c ∷ text) all = drop-AllDigits k text all.1

-- Four digits behind a number.
number-four : (n : ℕ) (back : List ℕ) → length back ≡ 4 → number n back ≡ n * 10000 + number 0 back
number-four n [] h = absurd (omega arith)
number-four n (a ∷ []) h = absurd (omega arith)
number-four n (a ∷ b ∷ []) h = absurd (omega arith)
number-four n (a ∷ b ∷ c ∷ []) h = absurd (omega arith)
number-four n (a ∷ b ∷ c ∷ d ∷ []) h = omega arith
number-four n (a ∷ b ∷ c ∷ d ∷ e ∷ rest) h = absurd (omega arith)

pub to_string-AllDigits : (n : ℕ) → AllDigits (to_string n)
unfolding to_string
to_string-AllDigits n = digits-AllDigits (suc n) n

-- atoRID reads every RouterID of 64 bits that to_string writes, also one of 2 ^ 63 and more, where atoll
-- alone stops at the bound of `long long`, 2 ^ 63 - 1.
pub ato_rid-to_string :
    (n : ℕ)
    → n < 2 ^ 64
    → (ato_rid (to_string n) ≡ n)
      × (atoll (to_string n) ≡ (if ltb n (2 ^ 63) then pos n else pos (2 ^ 63 - 1)))
unfolding ato_rid atoll to_string
ato_rid-to_string n h =
    let text : List ℕ = digits (suc n) n in
    let all : AllDigits text = digits-AllDigits (suc n) n in
    let k : ℕ = length text - 4 in
    let value : number 0 text ≡ n = number-digits (suc n) n (omega arith) in
    let read : read_int text ≡ pos n = read_int-number text all ∙ ap pos value in
    (
      elim (Bool-cases (ltb (length text) 5)) [
        | inl short ↦
            let small : n < 10000 =
              omega (arith, value, number_small text all (ground (arith, short))) in
            rw (short, read) (ground (arith, small))
        | inr long ↦
            let front : List ℕ = first_of k text in
            let back : List ℕ = drop k text in
            let four : length back ≡ 4 = length-drop k text ∙ ground (arith, long) in
            let digits_back : AllDigits back = drop-AllDigits k text all in
            let small : number 0 back < 10000 =
              number_small back digits_back (omega (arith, four)) in
            let whole : number 0 front * 10000 + number 0 back ≡ n =
              sym (number-four (number 0 front) back four)
              ∙ (sym (number-append_all 0 front back)
                  ∙ (ap (number 0) (first_of-drop k text) ∙ value)) in
            let read_front : atoll front ≡ pos (number 0 front) =
              atoll-number front (first_of-AllDigits k text all) (omega (arith, whole)) in
            let read_back : atoll back ≡ pos (number 0 back) =
              atoll-number back digits_back (omega (arith, small)) in
            rw (long, read_front, read_back) (omega (arith, whole, small))
      ],
      ap saturate read,
    )
