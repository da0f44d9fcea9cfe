-- ===== src/Prelude/Lists.antt =====
-- Lists measured by native numbers, predicates over them, and the option monad.
use Prim.Native.Nat.{ℕ, ◌-◌, ◌≤◌, zero, suc, ◌+◌}
use mathlib.Core.Path.{◌≡◌, refl}
use mathlib.Core.List.{List, [], ◌∷◌, ◌++◌}
use mathlib.Core.Option.{Option, none, some}
use native.Mathlib.Omega.{arith}

module _ {ℓ} {A : Type ℓ} where
  abbrev pub length : List A → ℕ
  length [] = 0
  length (x ∷ xs) = suc (length xs)

  abbrev pub drop : ℕ → List A → List A
  drop zero xs = xs
  drop (suc n) [] = []
  drop (suc n) (x ∷ xs) = drop n xs

  abbrev pub get_elem? : List A → ℕ → Option A
  get_elem? [] i = none
  get_elem? (x ∷ xs) zero = some x
  get_elem? (x ∷ xs) (suc i) = get_elem? xs i

  -- The first `n` items, or nothing where there are fewer.
  pub take_exact : ℕ → List A → Option (List A)
  take_exact zero xs = some []
  take_exact (suc n) [] = none
  take_exact (suc n) (x ∷ xs) = elim (take_exact n xs) [ none ↦ none | some ys ↦ some (x ∷ ys) ]

  pub length-append : (xs ys : List A) → length (xs ++ ys) ≡ length xs + length ys
  length-append [] ys = omega arith
  length-append (x ∷ xs) ys = omega (arith, length-append xs ys)

  pub drop-length_append : (xs ys : List A) → drop (length xs) (xs ++ ys) ≡ ys
  drop-length_append [] ys = refl
  drop-length_append (x ∷ xs) ys = drop-length_append xs ys

  pub drop-append : (n : ℕ) (xs ys : List A) → n ≡ length xs → drop n (xs ++ ys) ≡ ys
  drop-append n xs ys e = rw e (drop-length_append xs ys)

  pub drop-past : (xs : List A) (y : A) (ys : List A) → drop (suc (length xs)) (xs ++ (y ∷ ys)) ≡ ys
  drop-past [] y ys = refl
  drop-past (x ∷ xs) y ys = drop-past xs y ys

  pub drop-all : (n : ℕ) (xs : List A) → length xs ≤ n → drop n xs ≡ []
  drop-all zero [] h = refl
  drop-all zero (x ∷ xs) h = absurd (omega arith)
  drop-all (suc n) [] h = refl
  drop-all (suc n) (x ∷ xs) h = drop-all n xs (omega arith)

  pub length-drop : (n : ℕ) (xs : List A) → length (drop n xs) ≡ length xs - n
  length-drop zero xs = omega arith
  length-drop (suc n) [] = omega arith
  length-drop (suc n) (x ∷ xs) = omega (arith, length-drop n xs)

  pub take_exact-append : (xs ys : List A) → take_exact (length xs) (xs ++ ys) ≡ some xs
  unfolding take_exact
  take_exact-append [] ys = refl
  take_exact-append (x ∷ xs) ys = rw (take_exact-append xs ys)

  pub take_exact_self : (xs : List A) → take_exact (length xs) xs ≡ some xs
  unfolding take_exact
  take_exact_self [] = refl
  take_exact_self (x ∷ xs) = rw (take_exact_self xs)

  pub take_exact-total :
      (n : ℕ) (xs : List A) → n ≤ length xs → (ys : List A) × (take_exact n xs ≡ some ys)
  unfolding take_exact
  take_exact-total zero xs h = ([], refl)
  take_exact-total (suc n) [] h = absurd (omega arith)
  take_exact-total (suc n) (x ∷ xs) h =
      let (ys, e) = take_exact-total n xs (omega arith) in (x ∷ ys, rw e)

  pub length-take_exact :
      (n : ℕ) (xs : List A) {ys : List A} → take_exact n xs ≡ some ys → length ys ≡ n
  unfolding take_exact
  length-take_exact zero xs e = ground arith
  length-take_exact (suc n) [] e = cc
  length-take_exact (suc n) (x ∷ xs) e =
      take_tail (take_exact n xs) (λ zs. length-take_exact n xs) e
    where
      take_tail :
          (o : Option (List A))
          → ((zs : List A) → o ≡ some zs → length zs ≡ n)
          → {ys : List A} → elim o [ none ↦ none | some zs ↦ some (x ∷ zs) ] ≡ some ys
          → length ys ≡ suc n
      take_tail none h p = cc
      take_tail (some zs) h p = ground (arith, h zs refl)

abbrev pub All {ℓ κ} : {K : Type ℓ} → (K → Type κ) → List K → Type κ
All Holds [] = Unit
All Holds (first ∷ others) = Holds first × All Holds others

pub All-append {ℓ κ} :
    {K : Type ℓ} (Holds : K → Type κ) (left right : List K)
    → All Holds left
    → All Holds right
    → All Holds (left ++ right)
All-append Holds [] right l r = r
All-append Holds (first ∷ others) right l r = (l.0, All-append Holds others right l.1 r)

-- The option monad: `none` is a fault of the program.
infixl 5 ◌>>=◌
abbrev pub ◌>>=◌ {ℓ κ} : {A : Type ℓ} {B : Type κ} → Option A → (A → Option B) → Option B
none >>= f = none
some a >>= f = f a

-- Inversion of a bind that succeeds.
pub >>=-eq-some {ℓ κ} :
    {A : Type ℓ} {B : Type κ} (m : Option A) (f : A → Option B) {b : B}
    → (m >>= f) ≡ some b
    → (a : A) × (m ≡ some a) × (f a ≡ some b)
>>=-eq-some none f h = cc
>>=-eq-some (some a) f h = (a, refl, h)

-- A bind goes on with the value of its first step.
pub >>=-some {ℓ κ} :
    {A : Type ℓ} {B : Type κ} (f : A → Option B) {m : Option A} {a : A} {r : Option B}
    → m ≡ some a
    → f a ≡ r
    → (m >>= f) ≡ r
>>=-some f e h = rw e h
