-- ===== src/Routing/DatabaseHash/AnyOrder.antt =====
-- The hash of a database does not depend on the order of its LSAs.
use mathlib.Core.Logic.{∥∥₁_elim}
use mathlib.Core.List.{Perm, Permᴰ, append-nil}
use ndn_based_protocol.Prelude.{
  ℕ, ◌≡◌, refl, true, false, List, [], ◌∷◌, ◌++◌, nat_eq, nat_beq_iff, arith, Bool-cases, inl, inr,
  ◌∙◌, ap, subst,
}
use ndn_based_protocol.Routing.Lsa.{LsaDataPack}
use ndn_based_protocol.Routing.LsaDatabase.{LsaDatabase}
use ndn_based_protocol.Routing.DatabaseHash.{
  hashed_names, string_leb, place_name, sort_names, joined, database_hash,
}

string_leb_total : (a b : List ℕ) → string_leb a b ≡ false → string_leb b a ≡ true
unfolding string_leb
string_leb_total [] b h = cc
string_leb_total (c ∷ a) [] h = refl
string_leb_total (c ∷ a) (d ∷ b) h =
    ground (arith, string_leb_total a b, nat_beq_iff c d, nat_beq_iff d c, h)

string_leb_antisym : (a b : List ℕ) → string_leb a b ≡ true → string_leb b a ≡ true → a ≡ b
unfolding string_leb
string_leb_antisym [] [] h k = refl
string_leb_antisym [] (d ∷ b) h k = cc
string_leb_antisym (c ∷ a) [] h k = cc
string_leb_antisym (c ∷ a) (d ∷ b) h k =
    ground (arith, string_leb_antisym a b, nat_beq_iff c d, nat_beq_iff d c, h, k)

string_leb_trans :
    (a b c : List ℕ) → string_leb a b ≡ true → string_leb b c ≡ true → string_leb a c ≡ true
unfolding string_leb
string_leb_trans [] b c h k = refl
string_leb_trans (x ∷ a) [] c h k = cc
string_leb_trans (x ∷ a) (y ∷ b) [] h k = cc
string_leb_trans (x ∷ a) (y ∷ b) (z ∷ c) h k =
    ground (arith, string_leb_trans a b c, nat_beq_iff x y, nat_beq_iff y z, nat_beq_iff x z, h, k)

-- A name that is placed behind the first is not placed before one that is before the first.
not_before :
    (a b n : List ℕ) → string_leb a n ≡ true → string_leb b n ≡ false → string_leb b a ≡ false
not_before a b n le gt = elim (Bool-cases (string_leb b a)) [
  | inl h ↦ absurd (ground (arith, string_leb_trans b a n h le, gt))
  | inr h ↦ h
]

place_name_same :
    (a b : List ℕ) (names : List (List ℕ))
    → a ≡ b
    → place_name a (place_name b names) ≡ place_name b (place_name a names)
place_name_same a b names e = rw e

place_name_comm :
    (a b : List ℕ) (names : List (List ℕ))
    → place_name a (place_name b names) ≡ place_name b (place_name a names)
unfolding place_name
place_name_comm a b [] = elim (Bool-cases (string_leb a b)) [
  | inl le ↦ elim (Bool-cases (string_leb b a)) [
    | inl ge ↦ rw (string_leb_antisym a b le ge)
    | inr gt ↦ rw (place_name, le, gt)
  ]
  | inr gt ↦ rw (place_name, gt, string_leb_total a b gt)
]
place_name_comm a b (n ∷ names) =
    let rest = place_name_comm a b names in
    elim (Bool-cases (string_leb a n)) [
      | inl a_first ↦ elim (Bool-cases (string_leb b n)) [
        | inl b_first ↦ elim (Bool-cases (string_leb a b)) [
          | inl le ↦ elim (Bool-cases (string_leb b a)) [
            | inl ge ↦ place_name_same a b (n ∷ names) (string_leb_antisym a b le ge)
            | inr gt ↦ ground (arith, a_first, b_first, le, gt)
          ]
          | inr gt ↦ ground (arith, a_first, b_first, gt, string_leb_total a b gt)
        ]
        | inr b_later ↦ ground (arith, a_first, b_later, not_before a b n a_first b_later)
      ]
      | inr a_later ↦ elim (Bool-cases (string_leb b n)) [
        | inl b_first ↦ ground (arith, a_later, b_first, not_before b a n b_first a_later)
        | inr b_later ↦ ground (arith, a_later, b_later, rest)
      ]
    ]

-- Permuted LSAs, before other names.
sort_names-swap :
    {l m : List LsaDataPack}
    → Permᴰ l m
    → (behind : List (List ℕ))
    → sort_names (hashed_names l ++ behind) ≡ sort_names (hashed_names m ++ behind)
unfolding hashed_names sort_names
sort_names-swap Permᴰ.nil behind = refl
sort_names-swap (Permᴰ.cons e p) behind = rw e (ap (place_name _) (sort_names-swap p behind))
sort_names-swap (Permᴰ.swap e1 e2) behind = rw (e1, e2) (place_name_comm _ _ _)
sort_names-swap (Permᴰ.trans p q) behind = sort_names-swap p behind ∙ sort_names-swap q behind

sort_names-append_cong :
    (front : List (List ℕ)) (a b : List (List ℕ))
    → sort_names a ≡ sort_names b
    → sort_names (front ++ a) ≡ sort_names (front ++ b)
unfolding sort_names
sort_names-append_cong [] a b e = e
sort_names-append_cong (n ∷ front) a b e = ap (place_name n) (sort_names-append_cong front a b e)

-- Databases with the same LSAs, in whatever order, have the same hash.
pub database_hash-Perm :
    (hash : List ℕ → List ℕ) (db db' : LsaDatabase)
    → Perm db.adj_lsa db'.adj_lsa
    → Perm db.rch_lsa db'.rch_lsa
    → database_hash hash db ≡ database_hash hash db'
unfolding database_hash
database_hash-Perm hash db db' adj_perm rch_perm =
    ap (λ names. hash (joined names))
      (∥∥₁_elim adj_perm (names_set _ _) (λ p. sort_names-swap p (hashed_names db.rch_lsa))
        ∙ ∥∥₁_elim rch_perm (names_set _ _)
            (λ p. sort_names-append_cong (hashed_names db'.adj_lsa) _ _ (same_rch p)))
  where
    names_set : IsSet (List (List ℕ))
    names_set = hlevel

    same_rch :
        Permᴰ db.rch_lsa db'.rch_lsa
        → sort_names (hashed_names db.rch_lsa) ≡ sort_names (hashed_names db'.rch_lsa)
    same_rch p =
        subst (λ (x : List (List ℕ)). sort_names x ≡ sort_names (hashed_names db'.rch_lsa))
          (append-nil _)
          (subst (λ (x : List (List ℕ)). sort_names (hashed_names db.rch_lsa ++ []) ≡ sort_names x)
            (append-nil _) (sort_names-swap p []))
