-- ===== src/Routing/LsaDatabase/Contents.antt =====
-- What the LSA database holds after deleteLsa and insertLsa.
use ndn_based_protocol.Prelude.{
  Bool-cases, inl, inr, ◌∙◌, ℕ, ◌≡◌, refl, false, ◌&&◌, none, some, List, [], ◌∷◌, ◌++◌, All,
  All-append, nat_eq, nat_beq_iff, ◌==◌, if◌then◌else◌, arith, ◌≤◌,
}
use ndn_based_protocol.Routing.Lsa.{LsaDataPack, adj, rch}
use ndn_based_protocol.Routing.LsaDatabase.{
  LsaDatabase, find_in, delete_in, find_lsa, delete_lsa, push_lsa, insert_lsa,
}

-- No two LSAs of a vector are of one router.
abbrev pub Unique : List LsaDataPack → Type 0
Unique [] = Unit
Unique (lsa ∷ rest) = (find_in lsa.router_id rest ≡ none) × Unique rest

-- Each vector has the LSAs of its type, one for each router.
pub record IsDatabase (db : LsaDatabase) : Type 0 where
  pub adj_unique : Unique db.adj_lsa
  pub rch_unique : Unique db.rch_lsa
  pub adj_typed : All (λ (l : LsaDataPack). l.ls_type ≡ adj) db.adj_lsa
  pub rch_typed : All (λ (l : LsaDataPack). l.ls_type ≡ rch) db.rch_lsa

find_in-delete_in :
    (id other : ℕ) (xs : List LsaDataPack)
    → Unique xs
    → find_in other (delete_in id xs) ≡ (if other == id then none else find_in other xs)
unfolding find_in delete_in
find_in-delete_in id other [] u = ground arith
find_in-delete_in id other (x ∷ xs) u = ground (arith, find_in-delete_in id other xs u.1, u.0)

find_in-append_other :
    (id : ℕ) (xs : List LsaDataPack) (lsa : LsaDataPack)
    → (id == lsa.router_id) ≡ false
    → find_in id (xs ++ (lsa ∷ [])) ≡ find_in id xs
unfolding find_in
find_in-append_other id [] lsa h = rw h
find_in-append_other id (x ∷ xs) lsa h = rw (find_in-append_other id xs lsa h)

Unique-delete_in : (id : ℕ) (xs : List LsaDataPack) → Unique xs → Unique (delete_in id xs)
unfolding delete_in
Unique-delete_in id [] u = tt
Unique-delete_in id (x ∷ xs) u =
    ground (arith, Unique-delete_in id xs u.1, find_in-delete_in id x.router_id xs u.1)

Unique-append :
    (xs : List LsaDataPack) (lsa : LsaDataPack)
    → Unique xs
    → find_in lsa.router_id xs ≡ none
    → Unique (xs ++ (lsa ∷ []))
unfolding find_in
Unique-append [] lsa u h = (refl, tt)
Unique-append (x ∷ xs) lsa u h =
    ground (arith, Unique-append xs lsa u.1, find_in-append_other x.router_id xs lsa)

find_in-append :
    (id : ℕ) (xs : List LsaDataPack) (lsa : LsaDataPack)
    → find_in lsa.router_id xs ≡ none
    → find_in id (xs ++ (lsa ∷ [])) ≡ (if id == lsa.router_id then some lsa else find_in id xs)
unfolding find_in
find_in-append id [] lsa h = refl
find_in-append id (x ∷ xs) lsa h =
    ground (arith, find_in-append id xs lsa, find_in-append_other id xs lsa)

All-delete_in :
    (P : LsaDataPack → Type 0) (id : ℕ) (xs : List LsaDataPack) → All P xs → All P (delete_in id xs)
unfolding delete_in
All-delete_in P id [] h = tt
All-delete_in P id (x ∷ xs) h = elim (Bool-cases (x.router_id == id)) [
  | inl same ↦ rw same h.1
  | inr other ↦ rw other (h.0, All-delete_in P id xs h.1)
]

-- In a database with one LSA for each type and router, deleteLsa keeps it so, and removes that of the
-- given type and router only: every other search answers as before.
pub find-delete_lsa :
    (db : LsaDatabase) (lsa : LsaDataPack)
    → IsDatabase db
    → IsDatabase (delete_lsa db lsa)
      × ((type id : ℕ)
          → find_lsa (delete_lsa db lsa) type id
            ≡ (if type == lsa.ls_type && id == lsa.router_id then none else find_lsa db type id))
unfolding find_lsa delete_lsa
find-delete_lsa db lsa h = (
  elim (Bool-cases (lsa.ls_type == adj)) [
    | inl is_adj ↦ rw is_adj (record {
      adj_unique = Unique-delete_in lsa.router_id db.adj_lsa h.adj_unique;
      rch_unique = h.rch_unique;
      adj_typed = All-delete_in _ lsa.router_id db.adj_lsa h.adj_typed;
      rch_typed = h.rch_typed;
    })
    | inr not_adj ↦ rw not_adj (elim (Bool-cases (lsa.ls_type == rch)) [
      | inl is_rch ↦ rw is_rch (record {
        adj_unique = h.adj_unique;
        rch_unique = Unique-delete_in lsa.router_id db.rch_lsa h.rch_unique;
        adj_typed = h.adj_typed;
        rch_typed = All-delete_in _ lsa.router_id db.rch_lsa h.rch_typed;
      })
      | inr not_rch ↦ rw not_rch h
    ])
  ],
  λ type id. ground (
    arith,
    find_in-delete_in lsa.router_id id db.adj_lsa h.adj_unique,
    find_in-delete_in lsa.router_id id db.rch_lsa h.rch_unique,
  ),
)

push_lsa-IsDatabase :
    (db : LsaDatabase) (lsa : LsaDataPack)
    → IsDatabase db
    → find_lsa db lsa.ls_type lsa.router_id ≡ none
    → IsDatabase (push_lsa db lsa)
unfolding find_lsa push_lsa
push_lsa-IsDatabase db lsa h absent = elim (Bool-cases (lsa.ls_type == adj)) [
  | inl is_adj ↦ rw is_adj (record {
    adj_unique = Unique-append db.adj_lsa lsa h.adj_unique (rw is_adj at absent);
    rch_unique = h.rch_unique;
    adj_typed =
        All-append _ db.adj_lsa (lsa ∷ []) h.adj_typed ((nat_beq_iff lsa.ls_type adj).0 is_adj, tt);
    rch_typed = h.rch_typed;
  })
  | inr not_adj ↦ rw not_adj (elim (Bool-cases (lsa.ls_type == rch)) [
    | inl is_rch ↦ rw is_rch (record {
      adj_unique = h.adj_unique;
      rch_unique = Unique-append db.rch_lsa lsa h.rch_unique (rw (not_adj, is_rch) at absent);
      adj_typed = h.adj_typed;
      rch_typed =
          All-append _ db.rch_lsa (lsa ∷ []) h.rch_typed
            ((nat_beq_iff lsa.ls_type rch).0 is_rch, tt);
    })
    | inr not_rch ↦ rw not_rch h
  ])
]

find-push_lsa :
    (db : LsaDatabase) (lsa : LsaDataPack) (type id : ℕ)
    → lsa.ls_type ≤ 1
    → find_lsa db lsa.ls_type lsa.router_id ≡ none
    → find_lsa (push_lsa db lsa) type id
      ≡ (if type == lsa.ls_type && id == lsa.router_id then some lsa else find_lsa db type id)
unfolding find_lsa push_lsa
find-push_lsa db lsa type id valid absent =
    ground (arith, find_in-append id db.adj_lsa lsa, find_in-append id db.rch_lsa lsa)

-- In a database with one LSA for each type and router, insertLsa keeps it so. What is inserted, with one of the two types, is
-- found under its type and router, in place of an older one; every other search answers as before.
pub find-insert_lsa :
    (db : LsaDatabase) (lsa : LsaDataPack)
    → IsDatabase db
    → lsa.ls_type ≤ 1
    → IsDatabase (insert_lsa db lsa)
      × ((type id : ℕ)
          → find_lsa (insert_lsa db lsa) type id ≡ (
              if type == lsa.ls_type && id == lsa.router_id then some lsa else find_lsa db type id))
unfolding insert_lsa
find-insert_lsa db lsa h valid =
    let (kept, found) = find-delete_lsa db lsa h in
    let absent : find_lsa (delete_lsa db lsa) lsa.ls_type lsa.router_id ≡ none =
      found lsa.ls_type lsa.router_id ∙ ground arith in
    (
      push_lsa-IsDatabase (delete_lsa db lsa) lsa kept absent,
      λ type id.
          find-push_lsa (delete_lsa db lsa) lsa type id valid absent
          ∙ rw (found type id) (ground arith),
    )
