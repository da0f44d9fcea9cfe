-- ===== src/Routing/LsaDatabase/Refinement.antt =====
-- The LSA database as a map from the type and the router to the LSA.
use mathlib.Core.Path.{fun_ext}
use ndn_based_protocol.Prelude.{
  ℕ, ◌≡◌, refl, ◌&&◌, ◌∙◌, Option, none, some, List, [], ◌∷◌, All, nat_eq, ◌==◌, if◌then◌else◌, ◌≤◌,
}
use ndn_based_protocol.Routing.Lsa.{LsaDataPack}
use ndn_based_protocol.Routing.LsaDatabase.{LsaDatabase, find_lsa, delete_lsa, insert_lsa}
use ndn_based_protocol.Routing.LsaDatabase.Contents.{IsDatabase, find-insert_lsa, find-delete_lsa}

-- A call of insertLsa or of deleteLsa.
pub data Operation : Type 0 where
  inserting : LsaDataPack → Operation
  deleting : LsaDataPack → Operation

abbrev pub LsaTable : Type 0
LsaTable = ℕ → ℕ → Option LsaDataPack

abbrev pub update : LsaDataPack → Option LsaDataPack → LsaTable → LsaTable
update lsa value table type id =
    if type == lsa.ls_type && id == lsa.router_id then value else table type id

-- An inserted LSA has one of the two types.
abbrev pub IsTyped : Operation → Type 0
IsTyped (inserting lsa) = lsa.ls_type ≤ 1
IsTyped (deleting lsa) = Unit

unfoldable pub run : List Operation → LsaDatabase → LsaDatabase
run [] db = db
run (inserting lsa ∷ ops) db = run ops (insert_lsa db lsa)
run (deleting lsa ∷ ops) db = run ops (delete_lsa db lsa)

-- The same calls on a map.
unfoldable pub replay : List Operation → LsaTable → LsaTable
replay [] table = table
replay (inserting lsa ∷ ops) table = replay ops (update lsa (some lsa) table)
replay (deleting lsa ∷ ops) table = replay ops (update lsa none table)

table_ext : (s t : LsaTable) → ((type id : ℕ) → s type id ≡ t type id) → s ≡ t
table_ext s t h = fun_ext (λ type. fun_ext (h type))

-- From a database with one LSA for each type and router, any sequence of insertLsa, with one of the
-- two types, and deleteLsa ends in such a database. findLsa then answers as a map from the type and the
-- router does after the same updates.
pub run-refines :
    (ops : List Operation) (db : LsaDatabase)
    → IsDatabase db
    → All IsTyped ops
    → IsDatabase (run ops db) × (find_lsa (run ops db) ≡ replay ops (find_lsa db))
unfolding run replay
run-refines [] db h typed = (h, refl)
run-refines (inserting lsa ∷ ops) db h typed =
    let (kept, found) = find-insert_lsa db lsa h typed.0 in
    let (all_kept, same) = run-refines ops (insert_lsa db lsa) kept typed.1 in
    (all_kept, same ∙ rw (table_ext (find_lsa (insert_lsa db lsa)) _ found))
run-refines (deleting lsa ∷ ops) db h typed =
    let (kept, found) = find-delete_lsa db lsa h in
    let (all_kept, same) = run-refines ops (delete_lsa db lsa) kept typed.1 in
    (all_kept, same ∙ rw (table_ext (find_lsa (delete_lsa db lsa)) _ found))
