-- ===== src/Routing/LsaDatabase.antt =====
-- src/networkLayerPlus/ndnRouting/model/lsaDatabase/LsaDatabase.cpp: finding, deleting and inserting.
-- The audit events and the log are left out.
pub mod Contents
pub mod Refinement
pub mod Topology
pub mod Routes
use ndn_based_protocol.Prelude.{
  ℕ, Option, none, some, List, [], ◌∷◌, ◌++◌, nat_eq, ◌==◌, if◌then◌else◌,
}
use ndn_based_protocol.Routing.Lsa.{LsaDataPack, adj, rch}

pub record LsaDatabase : Type 0 where
  pub adj_lsa : List LsaDataPack
  pub rch_lsa : List LsaDataPack

-- The loops of findLsa and of deleteLsa over one of the two vectors.
unfoldable pub find_in : ℕ → List LsaDataPack → Option LsaDataPack
find_in id [] = none
find_in id (lsa ∷ rest) =
    let found = find_in id rest in if id == lsa.router_id then some lsa else found

unfoldable pub delete_in : ℕ → List LsaDataPack → List LsaDataPack
delete_in id [] = []
delete_in id (lsa ∷ rest) =
    let others = delete_in id rest in if lsa.router_id == id then rest else lsa ∷ others

-- LsaDatabase::findLsa
unfoldable pub find_lsa : LsaDatabase → ℕ → ℕ → Option LsaDataPack
find_lsa db lsa_type id =
    if lsa_type == adj
    then find_in id db.adj_lsa
    else if lsa_type == rch
    then find_in id db.rch_lsa
    else none

-- LsaDatabase::deleteLsa
unfoldable pub delete_lsa : LsaDatabase → LsaDataPack → LsaDatabase
delete_lsa db lsa =
    if lsa.ls_type == adj
    then record db { adj_lsa = delete_in lsa.router_id db.adj_lsa }
    else if lsa.ls_type == rch
    then record db { rch_lsa = delete_in lsa.router_id db.rch_lsa }
    else db

-- The push_back of insertLsa, and LsaDatabase::insertLsa.
unfoldable pub push_lsa : LsaDatabase → LsaDataPack → LsaDatabase
push_lsa db lsa =
    if lsa.ls_type == adj
    then record db { adj_lsa = db.adj_lsa ++ (lsa ∷ []) }
    else if lsa.ls_type == rch
    then record db { rch_lsa = db.rch_lsa ++ (lsa ∷ []) }
    else db

unfoldable pub insert_lsa : LsaDatabase → LsaDataPack → LsaDatabase
insert_lsa db lsa = push_lsa (delete_lsa db lsa) lsa
