-- ===== src/Routing/DatabaseHash.antt =====
-- src/networkLayerPlus/ndnRouting/model/lsaDatabase/LsaDatabase.cpp: databaseHash. `hash` is what the MD5 hasher
-- makes of all that was put in, one after another.
pub mod AnyOrder
use ndn_based_protocol.Prelude.{
  ℕ, Bool, true, false, List, [], ◌∷◌, ◌++◌, ltb, nat_eq, ◌==◌, if◌then◌else◌,
}
use ndn_based_protocol.Util.{codes}
use ndn_based_protocol.Routing.Lsa.{LsaDataPack, generate_ls_digest}
use ndn_based_protocol.Routing.LsaDatabase.{LsaDatabase}
use ndn_based_protocol.Routing.PacketName.{digest_name}

-- "LSA/<type>/<router id>/<sequence number>"
abbrev pub hashed_name : LsaDataPack → List ℕ
hashed_name lsa = codes "LSA/" ++ digest_name (generate_ls_digest lsa)

unfoldable pub hashed_names : List LsaDataPack → List (List ℕ)
hashed_names [] = []
hashed_names (lsa ∷ lsas) = hashed_name lsa ∷ hashed_names lsas

-- a <= b for strings
unfoldable pub string_leb : List ℕ → List ℕ → Bool
string_leb [] b = true
string_leb (c ∷ a) [] = false
string_leb (c ∷ a) (d ∷ b) =
    let rest = string_leb a b in if ltb c d then true else if c == d then rest else false

-- std::sort
unfoldable pub place_name : List ℕ → List (List ℕ) → List (List ℕ)
place_name name [] = name ∷ []
place_name name (n ∷ names) =
    let rest = place_name name names in if string_leb name n then name ∷ n ∷ names else n ∷ rest

unfoldable pub sort_names : List (List ℕ) → List (List ℕ)
sort_names [] = []
sort_names (n ∷ names) = place_name n (sort_names names)

unfoldable pub joined : List (List ℕ) → List ℕ
joined [] = []
joined (n ∷ names) = n ++ joined names

-- LsaDatabase::databaseHash
unfoldable pub database_hash : (List ℕ → List ℕ) → LsaDatabase → List ℕ
database_hash hash db =
    hash (joined (sort_names (hashed_names db.adj_lsa ++ hashed_names db.rch_lsa)))
