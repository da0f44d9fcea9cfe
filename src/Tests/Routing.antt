-- ===== src/Tests/Routing.antt =====
-- Link state advertisements, their database and the graph at concrete values.
use ndn_based_protocol.Prelude.{
  ◌↔◌, ◌⊎◌, ℕ, zero, suc, ◌≡◌, refl, ℤ, pos, true, some, List, [], ◌∷◌, ◌++◌, length, arith, nat_eq,
  int_eq,
}
use ndn_based_protocol.Prelude.Map.{Map, lookup}
use ndn_based_protocol.Routing.Lsa.{
  NdnLink, LinkStateDigest, LsaDataPack, encode_lsa, decode_lsa, get_packet_size,
}
use ndn_based_protocol.Routing.Lsa.RoundTrip.{IsLink, IsDigest, IsLsa, decode-encode_lsa}
use ndn_based_protocol.Routing.LsaDatabase.{LsaDatabase, find_in}
use ndn_based_protocol.Routing.LsaDatabase.Contents.{IsDatabase}
use ndn_based_protocol.Routing.Graph.{Graph, edges_of, calculate_min_hop_tree, has_edge}
use ndn_based_protocol.Routing.Graph.Reach.{Reach}
use ndn_based_protocol.Routing.Graph.Cover.{in_tree}
use ndn_based_protocol.Routing.Graph.MinHop.{calculate_min_hop_tree-Reach}

abbrev to_peer : NdnLink
to_peer = record {
  link_type = 1;
  link_id = 12;
  link_data = 3232235777;
  link_data_mask = 4294967040;
  link_cost = 10;
}

abbrev zeros : ℕ → List ℕ
zeros zero = []
zeros (suc n) = 0 ∷ zeros n

abbrev pub our_lsa : LsaDataPack
our_lsa = record {
  ls_type = 0;
  router_id = 11;
  seq_num = 5;
  ls_age = 1;
  number_of_links = 1;
  public_key = zeros 252;
  signature = zeros 128;
  links = to_peer ∷ [];
}

abbrev pub new_lsa : LsaDataPack
new_lsa = record our_lsa { seq_num = 6 }

to_peer-IsLink : IsLink to_peer
to_peer-IsLink = record {
  type = omega arith;
  id = omega arith;
  link_data = omega arith;
  mask = omega arith;
  cost = omega arith;
}

pub our_lsa-IsLsa : IsLsa our_lsa
our_lsa-IsLsa = record {
  small = omega arith;
  type = omega arith;
  id = omega arith;
  seq = omega arith;
  age = omega arith;
  count = omega arith;
  key = refl;
  sign = refl;
  all = (to_peer-IsLink, tt);
}

decode-encode_lsa_example :
    (length (encode_lsa our_lsa) ≡ get_packet_size our_lsa)
    × (decode_lsa
          (record our_lsa { links = [] })
          (encode_lsa our_lsa ++ [])
          (get_packet_size our_lsa)
        ≡ some (record our_lsa { links = [] ++ our_lsa.links }))
decode-encode_lsa_example =
    decode-encode_lsa (record our_lsa { links = [] }) our_lsa [] our_lsa-IsLsa

abbrev pub digest_1 : LinkStateDigest
digest_1 = record { router_id = 11; link_state_type = 0; sequence_num = 5; ls_age = 1 }

abbrev digest_2 : LinkStateDigest
digest_2 = record { router_id = 11; link_state_type = 0; sequence_num = 6; ls_age = 0 }

pub digest_1-IsDigest : IsDigest digest_1
digest_1-IsDigest = record {
  id = omega arith;
  type = omega arith;
  seq = omega arith;
  age = omega arith;
}

digest_2-IsDigest : IsDigest digest_2
digest_2-IsDigest = record {
  id = omega arith;
  type = omega arith;
  seq = omega arith;
  age = omega arith;
}

abbrev pub one_lsa : LsaDatabase
one_lsa = record { adj_lsa = our_lsa ∷ []; rch_lsa = [] }

pub one_lsa-IsDatabase : IsDatabase one_lsa
unfolding find_in
one_lsa-IsDatabase = record {
  adj_unique = (refl, tt);
  rch_unique = tt;
  adj_typed = (refl, tt);
  rch_typed = tt;
}

abbrev pub one_edge : Graph
one_edge =
    (
      pos 1,
      record {
        source = pos 1;
        target = pos 2;
        cost = pos 5;
        next_hop = pos 0;
        nextnext_hop = pos 0;
      }
          ∷ [],
    )
    ∷ []

calculate_min_hop_tree-Reach_example :
    (tree : Map ℤ ℤ) × ((calculate_min_hop_tree one_edge (pos 1)).1 ≡ some tree)
    × ((v : ℤ) → (in_tree v tree ≡ true) ↔ Reach one_edge (pos 1) v)
    × ((v p : ℤ)
        → lookup v tree ≡ some p
        → Reach one_edge (pos 1) p
          × (((v ≡ pos 1) × (p ≡ pos 1)) ⊎ (has_edge v (edges_of one_edge p) ≡ true)))
calculate_min_hop_tree-Reach_example = calculate_min_hop_tree-Reach one_edge (pos 1)
