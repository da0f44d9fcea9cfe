-- ===== src/ContentStore.antt =====
-- src/networkLayer/ndn/component/cs/ContentStore.{h,cpp}.
pub mod Queue
use ndn_based_protocol.Prelude.{
  ℕ, Option, none, some, List, [], ◌∷◌, ◌++◌, ltb, length, bytes_eq, if◌then◌else◌, ◌+◌,
}
use ndn_based_protocol.Prelude.Map.{Map, insert, erase}
use ndn_based_protocol.Declaration.{cs_capacity}
use ndn_based_protocol.Packet.{NdnData}

pub record ContentStore : Type 0 where
  pub content_map : Map (List ℕ) NdnData
  pub packet_names : List (List ℕ)

abbrev pub empty : ContentStore
empty = record { content_map = []; packet_names = [] }

-- The removal of the oldest name; on an empty queue, which the guard excludes, nothing is removed.
unfoldable pub evict : List (List ℕ) → ContentStore → ContentStore
evict [] cs = cs
evict (oldest ∷ names) cs = record cs {
  content_map = erase oldest cs.content_map;
  packet_names = names;
}

-- ContentStore::insertPacket
unfoldable pub insert_packet : ContentStore → NdnData → ContentStore
unfolding evict
insert_packet cs d =
    let cs' = if ltb cs_capacity (length cs.packet_names) then evict cs.packet_names cs else cs in
    record cs' {
      content_map = insert d.name d cs'.content_map;
      packet_names = cs'.packet_names ++ (d.name ∷ []);
    }

-- ContentStore::contentHit, whose search is commented out.
unfoldable pub content_hit : ContentStore → List ℕ → Option NdnData
content_hit cs name = none
