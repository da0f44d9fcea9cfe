-- ===== src/ContentStore/Queue.antt =====
-- The name queue of the content store bounds it and covers it.
use ndn_based_protocol.Prelude.{
  ℕ, ◌≤◌, ◌+◌, ◌≡◌, Bool, true, false, ◌||◌, some, List, [], ◌∷◌, ◌++◌, ltb, length, bytes_eq,
  arith, length-append, bytes_beq, bytes_beq_iff, refl, ap, ◌<◌, Bool-cases, inl, inr,
}
use ndn_based_protocol.Prelude.Map.{lookup, insert, lookup-insert, lookup-erase}
use ndn_based_protocol.Declaration.{cs_capacity}
use ndn_based_protocol.Packet.{NdnData}
use ndn_based_protocol.ContentStore.{ContentStore, evict, insert_packet}

abbrev pub queued : List ℕ → List (List ℕ) → Bool
queued name [] = false
queued name (n ∷ names) = bytes_beq n name || queued name names

pub record IsCovered (cs : ContentStore) : Type 0 where
  pub bounded : length cs.packet_names ≤ cs_capacity + 1
  pub covered :
      (name : List ℕ) (d : NdnData)
      → lookup name cs.content_map ≡ some d
      → queued name cs.packet_names ≡ true

queued-append :
    (name : List ℕ) (xs ys : List (List ℕ))
    → queued name (xs ++ ys) ≡ (queued name xs || queued name ys)
queued-append name [] ys = refl
queued-append name (x ∷ xs) ys = ground (arith, queued-append name xs ys)

evict-IsCovered :
    (names : List (List ℕ)) (cs : ContentStore)
    → cs.packet_names ≡ names
    → 0 < length names
    → IsCovered cs
    → (length (evict names cs).packet_names ≤ cs_capacity) × IsCovered (evict names cs)
unfolding evict
evict-IsCovered [] cs e p c = elim p [ ]
evict-IsCovered (n ∷ names) cs e p c =
    let small : length names ≤ cs_capacity = omega (arith, ap length e, c.bounded) in
    (
      small,
      record {
        bounded = omega (arith, small);
        covered = λ name d h. ground (
          arith,
          lookup-erase n name cs.content_map,
          c.covered name d,
          bytes_beq_iff n name,
          ap (queued name) e,
        );
      },
    )

push-IsCovered :
    (cs : ContentStore) (d : NdnData)
    → length cs.packet_names ≤ cs_capacity
    → IsCovered cs
    → IsCovered (record cs {
      content_map = insert d.name d cs.content_map;
      packet_names = cs.packet_names ++ (d.name ∷ []);
    })
push-IsCovered cs d small c = record {
  bounded = omega (arith, length-append cs.packet_names (d.name ∷ []));
  covered = λ name x h. ground (
    arith,
    lookup-insert d.name name d cs.content_map,
    c.covered name x,
    queued-append name cs.packet_names (d.name ∷ []),
  );
}

-- insertPacket keeps at most 101 queued names, and every stored packet's name in the queue.
pub insert_packet-IsCovered :
    (cs : ContentStore) (d : NdnData) → IsCovered cs → IsCovered (insert_packet cs d)
unfolding insert_packet
insert_packet-IsCovered cs d c = elim (Bool-cases (ltb cs_capacity (length cs.packet_names))) [
  | inl full ↦
      let (small, c') = evict-IsCovered cs.packet_names cs refl (ground arith) c in
      rw full (push-IsCovered (evict cs.packet_names cs) d small c')
  | inr room ↦ rw room (push-IsCovered cs d (ground arith) c)
]

-- A packet that was just inserted is in the store.
pub lookup-insert_packet :
    (cs : ContentStore) (d : NdnData) → lookup d.name (insert_packet cs d).content_map ≡ some d
unfolding insert_packet
lookup-insert_packet cs d = rw lookup-insert (ground (arith, bytes_beq_iff d.name d.name))
