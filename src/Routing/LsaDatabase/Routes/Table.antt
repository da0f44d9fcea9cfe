-- ===== src/Routing/LsaDatabase/Routes/Table.antt =====
-- The routing table after calculateRoutingTable.
use ndn_based_protocol.Prelude.{
  int_eq, ℕ, ◌≡◌, refl, ℤ, Bool, true, none, some, [], ◌∷◌, ◌++◌, arith, Bool-cases, Option-cases,
  Option, inl, inr, ◌∙◌, >>=-some, ap, sym, if◌then◌else◌, nat_eq,
}
use ndn_based_protocol.Prelude.Map.{Map, lookup, erase}
use ndn_based_protocol.Ip.{
  RoutingTableItem, RoutingTable, Command, route_add, route_delete, new_item, has_net,
  get_prefix_length, add_routing_table_item, remove_all_item,
}
use ndn_based_protocol.Ip.Items.{Distinct, others, operations-Distinct, remove_all_item-others}
use ndn_based_protocol.Routing.LsaDatabase.{LsaDatabase}
use ndn_based_protocol.Routing.Graph.ShortestPath.{calculate_shortest_path}
use ndn_based_protocol.Routing.Graph.ShortestPath.Fuel.{calculate_shortest_path-ends}
use ndn_based_protocol.Routing.LsaDatabase.Topology.{no_topology, add_whole_lsas}
use ndn_based_protocol.Routing.LsaDatabase.Routes.{
  RoutingItem, adj_lsa_map, lsa_key, add_routes, insert_list, add_items, calculate_routing_table,
}

others-append_ours :
    (table : RoutingTable) (item : RoutingTableItem)
    → item.from_routing_protocol ≡ true
    → others (table ++ (item ∷ [])) ≡ others table
unfolding others
others-append_ours [] item ours = ground (arith, ours)
others-append_ours (i ∷ table) item ours =
    let rest = others-append_ours table item ours in
    ap (λ (x : RoutingTable). if i.from_routing_protocol then x else i ∷ x) rest

others_twice : (t : RoutingTable) → others (others t) ≡ others t
unfolding others
others_twice [] = refl
others_twice (i ∷ t) =
    let rest = others t in
    elim (Bool-cases i.from_routing_protocol) [
      | inl ours ↦
          ap (λ b. others (if b then rest else i ∷ rest)) ours
          ∙ (others_twice t ∙ ap (λ b. if b then rest else i ∷ rest) (sym ours))
      | inr kept ↦
          ap (λ b. others (if b then rest else i ∷ rest)) kept
          ∙ (ap (λ b. if b then others rest else i ∷ others rest) kept
              ∙ (ap (λ (x : RoutingTable). i ∷ x) (others_twice t)
                  ∙ ap (λ b. if b then rest else i ∷ rest) (sym kept)))
    ]

-- An item of ours that is added leaves the others.
add_ours :
    (run : Command → Bool) (table : RoutingTable) (item : RoutingTableItem)
    → item.from_routing_protocol ≡ true
    → others (add_routing_table_item run table item).1 ≡ others table
unfolding add_routing_table_item
add_ours run table item ours = elim (Bool-cases (has_net item table)) [
  | inl present ↦ rw present refl
  | inr absent ↦
      let command = run (route_add item.destination (get_prefix_length item.mask) item.next_hop) in
      elim (Bool-cases command) [
        | inl succeeded ↦ rw (absent, succeeded) (others-append_ours table item ours)
        | inr failed ↦ rw (absent, failed) refl
      ]
]

add_items-others :
    (run : Command → Bool) (items : Map ℕ RoutingItem) (table : RoutingTable)
    → Distinct table
    → Distinct (add_items run items table) × (others (add_items run items table) ≡ others table)
unfolding add_items
add_items-others run [] table d = (d, refl)
add_items-others run ((network, item) ∷ items) table d =
    let added : RoutingTableItem = record (new_item item.target_ip item.target_mask item.next_hop) {
      from_routing_protocol = true;
    } in
    let (d', same) =
      add_items-others run items (add_routing_table_item run table added).1
        (operations-Distinct run table added d).0 in
    (d', same ∙ add_ours run table added refl)

-- The insert list is computed, or a warning ends the function.
insert_list-ends :
    (junk : ℕ) (db : LsaDatabase) (source : ℕ)
    → (list : Option (Map ℕ RoutingItem)) × (insert_list junk db source ≡ some list)
unfolding insert_list calculate_shortest_path
insert_list-ends junk db source =
    let t = add_whole_lsas db.adj_lsa no_topology in
    elim (Option-cases (lookup source t.router_vertices)) [
      | inl unknown ↦ (none, rw (insert_list, unknown) refl)
      | inr (vertex, known) ↦
          let (g, result, ends) = calculate_shortest_path-ends t.graph vertex.index in
          elim (Option-cases (lookup (lsa_key source) (adj_lsa_map db.adj_lsa []))) [
            | inl no_lsa ↦
                (none, rw (insert_list, known) (>>=-some _ (>>=-some _ ends refl) (rw no_lsa refl)))
            | inr (our_lsa, found) ↦ (
              some (
                  add_routes junk our_lsa (adj_lsa_map db.adj_lsa []) t.vertices
                    (erase vertex.index result) []),
              rw (insert_list, known) (>>=-some _ (>>=-some _ ends refl) (rw found refl)),
            )
          ]
    ]

-- Where the delete commands succeed, calculateRoutingTable ends on every database. A routing table with one
-- item for each network stays so, whichever add commands fail, and the items that the routing protocol did not
-- add stay as they are.
pub calculate_routing_table-others :
    (run : Command → Bool) (junk : ℕ) (db : LsaDatabase) (source : ℕ) (table : RoutingTable)
    → ((dest : ℕ) (prefix : ℤ) → run (route_delete dest prefix) ≡ true)
    → Distinct table
    → (table' : RoutingTable) × (calculate_routing_table run junk db source table ≡ some table')
      × Distinct table'
      × (others table' ≡ others table)
unfolding calculate_routing_table
calculate_routing_table-others run junk db source table succeeds d =
    let (list, ends) = insert_list-ends junk db source in after list ends
  where
    after :
        (list : Option (Map ℕ RoutingItem))
        → insert_list junk db source ≡ some list
        → (table' : RoutingTable) × (calculate_routing_table run junk db source table ≡ some table')
          × Distinct table'
          × (others table' ≡ others table)
    after none ends = (table, >>=-some _ ends refl, d, refl)
    after (some items) ends =
        let (d', same) =
          add_items-others run items (remove_all_item run table)
            (operations-Distinct run table
              (record { destination = 0; mask = 0; next_hop = 0; from_routing_protocol = true })
              d).3 in
        (
          add_items run items (remove_all_item run table),
          >>=-some _ ends refl,
          d',
          same ∙ (ap others (remove_all_item-others run succeeds table d) ∙ others_twice table),
        )
