-- ===== src/Ip/Items.antt =====
-- The items of the routing table: one for each network, and what the routing protocol removes.
use ndn_based_protocol.Prelude.{
  ℕ, ◌≡◌, refl, Bool, true, false, [], ◌∷◌, ◌++◌, nat_eq, nat_beq_iff, arith, Bool-cases, inl, inr,
  if◌then◌else◌, ◌⊎◌, ℤ, ◌∙◌, sym, ap, subst,
}
use mathlib.Core.List.{append_assoc}
use ndn_based_protocol.Ip.{
  RoutingTableItem, RoutingTable, Command, route_add, route_delete, same_net, has_net, erase_net,
  get_prefix_length, add_routing_table_item, delete_routing_table_item, remove_items,
  remove_all_item,
}

-- No two items have the same network.
abbrev pub Distinct : RoutingTable → Type 0
Distinct [] = Unit
Distinct (i ∷ table) = (has_net i table ≡ false) × Distinct table

-- The items that the routing protocol did not add.
unfoldable pub others : RoutingTable → RoutingTable
others [] = []
others (i ∷ table) = let rest = others table in if i.from_routing_protocol then rest else i ∷ rest

same_net_comm : (i j : RoutingTableItem) → same_net i j ≡ same_net j i
same_net_comm i j = ground (
  arith,
  nat_beq_iff i.destination j.destination,
  nat_beq_iff j.destination i.destination,
  nat_beq_iff i.mask j.mask,
  nat_beq_iff j.mask i.mask,
)

has_net-append :
    (item : RoutingTableItem) (xs ys : RoutingTable)
    → has_net item (xs ++ ys) ≡ (if has_net item xs then true else has_net item ys)
unfolding has_net
has_net-append item [] ys = refl
has_net-append item (x ∷ xs) ys = ground (arith, has_net-append item xs ys)

-- Where the networks are distinct, no item before `i` has its network.
Distinct-before :
    (done : RoutingTable) (i : RoutingTableItem) (rest : RoutingTable)
    → Distinct (done ++ (i ∷ rest))
    → has_net i done ≡ false
unfolding has_net
Distinct-before [] i rest d = refl
Distinct-before (x ∷ done) i rest d = ground (
  arith,
  Distinct-before done i rest d.1,
  has_net-append x done (i ∷ rest),
  d.0,
  same_net_comm x i,
)

has_net_self : (i : RoutingTableItem) (rest : RoutingTable) → has_net i (i ∷ rest) ≡ true
unfolding has_net
has_net_self i rest =
    ground (arith, nat_beq_iff i.destination i.destination, nat_beq_iff i.mask i.mask)

erase_net-append :
    (done : RoutingTable) (i : RoutingTableItem) (rest : RoutingTable)
    → has_net i done ≡ false
    → erase_net i (done ++ (i ∷ rest)) ≡ done ++ rest
unfolding has_net erase_net
erase_net-append [] i rest h =
    ground (arith, nat_beq_iff i.destination i.destination, nat_beq_iff i.mask i.mask)
erase_net-append (x ∷ done) i rest h = ground (arith, erase_net-append done i rest, h)

has_net-erase_net :
    (item i : RoutingTableItem) (table : RoutingTable)
    → has_net item table ≡ false
    → has_net item (erase_net i table) ≡ false
unfolding has_net erase_net
has_net-erase_net item i [] h = refl
has_net-erase_net item i (x ∷ table) h = ground (arith, has_net-erase_net item i table, h)

Distinct-erase_net :
    (i : RoutingTableItem) (table : RoutingTable) → Distinct table → Distinct (erase_net i table)
unfolding erase_net
Distinct-erase_net i [] d = tt
Distinct-erase_net i (x ∷ table) d = elim (Bool-cases (same_net x i)) [
  | inl same ↦ rw same d.1
  | inr other ↦ rw other (has_net-erase_net x i table d.0, Distinct-erase_net i table d.1)
]

Distinct-append :
    (table : RoutingTable) (i : RoutingTableItem)
    → Distinct table
    → has_net i table ≡ false
    → Distinct (table ++ (i ∷ []))
unfolding has_net
Distinct-append [] i d h = (refl, tt)
Distinct-append (x ∷ table) i d h = (
  ground (arith, has_net-append x table (i ∷ []), same_net_comm x i, d.0, h),
  Distinct-append table i d.1 (ground (arith, h)),
)

module _ (run : Command → Bool) where
  delete-Distinct :
      (table : RoutingTable) (i : RoutingTableItem)
      → Distinct table
      → Distinct (delete_routing_table_item run table i).1
  unfolding delete_routing_table_item
  delete-Distinct table i d = ground (arith, d, Distinct-erase_net i table d)

  remove_items-Distinct :
      (copy table : RoutingTable) → Distinct table → Distinct (remove_items run copy table)
  unfolding remove_items
  remove_items-Distinct [] table d = d
  remove_items-Distinct (i ∷ copy) table d =
      remove_items-Distinct copy _ (ground (arith, d, delete-Distinct table i d))

  -- A routing table with one item for each network stays so, whichever commands fail: when an item is added,
  -- which leaves the table as it is or puts the item behind the others, and this only where its network
  -- is not there yet; when one is deleted; and when those of the routing protocol are removed.
  pub operations-Distinct :
      (table : RoutingTable) (item : RoutingTableItem)
      → Distinct table
      → Distinct (add_routing_table_item run table item).1
        × (((add_routing_table_item run table item).1 ≡ table)
            ⊎ ((has_net item table ≡ false)
                × ((add_routing_table_item run table item).1 ≡ table ++ (item ∷ []))))
        × Distinct (delete_routing_table_item run table item).1
        × Distinct (remove_all_item run table)
  unfolding add_routing_table_item remove_all_item
  operations-Distinct table item d = (
    ground (arith, d, Distinct-append table item d),
    elim (Bool-cases (has_net item table)) [
      | inl there ↦ inl (rw (add_routing_table_item, there))
      | inr new ↦
          elim (Bool-cases
            (run (route_add item.destination (get_prefix_length item.mask) item.next_hop))) [
              | inl added ↦ inr (new, rw (add_routing_table_item, new, added))
              | inr failed ↦ inl (rw (add_routing_table_item, new, failed))
            ]
    ],
    delete-Distinct table item d,
    remove_items-Distinct table table d,
  )

  module _ (succeeds : (dest : ℕ) (prefix : ℤ) → run (route_delete dest prefix) ≡ true) where
    remove_items-others :
        (copy done : RoutingTable)
        → Distinct (done ++ copy)
        → remove_items run copy (done ++ copy) ≡ done ++ others copy
    unfolding remove_items others delete_routing_table_item
    remove_items-others [] done d = refl
    remove_items-others (i ∷ copy) done d =
        let table : RoutingTable = done ++ (i ∷ copy) in
        let after : Bool → RoutingTable = λ ours.
          remove_items run copy
            (if ours then (delete_routing_table_item run table i).1 else table) in
        let left : Bool → RoutingTable =
          λ ours. done ++ (if ours then others copy else i ∷ others copy) in
        elim (Bool-cases i.from_routing_protocol) [
          | inl ours ↦
              let before : has_net i done ≡ false = Distinct-before done i copy d in
              let erased : erase_net i table ≡ done ++ copy = erase_net-append done i copy before in
              let present : has_net i table ≡ true =
                has_net-append i done (i ∷ copy) ∙ rw before (has_net_self i copy) in
              let deleted : (delete_routing_table_item run table i).1 ≡ done ++ copy =
                rw (present, succeeds i.destination (get_prefix_length i.mask)) erased in
              let kept : Distinct (done ++ copy) = rw erased at (Distinct-erase_net i table d) in
              ap after ours
              ∙ (ap (remove_items run copy) deleted
                  ∙ (remove_items-others copy done kept ∙ ap left (sym ours)))
          | inr kept ↦
              let shift : (done ++ (i ∷ [])) ++ copy ≡ table = append_assoc done (i ∷ []) copy in
              let d' : Distinct ((done ++ (i ∷ [])) ++ copy) = subst Distinct (sym shift) d in
              ap after kept
              ∙ (ap (remove_items run copy) (sym shift)
                  ∙ (remove_items-others copy (done ++ (i ∷ [])) d'
                      ∙ (append_assoc done (i ∷ []) (others copy) ∙ ap left (sym kept))))
        ]

    -- Where the networks are distinct and the delete commands succeed, removeAllItem leaves exactly the
    -- items that the routing protocol did not add, in their order.
    pub remove_all_item-others :
        (table : RoutingTable) → Distinct table → remove_all_item run table ≡ others table
    unfolding remove_all_item
    remove_all_item-others table d = remove_items-others table [] d
