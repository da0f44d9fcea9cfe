-- ===== src/Routing/LsaDatabase/Routes/Cheapest.antt =====
-- The insert list of calculateRoutingTable: each network that a reached router advertises, at no more than
-- the cost of its route.
use mathlib.Core.List.{Memᴰ}
use ndn_based_protocol.Prelude.{
  ℕ, ◌≡◌, ℤ, false, some, List, [], ◌∷◌, All, int_eq, nat_eq, nat_beq_iff, ◌==◌, arith, Bool-cases,
  Option-cases, inl, inr, subst, sym,
}
use ndn_based_protocol.Prelude.Map.{Map, lookup, lookup-insert}
use ndn_based_protocol.Routing.Lsa.{NdnLink, LsaDataPack}
use ndn_based_protocol.Routing.Graph.{int_ltb}
use ndn_based_protocol.Routing.Graph.Order.{int_ltb_irrefl, int_ltb_asym, int_ge_trans}
use ndn_based_protocol.Routing.Graph.ShortestPath.{Route}
use ndn_based_protocol.Routing.LsaDatabase.Topology.{Vertex}
use ndn_based_protocol.Routing.LsaDatabase.Routes.{
  RoutingItem, resolve, is_direct, network_of, put_route, add_route, add_target, add_routes,
}

-- The network has an item of at most the cost.
abbrev pub Covered : Map ℕ RoutingItem → ℕ → ℤ → Type 0
Covered items network cost =
    (item : RoutingItem) × (lookup network items ≡ some item) × (int_ltb cost item.cost ≡ false)

add_route-Covered :
    (link : NdnLink) (addr : ℕ) (cost : ℤ) (items : Map ℕ RoutingItem)
    → Covered (add_route link addr cost items) (network_of link) cost
unfolding add_route
add_route-Covered link addr cost items =
    let new : RoutingItem = record {
      target_ip = link.link_data;
      target_mask = link.link_data_mask;
      next_hop = addr;
      cost = cost;
    } in
    let at_ = lookup-insert (network_of link) (network_of link) new items in
    let self = nat_beq_iff (network_of link) (network_of link) in
    let put : Covered (put_route link addr cost items) (network_of link) cost =
      (new, ground (arith, at_, self), int_ltb_irrefl cost) in
    elim (Option-cases (lookup (network_of link) items)) [
      | inl absent ↦ rw (add_route, absent) put
      | inr (item, present) ↦ elim (Bool-cases (int_ltb item.cost cost)) [
        | inl cheaper ↦
            rw (add_route, present, cheaper) (item, present, int_ltb_asym item.cost cost cheaper)
        | inr dearer ↦ rw (add_route, present, dearer) put
      ]
    ]

-- What a network has costs no more after another route.
add_route-keeps :
    (link : NdnLink) (addr : ℕ) (cost : ℤ) (items : Map ℕ RoutingItem) (network : ℕ) (bound : ℤ)
    → Covered items network bound
    → Covered (add_route link addr cost items) network bound
unfolding add_route
add_route-keeps link addr cost items network bound (item, at_network, le) =
    let new : RoutingItem = record {
      target_ip = link.link_data;
      target_mask = link.link_data_mask;
      next_hop = addr;
      cost = cost;
    } in
    let at_ = lookup-insert (network_of link) network new items in
    elim (Bool-cases (network_of link == network)) [
      | inl same ↦
          let is_network : network_of link ≡ network =
            (nat_beq_iff (network_of link) network).0 same in
          let present : lookup (network_of link) items ≡ some item =
            subst (λ n. lookup n items ≡ some item) (sym is_network) at_network in
          elim (Bool-cases (int_ltb item.cost cost)) [
            | inl cheaper ↦ rw (add_route, present, cheaper) (item, at_network, le)
            | inr dearer ↦
                rw (add_route, present, dearer)
                  (new, ground (arith, at_, same), int_ge_trans bound item.cost cost le dearer)
          ]
      | inr other ↦ elim (Option-cases (lookup (network_of link) items)) [
        | inl absent ↦ rw (add_route, absent) (item, ground (arith, at_, other, at_network), le)
        | inr (old, present) ↦ elim (Bool-cases (int_ltb old.cost cost)) [
          | inl cheaper ↦ rw (add_route, present, cheaper) (item, at_network, le)
          | inr dearer ↦
              rw (add_route, present, dearer) (item, ground (arith, at_, other, at_network), le)
        ]
      ]
    ]

add_target-keeps :
    (ours : List NdnLink) (addr : ℕ) (cost : ℤ) (links : List NdnLink) (items : Map ℕ RoutingItem)
    (network : ℕ) (bound : ℤ)
    → Covered items network bound
    → Covered (add_target ours addr cost links items) network bound
unfolding add_target
add_target-keeps ours addr cost [] items network bound c = c
add_target-keeps ours addr cost (link ∷ links) items network bound c =
    add_target-keeps ours addr cost links _ network bound (elim (Bool-cases (is_direct ours link)) [
      | inl direct ↦ rw direct c
      | inr away ↦ rw away (add_route-keeps link addr cost items network bound c)
    ])

-- Every network of the links that is not one of ours has an item of at most the cost.
abbrev pub AllCovered : List NdnLink → ℤ → List NdnLink → Map ℕ RoutingItem → Type 0
AllCovered ours cost links items =
    All (λ (link : NdnLink). is_direct ours link ≡ false → Covered items (network_of link) cost)
      links

add_target-Covered :
    (ours : List NdnLink) (addr : ℕ) (cost : ℤ) (links : List NdnLink) (items : Map ℕ RoutingItem)
    → AllCovered ours cost links (add_target ours addr cost links items)
unfolding add_target
add_target-Covered ours addr cost [] items = tt
add_target-Covered ours addr cost (link ∷ links) items = (
  λ away.
      add_target-keeps ours addr cost links _ (network_of link) cost
        (rw away (add_route-Covered link addr cost items)),
  add_target-Covered ours addr cost links _,
)

AllCovered-later :
    (ours : List NdnLink) (cost : ℤ) (links : List NdnLink) (items later : Map ℕ RoutingItem)
    → ((network : ℕ) → Covered items network cost → Covered later network cost)
    → AllCovered ours cost links items
    → AllCovered ours cost links later
AllCovered-later ours cost [] items later f c = tt
AllCovered-later ours cost (link ∷ links) items later f c =
    (λ away. f (network_of link) (c.0 away), AllCovered-later ours cost links items later f c.1)

module _ (junk : ℕ) (our_lsa : LsaDataPack) (lsas : Map ℕ LsaDataPack)
    (vertices : Map ℤ Vertex) where
  add_routes-keeps :
      (routes : Map ℤ Route) (items : Map ℕ RoutingItem) (network : ℕ) (bound : ℤ)
      → Covered items network bound
      → Covered (add_routes junk our_lsa lsas vertices routes items) network bound
  unfolding add_routes
  add_routes-keeps [] items network bound c = c
  add_routes-keeps (entry ∷ routes) items network bound c =
      add_routes-keeps routes _ network bound
        (elim (Option-cases (resolve junk our_lsa lsas vertices entry.0 entry.1)) [
          | inl skipped ↦ rw skipped c
          | inr ((target, addr), found) ↦
              rw found (
                add_target-keeps our_lsa.links addr entry.1.cost target.links items network bound c)
        ])

  -- A target that has a route and passes the tests of calculateRoutingTable has each network of its links
  -- covered.
  pub add_routes-Covered :
      (routes : Map ℤ Route) (items : Map ℕ RoutingItem) (entry : ℤ × Route) (target : LsaDataPack)
      (addr : ℕ)
      → Memᴰ entry routes
      → resolve junk our_lsa lsas vertices entry.0 entry.1 ≡ some (target, addr)
      → AllCovered our_lsa.links entry.1.cost target.links
          (add_routes junk our_lsa lsas vertices routes items)
  unfolding add_routes
  add_routes-Covered [] items e target addr reached found = elim reached [ ]
  add_routes-Covered (entry ∷ routes) items e target addr (Memᴰ.head is_entry) found =
      let first : resolve junk our_lsa lsas vertices entry.0 entry.1 ≡ some (target, addr) =
        subst (λ (x : ℤ × Route). resolve junk our_lsa lsas vertices x.0 x.1 ≡ some (target, addr))
          is_entry found in
      rw first (
        AllCovered-later our_lsa.links e.1.cost target.links _ _
          (λ network c. add_routes-keeps routes _ network e.1.cost c)
          (subst
            (λ (r : ℤ × Route).
              AllCovered our_lsa.links r.1.cost target.links
                (add_target our_lsa.links addr entry.1.cost target.links items))
            (sym is_entry) (add_target-Covered our_lsa.links addr entry.1.cost target.links items)))
  add_routes-Covered (entry ∷ routes) items e target addr (Memᴰ.tail later) found =
      add_routes-Covered routes _ e target addr later found
