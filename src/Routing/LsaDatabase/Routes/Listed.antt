-- ===== src/Routing/LsaDatabase/Routes/Listed.antt =====
-- The insert list of calculateRoutingTable holds what the reached routers advertise, each network at the least
-- cost.
use mathlib.Core.List.{Memᴰ}
use ndn_based_protocol.Prelude.{
  ℕ, ◌≡◌, refl, ℤ, false, some, List, [], ◌∷◌, int_eq, nat_eq, nat_beq_iff, ◌==◌, arith, Bool-cases,
  Option-cases, inl, inr, subst, sym,
}
use ndn_based_protocol.Prelude.Map.{Map, lookup, lookup-insert}
use ndn_based_protocol.Routing.Lsa.{NdnLink, LsaDataPack}
use ndn_based_protocol.Routing.Graph.{int_ltb}
use ndn_based_protocol.Routing.Graph.ShortestPath.{Route}
use ndn_based_protocol.Routing.LsaDatabase.Topology.{Vertex}
use ndn_based_protocol.Routing.LsaDatabase.Routes.{
  RoutingItem, resolve, is_direct, network_of, put_route, add_route, add_target, add_routes,
}
use ndn_based_protocol.Routing.LsaDatabase.Routes.Cheapest.{Covered, AllCovered, add_routes-Covered}

abbrev pub item_of : NdnLink → ℕ → ℤ → RoutingItem
item_of link addr cost = record {
  target_ip = link.link_data;
  target_mask = link.link_data_mask;
  next_hop = addr;
  cost = cost;
}

-- Each item of the list has the property.
abbrev Sound : (ℕ → RoutingItem → Type 0) → Map ℕ RoutingItem → Type 0
Sound P items =
    (network : ℕ) (item : RoutingItem) → lookup network items ≡ some item → P network item

module _ (P : ℕ → RoutingItem → Type 0) where
  put_route-Sound :
      (link : NdnLink) (addr : ℕ) (cost : ℤ) (items : Map ℕ RoutingItem)
      → Sound P items
      → P (network_of link) (item_of link addr cost)
      → Sound P (put_route link addr cost items)
  put_route-Sound link addr cost items h new network item e =
      let at_ = lookup-insert (network_of link) network (item_of link addr cost) items in
      elim (Bool-cases (network_of link == network)) [
        | inl same ↦
            let is_network : network_of link ≡ network =
              (nat_beq_iff (network_of link) network).0 same in
            let is_item : item_of link addr cost ≡ item = ground (arith, at_, same, e) in
            subst (λ (n : ℕ). P n item) is_network
              (subst (λ (i : RoutingItem). P (network_of link) i) is_item new)
        | inr other ↦ h network item (ground (arith, at_, other, e))
      ]

  add_route-Sound :
      (link : NdnLink) (addr : ℕ) (cost : ℤ) (items : Map ℕ RoutingItem)
      → Sound P items
      → P (network_of link) (item_of link addr cost)
      → Sound P (add_route link addr cost items)
  unfolding add_route
  add_route-Sound link addr cost items h new =
      elim (Option-cases (lookup (network_of link) items)) [
        | inl absent ↦ rw (add_route, absent) (put_route-Sound link addr cost items h new)
        | inr (item, present) ↦ elim (Bool-cases (int_ltb item.cost cost)) [
          | inl cheaper ↦ rw (add_route, present, cheaper) h
          | inr dearer ↦
              rw (add_route, present, dearer) (put_route-Sound link addr cost items h new)
        ]
      ]

  add_target-Sound :
      (ours : List NdnLink) (addr : ℕ) (cost : ℤ) (links : List NdnLink) (items : Map ℕ RoutingItem)
      → Sound P items
      → ((link : NdnLink)
          → Memᴰ link links
          → is_direct ours link ≡ false
          → P (network_of link) (item_of link addr cost))
      → Sound P (add_target ours addr cost links items)
  unfolding add_target
  add_target-Sound ours addr cost [] items h new = h
  add_target-Sound ours addr cost (link ∷ links) items h new =
      let later = λ (other : NdnLink) (m : Memᴰ other links). new other (Memᴰ.tail m) in
      elim (Bool-cases (is_direct ours link)) [
        | inl direct ↦ rw direct (add_target-Sound ours addr cost links items h later)
        | inr away ↦ rw away (
            add_target-Sound ours addr cost links (add_route link addr cost items)
              (add_route-Sound link addr cost items h (new link (Memᴰ.head refl) away)) later)
      ]

module _ (junk : ℕ) (our_lsa : LsaDataPack) (lsas : Map ℕ LsaDataPack)
    (vertices : Map ℤ Vertex) where
  add_routes-Sound :
      (P : ℕ → RoutingItem → Type 0) (routes : Map ℤ Route) (items : Map ℕ RoutingItem)
      → Sound P items
      → ((entry : ℤ × Route) (target : LsaDataPack) (addr : ℕ) (link : NdnLink)
          → Memᴰ entry routes
          → resolve junk our_lsa lsas vertices entry.0 entry.1 ≡ some (target, addr)
          → Memᴰ link target.links
          → is_direct our_lsa.links link ≡ false
          → P (network_of link) (item_of link addr entry.1.cost))
      → Sound P (add_routes junk our_lsa lsas vertices routes items)
  unfolding add_routes
  add_routes-Sound P [] items h new = h
  add_routes-Sound P (entry ∷ routes) items h new =
      let later =
        λ (other : ℤ × Route) (target : LsaDataPack) (addr : ℕ) (link : NdnLink)
            (m : Memᴰ other routes).
          new other target addr link (Memᴰ.tail m) in
      elim (Option-cases (resolve junk our_lsa lsas vertices entry.0 entry.1)) [
        | inl skipped ↦ rw skipped (add_routes-Sound P routes items h later)
        | inr ((target, addr), found) ↦ rw found (
            add_routes-Sound P routes
              (add_target our_lsa.links addr entry.1.cost target.links items)
              (add_target-Sound P our_lsa.links addr entry.1.cost target.links items h
                (λ link. new entry target addr link (Memᴰ.head refl) found))
              later)
      ]

  -- A target that has a route and passes the tests of calculateRoutingTable has a link to the network, which is
  -- not a network of ours; the item is that of the link, with the address of the next hop and the cost of
  -- the route.
  pub record Advertised (routes : Map ℤ Route) (network : ℕ) (item : RoutingItem) : Type 0 where
    pub entry : ℤ × Route
    pub target : LsaDataPack
    pub addr : ℕ
    pub link : NdnLink
    pub reached : Memᴰ entry routes
    pub passes : resolve junk our_lsa lsas vertices entry.0 entry.1 ≡ some (target, addr)
    pub listed : Memᴰ link target.links
    pub away : is_direct our_lsa.links link ≡ false
    pub is_network : network_of link ≡ network
    pub is_item : item_of link addr entry.1.cost ≡ item

  AllCovered-at :
      (cost : ℤ) (links : List NdnLink) (items : Map ℕ RoutingItem) (link : NdnLink)
      → Memᴰ link links
      → AllCovered our_lsa.links cost links items
      → is_direct our_lsa.links link ≡ false
      → Covered items (network_of link) cost
  AllCovered-at cost [] items link listed all away = elim listed [ ]
  AllCovered-at cost (x ∷ links) items link (Memᴰ.head same) all away =
      subst (λ (l : NdnLink). Covered items (network_of l) cost) (sym same)
        (all.0 (subst (λ (l : NdnLink). is_direct our_lsa.links l ≡ false) same away))
  AllCovered-at cost (x ∷ links) items link (Memᴰ.tail later) all away =
      AllCovered-at cost links items link later all.1 away

  no_items-Sound : (P : ℕ → RoutingItem → Type 0) → Sound P []
  unfolding lookup
  no_items-Sound P network item e = absurd (ground (arith, e))

  all-Advertised :
      (routes : Map ℤ Route)
      → Sound (Advertised routes) (add_routes junk our_lsa lsas vertices routes [])
  all-Advertised routes =
      add_routes-Sound (Advertised routes) routes [] (no_items-Sound (Advertised routes))
        (λ entry target addr link reached passes listed away. record {
          entry = entry;
          target = target;
          addr = addr;
          link = link;
          reached = reached;
          passes = passes;
          listed = listed;
          away = away;
          is_network = refl;
          is_item = refl;
        })

  -- Where a target that has a route and passes the tests of calculateRoutingTable has a link to a network that is
  -- not one of ours, the insert list has an item for the network. It is advertised itself: it has the link,
  -- the next hop and the cost of the route of such a target; and no other advertised item of the network
  -- costs less. The list has no items but advertised ones.
  pub add_routes-cheapest :
      (routes : Map ℤ Route) (network : ℕ) (other : RoutingItem)
      → Advertised routes network other
      → let list = add_routes junk our_lsa lsas vertices routes [] in
        ((item : RoutingItem) × (lookup network list ≡ some item)
          × Advertised routes network item
          × (int_ltb other.cost item.cost ≡ false))
        × ((n : ℕ) (i : RoutingItem) → lookup n list ≡ some i → Advertised routes n i)
  add_routes-cheapest routes network other ad =
      let list : Map ℕ RoutingItem = add_routes junk our_lsa lsas vertices routes [] in
      let all =
        add_routes-Covered junk our_lsa lsas vertices routes [] ad.entry ad.target ad.addr
          ad.reached ad.passes in
      let covered : Covered list network ad.entry.1.cost =
        subst (λ (n : ℕ). Covered list n ad.entry.1.cost) ad.is_network
          (AllCovered-at ad.entry.1.cost ad.target.links list ad.link ad.listed all ad.away) in
      let (item, present, le) = covered in
      (
        (
          item,
          present,
          all-Advertised routes network item present,
          subst (λ (i : RoutingItem). int_ltb i.cost item.cost ≡ false) ad.is_item le,
        ),
        all-Advertised routes,
      )
