-- ===== src/Routing/Graph/ShortestPath/Fuel.antt =====
-- calculateShortestPath ends on every graph: each edge is pushed once at most.
use ndn_based_protocol.Prelude.{
  ◌+◌, ◌≤◌, ◌<◌, ◌≡◌, refl, ℕ, zero, suc, ℤ, pos, none, some, List, [], ◌∷◌, length, length-append,
  int_eq, int_beq_iff, ◌==◌, arith, Bool-cases, Option-cases, inl, inr, sym, subst, ◌∙◌,
}
use ndn_based_protocol.Prelude.Map.{Map, lookup, insert, lookup-insert}
use ndn_based_protocol.Routing.Graph.{Edge, Graph, edges_of, all_edges}
use ndn_based_protocol.Routing.Graph.ShortestPath.{Route, take_least, expand, search}
use ndn_based_protocol.Routing.Graph.ShortestPath.Queue.{length-take_least, length-push_all}
use ndn_based_protocol.Routing.Graph.Edges.{edges_of-add_vertex}

-- The edges of the vertices that have no route.
abbrev pub unsettled : Graph → Map ℤ Route → ℕ
unsettled [] result = 0
unsettled (entry ∷ g) result =
    let rest = unsettled g result in
    elim (lookup entry.0 result) [ none ↦ length entry.1 + rest | some route ↦ rest ]

pub unsettled-le : (g : Graph) (result : Map ℤ Route) → unsettled g result ≤ length (all_edges g)
unfolding all_edges
unsettled-le [] result = omega arith
unsettled-le (entry ∷ g) result =
    ground (arith, unsettled-le g result, length-append entry.1 (all_edges g))

unsettled-insert_le :
    (g : Graph) (v : ℤ) (route : Route) (result : Map ℤ Route)
    → unsettled g (insert v route result) ≤ unsettled g result
unsettled-insert_le [] v route result = omega arith
unsettled-insert_le (entry ∷ g) v route result =
    ground (arith, unsettled-insert_le g v route result, lookup-insert v entry.0 route result)

unsettled-insert :
    (g : Graph) (v : ℤ) (route : Route) (result : Map ℤ Route)
    → lookup v result ≡ none
    → unsettled g (insert v route result) + length (edges_of g v) ≤ unsettled g result
unfolding edges_of lookup
unsettled-insert [] v route result absent = omega arith
unsettled-insert (entry ∷ g) v route result absent = elim (Bool-cases (entry.0 == v)) [
  | inl same ↦
      let is_v : entry.0 ≡ v = (int_beq_iff entry.0 v).0 same in
      let no_entry : lookup entry.0 result ≡ none =
        subst (λ x. lookup x result ≡ none) (sym is_v) absent in
      let new = lookup-insert v entry.0 route result in
      let flip = int_beq_iff v entry.0 in
      rw (edges_of, lookup, same)
        (ground (arith, no_entry, new, flip, is_v, unsettled-insert_le g v route result))
  | inr other ↦
      let new = lookup-insert v entry.0 route result in
      let rest = unsettled-insert g v route result absent in
      let flip = int_beq_iff v entry.0 in
      let back = int_beq_iff entry.0 v in
      let tail : unsettled g (insert v route result) + length (edges_of g v) ≤ unsettled g result =
        rest in
      rw (edges_of, lookup, other) (ground (arith, new, flip, back, other, tail))
]

expand-shrinks :
    (g h : Graph) (source : ℤ) (e : Edge) (queue : List Edge) (result : Map ℤ Route)
    → ((v : ℤ) → edges_of h v ≡ edges_of g v)
    → let (h', queue', result') = expand source e queue h result in
      length queue' + unsettled g result' ≤ length queue + unsettled g result
unfolding expand
expand-shrinks g h source e queue result same = elim (Option-cases (lookup e.target result)) [
  | inl absent ↦
      let route : Route = record {
        next_hop = e.next_hop;
        nextnext_hop = e.nextnext_hop;
        cost = e.cost;
      } in
      rw (expand, absent, edges_of-add_vertex h e.target e.target, same e.target)
        (omega (
          arith,
          length-push_all source e (edges_of g e.target) queue,
          unsettled-insert g e.target route result absent,
        ))
  | inr (route, present) ↦ rw (expand, present) (omega arith)
]

pub expand-same :
    (g h : Graph) (source : ℤ) (e : Edge) (queue : List Edge) (result : Map ℤ Route)
    → ((v : ℤ) → edges_of h v ≡ edges_of g v)
    → (v : ℤ) → edges_of (expand source e queue h result).0 v ≡ edges_of g v
unfolding expand
expand-same g h source e queue result same v = elim (Option-cases (lookup e.target result)) [
  | inl absent ↦ rw (expand, absent) (edges_of-add_vertex h e.target v ∙ same v)
  | inr (route, present) ↦ rw (expand, present) (same v)
]

search-ends :
    (fuel : ℕ) (g h : Graph) (source : ℤ) (queue : List Edge) (result : Map ℤ Route)
    → ((v : ℤ) → edges_of h v ≡ edges_of g v)
    → length queue + unsettled g result < fuel
    → (h' : Graph) × (result' : Map ℤ Route) × (search fuel source h queue result
        ≡ some (h', result'))
unfolding search
search-ends zero g h source queue result same enough = absurd (omega arith)
search-ends (suc fuel) g h source [] result same enough = (h, result, refl)
search-ends (suc fuel) g h source (first ∷ others) result same enough =
    let e : Edge = (take_least first others).0 in
    let queue : List Edge = (take_least first others).1 in
    let next = expand source e queue h result in
    search-ends fuel g next.0 source next.1 next.2 (expand-same g h source e queue result same)
      (omega (arith, expand-shrinks g h source e queue result same, length-take_least first others))

pub calculate_shortest_path-ends :
    (g : Graph) (source : ℤ)
    → (g' : Graph) × (result : Map ℤ Route) × (search
          (length (all_edges g) + 2)
          source
          g
          (record {
            source = source;
            target = source;
            cost = pos 0;
            next_hop = source;
            nextnext_hop = source;
          }
            ∷ [])
          []
        ≡ some (g', result))
calculate_shortest_path-ends g source =
    search-ends (length (all_edges g) + 2) g g source _ [] (λ v. refl)
      (omega (arith, unsettled-le g []))
