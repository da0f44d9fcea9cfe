-- ===== src/Routing/Graph/ShortestPath/Shortest.antt =====
-- calculateShortestPath ends, with the cost of a shortest walk for each vertex that is reached.
use ndn_based_protocol.Prelude.{
  ◌+◌, ◌*◌, ◌^◌, ◌<◌, ◌≤◌, ◌∙◌, ◌≡◌, ◌≢◌, refl, ℕ, zero, suc, ℤ, pos, true, false, some, List, [],
  ◌∷◌, All, length, int_eq, int_beq_iff, ◌==◌, is_negative, arith, Bool-cases, Option-cases, inl,
  inr, sym, subst, >>=-some,
}
use ndn_based_protocol.Prelude.Map.{Map, lookup, erase, lookup-erase}
use ndn_based_protocol.Routing.Graph.{Edge, Graph, edges_of, has_edge, all_edges}
use ndn_based_protocol.Routing.Graph.ShortestPath.{Route, take_least, calculate_shortest_path}
use ndn_based_protocol.Routing.Graph.ShortestPath.Exact.{exact_expand, exact_search}
use ndn_based_protocol.Routing.Graph.ShortestPath.Agreement.{Costs, search-exact}
use ndn_based_protocol.Routing.Graph.ShortestPath.Queue.{
  value, NonNegative, AtLeast, take_least-least,
}
use ndn_based_protocol.Routing.Graph.ShortestPath.Searching.{
  Walk, here, onward, within, IsRoute, Searching,
}
use ndn_based_protocol.Routing.Graph.ShortestPath.Expansion.{take_least-Searching, expand-Searching}
use ndn_based_protocol.Routing.Graph.ShortestPath.Fuel.{calculate_shortest_path-ends}

-- What holds at the end, where the loop ends.
search-Searching :
    (fuel : ℕ) (g h : Graph) (source : ℤ) (queue : List Edge) (result : Map ℤ Route) {h' : Graph}
    {result' : Map ℤ Route}
    → ((v : ℤ) → NonNegative (edges_of g v))
    → ((v : ℤ) → edges_of h v ≡ edges_of g v)
    → Searching g source queue result
    → exact_search fuel source h queue result ≡ some (h', result')
    → Searching g source [] result'
unfolding exact_search
search-Searching zero g h source queue result nonnegative same s ends = cc
search-Searching (suc fuel) g h source [] result {h'} {result'} nonnegative same s ends =
    let is_result : result ≡ result' = ground (arith, ends) in
    subst (Searching g source []) is_result s
search-Searching (suc fuel) g h source (first ∷ others) result nonnegative same s ends =
    let e : Edge = (take_least first others).0 in
    let queue : List Edge = (take_least first others).1 in
    let least : AtLeast (value e.cost) queue =
      (take_least-least first others s.queue_sound.0.0 (costs others s.queue_sound.1)).1 in
    let popped = take_least-Searching g source first others result s in
    let (same', s') = expand-Searching g h source e queue result nonnegative same popped least in
    let next = exact_expand source e queue h result in
    search-Searching fuel g next.0 source next.1 next.2 nonnegative same' s' ends
  where
    costs :
        (es : List Edge)
        → All (λ (i : Edge). IsRoute g source i.target i.next_hop i.cost) es
        → NonNegative es
    costs [] all = tt
    costs (i ∷ es) all = (all.0.0, costs es all.1)

-- With an empty queue, the result has a route of at most the cost of each walk.
within-Walk :
    (g : Graph) (source : ℤ) (result : Map ℤ Route)
    → Searching g source [] result
    → {v : ℤ} {k : ℕ} → Walk g source v k
    → within result v k ≡ true
within-Walk g source result s here = ground (arith, s.first)
within-Walk g source result s (onward {a} {b} {k} c walk edge) =
    let before = within-Walk g source result s walk in
    elim (Option-cases (lookup a result)) [
      | inl absent ↦ absurd (ground (arith, absent, before))
      | inr (route, present) ↦
          let le : value route.cost ≤ k = ground (arith, present, before) in
          let after : within result b (c + value route.cost) ≡ true =
            ground (arith, s.closed a b c route present edge) in
          elim (Option-cases (lookup b result)) [
            | inl none_b ↦ absurd (ground (arith, none_b, after))
            | inr (r, at_b) ↦ ground (arith, at_b, after, le)
          ]
    ]

start-Searching :
    (g : Graph) (source : ℤ)
    → Searching g source
        (record {
          source = source;
          target = source;
          cost = pos 0;
          next_hop = source;
          nextnext_hop = source;
        }
          ∷ [])
        []
unfolding lookup
start-Searching g source = record {
  queue_sound = ((refl, here, inl refl), tt);
  result_sound = λ v r e. absurd (ground (arith, e));
  closed = λ a b c r e k. absurd (ground (arith, e));
  first = ground (arith, int_beq_iff source source);
  ordered = λ v r e. absurd (ground (arith, e));
}

Costs-NonNegative : (bound : ℕ) (es : List Edge) → Costs bound es → NonNegative es
Costs-NonNegative bound [] all = tt
Costs-NonNegative bound (e ∷ es) all = (all.0.0, Costs-NonNegative bound es all.1)

-- On a graph whose directed edges have costs that are not negative and at most a bound, where the bound times
-- the number of the edges and two more is below 2 ^ 31, so that no sum wraps around, calculateShortestPath
-- ends. A vertex other than the source gets a route exactly where there is a walk to it over directed
-- edges, also over an edge that has none back, although the comment in Graph.h calls only bidirectional
-- edges valid; the cost of the route is that of a walk and at most that of
-- any other, and the next hop is a vertex to which the source has an edge. The source gets none.
pub calculate_shortest_path-Walk :
    (g : Graph) (source : ℤ) (bound : ℕ)
    → ((v : ℤ) → Costs bound (edges_of g v))
    → (length (all_edges g) + 2) * bound < 2 ^ 31
    → (g' : Graph) × (result : Map ℤ Route) × (calculate_shortest_path g source ≡ some (g', result))
      × ((v : ℤ) (route : Route)
          → lookup v result ≡ some route
          → (v ≢ source)
            × (is_negative route.cost ≡ false)
            × Walk g source v (value route.cost)
            × ((k : ℕ) → Walk g source v k → value route.cost ≤ k)
            × (has_edge route.next_hop (edges_of g source) ≡ true))
      × ((v : ℤ) (k : ℕ)
          → Walk g source v k
          → v ≢ source
          → (route : Route) × (lookup v result ≡ some route))
unfolding calculate_shortest_path
calculate_shortest_path-Walk g source bound costs small =
    let (g', result, ends) = calculate_shortest_path-ends g source in
    let nonnegative : (v : ℤ) → NonNegative (edges_of g v) =
      λ v. Costs-NonNegative bound (edges_of g v) (costs v) in
    let start : List Edge =
      record {
        source = source;
        target = source;
        cost = pos 0;
        next_hop = source;
        nextnext_hop = source;
      }
      ∷ [] in
    let same =
      search-exact (length (all_edges g) + 2) g g source 0 bound start [] (omega (arith, small))
        costs (λ v. refl) ((refl, omega arith), tt) in
    let s =
      search-Searching (length (all_edges g) + 2) g g source _ [] nonnegative (λ v. refl)
        (start-Searching g source) (sym same ∙ ends) in
    let erased = λ (v : ℤ). lookup-erase source v result in
    (
      g',
      erase source result,
      >>=-some _ ends refl,
      λ v route e.
          let other : (source == v) ≡ false = ground (arith, erased v, e) in
          let at_v : lookup v result ≡ some route = ground (arith, erased v, e) in
          let (natural, walk, hop) = s.result_sound v route at_v in
          (
            λ is_source. ground (arith, int_beq_iff source v, other, is_source),
            natural,
            walk,
            λ k other_walk. ground (arith, at_v, within-Walk g source result s other_walk),
            elim hop [
              | inl is_source ↦ absurd (ground (arith, int_beq_iff source v, other, is_source))
              | inr known ↦ known
            ],
          ),
      λ v k walk different.
          let inside = within-Walk g source result s walk in
          elim (Option-cases (lookup v result)) [
            | inl absent ↦ absurd (ground (arith, absent, inside))
            | inr (route, at_v) ↦ (
              route,
              elim (Bool-cases (source == v)) [
                | inl same ↦ absurd (different (sym ((int_beq_iff source v).0 same)))
                | inr other ↦ ground (arith, erased v, other, at_v)
              ],
            )
          ],
    )
