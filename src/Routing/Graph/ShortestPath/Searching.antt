-- ===== src/Routing/Graph/ShortestPath/Searching.antt =====
-- The loop of calculateShortestPath: what holds of the queue and of the result in each round.
use ndn_based_protocol.Prelude.{
  ◌+◌, ◌≤◌, ◌≡◌, refl, ℕ, ℤ, pos, negsuc, Bool, true, false, ◌&&◌, ◌||◌, none, some, List, [], ◌∷◌,
  All, leb, int_eq, int_beq_iff, ◌==◌, is_negative, arith, Bool-cases, inl, inr, ◌⊎◌, subst,
}
use ndn_based_protocol.Prelude.Map.{Map, lookup}
use ndn_based_protocol.Routing.Graph.{Edge, Graph, edges_of, has_edge}
use ndn_based_protocol.Routing.Graph.ShortestPath.{Route}
use ndn_based_protocol.Routing.Graph.ShortestPath.Exact.{exact_edge, exact_push_all}
use ndn_based_protocol.Routing.Graph.ShortestPath.Queue.{
  value, queued, NonNegative, AtLeast, int_add-value, has_cost, queued-exact_push_all,
}

-- A walk over edges of the graph, with the sum of their costs.
pub data Walk (g : Graph) (source : ℤ) : ℤ → ℕ → Type 0 where
  here : Walk g source source 0
  onward :
      {a b : ℤ} {k : ℕ} (c : ℕ)
      → Walk g source a k
      → has_cost b c (edges_of g a) ≡ true
      → Walk g source b (c + k)

-- The result has a route to `w` of a cost of at most `k`.
abbrev pub within : Map ℤ Route → ℤ → ℕ → Bool
within result w k = elim (lookup w result) [ none ↦ false | some route ↦ leb (value route.cost) k ]

-- A cost that is that of a walk, and a next hop that is a neighbour of the source.
abbrev pub IsRoute : Graph → ℤ → ℤ → ℤ → ℤ → Type 0
IsRoute g source target hop cost =
    (is_negative cost ≡ false)
    × Walk g source target (value cost)
    × ((target ≡ source) ⊎ (has_edge hop (edges_of g source) ≡ true))

abbrev pub bounded : Map ℤ Route → List Edge → ℤ → ℕ → Bool
bounded result queue w k = within result w k || queued w k queue

pub record Searching (g : Graph) (source : ℤ) (queue : List Edge) (result : Map ℤ Route)
    : Type 0 where
  pub queue_sound : All (λ (e : Edge). IsRoute g source e.target e.next_hop e.cost) queue
  pub result_sound :
      (v : ℤ) (route : Route)
      → lookup v result ≡ some route
      → IsRoute g source v route.next_hop route.cost
  pub closed :
      (a b : ℤ) (c : ℕ) (route : Route)
      → lookup a result ≡ some route
      → has_cost b c (edges_of g a) ≡ true
      → bounded result queue b (c + value route.cost) ≡ true
  pub first : bounded result queue source 0 ≡ true
  pub ordered :
      (v : ℤ) (route : Route) → lookup v result ≡ some route → AtLeast (value route.cost) queue

pub has_edge-has_cost :
    (b : ℤ) (c : ℕ) (es : List Edge) → has_cost b c es ≡ true → has_edge b es ≡ true
unfolding has_edge
has_edge-has_cost b c [] h = cc
has_edge-has_cost b c (e ∷ es) h = ground (arith, h, has_edge-has_cost b c es)

-- The cost of a new edge.
pub new_edge-cost :
    (source : ℤ) (e i : Edge)
    → is_negative e.cost ≡ false
    → is_negative i.cost ≡ false
    → (exact_edge source e i).cost ≡ pos (value i.cost + value e.cost)
unfolding exact_edge
new_edge-cost source e i p q = int_add-value i.cost e.cost q p

natural : (n : ℤ) → is_negative n ≡ false → n ≡ pos (value n)
natural (pos n) p = refl
natural (negsuc n) p = cc

queued_this :
    (b : ℤ) (c : ℕ) (source : ℤ) (e i : Edge) (queue : List Edge)
    → is_negative e.cost ≡ false
    → is_negative i.cost ≡ false
    → (i.target == b && i.cost == pos c) ≡ true
    → queued b (c + value e.cost) (exact_edge source e i ∷ queue) ≡ true
unfolding exact_edge
queued_this b c source e i queue p q h =
    ground (arith, int_add-value i.cost e.cost q p, int_beq_iff i.cost (pos c))

-- An edge of the expanded vertex is queued at its cost.
pub queued-new_edge :
    (b : ℤ) (c : ℕ) (source : ℤ) (e : Edge) (edges queue : List Edge)
    → is_negative e.cost ≡ false
    → NonNegative edges
    → has_cost b c edges ≡ true
    → queued b (c + value e.cost) (exact_push_all source e edges queue) ≡ true
unfolding exact_push_all
queued-new_edge b c source e [] queue p q h = cc
queued-new_edge b c source e (i ∷ edges) queue p q h =
    elim (Bool-cases (i.target == b && i.cost == pos c)) [
      | inl this ↦
          queued-exact_push_all b (c + value e.cost) source e edges (exact_edge source e i ∷ queue)
            (queued_this b c source e i queue p q.0 this)
      | inr other ↦
          queued-new_edge b c source e edges (exact_edge source e i ∷ queue) p q.1
            (ground (arith, other, h))
    ]

module _ (g : Graph) (source : ℤ) (e : Edge)
    (good : IsRoute g source e.target e.next_hop e.cost) where
  -- The new edges are routes.
  new_edge-IsRoute :
      (i : Edge)
      → is_negative i.cost ≡ false
      → has_cost i.target (value i.cost) (edges_of g e.target) ≡ true
      → IsRoute g source
          (exact_edge source e i).target
          (exact_edge source e i).next_hop
          (exact_edge source e i).cost
  unfolding exact_edge
  new_edge-IsRoute i p edge =
      let sum = int_add-value i.cost e.cost p good.0 in
      rw sum (
        refl,
        onward (value i.cost) good.1 edge,
        elim (Bool-cases (e.target == source)) [
          | inl at_source ↦
              let is_source : e.target ≡ source = (int_beq_iff e.target source).0 at_source in
              let known = has_edge-has_cost i.target (value i.cost) (edges_of g e.target) edge in
              rw at_source
                (inr (subst (λ x. has_edge i.target (edges_of g x) ≡ true) is_source known))
          | inr other ↦ rw other (elim good.2 [
            | inl at_source ↦ absurd (ground (arith, other, at_source, int_beq_iff e.target source))
            | inr known ↦ inr known
          ])
        ],
      )

  pub new_edges-IsRoute :
      (edges : List Edge)
      → NonNegative edges
      → ((b : ℤ) (c : ℕ) → has_cost b c edges ≡ true → has_cost b c (edges_of g e.target) ≡ true)
      → All
          (λ (i : Edge).
            let n = exact_edge source e i in IsRoute g source n.target n.next_hop n.cost)
          edges
  new_edges-IsRoute [] q sub = tt
  new_edges-IsRoute (i ∷ edges) q sub =
      let own : i.cost ≡ pos (value i.cost) = natural i.cost q.0 in
      (
        new_edge-IsRoute i q.0 (
            sub i.target (value i.cost) (
              ground (
                arith,
                int_beq_iff i.target i.target,
                int_beq_iff i.cost (pos (value i.cost)),
                own,
              ))),
        new_edges-IsRoute edges q.1 (λ b c h. sub b c (ground (arith, h))),
      )

  pub AtLeast-new_edge :
      (k : ℕ) (edges : List Edge)
      → k ≤ value e.cost
      → NonNegative edges
      → All (λ (i : Edge). k ≤ value (exact_edge source e i).cost) edges
  AtLeast-new_edge k [] le q = tt
  AtLeast-new_edge k (i ∷ edges) le q =
      (rw (new_edge-cost source e i good.0 q.0) (omega arith), AtLeast-new_edge k edges le q.1)
