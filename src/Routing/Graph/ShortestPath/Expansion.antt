-- ===== src/Routing/Graph/ShortestPath/Expansion.antt =====
-- A round of the loop of calculateShortestPath keeps what holds of the queue and of the result.
use ndn_based_protocol.Prelude.{
  ◌+◌, ◌≤◌, ◌≡◌, ℕ, ℤ, true, ◌&&◌, ◌||◌, none, some, List, ◌∷◌, All, leb, int_eq, int_beq_iff, ◌==◌,
  arith, Bool-cases, Option-cases, inl, inr, sym, subst, ◌∙◌,
}
use ndn_based_protocol.Prelude.Map.{Map, lookup, insert, lookup-insert}
use ndn_based_protocol.Routing.Graph.{Edge, Graph, edges_of, add_vertex}
use ndn_based_protocol.Routing.Graph.Edges.{edges_of-add_vertex}
use ndn_based_protocol.Routing.Graph.ShortestPath.{Route, take_least}
use ndn_based_protocol.Routing.Graph.ShortestPath.Exact.{exact_push_all, exact_expand}
use ndn_based_protocol.Routing.Graph.ShortestPath.Queue.{
  value, queued, NonNegative, AtLeast, All-take_least, queued-take_least, All-exact_push_all,
  has_cost, queued-exact_push_all,
}
use ndn_based_protocol.Routing.Graph.ShortestPath.Searching.{
  within, IsRoute, bounded, Searching, queued-new_edge, new_edges-IsRoute, AtLeast-new_edge,
}

module _ (g : Graph) (source : ℤ) (nonnegative : (v : ℤ) → NonNegative (edges_of g v)) (e : Edge)
    (queue : List Edge) (result : Map ℤ Route) where
  -- An edge to a vertex that has a route is dropped.
  skip-Searching :
      (route : Route)
      → Searching g source (e ∷ queue) result
      → lookup e.target result ≡ some route
      → Searching g source queue result
  skip-Searching route h present =
      let covers : (w : ℤ) (k : ℕ)
          → bounded result (e ∷ queue) w k ≡ true
          → bounded result queue w k ≡ true =
        λ w k b.
          let le : value route.cost ≤ value e.cost = (h.ordered e.target route present).0 in
          elim (Bool-cases (e.target == w)) [
            | inl same ↦
                let is_w : e.target ≡ w = (int_beq_iff e.target w).0 same in
                let at_w : lookup w result ≡ some route =
                  subst (λ x. lookup x result ≡ some route) is_w present in
                ground (arith, at_w, le, b)
            | inr other ↦ ground (arith, other, b)
          ] in
      record {
        queue_sound = h.queue_sound.1;
        result_sound = h.result_sound;
        closed = λ a b c r at_a edge. covers b (c + value r.cost) (h.closed a b c r at_a edge);
        first = covers source 0 h.first;
        ordered = λ v r at_v. (h.ordered v r at_v).1;
      }

  -- A vertex with no route gets that of the least edge, and its edges are pushed.
  settle-Searching :
      Searching g source (e ∷ queue) result
      → AtLeast (value e.cost) queue
      → lookup e.target result ≡ none
      → Searching g source (exact_push_all source e (edges_of g e.target) queue) (
          insert e.target
            (record { next_hop = e.next_hop; nextnext_hop = e.nextnext_hop; cost = e.cost })
            result)
  settle-Searching h least absent =
      let edges : List Edge = edges_of g e.target in
      let route : Route = record {
        next_hop = e.next_hop;
        nextnext_hop = e.nextnext_hop;
        cost = e.cost;
      } in
      let at_ = λ (v : ℤ). lookup-insert e.target v route result in
      let good : IsRoute g source e.target e.next_hop e.cost = h.queue_sound.0 in
      let later : List Edge = exact_push_all source e edges queue in
      let covers : (w : ℤ) (k : ℕ)
          → bounded result (e ∷ queue) w k ≡ true
          → bounded (insert e.target route result) later w k ≡ true =
        λ w k b. elim (Bool-cases (e.target == w && leb (value e.cost) k)) [
          | inl this ↦ ground (arith, at_ w, this)
          | inr not_this ↦ elim (Bool-cases (queued w k queue)) [
            | inl waiting ↦ ground (arith, queued-exact_push_all w k source e edges queue waiting)
            | inr gone ↦
                let old : within result w k ≡ true = ground (arith, b, not_this, gone) in
                elim (Bool-cases (e.target == w)) [
                  | inl same ↦
                      let is_w : e.target ≡ w = (int_beq_iff e.target w).0 same in
                      let no_w : lookup w result ≡ none =
                        subst (λ x. lookup x result ≡ none) is_w absent in
                      absurd (ground (arith, no_w, old))
                  | inr other ↦ ground (arith, at_ w, other, old)
                ]
          ]
        ] in
      let pushed = λ (k : ℕ) (le : k ≤ value e.cost) (rest : AtLeast k queue).
        All-exact_push_all (λ (i : Edge). k ≤ value i.cost) source e edges queue
          (AtLeast-new_edge g source e good k edges le (nonnegative e.target)) rest in
      record {
        queue_sound =
            All-exact_push_all (λ (i : Edge). IsRoute g source i.target i.next_hop i.cost) source e
              edges queue
              (new_edges-IsRoute g source e good edges (nonnegative e.target) (λ b c k. k))
              h.queue_sound.1;
        result_sound = λ v r at_v. elim (Bool-cases (e.target == v)) [
          | inl same ↦
              let is_v : e.target ≡ v = (int_beq_iff e.target v).0 same in
              let is_r : route ≡ r = ground (arith, at_ v, same, at_v) in
              subst (λ (x : Route). IsRoute g source v x.next_hop x.cost) is_r
                (subst (λ x. IsRoute g source x e.next_hop e.cost) is_v good)
          | inr other ↦ h.result_sound v r (ground (arith, at_ v, other, at_v))
        ];
        closed = λ a b c r at_a edge. elim (Bool-cases (e.target == a)) [
          | inl same ↦
              let is_a : e.target ≡ a = (int_beq_iff e.target a).0 same in
              let is_r : route ≡ r = ground (arith, at_ a, same, at_a) in
              let edge' : has_cost b c edges ≡ true = rw (sym is_a) at edge in
              let waiting =
                queued-new_edge b c source e edges queue good.0 (nonnegative e.target) edge' in
              subst
                (λ (x : Route).
                  bounded (insert e.target route result) later b (c + value x.cost) ≡ true)
                is_r (ground (arith, waiting))
          | inr other ↦
              covers b (c + value r.cost)
                (h.closed a b c r (ground (arith, at_ a, other, at_a)) edge)
        ];
        first = covers source 0 h.first;
        ordered = λ v r at_v. elim (Bool-cases (e.target == v)) [
          | inl same ↦
              let is_r : route ≡ r = ground (arith, at_ v, same, at_v) in
              subst (λ (x : Route). AtLeast (value x.cost) later) is_r
                (pushed (value e.cost) (omega arith) least)
          | inr other ↦
              let (le, rest) = h.ordered v r (ground (arith, at_ v, other, at_v)) in
              pushed (value r.cost) le rest
        ];
      }

-- What holds is the same with the least edge first.
pub take_least-Searching :
    (g : Graph) (source : ℤ) (first : Edge) (others : List Edge) (result : Map ℤ Route)
    → Searching g source (first ∷ others) result
    → Searching g source ((take_least first others).0 ∷ (take_least first others).1) result
take_least-Searching g source first others result h =
    let kept = λ (w : ℤ) (k : ℕ) (b : bounded result (first ∷ others) w k ≡ true).
      subst (λ x. (within result w k || x) ≡ true) (queued-take_least w k first others) b in
    let move = λ (P : Edge → Type 0) (all : All P (first ∷ others)).
      All-take_least P first others all.0 all.1 in
    record {
      queue_sound = move (λ (e : Edge). IsRoute g source e.target e.next_hop e.cost) h.queue_sound;
      result_sound = h.result_sound;
      closed = λ a b c r at_a edge. kept b (c + value r.cost) (h.closed a b c r at_a edge);
      first = kept source 0 h.first;
      ordered = λ v r at_v. move (λ (e : Edge). value r.cost ≤ value e.cost) (h.ordered v r at_v);
    }

-- A round keeps what holds, and the edges of the graph.
pub expand-Searching :
    (g h : Graph) (source : ℤ) (e : Edge) (queue : List Edge) (result : Map ℤ Route)
    → ((v : ℤ) → NonNegative (edges_of g v))
    → ((v : ℤ) → edges_of h v ≡ edges_of g v)
    → Searching g source (e ∷ queue) result
    → AtLeast (value e.cost) queue
    → let (h', queue', result') = exact_expand source e queue h result in
      ((v : ℤ) → edges_of h' v ≡ edges_of g v) × Searching g source queue' result'
unfolding exact_expand
expand-Searching g h source e queue result nonnegative same s least =
    elim (Option-cases (lookup e.target result)) [
      | inl absent ↦
          let grown : (v : ℤ) → edges_of (add_vertex h e.target) v ≡ edges_of g v =
            λ v. edges_of-add_vertex h e.target v ∙ same v in
          rw (exact_expand, absent)
            (
              grown,
              rw (grown e.target)
                  (settle-Searching g source nonnegative e queue result s least absent),
            )
      | inr (route, present) ↦
          rw (exact_expand, present)
            (same, skip-Searching g source nonnegative e queue result route s present)
    ]
