-- ===== src/Routing/Graph/ShortestPath/Queue.antt =====
-- What is in the priority queue of calculateShortestPath.
use ndn_based_protocol.Prelude.{
  ◌+◌, ◌≡◌, refl, ℕ, ℤ, pos, negsuc, Bool, true, false, ◌&&◌, ◌||◌, List, [], ◌∷◌, All, leb, ltb,
  length, int_eq, ◌==◌, is_negative, arith, Bool-cases, inl, inr, if◌then◌else◌, ◌≤◌,
}
use ndn_based_protocol.Routing.Graph.{Edge, int_ltb}
use ndn_based_protocol.Routing.Graph.ShortestPath.{take_least, new_edge, push_all, exact_add}
use ndn_based_protocol.Routing.Graph.ShortestPath.Exact.{exact_edge, exact_push_all}

-- The value of an `int` that is not negative.
abbrev pub value : ℤ → ℕ
value (pos n) = n
value (negsuc n) = 0

-- Some edge of the queue leads to `w` at a cost of at most `k`.
abbrev pub queued : ℤ → ℕ → List Edge → Bool
queued w k [] = false
queued w k (e ∷ queue) = (e.target == w && leb (value e.cost) k) || queued w k queue

abbrev pub NonNegative : List Edge → Type 0
NonNegative es = All (λ (e : Edge). is_negative e.cost ≡ false) es

abbrev pub AtLeast : ℕ → List Edge → Type 0
AtLeast k es = All (λ (e : Edge). k ≤ value e.cost) es

int_ltb-value :
    (a b : ℤ)
    → is_negative a ≡ false
    → is_negative b ≡ false
    → int_ltb a b ≡ ltb (value a) (value b)
int_ltb-value (pos a) (pos b) p q = refl
int_ltb-value (pos a) (negsuc b) p q = cc
int_ltb-value (negsuc a) (pos b) p q = cc
int_ltb-value (negsuc a) (negsuc b) p q = cc

pub int_add-value :
    (a b : ℤ)
    → is_negative a ≡ false
    → is_negative b ≡ false
    → exact_add a b ≡ pos (value a + value b)
int_add-value (pos a) (pos b) p q = refl
int_add-value (pos a) (negsuc b) p q = cc
int_add-value (negsuc a) (pos b) p q = cc
int_add-value (negsuc a) (negsuc b) p q = cc

pub length-take_least :
    (best : Edge) (queue : List Edge) → length (take_least best queue).1 ≡ length queue
unfolding take_least
length-take_least best [] = refl
length-take_least best (e ∷ queue) =
    omega (arith, length-take_least (if int_ltb e.cost best.cost then e else best) queue)

-- What holds of all edges holds of the least and of those that are left.
pub All-take_least {ℓ} :
    (P : Edge → Type ℓ) (best : Edge) (queue : List Edge)
    → P best
    → All P queue
    → P (take_least best queue).0 × All P (take_least best queue).1
unfolding take_least
All-take_least P best [] b q = (b, tt)
All-take_least P best (e ∷ queue) b q = elim (Bool-cases (int_ltb e.cost best.cost)) [
  | inl less ↦
      let (first, others) = All-take_least P e queue q.0 q.1 in rw less (first, (b, others))
  | inr other ↦
      let (first, others) = All-take_least P best queue b q.1 in rw other (first, (q.0, others))
]

-- The least is not above any other.
pub take_least-least :
    (best : Edge) (queue : List Edge)
    → is_negative best.cost ≡ false
    → NonNegative queue
    → (value (take_least best queue).0.cost ≤ value best.cost)
      × AtLeast (value (take_least best queue).0.cost) (take_least best queue).1
unfolding take_least
take_least-least best [] b q = (omega arith, tt)
take_least-least best (e ∷ queue) b q =
    let less = int_ltb-value e.cost best.cost q.0 b in
    let next : Edge = if int_ltb e.cost best.cost then e else best in
    let (le, others) = take_least-least next queue (ground (arith, b, q.0)) q.1 in
    (ground (arith, less, le), (ground (arith, less, le), others))

-- Nothing is lost.
pub queued-take_least :
    (w : ℤ) (k : ℕ) (best : Edge) (queue : List Edge)
    → queued w k (best ∷ queue) ≡ queued w k ((take_least best queue).0 ∷ (take_least best queue).1)
unfolding take_least
queued-take_least w k best [] = refl
queued-take_least w k best (e ∷ queue) = elim (Bool-cases (int_ltb e.cost best.cost)) [
  | inl less ↦ rw less (ground (arith, queued-take_least w k e queue))
  | inr other ↦ rw other (ground (arith, queued-take_least w k best queue))
]

pub length-push_all :
    (source : ℤ) (e : Edge) (edges queue : List Edge)
    → length (push_all source e edges queue) ≡ length edges + length queue
unfolding push_all
length-push_all source e [] queue = omega arith
length-push_all source e (i ∷ edges) queue =
    omega (arith, length-push_all source e edges (new_edge source e i ∷ queue))

pub All-exact_push_all {ℓ} :
    (P : Edge → Type ℓ) (source : ℤ) (e : Edge) (edges queue : List Edge)
    → All (λ (i : Edge). P (exact_edge source e i)) edges
    → All P queue
    → All P (exact_push_all source e edges queue)
unfolding exact_push_all
All-exact_push_all P source e [] queue p q = q
All-exact_push_all P source e (i ∷ edges) queue p q =
    All-exact_push_all P source e edges (exact_edge source e i ∷ queue) p.1 (p.0, q)

-- An edge to `b` of the cost `c`.
abbrev pub has_cost : ℤ → ℕ → List Edge → Bool
has_cost b c [] = false
has_cost b c (e ∷ es) = (e.target == b && e.cost == pos c) || has_cost b c es

pub queued-exact_push_all :
    (w : ℤ) (k : ℕ) (source : ℤ) (e : Edge) (edges queue : List Edge)
    → queued w k queue ≡ true
    → queued w k (exact_push_all source e edges queue) ≡ true
unfolding exact_push_all
queued-exact_push_all w k source e [] queue h = h
queued-exact_push_all w k source e (i ∷ edges) queue h =
    queued-exact_push_all w k source e edges (exact_edge source e i ∷ queue) (ground (arith, h))
