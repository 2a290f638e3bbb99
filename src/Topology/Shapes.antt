-- ===== src/Topology/Shapes.antt =====
-- TopologyPlanner.cpp, buildTopology: the neighbours in each type of topology.
use quantas.Common.{
  ℕ, suc, ◌<◌, ◌≡◌, refl, sym, ap, ◌∙◌, ◌≢◌, ◌⊎◌, inl, inr, Bool, true, false, some, List, [], ◌∷◌,
  arith, get_or, Bool-cases,
}
use quantas.Common.Int.{pos}
use quantas.Topology.{
  Shape, complete, star, chain, ring, unidirectional_ring, unknown_shape, grid, torus, user_list,
  PeerAssignment, range, edge_calls, require_positive_integer, finish, add_edges, build_topology,
}
use quantas.Topology.Edges.{adjacent, joins, any_call, adjacent-undirected, adjacent-finish}

pub Sum-cases : {A B : Type 0} (v : A ⊎ B) → ((a : A) × (v ≡ inl a)) ⊎ ((b : B) × (v ≡ inr b))
Sum-cases (inl a) = inl (a, refl)
Sum-cases (inr b) = inr (b, refl)

-- What a plan that was built comes from.
pub record Built (order : List ℕ → List ℕ) (shape : Shape) (plan : List PeerAssignment)
    : Type 0 where
  pub size : ℕ
  pub directed : Bool
  pub calls : List (ℕ × ℕ)
  pub called : edge_calls size shape ≡ inr (directed, calls)
  pub made : finish shape 0 (add_edges size directed (order (range 0 size)) calls) ≡ plan

pub eq_of_inr : {A B : Type 0} (v : A ⊎ B) (a b : B) → v ≡ inr a → v ≡ inr b → a ≡ b
eq_of_inr v a b e f = let same : inr a ≡ inr b = sym e ∙ f in cc same

pub build_topology-Built :
    (order : List ℕ → List ℕ) (n : ℕ) (shape : Shape) (plan : List PeerAssignment)
    → build_topology order (some (pos (suc n))) shape ≡ inr plan
    → (b : Built order shape plan) × (b.size ≡ suc n)
unfolding build_topology require_positive_integer
build_topology-Built order n shape plan e = elim (Sum-cases (edge_calls (suc n) shape)) [
  | inl (err, thrown) ↦
      absurd (let h : inl err ≡ inr plan = rw (thrown, build_topology) at e in cc h)
  | inr ((d, calls), called) ↦ (
    record {
      size = suc n;
      directed = d;
      calls = calls;
      called = called;
      made =
          eq_of_inr (build_topology order (some (pos (suc n))) shape)
            (finish shape 0 (add_edges (suc n) d (order (range 0 (suc n))) calls)) plan
            (rw (called, build_topology) refl) e;
    },
    refl,
  )
]

-- The types whose edges go both ways.
abbrev pub is_undirected : Shape → Bool
is_undirected complete = true
is_undirected star = true
is_undirected chain = true
is_undirected ring = true
is_undirected unidirectional_ring = false
is_undirected unknown_shape = false
is_undirected (grid h w) = true
is_undirected (torus h w) = true
is_undirected (user_list l) = false

edge_calls-undirected :
    (n : ℕ) (shape : Shape) (d : Bool) (calls : List (ℕ × ℕ))
    → is_undirected shape ≡ true
    → edge_calls n shape ≡ inr (d, calls)
    → d ≡ false
unfolding edge_calls
edge_calls-undirected n complete d calls u e = ground arith
edge_calls-undirected n star d calls u e = ground arith
edge_calls-undirected n chain d calls u e = ground arith
edge_calls-undirected n ring d calls u e = ground arith
edge_calls-undirected n unidirectional_ring d calls u e = cc u
edge_calls-undirected n unknown_shape d calls u e = cc u
edge_calls-undirected n (grid h w) d calls u e = ground arith
edge_calls-undirected n (torus h w) d calls u e = ground arith
edge_calls-undirected n (user_list l) d calls u e = cc u

joins-sym : (n x y a b : ℕ) → joins n x y a b ≡ joins n y x a b
joins-sym n x y a b = ground arith

any_call-sym :
    (n x y : ℕ) (ids : List ℕ) (calls : List (ℕ × ℕ))
    → any_call (joins n x y) ids calls ≡ any_call (joins n y x) ids calls
any_call-sym n x y ids [] = refl
any_call-sym n x y ids ((i, j) ∷ calls) =
    let head = joins-sym n x y (get_or ids i 0) (get_or ids j 0) in
    rw (any_call-sym n x y ids calls, head) refl

-- The neighbours in a plan, by the calls that made it.
pub adjacent-Built :
    {order : List ℕ → List ℕ} {shape : Shape} {plan : List PeerAssignment}
    (b : Built order shape plan) (x y : ℕ)
    → is_undirected shape ≡ true
    → adjacent x y plan ≡ any_call (joins b.size x y) (order (range 0 b.size)) b.calls
adjacent-Built {order} {shape} {plan} b x y u =
    let ids = order (range 0 b.size) in
    let both : b.directed ≡ false =
      edge_calls-undirected b.size shape b.directed b.calls u b.called in
    let made : finish shape 0 (add_edges b.size false ids b.calls) ≡ plan =
      ap (λ d. finish shape 0 (add_edges b.size d ids b.calls)) (sym both) ∙ b.made in
    ap (adjacent x y) (sym made)
    ∙ adjacent-finish x y shape 0 (add_edges b.size false ids b.calls)
    ∙ adjacent-undirected b.size x y ids b.calls

-- In every topology but the unidirectional ring and the user's list, whatever order the identifiers
-- stand in, a peer is a neighbour of each of its neighbours.
pub build_topology-symmetric :
    (order : List ℕ → List ℕ) (n : ℕ) (shape : Shape) (plan : List PeerAssignment) (x y : ℕ)
    → is_undirected shape ≡ true
    → build_topology order (some (pos (suc n))) shape ≡ inr plan
    → adjacent x y plan ≡ adjacent y x plan
build_topology-symmetric order n shape plan x y u e =
    let b = (build_topology-Built order n shape plan e).0 in
    adjacent-Built b x y u
    ∙ any_call-sym b.size x y (order (range 0 b.size)) b.calls
    ∙ sym (adjacent-Built b y x u)

any_call-within :
    (n x y : ℕ) (ids : List ℕ) (calls : List (ℕ × ℕ))
    → any_call (joins n x y) ids calls ≡ true
    → (x ≢ y) × (x < n) × (y < n)
any_call-within n x y ids [] h = absurd (let e : false ≡ true = h in cc e)
any_call-within n x y ids ((i, j) ∷ calls) h =
    elim (Bool-cases (joins n x y (get_or ids i 0) (get_or ids j 0))) [
      | inl here ↦ (λ e. ground arith, ground arith, ground arith)
      | inr later ↦ any_call-within n x y ids calls (ground arith)
    ]

-- In every topology but the unidirectional ring and the user's list no peer is its own neighbour, and
-- both ends of an edge are among the peers.
pub build_topology-within :
    (order : List ℕ → List ℕ) (n : ℕ) (shape : Shape) (plan : List PeerAssignment) (x y : ℕ)
    → is_undirected shape ≡ true
    → build_topology order (some (pos (suc n))) shape ≡ inr plan
    → adjacent x y plan ≡ true
    → (x ≢ y) × (x < suc n) × (y < suc n)
build_topology-within order n shape plan x y u e h =
    let built = build_topology-Built order n shape plan e in
    let b = built.0 in
    let w =
      any_call-within b.size x y (order (range 0 b.size)) b.calls
        (sym (adjacent-Built b x y u) ∙ h) in
    (w.0, rw (sym built.1) w.1, rw (sym built.1) w.2)

pub adjacent-build :
    (order : List ℕ → List ℕ) (n : ℕ) (shape : Shape) (plan : List PeerAssignment)
    (calls : List (ℕ × ℕ)) (x y : ℕ)
    → edge_calls (suc n) shape ≡ inr (false, calls)
    → build_topology order (some (pos (suc n))) shape ≡ inr plan
    → adjacent x y plan ≡ any_call (joins (suc n) x y) (order (range 0 (suc n))) calls
unfolding build_topology require_positive_integer
adjacent-build order n shape plan calls x y called e =
    let ids = order (range 0 (suc n)) in
    let edges = add_edges (suc n) false ids calls in
    let made : finish shape 0 edges ≡ plan =
      eq_of_inr (build_topology order (some (pos (suc n))) shape) (finish shape 0 edges) plan
        (rw (called, build_topology) refl) e in
    ap (adjacent x y) (sym made)
    ∙ adjacent-finish x y shape 0 edges
    ∙ adjacent-undirected (suc n) x y ids calls
