-- ===== src/Topology/Edges.antt =====
-- TopologyPlanner.cpp: what the calls that add an edge make of the neighbours.
use quantas.Common.{
  ℕ, zero, suc, ◌+◌, ◌<◌, ◌≡◌, refl, ap, ◌∙◌, inl, inr, Bool, true, false, not, ◌&&◌, ◌||◌, List,
  [], ◌∷◌, arith, length, ltb, ◌==◌, get_or, replicate, length-replicate, Bool-cases,
}
use quantas.Common.Sets.{contains, contains-insert}
use quantas.Topology.{
  Shape, PeerAssignment, unassigned, update_at, name_peer, add_neighbor, add_undirected_edge,
  add_directed_edge, add_all, add_edges, finish,
}

unfoldable pub neighbors_of : ℕ → List PeerAssignment → List ℕ
neighbors_of x [] = []
neighbors_of zero (p ∷ ps) = p.neighbors
neighbors_of (suc x) (p ∷ ps) = neighbors_of x ps

-- The peer `y` is a neighbour of `x`.
unfoldable pub adjacent : ℕ → ℕ → List PeerAssignment → Bool
unfolding neighbors_of
adjacent x y plan = contains y (neighbors_of x plan)

-- `x` and `y` are the two ends of a call that adds an edge.
abbrev pub joins : ℕ → ℕ → ℕ → ℕ → ℕ → Bool
joins n x y a b = not (a == b) && ltb a n && ltb b n && ((x == a && y == b) || (x == b && y == a))

-- A call that adds an edge goes from `x` to `y`.
abbrev pub points : ℕ → ℕ → ℕ → ℕ → ℕ → Bool
points n x y a b = ltb a n && ltb b n && x == a && y == b

abbrev pub any_call : (ℕ → ℕ → Bool) → List ℕ → List (ℕ × ℕ) → Bool
any_call test ids [] = false
any_call test ids ((i, j) ∷ calls) =
    test (get_or ids i 0) (get_or ids j 0) || any_call test ids calls

length-update_at :
    (i : ℕ) (f : PeerAssignment → PeerAssignment) (plan : List PeerAssignment)
    → length (update_at i f plan) ≡ length plan
unfolding update_at
length-update_at i f [] = refl
length-update_at zero f (x ∷ xs) = refl
length-update_at (suc i) f (x ∷ xs) = ap suc (length-update_at i f xs)

neighbors_of-name :
    (x a c : ℕ) (plan : List PeerAssignment)
    → neighbors_of x (update_at a (name_peer c) plan) ≡ neighbors_of x plan
unfolding neighbors_of update_at name_peer
neighbors_of-name x a c [] = refl
neighbors_of-name zero zero c (p ∷ ps) = refl
neighbors_of-name (suc x) zero c (p ∷ ps) = refl
neighbors_of-name zero (suc a) c (p ∷ ps) = refl
neighbors_of-name (suc x) (suc a) c (p ∷ ps) = neighbors_of-name x a c ps

adjacent-name :
    (x y a c : ℕ) (plan : List PeerAssignment)
    → adjacent x y (update_at a (name_peer c) plan) ≡ adjacent x y plan
unfolding adjacent
adjacent-name x y a c plan = ap (contains y) (neighbors_of-name x a c plan)

adjacent-add :
    (x y a b : ℕ) (plan : List PeerAssignment)
    → a < length plan
    → adjacent x y (update_at a (add_neighbor b) plan) ≡ (adjacent x y plan || (x == a && y == b))
unfolding adjacent neighbors_of update_at add_neighbor
adjacent-add x y a b [] h = elim h [ ]
adjacent-add zero y zero b (p ∷ ps) h = ground (arith, contains-insert b y p.neighbors)
adjacent-add (suc x) y zero b (p ∷ ps) h = ground arith
adjacent-add zero y (suc a) b (p ∷ ps) h = ground arith
adjacent-add (suc x) y (suc a) b (p ∷ ps) h = ground (arith, adjacent-add x y a b ps (omega arith))

length-add_undirected :
    (n a b : ℕ) (plan : List PeerAssignment) → length (add_undirected_edge n a b plan) ≡ length plan
unfolding add_undirected_edge
length-add_undirected n a b plan = elim (Bool-cases (a == b || not (ltb a n) || not (ltb b n))) [
  | inl skip ↦ rw skip refl
  | inr add ↦
      rw
        (
          add,
          length-update_at b (add_neighbor a),
          length-update_at a (add_neighbor b),
          length-update_at b (name_peer b),
          length-update_at a (name_peer a),
        )
        refl
]

length-add_directed :
    (n a b : ℕ) (plan : List PeerAssignment) → length (add_directed_edge n a b plan) ≡ length plan
unfolding add_directed_edge
length-add_directed n a b plan = elim (Bool-cases (not (ltb a n) || not (ltb b n))) [
  | inl skip ↦ rw skip refl
  | inr add ↦ rw (add, length-update_at a (add_neighbor b), length-update_at a (name_peer a)) refl
]

adjacent-add_undirected :
    (n x y a b : ℕ) (plan : List PeerAssignment)
    → length plan ≡ n
    → adjacent x y (add_undirected_edge n a b plan) ≡ (adjacent x y plan || joins n x y a b)
unfolding add_undirected_edge
adjacent-add_undirected n x y a b plan len =
    let named_a = update_at a (name_peer a) plan in
    let named = update_at b (name_peer b) named_a in
    let once = update_at a (add_neighbor b) named in
    let size_a = length-update_at a (name_peer a) plan in
    let size = length-update_at b (name_peer b) named_a in
    let size_once = length-update_at a (add_neighbor b) named in
    elim (Bool-cases (a == b || not (ltb a n) || not (ltb b n))) [
      | inl skip ↦ ground arith
      | inr add ↦ ground (
        arith,
        adjacent-add x y b a once (ground arith),
        adjacent-add x y a b named (ground arith),
        adjacent-name x y b b named_a,
        adjacent-name x y a a plan,
      )
    ]

adjacent-add_directed :
    (n x y a b : ℕ) (plan : List PeerAssignment)
    → length plan ≡ n
    → adjacent x y (add_directed_edge n a b plan) ≡ (adjacent x y plan || points n x y a b)
unfolding add_directed_edge
adjacent-add_directed n x y a b plan len =
    let named = update_at a (name_peer a) plan in
    let size = length-update_at a (name_peer a) plan in
    elim (Bool-cases (not (ltb a n) || not (ltb b n))) [
      | inl skip ↦ ground arith
      | inr add ↦
          ground (arith, adjacent-add x y a b named (ground arith), adjacent-name x y a a plan)
    ]

-- The edges after all of the calls.
module _ (n x y : ℕ) (add : ℕ → ℕ → List PeerAssignment → List PeerAssignment) (test : ℕ → ℕ → Bool)
    (keeps : (a b : ℕ) (plan : List PeerAssignment) → length (add a b plan) ≡ length plan)
    (adds : (a b : ℕ) (plan : List PeerAssignment)
      → length plan ≡ n
      → adjacent x y (add a b plan) ≡ (adjacent x y plan || test a b)) where
  adjacent-add_all :
      (ids : List ℕ) (calls : List (ℕ × ℕ)) (plan : List PeerAssignment)
      → length plan ≡ n
      → adjacent x y (add_all add ids calls plan) ≡ (adjacent x y plan || any_call test ids calls)
  unfolding add_all
  adjacent-add_all ids [] plan len = ground arith
  adjacent-add_all ids ((i, j) ∷ calls) plan len =
      let a = get_or ids i 0 in
      let b = get_or ids j 0 in
      let rest = adjacent-add_all ids calls (add a b plan) (keeps a b plan ∙ len) in
      ground (arith, rest, adds a b plan len)

adjacent-unassigned : (n x y : ℕ) → adjacent x y (replicate n unassigned) ≡ false
unfolding adjacent neighbors_of unassigned
adjacent-unassigned zero x y = refl
adjacent-unassigned (suc n) zero y = refl
adjacent-unassigned (suc n) (suc x) y = adjacent-unassigned n x y

pub adjacent-undirected :
    (n x y : ℕ) (ids : List ℕ) (calls : List (ℕ × ℕ))
    → adjacent x y (add_edges n false ids calls) ≡ any_call (joins n x y) ids calls
unfolding add_edges
adjacent-undirected n x y ids calls = ground (
  arith,
  adjacent-add_all n x y (add_undirected_edge n) (joins n x y) (length-add_undirected n)
      (adjacent-add_undirected n x y) ids calls (replicate n unassigned)
      (length-replicate n unassigned),
  adjacent-unassigned n x y,
)

pub adjacent-directed :
    (n x y : ℕ) (ids : List ℕ) (calls : List (ℕ × ℕ))
    → adjacent x y (add_edges n true ids calls) ≡ any_call (points n x y) ids calls
unfolding add_edges
adjacent-directed n x y ids calls = ground (
  arith,
  adjacent-add_all n x y (add_directed_edge n) (points n x y) (length-add_directed n)
      (adjacent-add_directed n x y) ids calls (replicate n unassigned)
      (length-replicate n unassigned),
  adjacent-unassigned n x y,
)

pub adjacent-finish :
    (x y : ℕ) (shape : Shape) (first : ℕ) (plan : List PeerAssignment)
    → adjacent x y (finish shape first plan) ≡ adjacent x y plan
unfolding adjacent neighbors_of finish
adjacent-finish x y shape first [] = refl
adjacent-finish zero y shape first (p ∷ ps) = refl
adjacent-finish (suc x) y shape first (p ∷ ps) = adjacent-finish x y shape (first + 1) ps
