-- ===== src/Topology.antt =====
-- quantas/Common/Concrete/Runtime/Topology/{PeerAssignment.hpp,TopologyPlanner.cpp}: who is whose
-- neighbour. The configuration is read already: a field that is missing or no integer is `none`, and
-- so is a key of the user's list that is not an integer as `std::to_string` prints it. `ids` is the
-- order in which the identifiers stand, shuffled or not. Products of `long long` do not wrap.
pub mod Edges
pub mod Shapes
pub mod Neighbours
pub mod Positions
pub mod Calls
pub mod Tests
use quantas.Common.{
  ℕ, zero, suc, ◌+◌, ◌-◌, ◌*◌, ◌%◌, Bool, true, false, not, ◌&&◌, ◌||◌, ◌⊎◌, inl, inr, Option, none,
  some, List, [], ◌∷◌, ◌++◌, ltb, ◌==◌, get_or, replicate, if◌then◌else◌,
}
use quantas.Common.Int.{ℤ, pos, negsuc}
use quantas.Common.Sets.{insert}

-- The types of `topology.type`, each with the fields that it reads.
pub data Shape : Type 0 where
  complete star chain ring unidirectional_ring unknown_shape : Shape
  grid torus : (height width : Option ℤ) → Shape
  user_list : Option (List (Option ℤ × Option (List (Option ℤ)))) → Shape

pub data TopologyError : Type 0 where
  not_an_integer not_positive small_torus wrong_size list_not_object invalid_peer_id : TopologyError
  not_an_array non_integer_neighbour out_of_range_neighbour own_peer_id unknown_type : TopologyError

pub record PeerAssignment : Type 0 where
  pub id : Option ℕ
  pub topology_type : Option Shape
  pub neighbors : List ℕ

pub unassigned : PeerAssignment
unassigned = record { id = none; topology_type = none; neighbors = [] }

unfoldable pub update_at :
    ℕ → (PeerAssignment → PeerAssignment) → List PeerAssignment → List PeerAssignment
update_at i f [] = []
update_at zero f (x ∷ xs) = f x ∷ xs
update_at (suc i) f (x ∷ xs) = x ∷ update_at i f xs

unfoldable pub name_peer : ℕ → PeerAssignment → PeerAssignment
name_peer a p = record p { id = some a }

unfoldable pub add_neighbor : ℕ → PeerAssignment → PeerAssignment
add_neighbor b p = record p { neighbors = insert b p.neighbors }

unfoldable pub add_undirected_edge : ℕ → ℕ → ℕ → List PeerAssignment → List PeerAssignment
unfolding name_peer add_neighbor update_at
add_undirected_edge n a b plan =
    if a == b || not (ltb a n) || not (ltb b n)
    then plan
    else update_at b (add_neighbor a)
        (update_at a (add_neighbor b) (update_at b (name_peer b) (update_at a (name_peer a) plan)))

unfoldable pub add_directed_edge : ℕ → ℕ → ℕ → List PeerAssignment → List PeerAssignment
unfolding name_peer add_neighbor update_at
add_directed_edge n from to plan =
    if not (ltb from n) || not (ltb to n)
    then plan
    else update_at from (add_neighbor to) (update_at from (name_peer from) plan)

-- The calls of a loop, each with the two positions in `ids` that it reads.
unfoldable pub add_all :
    (ℕ → ℕ → List PeerAssignment → List PeerAssignment)
    → List ℕ
    → List (ℕ × ℕ)
    → List PeerAssignment
    → List PeerAssignment
add_all add ids [] plan = plan
add_all add ids ((i, j) ∷ calls) plan =
    add_all add ids calls (add (get_or ids i 0) (get_or ids j 0) plan)

-- first, first + 1, …
unfoldable pub range : ℕ → ℕ → List ℕ
range first zero = []
range first (suc count) = first ∷ range (first + 1) count

unfoldable pub each : (ℕ → List (ℕ × ℕ)) → List ℕ → List (ℕ × ℕ)
each f [] = []
each f (i ∷ is) = f i ++ each f is

unfoldable pub complete_calls : ℕ → List (ℕ × ℕ)
unfolding each range
complete_calls n = each (λ i. each (λ j. (i, j) ∷ []) (range (i + 1) (n - (i + 1)))) (range 0 n)

unfoldable pub star_calls : ℕ → List (ℕ × ℕ)
unfolding each range
star_calls n = each (λ i. (0, i) ∷ []) (range 1 (n - 1))

unfoldable pub grid_calls : ℕ → ℕ → List (ℕ × ℕ)
unfolding each range
grid_calls height width =
    each
      (λ i.
        each
          (λ j.
            (if ltb (j + 1) width then (i * width + j, i * width + j + 1) ∷ [] else [])
            ++ (if ltb (i + 1) height then (i * width + j, i * width + j + width) ∷ [] else []))
          (range 0 width))
      (range 0 height)

unfoldable pub torus_calls : ℕ → ℕ → List (ℕ × ℕ)
unfolding each range
torus_calls height width =
    each
      (λ i.
        each
          (λ j.
            (i * width + j, i * width + (j + 1) % width)
            ∷ (i * width + j, ((i + 1) % height) * width + j)
            ∷ [])
          (range 0 width))
      (range 0 height)

unfoldable pub chain_calls : ℕ → List (ℕ × ℕ)
unfolding each range
chain_calls n = each (λ i. (i, i + 1) ∷ []) (range 0 (n - 1))

unfoldable pub ring_calls : ℕ → List (ℕ × ℕ)
unfolding each range
ring_calls n = each (λ i. (i, (i + 1) % n) ∷ []) (range 0 n)

-- A value, or the error that is thrown.
abbrev pub Checked : Type 0 → Type 0
Checked A = TopologyError ⊎ A

unfoldable pub require_positive_integer : Option ℤ → Checked ℕ
require_positive_integer none = inl not_an_integer
require_positive_integer (some (negsuc k)) = inl not_positive
require_positive_integer (some (pos zero)) = inl not_positive
require_positive_integer (some (pos (suc k))) = inr (suc k)

unfoldable pub check_size : Bool → ℕ → ℕ → ℕ → Checked (ℕ × ℕ)
check_size is_torus n height width =
    if is_torus && (ltb height 2 || ltb width 2)
    then inl small_torus
    else if not (height * width == n)
    then inl wrong_size
    else inr (height, width)

unfoldable pub validate_dimensions : Bool → ℕ → Option ℤ → Option ℤ → Checked (ℕ × ℕ)
unfolding check_size
validate_dimensions is_torus n height width = elim (require_positive_integer height) [
  | inl e ↦ inl e
  | inr h ↦ elim (require_positive_integer width) [
    | inl e ↦ inl e
    | inr w ↦ check_size is_torus n h w
  ]
]

unfoldable pub parse_peer_id : ℕ → Option ℤ → Checked ℕ
parse_peer_id n none = inl invalid_peer_id
parse_peer_id n (some (negsuc k)) = inl invalid_peer_id
parse_peer_id n (some (pos k)) = if ltb k n then inr k else inl invalid_peer_id

unfoldable pub read_neighbour : ℕ → ℕ → Option ℤ → Checked ℕ
read_neighbour n source none = inl non_integer_neighbour
read_neighbour n source (some (negsuc k)) = inl out_of_range_neighbour
read_neighbour n source (some (pos k)) =
    if not (ltb k n)
    then inl out_of_range_neighbour
    else if k == source
    then inl own_peer_id
    else inr k

unfoldable pub read_neighbours : ℕ → ℕ → List (Option ℤ) → Checked (List (ℕ × ℕ))
read_neighbours n source [] = inr []
read_neighbours n source (d ∷ ds) =
    let rest = read_neighbours n source ds in
    elim (read_neighbour n source d) [
      | inl e ↦ inl e
      | inr k ↦ elim rest [ inl e ↦ inl e | inr calls ↦ inr ((source, k) ∷ calls) ]
    ]

unfoldable pub read_entry : ℕ → Option ℤ × Option (List (Option ℤ)) → Checked (List (ℕ × ℕ))
read_entry n (key, value) = elim (parse_peer_id n key) [
  | inl e ↦ inl e
  | inr source ↦ elim value [ none ↦ inl not_an_array | some ds ↦ read_neighbours n source ds ]
]

unfoldable pub read_list : ℕ → List (Option ℤ × Option (List (Option ℤ))) → Checked (List (ℕ × ℕ))
read_list n [] = inr []
read_list n (x ∷ xs) =
    let rest = read_list n xs in
    elim (read_entry n x) [
      | inl e ↦ inl e
      | inr calls ↦ elim rest [ inl e ↦ inl e | inr more ↦ inr (calls ++ more) ]
    ]

-- The calls that add the edges, and whether these are directed.
unfoldable pub edge_calls : ℕ → Shape → Checked (Bool × List (ℕ × ℕ))
edge_calls n complete = inr (false, complete_calls n)
edge_calls n star = inr (false, star_calls n)
edge_calls n chain = inr (false, chain_calls n)
edge_calls n ring = inr (false, ring_calls n)
edge_calls n unidirectional_ring = inr (true, ring_calls n)
edge_calls n unknown_shape = inl unknown_type
edge_calls n (grid height width) = elim (validate_dimensions false n height width) [
  | inl e ↦ inl e
  | inr (h, w) ↦ inr (false, grid_calls h w)
]
edge_calls n (torus height width) = elim (validate_dimensions true n height width) [
  | inl e ↦ inl e
  | inr (h, w) ↦ inr (false, torus_calls h w)
]
edge_calls n (user_list none) = inl list_not_object
edge_calls n (user_list (some entries)) = elim (read_list n entries) [
  | inl e ↦ inl e
  | inr calls ↦ inr (true, calls)
]

unfoldable pub finish : Shape → ℕ → List PeerAssignment → List PeerAssignment
finish shape first [] = []
finish shape first (x ∷ xs) =
    record x { id = some first; topology_type = some shape } ∷ finish shape (first + 1) xs

unfoldable pub add_edges : ℕ → Bool → List ℕ → List (ℕ × ℕ) → List PeerAssignment
unfolding add_all unassigned
add_edges n directed ids calls =
    add_all (if directed then add_directed_edge n else add_undirected_edge n) ids calls
      (replicate n unassigned)

-- `order` is what becomes of the identifiers 0, 1, …: `std::shuffle`, or nothing.
unfoldable pub build_topology : (List ℕ → List ℕ) → Option ℤ → Shape → Checked (List PeerAssignment)
unfolding range
build_topology order initial_peers shape = elim (require_positive_integer initial_peers) [
  | inl e ↦ inl e
  | inr n ↦ elim (edge_calls n shape) [
    | inl e ↦ inl e
    | inr (directed, calls) ↦ inr (finish shape 0 (add_edges n directed (order (range 0 n)) calls))
  ]
]
