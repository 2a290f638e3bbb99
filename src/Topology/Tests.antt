-- ===== src/Topology/Tests.antt =====
-- TopologyPlanner.cpp on four peers, and the theorems there.
use quantas.Common.{
  ℕ, zero, suc, ◌+◌, ◌%◌, ◌<◌, ◌≡◌, refl, ◌≢◌, ◌↔◌, ◌⊎◌, inl, true, false, not, some, List, [], ◌∷◌,
  ◌==◌, arith, get_or,
}
use quantas.Common.Int.{pos}
use quantas.Common.Predicates.{All}
use quantas.Topology.{
  complete, ring, grid, wrong_size, PeerAssignment, range, add_edges, build_topology, edge_calls,
  finish, grid_calls, ring_calls, require_positive_integer, validate_dimensions, each, add_all,
  add_undirected_edge, update_at, name_peer, add_neighbor, complete_calls, not_positive,
}
use quantas.Topology.Edges.{adjacent}
use quantas.Topology.Shapes.{build_topology-symmetric, build_topology-within}
use quantas.Topology.Neighbours.{Reorders, build_topology-complete, build_topology-ring}
use quantas.Topology.Positions.{InRange}
use quantas.Topology.Calls.{edge_calls-InRange}

-- 2, 0, 3, 1 in place of 0, 1, 2, 3.
abbrev pub shuffled : List ℕ → List ℕ
shuffled xs = get_or xs 2 0 ∷ get_or xs 0 0 ∷ get_or xs 3 0 ∷ get_or xs 1 0 ∷ []

abbrev pub ring_of_four : List PeerAssignment
ring_of_four = finish ring 0 (add_edges 4 false (shuffled (range 0 4)) (ring_calls 4))

abbrev complete_of_four : List PeerAssignment
complete_of_four = finish complete 0 (add_edges 4 false (shuffled (range 0 4)) (complete_calls 4))

-- A product that does not fit, and no peers.
wrong_grid :
    build_topology shuffled (some (pos 4)) (grid (some (pos 2)) (some (pos 3))) ≡ inl wrong_size
unfolding build_topology edge_calls validate_dimensions require_positive_integer
wrong_grid = refl

no_peers : build_topology shuffled (some (pos 0)) complete ≡ inl not_positive
unfolding build_topology require_positive_integer
no_peers = refl

shuffled-lt : (i : ℕ) → i < 4 → get_or (shuffled (range 0 4)) i 0 < 4
unfolding range
shuffled-lt zero lt = omega arith
shuffled-lt (suc zero) lt = omega arith
shuffled-lt (suc (suc zero)) lt = omega arith
shuffled-lt (suc (suc (suc zero))) lt = omega arith
shuffled-lt (suc (suc (suc (suc i)))) lt = absurd (omega (arith, lt))

pub shuffled-Reorders : Reorders 4 (shuffled (range 0 4))
unfolding range
shuffled-Reorders = record {
  same_length = refl;
  all_differ = grind arith;
  all_there = λ x lt. ground arith;
  all_below = shuffled-lt;
}

build_topology-symmetric_example : adjacent 2 0 ring_of_four ≡ adjacent 0 2 ring_of_four
unfolding build_topology edge_calls require_positive_integer
build_topology-symmetric_example =
    build_topology-symmetric shuffled 3 ring ring_of_four 2 0 refl refl

build_topology-within_example : (◌≢◌ {A = ℕ} 2 0) × (2 < 4) × (0 < 4)
unfolding build_topology edge_calls require_positive_integer adjacent finish add_edges add_all
    add_undirected_edge update_at name_peer add_neighbor ring_calls range each
build_topology-within_example =
    build_topology-within shuffled 3 ring ring_of_four 2 0 refl refl refl

build_topology-complete_example : adjacent 3 1 complete_of_four ≡ not (3 == 1)
unfolding build_topology edge_calls require_positive_integer
build_topology-complete_example =
    build_topology-complete shuffled 3 complete_of_four 3 1 shuffled-Reorders refl (omega arith)
      (omega arith)

build_topology-ring_example :
    (adjacent (get_or (shuffled (range 0 4)) 3 0) (get_or (shuffled (range 0 4)) 0 0) ring_of_four
      ≡ true)
    ↔ ((0 ≡ (3 + 1) % 4) ⊎ (3 ≡ (0 + 1) % 4))
unfolding build_topology edge_calls require_positive_integer
build_topology-ring_example =
    build_topology-ring shuffled 3 ring_of_four 3 0 shuffled-Reorders refl (omega arith)
      (omega arith) (ground arith)

edge_calls-InRange_example : All (InRange 6) (grid_calls 2 3)
unfolding edge_calls validate_dimensions require_positive_integer
edge_calls-InRange_example =
    edge_calls-InRange 6 (grid (some (pos 2)) (some (pos 3))) false (grid_calls 2 3) refl
