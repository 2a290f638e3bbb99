-- ===== src/Network.antt =====
-- quantas/Common/Abstract/Network.cpp: the neighbours that initNetwork gives the peers of a simulation.
-- `ids` are the internal ids in the order of `_peers`, shuffled or not; a builder is the list of its
-- calls `_peers[i]->addNeighbor(_peers[j]->internalId())`, in their order, and a position out of range
-- has no peer. The types of topology are those of Topology.
pub mod Links
pub mod Rings
pub mod Plans
pub mod Tests
use quantas.Common.{
  ℕ, zero, suc, ◌+◌, ◌-◌, ◌*◌, ◌%◌, Option, none, some, List, [], ◌∷◌, ◌++◌, length, ltb, get_or,
  if◌then◌else◌,
}
use quantas.Common.Int.{ℤ, pos_part}
use quantas.Common.Sets.{insert}
use quantas.Topology.{
  Shape, complete, star, chain, ring, unidirectional_ring, unknown_shape, grid, torus, user_list,
  range, each,
}

pub record NetPeer : Type 0 where
  pub internal_id : ℕ
  pub neighbors : List ℕ

unfoldable pub add_neighbor_at : ℕ → ℕ → List NetPeer → List NetPeer
add_neighbor_at i b [] = []
add_neighbor_at zero b (p ∷ ps) = record p { neighbors = insert b p.neighbors } ∷ ps
add_neighbor_at (suc i) b (p ∷ ps) = p ∷ add_neighbor_at i b ps

unfoldable pub link_all : List ℕ → List (ℕ × ℕ) → List NetPeer → List NetPeer
unfolding add_neighbor_at
link_all ids [] peers = peers
link_all ids ((i, j) ∷ links) peers = link_all ids links (add_neighbor_at i (get_or ids j 0) peers)

unfoldable pub make_peers : List ℕ → List NetPeer
make_peers [] = []
make_peers (a ∷ ids) = record { internal_id = a; neighbors = [] } ∷ make_peers ids

unfoldable pub fully_connect : ℕ → List (ℕ × ℕ)
fully_connect n =
    each (λ i. each (λ j. (i, j) ∷ (j, i) ∷ []) (range (i + 1) (n - (i + 1)))) (range 0 n)

unfoldable pub star_links : ℕ → List (ℕ × ℕ)
star_links n = each (λ i. (0, i) ∷ (i, 0) ∷ []) (range 1 (n - 1))

unfoldable pub grid_links : ℕ → ℕ → List (ℕ × ℕ)
grid_links height width =
    each
      (λ i.
        each
          (λ j.
            let idx = i * width + j in
            (if ltb (j + 1) width then (idx, idx + 1) ∷ (idx + 1, idx) ∷ [] else [])
            ++ (if ltb (i + 1) height then (idx, idx + width) ∷ (idx + width, idx) ∷ [] else []))
          (range 0 width))
      (range 0 height)

unfoldable pub torus_links : ℕ → ℕ → List (ℕ × ℕ)
torus_links height width =
    each
      (λ i.
        each
          (λ j.
            let idx = i * width + j in
            let right = i * width + (j + 1) % width in
            let down = ((i + 1) % height) * width + j in
            (idx, right) ∷ (right, idx) ∷ (idx, down) ∷ (down, idx) ∷ [])
          (range 0 width))
      (range 0 height)

unfoldable pub chain_links : ℕ → List (ℕ × ℕ)
chain_links n = each (λ i. (i, i + 1) ∷ (i + 1, i) ∷ []) (range 0 (n - 1))

unfoldable pub ring_links : ℕ → List (ℕ × ℕ)
unfolding chain_links
ring_links n = chain_links n ++ (if ltb 1 n then (n - 1, 0) ∷ (0, n - 1) ∷ [] else [])

unfoldable pub unidirectional_ring_links : ℕ → List (ℕ × ℕ)
unidirectional_ring_links n =
    each (λ i. (i, i + 1) ∷ []) (range 0 (n - 1)) ++ (if ltb 1 n then (n - 1, 0) ∷ [] else [])

-- topology.value(…, 1), where a loop up to a number below 1 does nothing
unfoldable pub dimension : Option ℤ → ℕ
dimension none = 1
dimension (some k) = pos_part k

-- The links of a type; the user's list has none, since it adds the ids that it holds.
unfoldable pub links_of : ℕ → Shape → List (ℕ × ℕ)
unfolding fully_connect star_links grid_links torus_links chain_links ring_links
    unidirectional_ring_links dimension
links_of n complete = fully_connect n
links_of n star = star_links n
links_of n (grid height width) = grid_links (dimension height) (dimension width)
links_of n (torus height width) = torus_links (dimension height) (dimension width)
links_of n chain = chain_links n
links_of n ring = ring_links n
links_of n unidirectional_ring = unidirectional_ring_links n
links_of n (user_list l) = []
links_of n unknown_shape = []

-- initNetwork up to the channels, but for the user's list.
unfoldable pub init_network : List ℕ → Shape → List NetPeer
unfolding link_all make_peers links_of
init_network ids shape = link_all ids (links_of (length ids) shape) (make_peers ids)
