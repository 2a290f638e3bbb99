-- ===== src/Chord/Clockwise.antt =====
-- LinearChordPeer.cpp: what `chooseClockwiseNeighbor` falls back to.
use quantas.Common.{ℕ, ◌≤◌, ◌<◌, ◌≡◌, true, Option, none, some, List, length}
use quantas.Common.Maps.{lookup}
use quantas.Common.Predicates.{Elem}
use quantas.Chord.{Peer, ring_distance, within}

-- How far clockwise the peer `id` at place `j` of the index stands, not being `p` itself.
abbrev pub Clockwise : Peer → ℕ → ℕ → Type 0
Clockwise p id j =
    (lookup id p.index_by_id ≡ some j) × (0 < ring_distance (length p.ring_order) p.self_index j)

-- The best neighbour so far has the distance that is kept beside it, which is within the limit.
abbrev Best : Peer → ℕ → Option ℕ × ℕ → Type 0
Best p limit (none, d) = d ≡ length p.ring_order
Best p limit (some id, d) =
    (j : ℕ) × Clockwise p id j
    × (ring_distance (length p.ring_order) p.self_index j ≡ d)
    × (d ≤ limit)

-- A bound on the distances that a scan accepts.
abbrev Limits : Peer → Option ℕ → ℕ → Type 0
Limits p o limit = (d : ℕ) → within o d ≡ true → d < length p.ring_order → d ≤ limit

-- No neighbour on the ring is nearer clockwise than place `j`.
abbrev pub Nearest : Peer → List ℕ → ℕ → Type 0
Nearest p nbrs j =
    (n k : ℕ)
    → Elem n nbrs
    → Clockwise p n k
    → ring_distance (length p.ring_order) p.self_index j
      ≤ ring_distance (length p.ring_order) p.self_index k
