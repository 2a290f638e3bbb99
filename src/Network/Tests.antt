-- ===== src/Network/Tests.antt =====
-- Network.cpp on a shuffled ring of four peers, and the theorem there.
use quantas.Common.{◌≡◌, refl, arith, get_or}
use quantas.Topology.{ring, range, build_topology, edge_calls, require_positive_integer}
use quantas.Topology.Edges.{adjacent}
use quantas.Topology.Tests.{shuffled, ring_of_four, shuffled-Reorders}
use quantas.Network.{init_network}
use quantas.Network.Links.{knows}
use quantas.Network.Plans.{init_network-build_topology}

init_network-build_topology_example :
    knows 3 (get_or (shuffled (range 0 4)) 0 0) (init_network (shuffled (range 0 4)) ring)
    ≡ adjacent (get_or (shuffled (range 0 4)) 3 0) (get_or (shuffled (range 0 4)) 0 0) ring_of_four
unfolding build_topology edge_calls require_positive_integer
init_network-build_topology_example =
    init_network-build_topology shuffled 3 ring ring_of_four 3 0 shuffled-Reorders refl refl
      (omega arith) (omega arith) (ground arith)
