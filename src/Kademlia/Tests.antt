-- ===== src/Kademlia/Tests.antt =====
-- KademliaPeer.cpp on eight ids of three bits, and the theorems there.
use quantas.Common.{ℕ, ◌<◌, ◌≤◌, ◌^◌, ◌%◌, ◌≡◌, ◌≢◌, refl, true, false, some, [], ◌∷◌, arith, inl}
use quantas.Common.Int.{pos}
use quantas.Common.Sets.{contains}
use quantas.Common.Predicates.{All, Elem}
use quantas.Kademlia.{
  KademliaFinger, Peer, get_binary_id, xor_distance, xor_word, first_different_bit, same_bit,
  next_bit, consider, closest_of, select_closest_by_distance, find_route, rebuild_finger_table,
  group_all, pick, put, add_entry, entry_of,
}
use quantas.Kademlia.Bits.{IsLater}
use quantas.Kademlia.Words.{value_of, value_of-get_binary_id}
use quantas.Kademlia.Routes.{find_route-IsLater}
use quantas.Kademlia.Closest.{select_closest_by_distance-Closest}
use quantas.Kademlia.Rounds.{Global, init_parameters}
use quantas.Kademlia.Setup.{IsReady, init_parameters-IsReady}
use quantas.Kademlia.Fingers.{rebuild_finger_table-IsFinger}

-- Peer 1, whose neighbours are 2, 5, 6 and 7.
abbrev bare_1 : Peer
bare_1 = record {
  public_id = 1;
  neighbors = 2 ∷ 5 ∷ 6 ∷ 7 ∷ [];
  binary_id_size = 3;
  binary_id = false ∷ false ∷ true ∷ [];
  all_peer_ids = [];
  fingers = [];
  last_neighbor_fingerprint = 0;
  requests_satisfied = 0;
  total_hops = 0;
  latency = pos 0;
  alive = true;
  initialized = true;
  outbox = [];
}

abbrev peer_1 : Peer
peer_1 = rebuild_finger_table (1 ∷ []) (2 ∷ 5 ∷ 6 ∷ 7 ∷ []) bare_1

binary_4 : get_binary_id 3 4 ≡ true ∷ false ∷ false ∷ []
unfolding get_binary_id
binary_4 = refl

abbrev finger_6 : KademliaFinger
finger_6 = record { id = 6; bin_id = true ∷ true ∷ false ∷ []; group = some 0 }

find_route-IsLater_example :
    (next : ℕ) × (find_route 0 peer_1 (true ∷ false ∷ false ∷ []) 4 (2 ∷ 5 ∷ 6 ∷ 7 ∷ [])
      ≡ some next)
    × (contains next (2 ∷ 5 ∷ 6 ∷ 7 ∷ []) ≡ true)
    × IsLater 0 (first_different_bit (true ∷ false ∷ false ∷ []) (get_binary_id 3 next))
unfolding rebuild_finger_table group_all pick put add_entry entry_of first_different_bit same_bit
    next_bit get_binary_id
find_route-IsLater_example =
    find_route-IsLater 0 peer_1 (true ∷ false ∷ false ∷ []) 4 0 finger_6 (2 ∷ 5 ∷ 6 ∷ 7 ∷ [])
      (rebuild_finger_table-IsFinger (1 ∷ []) (2 ∷ 5 ∷ 6 ∷ 7 ∷ []) bare_1) refl (inl refl) refl refl
      (λ some_there. some_there)

select_closest_by_distance-Closest_example :
    Elem {A = ℕ} 5 (2 ∷ 5 ∷ 6 ∷ 7 ∷ [])
    × (5 ≢ bare_1.public_id)
    × (xor_distance 5 4 < xor_distance 1 4)
    × All (λ m. m ≢ 1 → xor_distance 5 4 ≤ xor_distance m 4) (2 ∷ 5 ∷ 6 ∷ 7 ∷ [])
unfolding select_closest_by_distance closest_of consider xor_distance xor_word
select_closest_by_distance-Closest_example =
    select_closest_by_distance-Closest bare_1 4 5 (2 ∷ 5 ∷ 6 ∷ 7 ∷ []) refl

abbrev no_globals : Global
no_globals = record { all_ids = []; id_size = 1; current_transaction_id = 1 }

init_parameters-IsReady_example :
    All
      (IsReady (init_parameters (bare_1 ∷ peer_1 ∷ []) no_globals).0.id_size)
      (init_parameters (bare_1 ∷ peer_1 ∷ []) no_globals).1
    × (0 < (init_parameters (bare_1 ∷ peer_1 ∷ []) no_globals).0.id_size)
    × (2 ≤ 2 ^ (init_parameters (bare_1 ∷ peer_1 ∷ []) no_globals).0.id_size)
init_parameters-IsReady_example =
    init_parameters-IsReady bare_1 (peer_1 ∷ []) no_globals (ground arith)

value_of-get_binary_id_example : value_of (get_binary_id 3 13) ≡ 13 % 2 ^ 3
value_of-get_binary_id_example = value_of-get_binary_id 3 13 (omega arith)
