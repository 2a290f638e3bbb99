-- ===== src/Kademlia/Rounds.antt =====
-- KademliaPeer.cpp: set-up, the rounds of a peer and the lookups that are submitted. The static members
-- of the class are the record `Global`. A message is `none` if it is not a lookup of this protocol.
use quantas.Common.{
  ℕ, zero, suc, ◌+◌, ◌^◌, Bool, true, false, not, ◌&&◌, ◌||◌, Option, none, some, List, [], ◌∷◌,
  map, length, ltb, leb, ◌==◌, get_or, if◌then◌else◌,
}
use quantas.Common.Int.{ℤ, pos, ◌+ℤ◌}
use quantas.Kademlia.{
  KademliaFinger, Lookup, Peer, get_binary_id, forward, is_empty, handle_lookup,
  neighbor_fingerprint, rebuild_finger_table,
}

pub record Global : Type 0 where
  pub all_ids : List ℕ
  pub id_size : ℕ
  pub current_transaction_id : ℕ

-- The least k from `k` on with n ≤ 2 ^ k. It is std::ceil(std::log2(n)) for as many peers as the
-- rounding of doubles does not matter for: from 2 ^ 49 + 1 on the source may find one bit fewer, and
-- what is said of it is for 2 ^ 32 peers at most.
unfoldable pub ceil_log2_from : ℕ → ℕ → ℕ → ℕ
ceil_log2_from zero k n = k
ceil_log2_from (suc fuel) k n =
    let rest = ceil_log2_from fuel (k + 1) n in if leb n (2 ^ k) then k else rest

unfoldable pub at_least_one : ℕ → ℕ
at_least_one zero = 1
at_least_one (suc n) = suc n

unfoldable pub binary_size : ℕ → ℕ
unfolding ceil_log2_from at_least_one
binary_size count =
    let n = at_least_one count in
    let size = at_least_one (ceil_log2_from n 0 n) in if ltb 64 size then 64 else size

unfoldable pub is_none : List ℕ → Bool
is_none [] = true
is_none (i ∷ is) = false

unfoldable pub apply_global_parameters : Global → Peer → Peer
unfolding is_none
apply_global_parameters g p = if g.id_size == 0 || is_none g.all_ids then p else record p {
  binary_id_size = g.id_size;
  all_peer_ids = g.all_ids;
  binary_id = get_binary_id g.id_size p.public_id;
  initialized = true;
}

unfoldable pub clear_peer : Peer → Peer
clear_peer p = record p {
  requests_satisfied = 0;
  total_hops = 0;
  latency = pos 0;
  fingers = [];
  last_neighbor_fingerprint = 0;
}

unfoldable pub set_up_all : Global → List Peer → List Peer
unfolding clear_peer
set_up_all g [] = []
set_up_all g (p ∷ ps) = clear_peer (apply_global_parameters g p) ∷ set_up_all g ps

unfoldable pub new_global : List Peer → Global → Global
unfolding binary_size
new_global ps g = record g {
  all_ids = map (λ (p : Peer). p.public_id) ps;
  id_size = binary_size (length ps);
}

unfoldable pub init_parameters : List Peer → Global → Global × List Peer
init_parameters ps g = let g' = new_global ps g in (g', set_up_all g' ps)

unfoldable pub ensure_initialized : Global → Peer → Peer
unfolding is_none
ensure_initialized g p =
    if not p.initialized
    then apply_global_parameters g p
    else let sized : Peer =
        (if not (g.id_size == 0) && not (p.binary_id_size == g.id_size)
          then record p {
            binary_id_size = g.id_size;
            binary_id = get_binary_id g.id_size p.public_id;
          }
          else p) in
      if is_none g.all_ids then sized else record sized { all_peer_ids = g.all_ids }

-- Each message with what is drawn for it.
unfoldable pub check_in_strm : ℕ → List (ℕ × Option Lookup) → Peer → Peer
check_in_strm round [] p = p
check_in_strm round ((drawn, none) ∷ ms) p = check_in_strm round ms p
check_in_strm round ((drawn, some msg) ∷ ms) p =
    check_in_strm round ms (handle_lookup drawn round msg p)

unfoldable pub no_fingers : List KademliaFinger → Bool
no_fingers [] = true
no_fingers (f ∷ fs) = false

unfoldable pub refresh : List ℕ → Peer → Peer
unfolding no_fingers
refresh draws p =
    if no_fingers p.fingers || not (neighbor_fingerprint p.neighbors == p.last_neighbor_fingerprint)
    then rebuild_finger_table draws p.neighbors p
    else p

unfoldable pub perform_computation : Global → ℕ → List ℕ → List (ℕ × Option Lookup) → Peer → Peer
unfolding refresh
perform_computation g round draws ms p =
    if not p.alive
    then p
    else let ready = ensure_initialized g p in
      if not ready.initialized then ready else check_in_strm round ms (refresh draws ready)

unfoldable pub make_lookup_message : ℕ → ℕ → List Bool → Peer → Lookup
make_lookup_message round target target_binary p = record {
  origin_id = some p.public_id;
  target_id = some target;
  target_binary_id = target_binary;
  round_submitted = some round;
  hops = 0;
  last_hop = none;
}

-- `index` is what is drawn for the target, and `drawn` for the finger.
unfoldable pub submit_lookup : ℕ → ℕ → ℕ → Peer → Peer
unfolding make_lookup_message is_none
submit_lookup index drawn round p =
    let target = (if is_none p.all_peer_ids then p.public_id else get_or p.all_peer_ids index 0) in
    let msg = make_lookup_message round target (get_binary_id p.binary_id_size target) p in
    if not p.initialized
    then p
    else if target == p.public_id
    then record p { requests_satisfied = p.requests_satisfied + 1 }
    else if is_empty p.neighbors
    then p
    else forward drawn target msg p

unfoldable pub update_at : ℕ → (Peer → Peer) → List Peer → List Peer
update_at i f [] = []
update_at zero f (p ∷ ps) = f p ∷ ps
update_at (suc i) f (p ∷ ps) = p ∷ update_at i f ps

-- What is logged: the requests satisfied, their hops and their latency.
pub record Totals : Type 0 where
  pub satisfied : ℕ
  pub hops : ℕ
  pub latency : ℤ

unfoldable pub totals : List Peer → Totals
totals [] = record { satisfied = 0; hops = 0; latency = pos 0 }
totals (p ∷ ps) =
    let rest = totals ps in
    record {
      satisfied = p.requests_satisfied + rest.satisfied;
      hops = p.total_hops + rest.hops;
      latency = p.latency +ℤ rest.latency;
    }

-- `chosen` is what is drawn for the peer that submits a lookup.
unfoldable pub end_of_round : ℕ → ℕ → ℕ → ℕ → Global → List Peer → (Global × List Peer) × Totals
unfolding update_at totals
end_of_round chosen index drawn round g [] = ((g, []), totals [])
end_of_round chosen index drawn round g (p ∷ ps) =
    let after = update_at chosen (submit_lookup index drawn round) (p ∷ ps) in
    ((record g { current_transaction_id = g.current_transaction_id + 1 }, after), totals after)
