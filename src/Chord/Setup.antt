-- ===== src/Chord/Setup.antt =====
-- LinearChordPeer.cpp: the ring order, the finger tables and the end of a round.
pub mod Order
pub mod Fingers
pub mod Complete
pub mod Placed
use quantas.Common.{
  ℕ, zero, suc, ◌+◌, ◌-◌, ◌%◌, ◌^◌, Bool, true, false, not, ◌&&◌, Option, none, some, List, [], ◌∷◌,
  ◌++◌, map, length, get_or, ltb, leb, ◌==◌, if◌then◌else◌,
}
use quantas.Common.Int.{ℤ, pos, ◌+ℤ◌}
use quantas.Common.Maps.{lookup, assign, value_or}
use quantas.Chord.{FingerEntry, Message, Peer, linear_chord, lookup_kind, forward, satisfy}

-- while ((1 << bits) <= maxSkip) ++bits; with fuel
unfoldable pub count_bits : ℕ → ℕ → ℕ → ℕ
count_bits zero max_skip bits = bits
count_bits (suc fuel) max_skip bits = elim (leb (2 ^ bits) max_skip) [
  | true ↦ count_bits fuel max_skip (bits + 1)
  | false ↦ bits
]

pub last_is : ℕ → List FingerEntry → Bool
last_is node [] = false
last_is node (e ∷ []) = e.node_id == node
last_is node (e ∷ f ∷ es) = last_is node (f ∷ es)

unfoldable pub entry_of : List ℕ → ℕ → ℕ → FingerEntry
entry_of ring self skip =
    let size = length ring in
    let index = (self + skip) % size in
    record {
      node_id = get_or ring index 0;
      ring_index = index;
      skip = skip;
      skip_normalized = skip % size;
    }

-- One round of the loop over `k`.
pub add_finger : List ℕ → ℕ → ℕ → ℕ → List FingerEntry → List FingerEntry
unfolding entry_of last_is
add_finger ring self id k fingers =
    let skip = 2 ^ k in
    let normalized = skip % length ring in
    let entry = entry_of ring self skip in
    if normalized == 0
    then fingers
    else if entry.node_id == id
    then fingers
    else if last_is entry.node_id fingers
    then fingers
    else fingers ++ entry ∷ []

-- for (k = start; k < start + count; ++k)
pub add_fingers : List ℕ → ℕ → ℕ → ℕ → ℕ → List FingerEntry → List FingerEntry
add_fingers ring self id zero start fingers = fingers
add_fingers ring self id (suc count) start fingers =
    add_fingers ring self id count (start + 1) (add_finger ring self id start fingers)

pub build_finger_table : Peer → Peer
unfolding count_bits add_finger add_fingers
build_finger_table p =
    let size = length p.ring_order in
    if leb size 1 then record p { fingers = [] } else record p {
      fingers =
          add_fingers p.ring_order p.self_index p.public_id (count_bits size (size - 1) 0) 0 [];
    }

-- std::sort
pub insert_sorted : ℕ → List ℕ → List ℕ
insert_sorted a [] = a ∷ []
insert_sorted a (x ∷ xs) = if ltb a x then a ∷ x ∷ xs else x ∷ insert_sorted a xs

pub sort : List ℕ → List ℕ
unfolding insert_sorted
sort [] = []
sort (x ∷ xs) = insert_sorted x (sort xs)

-- for (idx = start; …) indexById[ringOrder[idx]] = idx;
unfoldable pub number_from : ℕ → List ℕ → List (ℕ × ℕ) → List (ℕ × ℕ)
number_from start [] index = index
number_from start (id ∷ ids) index = number_from (start + 1) ids (assign id start index)

unfoldable pub set_up : List ℕ → List (ℕ × ℕ) → Peer → Peer
unfolding build_finger_table
set_up ring index p = build_finger_table (record p {
  ring_order = ring;
  index_by_id = index;
  self_index = value_or 0 (lookup p.public_id index);
  requests_satisfied = 0;
  total_hops = 0;
  total_latency = pos 0;
  initialized = true;
})

pub init_parameters : List Peer → List Peer
unfolding sort number_from set_up
init_parameters peers =
    let ring = sort (map (λ (p : Peer). p.public_id) peers) in
    map (set_up ring (number_from 0 ring [])) peers

-- `index` is the draw of randMod(ringSize).
pub pick_random_target : ℕ → Peer → ℕ
pick_random_target index p = elim p.ring_order [
  | [] ↦ p.public_id
  | first ∷ rest ↦
      let ring = first ∷ rest in
      let candidate = get_or ring index 0 in
      if candidate == p.public_id && ltb 1 (length ring)
      then get_or ring ((index + 1) % length ring) 0
      else candidate
]

unfoldable pub make_lookup_template : ℕ → ℕ → ℕ → Peer → Message
make_lookup_template round target transaction p = record {
  type_name = linear_chord;
  message_type = lookup_kind;
  transaction_id = transaction;
  origin_id = p.public_id;
  target_id = some target;
  round_submitted = some round;
  hops = 0;
  last_hop = none;
}

pub submit_lookup : ℕ → ℕ → ℕ → Peer → Peer
unfolding pick_random_target make_lookup_template
submit_lookup round index transaction p = if not p.initialized then p else elim p.ring_order [
  | [] ↦ p
  | first ∷ rest ↦
      let target = pick_random_target index p in
      if target == p.public_id
      then record p { requests_satisfied = p.requests_satisfied + 1 }
      else forward p (make_lookup_template round target transaction p) target
]

pub record Totals : Type 0 where
  pub satisfied : ℕ
  pub hops : ℕ
  pub latency : ℤ

pub total : List Peer → Totals
total [] = record { satisfied = 0; hops = 0; latency = pos 0 }
total (p ∷ ps) = record {
  satisfied = p.requests_satisfied + (total ps).satisfied;
  hops = p.total_hops + (total ps).hops;
  latency = p.total_latency +ℤ (total ps).latency;
}

pub update_at : ℕ → (Peer → Peer) → List Peer → List Peer
update_at i f [] = []
update_at zero f (p ∷ ps) = f p ∷ ps
update_at (suc i) f (p ∷ ps) = p ∷ update_at i f ps

-- `idx` and `index` are the draws for the peer and for its target; the totals are what is logged.
pub end_of_round : ℕ → ℕ → ℕ → ℕ → List Peer → List Peer × ℕ × Option Totals
unfolding submit_lookup total update_at
end_of_round round idx index transaction [] = ([], transaction, none)
end_of_round round idx index transaction (p ∷ ps) =
    let peers = update_at idx (submit_lookup round index transaction) (p ∷ ps) in
    (peers, transaction + 1, some (total peers))
