-- ===== src/Chord.antt =====
-- quantas/LinearChordPeer/LinearChordPeer.{hpp,cpp}: lookups over a ring of peers with fingers.
-- An `interfaceId` is a number, and `none` where the source has NO_PEER_ID; a set of ids is a list
-- in increasing order. A round (RoundManager::currentRound()) and the draw of `randMod` are
-- arguments. `size_t` and `int` do not wrap: a ring has fewer than 2^63 peers.
pub mod Distance
pub mod Routing
pub mod Clockwise
pub mod Setup
pub mod Delivery
mod Tests
use quantas.Common.{
  ℕ, zero, suc, ◌+◌, ◌-◌, ◌%◌, ◌^◌, Bool, true, false, not, ◌&&◌, ◌||◌, Option, none, some, List,
  [], ◌∷◌, ◌++◌, length, get_or, ltb, leb, ◌==◌, if◌then◌else◌,
}
use quantas.Common.Int.{ℤ, pos, ◌+ℤ◌, ◌-ℤ◌}
use quantas.Common.Sets.{contains}
use quantas.Common.Maps.{lookup, value_or}

pub record FingerEntry : Type 0 where
  pub node_id : ℕ
  pub ring_index : ℕ
  pub skip : ℕ
  pub skip_normalized : ℕ

-- The "type" and the "messageType" of a message; `other` is any other text, or none.
pub data MessageType : Type 0 where
  linear_chord other_type : MessageType

pub data MessageKind : Type 0 where
  lookup_kind other_kind : MessageKind

-- `target_id` is `none` for NO_PEER_ID and for a message without the key, `hops` is 0 without it.
pub record Message : Type 0 where
  pub type_name : MessageType
  pub message_type : MessageKind
  pub transaction_id : ℕ
  pub origin_id : ℕ
  pub target_id : Option ℕ
  pub round_submitted : Option ℕ
  pub hops : ℕ
  pub last_hop : Option ℕ

pub record Peer : Type 0 where
  pub public_id : ℕ
  pub neighbors : List ℕ
  pub ring_order : List ℕ
  pub index_by_id : List (ℕ × ℕ)
  pub fingers : List FingerEntry
  pub self_index : ℕ
  pub initialized : Bool
  pub requests_satisfied : ℕ
  pub total_hops : ℕ
  pub total_latency : ℤ
  -- the messages given to `unicastTo`, oldest first, each with its destination
  pub outbox : List (ℕ × Message)

-- (to + ringSize - from) % ringSize
unfoldable pub ring_distance : ℕ → ℕ → ℕ → ℕ
ring_distance size from to = (to + size - from) % size

-- One round of the loop of `selectFinger`, over the best finger so far and its skip.
pub consider_finger : List ℕ → ℕ → FingerEntry → Option ℕ × ℕ → Option ℕ × ℕ
consider_finger nbrs distance entry (best, best_skip) =
    if not (contains entry.node_id nbrs)
    then (best, best_skip)
    else if entry.skip_normalized == 0
    then (best, best_skip)
    else if leb entry.skip_normalized distance && ltb best_skip entry.skip_normalized
    then (some entry.node_id, entry.skip_normalized)
    else (best, best_skip)

pub scan_fingers : List ℕ → ℕ → List FingerEntry → Option ℕ × ℕ → Option ℕ × ℕ
scan_fingers nbrs distance [] acc = acc
scan_fingers nbrs distance (e ∷ es) acc =
    scan_fingers nbrs distance es (consider_finger nbrs distance e acc)

pub select_finger : Peer → ℕ → List ℕ → Option ℕ
select_finger p target nbrs =
    let size = length p.ring_order in
    if leb size 1 then none else elim (lookup target p.index_by_id) [
      | none ↦ none
      | some index ↦
          let distance = ring_distance size p.self_index index in
          if distance == 0 then none else (scan_fingers nbrs distance p.fingers (none, 0)).0
    ]

within : Option ℕ → ℕ → Bool
within none d = true
within (some l) d = leb d l

-- One round of the loops of `chooseClockwiseNeighbor`; the first one has the bound `limit` on the
-- distance, and the second one has none.
pub consider_neighbor : Peer → Option ℕ → ℕ → Option ℕ × ℕ → Option ℕ × ℕ
unfolding within
consider_neighbor p limit neighbor (best, best_distance) = elim (lookup neighbor p.index_by_id) [
  | none ↦ (best, best_distance)
  | some index ↦
      let distance = ring_distance (length p.ring_order) p.self_index index in
      if distance == 0
      then (best, best_distance)
      else if within limit distance && ltb distance best_distance
      then (some neighbor, distance)
      else (best, best_distance)
]

pub scan_neighbors : Peer → Option ℕ → List ℕ → Option ℕ × ℕ → Option ℕ × ℕ
scan_neighbors p limit [] acc = acc
scan_neighbors p limit (n ∷ ns) acc = scan_neighbors p limit ns (consider_neighbor p limit n acc)

-- The second loop runs only if the first one found no neighbour.
second_scan : Peer → List ℕ → Option ℕ × ℕ → Option ℕ
second_scan p nbrs (some best, d) = some best
second_scan p nbrs (none, d) = (scan_neighbors p none nbrs (none, d)).0

is_empty : List ℕ → Bool
is_empty [] = true
is_empty (x ∷ xs) = false

pub choose_clockwise_neighbor : Peer → ℕ → List ℕ → Option ℕ
unfolding second_scan is_empty
choose_clockwise_neighbor p target nbrs =
    let size = length p.ring_order in
    if leb size 1 || is_empty nbrs then none else elim (lookup target p.index_by_id) [
      | none ↦ none
      | some index ↦
          let distance = ring_distance size p.self_index index in
          if distance == 0
          then none
          else second_scan p nbrs (scan_neighbors p (some distance) nbrs (none, size))
    ]

-- The finger, or else the clockwise neighbour.
pub next_hop : Peer → ℕ → Option ℕ
next_hop p target = elim (select_finger p target p.neighbors) [
  | none ↦ choose_clockwise_neighbor p target p.neighbors
  | some hop ↦ some hop
]

pub dispatch_lookup : Peer → Message → ℕ → List ℕ → Peer
dispatch_lookup p msg hop nbrs =
    if hop == p.public_id then p else if not (contains hop nbrs) then p else record p {
      outbox =
          p.outbox ++ (hop, record msg { hops = msg.hops + 1; last_hop = some p.public_id }) ∷ [];
    }

-- What `handleLookup` and `submitLookup` end in.
pub forward : Peer → Message → ℕ → Peer
unfolding next_hop dispatch_lookup
forward p msg target = elim (next_hop p target) [
  | none ↦ p
  | some hop ↦ dispatch_lookup p msg hop p.neighbors
]

-- A request that has arrived; `round` stands for a "roundSubmitted" that is missing.
pub satisfy : ℕ → Message → Peer → Peer
satisfy round msg p = record p {
  requests_satisfied = p.requests_satisfied + 1;
  total_hops = p.total_hops + msg.hops;
  total_latency = p.total_latency +ℤ (pos round -ℤ pos (value_or round msg.round_submitted));
}

pub handle_lookup : ℕ → Message → Peer → Peer
unfolding satisfy forward
handle_lookup round msg p = elim msg.target_id [
  | none ↦ p
  | some target ↦ if target == p.public_id then satisfy round msg p else forward p msg target
]

pub is_lookup : Message → Bool
is_lookup msg = elim msg.type_name [
  | linear_chord ↦ elim msg.message_type [ lookup_kind ↦ true | other_kind ↦ false ]
  | other_type ↦ false
]

-- The body of the loop over the input stream.
pub read_message : ℕ → Message → Peer → Peer
unfolding handle_lookup
read_message round msg p = if is_lookup msg then handle_lookup round msg p else p

pub check_in_strm : ℕ → List Message → Peer → Peer
check_in_strm round [] p = p
check_in_strm round (msg ∷ msgs) p = check_in_strm round msgs (read_message round msg p)

pub perform_computation : ℕ → List Message → Peer → Peer
perform_computation round inbox p = if not p.initialized then p else check_in_strm round inbox p
