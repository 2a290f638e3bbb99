-- ===== src/Chord/Delivery.antt =====
-- LinearChordPeer.cpp: how far a lookup travels on a ring that `initParameters` has set up.
use native.Mathlib.Nat.{mod-lt, mod-eq_of_lt, mod-eq-sub-mod, two-pow-succ}
use quantas.Common.{
  ℕ, zero, suc, ◌+◌, ◌-◌, ◌%◌, ◌^◌, ◌≤◌, ◌<◌, ◌≡◌, refl, sym, ap, ◌∙◌, ◌≢◌, true, Option, none,
  some, List, [], ◌∷◌, ◌++◌, arith, length, get_or, dec_lt, ℕ_discrete,
}
use quantas.Common.Sets.{contains}
use quantas.Common.Maps.{lookup}
use quantas.Common.Predicates.{AllDiff, Elem}
use quantas.Chord.{Message, Peer, ring_distance, scan_fingers, select_finger, handle_lookup}
use quantas.Chord.Distance.{ring_distance-lt, ring_distance-eq-zero, ring_distance-step}
use quantas.Chord.Routing.{IsPlaced, Found, scan_fingers-Found, scan_fingers_best}
use quantas.Chord.Setup.{number_from, set_up, entry_of}
use quantas.Chord.Setup.Order.{lookup-number_from}
use quantas.Common.Places.{get_or-Elem, get_or-injective}
use quantas.Chord.Setup.Fingers.{lt-two_pow}
use quantas.Chord.Setup.Complete.{pow_pos}
use quantas.Chord.Setup.Placed.{
  set_up-IsPlaced, set_up_fingers, set_up_self_index, set_up_ring, set_up_index, set_up_id,
}

-- The power of two that a positive number reaches.
reached_power : (fuel d : ℕ) → 0 < d → d < 2 ^ fuel → (k : ℕ) × (2 ^ k ≤ d) × (d < 2 ^ k + 2 ^ k)
reached_power zero d h lt = absurd (omega arith)
reached_power (suc fuel) d h lt = elim (dec_lt d (2 ^ fuel)) [
  | yes small ↦ reached_power fuel d h small
  | no large ↦ (fuel, omega arith, omega (arith, two-pow-succ fuel))
]

-- The loop's result is a finger when it has gone some way.
Found-far :
    (ring : List ℕ) (self distance : ℕ) (nbrs : List ℕ) (acc : Option ℕ × ℕ)
    → Found ring self distance nbrs acc
    → 0 < acc.1
    → (id : ℕ) × (acc.0 ≡ some id) × Found ring self distance nbrs (some id, acc.1)
Found-far ring self distance nbrs (none, s) f h = absurd (omega arith)
Found-far ring self distance nbrs (some id, s) f h = (id, refl, f)

-- A finger is chosen, and the distance that its place `j` leaves is less than half the peer's.
abbrev pub HopHalves : Peer → ℕ → ℕ → List ℕ → Type 0
HopHalves p target t nbrs =
    (id : ℕ) × (j : ℕ) × (select_finger p target nbrs ≡ some id)
    × (get_or p.ring_order j 0 ≡ id)
    × (contains id nbrs ≡ true)
    × (j < length p.ring_order)
    × (ring_distance (length p.ring_order) j t + ring_distance (length p.ring_order) j t
        < ring_distance (length p.ring_order) p.self_index t)

-- Where every finger is a neighbour, the chosen one is past the half of the way.
pub select_finger-halves :
    (p : Peer) (target t : ℕ) (nbrs : List ℕ)
    → IsPlaced p
    → lookup target p.index_by_id ≡ some t
    → t ≢ p.self_index
    → ((k : ℕ)
        → 2 ^ k < length p.ring_order
        → Elem (entry_of p.ring_order p.self_index (2 ^ k)) p.fingers
          × (contains (entry_of p.ring_order p.self_index (2 ^ k)).node_id nbrs ≡ true))
    → HopHalves p target t nbrs
unfolding select_finger entry_of
select_finger-halves p target t nbrs v known away full =
    let n = length p.ring_order in
    let d = ring_distance n p.self_index t in
    let acc = scan_fingers nbrs d p.fingers (none, 0) in
    let t_in = v.index_within target t known in
    let short = ring_distance-lt n p.self_index t (omega arith) in
    let apart : 0 < d = ground (arith, ring_distance-eq-zero n p.self_index t v.self_within t_in) in
    let power = reached_power n d apart (omega (arith, short, lt-two_pow n)) in
    let finger = full power.0 (omega (arith, power.1, short)) in
    let fits : 2 ^ power.0 % n ≡ 2 ^ power.0 = mod-eq_of_lt (omega (arith, power.1, short)) in
    let best =
      scan_fingers_best nbrs d p.fingers (none, 0)
        (entry_of p.ring_order p.self_index (2 ^ power.0)) finger.0 finger.1 (rw fits power.1) in
    let far : 2 ^ power.0 ≤ acc.1 = rw fits at best in
    let found =
      Found-far p.ring_order p.self_index d nbrs acc
        (scan_fingers-Found p.ring_order p.self_index d nbrs p.fingers (none, 0) v.fingers refl)
        (omega (arith, far, power.1, power.2, apart)) in
    let j = (p.self_index + acc.1) % n in
    let j_in = mod-lt (p.self_index + acc.1) (let h : 0 < n = omega arith in h) in
    let step = ring_distance-step n p.self_index t acc.1 v.self_within t_in found.2.2 in
    (
      found.0,
      j,
      ground (arith, known, found.1, apart, short, v.self_within, t_in),
      found.2.3,
      found.2.0,
      j_in,
      omega (arith, step, far, power.2),
    )

-- A finger that is not a whole turn away is not at the peer's own place.
add_mod-apart : (i skip n : ℕ) → i < n → 0 < skip → skip < n → i ≢ (i + skip) % n
add_mod-apart i skip n inside some_way short e = elim (dec_lt (i + skip) n) [
  | yes fits ↦
      let same : (i + skip) % n ≡ i + skip = mod-eq_of_lt fits in absurd (omega (arith, same, e))
  | no over ↦
      let turn : (i + skip) % n ≡ (i + skip - n) % n =
        mod-eq-sub-mod {n = i + skip} {m = n} (omega arith) in
      let same : (i + skip - n) % n ≡ i + skip - n = mod-eq_of_lt (omega (arith, inside, short)) in
      absurd (omega (arith, turn, same, e))
]

-- The message that is sent on.
abbrev pub relayed : Message → Peer → Message
relayed msg p = record msg { hops = msg.hops + 1; last_hop = some p.public_id }

-- The peers of a ring, `base i` being the one at place `i`, as `initParameters` leaves them.
abbrev pub ring_peer : List ℕ → (ℕ → Peer) → ℕ → Peer
ring_peer ring base i = set_up ring (number_from 0 ring []) (base i)

-- `Delivers i msg m`: read by the peer at place `i`, the message reaches its target in `m` hops,
-- each hop being the one message that `handleLookup` sends.
pub data Delivers (round : ℕ) (ring : List ℕ) (base : ℕ → Peer) : ℕ → Message → ℕ → Type 0 where
  arrived :
      {i : ℕ} {msg : Message}
      → msg.target_id ≡ some (ring_peer ring base i).public_id
      → Delivers round ring base i msg 0
  hop :
      {i : ℕ} {msg : Message} {m : ℕ} (id j : ℕ)
      → (handle_lookup round msg (ring_peer ring base i)).outbox
        ≡ (ring_peer ring base i).outbox ++ (id, relayed msg (ring_peer ring base i)) ∷ []
      → get_or ring j 0 ≡ id
      → Delivers round ring base j (relayed msg (ring_peer ring base i)) m
      → Delivers round ring base i msg (suc m)

-- With the next hop known, `handleLookup` sends the message there and does nothing else.
handle_lookup_sends :
    (round target id : ℕ) (msg : Message) (p : Peer)
    → msg.target_id ≡ some target
    → target ≢ p.public_id
    → select_finger p target p.neighbors ≡ some id
    → id ≢ p.public_id
    → contains id p.neighbors ≡ true
    → (handle_lookup round msg p).outbox ≡ p.outbox ++ (id, relayed msg p) ∷ []
unfolding handle_lookup
handle_lookup_sends round target id msg p to away chosen other nbr = ground arith

-- Distinct ids in ring order, and every peer a neighbour of every other.
pub record IsComplete (ring : List ℕ) (base : ℕ → Peer) : Type 0 where
  pub diff : AllDiff ring
  pub ids : (i : ℕ) → i < length ring → (base i).public_id ≡ get_or ring i 0
  pub linked :
      (i j : ℕ)
      → i < length ring
      → j < length ring
      → i ≢ j
      → contains (get_or ring j 0) (base i).neighbors ≡ true

-- What `handleLookup` does at place `i` when the chosen finger halves the distance.
abbrev SendHalves : ℕ → List ℕ → Peer → ℕ → ℕ → Message → Type 0
SendHalves round ring p i t msg =
    (j : ℕ) × (j < length ring)
    × ((handle_lookup round msg p).outbox ≡ p.outbox ++ (get_or ring j 0, relayed msg p) ∷ [])
    × (ring_distance (length ring) j t + ring_distance (length ring) j t
        < ring_distance (length ring) i t)

send_halves :
    (round : ℕ) (ring : List ℕ) (p : Peer) (i t : ℕ) (msg : Message)
    → AllDiff ring
    → p.ring_order ≡ ring
    → p.self_index ≡ i
    → p.public_id ≡ get_or ring i 0
    → i < length ring
    → t < length ring
    → t ≢ i
    → msg.target_id ≡ some (get_or ring t 0)
    → HopHalves p (get_or ring t 0) t p.neighbors
    → SendHalves round ring p i t msg
send_halves round ring p i t msg diff on_ring place own hi ht away to
      (id, j, chosen, at, nbr, j_in, half) =
    let j_at : j < length ring = rw on_ring at j_in in
    let id_at : get_or ring j 0 ≡ id = rw on_ring at at in
    let closer : ring_distance (length ring) j t + ring_distance (length ring) j t
        < ring_distance (length ring) i t =
      rw (on_ring, place) at half in
    let sent =
      handle_lookup_sends round (get_or ring t 0) id msg p to
        (λ e. away (get_or-injective ring t i diff ht hi (e ∙ own))) chosen
        (λ e.
          let same = get_or-injective ring j i diff j_at hi (id_at ∙ e ∙ own) in
          absurd (omega (arith, ap (λ x. ring_distance (length ring) x t) same, closer)))
        nbr in
    (j, j_at, rw id_at sent, closer)

module _ (round : ℕ) (ring : List ℕ) (base : ℕ → Peer) (c : IsComplete ring base) where
  member : (i : ℕ) → i < length ring → Elem (base i).public_id ring
  member i h = rw (c.ids i h) (get_or-Elem ring i h)

  own_place : (i : ℕ) → i < length ring → (ring_peer ring base i).self_index ≡ i
  own_place i h =
      let self = set_up_self_index ring (base i) c.diff (member i h) in
      get_or-injective ring _ i c.diff self.0 h (self.1 ∙ c.ids i h)

  -- One hop from place `i` gets past the half of the way to place `t`.
  hop_halves :
      (i t : ℕ) (msg : Message)
      → i < length ring
      → t < length ring
      → t ≢ i
      → msg.target_id ≡ some (get_or ring t 0)
      → SendHalves round ring (ring_peer ring base i) i t msg
  unfolding entry_of
  hop_halves i t msg hi ht away to =
      let p = ring_peer ring base i in
      let el = member i hi in
      let on_ring = set_up_ring ring (number_from 0 ring []) (base i) in
      let by_index = set_up_index ring (number_from 0 ring []) (base i) in
      let id_nbrs = set_up_id ring (number_from 0 ring []) (base i) in
      let place = own_place i hi in
      send_halves round ring p i t msg c.diff on_ring place (id_nbrs.0 ∙ c.ids i hi) hi ht away to (
        select_finger-halves p (get_or ring t 0) t p.neighbors
          (set_up-IsPlaced ring (base i) c.diff el)
          (rw by_index (lookup-number_from 0 t ring [] c.diff ht ∙ ap some (omega arith)))
          (λ e. away (e ∙ place))
          (λ k h.
            let short : 2 ^ k < length ring = rw on_ring at h in
            (
              rw on_ring (set_up_fingers ring (base i) k c.diff el (rw on_ring at h)),
              rw (id_nbrs.1, on_ring, place)
                  (c.linked i _ hi (mod-lt _ (omega arith))
                    (add_mod-apart i (2 ^ k) (length ring) hi (pow_pos k) short)),
            )))

  arrived_at :
      (i t : ℕ) (msg : Message)
      → i < length ring
      → t ≡ i
      → msg.target_id ≡ some (get_or ring t 0)
      → Delivers round ring base i msg 0
  arrived_at i t msg hi same to =
      let id_nbrs = set_up_id ring (number_from 0 ring []) (base i) in
      arrived (to ∙ ap some (ap (λ x. get_or ring x 0) same ∙ sym (c.ids i hi) ∙ sym id_nbrs.0))

  -- On a ring of distinct ids where every peer is a neighbour of every other, a lookup for a peer at
  -- ring distance below 2^k reaches it in `k` hops at most: at each place the handler either has the
  -- target's id or sends the one message of the next hop.
  pub lookup_delivered :
      (k i t : ℕ) (msg : Message)
      → i < length ring
      → t < length ring
      → ring_distance (length ring) i t < 2 ^ k
      → msg.target_id ≡ some (get_or ring t 0)
      → (m : ℕ) × (m ≤ k) × Delivers round ring base i msg m
  lookup_delivered zero i t msg hi ht near to =
      let same = ring_distance-eq-zero (length ring) i t hi ht (omega arith) in
      (0, omega arith, arrived_at i t msg hi (sym same) to)
  lookup_delivered (suc k) i t msg hi ht near to = elim (ℕ_discrete t i) [
    | yes same ↦ (0, omega arith, arrived_at i t msg hi same to)
    | no away ↦
        let step = hop_halves i t msg hi ht away to in
        let rest =
          lookup_delivered k step.0 t (relayed msg (ring_peer ring base i)) step.1 ht
            (omega (arith, step.3, near, two-pow-succ k)) to in
        (suc rest.0, omega (arith, rest.1), hop (get_or ring step.0 0) step.0 step.2 refl rest.2)
  ]
