-- ===== src/Chord/Setup/Placed.antt =====
-- LinearChordPeer.cpp: what `initParameters` leaves in each peer.
use native.Mathlib.Nat.{pow-le-pow_right}
use quantas.Common.{
  ℕ, ◌-◌, ◌^◌, ◌≤◌, ◌<◌, ◌≡◌, refl, ap, ◌∙◌, inl, inr, false, some, List, [], ◌∷◌, map, arith,
  length, get_or, leb, Bool-cases, if◌then◌else◌, dec_lt,
}
use quantas.Common.Maps.{lookup}
use quantas.Common.Predicates.{AllDiff, All, Elem}
use quantas.Chord.{Peer}
use quantas.Chord.Routing.{IsPlaced}
use quantas.Chord.Setup.{
  count_bits, entry_of, add_fingers, build_finger_table, sort, number_from, set_up, init_parameters,
}
use quantas.Chord.Setup.Order.{sort-Elem, sort-AllDiff, lookup-number_from, number_from-within}
use quantas.Common.Places.{Elem-get_or}
use quantas.Chord.Setup.Fingers.{add_fingers-IsFinger, table_bits}
use quantas.Chord.Setup.Complete.{add_fingers_complete, pow_pos}

-- The fields that `set_up` writes, with the finger table as `buildFingerTable` makes it.
pub set_up_self_index :
    (ring : List ℕ) (p : Peer)
    → AllDiff ring
    → Elem p.public_id ring
    → let i = (set_up ring (number_from 0 ring []) p).self_index in
      (i < length ring) × (get_or ring i 0 ≡ p.public_id)
unfolding set_up build_finger_table
set_up_self_index ring p diff el =
    let place = Elem-get_or p.public_id ring el in
    let found : lookup p.public_id (number_from 0 ring []) ≡ some place.0 =
      rw (← place.2) (lookup-number_from 0 place.0 ring [] diff place.1 ∙ ap some (omega arith)) in
    ground (arith, found, place.1, place.2)

pub set_up_ring :
    (ring : List ℕ) (index : List (ℕ × ℕ)) (p : Peer) → (set_up ring index p).ring_order ≡ ring
unfolding set_up build_finger_table
set_up_ring ring index p = ground arith

pub set_up_index :
    (ring : List ℕ) (index : List (ℕ × ℕ)) (p : Peer) → (set_up ring index p).index_by_id ≡ index
unfolding set_up build_finger_table
set_up_index ring index p = ground arith

pub set_up_id :
    (ring : List ℕ) (index : List (ℕ × ℕ)) (p : Peer)
    → ((set_up ring index p).public_id ≡ p.public_id)
      × ((set_up ring index p).neighbors ≡ p.neighbors)
unfolding set_up build_finger_table
set_up_id ring index p = ground arith

set_up_table :
    (ring : List ℕ) (index : List (ℕ × ℕ)) (p : Peer)
    → (set_up ring index p).fingers ≡ (
        if leb (length ring) 1
        then []
        else add_fingers ring
            (set_up ring index p).self_index
            p.public_id
            (count_bits (length ring) (length ring - 1) 0)
            0
            [])
unfolding set_up build_finger_table
set_up_table ring index p = ground arith

-- A peer with this ring, index and table is placed on it.
placed :
    (q : Peer) (ring : List ℕ) (id : ℕ)
    → AllDiff ring
    → q.ring_order ≡ ring
    → q.index_by_id ≡ number_from 0 ring []
    → q.self_index < length ring
    → q.fingers ≡ (
        if leb (length ring) 1
        then []
        else add_fingers ring q.self_index id (count_bits (length ring) (length ring - 1) 0) 0 [])
    → IsPlaced q
placed q ring id diff on_ring by_index within table = record {
  self_within = rw on_ring within;
  index_within = λ a i h.
      rw on_ring (
        number_from-within 0 a i (length ring) ring [] (omega arith) (λ no. cc) (rw by_index at h));
  indexed = λ i h.
      rw (on_ring, by_index)
        (lookup-number_from 0 i ring [] diff (rw on_ring at h) ∙ ap some (omega arith));
  fingers =
      rw (on_ring, table)
        (elim (Bool-cases (leb (length ring) 1)) [
          | inl small ↦ rw small tt
          | inr large ↦ rw large (add_fingers-IsFinger ring q.self_index id _ 0 [] (omega arith) tt)
        ]);
}

pub set_up-IsPlaced :
    (ring : List ℕ) (p : Peer)
    → AllDiff ring
    → Elem p.public_id ring
    → IsPlaced (set_up ring (number_from 0 ring []) p)
set_up-IsPlaced ring p diff el =
    placed (set_up ring (number_from 0 ring []) p) ring p.public_id diff (set_up_ring ring _ p)
      (set_up_index ring _ p) (set_up_self_index ring p diff el).0 (set_up_table ring _ p)

-- A peer is placed on a ring of the ids of `ids`, at the place of its own id.
pub record IsOnRing (ids : List ℕ) (p : Peer) : Type 0 where
  pub placed_there : IsPlaced p
  pub own_place : get_or p.ring_order p.self_index 0 ≡ p.public_id
  pub all_there : (id : ℕ) → Elem id ids → Elem id p.ring_order

set_up-IsOnRing :
    (ids ring : List ℕ) (p : Peer)
    → AllDiff ring
    → Elem p.public_id ring
    → ((id : ℕ) → Elem id ids → Elem id ring)
    → IsOnRing ids (set_up ring (number_from 0 ring []) p)
set_up-IsOnRing ids ring p diff el on_ring =
    let same = set_up_ring ring (number_from 0 ring []) p in
    let named = set_up_id ring (number_from 0 ring []) p in
    record {
      placed_there = set_up-IsPlaced ring p diff el;
      own_place = rw (same, named.0) (set_up_self_index ring p diff el).1;
      all_there = λ id m. rw same (on_ring id m);
    }

All-map-set_up :
    (ids ring : List ℕ) (ps : List Peer)
    → AllDiff ring
    → ((id : ℕ) → Elem id ids → Elem id ring)
    → ((id : ℕ) → Elem id (map (λ (p : Peer). p.public_id) ps) → Elem id ids)
    → All (IsOnRing ids) (map (set_up ring (number_from 0 ring [])) ps)
All-map-set_up ids ring [] diff on_ring known = tt
All-map-set_up ids ring (p ∷ ps) diff on_ring known = (
  set_up-IsOnRing ids ring p diff (on_ring p.public_id (known p.public_id (inl refl))) on_ring,
  All-map-set_up ids ring ps diff on_ring (λ id el. known id (inr el)),
)

map-set_up_ids :
    (ring : List ℕ) (index : List (ℕ × ℕ)) (ps : List Peer)
    → map (λ (p : Peer). p.public_id) (map (set_up ring index) ps)
      ≡ map (λ (p : Peer). p.public_id) ps
map-set_up_ids ring index [] = refl
map-set_up_ids ring index (p ∷ ps) =
    rw ((set_up_id ring index p).0, map-set_up_ids ring index ps) refl

-- Peers with distinct ids all keep their ids in `initParameters` and come out of it placed on a ring
-- that has all these ids: each stands at the place of its own id, its index agrees with the ring
-- order, and each finger stands as far after its peer as the entry says.
pub init_parameters-IsOnRing :
    (peers : List Peer)
    → AllDiff (map (λ (p : Peer). p.public_id) peers)
    → All (IsOnRing (map (λ (p : Peer). p.public_id) peers)) (init_parameters peers)
      × (map (λ (p : Peer). p.public_id) (init_parameters peers)
          ≡ map (λ (p : Peer). p.public_id) peers)
unfolding init_parameters
init_parameters-IsOnRing peers diff =
    let ids = map (λ (p : Peer). p.public_id) peers in
    (
      All-map-set_up ids (sort ids) peers (sort-AllDiff ids diff) (λ id el. sort-Elem id ids el)
          (λ id el. el),
      map-set_up_ids (sort ids) _ peers,
    )

power-lt-bits : (k bits size : ℕ) → 2 ^ k < size → size ≤ 2 ^ bits → k < bits
power-lt-bits k bits size fits covers = elim (dec_lt k bits) [
  | yes lt ↦ lt
  | no ge ↦
      absurd
        (omega (arith, pow-le-pow_right {n = 2} (omega arith) {i = bits} {j = k} (omega arith)))
]

table_complete :
    (ring : List ℕ) (q : Peer) (id k : ℕ)
    → AllDiff ring
    → q.self_index < length ring
    → get_or ring q.self_index 0 ≡ id
    → q.fingers ≡ (
        if leb (length ring) 1
        then []
        else add_fingers ring q.self_index id (count_bits (length ring) (length ring - 1) 0) 0 [])
    → 2 ^ k < length ring
    → Elem (entry_of ring q.self_index (2 ^ k)) q.fingers
table_complete ring q id k diff within own table fits =
    let bits = table_bits (length ring) in
    let many : leb (length ring) 1 ≡ false = ground (arith, pow_pos k) in
    rw (table, many, ← own)
      (add_fingers_complete ring q.self_index diff within
        (count_bits (length ring) (length ring - 1) 0) 0 k []
        (λ j h. omega (arith, bits.1 j (omega arith), within)) tt (omega arith)
        (omega (arith, power-lt-bits k _ (length ring) fits bits.0)))

-- Every power of two below the ring's size has its finger.
pub set_up_fingers :
    (ring : List ℕ) (p : Peer) (k : ℕ)
    → AllDiff ring
    → Elem p.public_id ring
    → 2 ^ k < length ring
    → let q = set_up ring (number_from 0 ring []) p in
      Elem (entry_of ring q.self_index (2 ^ k)) q.fingers
set_up_fingers ring p k diff el fits =
    let self = set_up_self_index ring p diff el in
    table_complete ring (set_up ring (number_from 0 ring []) p) p.public_id k diff self.0 self.1
      (set_up_table ring _ p) fits
