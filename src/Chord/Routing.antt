-- ===== src/Chord/Routing.antt =====
-- LinearChordPeer.cpp: where `selectFinger` sends a lookup.
use native.Mathlib.Nat.{mod-lt}
use quantas.Common.{
  ℕ, ◌+◌, ◌%◌, ◌≤◌, ◌<◌, ◌≡◌, refl, subst, ap, inl, inr, true, Option, none, some, List, [], ◌∷◌,
  arith, length, get_or,
}
use quantas.Common.Sets.{contains}
use quantas.Common.Maps.{lookup}
use quantas.Common.Predicates.{All, Elem}
use quantas.Chord.{FingerEntry, Peer, ring_distance, consider_finger, scan_fingers, select_finger}
use quantas.Chord.Distance.{ring_distance-step}

-- The entry's node stands `skip_normalized` places after the peer on the ring.
pub record IsFinger (ring : List ℕ) (self : ℕ) (e : FingerEntry) : Type 0 where
  pub reach : get_or ring ((self + e.skip_normalized) % length ring) 0 ≡ e.node_id
  pub within : e.skip_normalized < length ring

-- The ring's places and the index agree, and the fingers are fingers.
pub record IsPlaced (p : Peer) : Type 0 where
  pub self_within : p.self_index < length p.ring_order
  pub index_within : (id i : ℕ) → lookup id p.index_by_id ≡ some i → i < length p.ring_order
  pub indexed :
      (i : ℕ) → i < length p.ring_order → lookup (get_or p.ring_order i 0) p.index_by_id ≡ some i
  pub fingers : All (IsFinger p.ring_order p.self_index) p.fingers

module _ (ring : List ℕ) (self distance : ℕ) (nbrs : List ℕ) where
  -- What the loop of `selectFinger` has found.
  abbrev pub Found : Option ℕ × ℕ → Type 0
  Found (none, skip) = skip ≡ 0
  Found (some id, skip) =
      (contains id nbrs ≡ true)
      × (0 < skip)
      × (skip ≤ distance)
      × (get_or ring ((self + skip) % length ring) 0 ≡ id)

  consider_finger-Found :
      (e : FingerEntry) (acc : Option ℕ × ℕ)
      → IsFinger ring self e
      → Found acc
      → Found (consider_finger nbrs distance e acc)
  unfolding consider_finger
  consider_finger-Found e (none, skip) f h = ground arith
  consider_finger-Found e (some id, skip) f h = ground arith

  pub scan_fingers-Found :
      (es : List FingerEntry) (acc : Option ℕ × ℕ)
      → All (IsFinger ring self) es
      → Found acc
      → Found (scan_fingers nbrs distance es acc)
  unfolding scan_fingers
  scan_fingers-Found [] acc fs h = h
  scan_fingers-Found (e ∷ es) acc fs h =
      scan_fingers-Found es (consider_finger nbrs distance e acc) fs.1
        (consider_finger-Found e acc fs.0 h)

-- A usable finger is at most as far as the best one found.
consider_finger_grows :
    (nbrs : List ℕ) (distance : ℕ) (e : FingerEntry) (acc : Option ℕ × ℕ)
    → acc.1 ≤ (consider_finger nbrs distance e acc).1
unfolding consider_finger
consider_finger_grows nbrs distance e (b, s) = ground arith

scan_fingers_grows :
    (nbrs : List ℕ) (distance : ℕ) (es : List FingerEntry) (acc : Option ℕ × ℕ)
    → acc.1 ≤ (scan_fingers nbrs distance es acc).1
unfolding scan_fingers
scan_fingers_grows nbrs distance [] acc = omega arith
scan_fingers_grows nbrs distance (e ∷ es) acc =
    let next = consider_finger nbrs distance e acc in
    omega
      (arith, consider_finger_grows nbrs distance e acc, scan_fingers_grows nbrs distance es next)

consider_finger_takes :
    (nbrs : List ℕ) (distance : ℕ) (e : FingerEntry) (acc : Option ℕ × ℕ)
    → contains e.node_id nbrs ≡ true
    → e.skip_normalized ≤ distance
    → e.skip_normalized ≤ (consider_finger nbrs distance e acc).1
unfolding consider_finger
consider_finger_takes nbrs distance e (b, s) c le = ground arith

pub scan_fingers_best :
    (nbrs : List ℕ) (distance : ℕ) (es : List FingerEntry) (acc : Option ℕ × ℕ) (e : FingerEntry)
    → Elem e es
    → contains e.node_id nbrs ≡ true
    → e.skip_normalized ≤ distance
    → e.skip_normalized ≤ (scan_fingers nbrs distance es acc).1
unfolding scan_fingers
scan_fingers_best nbrs distance [] acc e el c le = absurd el
scan_fingers_best nbrs distance (x ∷ xs) acc e (inl same) c le =
    let next = consider_finger nbrs distance x acc in
    omega (
      arith,
      ap (λ (f : FingerEntry). f.skip_normalized) same,
      consider_finger_takes nbrs distance x acc (rw (← same) c) (rw (← same) le),
      scan_fingers_grows nbrs distance xs next,
    )
scan_fingers_best nbrs distance (x ∷ xs) acc e (inr el) c le =
    scan_fingers_best nbrs distance xs (consider_finger nbrs distance x acc) e el c le

Found-some :
    (ring : List ℕ) (self distance : ℕ) (nbrs : List ℕ) (acc : Option ℕ × ℕ) (id : ℕ)
    → Found ring self distance nbrs acc
    → acc.0 ≡ some id
    → Found ring self distance nbrs (some id, acc.1)
Found-some ring self distance nbrs (none, s) id f e = cc
Found-some ring self distance nbrs (some x, s) id f e =
    subst (λ (o : Option ℕ). Found ring self distance nbrs (o, s)) e f

-- What a chosen finger is: the result of the loop, over a target that is known and elsewhere.
select_finger-Found :
    (p : Peer) (target t id : ℕ) (nbrs : List ℕ)
    → IsPlaced p
    → lookup target p.index_by_id ≡ some t
    → select_finger p target nbrs ≡ some id
    → let d = ring_distance (length p.ring_order) p.self_index t in
      Found p.ring_order p.self_index d nbrs (some id, (scan_fingers nbrs d p.fingers (none, 0)).1)
unfolding select_finger
select_finger-Found p target t id nbrs v known chosen =
    let d = ring_distance (length p.ring_order) p.self_index t in
    let acc = scan_fingers nbrs d p.fingers (none, 0) in
    Found-some p.ring_order p.self_index d nbrs acc id
      (scan_fingers-Found p.ring_order p.self_index d nbrs p.fingers (none, 0) v.fingers refl)
      (ground arith)

-- A finger that `selectFinger` returns for a known target is a neighbour on the ring, and stands
-- strictly closer to the target, in ring distance, than the peer itself.
pub select_finger-closer :
    (p : Peer) (target t id : ℕ) (nbrs : List ℕ)
    → IsPlaced p
    → lookup target p.index_by_id ≡ some t
    → select_finger p target nbrs ≡ some id
    → (j : ℕ) × (lookup id p.index_by_id ≡ some j)
      × (contains id nbrs ≡ true)
      × (ring_distance (length p.ring_order) j t
          < ring_distance (length p.ring_order) p.self_index t)
select_finger-closer p target t id nbrs v known chosen =
    let n = length p.ring_order in
    let d = ring_distance n p.self_index t in
    let s = (scan_fingers nbrs d p.fingers (none, 0)).1 in
    let found = select_finger-Found p target t id nbrs v known chosen in
    let j = (p.self_index + s) % n in
    let here = v.indexed j (mod-lt (p.self_index + s) (omega (arith, v.self_within))) in
    let step =
      ring_distance-step n p.self_index t s v.self_within (v.index_within target t known) found.2 in
    (j, rw (found.3) at here, found.0, omega (arith, step, found.1))
