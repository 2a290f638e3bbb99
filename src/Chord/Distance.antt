-- ===== src/Chord/Distance.antt =====
-- LinearChordPeer.cpp: distances around the ring, `(to + ringSize - from) % ringSize`.
use native.Mathlib.Nat.{mod-eq_of_lt, mod-eq-sub-mod, mod-lt}
use quantas.Common.{ℕ, ◌+◌, ◌-◌, ◌%◌, ◌≤◌, ◌<◌, ◌≡◌, ◌⊎◌, arith}
use quantas.Chord.{ring_distance}

-- Below twice the ring's size, the remainder goes round once at most.
pub mod_wraps : (n x : ℕ) → x < n + n → ((x < n) × (x % n ≡ x)) ⊎ ((n ≤ x) × (x % n + n ≡ x))
mod_wraps n x h = grind (arith, mod-eq_of_lt, mod-eq-sub-mod)

pub ring_distance-lt : (n from to : ℕ) → 0 < n → ring_distance n from to < n
unfolding ring_distance
ring_distance-lt n from to h = grind (arith, mod-lt)

-- A step of `s`, within the distance to go, leaves `s` less to go.
pub ring_distance-step :
    (n from to s : ℕ)
    → from < n
    → to < n
    → s ≤ ring_distance n from to
    → ring_distance n ((from + s) % n) to + s ≡ ring_distance n from to
unfolding ring_distance
ring_distance-step n from to s hf ht hs = ground (
  arith,
  mod_wraps n (to + n - from),
  mod_wraps n (from + s),
  mod_wraps n (to + n - (from + s) % n),
)

-- Only the place itself is at distance 0, and the distance leads to the place.
pub ring_distance-eq-zero :
    (n from to : ℕ) → from < n → to < n → ring_distance n from to ≡ 0 → from ≡ to
unfolding ring_distance
ring_distance-eq-zero n from to hf ht h = ground (arith, mod_wraps n (to + n - from))

pub ring_distance_arrives :
    (n from to : ℕ) → from < n → to < n → (from + ring_distance n from to) % n ≡ to
unfolding ring_distance
ring_distance_arrives n from to hf ht =
    ground (arith, mod_wraps n (to + n - from), mod_wraps n (from + (to + n - from) % n))
