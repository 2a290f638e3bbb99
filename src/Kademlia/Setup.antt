-- ===== src/Kademlia/Setup.antt =====
-- KademliaPeer.cpp, initParameters: what the peers start from.
use native.Mathlib.Nat.{pow-le-pow_right}
use quantas.Common.{
  ℕ, zero, suc, ◌+◌, ◌^◌, ◌≤◌, ◌<◌, ◌≡◌, refl, subst, inl, inr, true, false, ◌||◌, List, [], ◌∷◌,
  length, arith, ltb, leb, ◌==◌, Bool-cases,
}
use quantas.Common.Predicates.{All}
use quantas.Kademlia.{Peer, get_binary_id}
use quantas.Kademlia.Rounds.{
  Global, ceil_log2_from, at_least_one, binary_size, is_none, apply_global_parameters, clear_peer,
  set_up_all, new_global, init_parameters,
}

-- A peer is ready for ids of so many bits.
pub record IsReady (size : ℕ) (p : Peer) : Type 0 where
  pub is_initialized : p.initialized ≡ true
  pub same_size : p.binary_id_size ≡ size
  pub own_bits : p.binary_id ≡ get_binary_id size p.public_id
  pub no_finger : p.fingers ≡ []

lt-two_pow : (n : ℕ) → n < 2 ^ n
lt-two_pow zero = omega arith
lt-two_pow (suc n) = omega (arith, lt-two_pow n)

ceil_log2_from-bound : (fuel k n : ℕ) → n ≤ 2 ^ (k + fuel) → n ≤ 2 ^ ceil_log2_from fuel k n
unfolding ceil_log2_from
ceil_log2_from-bound zero k n h = subst (λ m. n ≤ 2 ^ m) (omega arith) h
ceil_log2_from-bound (suc fuel) k n h = elim (Bool-cases (leb n (2 ^ k))) [
  | inl fits ↦ rw fits (ground (arith, fits))
  | inr over ↦
      rw over (ceil_log2_from-bound fuel (k + 1) n (subst (λ m. n ≤ 2 ^ m) (omega arith) h))
]

le-at_least_one : (n : ℕ) → n ≤ at_least_one n
unfolding at_least_one
le-at_least_one zero = omega arith
le-at_least_one (suc n) = omega arith

binary_size-bound : (count : ℕ) → count ≤ 2 ^ 64 → count ≤ 2 ^ binary_size count
unfolding binary_size
binary_size-bound count few =
    let n = at_least_one count in
    let size = ceil_log2_from n 0 n in
    let enough : n ≤ 2 ^ (0 + n) =
      subst (λ m. n ≤ 2 ^ m) (let e : n ≡ 0 + n = omega arith in e)
        (let lt = lt-two_pow n in omega (arith, lt)) in
    let log : n ≤ 2 ^ size = ceil_log2_from-bound n 0 n enough in
    let more : 2 ^ size ≤ 2 ^ at_least_one size =
      pow-le-pow_right {n = 2} (omega arith) {i = size} {j = at_least_one size}
        (le-at_least_one size) in
    elim (Bool-cases (ltb 64 (at_least_one size))) [
      | inl wide ↦ rw wide few
      | inr narrow ↦ rw narrow (omega (arith, le-at_least_one count, log, more))
    ]

binary_size-pos : (count : ℕ) → 0 < binary_size count
unfolding binary_size at_least_one
binary_size-pos count = ground arith

set_up_all-IsReady :
    (g : Global) (ps : List Peer)
    → (g.id_size == 0 || is_none g.all_ids) ≡ false
    → All (IsReady g.id_size) (set_up_all g ps)
unfolding set_up_all clear_peer apply_global_parameters
set_up_all-IsReady g [] set = tt
set_up_all-IsReady g (p ∷ ps) set = (
  record {
    is_initialized = ground (arith, set);
    same_size = ground (arith, set);
    own_bits = ground (arith, set);
    no_finger = refl;
  },
  set_up_all-IsReady g ps set,
)

-- Peers that are not more than 2 ^ 32, for which the logarithm of the source is not rounded below the
-- exact one, all come out of initParameters initialized, without fingers,
-- with the binary ids of their own ids, and with at least one bit and so many that 2 to their number
-- is not below the number of peers.
pub init_parameters-IsReady :
    (p : Peer) (ps : List Peer) (g : Global)
    → length (p ∷ ps) ≤ 2 ^ 32
    → All (IsReady (init_parameters (p ∷ ps) g).0.id_size) (init_parameters (p ∷ ps) g).1
      × (0 < (init_parameters (p ∷ ps) g).0.id_size)
      × (length (p ∷ ps) ≤ 2 ^ (init_parameters (p ∷ ps) g).0.id_size)
unfolding init_parameters new_global is_none
init_parameters-IsReady p ps g few =
    let count = length (p ∷ ps) in
    (
      set_up_all-IsReady (new_global (p ∷ ps) g) (p ∷ ps) (ground (arith, binary_size-pos count)),
      binary_size-pos count,
      binary_size-bound count (omega (arith, few)),
    )
