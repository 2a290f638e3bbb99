-- ===== src/Chord/Setup/Fingers.antt =====
-- LinearChordPeer.cpp, buildFingerTable: what the finger table holds.
use native.Mathlib.Nat.{mod-lt, add-mod-mod, add-zero, zero-add, two-pow-succ}
use quantas.Common.{
  ℕ, zero, suc, ◌+◌, ◌-◌, ◌%◌, ◌^◌, ◌≤◌, ◌<◌, ◌≡◌, inl, inr, List, arith, length, leb, ◌==◌,
  Bool-cases, leb→le, dec_lt,
}
use quantas.Common.Predicates.{All, All-concat}
use quantas.Chord.{FingerEntry}
use quantas.Chord.Routing.{IsFinger}
use quantas.Chord.Setup.{count_bits, last_is, entry_of, add_finger, add_fingers}

pub lt-two_pow : (n : ℕ) → n < 2 ^ n
lt-two_pow zero = omega arith
lt-two_pow (suc n) = omega (arith, two-pow-succ n, lt-two_pow n)

-- `bits` comes out as the least number whose power of two exceeds `max_skip`.
count_bits_lem :
    (fuel max_skip bits : ℕ)
    → max_skip < 2 ^ (bits + fuel)
    → ((k : ℕ) → k < bits → 2 ^ k ≤ max_skip)
    → (max_skip < 2 ^ count_bits fuel max_skip bits)
      × ((k : ℕ) → k < count_bits fuel max_skip bits → 2 ^ k ≤ max_skip)
unfolding count_bits
count_bits_lem zero max_skip bits room below = (rw add-zero at room, below)
count_bits_lem (suc fuel) max_skip bits room below = elim (Bool-cases (leb (2 ^ bits) max_skip)) [
  | inl fits ↦
      rw (fits, count_bits)
        (count_bits_lem fuel max_skip (bits + 1)
          (rw (let e : bits + suc fuel ≡ bits + 1 + fuel = omega arith in e) at room)
          (λ k h. elim (dec_lt k bits) [
            | yes lt ↦ below k lt
            | no ge ↦ rw (let e : k ≡ bits = omega arith in e) (leb→le _ _ fits)
          ]))
  | inr over ↦ rw (over, count_bits) (ground arith, below)
]

entry_of-IsFinger :
    (ring : List ℕ) (self skip : ℕ) → 0 < length ring → IsFinger ring self (entry_of ring self skip)
unfolding entry_of
entry_of-IsFinger ring self skip h = record {
  reach = rw (add-mod-mod self skip (length ring));
  within = mod-lt skip h;
}

add_finger-IsFinger :
    (ring : List ℕ) (self id k : ℕ) (fs : List FingerEntry)
    → 0 < length ring
    → All (IsFinger ring self) fs
    → All (IsFinger ring self) (add_finger ring self id k fs)
unfolding add_finger
add_finger-IsFinger ring self id k fs h a =
    let more =
      All-concat (IsFinger ring self) fs (entry_of ring self (2 ^ k)) a
        (entry_of-IsFinger ring self (2 ^ k) h) in
    elim (Bool-cases (2 ^ k % length ring == 0)) [
      | inl z ↦ rw z a
      | inr nz ↦ rw nz (elim (Bool-cases ((entry_of ring self (2 ^ k)).node_id == id)) [
        | inl me ↦ rw me a
        | inr other ↦
            rw other (elim (Bool-cases (last_is (entry_of ring self (2 ^ k)).node_id fs)) [
              | inl last ↦ rw last a
              | inr fresh ↦ rw fresh more
            ])
      ])
    ]

pub add_fingers-IsFinger :
    (ring : List ℕ) (self id count start : ℕ) (fs : List FingerEntry)
    → 0 < length ring
    → All (IsFinger ring self) fs
    → All (IsFinger ring self) (add_fingers ring self id count start fs)
unfolding add_fingers
add_fingers-IsFinger ring self id zero start fs h a = a
add_fingers-IsFinger ring self id (suc count) start fs h a =
    add_fingers-IsFinger ring self id count (start + 1) (add_finger ring self id start fs) h
      (add_finger-IsFinger ring self id start fs h a)

-- The number of fingers asked for: every power below the ring's size, and the next one exceeds it.
pub table_bits :
    (size : ℕ)
    → let bits = count_bits size (size - 1) 0 in
      (size ≤ 2 ^ bits) × ((k : ℕ) → k < bits → 2 ^ k ≤ size - 1)
table_bits size =
    let r =
      count_bits_lem size (size - 1) 0 (rw zero-add (omega (arith, lt-two_pow size)))
        (λ k h. absurd (omega arith)) in
    (omega (arith, r.0), r.1)
