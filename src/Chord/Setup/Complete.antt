-- ===== src/Chord/Setup/Complete.antt =====
-- LinearChordPeer.cpp, buildFingerTable: on a ring of distinct ids no power of two is left out.
use native.Mathlib.Nat.{mod-lt, mod-eq_of_lt, two-pow-succ, pow-le-pow_right}
use quantas.Common.{
  ℕ, zero, suc, ◌+◌, ◌%◌, ◌^◌, ◌≤◌, ◌<◌, ◌≡◌, refl, sym, ap, ◌∙◌, ◌≢◌, false, List, [], ◌∷◌, ◌++◌,
  arith, length, get_or, dec_lt,
}
use quantas.Common.Predicates.{
  AllDiff, All, Elem, All-concat, All-mono, Elem-concat, Elem-append_left,
}
use quantas.Chord.{FingerEntry}
use quantas.Chord.Distance.{mod_wraps}
use quantas.Chord.Setup.{last_is, entry_of, add_finger, add_fingers}
use quantas.Common.Places.{get_or-injective}

-- Two steps along the ring, of less than its size, that end at one place are one step.
step_injective :
    (n self a b : ℕ) → self < n → a < n → b < n → (self + a) % n ≡ (self + b) % n → a ≡ b
step_injective n self a b h ha hb e = ground (arith, mod_wraps n (self + a), mod_wraps n (self + b))

node_injective :
    (ring : List ℕ) (self a b : ℕ)
    → AllDiff ring
    → self < length ring
    → a < length ring
    → b < length ring
    → (entry_of ring self a).node_id ≡ (entry_of ring self b).node_id
    → a ≡ b
unfolding entry_of
node_injective ring self a b diff h ha hb e =
    step_injective (length ring) self a b h ha hb
      (get_or-injective ring _ _ diff (mod-lt _ (omega arith)) (mod-lt _ (omega arith)) e)

pub pow_pos : (i : ℕ) → 0 < 2 ^ i
pow_pos zero = omega arith
pow_pos (suc i) = omega (arith, two-pow-succ i, pow_pos i)

pow-lt-pow : (j k : ℕ) → j < k → 2 ^ j < 2 ^ k
pow-lt-pow j k h =
    omega (
      arith,
      two-pow-succ j,
      pow_pos j,
      pow-le-pow_right {n = 2} (omega arith) {i = suc j} {j = k} h,
    )

-- The table holds entries for powers below the `k`-th only.
pub Before : List ℕ → ℕ → ℕ → FingerEntry → Type 0
Before ring self k e = (j : ℕ) × (j < k) × (e.node_id ≡ (entry_of ring self (2 ^ j)).node_id)

Before-suc :
    (ring : List ℕ) (self k : ℕ) (es : List FingerEntry)
    → All (Before ring self k) es
    → All (Before ring self (k + 1)) es
unfolding Before
Before-suc ring self k es =
    All-mono (Before ring self k) (Before ring self (k + 1)) es
      λ e b. (b.0, omega (arith, b.1), b.2)

-- The invariant of the loop, after a round that appends the next entry.
after :
    (ring : List ℕ) (self start : ℕ) (es : List FingerEntry)
    → All (Before ring self start) es
    → All (Before ring self (start + 1)) (es ++ entry_of ring self (2 ^ start) ∷ [])
unfolding Before
after ring self start es before =
    All-concat (Before ring self (start + 1)) es (entry_of ring self (2 ^ start))
      (Before-suc ring self start es before) (start, omega arith, refl)

last_is-fresh :
    (node : ℕ) (es : List FingerEntry)
    → All (λ (e : FingerEntry). e.node_id ≢ node) es
    → last_is node es ≡ false
unfolding last_is
last_is-fresh node [] h = refl
last_is-fresh node (e ∷ []) h = ground (arith, h.0)
last_is-fresh node (e ∷ f ∷ es) h = last_is-fresh node (f ∷ es) h.1

module _ (ring : List ℕ) (self : ℕ) (diff : AllDiff ring) (within : self < length ring) where
  -- The entry of the next power is appended.
  add_finger_lem :
      (k : ℕ) (es : List FingerEntry)
      → 2 ^ k < length ring
      → All (Before ring self k) es
      → add_finger ring self (get_or ring self 0) k es ≡ es ++ entry_of ring self (2 ^ k) ∷ []
  unfolding add_finger Before
  add_finger_lem k es fits before =
      let pos = pow_pos k in
      let small : 2 ^ k % length ring ≡ 2 ^ k = mod-eq_of_lt fits in
      let other : (entry_of ring self (2 ^ k)).node_id ≢ get_or ring self 0 =
        λ e. absurd (omega (arith, pos, self_step k fits e)) in
      let fresh = last_is-fresh (entry_of ring self (2 ^ k)).node_id es (
        All-mono (Before ring self k) _ es
          (λ e b q.
            let same =
              node_injective ring self (2 ^ b.0) (2 ^ k) diff within
                (omega (arith, fits, pow-lt-pow b.0 k b.1)) fits (sym b.2 ∙ q) in
            absurd (omega (arith, same, pow-lt-pow b.0 k b.1)))
          before) in
      ground (arith, pos, small, other, fresh)
    where
      self_step :
          (k : ℕ)
          → 2 ^ k < length ring
          → (entry_of ring self (2 ^ k)).node_id ≡ get_or ring self 0
          → 2 ^ k ≡ 0
      self_step k fits e = node_injective ring self (2 ^ k) 0 diff within fits (omega arith) (
          e
          ∙ ap (λ i. get_or ring i 0)
              (sym (mod-eq_of_lt (omega arith)) ∙ ap (λ (i : ℕ). i % length ring) (omega arith)))

  add_fingers_keep :
      (count start : ℕ) (es : List FingerEntry) (e : FingerEntry)
      → ((k : ℕ) → k < start + count → 2 ^ k < length ring)
      → All (Before ring self start) es
      → Elem e es
      → Elem e (add_fingers ring self (get_or ring self 0) count start es)
  unfolding add_fingers
  add_fingers_keep zero start es e fits before el = el
  add_fingers_keep (suc count) start es e fits before el =
      rw (add_finger_lem start es (fits start (omega arith)) before, add_fingers)
        (add_fingers_keep count (start + 1) (es ++ entry_of ring self (2 ^ start) ∷ []) e
          (λ k h. fits k (omega arith)) (after ring self start es before)
          (Elem-append_left es (entry_of ring self (2 ^ start) ∷ []) e el))

  pub add_fingers_complete :
      (count start k : ℕ) (es : List FingerEntry)
      → ((j : ℕ) → j < start + count → 2 ^ j < length ring)
      → All (Before ring self start) es
      → start ≤ k
      → k < start + count
      → Elem
          (entry_of ring self (2 ^ k))
          (add_fingers ring self (get_or ring self 0) count start es)
  unfolding add_fingers
  add_fingers_complete zero start k es fits before lo hi = absurd (omega arith)
  add_fingers_complete (suc count) start k es fits before lo hi =
      let grown = es ++ entry_of ring self (2 ^ start) ∷ [] in
      rw (add_finger_lem start es (fits start (omega arith)) before, add_fingers)
        (elim (dec_lt start k) [
          | yes later ↦
              add_fingers_complete count (start + 1) k grown (λ j h. fits j (omega arith))
                (after ring self start es before) (omega arith) (omega arith)
          | no now ↦
              let same : k ≡ start = omega arith in
              rw same (
                add_fingers_keep count (start + 1) grown (entry_of ring self (2 ^ start))
                  (λ j h. fits j (omega arith)) (after ring self start es before)
                  (Elem-concat es (entry_of ring self (2 ^ start))))
        ])
