-- ===== src/Kademlia/Bits.antt =====
-- KademliaPeer.cpp, findRoute: a finger of the group of the target shares more leading bits with it.
use quantas.Common.{
  ℕ, suc, ◌<◌, ◌≡◌, refl, sym, ap, ◌∙◌, inl, inr, Bool, true, Option, none, some, eq_of_some, List,
  [], ◌∷◌, arith, Bool-cases,
}
use quantas.Kademlia.{same_bit, next_bit, first_different_bit}

-- A first different bit behind the bit `g`, or no different bit at all.
unfoldable pub IsLater : ℕ → Option ℕ → Type 0
IsLater g none = Unit
IsLater g (some h) = g < h

IsLater-next : (g : ℕ) (b : Option ℕ) → IsLater g b → IsLater (suc g) (next_bit b)
unfolding IsLater next_bit
IsLater-next g none h = tt
IsLater-next g (some k) h = omega (arith, h)

IsLater-first : (b : Option ℕ) → IsLater 0 (next_bit b)
unfolding IsLater next_bit
IsLater-first none = tt
IsLater-first (some k) = omega arith

first_bit : (b : Option ℕ) (g : ℕ) → next_bit b ≡ some g → (k : ℕ) × (g ≡ suc k) × (b ≡ some k)
unfolding next_bit
first_bit none g e = cc e
first_bit (some k) g e = (k, sym (eq_of_some (suc k) g e), refl)

-- Two ids that first differ from a third one at the same bit agree beyond it.
pub first_different_bit-IsLater :
    (ts fs ss : List Bool) (g : ℕ)
    → first_different_bit ts ss ≡ some g
    → first_different_bit fs ss ≡ some g
    → IsLater g (first_different_bit ts fs)
unfolding first_different_bit same_bit IsLater
first_different_bit-IsLater [] fs ss g e d = tt
first_different_bit-IsLater (t ∷ ts) [] ss g e d = tt
first_different_bit-IsLater (t ∷ ts) (f ∷ fs) [] g e d = cc e
first_different_bit-IsLater (t ∷ ts) (f ∷ fs) (s ∷ ss) g e d = elim (Bool-cases (same_bit t s)) [
  | inl same_t ↦
      let tail_t : next_bit (first_different_bit ts ss) ≡ some g =
        rw (same_t, first_different_bit) at e in
      let (k, is_suc, later_t) = first_bit (first_different_bit ts ss) g tail_t in
      elim (Bool-cases (same_bit f s)) [
        | inr other_f ↦
            let at_f : 0 ≡ g = eq_of_some 0 g (rw (other_f, first_different_bit) at d) in
            absurd (omega (arith, at_f, is_suc))
        | inl same_f ↦
            let tail_f : next_bit (first_different_bit fs ss) ≡ some g =
              rw (same_f, first_different_bit) at d in
            let (l, is_suc_f, later_f) = first_bit (first_different_bit fs ss) g tail_f in
            let both : same_bit t f ≡ true = ground (arith, same_t, same_f) in
            let k_is : l ≡ k = omega (arith, is_suc, is_suc_f) in
            rw (both, is_suc, first_different_bit)
              (IsLater-next k (first_different_bit ts fs)
                (first_different_bit-IsLater ts fs ss k later_t (later_f ∙ ap some k_is)))
      ]
  | inr other_t ↦
      let at_t : 0 ≡ g = eq_of_some 0 g (rw (other_t, first_different_bit) at e) in
      elim (Bool-cases (same_bit f s)) [
        | inl same_f ↦
            let tail_f : next_bit (first_different_bit fs ss) ≡ some g =
              rw (same_f, first_different_bit) at d in
            let (l, is_suc_f, later_f) = first_bit (first_different_bit fs ss) g tail_f in
            absurd (omega (arith, at_t, is_suc_f))
        | inr other_f ↦
            let both : same_bit t f ≡ true = ground (arith, other_t, other_f) in
            rw (both, sym at_t, first_different_bit) (IsLater-first (first_different_bit ts fs))
      ]
]
