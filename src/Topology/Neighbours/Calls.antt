-- ===== src/Topology/Neighbours/Calls.antt =====
-- TopologyPlanner.cpp, buildTopology: the calls of addEdge and the pairs they join.
use quantas.Common.{
  ℕ, zero, suc, ◌+◌, ◌-◌, ◌≤◌, ◌<◌, ◌≡◌, refl, sym, ap, subst, inl, inr, Bool, true, false, List,
  [], ◌∷◌, arith, ◌==◌, get_or, Bool-cases,
}
use quantas.Common.Predicates.{Elem, Elem-append_left, Elem-append_right, Elem-append_cases}
use quantas.Topology.{range, each, complete_calls}
use quantas.Topology.Edges.{any_call}

pub Elem-range : (k first count : ℕ) → first ≤ k → k < first + count → Elem k (range first count)
unfolding range
Elem-range k first zero le lt = absurd (omega (arith, le, lt))
Elem-range k first (suc count) le lt = elim (Bool-cases (k == first)) [
  | inl same ↦ inl (ground arith)
  | inr other ↦ inr (Elem-range k (first + 1) count (ground arith) (omega (arith, lt)))
]

pub range-Elem :
    (k first count : ℕ) → Elem k (range first count) → (first ≤ k) × (k < first + count)
unfolding range
range-Elem k first zero m = elim m [ ]
range-Elem k first (suc count) (inl e) = (omega (arith, e), omega (arith, e))
range-Elem k first (suc count) (inr m) =
    let r = range-Elem k (first + 1) count m in (omega (arith, r.0), omega (arith, r.1))

pub Elem-each :
    (f : ℕ → List (ℕ × ℕ)) (is : List ℕ) (i : ℕ) (c : ℕ × ℕ)
    → Elem i is
    → Elem c (f i)
    → Elem c (each f is)
unfolding each
Elem-each f [] i c m h = elim m [ ]
Elem-each f (k ∷ is) i c (inl e) h =
    Elem-append_left (f k) (each f is) c (subst (λ z. Elem c (f z)) e h)
Elem-each f (k ∷ is) i c (inr m) h = Elem-append_right (f k) (each f is) c (Elem-each f is i c m h)

pub each-Elem :
    (f : ℕ → List (ℕ × ℕ)) (is : List ℕ) (c : ℕ × ℕ)
    → Elem c (each f is)
    → (i : ℕ) × Elem i is × Elem c (f i)
unfolding each
each-Elem f [] c m = elim m [ ]
each-Elem f (k ∷ is) c m = elim (Elem-append_cases (f k) (each f is) c m) [
  | inl here ↦ (k, inl refl, here)
  | inr later ↦ let r = each-Elem f is c later in (r.0, inr r.1, r.2)
]

pub any_call-true :
    (test : ℕ → ℕ → Bool) (ids : List ℕ) (calls : List (ℕ × ℕ)) (i j : ℕ)
    → Elem (i, j) calls
    → test (get_or ids i 0) (get_or ids j 0) ≡ true
    → any_call test ids calls ≡ true
any_call-true test ids [] i j m h = elim m [ ]
any_call-true test ids ((k, l) ∷ calls) i j (inl e) h =
    let first : i ≡ k = ap (λ c. c.0) e in
    let second : j ≡ l = ap (λ c. c.1) e in
    let here : test (get_or ids k 0) (get_or ids l 0) ≡ true = rw (sym first, sym second) h in
    rw here refl
any_call-true test ids ((k, l) ∷ calls) i j (inr m) h =
    let later = any_call-true test ids calls i j m h in
    elim (Bool-cases (test (get_or ids k 0) (get_or ids l 0))) [
      | inl here ↦ rw here refl
      | inr other ↦ rw (other, later) refl
    ]

pub any_call-Elem :
    (test : ℕ → ℕ → Bool) (ids : List ℕ) (calls : List (ℕ × ℕ))
    → any_call test ids calls ≡ true
    → (c : ℕ × ℕ) × Elem c calls × (test (get_or ids c.0 0) (get_or ids c.1 0) ≡ true)
any_call-Elem test ids [] h = absurd (let e : false ≡ true = h in cc e)
any_call-Elem test ids ((k, l) ∷ calls) h =
    elim (Bool-cases (test (get_or ids k 0) (get_or ids l 0))) [
      | inl here ↦ ((k, l), inl refl, here)
      | inr other ↦ let r = any_call-Elem test ids calls (rw other at h) in (r.0, inr r.1, r.2)
    ]

pub Elem-complete : (n i j : ℕ) → i < j → j < n → Elem (i, j) (complete_calls n)
unfolding complete_calls
Elem-complete n i j lt le =
    let row = λ (a : ℕ). each (λ b. (a, b) ∷ []) (range (a + 1) (n - (a + 1))) in
    Elem-each row (range 0 n) i (i, j) (Elem-range i 0 n (omega arith) (omega arith))
      (Elem-each (λ b. (i, b) ∷ []) (range (i + 1) (n - (i + 1))) j (i, j)
        (Elem-range j (i + 1) (n - (i + 1)) (omega arith) (omega arith)) (inl refl))
