-- ===== src/Topology/Neighbours.antt =====
-- TopologyPlanner.cpp, buildTopology: who is whose neighbour in the complete topology and the ring.
mod Calls
use native.Mathlib.Nat.{mod-lt}
use quantas.Common.{
  ℕ, zero, suc, ◌+◌, ◌-◌, ◌%◌, ◌≤◌, ◌<◌, ◌≡◌, refl, sym, ap, subst, ◌∙◌, ◌≢◌, ◌↔◌, ◌⊎◌, inl, inr,
  Bool, true, false, not, ◌&&◌, some, List, [], ◌∷◌, arith, length, ltb, ◌==◌, get_or, Bool-cases,
}
use quantas.Common.Int.{pos}
use quantas.Common.Predicates.{
  Elem, Elem-append_left, Elem-append_right, Elem-append_cases, AllDiff,
}
use quantas.Common.Places.{Elem-get_or, get_or-injective}
use quantas.Topology.{
  complete, ring, PeerAssignment, range, each, complete_calls, ring_calls, edge_calls,
  build_topology,
}
use quantas.Topology.Edges.{adjacent, joins, any_call}
use quantas.Topology.Shapes.{adjacent-build, build_topology-within}
use quantas.Topology.Neighbours.Calls.{
  Elem-range, range-Elem, Elem-each, each-Elem, any_call-true, any_call-Elem, Elem-complete,
}

-- The identifiers below `n`, in some order.
pub record Reorders (n : ℕ) (ids : List ℕ) : Type 0 where
  pub same_length : length ids ≡ n
  pub all_differ : AllDiff ids
  pub all_there : (x : ℕ) → x < n → Elem x ids
  pub all_below : (i : ℕ) → i < n → get_or ids i 0 < n

joined :
    (n x y i j : ℕ) (ids : List ℕ)
    → x ≢ y
    → x < n
    → y < n
    → ((get_or ids i 0 ≡ x) × (get_or ids j 0 ≡ y)) ⊎ ((get_or ids i 0 ≡ y) × (get_or ids j 0 ≡ x))
    → joins n x y (get_or ids i 0) (get_or ids j 0) ≡ true
joined n x y i j ids ne lx ly (inl (ei, ej)) = rw (ei, ej) (ground (arith, ne, lx, ly))
joined n x y i j ids ne lx ly (inr (ei, ej)) = rw (ei, ej) (ground (arith, ne, lx, ly))

complete-joined :
    (n x y : ℕ) (ids : List ℕ)
    → Reorders n ids
    → x ≢ y
    → x < n
    → y < n
    → any_call (joins n x y) ids (complete_calls n) ≡ true
complete-joined n x y ids r ne lx ly =
    let (i, hi, ei) = Elem-get_or x ids (r.all_there x lx) in
    let (j, hj, ej) = Elem-get_or y ids (r.all_there y ly) in
    elim (Bool-cases (ltb i j)) [
      | inl before ↦
          any_call-true (joins n x y) ids (complete_calls n) i j
            (Elem-complete n i j (ground arith) (omega (arith, hj, r.same_length)))
            (joined n x y i j ids ne lx ly (inl (ei, ej)))
      | inr not_before ↦
          let apart : i ≢ j = λ same. ne (sym ei ∙ ap (λ k. get_or ids k 0) same ∙ ej) in
          any_call-true (joins n x y) ids (complete_calls n) j i
            (Elem-complete n j i (ground arith) (omega (arith, hi, r.same_length)))
            (joined n x y j i ids ne lx ly (inr (ej, ei)))
    ]

-- In the complete topology, whatever order the identifiers stand in, two peers are neighbours exactly
-- if they are different.
pub build_topology-complete :
    (order : List ℕ → List ℕ) (n : ℕ) (plan : List PeerAssignment) (x y : ℕ)
    → Reorders (suc n) (order (range 0 (suc n)))
    → build_topology order (some (pos (suc n))) complete ≡ inr plan
    → x < suc n
    → y < suc n
    → adjacent x y plan ≡ not (x == y)
unfolding edge_calls
build_topology-complete order n plan x y ids e lx ly =
    let calls = adjacent-build order n complete plan (complete_calls (suc n)) x y refl e in
    elim (Bool-cases (x == y)) [
      | inr differ ↦
          rw (differ, calls)
            (complete-joined (suc n) x y (order (range 0 (suc n))) ids (ground arith) lx ly)
      | inl same ↦ elim (Bool-cases (adjacent x y plan)) [
        | inr apart ↦ rw (apart, same) refl
        | inl near ↦
            absurd ((build_topology-within order n complete plan x y refl e near).0 (ground arith))
      ]
    ]

ring-joined :
    (n i j : ℕ) (ids : List ℕ)
    → Reorders n ids
    → i < n
    → j < n
    → i ≢ j
    → (j ≡ (i + 1) % n) ⊎ (i ≡ (j + 1) % n)
    → any_call (joins n (get_or ids i 0) (get_or ids j 0)) ids (ring_calls n) ≡ true
unfolding ring_calls
ring-joined n i j ids r hi hj ne next =
    let x = get_or ids i 0 in
    let y = get_or ids j 0 in
    let apart : x ≢ y = λ same. ne (
      get_or-injective ids i j r.all_differ (omega (arith, hi, r.same_length))
        (omega (arith, hj, r.same_length)) same) in
    let call = λ (k : ℕ) (l : ℕ) (lt : k < n) (e : l ≡ (k + 1) % n).
      Elem-each (λ a. (a, (a + 1) % n) ∷ []) (range 0 n) k (k, l)
        (Elem-range k 0 n (omega arith) (omega (arith, lt))) (inl (ap (λ b. (k, b)) e)) in
    elim next [
      | inl after ↦
          any_call-true (joins n x y) ids (ring_calls n) i j (call i j hi after)
            (joined n x y i j ids apart (r.all_below i hi) (r.all_below j hj) (inl (refl, refl)))
      | inr before ↦
          any_call-true (joins n x y) ids (ring_calls n) j i (call j i hj before)
            (joined n x y j i ids apart (r.all_below i hi) (r.all_below j hj) (inr (refl, refl)))
    ]

joins-ends : (n x y a b : ℕ) → joins n x y a b ≡ true → ((x ≡ a) × (y ≡ b)) ⊎ ((x ≡ b) × (y ≡ a))
joins-ends n x y a b h = elim (Bool-cases (x == a && y == b)) [
  | inl forth ↦ inl (ground arith, ground arith)
  | inr not_forth ↦ inr (ground arith, ground arith)
]

ring-next :
    (n i j : ℕ) (ids : List ℕ)
    → Reorders n ids
    → i < n
    → j < n
    → any_call (joins n (get_or ids i 0) (get_or ids j 0)) ids (ring_calls n) ≡ true
    → (j ≡ (i + 1) % n) ⊎ (i ≡ (j + 1) % n)
unfolding ring_calls
ring-next n i j ids r hi hj h =
    let x = get_or ids i 0 in
    let y = get_or ids j 0 in
    let ((a, b), called, true_here) = any_call-Elem (joins n x y) ids (ring_calls n) h in
    let (k, k_in, here) = each-Elem (λ a. (a, (a + 1) % n) ∷ []) (range 0 n) (a, b) called in
    let hk : k < n = omega (arith, (range-Elem k 0 n k_in).1) in
    let next : (k + 1) % n < n = mod-lt (k + 1) (omega (arith, hk)) in
    let is_call : (a, b) ≡ (k, (k + 1) % n) = elim here [
      | inl e ↦ e
      | inr none_left ↦ elim none_left [ ]
    ] in
    let is_a : a ≡ k = ap (λ c. c.0) is_call in
    let is_b : b ≡ (k + 1) % n = ap (λ c. c.1) is_call in
    let place = λ (u v : ℕ) (hu : u < n) (hv : v < n) (same : get_or ids u 0 ≡ get_or ids v 0).
      get_or-injective ids u v r.all_differ (omega (arith, hu, r.same_length))
        (omega (arith, hv, r.same_length)) same in
    let ends : ((x ≡ get_or ids a 0) × (y ≡ get_or ids b 0))
        ⊎ ((x ≡ get_or ids b 0) × (y ≡ get_or ids a 0)) =
      joins-ends n x y (get_or ids a 0) (get_or ids b 0) true_here in
    elim ends [
      | inl (first, second) ↦ inl (
          place j ((k + 1) % n) hj next (second ∙ ap (λ z. get_or ids z 0) is_b)
          ∙ ap (λ z. (z + 1) % n) (sym (place i k hi hk (first ∙ ap (λ z. get_or ids z 0) is_a))))
      | inr (first, second) ↦ inr (
          place i ((k + 1) % n) hi next (first ∙ ap (λ z. get_or ids z 0) is_b)
          ∙ ap (λ z. (z + 1) % n) (sym (place j k hj hk (second ∙ ap (λ z. get_or ids z 0) is_a))))
    ]

-- In the ring, whatever order the identifiers stand in, two different peers are neighbours exactly if
-- one follows the other in that order, the first one following the last.
pub build_topology-ring :
    (order : List ℕ → List ℕ) (n : ℕ) (plan : List PeerAssignment) (i j : ℕ)
    → Reorders (suc n) (order (range 0 (suc n)))
    → build_topology order (some (pos (suc n))) ring ≡ inr plan
    → i < suc n
    → j < suc n
    → i ≢ j
    → (adjacent (get_or (order (range 0 (suc n))) i 0) (get_or (order (range 0 (suc n))) j 0) plan
        ≡ true)
      ↔ ((j ≡ (i + 1) % suc n) ⊎ (i ≡ (j + 1) % suc n))
unfolding edge_calls
build_topology-ring order n plan i j r e hi hj ne =
    let ids = order (range 0 (suc n)) in
    let calls =
      adjacent-build order n ring plan (ring_calls (suc n)) (get_or ids i 0) (get_or ids j 0) refl
        e in
    (
      λ near. ring-next (suc n) i j ids r hi hj (sym calls ∙ near),
      λ next. calls ∙ ring-joined (suc n) i j ids r hi hj ne next,
    )
