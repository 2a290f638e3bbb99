-- ===== src/Kademlia/Closest.antt =====
-- KademliaPeer.cpp, selectClosestByDistance: the neighbour nearest to the target.
use quantas.Common.{
  ℕ, ◌≤◌, ◌<◌, ◌≡◌, refl, sym, ap, subst, ◌∙◌, ◌≢◌, ◌⊎◌, inl, inr, Option, none, some, eq_of_some,
  List, [], ◌∷◌, arith, ltb, ◌==◌, Bool-cases,
}
use quantas.Common.Predicates.{All, All-mono, Elem}
use quantas.Kademlia.{Peer, xor_distance, consider, closest_of, select_closest_by_distance}

-- What a scan of the neighbours makes of the best one so far.
record Scanned (self target : ℕ) (ns : List ℕ) (start end : Option ℕ × ℕ) : Type 0 where
  nearer : end.1 ≤ start.1
  nearest : All (λ n. n ≢ self → end.1 ≤ xor_distance n target) ns
  found :
      (end ≡ start)
      ⊎ ((n : ℕ) × (end.0 ≡ some n)
          × Elem n ns
          × (n ≢ self)
          × (end.1 ≡ xor_distance n target)
          × (end.1 < start.1))

Scanned-skip :
    (self target n : ℕ) (ns : List ℕ) (start end : Option ℕ × ℕ)
    → (n ≢ self → end.1 ≤ xor_distance n target)
    → Scanned self target ns start end
    → Scanned self target (n ∷ ns) start end
Scanned-skip self target n ns start end far r = record {
  nearer = r.nearer;
  nearest = (far, r.nearest);
  found = elim r.found [
    | inl same ↦ inl same
    | inr (m, is_m, m_in, ne, at, lt) ↦ inr (m, is_m, inr m_in, ne, at, lt)
  ];
}

Scanned-take :
    (self target n : ℕ) (ns : List ℕ) (start end : Option ℕ × ℕ)
    → n ≢ self
    → xor_distance n target < start.1
    → Scanned self target ns (some n, xor_distance n target) end
    → Scanned self target (n ∷ ns) start end
Scanned-take self target n ns start end ne lt r = record {
  nearer = omega (arith, r.nearer, lt);
  nearest = (λ _. r.nearer, r.nearest);
  found = elim r.found [
    | inl same ↦
        let second : end.1 ≡ xor_distance n target = ap (λ e. e.1) same in
        inr (n, ap (λ e. e.0) same, inl refl, ne, second, omega (arith, second, lt))
    | inr (m, is_m, m_in, ne_m, at, lt_m) ↦
        inr (m, is_m, inr m_in, ne_m, at, omega (arith, lt_m, lt))
  ];
}

closest_of-Scanned :
    (self target : ℕ) (ns : List ℕ) (start : Option ℕ × ℕ)
    → Scanned self target ns start (closest_of self target ns start)
unfolding closest_of consider
closest_of-Scanned self target [] start = record {
  nearer = omega arith;
  nearest = tt;
  found = inl refl;
}
closest_of-Scanned self target (n ∷ ns) (best, d) = elim (Bool-cases (n == self)) [
  | inl own ↦
      let r = closest_of-Scanned self target ns (best, d) in
      rw (own, consider)
        (Scanned-skip self target n ns (best, d) (closest_of self target ns (best, d))
          (λ ne. absurd (ne (ground arith))) r)
  | inr other ↦ elim (Bool-cases (ltb (xor_distance n target) d)) [
    | inl near ↦
        rw (other, near, consider)
          (Scanned-take self target n ns (best, d)
            (closest_of self target ns (some n, xor_distance n target)) (ground (arith, other))
            (ground (arith, near))
            (closest_of-Scanned self target ns (some n, xor_distance n target)))
    | inr far ↦
        let r = closest_of-Scanned self target ns (best, d) in
        rw (other, far, consider)
          (Scanned-skip self target n ns (best, d) (closest_of self target ns (best, d))
            (λ _.
              let le : d ≤ xor_distance n target = ground (arith, far) in
              omega (arith, le, r.nearer))
            r)
  ]
]

-- A neighbour that selectClosestByDistance returns is not the peer itself, is nearer to the target
-- than the peer, and no other neighbour is nearer.
pub select_closest_by_distance-Closest :
    (p : Peer) (target n : ℕ) (nbrs : List ℕ)
    → select_closest_by_distance p target nbrs ≡ some n
    → Elem n nbrs
      × (n ≢ p.public_id)
      × (xor_distance n target < xor_distance p.public_id target)
      × All (λ m. m ≢ p.public_id → xor_distance n target ≤ xor_distance m target) nbrs
unfolding select_closest_by_distance
select_closest_by_distance-Closest p target n nbrs e =
    let end = closest_of p.public_id target nbrs (none, xor_distance p.public_id target) in
    let r = closest_of-Scanned p.public_id target nbrs (none, xor_distance p.public_id target) in
    elim r.found [
      | inl same ↦ absurd (let f : none ≡ some n = sym (ap (λ x. x.0) same) ∙ e in cc f)
      | inr (m, is_m, m_in, ne, at, lt) ↦
          let same : m ≡ n = eq_of_some m n (sym is_m ∙ e) in
          let here : end.1 ≡ xor_distance n target = at ∙ ap (λ k. xor_distance k target) same in
          (
            subst (λ k. Elem k nbrs) same m_in,
            subst (λ k. k ≢ p.public_id) same ne,
            omega (arith, here, lt),
            All-mono (λ k. k ≢ p.public_id → end.1 ≤ xor_distance k target)
                (λ k. k ≢ p.public_id → xor_distance n target ≤ xor_distance k target) nbrs
                (λ k far ne_k. omega (arith, far ne_k, here)) r.nearest,
          )
    ]
