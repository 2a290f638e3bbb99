-- ===== src/Topology/Positions.antt =====
-- TopologyPlanner.cpp, buildTopology: the positions at which the loops read `ids`.
use native.Mathlib.Nat.{mod-lt, mul-le-mul_right}
use quantas.Common.{
  ℕ, zero, suc, ◌+◌, ◌-◌, ◌*◌, ◌%◌, ◌≤◌, ◌<◌, ◌≡◌, refl, sym, ap, ◌∙◌, inl, inr, Bool, ◌&&◌, ◌||◌,
  Option, List, [], ◌∷◌, ◌++◌, arith, ltb, ◌==◌, if◌then◌else◌, Bool-cases,
}
use quantas.Common.Int.{ℤ}
use quantas.Common.Predicates.{All, All-append}
use quantas.Topology.{
  small_torus, wrong_size, range, each, complete_calls, star_calls, chain_calls, ring_calls,
  grid_calls, torus_calls, require_positive_integer, validate_dimensions, check_size,
}
use quantas.Topology.Shapes.{Sum-cases, eq_of_inr}

abbrev pub InRange : ℕ → ℕ × ℕ → Type 0
InRange n c = (c.0 < n) × (c.1 < n)

All-each :
    (P : ℕ × ℕ → Type 0) (f : ℕ → List (ℕ × ℕ)) (first count : ℕ)
    → ((i : ℕ) → first ≤ i → i < first + count → All P (f i))
    → All P (each f (range first count))
unfolding each range
All-each P f first zero h = tt
All-each P f first (suc count) h =
    All-append P (f first) (each f (range (first + 1) count)) (h first (omega arith) (omega arith))
      (All-each P f (first + 1) count (λ i le lt. h i (omega (arith, le)) (omega (arith, lt))))

pub complete_calls-InRange : (n : ℕ) → All (InRange n) (complete_calls n)
unfolding complete_calls
complete_calls-InRange n =
    All-each (InRange n) (λ i. each (λ j. (i, j) ∷ []) (range (i + 1) (n - (i + 1)))) 0 n
      (λ i _ hi.
        All-each (InRange n) (λ j. (i, j) ∷ []) (i + 1) (n - (i + 1))
          (λ j le lt. ((omega (arith, hi), omega (arith, le, lt, hi)), tt)))

pub star_calls-InRange : (n : ℕ) → All (InRange n) (star_calls n)
unfolding star_calls
star_calls-InRange n =
    All-each (InRange n) (λ i. (0, i) ∷ []) 1 (n - 1)
      (λ i le lt. ((omega (arith, le, lt), omega (arith, le, lt)), tt))

pub chain_calls-InRange : (n : ℕ) → All (InRange n) (chain_calls n)
unfolding chain_calls
chain_calls-InRange n =
    All-each (InRange n) (λ i. (i, i + 1) ∷ []) 0 (n - 1)
      (λ i le lt. ((omega (arith, lt), omega (arith, lt)), tt))

pub ring_calls-InRange : (n : ℕ) → All (InRange n) (ring_calls n)
unfolding ring_calls
ring_calls-InRange n =
    All-each (InRange n) (λ i. (i, (i + 1) % n) ∷ []) 0 n
      (λ i le lt. ((omega (arith, lt), mod-lt (i + 1) (omega (arith, lt))), tt))

-- A row leaves room for its columns.
row-room : (height width i j : ℕ) → i < height → j < width → i * width + j < height * width
row-room height width i j hi hj =
    let rows : (i + 1) * width ≤ height * width = mul-le-mul_right width (omega (arith, hi)) in
    omega (arith, rows, hj)

pub grid_calls-InRange :
    (height width : ℕ) → All (InRange (height * width)) (grid_calls height width)
unfolding grid_calls
grid_calls-InRange height width =
    let n = height * width in
    let right =
      λ (i j : ℕ). if ltb (j + 1) width then (i * width + j, i * width + j + 1) ∷ [] else [] in
    let down =
      λ (i j : ℕ). if ltb (i + 1) height then (i * width + j, i * width + j + width) ∷ [] else [] in
    All-each (InRange n) (λ i. each (λ j. right i j ++ down i j) (range 0 width)) 0 height
      (λ i _ hi.
        All-each (InRange n) (λ j. right i j ++ down i j) 0 width
          (λ j _ hj.
            let here = row-room height width i j (omega (arith, hi)) (omega (arith, hj)) in
            All-append (InRange n) (right i j) (down i j)
              (elim (Bool-cases (ltb (j + 1) width)) [
                | inl inside ↦
                    let next = row-room height width i (j + 1) (omega (arith, hi)) (ground arith) in
                    rw inside ((here, omega (arith, next)), tt)
                | inr last ↦ rw last tt
              ])
              (elim (Bool-cases (ltb (i + 1) height)) [
                | inl inside ↦
                    let next = row-room height width (i + 1) j (ground arith) (omega (arith, hj)) in
                    rw inside ((here, omega (arith, next)), tt)
                | inr last ↦ rw last tt
              ])))

pub torus_calls-InRange :
    (height width : ℕ) → All (InRange (height * width)) (torus_calls height width)
unfolding torus_calls
torus_calls-InRange height width =
    let n = height * width in
    let both = λ (i j : ℕ).
      (i * width + j, i * width + (j + 1) % width)
      ∷ (i * width + j, ((i + 1) % height) * width + j)
      ∷ [] in
    All-each (InRange n) (λ i. each (both i) (range 0 width)) 0 height
      (λ i _ hi. All-each (InRange n) (both i) 0 width (λ j _ hj.
        let hi' : i < height = omega (arith, hi) in
        let hj' : j < width = omega (arith, hj) in
        let here = row-room height width i j hi' hj' in
        (
          (
            here,
            row-room height width i ((j + 1) % width) hi' (mod-lt (j + 1) (omega (arith, hj'))),
          ),
          (
            (
              here,
              row-room height width ((i + 1) % height) j (mod-lt (i + 1) (omega (arith, hi'))) hj',
            ),
            tt,
          ),
        )))

check_size-size :
    (is_torus : Bool) (n height width h w : ℕ)
    → check_size is_torus n height width ≡ inr (h, w)
    → h * w ≡ n
unfolding check_size
check_size-size is_torus n height width h w e =
    elim (Bool-cases (is_torus && (ltb height 2 || ltb width 2))) [
      | inl small ↦
          absurd (let f : inl small_torus ≡ inr (h, w) = rw (small, check_size) at e in cc f)
      | inr large ↦ elim (Bool-cases (height * width == n)) [
        | inr other ↦
            absurd
              (let f : inl wrong_size ≡ inr (h, w) = rw (large, other, check_size) at e in cc f)
        | inl right ↦
            let same : (height, width) ≡ (h, w) =
              eq_of_inr (check_size is_torus n height width) (height, width) (h, w)
                (rw (large, right, check_size) refl) e in
            ap (λ c. c.0 * c.1) (sym same) ∙ ground arith
      ]
    ]

pub validate_dimensions-size :
    (is_torus : Bool) (n : ℕ) (height width : Option ℤ) (h w : ℕ)
    → validate_dimensions is_torus n height width ≡ inr (h, w)
    → h * w ≡ n
unfolding validate_dimensions
validate_dimensions-size is_torus n height width h w e =
    elim (Sum-cases (require_positive_integer height)) [
      | inl (err, thrown) ↦
          absurd (let f : inl err ≡ inr (h, w) = rw (thrown, validate_dimensions) at e in cc f)
      | inr (a, is_a) ↦ elim (Sum-cases (require_positive_integer width)) [
        | inl (err, thrown) ↦
            absurd
              (let f : inl err ≡ inr (h, w) = rw (is_a, thrown, validate_dimensions) at e in cc f)
        | inr (b, is_b) ↦
            check_size-size is_torus n a b h w (rw (is_a, is_b, validate_dimensions) at e)
      ]
    ]
