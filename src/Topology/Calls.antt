-- ===== src/Topology/Calls.antt =====
-- TopologyPlanner.cpp, buildTopology: every call reads `ids` within its bounds.
use quantas.Common.{
  ℕ, ◌*◌, ◌<◌, ◌≡◌, refl, ap, subst, inl, inr, Bool, true, false, Option, none, some, List, [], ◌∷◌,
  ◌++◌, arith, Option-cases,
}
use quantas.Common.Int.{ℤ, pos, negsuc}
use quantas.Common.Predicates.{All, All-append}
use quantas.Topology.{
  Shape, complete, star, chain, ring, unidirectional_ring, unknown_shape, grid, torus, user_list,
  Checked, not_an_array, complete_calls, star_calls, chain_calls, ring_calls, grid_calls,
  torus_calls, edge_calls, validate_dimensions, parse_peer_id, read_neighbour, read_neighbours,
  read_entry, read_list,
}
use quantas.Topology.Shapes.{Sum-cases, eq_of_inr}
use quantas.Topology.Positions.{
  InRange, complete_calls-InRange, star_calls-InRange, chain_calls-InRange, ring_calls-InRange,
  grid_calls-InRange, torus_calls-InRange, validate_dimensions-size,
}

parse_peer_id-lt : (n : ℕ) (key : Option ℤ) (k : ℕ) → parse_peer_id n key ≡ inr k → k < n
unfolding parse_peer_id
parse_peer_id-lt n none k e = cc e
parse_peer_id-lt n (some (negsuc j)) k e = cc e
parse_peer_id-lt n (some (pos j)) k e = ground arith

read_neighbour-lt :
    (n source : ℕ) (d : Option ℤ) (k : ℕ) → read_neighbour n source d ≡ inr k → k < n
unfolding read_neighbour
read_neighbour-lt n source none k e = cc e
read_neighbour-lt n source (some (negsuc j)) k e = cc e
read_neighbour-lt n source (some (pos j)) k e = ground arith

read_neighbours-InRange :
    (n source : ℕ) (ds : List (Option ℤ)) (calls : List (ℕ × ℕ))
    → source < n
    → read_neighbours n source ds ≡ inr calls
    → All (InRange n) calls
unfolding read_neighbours
read_neighbours-InRange n source [] calls lt e =
    subst (All (InRange n)) (eq_of_inr (read_neighbours n source []) [] calls refl e) tt
read_neighbours-InRange n source (d ∷ ds) calls lt e =
    elim (Sum-cases (read_neighbour n source d)) [
      | inl (err, thrown) ↦
          absurd (let f : inl err ≡ inr calls = rw (thrown, read_neighbours) at e in cc f)
      | inr (k, is_k) ↦ elim (Sum-cases (read_neighbours n source ds)) [
        | inl (err, thrown) ↦
            absurd (let f : inl err ≡ inr calls = rw (is_k, thrown, read_neighbours) at e in cc f)
        | inr (rest, is_rest) ↦
            subst (All (InRange n))
              (eq_of_inr (read_neighbours n source (d ∷ ds)) ((source, k) ∷ rest) calls
                (rw (is_k, is_rest, read_neighbours) refl) e)
              (
                (lt, read_neighbour-lt n source d k is_k),
                read_neighbours-InRange n source ds rest lt is_rest,
              )
      ]
    ]

read_entry-InRange :
    (n : ℕ) (key : Option ℤ) (value : Option (List (Option ℤ))) (calls : List (ℕ × ℕ))
    → read_entry n (key, value) ≡ inr calls
    → All (InRange n) calls
unfolding read_entry
read_entry-InRange n key value calls e = elim (Sum-cases (parse_peer_id n key)) [
  | inl (err, thrown) ↦ absurd (let f : inl err ≡ inr calls = rw (thrown, read_entry) at e in cc f)
  | inr (source, is_source) ↦ elim (Option-cases value) [
    | inl missing ↦
        absurd
          (let f : inl not_an_array ≡ inr calls = rw (is_source, missing, read_entry) at e in cc f)
    | inr (ds, is_ds) ↦
        read_neighbours-InRange n source ds calls (parse_peer_id-lt n key source is_source)
          (rw (is_source, is_ds, read_entry) at e)
  ]
]

read_list-InRange :
    (n : ℕ) (entries : List (Option ℤ × Option (List (Option ℤ)))) (calls : List (ℕ × ℕ))
    → read_list n entries ≡ inr calls
    → All (InRange n) calls
unfolding read_list
read_list-InRange n [] calls e =
    subst (All (InRange n)) (eq_of_inr (read_list n []) [] calls refl e) tt
read_list-InRange n ((key, value) ∷ xs) calls e = elim (Sum-cases (read_entry n (key, value))) [
  | inl (err, thrown) ↦ absurd (let f : inl err ≡ inr calls = rw (thrown, read_list) at e in cc f)
  | inr (here, is_here) ↦ elim (Sum-cases (read_list n xs)) [
    | inl (err, thrown) ↦
        absurd (let f : inl err ≡ inr calls = rw (is_here, thrown, read_list) at e in cc f)
    | inr (rest, is_rest) ↦
        subst (All (InRange n))
          (eq_of_inr (read_list n ((key, value) ∷ xs)) (here ++ rest) calls
            (rw (is_here, is_rest, read_list) refl) e)
          (All-append (InRange n) here rest (read_entry-InRange n key value here is_here)
            (read_list-InRange n xs rest is_rest))
  ]
]

called :
    (n : ℕ) (v : Checked (Bool × List (ℕ × ℕ))) (d d' : Bool) (calls calls' : List (ℕ × ℕ))
    → v ≡ inr (d, calls)
    → v ≡ inr (d', calls')
    → All (InRange n) calls
    → All (InRange n) calls'
called n v d d' calls calls' e e' h =
    subst (All (InRange n)) (ap (λ c. c.1) (eq_of_inr v (d, calls) (d', calls') e e')) h

sized :
    (n h w : ℕ) (calls : List (ℕ × ℕ))
    → h * w ≡ n
    → All (InRange (h * w)) calls
    → All (InRange n) calls
sized n h w calls e all = subst (λ m. All (InRange m) calls) e all

-- Whatever the type of the topology and its fields are, if no error is thrown then every position at
-- which the identifiers are read is below the number of peers.
pub edge_calls-InRange :
    (n : ℕ) (shape : Shape) (directed : Bool) (calls : List (ℕ × ℕ))
    → edge_calls n shape ≡ inr (directed, calls)
    → All (InRange n) calls
unfolding edge_calls
edge_calls-InRange n complete d calls e =
    called n (edge_calls n complete) false d (complete_calls n) calls refl e
      (complete_calls-InRange n)
edge_calls-InRange n star d calls e =
    called n (edge_calls n star) false d (star_calls n) calls refl e (star_calls-InRange n)
edge_calls-InRange n chain d calls e =
    called n (edge_calls n chain) false d (chain_calls n) calls refl e (chain_calls-InRange n)
edge_calls-InRange n ring d calls e =
    called n (edge_calls n ring) false d (ring_calls n) calls refl e (ring_calls-InRange n)
edge_calls-InRange n unidirectional_ring d calls e =
    called n (edge_calls n unidirectional_ring) true d (ring_calls n) calls refl e
      (ring_calls-InRange n)
edge_calls-InRange n unknown_shape d calls e = cc e
edge_calls-InRange n (grid height width) d calls e =
    elim (Sum-cases (validate_dimensions false n height width)) [
      | inl (err, thrown) ↦
          absurd (let f : inl err ≡ inr (d, calls) = rw (thrown, edge_calls) at e in cc f)
      | inr ((h, w), valid) ↦
          called n (edge_calls n (grid height width)) false d (grid_calls h w) calls
            (rw (valid, edge_calls) refl) e
            (sized n h w (grid_calls h w) (validate_dimensions-size false n height width h w valid)
              (grid_calls-InRange h w))
    ]
edge_calls-InRange n (torus height width) d calls e =
    elim (Sum-cases (validate_dimensions true n height width)) [
      | inl (err, thrown) ↦
          absurd (let f : inl err ≡ inr (d, calls) = rw (thrown, edge_calls) at e in cc f)
      | inr ((h, w), valid) ↦
          called n (edge_calls n (torus height width)) false d (torus_calls h w) calls
            (rw (valid, edge_calls) refl) e
            (sized n h w (torus_calls h w) (validate_dimensions-size true n height width h w valid)
              (torus_calls-InRange h w))
    ]
edge_calls-InRange n (user_list none) d calls e = cc e
edge_calls-InRange n (user_list (some entries)) d calls e = elim (Sum-cases (read_list n entries)) [
  | inl (err, thrown) ↦
      absurd (let f : inl err ≡ inr (d, calls) = rw (thrown, edge_calls) at e in cc f)
  | inr (read, is_read) ↦
      called n (edge_calls n (user_list (some entries))) true d read calls
        (rw (is_read, edge_calls) refl) e (read_list-InRange n entries read is_read)
]
