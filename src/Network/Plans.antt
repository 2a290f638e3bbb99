-- ===== src/Network/Plans.antt =====
-- Network.cpp against quantas/Common/Concrete/Runtime/Topology/TopologyPlanner.cpp: the neighbours of a
-- simulation are those of the plan for processes.
use quantas.Common.{
  ℕ, zero, suc, ◌<◌, ◌≡◌, refl, sym, ap, ◌∙◌, ◌≢◌, inl, inr, Bool, true, false, Option, none, some,
  List, [], ◌∷◌, arith, length, ◌==◌, get_or, Bool-cases,
}
use quantas.Common.Int.{ℤ, pos, negsuc}
use quantas.Common.Predicates.{All}
use quantas.Common.Places.{get_or-injective}
use quantas.Topology.{
  Shape, complete, star, chain, ring, unidirectional_ring, unknown_shape, grid, torus, user_list,
  PeerAssignment, range, complete_calls, star_calls, grid_calls, torus_calls, chain_calls,
  ring_calls, edge_calls, require_positive_integer, validate_dimensions, check_size, Checked,
  build_topology,
}
use quantas.Topology.Edges.{adjacent, joins, any_call}
use quantas.Topology.Shapes.{Sum-cases, is_undirected, adjacent-Built, build_topology-Built}
use quantas.Topology.Neighbours.{Reorders}
use quantas.Topology.Positions.{InRange}
use quantas.Topology.Calls.{edge_calls-InRange}
use quantas.Network.{links_of, init_network, dimension, grid_links, torus_links}
use quantas.Network.Rings.{ring_links-both}
use quantas.Network.Links.{
  knows, any_link, knows-links, both, both-fully_connect, both-star_links, both-chain_links,
  both-grid_links, both-torus_links,
}

module _ (n i y : ℕ) (ids : List ℕ) (r : Reorders n ids) (hi : i < n)
    (apart : get_or ids i 0 ≢ y) where
  -- A position is that of the peer exactly if the peer's id stands there.
  same_place : (a : ℕ) → a < n → (get_or ids i 0 == get_or ids a 0) ≡ (i == a)
  same_place a ha = elim (Bool-cases (i == a)) [
    | inl same ↦ (let e : i ≡ a = ground (arith, same) in rw e (ground arith))
    | inr other ↦ elim (Bool-cases (get_or ids i 0 == get_or ids a 0)) [
      | inr differ ↦ differ ∙ sym other
      | inl equal ↦ absurd (
          let e =
            get_or-injective ids i a r.all_differ (omega (arith, hi, r.same_length))
              (omega (arith, ha, r.same_length)) (ground (arith, equal)) in
          ground (arith, e, other))
    ]
  ]

  any_link-both :
      (calls : List (ℕ × ℕ))
      → All (InRange n) calls
      → any_link i y ids (both calls) ≡ any_call (joins n (get_or ids i 0) y) ids calls
  unfolding both
  any_link-both [] within = refl
  any_link-both ((a, b) ∷ calls) within =
      let (ha, hb) = within.0 in
      ground (
        arith,
        any_link-both calls within.1,
        same_place a ha,
        same_place b hb,
        r.all_below a ha,
        r.all_below b hb,
        apart,
      )

called :
    (made : List (ℕ × ℕ)) (d : Bool) (calls : List (ℕ × ℕ))
    → ◌≡◌ {A = Checked (Bool × List (ℕ × ℕ))} (inr (false, made)) (inr (d, calls))
    → made ≡ calls
called made d calls e =
    let both : ◌≡◌ {A = Bool × List (ℕ × ℕ)} (false, made) (d, calls) = cc e in ap (λ p. p.1) both

check_size-same :
    (is_torus : Bool) (n h w a b : ℕ) → check_size is_torus n h w ≡ inr (a, b) → (h ≡ a) × (w ≡ b)
unfolding check_size
check_size-same is_torus n h w a b e = ground (arith, e)

require-dimension : (k : Option ℤ) (a : ℕ) → require_positive_integer k ≡ inr a → dimension k ≡ a
unfolding require_positive_integer dimension
require-dimension none a e = cc e
require-dimension (some (negsuc k)) a e = cc e
require-dimension (some (pos zero)) a e = cc e
require-dimension (some (pos (suc k))) a e = ground (arith, e)

validate-dimension :
    (is_torus : Bool) (n a b : ℕ) (height width : Option ℤ)
    → validate_dimensions is_torus n height width ≡ inr (a, b)
    → (dimension height ≡ a) × (dimension width ≡ b)
unfolding validate_dimensions
validate-dimension is_torus n a b height width e =
    elim (Sum-cases (require_positive_integer height)) [
      | inl (err, thrown) ↦
          absurd (let g : inl err ≡ inr (a, b) = rw (thrown, validate_dimensions) at e in cc g)
      | inr (h, found) ↦ elim (Sum-cases (require_positive_integer width)) [
        | inl (err, thrown) ↦
            absurd
              (let g : inl err ≡ inr (a, b) = rw (found, thrown, validate_dimensions) at e in cc g)
        | inr (w, found_w) ↦
            let g : check_size is_torus n h w ≡ inr (a, b) =
              rw (found, found_w, validate_dimensions) at e in
            let same = check_size-same is_torus n h w a b g in
            (require-dimension height h found ∙ same.0, require-dimension width w found_w ∙ same.1)
      ]
    ]

-- Each builder of a type whose edges go both ways makes each call of the plan, and its opposite.
links_of-both :
    (n i y : ℕ) (ids : List ℕ) (shape : Shape) (d : Bool) (calls : List (ℕ × ℕ))
    → is_undirected shape ≡ true
    → edge_calls (suc n) shape ≡ inr (d, calls)
    → i < suc n
    → get_or ids i 0 ≢ y
    → any_link i y ids (links_of (suc n) shape) ≡ any_link i y ids (both calls)
unfolding links_of edge_calls
links_of-both n i y ids complete d calls u e hi apart =
    ap (any_link i y ids)
      (both-fully_connect (suc n) ∙ ap both (called (complete_calls (suc n)) d calls e))
links_of-both n i y ids star d calls u e hi apart =
    ap (any_link i y ids)
      (both-star_links (suc n) ∙ ap both (called (star_calls (suc n)) d calls e))
links_of-both n i y ids chain d calls u e hi apart =
    ap (any_link i y ids)
      (both-chain_links (suc n) ∙ ap both (called (chain_calls (suc n)) d calls e))
links_of-both n i y ids ring d calls u e hi apart =
    ring_links-both n i y ids hi apart
    ∙ ap (λ cs. any_link i y ids (both cs)) (called (ring_calls (suc n)) d calls e)
links_of-both n i y ids unidirectional_ring d calls u e hi apart = cc u
links_of-both n i y ids unknown_shape d calls u e hi apart = cc u
links_of-both n i y ids (user_list l) d calls u e hi apart = cc u
links_of-both n i y ids (grid height width) d calls u e hi apart =
    elim (Sum-cases (validate_dimensions false (suc n) height width)) [
      | inl (err, thrown) ↦
          absurd (let g : inl err ≡ inr (d, calls) = rw (thrown, edge_calls) at e in cc g)
      | inr ((h, w), found) ↦
          let (eh, ew) = validate-dimension false (suc n) h w height width found in
          ap (any_link i y ids) (
            ap (λ a. grid_links a (dimension width)) eh
            ∙ ap (grid_links h) ew
            ∙ both-grid_links h w
            ∙ ap both (called (grid_calls h w) d calls (rw (found, edge_calls) at e)))
    ]
links_of-both n i y ids (torus height width) d calls u e hi apart =
    elim (Sum-cases (validate_dimensions true (suc n) height width)) [
      | inl (err, thrown) ↦
          absurd (let g : inl err ≡ inr (d, calls) = rw (thrown, edge_calls) at e in cc g)
      | inr ((h, w), found) ↦
          let (eh, ew) = validate-dimension true (suc n) h w height width found in
          ap (any_link i y ids) (
            ap (λ a. torus_links a (dimension width)) eh
            ∙ ap (torus_links h) ew
            ∙ both-torus_links h w
            ∙ ap both (called (torus_calls h w) d calls (rw (found, edge_calls) at e)))
    ]

-- In every type whose edges go both ways, whatever order the identifiers stand in, two different peers
-- of a simulation are neighbours exactly if the plan that buildTopology makes for processes has them as
-- neighbours.
pub init_network-build_topology :
    (order : List ℕ → List ℕ) (n : ℕ) (shape : Shape) (plan : List PeerAssignment) (i j : ℕ)
    → Reorders (suc n) (order (range 0 (suc n)))
    → is_undirected shape ≡ true
    → build_topology order (some (pos (suc n))) shape ≡ inr plan
    → i < suc n
    → j < suc n
    → i ≢ j
    → knows i (get_or (order (range 0 (suc n))) j 0) (init_network (order (range 0 (suc n))) shape)
      ≡ adjacent (get_or (order (range 0 (suc n))) i 0) (get_or (order (range 0 (suc n))) j 0) plan
unfolding init_network
init_network-build_topology order n shape plan i j r u e hi hj ne =
    let ids = order (range 0 (suc n)) in
    let y = get_or ids j 0 in
    let (b, size) = build_topology-Built order n shape plan e in
    let apart : get_or ids i 0 ≢ y = λ same. ne (
      get_or-injective ids i j r.all_differ (omega (arith, hi, r.same_length))
        (omega (arith, hj, r.same_length)) same) in
    let called_here : edge_calls (suc n) shape ≡ inr (b.directed, b.calls) =
      ap (λ k. edge_calls k shape) (sym size) ∙ b.called in
    let within = edge_calls-InRange (suc n) shape b.directed b.calls called_here in
    knows-links i y ids (links_of (length ids) shape) (omega (arith, hi, r.same_length))
    ∙ ap (λ k. any_link i y ids (links_of k shape)) r.same_length
    ∙ links_of-both n i y ids shape b.directed b.calls u called_here hi apart
    ∙ any_link-both (suc n) i y ids r hi apart b.calls within
    ∙ ap (λ k. any_call (joins k (get_or ids i 0) y) (order (range 0 k)) b.calls) (sym size)
    ∙ sym (adjacent-Built b (get_or ids i 0) y u)
