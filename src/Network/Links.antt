-- ===== src/Network/Links.antt =====
-- Network.cpp: what the links make of the neighbours, and the links as pairs of opposite ones.
use quantas.Common.{
  ℕ, zero, suc, ◌+◌, ◌-◌, ◌*◌, ◌%◌, ◌<◌, ◌≡◌, refl, sym, ap, Bool, false, ◌&&◌, ◌||◌, List, [], ◌∷◌,
  ◌++◌, arith, length, ◌==◌, get_or,
}
use quantas.Common.Sets.{contains, contains-insert}
use quantas.Topology.{range, each, complete_calls, star_calls, grid_calls, torus_calls, chain_calls}
use quantas.Network.{
  NetPeer, add_neighbor_at, link_all, make_peers, fully_connect, star_links, grid_links,
  torus_links, chain_links,
}

unfoldable pub neighbors_at : ℕ → List NetPeer → List ℕ
neighbors_at i [] = []
neighbors_at zero (p ∷ ps) = p.neighbors
neighbors_at (suc i) (p ∷ ps) = neighbors_at i ps

-- The peer at the position `i` has the neighbour `y`.
unfoldable pub knows : ℕ → ℕ → List NetPeer → Bool
unfolding neighbors_at
knows i y peers = contains y (neighbors_at i peers)

abbrev pub any_link : ℕ → ℕ → List ℕ → List (ℕ × ℕ) → Bool
any_link i y ids [] = false
any_link i y ids ((a, b) ∷ links) = (i == a && y == get_or ids b 0) || any_link i y ids links

length-add_neighbor_at :
    (i b : ℕ) (peers : List NetPeer) → length (add_neighbor_at i b peers) ≡ length peers
unfolding add_neighbor_at
length-add_neighbor_at i b [] = refl
length-add_neighbor_at zero b (p ∷ ps) = refl
length-add_neighbor_at (suc i) b (p ∷ ps) = ap suc (length-add_neighbor_at i b ps)

knows-add_neighbor_at :
    (i y a b : ℕ) (peers : List NetPeer)
    → i < length peers
    → knows i y (add_neighbor_at a b peers) ≡ (knows i y peers || (i == a && y == b))
unfolding knows neighbors_at add_neighbor_at
knows-add_neighbor_at i y a b [] h = elim h [ ]
knows-add_neighbor_at zero y zero b (p ∷ ps) h = ground (arith, contains-insert b y p.neighbors)
knows-add_neighbor_at (suc i) y zero b (p ∷ ps) h = ground arith
knows-add_neighbor_at zero y (suc a) b (p ∷ ps) h = ground arith
knows-add_neighbor_at (suc i) y (suc a) b (p ∷ ps) h =
    ground (arith, knows-add_neighbor_at i y a b ps (omega arith))

knows-link_all :
    (i y : ℕ) (ids : List ℕ) (links : List (ℕ × ℕ)) (peers : List NetPeer)
    → i < length peers
    → knows i y (link_all ids links peers) ≡ (knows i y peers || any_link i y ids links)
unfolding link_all
knows-link_all i y ids [] peers h = ground arith
knows-link_all i y ids ((a, b) ∷ links) peers h =
    let next = add_neighbor_at a (get_or ids b 0) peers in
    let size = length-add_neighbor_at a (get_or ids b 0) peers in
    ground (
      arith,
      knows-add_neighbor_at i y a (get_or ids b 0) peers h,
      knows-link_all i y ids links next (omega (arith, h, size)),
    )

length-make_peers : (ids : List ℕ) → length (make_peers ids) ≡ length ids
unfolding make_peers
length-make_peers [] = refl
length-make_peers (a ∷ ids) = ap suc (length-make_peers ids)

knows-make_peers : (i y : ℕ) (ids : List ℕ) → knows i y (make_peers ids) ≡ false
unfolding make_peers knows neighbors_at
knows-make_peers i y [] = refl
knows-make_peers zero y (a ∷ ids) = refl
knows-make_peers (suc i) y (a ∷ ids) = knows-make_peers i y ids

pub knows-links :
    (i y : ℕ) (ids : List ℕ) (links : List (ℕ × ℕ))
    → i < length ids
    → knows i y (link_all ids links (make_peers ids)) ≡ any_link i y ids links
knows-links i y ids links h =
    let size = length-make_peers ids in
    ground (
      arith,
      knows-link_all i y ids links (make_peers ids) (omega (arith, h, size)),
      knows-make_peers i y ids,
    )

-- Each call with its opposite.
unfoldable pub both : List (ℕ × ℕ) → List (ℕ × ℕ)
both [] = []
both ((i, j) ∷ calls) = (i, j) ∷ (j, i) ∷ both calls

pub both-append : (xs ys : List (ℕ × ℕ)) → both (xs ++ ys) ≡ both xs ++ both ys
unfolding both
both-append [] ys = refl
both-append ((i, j) ∷ xs) ys = ap (λ t. (i, j) ∷ (j, i) ∷ t) (both-append xs ys)

pub both-each :
    (f g : ℕ → List (ℕ × ℕ)) (is : List ℕ)
    → ((i : ℕ) → g i ≡ both (f i))
    → each g is ≡ both (each f is)
unfolding each both
both-each f g [] same = refl
both-each f g (i ∷ is) same =
    rw (same i, both-each f g is same) (sym (both-append (f i) (each f is)))

pub both-fully_connect : (n : ℕ) → fully_connect n ≡ both (complete_calls n)
unfolding fully_connect complete_calls both
both-fully_connect n =
    both-each (λ i. each (λ j. (i, j) ∷ []) (range (i + 1) (n - (i + 1)))) _ (range 0 n)
      (λ i. both-each (λ j. (i, j) ∷ []) _ (range (i + 1) (n - (i + 1))) (λ j. refl))

pub both-star_links : (n : ℕ) → star_links n ≡ both (star_calls n)
unfolding star_links star_calls both
both-star_links n = both-each (λ i. (0, i) ∷ []) _ (range 1 (n - 1)) (λ i. refl)

pub both-chain_links : (n : ℕ) → chain_links n ≡ both (chain_calls n)
unfolding chain_links chain_calls both
both-chain_links n = both-each (λ i. (i, i + 1) ∷ []) _ (range 0 (n - 1)) (λ i. refl)

pub both-torus_links : (h w : ℕ) → torus_links h w ≡ both (torus_calls h w)
unfolding torus_links torus_calls both
both-torus_links h w =
    both-each
      (λ i.
        each (λ j. (i * w + j, i * w + (j + 1) % w) ∷ (i * w + j, ((i + 1) % h) * w + j) ∷ [])
          (range 0 w))
      _ (range 0 h)
      (λ i.
        both-each (λ j. (i * w + j, i * w + (j + 1) % w) ∷ (i * w + j, ((i + 1) % h) * w + j) ∷ [])
          _ (range 0 w) (λ j. refl))

pub both-grid_links : (h w : ℕ) → grid_links h w ≡ both (grid_calls h w)
unfolding grid_links grid_calls both
both-grid_links h w = both-each _ _ (range 0 h) (λ i. both-each _ _ (range 0 w) (λ j. ground arith))
