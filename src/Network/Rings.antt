-- ===== src/Network/Rings.antt =====
-- Network.cpp: the ring as a chain that is closed, and as the plan for processes has it.
use native.Mathlib.Nat.{mod-eq_of_lt, mod_self}
use mathlib.Core.List.{append_assoc}
use quantas.Common.{
  ℕ, zero, suc, ◌+◌, ◌-◌, ◌%◌, ◌<◌, ◌≤◌, ◌≡◌, refl, sym, ap, ◌∙◌, ◌≢◌, ◌||◌, List, [], ◌∷◌, ◌++◌,
  arith, ltb, get_or, if◌then◌else◌,
}
use quantas.Topology.{range, each, chain_calls, ring_calls}
use quantas.Network.{ring_links, chain_links}
use quantas.Network.Links.{any_link, both, both-append, both-chain_links}

range-last : (first count : ℕ) → range first (suc count) ≡ range first count ++ (first + count) ∷ []
unfolding range
range-last first zero = ap (λ k. k ∷ []) (omega arith)
range-last first (suc count) =
    ap (λ ks. first ∷ ks)
      (range-last (first + 1) count ∙ ap (λ k. range (first + 1) count ++ k ∷ []) (omega arith))

each-append : (f : ℕ → List (ℕ × ℕ)) (xs ys : List ℕ) → each f (xs ++ ys) ≡ each f xs ++ each f ys
unfolding each
each-append f [] ys = refl
each-append f (x ∷ xs) ys =
    rw (each-append f xs ys) (sym (append_assoc (f x) (each f xs) (each f ys)))

-- Below the last place the ring goes on as the chain does.
each-chain :
    (m first count : ℕ)
    → first + count ≤ m
    → each (λ i. (i, (i + 1) % suc m) ∷ []) (range first count)
      ≡ each (λ i. (i, i + 1) ∷ []) (range first count)
unfolding each range
each-chain m first zero le = refl
each-chain m first (suc count) le =
    rw
      (
        mod-eq_of_lt {n = first + 1} {m = suc m} (omega (arith, le)),
        each-chain m (first + 1) count (omega (arith, le)),
      )
      refl

ring_calls-chain : (m : ℕ) → ring_calls (suc m) ≡ chain_calls (suc m) ++ (m, 0) ∷ []
unfolding ring_calls chain_calls each
ring_calls-chain m =
    let step = λ (i : ℕ). (i, (i + 1) % suc m) ∷ [] in
    let place : 0 + m ≡ m = omega arith in
    let one_less : m ≡ suc m - 1 = omega arith in
    let around : (m + 1) % suc m ≡ 0 = ap (λ k. k % suc m) (omega arith) ∙ mod_self (suc m) in
    let start : each step (range 0 m) ≡ chain_calls (suc m) =
      each-chain m 0 m (omega arith) ∙ ap (λ c. each (λ i. (i, i + 1) ∷ []) (range 0 c)) one_less in
    let end : (0 + m, (0 + m + 1) % suc m) ≡ (m, 0) =
      ap (λ k. (k, (k + 1) % suc m)) place ∙ ap (λ k. (m, k)) around in
    ap (each step) (range-last 0 m)
    ∙ each-append step (range 0 m) ((0 + m) ∷ [])
    ∙ ap (λ cs. cs ++ (0 + m, (0 + m + 1) % suc m) ∷ []) start
    ∙ ap (λ c. chain_calls (suc m) ++ c ∷ []) end

any_link-append :
    (i y : ℕ) (ids : List ℕ) (xs ys : List (ℕ × ℕ))
    → any_link i y ids (xs ++ ys) ≡ (any_link i y ids xs || any_link i y ids ys)
any_link-append i y ids [] ys = refl
any_link-append i y ids ((a, b) ∷ xs) ys = ground (arith, any_link-append i y ids xs ys)

-- The link that closes the ring, where there are two peers or more.
closing-both :
    (m i y : ℕ) (ids : List ℕ)
    → i < suc m
    → get_or ids i 0 ≢ y
    → any_link i y ids (if ltb 1 (suc m) then (suc m - 1, 0) ∷ (0, suc m - 1) ∷ [] else [])
      ≡ any_link i y ids ((m, 0) ∷ (0, m) ∷ [])
closing-both zero i y ids hi apart =
    let only : i ≡ 0 = omega (arith, hi) in
    let other : get_or ids 0 0 ≢ y = λ e. apart (ap (λ k. get_or ids k 0) only ∙ e) in
    ground (arith, other)
closing-both (suc m) i y ids hi apart =
    let same : suc (suc m) - 1 ≡ suc m = omega arith in rw same (ground arith)

pub ring_links-both :
    (m i y : ℕ) (ids : List ℕ)
    → i < suc m
    → get_or ids i 0 ≢ y
    → any_link i y ids (ring_links (suc m)) ≡ any_link i y ids (both (ring_calls (suc m)))
unfolding ring_links both
ring_links-both m i y ids hi apart =
    let close = (m, 0) ∷ [] in
    any_link-append i y ids (chain_links (suc m)) _
    ∙ ap (λ b. any_link i y ids (chain_links (suc m)) || b) (closing-both m i y ids hi apart)
    ∙ ap (λ ls. any_link i y ids ls || any_link i y ids (both close)) (both-chain_links (suc m))
    ∙ sym (any_link-append i y ids (both (chain_calls (suc m))) (both close))
    ∙ ap (any_link i y ids)
        (sym (both-append (chain_calls (suc m)) close) ∙ ap both (sym (ring_calls-chain m)))
