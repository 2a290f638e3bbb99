-- ===== src/Pow/Loops/Counts.antt =====
-- quantas/Common/Pow.hpp: what a walk over the blocks has still to visit.
use quantas.Common.{
  ℕ, zero, suc, ◌+◌, ◌≤◌, ◌<◌, ◌≡◌, refl, inl, inr, Bool, true, false, Option, some, List, [], ◌∷◌,
  arith, length, ◌==◌, if◌then◌else◌, Bool-cases, Option-cases, eq_of_some,
}
use quantas.Common.Sets.{contains}
use quantas.Common.Maps.{lookup}
use quantas.Common.Predicates.{All, Elem, Elem-append_left, Elem-append_right, All-of_Elem}
use quantas.Pow.{BlockRecord, children_of, push_parents, walk_ancestry, mentioned, edges}

-- Those of a list that are not visited yet.
pub unvisited : List ℕ → List ℕ → ℕ
unvisited visited [] = 0
unvisited visited (x ∷ xs) = (if contains x visited then 0 else 1) + unvisited visited xs

unvisited-more : (p : ℕ) (visited xs : List ℕ) → unvisited (p ∷ visited) xs ≤ unvisited visited xs
unfolding unvisited
unvisited-more p visited [] = omega arith
unvisited-more p visited (x ∷ xs) = ground (arith, unvisited-more p visited xs)

unvisited-less :
    (p : ℕ) (visited xs : List ℕ)
    → contains p visited ≡ false
    → Elem p xs
    → unvisited (p ∷ visited) xs + 1 ≤ unvisited visited xs
unfolding unvisited
unvisited-less p visited [] new m = absurd m
unvisited-less p visited (x ∷ xs) new (inl e) = ground (arith, unvisited-more p visited xs, new, e)
unvisited-less p visited (x ∷ xs) new (inr m) = ground (arith, unvisited-less p visited xs new m)

pub unvisited-length : (visited xs : List ℕ) → unvisited visited xs ≤ length xs
unfolding unvisited
unvisited-length visited [] = omega arith
unvisited-length visited (x ∷ xs) = ground (arith, unvisited-length visited xs)

push_parents-left :
    (ps stack visited xs : List ℕ)
    → All (λ p. Elem p xs) ps
    → length (push_parents ps stack visited).0 + unvisited (push_parents ps stack visited).1 xs
      ≤ length stack + unvisited visited xs
unfolding push_parents
push_parents-left [] stack visited xs sub = omega arith
push_parents-left (p ∷ ps) stack visited xs sub = elim (Bool-cases (contains p visited)) [
  | inl old ↦ rw (old, push_parents) (push_parents-left ps stack visited xs sub.1)
  | inr new ↦
      rw (new, push_parents)
        (omega (
          arith,
          push_parents-left ps (p ∷ stack) (p ∷ visited) xs sub.1,
          unvisited-less p visited xs new sub.0,
        ))
]

lookup-mentioned :
    (h : ℕ) (bs : List (ℕ × BlockRecord)) (r : BlockRecord)
    → lookup h bs ≡ some r
    → (p : ℕ) → Elem p r.parents
    → Elem p (mentioned bs)
unfolding mentioned
lookup-mentioned h [] r e p m = absurd (let g : Option.none ≡ some r = e in cc g)
lookup-mentioned h ((k, q) ∷ bs) r e p m = elim (Bool-cases (h == k)) [
  | inl same ↦
      let is : q ≡ r = eq_of_some q r (rw (same, lookup) at e) in
      Elem-append_left q.parents (mentioned bs) p (rw is m)
  | inr other ↦
      Elem-append_right q.parents (mentioned bs) p
        (lookup-mentioned h bs r (rw (other, lookup) at e) p m)
]

-- The walk over the ancestors ends, with a unit of fuel for each block on the stack and each parent
-- that it has not come to.
pub walk_ancestry-returns :
    (fuel : ℕ) (blocks : List (ℕ × BlockRecord)) (stack visited : List ℕ)
    → length stack + unvisited visited (mentioned blocks) < fuel
    → (b : Bool) × (walk_ancestry fuel blocks stack visited ≡ some b)
unfolding walk_ancestry
walk_ancestry-returns zero blocks stack visited enough = elim enough [ ]
walk_ancestry-returns (suc fuel) blocks [] visited enough = (true, refl)
walk_ancestry-returns (suc fuel) blocks (current ∷ stack) visited enough =
    elim (Option-cases (lookup current blocks)) [
      | inl missing ↦ (false, rw (missing, walk_ancestry) refl)
      | inr (r, found) ↦
          let pushed = push_parents r.parents stack visited in
          let known =
            All-of_Elem (λ p. Elem p (mentioned blocks)) r.parents
              (lookup-mentioned current blocks r found) in
          let left = push_parents-left r.parents stack visited (mentioned blocks) known in
          let rest =
            walk_ancestry-returns fuel blocks pushed.0 pushed.1 (omega (arith, left, enough)) in
          (rest.0, rw (found, walk_ancestry) rest.1)
    ]

-- The children of the blocks that are not visited yet.
pub waiting : List ℕ → List (ℕ × List ℕ) → ℕ
waiting visited [] = 0
waiting visited ((h, cs) ∷ m) = (if contains h visited then 0 else length cs) + waiting visited m

waiting-more :
    (p : ℕ) (visited : List ℕ) (m : List (ℕ × List ℕ)) → waiting (p ∷ visited) m ≤ waiting visited m
unfolding waiting
waiting-more p visited [] = omega arith
waiting-more p visited ((h, cs) ∷ m) = ground (arith, waiting-more p visited m)

pub waiting-less :
    (p : ℕ) (visited : List ℕ) (m : List (ℕ × List ℕ))
    → contains p visited ≡ false
    → waiting (p ∷ visited) m + length (children_of p m) ≤ waiting visited m
unfolding waiting children_of
waiting-less p visited [] new = omega arith
waiting-less p visited ((h, cs) ∷ m) new =
    ground (arith, waiting-less p visited m new, waiting-more p visited m, new)

pub waiting-edges : (m : List (ℕ × List ℕ)) → waiting [] m ≡ edges m
unfolding waiting edges
waiting-edges [] = refl
waiting-edges ((h, cs) ∷ m) = omega (arith, waiting-edges m)
