-- ===== src/Pow/Loops.antt =====
-- quantas/Common/Pow.hpp: the loops over a stack or a queue come to an end.
mod Counts
use quantas.Common.{
  ℕ, zero, suc, ◌+◌, ◌≤◌, ◌<◌, ◌≡◌, refl, inl, inr, Bool, true, false, ◌||◌, Option, some, List, [],
  ◌∷◌, ◌++◌, arith, length, length-append, ◌==◌, if◌then◌else◌, Bool-cases, Option-cases,
  eq_of_some,
}
use quantas.Common.Sets.{contains}
use quantas.Common.Maps.{lookup, assign}
use quantas.Common.Predicates.{All, Elem, Elem-append_left, Elem-append_right, All-of_Elem}
use quantas.Pow.{
  BlockRecord, Pow, children_of, push_parents, walk_ancestry, mentioned, has_full_ancestry, edges,
  spread, push_all, count_reached, subtree_size, reaches, parent_lists, maybe_promote_best,
  recompute_height, propagate_updates, register_block, insert_block, add_child, add_child_to, touch,
  ensure_best_valid,
}
use quantas.Pow.Loops.Counts.{
  unvisited-length, walk_ancestry-returns, waiting, waiting-less, waiting-edges,
}

module _ (prefer : Pow → BlockRecord → BlockRecord → Bool) where
  update-children :
      (h : ℕ) (s : Pow) → (maybe_promote_best prefer h (recompute_height h s)).children ≡ s.children
  unfolding maybe_promote_best recompute_height
  update-children h s = ground arith

  -- The updates end, with a unit of fuel for each block in the queue and each child of a block that they
  -- have not come to.
  spread-returns :
      (fuel : ℕ) (queue visited : List ℕ) (s : Pow)
      → length queue + waiting visited s.children < fuel
      → (t : Pow) × (spread prefer fuel queue visited s ≡ some t)
  unfolding spread
  spread-returns zero queue visited s enough = elim enough [ ]
  spread-returns (suc fuel) [] visited s enough = (s, refl)
  spread-returns (suc fuel) (current ∷ queue) visited s enough =
      elim (Bool-cases (contains current visited)) [
        | inl old ↦
            let rest = spread-returns fuel queue visited s (omega (arith, enough)) in
            (rest.0, rw (old, spread) rest.1)
        | inr new ↦
            let next = maybe_promote_best prefer current (recompute_height current s) in
            let same = update-children current s in
            let cs = children_of current next.children in
            let room : length (queue ++ cs) + waiting (current ∷ visited) next.children < fuel =
              rw same (
                omega (
                  arith,
                  enough,
                  length-append queue (children_of current s.children),
                  waiting-less current visited s.children new,
                )) in
            let rest = spread-returns fuel (queue ++ cs) (current ∷ visited) next room in
            (rest.0, rw (new, spread) rest.1)
      ]

-- hasFullAncestry comes to an end: one unit of fuel more than the block and the parents that the blocks
-- name is enough.
pub has_full_ancestry-returns :
    (h : ℕ) (s : Pow)
    → (b : Bool) × (walk_ancestry (length (mentioned s.blocks) + 2) s.blocks (h ∷ []) [] ≡ some b)
      × (has_full_ancestry h s ≡ b)
unfolding has_full_ancestry
has_full_ancestry-returns h s =
    let few = unvisited-length [] (mentioned s.blocks) in
    let r =
      walk_ancestry-returns (length (mentioned s.blocks) + 2) s.blocks (h ∷ []) []
        (omega (arith, few)) in
    (r.0, r.1, rw r.1 refl)

edges-assign :
    (h : ℕ) (cs : List ℕ) (m : List (ℕ × List ℕ))
    → edges (assign h cs m) + length (children_of h m) ≡ edges m + length cs
unfolding edges children_of
edges-assign h cs [] = omega arith
edges-assign h cs ((k, ds) ∷ m) = ground (arith, edges-assign h cs m)

edges-add_child : (h p : ℕ) (m : List (ℕ × List ℕ)) → edges (add_child h p m) ≤ edges m + 1
unfolding add_child
edges-add_child h p m =
    let cs = children_of p m in
    elim (Bool-cases (contains h cs)) [
      | inl old ↦ rw old (omega (arith, edges-assign p cs m))
      | inr new ↦ rw new (omega (arith, edges-assign p (cs ++ h ∷ []) m, length-append cs (h ∷ [])))
    ]

edges-add_child_to :
    (h : ℕ) (ps : List ℕ) (m : List (ℕ × List ℕ))
    → edges (add_child_to h ps m) ≤ edges m + length ps
unfolding add_child_to
edges-add_child_to h [] m = omega arith
edges-add_child_to h (p ∷ ps) m =
    omega (arith, edges-add_child h p m, edges-add_child_to h ps (add_child h p m))

-- registerBlock comes to an end: as much fuel as the ledger has edges and the block parents, and two
-- more, is enough.
pub register_block-returns :
    (prefer : Pow → BlockRecord → BlockRecord → Bool) (fuel h : ℕ) (parents : List ℕ)
    (miner : Option ℕ) (parasite : Bool) (s : Pow)
    → edges s.children + length parents + 1 < fuel
    → (t : Pow) × (register_block prefer fuel h parents miner parasite s ≡ some t)
unfolding register_block propagate_updates insert_block touch
register_block-returns prefer fuel h parents miner parasite s enough =
    elim (Option-cases (lookup h s.blocks)) [
      | inr (r, found) ↦
          let flagged : BlockRecord = record r { parasite = r.parasite || parasite } in
          (record s { blocks = assign h flagged s.blocks }, rw (found, register_block) refl)
      | inl new ↦
          let t = insert_block h parents miner parasite s in
          let touched = edges-assign h (children_of h s.children) s.children in
          let more = edges-add_child_to h parents (touch h s.children) in
          let all_waiting = waiting-edges t.children in
          let r =
            spread-returns prefer fuel (h ∷ []) [] t
              (omega (arith, enough, touched, more, all_waiting)) in
          (
            ensure_best_valid prefer r.0,
            rw (new, register_block) (rw (r.1, propagate_updates) refl),
          )
    ]

length-push_all : (cs stack : List ℕ) → length (push_all cs stack) ≡ length cs + length stack
unfolding push_all
length-push_all [] stack = omega arith
length-push_all (c ∷ cs) stack = omega (arith, length-push_all cs (c ∷ stack))

count_reached-returns :
    (fuel : ℕ) (m : List (ℕ × List ℕ)) (stack visited : List ℕ)
    → length stack + waiting visited m < fuel
    → (n : ℕ) × (count_reached fuel m stack visited ≡ some n)
unfolding count_reached
count_reached-returns zero m stack visited enough = elim enough [ ]
count_reached-returns (suc fuel) m [] visited enough = (0, refl)
count_reached-returns (suc fuel) m (current ∷ stack) visited enough =
    elim (Bool-cases (contains current visited)) [
      | inl old ↦
          let r = count_reached-returns fuel m stack visited (omega (arith, enough)) in
          (r.0, rw (old, count_reached) r.1)
      | inr new ↦
          let cs = children_of current m in
          let r =
            count_reached-returns fuel m (push_all cs stack) (current ∷ visited) (
              omega
                (arith, enough, length-push_all cs stack, waiting-less current visited m new)) in
          (r.0 + 1, rw (new, count_reached) (rw r.1 refl))
    ]

reaches-returns :
    (fuel target : ℕ) (m : List (ℕ × List ℕ)) (stack visited : List ℕ)
    → length stack + waiting visited m < fuel
    → (b : Bool) × (reaches fuel target m stack visited ≡ some b)
unfolding reaches
reaches-returns zero target m stack visited enough = elim enough [ ]
reaches-returns (suc fuel) target m [] visited enough = (false, refl)
reaches-returns (suc fuel) target m (current ∷ stack) visited enough =
    elim (Bool-cases (contains current visited)) [
      | inl old ↦
          let r = reaches-returns fuel target m stack visited (omega (arith, enough)) in
          (r.0, rw (old, reaches) r.1)
      | inr new ↦
          let cs = children_of current m in
          elim (Bool-cases (contains target cs)) [
            | inl hit ↦ (true, rw (new, reaches) (rw hit refl))
            | inr miss ↦
                let r = reaches-returns fuel target m (push_all cs stack) (current ∷ visited) (
                  omega (
                    arith,
                    enough,
                    length-push_all cs stack,
                    waiting-less current visited m new,
                  )) in
                (r.0, rw (new, reaches) (rw miss r.1))
          ]
    ]

-- subtreeSize and the walk of isAncestor come to an end: two units of fuel more than the edges that they
-- walk along are enough.
pub subtree_size-returns :
    (h target : ℕ) (s : Pow)
    → ((n : ℕ) × (count_reached (edges s.children + 2) s.children (h ∷ []) [] ≡ some n)
        × (subtree_size h s ≡ n))
      × ((b : Bool) × (reaches
              (edges (parent_lists s.blocks) + 2)
              target
              (parent_lists s.blocks)
              (h ∷ [])
              []
            ≡ some b))
unfolding subtree_size
subtree_size-returns h target s =
    let all_waiting = waiting-edges s.children in
    let all_parents = waiting-edges (parent_lists s.blocks) in
    let r =
      count_reached-returns (edges s.children + 2) s.children (h ∷ []) []
        (omega (arith, all_waiting)) in
    let q =
      reaches-returns (edges (parent_lists s.blocks) + 2) target (parent_lists s.blocks) (h ∷ []) []
        (omega (arith, all_parents)) in
    ((r.0, r.1, rw r.1 refl), (q.0, q.1))
