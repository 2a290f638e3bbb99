-- ===== src/Pow/Ledger/Walks.antt =====
-- quantas/Common/Pow.hpp: the walk over the ancestors in a ledger and in one that keeps its blocks.
use quantas.Common.{
  ℕ, zero, suc, ◌+◌, ◌≡◌, refl, sym, ap, ◌∙◌, inl, inr, Bool, true, false, Option, some, List, [],
  ◌∷◌, length, Option-cases, eq_of_some,
}
use quantas.Common.Maps.{lookup}
use quantas.Pow.{BlockRecord, Pow, push_parents, walk_ancestry, mentioned, has_full_ancestry}
use quantas.Pow.Loops.{has_full_ancestry-returns}

-- Every block is still there, with its parents and its miner.
unfoldable pub Keeps : Pow → Pow → Type 0
Keeps s t =
    (h : ℕ) (r : BlockRecord)
    → lookup h s.blocks ≡ some r
    → (q : BlockRecord) × (lookup h t.blocks ≡ some q)
      × (q.parents ≡ r.parents)
      × (q.miner ≡ r.miner)
      × (q.hash ≡ r.hash)

pub Keeps-refl : (s : Pow) → Keeps s s
unfolding Keeps
Keeps-refl s h r e = (r, e, refl, refl, refl)

pub Keeps-trans : (s t u : Pow) → Keeps s t → Keeps t u → Keeps s u
unfolding Keeps
Keeps-trans s t u f g h r e =
    let (q, found, ps, m, k) = f h r e in
    let (q2, found2, ps2, m2, k2) = g h q found in (q2, found2, ps2 ∙ ps, m2 ∙ m, k2 ∙ k)

-- A walk that finds every ancestor finds them in any ledger that keeps the blocks.
walk-Keeps :
    (fuel : ℕ) (s t : Pow) (stack visited : List ℕ)
    → Keeps s t
    → walk_ancestry fuel s.blocks stack visited ≡ some true
    → walk_ancestry fuel t.blocks stack visited ≡ some true
unfolding walk_ancestry Keeps
walk-Keeps zero s t stack visited keeps e = e
walk-Keeps (suc fuel) s t [] visited keeps e = e
walk-Keeps (suc fuel) s t (current ∷ stack) visited keeps e =
    elim (Option-cases (lookup current s.blocks)) [
      | inl missing ↦
          absurd (let g : some false ≡ some true = rw (missing, walk_ancestry) at e in cc g)
      | inr (r, found) ↦
          let (q, there, same, m, k) = keeps current r found in
          let pushed = push_parents r.parents stack visited in
          rw (there, walk_ancestry, same)
            (walk-Keeps fuel s t pushed.0 pushed.1 keeps (rw (found, walk_ancestry) at e))
    ]

-- However much fuel two walks have, they do not disagree.
pub walk-agree :
    (fuel more : ℕ) (blocks : List (ℕ × BlockRecord)) (stack visited : List ℕ) (a b : Bool)
    → walk_ancestry fuel blocks stack visited ≡ some a
    → walk_ancestry more blocks stack visited ≡ some b
    → a ≡ b
unfolding walk_ancestry
walk-agree zero more blocks stack visited a b e g =
    absurd (let n : Option.none ≡ some a = e in cc n)
walk-agree (suc fuel) zero blocks stack visited a b e g =
    absurd (let n : Option.none ≡ some b = g in cc n)
walk-agree (suc fuel) (suc more) blocks [] visited a b e g =
    let x : some true ≡ some a = e in let y : some true ≡ some b = g in eq_of_some a b (sym x ∙ y)
walk-agree (suc fuel) (suc more) blocks (current ∷ stack) visited a b e g =
    elim (Option-cases (lookup current blocks)) [
      | inl missing ↦
          let x : some false ≡ some a = rw (missing, walk_ancestry) at e in
          let y : some false ≡ some b = rw (missing, walk_ancestry) at g in
          eq_of_some a b (sym x ∙ y)
      | inr (r, found) ↦
          let pushed = push_parents r.parents stack visited in
          walk-agree fuel more blocks pushed.0 pushed.1 a b (rw (found, walk_ancestry) at e)
            (rw (found, walk_ancestry) at g)
    ]

pub has_full_ancestry-Keeps :
    (h : ℕ) (s t : Pow) → Keeps s t → has_full_ancestry h s ≡ true → has_full_ancestry h t ≡ true
has_full_ancestry-Keeps h s t keeps full =
    let (a, walked, is_a) = has_full_ancestry-returns h s in
    let (b, walked_t, is_b) = has_full_ancestry-returns h t in
    let complete : walk_ancestry (length (mentioned s.blocks) + 2) s.blocks (h ∷ []) []
        ≡ some true =
      walked ∙ ap (λ x. some x) (sym is_a ∙ full) in
    let there = walk-Keeps (length (mentioned s.blocks) + 2) s t (h ∷ []) [] keeps complete in
    is_b ∙ walk-agree _ _ t.blocks (h ∷ []) [] b true walked_t there
