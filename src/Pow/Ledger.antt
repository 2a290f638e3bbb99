-- ===== src/Pow/Ledger.antt =====
-- quantas/Common/Pow.hpp: what registering a block leaves of the ledger and of its best block.
pub mod Walks
use quantas.Common.{
  ℕ, zero, suc, ◌+◌, ◌≡◌, refl, sym, ap, subst, ◌∙◌, ◌⊎◌, inl, inr, Bool, true, false, ◌||◌, Option,
  none, some, List, [], ◌∷◌, ◌++◌, arith, length, ◌==◌, Bool-cases, Option-cases, eq_of_some,
}
use quantas.Common.Sets.{contains}
use quantas.Common.Maps.{lookup, assign, lookup-assign}
use quantas.Pow.{
  BlockRecord, Pow, push_parents, walk_ancestry, mentioned, has_full_ancestry, spread, children_of,
  new_height, maybe_promote_best, recompute_height, ensure_best_valid, propagate_updates,
  register_block, insert_block,
}
use quantas.Pow.Loops.{has_full_ancestry-returns}
use quantas.Pow.Ledger.Walks.{Keeps, Keeps-refl, Keeps-trans, walk-agree, has_full_ancestry-Keeps}

-- A block that is written over is one with the same parents and the same miner.
assign-Keeps :
    (h : ℕ) (u : BlockRecord) (s t : Pow)
    → t.blocks ≡ assign h u s.blocks
    → ((q : BlockRecord)
        → lookup h s.blocks ≡ some q
        → (u.parents ≡ q.parents) × (u.miner ≡ q.miner) × (u.hash ≡ q.hash))
    → Keeps s t
unfolding Keeps
assign-Keeps h u s t is same k r e =
    let at_k = lookup-assign h k u s.blocks in
    elim (Bool-cases (k == h)) [
      | inl hit ↦
          let key : h ≡ k = ground (arith, hit) in
          let now : lookup k t.blocks ≡ some u = ap (λ m. lookup k m) is ∙ rw hit at at_k in
          let (ps, m, x) = same r (rw (sym key) at e) in (u, now, ps, m, x)
      | inr miss ↦
          let now : lookup k t.blocks ≡ some r = ap (λ m. lookup k m) is ∙ (rw miss at at_k) ∙ e in
          (r, now, refl, refl, refl)
    ]

recompute_height-best : (h : ℕ) (s : Pow) → (recompute_height h s).best_hash ≡ s.best_hash
unfolding recompute_height
recompute_height-best h s = ground arith

recompute_height-Keeps : (h : ℕ) (s : Pow) → Keeps s (recompute_height h s)
unfolding recompute_height
recompute_height-Keeps h s = elim (Option-cases (lookup h s.blocks)) [
  | inl missing ↦ rw (missing, recompute_height) (Keeps-refl s)
  | inr (q, found) ↦
      let updated : BlockRecord = record q { height = new_height s.blocks q.parents } in
      rw (found, recompute_height)
        (assign-Keeps h updated s (record s { blocks = assign h updated s.blocks }) refl
          (λ r e. let is = eq_of_some q r (sym found ∙ e) in rw is (refl, refl, refl)))
]

insert_block-Keeps :
    (h : ℕ) (parents : List ℕ) (miner : Option ℕ) (parasite : Bool) (s : Pow)
    → lookup h s.blocks ≡ none
    → Keeps s (insert_block h parents miner parasite s)
unfolding insert_block
insert_block-Keeps h parents miner parasite s new =
    assign-Keeps h _ s _ refl (λ q e. absurd (let g : Option.none ≡ some q = sym new ∙ e in cc g))

blocks-Keeps : (s t : Pow) → t.blocks ≡ s.blocks → Keeps s t
unfolding Keeps
blocks-Keeps s t same h r e = (r, ap (λ m. lookup h m) same ∙ e, refl, refl, refl)

-- A block whose ancestors are all there is there.
full-found : (h : ℕ) (s : Pow) → lookup h s.blocks ≡ none → has_full_ancestry h s ≡ false
unfolding walk_ancestry
full-found h s missing =
    let (b, walked, is_b) = has_full_ancestry-returns h s in
    let short : walk_ancestry 1 s.blocks (h ∷ []) [] ≡ some false =
      rw (missing, walk_ancestry) refl in
    is_b ∙ sym (walk-agree 1 _ s.blocks (h ∷ []) [] false b short walked)

insert_block-best :
    (h : ℕ) (parents : List ℕ) (miner : Option ℕ) (parasite : Bool) (s : Pow)
    → (insert_block h parents miner parasite s).best_hash ≡ s.best_hash
unfolding insert_block
insert_block-best h parents miner parasite s = refl

module _ (prefer : Pow → BlockRecord → BlockRecord → Bool) where
  promoted :
      (h : ℕ) (s : Pow)
      → ((maybe_promote_best prefer h s).blocks ≡ s.blocks)
        × (((maybe_promote_best prefer h s).best_hash ≡ s.best_hash)
            ⊎ (((maybe_promote_best prefer h s).best_hash ≡ h) × (has_full_ancestry h s ≡ true)))
  unfolding maybe_promote_best
  promoted h s = elim (Option-cases (lookup h s.blocks)) [
    | inl missing ↦ rw (missing, maybe_promote_best) (refl, inl refl)
    | inr (r, found) ↦ elim (Bool-cases (has_full_ancestry h s)) [
      | inr part ↦ rw (found, part, maybe_promote_best) (refl, inl refl)
      | inl full ↦ (ground (arith, found, full), ground (arith, found, full))
    ]
  ]

  -- The best block changes to one with full ancestry, if it does, and no block does.
  maybe_promote_best-full :
      (h : ℕ) (s : Pow)
      → has_full_ancestry s.best_hash s ≡ true
      → Keeps s (maybe_promote_best prefer h s)
        × (has_full_ancestry
              (maybe_promote_best prefer h s).best_hash
              (maybe_promote_best prefer h s)
            ≡ true)
  maybe_promote_best-full h s full =
      let t = maybe_promote_best prefer h s in
      let (same, best) = promoted h s in
      let keeps = blocks-Keeps s t same in
      (
        keeps,
        elim best [
          | inl e ↦
              ap (λ k. has_full_ancestry k t) e ∙ has_full_ancestry-Keeps s.best_hash s t keeps full
          | inr (e, full_h) ↦
              ap (λ k. has_full_ancestry k t) e ∙ has_full_ancestry-Keeps h s t keeps full_h
        ],
      )

  ensure_best_valid-same :
      (s : Pow) → has_full_ancestry s.best_hash s ≡ true → ensure_best_valid prefer s ≡ s
  unfolding ensure_best_valid
  ensure_best_valid-same s full = elim (Option-cases (lookup s.best_hash s.blocks)) [
    | inl missing ↦
        absurd (let g : false ≡ true = sym (full-found s.best_hash s missing) ∙ full in cc g)
    | inr (r, found) ↦ rw (found, full, ensure_best_valid) refl
  ]

  spread-full :
      (fuel : ℕ) (queue visited : List ℕ) (s t : Pow)
      → has_full_ancestry s.best_hash s ≡ true
      → spread prefer fuel queue visited s ≡ some t
      → Keeps s t × (has_full_ancestry t.best_hash t ≡ true)
  unfolding spread
  spread-full zero queue visited s t full e = absurd (let g : Option.none ≡ some t = e in cc g)
  spread-full (suc fuel) [] visited s t full e =
      let same : some s ≡ some t = e in
      let is = eq_of_some s t same in
      subst (λ x. Keeps s x × (has_full_ancestry x.best_hash x ≡ true)) is (Keeps-refl s, full)
  spread-full (suc fuel) (current ∷ queue) visited s t full e =
      elim (Bool-cases (contains current visited)) [
        | inl old ↦ spread-full fuel queue visited s t full (rw (old, spread) at e)
        | inr new ↦
            let high = recompute_height current s in
            let next = maybe_promote_best prefer current high in
            let lifted = recompute_height-Keeps current s in
            let best : has_full_ancestry high.best_hash high ≡ true =
              ap (λ k. has_full_ancestry k high) (recompute_height-best current s)
              ∙ has_full_ancestry-Keeps s.best_hash s high lifted full in
            let (kept, now) = maybe_promote_best-full current high best in
            let rest =
              spread-full fuel (queue ++ children_of current next.children) (current ∷ visited) next
                t now (rw (new, spread) at e) in
            (Keeps-trans s next t (Keeps-trans s high next lifted kept) rest.0, rest.1)
      ]

  propagate_updates-Keeps :
      (fuel h : ℕ) (s t : Pow)
      → has_full_ancestry s.best_hash s ≡ true
      → propagate_updates prefer fuel h s ≡ some t
      → Keeps s t × (has_full_ancestry t.best_hash t ≡ true)
  unfolding propagate_updates
  propagate_updates-Keeps fuel h s t full e =
      elim (Option-cases (spread prefer fuel (h ∷ []) [] s)) [
        | inl out ↦ absurd (let g : Option.none ≡ some t = rw (out, propagate_updates) at e in cc g)
        | inr (u, ended) ↦
            let r = spread-full fuel (h ∷ []) [] s u full ended in
            let is : some (ensure_best_valid prefer u) ≡ some t =
              rw (ended, propagate_updates) at e in
            let same =
              sym (ensure_best_valid-same u r.1) ∙ eq_of_some (ensure_best_valid prefer u) t is in
            subst (λ x. Keeps s x × (has_full_ancestry x.best_hash x ≡ true)) same r
      ]

  -- Registering a block, new or not, keeps every block of the ledger with its parents and its miner, and
  -- leaves the best block one whose ancestors are all there, if it was one.
  pub register_block-Keeps :
      (fuel h : ℕ) (parents : List ℕ) (miner : Option ℕ) (parasite : Bool) (s t : Pow)
      → has_full_ancestry s.best_hash s ≡ true
      → register_block prefer fuel h parents miner parasite s ≡ some t
      → Keeps s t × (has_full_ancestry t.best_hash t ≡ true)
  unfolding register_block
  register_block-Keeps fuel h parents miner parasite s t full e =
      let Kept = λ (u : Pow). Keeps s u × (has_full_ancestry u.best_hash u ≡ true) in
      elim (Option-cases (lookup h s.blocks)) [
        | inr (r, found) ↦
            let u : Pow = record s {
              blocks = assign h (record r { parasite = r.parasite || parasite }) s.blocks;
            } in
            let is : some u ≡ some t = rw (found, register_block) at e in
            let keeps =
              assign-Keeps h (record r { parasite = r.parasite || parasite }) s u refl
                (λ q g. let same = eq_of_some r q (sym found ∙ g) in rw same (refl, refl, refl)) in
            subst Kept (eq_of_some u t is)
              (keeps, has_full_ancestry-Keeps s.best_hash s u keeps full)
        | inl new ↦
            let u = insert_block h parents miner parasite s in
            let keeps = insert_block-Keeps h parents miner parasite s new in
            let ready : has_full_ancestry u.best_hash u ≡ true =
              ap (λ k. has_full_ancestry k u) (insert_block-best h parents miner parasite s)
              ∙ has_full_ancestry-Keeps s.best_hash s u keeps full in
            let last = propagate_updates-Keeps fuel h u t ready (rw (new, register_block) at e) in
            (Keeps-trans s u t keeps last.0, last.1)
      ]
