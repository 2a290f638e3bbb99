-- ===== src/Pow/Tests.antt =====
-- quantas/Common/Pow.hpp with an orphan that comes to its parent, and the theorems there.
use quantas.Common.{
  inl, ◌+◌, ◌*◌, ◌≤◌, ◌≡◌, refl, Bool, true, false, none, some, [], ◌∷◌, arith, ltb,
}
use quantas.Common.Int.{pos, negsuc}
use quantas.Common.Predicates.{All}
use quantas.Pow.{
  BlockRecord, Pow, genesis_block, walk_ancestry, mentioned, push_parents, has_full_ancestry, edges,
  register_block, insert_block, touch, add_child_to, add_child, children_of, propagate_updates,
  spread, maybe_promote_best, recompute_height, new_height, tallest, ensure_best_valid,
  prefer_longest,
}
use quantas.Pow.Loops.{register_block-returns}
use quantas.Pow.Ledger.{register_block-Keeps}
use quantas.Pow.Ledger.Walks.{Keeps}
use quantas.Pow.Miner.{Names, Message, Miner, transaction, block, run_protocol_step, init_rates}
use quantas.Pow.Steps.{IsNamed, Sound, run_protocol_step-returns, init_rates-bounds}

abbrev longest : Pow → BlockRecord → BlockRecord → Bool
unfolding prefer_longest
longest = prefer_longest ltb

-- Block 1 on the genesis block, and block 3, whose parent 2 is missing.
abbrev one_orphan : Pow
one_orphan = record {
  members = 0 ∷ 1 ∷ [];
  blocks =
      (0, genesis_block)
      ∷ (1, record { hash = 1; parents = 0 ∷ []; miner = some 0; height = 1; parasite = false })
      ∷ (3, record { hash = 3; parents = 2 ∷ []; miner = some 1; height = 0; parasite = false })
      ∷ [];
  best_hash = 1;
  children = (0, 1 ∷ []) ∷ (1, []) ∷ (3, []) ∷ (2, 3 ∷ []) ∷ [];
}

-- The ledger with block 2, which the orphan has waited for: the orphan is the best block.
abbrev no_orphan : Pow
no_orphan = record {
  members = 0 ∷ 1 ∷ [];
  blocks =
      (0, genesis_block)
      ∷ (1, record { hash = 1; parents = 0 ∷ []; miner = some 0; height = 1; parasite = false })
      ∷ (3, record { hash = 3; parents = 2 ∷ []; miner = some 1; height = 3; parasite = false })
      ∷ (2, record { hash = 2; parents = 1 ∷ []; miner = some 0; height = 2; parasite = false })
      ∷ [];
  best_hash = 3;
  children = (0, 1 ∷ []) ∷ (1, 2 ∷ []) ∷ (3, []) ∷ (2, 3 ∷ []) ∷ [];
}

one_orphan-full : has_full_ancestry one_orphan.best_hash one_orphan ≡ true
unfolding has_full_ancestry walk_ancestry mentioned push_parents
one_orphan-full = refl

orphan_found : register_block longest 9 2 (1 ∷ []) (some 0) false one_orphan ≡ some no_orphan
unfolding register_block insert_block touch add_child_to add_child children_of propagate_updates
    spread maybe_promote_best recompute_height new_height tallest has_full_ancestry walk_ancestry
    mentioned push_parents ensure_best_valid longest prefer_longest
orphan_found = refl

register_block-returns_example :
    (t : Pow) × (register_block longest 9 2 (1 ∷ []) (some 0) false one_orphan ≡ some t)
unfolding edges
register_block-returns_example =
    register_block-returns longest 9 2 (1 ∷ []) (some 0) false one_orphan (omega arith)

register_block-Keeps_example :
    Keeps one_orphan no_orphan × (has_full_ancestry no_orphan.best_hash no_orphan ≡ true)
register_block-Keeps_example =
    register_block-Keeps longest 9 2 (1 ∷ []) (some 0) false one_orphan no_orphan one_orphan-full
      orphan_found

abbrev names : Names
names = record {
  of_block = λ id tx round. 1000 + 100 * id + 10 * tx + round;
  of_parent = λ miner parent. 500 + parent;
  without_parents = none;
}

abbrev miner_0 : Miner
miner_0 = record {
  public_id = 0;
  pow = one_orphan;
  queue = [];
  known_transactions = [];
  submit_rate = 4;
  mine_rate = 2;
  mine_denominator = 5;
  local_submitted = 0;
  mined_blocks = 0;
  outbox = [];
}

abbrev block_2 : Message
block_2 = block (record {
  hash = some 2;
  parents = 1 ∷ [];
  miner = some 1;
  parasite = false;
  transaction = some (some 1, some 1);
})

run_protocol_step-returns_example :
    (t : Miner) × (run_protocol_step longest names 7 0 1 []
        (block_2 ∷ transaction (some 2) (pos 6) none (some 1) ∷ [])
        miner_0
      ≡ some t)
    × Sound miner_0.pow t.pow
unfolding IsNamed
run_protocol_step-returns_example =
    run_protocol_step-returns longest names 7 0 1 []
      (block_2 ∷ transaction (some 2) (pos 6) none (some 1) ∷ []) miner_0
      (inl (λ none_there. cc none_there), (tt, tt)) one_orphan-full

init_rates-bounds_example :
    All
      (λ s. (s.mine_rate ≤ s.mine_denominator) × (1 ≤ s.mine_denominator))
      (init_rates (negsuc 2) ((miner_0, pos 5) ∷ (miner_0, negsuc 0) ∷ []))
init_rates-bounds_example =
    init_rates-bounds (negsuc 2) ((miner_0, pos 5) ∷ (miner_0, negsuc 0) ∷ [])
