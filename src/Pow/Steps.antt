-- ===== src/Pow/Steps.antt =====
-- The round of a miner, quantas/BitcoinPeer/BitcoinPeer.cpp and quantas/EthereumPeer/EthereumPeer.cpp,
-- over the ledger of quantas/Common/Pow.hpp.
use quantas.Common.{
  ℕ, ◌+◌, ◌≤◌, ◌≡◌, refl, ◌≢◌, ◌⊎◌, sym, subst, List-cases, inl, inr, Bool, true, Option, none,
  some, List, [], ◌∷◌, arith, length, Bool-cases, Option-cases,
}
use quantas.Common.Int.{ℤ}
use quantas.Common.Predicates.{All}
use quantas.Pow.{BlockRecord, Pow, has_full_ancestry, edges}
use quantas.Pow.Loops.{register_block-returns}
use quantas.Pow.Ledger.{register_block-Keeps}
use quantas.Pow.Ledger.Walks.{Keeps, Keeps-refl, Keeps-trans}
use quantas.Pow.Miner.{
  Names, PendingTx, Block, Message, Miner, transaction, block, receive_transaction,
  settle_transaction, settle_block, or_else, hash_of, register, receive_block, read_message,
  check_in_strm, guard_mine, make_transaction, announce, choose_parents, is_given, parents_in,
  submit, mine, mine_first, try_mine, run_protocol_step, odds, set_rates, init_rates,
}

-- A block that has a hash, or a parent to name it by, or is read by a peer that names it otherwise.
unfoldable pub IsNamed : Names → Message → Type 0
IsNamed names (transaction id round submitter from_id) = Unit
IsNamed names (block b) = (b.hash ≢ none) ⊎ ((b.parents ≢ []) ⊎ (names.without_parents ≢ none))

hash_of-IsNamed :
    (names : Names) (b : Block) → IsNamed names (block b) → (h : ℕ) × (hash_of names b ≡ some h)
unfolding IsNamed hash_of
hash_of-IsNamed names b named = elim (Option-cases b.hash) [
  | inr (h, has) ↦ (h, rw (has, hash_of) refl)
  | inl bare ↦ elim (List-cases b.parents) [
    | inr (p, ps, has) ↦ (names.of_parent b.miner p, rw (bare, has, hash_of) refl)
    | inl alone ↦ elim (Option-cases names.without_parents) [
      | inr (p, has) ↦ (names.of_parent b.miner p, rw (bare, alone, has, hash_of) refl)
      | inl unnamed ↦ elim named [
        | inl hashed ↦ absurd (hashed bare)
        | inr (inl child) ↦ absurd (child alone)
        | inr (inr named_so) ↦ absurd (named_so unnamed)
      ]
    ]
  ]
]

-- A ledger that keeps the blocks and has a best block with full ancestry.
pub Sound : Pow → Pow → Type 0
Sound p q = Keeps p q × (has_full_ancestry q.best_hash q ≡ true)

Sound-refl : (p : Pow) → has_full_ancestry p.best_hash p ≡ true → Sound p p
unfolding Sound
Sound-refl p full = (Keeps-refl p, full)

Sound-full : (p q : Pow) → Sound p q → has_full_ancestry q.best_hash q ≡ true
unfolding Sound
Sound-full p q sound = sound.1

receive_transaction-pow : (tx : PendingTx) (s : Miner) → (receive_transaction tx s).pow ≡ s.pow
unfolding receive_transaction
receive_transaction-pow tx s = ground arith

submit-pow : (round draw : ℕ) (s : Miner) → (submit round draw s).pow ≡ s.pow
unfolding submit make_transaction
submit-pow round draw s = ground arith

Sound-trans : (p q r : Pow) → Sound p q → Sound q r → Sound p r
unfolding Sound
Sound-trans p q r f g = (Keeps-trans p q r f.0 g.0, g.1)

module _ (prefer : Pow → BlockRecord → BlockRecord → Bool) (names : Names) where
  register-Sound :
      (h : ℕ) (parents : List ℕ) (miner : Option ℕ) (parasite : Bool) (p : Pow)
      → has_full_ancestry p.best_hash p ≡ true
      → (q : Pow) × (register prefer names h parents miner parasite p ≡ some q) × Sound p q
  unfolding register Sound
  register-Sound h parents miner parasite p full =
      let fuel = edges p.children + length parents + 2 in
      let r = register_block-returns prefer fuel h parents miner parasite p (omega arith) in
      (r.0, r.1, register_block-Keeps prefer fuel h parents miner parasite p r.0 full r.1)

  settle_block-pow : (b : Block) (s : Miner) → (settle_block b s).pow ≡ s.pow
  unfolding settle_block settle_transaction or_else
  settle_block-pow b s = ground arith

  -- A block or a transaction that is read leaves the ledger sound.
  receive_block-Sound :
      (b : Block) (s : Miner)
      → IsNamed names (block b)
      → has_full_ancestry s.pow.best_hash s.pow ≡ true
      → (t : Miner) × (receive_block prefer names b s ≡ some t) × Sound s.pow t.pow
  unfolding receive_block
  receive_block-Sound b s named full =
      let (h, found) = hash_of-IsNamed names b named in
      let (q, registered, sound) = register-Sound h b.parents b.miner b.parasite s.pow full in
      let t = settle_block b (record s { pow = q }) in
      (
        t,
        rw (found, receive_block) (rw registered refl),
        subst (λ p. Sound s.pow p) (sym (settle_block-pow b (record s { pow = q }))) sound,
      )

  read_message-Sound :
      (m : Message) (s : Miner)
      → IsNamed names m
      → has_full_ancestry s.pow.best_hash s.pow ≡ true
      → (t : Miner) × (read_message prefer names m s ≡ some t) × Sound s.pow t.pow
  unfolding read_message
  read_message-Sound (block b) s named full = receive_block-Sound b s named full
  read_message-Sound (transaction none round submitter from_id) s named full =
      (s, refl, Sound-refl s.pow full)
  read_message-Sound (transaction (some id) round submitter from_id) s named full =
      elim (Option-cases (or_else submitter from_id)) [
        | inl missing ↦ (s, rw (missing, read_message) refl, Sound-refl s.pow full)
        | inr (by, found) ↦
            let tx : PendingTx = record { id = id; round_submitted = round; submitter = by } in
            (
              receive_transaction tx s,
              rw (found, read_message) refl,
              subst (λ p. Sound s.pow p) (sym (receive_transaction-pow tx s))
                  (Sound-refl s.pow full),
            )
      ]

  check_in_strm-Sound :
      (ms : List Message) (s : Miner)
      → All (IsNamed names) ms
      → has_full_ancestry s.pow.best_hash s.pow ≡ true
      → (t : Miner) × (check_in_strm prefer names ms s ≡ some t) × Sound s.pow t.pow
  unfolding check_in_strm
  check_in_strm-Sound [] s named full = (s, refl, Sound-refl s.pow full)
  check_in_strm-Sound (m ∷ ms) s named full =
      let (t, read, sound) = read_message-Sound m s named.0 full in
      let (u, rest, more) = check_in_strm-Sound ms t named.1 (Sound-full s.pow t.pow sound) in
      (u, rw (read, check_in_strm) rest, Sound-trans s.pow t.pow u.pow sound more)

  mine-Sound :
      (round : ℕ) (override_parents : List ℕ) (tx : PendingTx) (txs : List PendingTx) (s : Miner)
      → has_full_ancestry s.pow.best_hash s.pow ≡ true
      → (t : Miner) × (mine prefer names round override_parents tx txs s ≡ some t)
        × Sound s.pow t.pow
  unfolding mine announce
  mine-Sound round override_parents tx txs s full =
      let h = names.of_block s.public_id tx.id round in
      let parents = choose_parents override_parents s.pow in
      let flag = is_given override_parents in
      let (q, registered, sound) = register-Sound h parents (some s.public_id) flag s.pow full in
      let left : Miner = record s { mined_blocks = s.mined_blocks + 1; queue = txs; pow = q } in
      (announce h (parents_in h q) tx left, rw (registered, mine) refl, sound)

  mine_first-Sound :
      (round : ℕ) (override_parents : List ℕ) (txs : List PendingTx) (s : Miner)
      → has_full_ancestry s.pow.best_hash s.pow ≡ true
      → (t : Miner) × (mine_first prefer names round override_parents txs s ≡ some t)
        × Sound s.pow t.pow
  unfolding mine_first
  mine_first-Sound round override_parents [] s full = (s, refl, Sound-refl s.pow full)
  mine_first-Sound round override_parents (tx ∷ txs) s full =
      mine-Sound round override_parents tx txs s full

  try_mine-Sound :
      (round draw : ℕ) (override_parents : List ℕ) (s : Miner)
      → has_full_ancestry s.pow.best_hash s.pow ≡ true
      → (t : Miner) × (try_mine prefer names round draw override_parents s ≡ some t)
        × Sound s.pow t.pow
  unfolding try_mine
  try_mine-Sound round draw override_parents s full = elim (Bool-cases (guard_mine draw s)) [
    | inr unlucky ↦ (s, rw (unlucky, try_mine) refl, Sound-refl s.pow full)
    | inl lucky ↦
        let (t, mined, sound) = mine_first-Sound round override_parents s.queue s full in
        (t, rw (lucky, try_mine) mined, sound)
  ]

  -- Over a ledger whose best block has all its ancestors, the step of a miner that reads no block
  -- without a name ends, neither running out of fuel nor reading the front of an empty vector, whatever
  -- else it reads and draws; it keeps every block with its parents and its miner, and leaves a best
  -- block that has all its ancestors. A block without a name has no hash and no parents, and is read by
  -- a peer that does not take GENESIS for its parent.
  pub run_protocol_step-returns :
      (round submit_draw mine_draw : ℕ) (override_parents : List ℕ) (ms : List Message) (s : Miner)
      → All (IsNamed names) ms
      → has_full_ancestry s.pow.best_hash s.pow ≡ true
      → (t : Miner) × (run_protocol_step prefer names round submit_draw mine_draw override_parents
            ms s
          ≡ some t)
        × Sound s.pow t.pow
  unfolding run_protocol_step
  run_protocol_step-returns round submit_draw mine_draw override_parents ms s named full =
      let (t, read, sound) = check_in_strm-Sound ms s named full in
      let ready = submit round submit_draw t in
      let same = submit-pow round submit_draw t in
      let kept = subst (λ p. Sound s.pow p) (sym same) sound in
      let (u, mined, more) =
        try_mine-Sound round mine_draw override_parents ready (Sound-full s.pow ready.pow kept) in
      (u, rw (read, run_protocol_step) mined, Sound-trans s.pow ready.pow u.pow kept more)

set_rates-bounds :
    (total scaler : ℕ) (ss : List (Miner × ℤ))
    → All
        (λ s. (s.mine_rate ≤ s.mine_denominator) × (1 ≤ s.mine_denominator))
        (set_rates total scaler ss)
unfolding set_rates odds
set_rates-bounds total scaler [] = tt
set_rates-bounds total scaler ((s, rate) ∷ ss) =
    ((ground arith, ground arith), set_rates-bounds total scaler ss)

-- initParameters gives each peer a chance between 0 and 1: a denominator of at least 1 and a rate not
-- above it, whatever the rates and the scaler are.
pub init_rates-bounds :
    (scaler : ℤ) (ss : List (Miner × ℤ))
    → All
        (λ s. (s.mine_rate ≤ s.mine_denominator) × (1 ≤ s.mine_denominator))
        (init_rates scaler ss)
unfolding init_rates
init_rates-bounds scaler ss = set_rates-bounds _ _ ss
