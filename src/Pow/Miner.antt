-- ===== src/Pow/Miner.antt =====
-- quantas/BitcoinPeer/BitcoinPeer.{hpp,cpp} and quantas/EthereumPeer/EthereumPeer.{hpp,cpp}, whose steps
-- differ in the ledger's rule and in what names a block without a hash and without parents. The names
-- that the source makes of numbers are the parameter `Names`; the draws of randMod are arguments. A key
-- that a message lacks is `none`. A step that has no result is `none`: its fuel is used up, or it reads
-- the front of an empty vector.
use quantas.Common.{
  ℕ, ◌+◌, ◌-◌, ◌*◌, Bool, true, false, not, ◌&&◌, ◌||◌, Option, none, some, List, [], ◌∷◌, ◌++◌,
  length, ltb, leb, ◌==◌, if◌then◌else◌,
}
use quantas.Common.Int.{ℤ, pos, pos_part}
use quantas.Common.Maps.{lookup}
use quantas.Pow.{BlockRecord, Pow, edges, register_block, parents_for_next_block}

pub record Names : Type 0 where
  -- publicId, transaction and round
  pub of_block : ℕ → ℕ → ℕ → ℕ
  -- a miner and a parent
  pub of_parent : Option ℕ → ℕ → ℕ
  -- the parent in the name of a block that has none: GENESIS in EthereumPeer.cpp; `none` in
  -- BitcoinPeer.cpp, which reads the front of an empty vector
  pub without_parents : Option ℕ

pub record PendingTx : Type 0 where
  pub id : ℕ
  pub round_submitted : ℤ
  pub submitter : ℕ

pub record Block : Type 0 where
  pub hash : Option ℕ
  pub parents : List ℕ
  pub miner : Option ℕ
  pub parasite : Bool
  -- the id and the submitter
  pub transaction : Option (Option ℕ × Option ℕ)

pub data Message : Type 0 where
  transaction : (id : Option ℕ) (round_submitted : ℤ) (submitter from_id : Option ℕ) → Message
  block : Block → Message

pub record Miner : Type 0 where
  pub public_id : ℕ
  pub pow : Pow
  pub queue : List PendingTx
  pub known_transactions : List (ℕ × ℕ)
  pub submit_rate : ℕ
  pub mine_rate : ℕ
  pub mine_denominator : ℕ
  pub local_submitted : ℕ
  -- minedBlocks, which only BitcoinPeer counts and nothing reads
  pub mined_blocks : ℕ
  pub outbox : List Message

unfoldable pub knows : ℕ → ℕ → List (ℕ × ℕ) → Bool
knows submitter id [] = false
knows submitter id ((s, i) ∷ ts) = (submitter == s && id == i) || knows submitter id ts

-- `_knownTransactions.insert`
unfoldable pub learn : ℕ → ℕ → List (ℕ × ℕ) → List (ℕ × ℕ)
unfolding knows
learn submitter id ts = if knows submitter id ts then ts else (submitter, id) ∷ ts

unfoldable pub receive_transaction : PendingTx → Miner → Miner
unfolding learn
receive_transaction tx s = if knows tx.submitter tx.id s.known_transactions then s else record s {
  known_transactions = learn tx.submitter tx.id s.known_transactions;
  queue = s.queue ++ tx ∷ [];
}

-- The first of the queue with the id and the submitter.
unfoldable pub drop_transaction : ℕ → ℕ → List PendingTx → List PendingTx
drop_transaction id submitter [] = []
drop_transaction id submitter (tx ∷ txs) =
    let rest = drop_transaction id submitter txs in
    if tx.id == id && tx.submitter == submitter then txs else tx ∷ rest

unfoldable pub or_else : Option ℕ → Option ℕ → Option ℕ
or_else (some a) other = some a
or_else none other = other

unfoldable pub settle_transaction : Option ℕ → Option ℕ → Miner → Miner
unfolding learn drop_transaction
settle_transaction (some id) (some submitter) s = record s {
  known_transactions = learn submitter id s.known_transactions;
  queue = drop_transaction id submitter s.queue;
}
settle_transaction _ _ s = s

unfoldable pub settle_block : Block → Miner → Miner
unfolding or_else settle_transaction
settle_block b s = elim b.transaction [
  | none ↦ s
  | some (id, submitter) ↦ settle_transaction id (or_else submitter b.miner) s
]

unfoldable pub hash_of : Names → Block → Option ℕ
hash_of names b = elim b.hash [
  | some h ↦ some h
  | none ↦ elim b.parents [
    | p ∷ ps ↦ some (names.of_parent b.miner p)
    | [] ↦ elim names.without_parents [ none ↦ none | some p ↦ some (names.of_parent b.miner p) ]
  ]
]

unfoldable pub guard_submit : ℕ → Miner → Bool
guard_submit draw s = ltb 0 s.submit_rate && draw == 0

unfoldable pub guard_mine : ℕ → Miner → Bool
guard_mine draw s =
    if leb s.mine_rate 0
    then false
    else if leb s.mine_denominator 0
    then false
    else elim s.queue [ [] ↦ false | tx ∷ txs ↦ ltb draw s.mine_rate ]

unfoldable pub make_transaction : ℕ → Miner → Miner
unfolding learn
make_transaction round s =
    let id = s.local_submitted + 1 in
    let tx : PendingTx = record { id = id; round_submitted = pos round; submitter = s.public_id } in
    record s {
      local_submitted = id;
      queue = s.queue ++ tx ∷ [];
      known_transactions = learn s.public_id id s.known_transactions;
      outbox =
          s.outbox ++ transaction (some id) (pos round) (some s.public_id) (some s.public_id) ∷ [];
    }

unfoldable pub announce : ℕ → List ℕ → PendingTx → Miner → Miner
announce h parents tx s =
    let b : Block = record {
      hash = some h;
      parents = parents;
      miner = some s.public_id;
      parasite = elim (lookup h s.pow.blocks) [ none ↦ false | some r ↦ r.parasite ];
      transaction = some (some tx.id, some tx.submitter);
    } in
    record s { outbox = s.outbox ++ block b ∷ [] }

-- The parents in the ledger, which a block that was there already keeps.
unfoldable pub parents_in : ℕ → Pow → List ℕ
parents_in h pow = elim (lookup h pow.blocks) [ none ↦ [] | some r ↦ r.parents ]

unfoldable pub choose_parents : List ℕ → Pow → List ℕ
choose_parents [] pow = parents_for_next_block pow
choose_parents (p ∷ ps) pow = p ∷ ps

unfoldable pub is_given : List ℕ → Bool
is_given [] = false
is_given (p ∷ ps) = true

unfoldable pub submit : ℕ → ℕ → Miner → Miner
unfolding guard_submit make_transaction
submit round draw s = if guard_submit draw s then make_transaction round s else s

module _ (prefer : Pow → BlockRecord → BlockRecord → Bool) (names : Names) where
  unfoldable pub register : ℕ → List ℕ → Option ℕ → Bool → Pow → Option Pow
  register h parents miner parasite pow =
      register_block prefer (edges pow.children + length parents + 2) h parents miner parasite pow

  unfoldable pub receive_block : Block → Miner → Option Miner
  unfolding register settle_block hash_of
  receive_block b s = elim (hash_of names b) [
    | none ↦ none
    | some h ↦ elim (register h b.parents b.miner b.parasite s.pow) [
      | none ↦ none
      | some pow ↦ some (settle_block b (record s { pow = pow }))
    ]
  ]

  unfoldable pub read_message : Message → Miner → Option Miner
  unfolding receive_transaction receive_block or_else
  read_message (transaction (some id) round submitter from_id) s =
      elim (or_else submitter from_id) [
        | none ↦ some s
        | some by ↦
            some
              (receive_transaction (record { id = id; round_submitted = round; submitter = by }) s)
      ]
  read_message (transaction none round submitter from_id) s = some s
  read_message (block b) s = receive_block b s

  unfoldable pub check_in_strm : List Message → Miner → Option Miner
  unfolding read_message
  check_in_strm [] s = some s
  check_in_strm (m ∷ ms) s = elim (read_message m s) [ none ↦ none | some t ↦ check_in_strm ms t ]

  unfoldable pub mine : ℕ → List ℕ → PendingTx → List PendingTx → Miner → Option Miner
  unfolding register announce parents_in choose_parents is_given
  mine round override_parents tx txs s =
      let h = names.of_block s.public_id tx.id round in
      let parents = choose_parents override_parents s.pow in
      elim (register h parents (some s.public_id) (is_given override_parents) s.pow) [
        | none ↦ none
        | some pow ↦ some (
            announce h (parents_in h pow) tx
              (record s { mined_blocks = s.mined_blocks + 1; queue = txs; pow = pow }))
      ]

  unfoldable pub mine_first : ℕ → List ℕ → List PendingTx → Miner → Option Miner
  unfolding mine
  mine_first round override_parents [] s = some s
  mine_first round override_parents (tx ∷ txs) s = mine round override_parents tx txs s

  unfoldable pub try_mine : ℕ → ℕ → List ℕ → Miner → Option Miner
  unfolding guard_mine mine_first
  try_mine round draw override_parents s =
      if not (guard_mine draw s) then some s else mine_first round override_parents s.queue s

  unfoldable pub run_protocol_step : ℕ → ℕ → ℕ → List ℕ → List Message → Miner → Option Miner
  unfolding check_in_strm try_mine submit
  run_protocol_step round submit_draw mine_draw override_parents ms s = elim (check_in_strm ms s) [
    | none ↦ none
    | some t ↦ try_mine round mine_draw override_parents (submit round submit_draw t)
  ]

unfoldable pub total_rate : List ℤ → ℕ
total_rate [] = 0
total_rate (rate ∷ rates) = pos_part rate + total_rate rates

-- The rate and the denominator of a peer.
unfoldable pub odds : ℕ → ℕ → ℤ → ℕ × ℕ
odds total scaler rate =
    let wanted = (total - pos_part rate) * scaler in
    let denominator = if ltb wanted 1 then 1 else wanted in
    (if ltb denominator (pos_part rate) then denominator else pos_part rate, denominator)

-- The peers with their configured rates, and mineScaler, not below 1.
unfoldable pub set_rates : ℕ → ℕ → List (Miner × ℤ) → List Miner
unfolding odds
set_rates total scaler [] = []
set_rates total scaler ((s, rate) ∷ ss) =
    let o = odds total scaler rate in
    record s { mine_rate = o.0; mine_denominator = o.1 } ∷ set_rates total scaler ss

unfoldable pub configured : List (Miner × ℤ) → List ℤ
configured [] = []
configured ((s, rate) ∷ ss) = rate ∷ configured ss

-- initParameters, as far as the rates go; the numbers are mineScaler and those of mineRates.
unfoldable pub init_rates : ℤ → List (Miner × ℤ) → List Miner
unfolding set_rates total_rate configured
init_rates scaler ss =
    set_rates (total_rate (configured ss)) (if ltb (pos_part scaler) 1 then 1 else pos_part scaler)
      ss
