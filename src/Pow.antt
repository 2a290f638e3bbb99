-- ===== src/Pow.antt =====
-- quantas/Common/Pow.hpp: the ledger of blocks, and its rules for the best block in
-- quantas/BitcoinPeer/PoWBitcoin.hpp and quantas/EthereumPeer/PoWEthereum.hpp. Hashes are numbers, that
-- of the genesis block is 0, and `before` is the order of the strings. The maps are association lists
-- that keep the order in which keys came; the source's have none. The loops over a stack or a queue run
-- on fuel, `none` where it runs out.
pub mod Loops
pub mod Ledger
pub mod Miner
pub mod Steps
pub mod Tests
use quantas.Common.{
  ℕ, zero, suc, ◌+◌, Bool, true, false, not, ◌&&◌, ◌||◌, Option, none, some, List, [], ◌∷◌, ◌++◌,
  length, ltb, ◌==◌, if◌then◌else◌,
}
use quantas.Common.Sets.{contains}
use quantas.Common.Maps.{lookup, assign, value_or}

pub record BlockRecord : Type 0 where
  pub hash : ℕ
  pub parents : List ℕ
  pub miner : Option ℕ
  pub height : ℕ
  pub parasite : Bool

pub record Pow : Type 0 where
  pub members : List ℕ
  pub blocks : List (ℕ × BlockRecord)
  pub best_hash : ℕ
  pub children : List (ℕ × List ℕ)

abbrev pub genesis : ℕ
genesis = 0

abbrev pub genesis_block : BlockRecord
genesis_block = record { hash = genesis; parents = []; miner = none; height = 0; parasite = false }

unfoldable pub new_pow : List ℕ → Pow
new_pow members = record {
  members = members;
  blocks = (genesis, genesis_block) ∷ [];
  best_hash = genesis;
  children = (genesis, []) ∷ [];
}

unfoldable pub find_block : ℕ → Pow → Option BlockRecord
find_block h s = lookup h s.blocks

unfoldable pub children_of : ℕ → List (ℕ × List ℕ) → List ℕ
children_of h m = value_or [] (lookup h m)

-- What is new of the parents goes on the stack and in `visited`.
unfoldable pub push_parents : List ℕ → List ℕ → List ℕ → List ℕ × List ℕ
push_parents [] stack visited = (stack, visited)
push_parents (p ∷ ps) stack visited =
    if contains p visited
    then push_parents ps stack visited
    else push_parents ps (p ∷ stack) (p ∷ visited)

-- The last of the stack is the head of the list.
unfoldable pub walk_ancestry : ℕ → List (ℕ × BlockRecord) → List ℕ → List ℕ → Option Bool
unfolding push_parents
walk_ancestry zero blocks stack visited = none
walk_ancestry (suc fuel) blocks [] visited = some true
walk_ancestry (suc fuel) blocks (current ∷ stack) visited = elim (lookup current blocks) [
  | none ↦ some false
  | some r ↦
      let pushed = push_parents r.parents stack visited in
      walk_ancestry fuel blocks pushed.0 pushed.1
]

-- The parents that the blocks name.
unfoldable pub mentioned : List (ℕ × BlockRecord) → List ℕ
mentioned [] = []
mentioned ((h, r) ∷ bs) = r.parents ++ mentioned bs

unfoldable pub has_full_ancestry : ℕ → Pow → Bool
unfolding walk_ancestry mentioned
has_full_ancestry h s =
    value_or false (walk_ancestry (length (mentioned s.blocks) + 2) s.blocks (h ∷ []) [])

-- The greatest height of the parents, if all are there.
unfoldable pub tallest : List (ℕ × BlockRecord) → List ℕ → ℕ → Option ℕ
tallest blocks [] most = some most
tallest blocks (p ∷ ps) most = elim (lookup p blocks) [
  | none ↦ none
  | some r ↦ tallest blocks ps (if ltb most r.height then r.height else most)
]

unfoldable pub new_height : List (ℕ × BlockRecord) → List ℕ → ℕ
unfolding tallest
new_height blocks [] = 0
new_height blocks (p ∷ ps) = elim (tallest blocks (p ∷ ps) 0) [ none ↦ 0 | some most ↦ most + 1 ]

unfoldable pub recompute_height : ℕ → Pow → Pow
unfolding new_height
recompute_height h s = elim (lookup h s.blocks) [
  | none ↦ s
  | some r ↦ record s {
    blocks = assign h (record r { height = new_height s.blocks r.parents }) s.blocks;
  }
]

-- Unless it is there already.
unfoldable pub add_child : ℕ → ℕ → List (ℕ × List ℕ) → List (ℕ × List ℕ)
unfolding children_of
add_child h parent m =
    let cs = children_of parent m in assign parent (if contains h cs then cs else cs ++ h ∷ []) m

unfoldable pub add_child_to : ℕ → List ℕ → List (ℕ × List ℕ) → List (ℕ × List ℕ)
unfolding add_child
add_child_to h [] m = m
add_child_to h (p ∷ ps) m = add_child_to h ps (add_child h p m)

-- `_children[hash];`
unfoldable pub touch : ℕ → List (ℕ × List ℕ) → List (ℕ × List ℕ)
unfolding children_of
touch h m = assign h (children_of h m) m

-- Every child that a block has, with its repetitions.
unfoldable pub edges : List (ℕ × List ℕ) → ℕ
edges [] = 0
edges ((h, cs) ∷ m) = length cs + edges m

-- The state before the updates, with the block that is new.
unfoldable pub insert_block : ℕ → List ℕ → Option ℕ → Bool → Pow → Pow
unfolding touch add_child_to
insert_block h parents miner parasite s =
    let r : BlockRecord = record {
      hash = h;
      parents = parents;
      miner = miner;
      height = 0;
      parasite = parasite;
    } in
    record s {
      blocks = assign h r s.blocks;
      children = add_child_to h parents (touch h s.children);
    }

-- preferCandidate of a ledger, for an incumbent that is there.
module _ (prefer : Pow → BlockRecord → BlockRecord → Bool) where
  unfoldable pub maybe_promote_best : ℕ → Pow → Pow
  unfolding has_full_ancestry
  maybe_promote_best h s = elim (lookup h s.blocks) [
    | none ↦ s
    | some r ↦
        if not (has_full_ancestry h s)
        then s
        else if h == s.best_hash
        then s
        else elim (lookup s.best_hash s.blocks) [
          | none ↦ record s { best_hash = h }
          | some incumbent ↦ if prefer s r incumbent then record s { best_hash = h } else s
        ]
  ]

  -- The best block of those with full ancestry, by its hash.
  unfoldable pub scan_best :
      Pow → List (ℕ × BlockRecord) → Option (ℕ × BlockRecord) → Option (ℕ × BlockRecord)
  unfolding has_full_ancestry
  scan_best s [] best = best
  scan_best s ((h, r) ∷ bs) best =
      if not (has_full_ancestry h s) then scan_best s bs best else elim best [
        | none ↦ scan_best s bs (some (h, r))
        | some (k, q) ↦ scan_best s bs (if prefer s r q then some (h, r) else some (k, q))
      ]

  unfoldable pub ensure_best_valid : Pow → Pow
  unfolding scan_best
  ensure_best_valid s =
      let found : Bool = elim (lookup s.best_hash s.blocks) [ none ↦ false | some r ↦ true ] in
      if found && has_full_ancestry s.best_hash s then s else elim (scan_best s s.blocks none) [
        | none ↦ record s { best_hash = genesis }
        | some (h, r) ↦ record s { best_hash = h }
      ]

  unfoldable pub spread : ℕ → List ℕ → List ℕ → Pow → Option Pow
  unfolding maybe_promote_best recompute_height children_of
  spread zero queue visited s = none
  spread (suc fuel) [] visited s = some s
  spread (suc fuel) (current ∷ queue) visited s =
      let next = maybe_promote_best current (recompute_height current s) in
      elim (contains current visited) [
        | true ↦ spread fuel queue visited s
        | false ↦ spread fuel (queue ++ children_of current next.children) (current ∷ visited) next
      ]

  unfoldable pub propagate_updates : ℕ → ℕ → Pow → Option Pow
  unfolding spread ensure_best_valid
  propagate_updates fuel root s = elim (spread fuel (root ∷ []) [] s) [
    | none ↦ none
    | some t ↦ some (ensure_best_valid t)
  ]

  unfoldable pub register_block : ℕ → ℕ → List ℕ → Option ℕ → Bool → Pow → Option Pow
  unfolding propagate_updates insert_block
  register_block fuel h parents miner parasite s = elim (lookup h s.blocks) [
    | some r ↦
        some
          (record s { blocks = assign h (record r { parasite = r.parasite || parasite }) s.blocks })
    | none ↦ propagate_updates fuel h (insert_block h parents miner parasite s)
  ]

unfoldable pub best_height : Pow → ℕ
best_height s = elim (lookup s.best_hash s.blocks) [ none ↦ 0 | some r ↦ r.height ]

unfoldable pub parents_for_next_block : Pow → List ℕ
parents_for_next_block s = elim (lookup s.best_hash s.blocks) [
  | none ↦ genesis ∷ []
  | some r ↦ r.hash ∷ []
]

unfoldable pub tips_of : List (ℕ × List ℕ) → List (ℕ × BlockRecord) → List ℕ
unfolding children_of
tips_of m [] = []
tips_of m ((h, r) ∷ bs) =
    let rest = tips_of m bs in elim (children_of h m) [ [] ↦ h ∷ rest | c ∷ cs ↦ rest ]

unfoldable pub tips : Pow → List ℕ
unfolding tips_of
tips s = tips_of s.children s.blocks

-- PoWBitcoin::preferCandidate
unfoldable pub prefer_longest : (ℕ → ℕ → Bool) → Pow → BlockRecord → BlockRecord → Bool
prefer_longest before s candidate incumbent =
    if not (candidate.height == incumbent.height)
    then ltb incumbent.height candidate.height
    else before candidate.hash incumbent.hash

-- The blocks with their parents, read as `children` is.
unfoldable pub parent_lists : List (ℕ × BlockRecord) → List (ℕ × List ℕ)
parent_lists [] = []
parent_lists ((h, r) ∷ bs) = (h, r.parents) ∷ parent_lists bs

unfoldable pub push_all : List ℕ → List ℕ → List ℕ
push_all [] stack = stack
push_all (c ∷ cs) stack = push_all cs (c ∷ stack)

unfoldable pub count_reached : ℕ → List (ℕ × List ℕ) → List ℕ → List ℕ → Option ℕ
unfolding children_of push_all
count_reached zero m stack visited = none
count_reached (suc fuel) m [] visited = some 0
count_reached (suc fuel) m (current ∷ stack) visited = elim (contains current visited) [
  | true ↦ count_reached fuel m stack visited
  | false ↦
      elim (count_reached fuel m (push_all (children_of current m) stack) (current ∷ visited)) [
        | none ↦ none
        | some n ↦ some (n + 1)
      ]
]

unfoldable pub subtree_size : ℕ → Pow → ℕ
unfolding count_reached edges
subtree_size h s = value_or 0 (count_reached (edges s.children + 2) s.children (h ∷ []) [])

unfoldable pub reaches : ℕ → ℕ → List (ℕ × List ℕ) → List ℕ → List ℕ → Option Bool
unfolding children_of push_all
reaches zero target m stack visited = none
reaches (suc fuel) target m [] visited = some false
reaches (suc fuel) target m (current ∷ stack) visited = elim (contains current visited) [
  | true ↦ reaches fuel target m stack visited
  | false ↦ elim (contains target (children_of current m)) [
    | true ↦ some true
    | false ↦ reaches fuel target m (push_all (children_of current m) stack) (current ∷ visited)
  ]
]

unfoldable pub is_ancestor : ℕ → ℕ → Pow → Bool
unfolding reaches edges parent_lists
is_ancestor ancestor descendant s =
    if ancestor == descendant
    then false
    else value_or false (
        reaches (edges (parent_lists s.blocks) + 2) ancestor (parent_lists s.blocks)
          (descendant ∷ []) [])

-- PoWEthereum::preferCandidate
unfoldable pub prefer_heaviest : (ℕ → ℕ → Bool) → Pow → BlockRecord → BlockRecord → Bool
unfolding is_ancestor subtree_size
prefer_heaviest before s candidate incumbent =
    if is_ancestor incumbent.hash candidate.hash s
    then true
    else if is_ancestor candidate.hash incumbent.hash s
    then false
    else if not (subtree_size candidate.hash s == subtree_size incumbent.hash s)
    then ltb (subtree_size incumbent.hash s) (subtree_size candidate.hash s)
    else if not (candidate.height == incumbent.height)
    then ltb incumbent.height candidate.height
    else before candidate.hash incumbent.hash
