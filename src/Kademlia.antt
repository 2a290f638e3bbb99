-- ===== src/Kademlia.antt =====
-- quantas/KademliaPeer/KademliaPeer.{hpp,cpp}: routing by the first different bit and by XOR distance.
-- A binary id is the list of its bits, the highest first. Ids are not negative, and `none` stands for
-- NO_PEER_ID, for a missing key and for a group of -1. What `randMod` answers is an argument.
pub mod Bits
pub mod Words
pub mod Routes
pub mod Closest
pub mod Fingers
pub mod Rounds
pub mod Setup
pub mod Tests
use quantas.Common.{
  ℕ, zero, suc, ◌+◌, ◌-◌, ◌*◌, ◌/◌, ◌%◌, ◌^◌, Bool, true, false, not, ◌&&◌, ◌||◌, Option, none,
  some, List, [], ◌∷◌, ◌++◌, length, ltb, leb, ◌==◌, get_or, replicate, if◌then◌else◌,
}
use quantas.Common.Int.{ℤ, pos, ◌+ℤ◌, ◌-ℤ◌}
use quantas.Common.Sets.{contains}
use quantas.Common.Maps.{value_or}

pub record KademliaFinger : Type 0 where
  pub id : ℕ
  pub bin_id : List Bool
  pub group : Option ℕ

pub record Lookup : Type 0 where
  pub origin_id : Option ℕ
  pub target_id : Option ℕ
  pub target_binary_id : List Bool
  pub round_submitted : Option ℕ
  pub hops : ℕ
  pub last_hop : Option ℕ

pub record Peer : Type 0 where
  pub public_id : ℕ
  pub neighbors : List ℕ
  pub binary_id_size : ℕ
  pub binary_id : List Bool
  pub all_peer_ids : List ℕ
  pub fingers : List KademliaFinger
  pub last_neighbor_fingerprint : ℕ
  pub requests_satisfied : ℕ
  pub total_hops : ℕ
  pub latency : ℤ
  pub alive : Bool
  pub initialized : Bool
  pub outbox : List (ℕ × Lookup)

unfoldable pub same_bit : Bool → Bool → Bool
same_bit true b = b
same_bit false b = not b

-- The exclusive or of two words of `width` bits.
unfoldable pub xor_word : ℕ → ℕ → ℕ → ℕ
xor_word zero a b = 0
xor_word (suc width) a b = (if a % 2 == b % 2 then 0 else 1) + 2 * xor_word width (a / 2) (b / 2)

unfoldable pub xor_distance : ℕ → ℕ → ℕ
unfolding xor_word
xor_distance a b = xor_word 64 a b

-- The bits below `size`, the highest first.
unfoldable pub get_binary_id : ℕ → ℕ → List Bool
get_binary_id zero id = []
get_binary_id (suc bit) id =
    (if leb 64 bit then false else (id / 2 ^ bit) % 2 == 1) ∷ get_binary_id bit id

unfoldable pub next_bit : Option ℕ → Option ℕ
next_bit none = none
next_bit (some k) = some (suc k)

unfoldable pub first_different_bit : List Bool → List Bool → Option ℕ
unfolding same_bit next_bit
first_different_bit [] ys = none
first_different_bit (x ∷ xs) [] = none
first_different_bit (x ∷ xs) (y ∷ ys) =
    if same_bit x y then next_bit (first_different_bit xs ys) else some 0

unfoldable pub is_group : ℕ → Option ℕ → Bool
is_group g none = false
is_group g (some h) = h == g

-- The fingers of a group that are neighbours.
unfoldable pub candidates : ℕ → List ℕ → List KademliaFinger → List ℕ
candidates group nbrs [] = []
candidates group nbrs (f ∷ fs) =
    if not (is_group group f.group)
    then candidates group nbrs fs
    else if not (contains f.id nbrs)
    then candidates group nbrs fs
    else f.id ∷ candidates group nbrs fs

-- `drawn` is below the number of candidates.
unfoldable pub choose : ℕ → List ℕ → Option ℕ
choose drawn [] = none
choose drawn (c ∷ []) = some c
choose drawn (c ∷ d ∷ cs) = some (get_or (c ∷ d ∷ cs) drawn 0)

unfoldable pub select_finger_for_group : ℕ → Peer → ℕ → List ℕ → Option ℕ
unfolding candidates choose
select_finger_for_group drawn p group nbrs = choose drawn (candidates group nbrs p.fingers)

unfoldable pub consider : ℕ → ℕ → ℕ → Option ℕ × ℕ → Option ℕ × ℕ
consider self target nbr (best, best_distance) =
    if nbr == self
    then (best, best_distance)
    else if ltb (xor_distance nbr target) best_distance
    then (some nbr, xor_distance nbr target)
    else (best, best_distance)

unfoldable pub closest_of : ℕ → ℕ → List ℕ → Option ℕ × ℕ → Option ℕ × ℕ
closest_of self target [] acc = acc
closest_of self target (n ∷ ns) acc = closest_of self target ns (consider self target n acc)

unfoldable pub select_closest_by_distance : Peer → ℕ → List ℕ → Option ℕ
unfolding closest_of consider
select_closest_by_distance p target nbrs =
    (closest_of p.public_id target nbrs (none, xor_distance p.public_id target)).0

unfoldable pub is_nil : List Bool → Bool
is_nil [] = true
is_nil (b ∷ bs) = false

unfoldable pub find_route : ℕ → Peer → List Bool → ℕ → List ℕ → Option ℕ
unfolding is_nil
find_route drawn p target_binary target nbrs =
    let closest = select_closest_by_distance p target nbrs in
    if is_nil target_binary || is_nil p.binary_id
    then closest
    else elim (first_different_bit target_binary p.binary_id) [
      | none ↦ closest
      | some group ↦ elim (select_finger_for_group drawn p group nbrs) [
        | none ↦ closest
        | some finger ↦ some finger
      ]
    ]

-- `nextHop`, the hop counted and the message sent.
unfoldable pub forward : ℕ → ℕ → Lookup → Peer → Peer
forward drawn target msg p = elim (find_route drawn p msg.target_binary_id target p.neighbors) [
  | none ↦ p
  | some next ↦ if next == p.public_id then p else record p {
    outbox =
        p.outbox ++ (next, record msg { hops = msg.hops + 1; last_hop = some p.public_id }) ∷ [];
  }
]

unfoldable pub satisfy : ℕ → Lookup → Peer → Peer
satisfy round msg p = record p {
  requests_satisfied = p.requests_satisfied + 1;
  total_hops = p.total_hops + msg.hops;
  latency = p.latency +ℤ (pos round -ℤ pos (value_or round msg.round_submitted));
}

unfoldable pub with_binary : Peer → ℕ → Lookup → Lookup
unfolding is_nil
with_binary p target msg =
    if is_nil msg.target_binary_id
    then record msg { target_binary_id = get_binary_id p.binary_id_size target }
    else msg

unfoldable pub is_empty : List ℕ → Bool
is_empty [] = true
is_empty (n ∷ ns) = false

unfoldable pub handle_lookup : ℕ → ℕ → Lookup → Peer → Peer
unfolding satisfy with_binary is_empty
handle_lookup drawn round msg p = elim msg.target_id [
  | none ↦ p
  | some target ↦
      if target == p.public_id
      then satisfy round msg p
      else if is_empty p.neighbors
      then p
      else forward drawn target (with_binary p target msg) p
]

-- The buckets of the neighbours, by group.
unfoldable pub put : ℕ → KademliaFinger → List (List KademliaFinger) → List (List KademliaFinger)
put g f [] = []
put zero f (b ∷ bs) = (b ++ f ∷ []) ∷ bs
put (suc g) f (b ∷ bs) = b ∷ put g f bs

unfoldable pub entry_of : Peer → ℕ → KademliaFinger
entry_of p n =
    let bin = get_binary_id p.binary_id_size n in
    record { id = n; bin_id = bin; group = first_different_bit bin p.binary_id }

unfoldable pub add_entry : KademliaFinger → List (List KademliaFinger) → List (List KademliaFinger)
unfolding put
add_entry f grouped = elim f.group [ none ↦ grouped | some g ↦ put g f grouped ]

unfoldable pub group_all : Peer → List ℕ → List (List KademliaFinger) → List (List KademliaFinger)
unfolding add_entry entry_of
group_all p [] grouped = grouped
group_all p (n ∷ ns) grouped =
    if n == p.public_id
    then group_all p ns grouped
    else group_all p ns (add_entry (entry_of p n) grouped)

-- One finger of each bucket that is not empty; `draws` answers for those of two or more.
unfoldable pub pick : List ℕ → List (List KademliaFinger) → List KademliaFinger
pick draws [] = []
pick draws ([] ∷ bs) = pick draws bs
pick draws ((f ∷ []) ∷ bs) = f ∷ pick draws bs
pick [] ((f ∷ g ∷ fs) ∷ bs) = f ∷ pick [] bs
pick (d ∷ draws) ((f ∷ g ∷ fs) ∷ bs) = get_or (f ∷ g ∷ fs) d f ∷ pick draws bs

-- A hash of the neighbours, in words of 64 bits.
unfoldable pub mix : ℕ → List ℕ → ℕ
unfolding xor_word
mix hash [] = hash
mix hash (id ∷ ids) =
    mix (xor_word 64 hash ((id + 11400714819323198485 + hash * 64 % 2 ^ 64 + hash / 4) % 2 ^ 64))
      ids

unfoldable pub neighbor_fingerprint : List ℕ → ℕ
unfolding mix
neighbor_fingerprint nbrs = mix (length nbrs) nbrs

unfoldable pub rebuild_finger_table : List ℕ → List ℕ → Peer → Peer
unfolding group_all pick
rebuild_finger_table draws nbrs p = record p {
  fingers = pick draws (group_all p nbrs (replicate p.binary_id_size []));
  last_neighbor_fingerprint = neighbor_fingerprint nbrs;
}
