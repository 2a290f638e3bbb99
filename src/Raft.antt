-- ===== src/Raft.antt =====
-- quantas/RaftPeer/RaftPeer.{hpp,cpp}: the consensus that a Raft peer runs. An `interfaceId` is a
-- number, and `none` where the source has NO_PEER_ID. A round (RoundManager::currentRound()) is an
-- argument; what `randMod` will answer is the list `draws`, and 0 once that is used up. What a peer
-- sends goes to `outbox`, oldest first. Counters do not wrap.
pub mod Replication
pub mod Handlers
pub mod Outbox
pub mod Fuel
pub mod Terms
pub mod Elections
pub mod Messages
pub mod Reach
pub mod Leaders
pub mod Tests
use quantas.Common.{
  ℕ, zero, suc, ◌+◌, ◌/◌, Bool, true, false, not, ◌&&◌, ◌||◌, Option, none, some, List, [], ◌∷◌,
  ◌++◌, length, ltb, leb, ◌==◌, if◌then◌else◌,
}
use quantas.Common.Int.{ℤ, pos, ◌+ℤ◌, ◌-ℤ◌}
use quantas.Common.Maps.{value_or}
use quantas.Common.Sets.{contains}

-- A key that `keyValid` accepts: the submitter and its sequence number.
pub record TxKey : Type 0 where
  pub submitter : ℕ
  pub client_seq : ℕ

-- The keys of a client request, `none` where one is missing.
pub record Request : Type 0 where
  pub submitter_id : Option ℕ
  pub client_seq : Option ℕ
  pub round_submitted : Option ℕ
  pub forwarded_to : Option ℕ

pub empty_request : Request
empty_request = record {
  submitter_id = none;
  client_seq = none;
  round_submitted = none;
  forwarded_to = none;
}

-- The consensus messages by their "MessageType", with the keys that a handler reads, and the
-- client request that a peer forwards.
pub data Message : Type 0 where
  request_message : (term from : Option ℕ) (request : Request) → Message
  respond_request : (from : Option ℕ) (term : ℕ) (request : Request) → Message
  vote_message : (trans from : Option ℕ) (term : ℕ) → Message
  elect_message : (term from : Option ℕ) → Message
  commit_message :
      (from term : Option ℕ) (submitted committed : Option ℕ) (request : Request) → Message
  client_request : Request → Message

pub data Send : Type 0 where
  unicast_to : ℕ → Message → Send
  multicast_to : List ℕ → Message → Send

pub record Confirmation : Type 0 where
  pub request : Request
  pub submitted : ℕ
  pub committed : ℕ
  pub term : ℕ

pub record RaftConsensus : Type 0 where
  -- of the peer and its committee
  pub public_id : ℕ
  pub members : List ℕ
  pub candidate : Option ℕ
  pub leader_id : Option ℕ
  pub term : ℕ
  pub votes : List ℕ
  pub replies : List (TxKey × List ℕ)
  pub submitted_round : List (TxKey × ℕ)
  pub committed_requests : List TxKey
  pub known_requests : List TxKey
  pub pending_client_requests : List Request
  pub deferred_client_requests : List Request
  pub has_in_flight : Bool
  pub in_flight_key : Option TxKey
  pub in_flight_request : Request
  pub leader_changes : ℕ
  pub time_out_round : ℕ
  pub time_out_spacing : ℕ
  pub time_out_random : ℕ
  pub submit_rate : ℕ
  pub next_client_request_id : ℕ
  pub confirmed_trans : List Confirmation
  pub latency : ℤ
  pub draws : List ℕ
  pub outbox : List Send

-- Equality of keys, and the sets and maps that the keys are looked up in.
abbrev pub key_eq : TxKey → TxKey → Bool
key_eq j k = j.submitter == k.submitter && j.client_seq == k.client_seq

abbrev pub has_key : TxKey → List TxKey → Bool
has_key k [] = false
has_key k (j ∷ js) = key_eq k j || has_key k js

abbrev pub insert_key : TxKey → List TxKey → List TxKey
insert_key k js = if has_key k js then js else js ++ k ∷ []

module _ {V : Type 0} where
  abbrev pub find_key : TxKey → List (TxKey × V) → Option V
  find_key k [] = none
  find_key k ((j, v) ∷ m) = if key_eq k j then some v else find_key k m

  abbrev pub set_key : TxKey → V → List (TxKey × V) → List (TxKey × V)
  set_key k v [] = (k, v) ∷ []
  set_key k v ((j, w) ∷ m) = if key_eq k j then (k, v) ∷ m else (j, w) ∷ set_key k v m

  abbrev pub erase_key : TxKey → List (TxKey × V) → List (TxKey × V)
  erase_key k [] = []
  erase_key k ((j, w) ∷ m) = if key_eq k j then m else (j, w) ∷ erase_key k m

-- The key, if `keyValid` accepts it.
unfoldable pub extract_key : Request → Option TxKey
extract_key r = elim r.submitter_id [
  | none ↦ none
  | some s ↦ elim r.client_seq [
    | none ↦ none
    | some c ↦ some (record { submitter = s; client_seq = c })
  ]
]

unfoldable pub is_key : TxKey → Option TxKey → Bool
is_key k none = false
is_key k (some j) = key_eq j k

unfoldable pub is_peer : ℕ → Option ℕ → Bool
is_peer n none = false
is_peer n (some m) = m == n

unfoldable pub send : Send → RaftConsensus → RaftConsensus
send x s = record s { outbox = s.outbox ++ x ∷ [] }

unfoldable pub quorum_threshold : RaftConsensus → ℕ
quorum_threshold s = elim s.members [ [] ↦ 0 | m ∷ ms ↦ length (m ∷ ms) / 2 ]

unfoldable pub has_quorum : ℕ → RaftConsensus → Bool
unfolding quorum_threshold
has_quorum count s = ltb (quorum_threshold s) count

unfoldable pub first_draw : List ℕ → ℕ
first_draw [] = 0
first_draw (d ∷ ds) = d

unfoldable pub rest_draws : List ℕ → List ℕ
rest_draws [] = []
rest_draws (d ∷ ds) = ds

unfoldable pub reset_timer : ℕ → RaftConsensus → RaftConsensus
unfolding first_draw rest_draws
reset_timer round s =
    if ltb 0 s.time_out_random
    then record s {
      time_out_round = round + s.time_out_spacing + first_draw s.draws;
      draws = rest_draws s.draws;
    }
    else record s { time_out_round = round + s.time_out_spacing }

-- A request that goes back to the head of the pending ones.
requeue : Bool → TxKey → RaftConsensus → RaftConsensus
requeue again key s =
    if again && not (has_key key s.committed_requests)
    then record s { pending_client_requests = s.in_flight_request ∷ s.pending_client_requests }
    else s

drop_in_flight : Bool → Option TxKey → RaftConsensus → RaftConsensus
unfolding requeue
drop_in_flight again none s = s
drop_in_flight again (some key) s =
    let kept = requeue again key s in
    record kept {
      replies = erase_key key kept.replies;
      submitted_round = erase_key key kept.submitted_round;
    }

unfoldable pub reset_replication_state : Bool → RaftConsensus → RaftConsensus
unfolding drop_in_flight
reset_replication_state again s =
    let dropped = (if s.has_in_flight then drop_in_flight again s.in_flight_key s else s) in
    record dropped {
      has_in_flight = false;
      in_flight_key = none;
      in_flight_request = empty_request;
    }

unfoldable pub enqueue_deferred : Request → RaftConsensus → RaftConsensus
enqueue_deferred r s = elim (extract_key r) [
  | none ↦ s
  | some key ↦ if has_key key s.known_requests then s else record s {
    known_requests = insert_key key s.known_requests;
    deferred_client_requests = s.deferred_client_requests ++ r ∷ [];
  }
]

-- What `dropDeferredRequest` and `dropPendingRequest` leave in their queue.
unfoldable pub drop_request : TxKey → List Request → List Request
drop_request key [] = []
drop_request key (r ∷ rs) =
    if is_key key (extract_key r) then drop_request key rs else r ∷ drop_request key rs
