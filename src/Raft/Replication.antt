-- ===== src/Raft/Replication.antt =====
-- RaftPeer.cpp: client requests on their way to the leader, replication and commits. The calls
-- `tryStartReplication` and `onClientRequest` make one another: they take fuel, and `none` means
-- that it ran out (`try_start_replication_returns` in `Fuel` says that two units are enough).
use quantas.Common.{
  ℕ, zero, suc, ◌+◌, Bool, true, false, not, Option, none, some, List, [], ◌∷◌, ◌++◌, if◌then◌else◌,
}
use quantas.Common.Int.{pos, ◌+ℤ◌, ◌-ℤ◌}
use quantas.Common.Maps.{value_or}
use quantas.Raft.{
  TxKey, Request, RaftConsensus, request_message, commit_message, client_request, unicast_to,
  multicast_to, empty_request, has_key, insert_key, find_key, set_key, erase_key, extract_key,
  is_peer, send, reset_timer, enqueue_deferred, drop_request,
}

-- One round of the loop of `tryForwardDeferredRequests`, on a request that is not yet committed.
unfoldable pub forward_request : Request → RaftConsensus → RaftConsensus
unfolding send is_peer
forward_request r s =
    if is_peer s.public_id s.leader_id
    then record s {
      pending_client_requests = s.pending_client_requests ++ record r { forwarded_to = none } ∷ [];
    }
    else elim s.leader_id [
      | none ↦ record s { deferred_client_requests = s.deferred_client_requests ++ r ∷ [] }
      | some leader ↦
          if is_peer leader r.forwarded_to
          then record s { deferred_client_requests = s.deferred_client_requests ++ r ∷ [] }
          else let sent = send (unicast_to leader (client_request r)) s in
            record sent {
              deferred_client_requests =
                  sent.deferred_client_requests ++ record r { forwarded_to = some leader } ∷ [];
            }
    ]

unfoldable pub forward_one : Request → RaftConsensus → RaftConsensus
forward_one r s = elim (extract_key r) [
  | none ↦ s
  | some key ↦ if has_key key s.committed_requests then s else forward_request r s
]

-- The loop over the requests that stand in the queue when it begins.
unfoldable pub forward_all : List Request → RaftConsensus → RaftConsensus
forward_all [] s = s
forward_all (r ∷ rs) s = forward_all rs (forward_one r s)

unfoldable pub try_forward_deferred_requests : RaftConsensus → RaftConsensus
try_forward_deferred_requests s =
    forward_all s.deferred_client_requests (record s { deferred_client_requests = [] })

-- `_replies[key];` makes an empty entry where there is none.
touch_replies : TxKey → List (TxKey × List ℕ) → List (TxKey × List ℕ)
touch_replies key m = elim (find_key key m) [ none ↦ set_key key [] m | some rs ↦ m ]

unfoldable pub begin_replication : ℕ → TxKey → Request → RaftConsensus → RaftConsensus
unfolding touch_replies
begin_replication round key r s =
    let stamped : Request = record r { round_submitted = some round } in
    reset_timer round (
      send (multicast_to s.members (request_message (some s.term) (some s.public_id) stamped))
        (record s {
          has_in_flight = true;
          in_flight_key = some key;
          in_flight_request = stamped;
          replies = touch_replies key s.replies;
          submitted_round = set_key key round s.submitted_round;
        }))

-- while (!_pendingClientRequests.empty()) …, over the pending requests.
unfoldable pub start_next : ℕ → List Request → RaftConsensus → RaftConsensus
start_next round [] s = record s { pending_client_requests = [] }
start_next round (r ∷ rs) s =
    let rest = start_next round rs s in
    elim (extract_key r) [
      | none ↦ rest
      | some key ↦
          if has_key key s.committed_requests
          then rest
          else begin_replication round key r (record s { pending_client_requests = rs })
    ]

unfoldable pub fill_request : ℕ → Request → RaftConsensus → Request
fill_request round r s = record {
  submitter_id = some (value_or s.public_id r.submitter_id);
  client_seq = some (value_or s.next_client_request_id r.client_seq);
  round_submitted = some (value_or round r.round_submitted);
  forwarded_to = r.forwarded_to;
}

unfoldable pub count_client_request : Option ℕ → RaftConsensus → RaftConsensus
count_client_request none s = record s { next_client_request_id = s.next_client_request_id + 1 }
count_client_request (some c) s = s

-- What `onClientRequest` does before it looks at the leader.
unfoldable pub queue_client_request : ℕ → Request → RaftConsensus → RaftConsensus
unfolding fill_request count_client_request
queue_client_request round r s =
    try_forward_deferred_requests
      (enqueue_deferred (fill_request round r s) (count_client_request r.client_seq s))

-- `onClientRequest`, given what `tryStartReplication` does.
unfoldable pub client_request_with :
    (RaftConsensus → Option RaftConsensus) → ℕ → Request → RaftConsensus → Option RaftConsensus
client_request_with start round r s =
    let queued = queue_client_request round r s in
    if is_peer queued.public_id queued.leader_id then start queued else some queued

-- The request that a peer makes itself.
unfoldable pub own_request : ℕ → RaftConsensus → Request
own_request round s = record {
  submitter_id = some s.public_id;
  client_seq = some s.next_client_request_id;
  round_submitted = some round;
  forwarded_to = none;
}

unfoldable pub count_own : RaftConsensus → RaftConsensus
count_own s = record s { next_client_request_id = s.next_client_request_id + 1 }

unfoldable pub start_pending : ℕ → RaftConsensus → Option RaftConsensus
start_pending round s = some (start_next round s.pending_client_requests s)

-- A call that may run out of fuel, and what comes after it.
infixl 5 ◌>>=◌
abbrev pub ◌>>=◌ {ℓ κ} : {A : Type ℓ} {B : Type κ} → Option A → (A → Option B) → Option B
none >>= f = none
some a >>= f = f a

unfoldable pub try_start_replication : ℕ → ℕ → RaftConsensus → Option RaftConsensus
unfolding own_request count_own start_pending
try_start_replication zero round s = none
try_start_replication (suc fuel) round s =
    if not (is_peer s.public_id s.leader_id)
    then some s
    else if s.has_in_flight
    then some s
    else elim s.pending_client_requests [
      | [] ↦
          client_request_with (try_start_replication fuel round) round (own_request round s)
            (count_own s)
          >>= start_pending round
      | r ∷ rs ↦ start_pending round s
    ]

unfoldable pub on_client_request : ℕ → ℕ → Request → RaftConsensus → Option RaftConsensus
on_client_request fuel round = client_request_with (try_start_replication fuel round) round

count_commit : Bool → ℕ → ℕ → Request → RaftConsensus → RaftConsensus
count_commit true submitted committed r s = s
count_commit false submitted committed r s = record s {
  confirmed_trans =
      s.confirmed_trans
      ++ record { request = r; submitted = submitted; committed = committed; term = s.term } ∷ [];
  latency = s.latency +ℤ (pos committed -ℤ pos submitted);
}

unfoldable pub apply_commit : Request → ℕ → ℕ → Bool → RaftConsensus → RaftConsensus
unfolding count_commit
apply_commit r submitted committed skip_metrics s = elim (extract_key r) [
  | none ↦ s
  | some key ↦ count_commit skip_metrics submitted committed r (record s {
    committed_requests = insert_key key s.committed_requests;
    submitted_round = erase_key key s.submitted_round;
    replies = erase_key key s.replies;
    deferred_client_requests = drop_request key s.deferred_client_requests;
    pending_client_requests = drop_request key s.pending_client_requests;
  })
]

clear_in_flight : RaftConsensus → RaftConsensus
clear_in_flight s = record s {
  has_in_flight = false;
  in_flight_key = none;
  in_flight_request = empty_request;
}

-- What `confirmRequest` does before it starts the next replication.
unfoldable pub commit_request : ℕ → Request → ℕ → RaftConsensus → RaftConsensus
unfolding clear_in_flight count_commit
commit_request round r submitted s =
    let counted = count_commit false submitted round r s in
    let applied = apply_commit r submitted round true counted in
    clear_in_flight (
      send
        (multicast_to applied.members (
          commit_message (some applied.public_id) (some applied.term) (some submitted) (some round)
            r))
        applied)

unfoldable pub confirm_request : ℕ → ℕ → Request → ℕ → RaftConsensus → Option RaftConsensus
confirm_request fuel round r submitted s =
    try_start_replication fuel round (commit_request round r submitted s)
