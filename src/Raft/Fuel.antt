-- ===== src/Raft/Fuel.antt =====
-- RaftPeer.cpp: `tryStartReplication` and `onClientRequest` call one another at most twice.
use quantas.Common.{
  ℕ, suc, ◌<◌, ◌≡◌, refl, ◌∙◌, ◌≢◌, inl, inr, true, false, Option, some, List, [], ◌∷◌, ◌++◌, arith,
  List-cases, append-ne-nil, Bool-cases, Option-cases, if◌then◌else◌,
}
use quantas.Raft.{
  TxKey, Request, RaftConsensus, has_key, extract_key, is_peer, enqueue_deferred, send,
  client_request, unicast_to,
}
use quantas.Raft.Outbox.{vote_term, votes_sent, votes_sent-other}
use quantas.Raft.Replication.{
  forward_request, forward_one, forward_all, try_forward_deferred_requests, start_next,
  client_request_with, queue_client_request, own_request, count_own, try_start_replication,
}

-- No key of the peer's own with a number that it has not given out yet is known or committed.
pub record IsFresh (s : RaftConsensus) : Type 0 where
  pub known :
      (c : ℕ)
      → has_key (record { submitter = s.public_id; client_seq = c }) s.known_requests ≡ true
      → c < s.next_client_request_id
  pub committed :
      (c : ℕ)
      → has_key (record { submitter = s.public_id; client_seq = c }) s.committed_requests ≡ true
      → c < s.next_client_request_id

-- What forwarding leaves alone.
pub record Forwarded (s t : RaftConsensus) : Type 0 where
  pub same_id : t.public_id ≡ s.public_id
  pub same_leader : t.leader_id ≡ s.leader_id
  pub same_term : t.term ≡ s.term
  pub same_flight : t.has_in_flight ≡ s.has_in_flight
  pub same_committed : t.committed_requests ≡ s.committed_requests
  pub same_members : t.members ≡ s.members
  pub same_votes : t.votes ≡ s.votes
  pub same_sent : votes_sent t.outbox ≡ votes_sent s.outbox

forward_one-Forwarded : (r : Request) (s : RaftConsensus) → Forwarded s (forward_one r s)
unfolding forward_one forward_request send vote_term
forward_one-Forwarded r s = elim (Option-cases s.leader_id) [
  | inl nobody ↦ ground arith
  | inr (leader, e) ↦
      ground (arith, votes_sent-other s.outbox (unicast_to leader (client_request r)) refl)
]

Forwarded-trans : {s t u : RaftConsensus} → Forwarded s t → Forwarded t u → Forwarded s u
Forwarded-trans f g = record {
  same_id = g.same_id ∙ f.same_id;
  same_leader = g.same_leader ∙ f.same_leader;
  same_term = g.same_term ∙ f.same_term;
  same_flight = g.same_flight ∙ f.same_flight;
  same_committed = g.same_committed ∙ f.same_committed;
  same_members = g.same_members ∙ f.same_members;
  same_votes = g.same_votes ∙ f.same_votes;
  same_sent = g.same_sent ∙ f.same_sent;
}

pub forward_all-Forwarded : (rs : List Request) (s : RaftConsensus) → Forwarded s (forward_all rs s)
unfolding forward_all
forward_all-Forwarded [] s = ground arith
forward_all-Forwarded (r ∷ rs) s =
    Forwarded-trans (forward_one-Forwarded r s) (forward_all-Forwarded rs (forward_one r s))

-- A leader's pending requests only grow, and by each request that is valid and not committed.
forward_one_pending :
    (r : Request) (s : RaftConsensus)
    → s.pending_client_requests ≢ []
    → (forward_one r s).pending_client_requests ≢ []
unfolding forward_one forward_request
forward_one_pending r s h = ground (arith, append-ne-nil s.pending_client_requests)

forward_one_adds :
    (r : Request) (k : TxKey) (s : RaftConsensus)
    → is_peer s.public_id s.leader_id ≡ true
    → extract_key r ≡ some k
    → has_key k s.committed_requests ≡ false
    → (forward_one r s).pending_client_requests ≢ []
unfolding forward_one forward_request
forward_one_adds r k s lead valid fresh =
    rw (valid, fresh, lead, forward_one) (append-ne-nil s.pending_client_requests _)

forward_all_pending :
    (rs : List Request) (s : RaftConsensus)
    → s.pending_client_requests ≢ []
    → (forward_all rs s).pending_client_requests ≢ []
unfolding forward_all
forward_all_pending [] s h = h
forward_all_pending (r ∷ rs) s h =
    forward_all_pending rs (forward_one r s) (forward_one_pending r s h)

forward_all_adds :
    (rs : List Request) (r : Request) (k : TxKey) (s : RaftConsensus)
    → is_peer s.public_id s.leader_id ≡ true
    → extract_key r ≡ some k
    → has_key k s.committed_requests ≡ false
    → (forward_all (rs ++ r ∷ []) s).pending_client_requests ≢ []
unfolding forward_all
forward_all_adds [] r k s lead valid fresh = forward_one_adds r k s lead valid fresh
forward_all_adds (x ∷ xs) r k s lead valid fresh =
    let f = forward_one-Forwarded x s in
    forward_all_adds xs r k (forward_one x s) (rw (f.same_id, f.same_leader) lead) valid
      (rw f.same_committed fresh)

-- A leader with a pending request, and none in flight, starts it without another call.
start_with_pending :
    (fuel round : ℕ) (s : RaftConsensus)
    → s.pending_client_requests ≢ []
    → (t : RaftConsensus) × (try_start_replication (suc fuel) round s ≡ some t)
unfolding try_start_replication
start_with_pending fuel round s h = elim (Bool-cases (is_peer s.public_id s.leader_id)) [
  | inr follows ↦ (s, ground arith)
  | inl leads ↦ elim (Bool-cases s.has_in_flight) [
    | inl busy ↦ (s, ground arith)
    | inr free ↦ (start_next round s.pending_client_requests s, ground arith)
  ]
]

-- The state in which `onClientRequest` calls `tryStartReplication` for a peer's own request.
own_queued : ℕ → RaftConsensus → RaftConsensus
own_queued round s =
    try_forward_deferred_requests (enqueue_deferred (own_request round s) (count_own s))

own_queued_pending :
    (round : ℕ) (s : RaftConsensus)
    → IsFresh s
    → is_peer s.public_id s.leader_id ≡ true
    → (own_queued round s).pending_client_requests ≢ []
unfolding own_queued try_forward_deferred_requests enqueue_deferred own_request count_own
    extract_key
own_queued_pending round s f leads =
    let key : TxKey = record { submitter = s.public_id; client_seq = s.next_client_request_id } in
    let unknown : has_key key s.known_requests ≡ false =
      ground (arith, f.known s.next_client_request_id) in
    let uncommitted : has_key key s.committed_requests ≡ false =
      ground (arith, f.committed s.next_client_request_id) in
    rw unknown (forward_all_adds s.deferred_client_requests _ key _ leads refl uncommitted)

enqueue_deferred-Forwarded : (r : Request) (s : RaftConsensus) → Forwarded s (enqueue_deferred r s)
unfolding enqueue_deferred
enqueue_deferred-Forwarded r s = ground arith

pub try_forward-Forwarded : (s : RaftConsensus) → Forwarded s (try_forward_deferred_requests s)
unfolding try_forward_deferred_requests
try_forward-Forwarded s =
    let f =
      forward_all-Forwarded s.deferred_client_requests
        (record s { deferred_client_requests = [] }) in
    ground (arith, f)

own_queued-Forwarded : (round : ℕ) (s : RaftConsensus) → Forwarded s (own_queued round s)
unfolding own_queued count_own
own_queued-Forwarded round s =
    let queued = enqueue_deferred-Forwarded (own_request round s) (count_own s) in
    Forwarded-trans (ground (arith, queued))
      (try_forward-Forwarded (enqueue_deferred (own_request round s) (count_own s)))

own_call :
    (start : RaftConsensus → Option RaftConsensus) (round : ℕ) (s : RaftConsensus)
    → client_request_with start round (own_request round s) (count_own s)
      ≡ (let q = own_queued round s in if is_peer q.public_id q.leader_id then start q else some q)
unfolding client_request_with queue_client_request own_request count_own own_queued
own_call start round s = refl

own_call_returns :
    (fuel round : ℕ) (s : RaftConsensus)
    → IsFresh s
    → is_peer s.public_id s.leader_id ≡ true
    → (t : RaftConsensus) × (client_request_with
          (try_start_replication (suc fuel) round)
          round
          (own_request round s)
          (count_own s)
        ≡ some t)
own_call_returns fuel round s f leads =
    let q = own_queued round s in
    let same = own_queued-Forwarded round s in
    let started = start_with_pending fuel round q (own_queued_pending round s f leads) in
    let still : is_peer q.public_id q.leader_id ≡ true =
      rw (same.same_id, same.same_leader) leads in
    (started.0, rw (own_call (try_start_replication (suc fuel) round) round s, still) started.1)

-- With two units of fuel `tryStartReplication` returns in every fresh state.
pub try_start_replication_returns :
    (fuel round : ℕ) (s : RaftConsensus)
    → IsFresh s
    → (t : RaftConsensus) × (try_start_replication (suc (suc fuel)) round s ≡ some t)
unfolding try_start_replication
try_start_replication_returns fuel round s f = elim (Bool-cases (is_peer s.public_id s.leader_id)) [
  | inr follows ↦ (s, ground arith)
  | inl leads ↦ elim (Bool-cases s.has_in_flight) [
    | inl busy ↦ (s, ground arith)
    | inr free ↦ elim (List-cases s.pending_client_requests) [
      | inr (r, rs, e) ↦ (start_next round s.pending_client_requests s, ground arith)
      | inl none_yet ↦
          let called = own_call_returns fuel round s f leads in
          (start_next round called.0.pending_client_requests called.0, ground (arith, called.1))
    ]
  ]
]
