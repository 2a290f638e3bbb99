-- ===== src/Raft/Terms.antt =====
-- RaftPeer.cpp: terms, votes and what a replication leaves alone.
use quantas.Common.{
  ℕ, zero, suc, ◌≡◌, refl, ◌∙◌, inl, inr, Option, none, some, List, [], ◌∷◌, arith, Bool-cases,
  Option-cases, List-cases, subst, eq_of_some,
}
use quantas.Raft.{
  Request, RaftConsensus, request_message, is_peer, reset_timer, enqueue_deferred, send,
  multicast_to,
}
use quantas.Raft.Replication.{
  begin_replication, start_next, client_request_with, try_start_replication, fill_request,
  count_client_request, queue_client_request, start_pending, ◌>>=◌, own_request, count_own,
}
use quantas.Raft.Outbox.{vote_term, votes_sent, votes_sent-other}
use quantas.Raft.Fuel.{try_forward-Forwarded}

-- From `s` to `t` requests may have moved and a replication may have begun.
pub record Started (s t : RaftConsensus) : Type 0 where
  pub same_id : t.public_id ≡ s.public_id
  pub same_leader : t.leader_id ≡ s.leader_id
  pub same_term : t.term ≡ s.term
  pub same_committed : t.committed_requests ≡ s.committed_requests
  pub same_members : t.members ≡ s.members
  pub same_votes : t.votes ≡ s.votes
  pub same_sent : votes_sent t.outbox ≡ votes_sent s.outbox

Started-trans : {s t u : RaftConsensus} → Started s t → Started t u → Started s u
Started-trans f g = record {
  same_id = g.same_id ∙ f.same_id;
  same_leader = g.same_leader ∙ f.same_leader;
  same_term = g.same_term ∙ f.same_term;
  same_committed = g.same_committed ∙ f.same_committed;
  same_members = g.same_members ∙ f.same_members;
  same_votes = g.same_votes ∙ f.same_votes;
  same_sent = g.same_sent ∙ f.same_sent;
}

start_next-Started :
    (round : ℕ) (rs : List Request) (s : RaftConsensus) → Started s (start_next round rs s)
unfolding start_next begin_replication reset_timer send vote_term
start_next-Started round [] s = ground arith
start_next-Started round (r ∷ rs) s =
    let stamped : Request = record r { round_submitted = some round } in
    let asked = multicast_to s.members (request_message (some s.term) (some s.public_id) stamped) in
    ground (arith, start_next-Started round rs s, votes_sent-other s.outbox asked refl)

queue-Started :
    (round : ℕ) (r : Request) (s : RaftConsensus) → Started s (queue_client_request round r s)
unfolding queue_client_request enqueue_deferred count_client_request
queue-Started round r s =
    let counted = count_client_request r.client_seq s in
    let queued = enqueue_deferred (fill_request round r s) counted in
    ground (arith, try_forward-Forwarded queued)

pub client_request_with-Started :
    (start : RaftConsensus → Option RaftConsensus) (round : ℕ) (r : Request) (s t : RaftConsensus)
    → ((u v : RaftConsensus) → start u ≡ some v → Started u v)
    → client_request_with start round r s ≡ some t
    → Started s t
unfolding client_request_with
client_request_with-Started start round r s t starts e =
    let q = queue_client_request round r s in
    let queued = queue-Started round r s in
    elim (Bool-cases (is_peer q.public_id q.leader_id)) [
      | inl leads ↦ Started-trans queued (starts q t (rw leads at e))
      | inr follows ↦
          let same : q ≡ t = eq_of_some _ _ (rw follows at e) in subst (Started s) same queued
    ]

count_own-Started : (s : RaftConsensus) → Started s (count_own s)
unfolding count_own
count_own-Started s = ground arith

start_pending-Started :
    (round : ℕ) (s t : RaftConsensus) → start_pending round s ≡ some t → Started s t
unfolding start_pending
start_pending-Started round s t e =
    subst (Started s) (eq_of_some _ _ e) (start_next-Started round s.pending_client_requests s)

own_start-Started :
    (fuel round : ℕ) (s t : RaftConsensus)
    → (client_request_with
          (try_start_replication fuel round)
          round
          (own_request round s)
          (count_own s)
        >>= start_pending round)
      ≡ some t
    → ((u v : RaftConsensus) → try_start_replication fuel round u ≡ some v → Started u v)
    → Started s t
own_start-Started fuel round s t e starts =
    let call =
      client_request_with (try_start_replication fuel round) round (own_request round s)
        (count_own s) in
    elim (Option-cases call) [
      | inl out ↦ absurd (let h : none ≡ some t = rw out at e in cc h)
      | inr (u, called) ↦ Started-trans (count_own-Started s) (
          Started-trans
            (client_request_with-Started _ round (own_request round s) (count_own s) u starts
              called)
            (start_pending-Started round u t (rw called at e)))
    ]

pub try_start-Started :
    (fuel round : ℕ) (s t : RaftConsensus)
    → try_start_replication fuel round s ≡ some t
    → Started s t
unfolding try_start_replication
try_start-Started zero round s t e = cc
try_start-Started (suc fuel) round s t e = elim (Bool-cases (is_peer s.public_id s.leader_id)) [
  | inr follows ↦ subst (Started s) (eq_of_some _ _ (rw follows at e)) (ground arith)
  | inl leads ↦ elim (Bool-cases s.has_in_flight) [
    | inl busy ↦ subst (Started s) (eq_of_some _ _ (rw (leads, busy) at e)) (ground arith)
    | inr free ↦ elim (List-cases s.pending_client_requests) [
      | inr (r, rs, some_left) ↦
          start_pending-Started round s t (rw (leads, free, some_left, try_start_replication) at e)
      | inl none_yet ↦
          own_start-Started fuel round s t (rw (leads, free, none_yet, try_start_replication) at e)
            (λ u v. try_start-Started fuel round u v)
    ]
  ]
]
