-- ===== src/Raft/Tests.antt =====
-- RaftPeer.cpp in a committee of three, and the theorems there.
use quantas.Common.{ℕ, ◌≤◌, ◌≡◌, refl, inl, inr, true, false, Option, none, some, [], ◌∷◌, arith}
use quantas.Common.Int.{pos}
use quantas.Common.Sets.{contains}
use quantas.Common.Predicates.{All, Elem, AllDiff}
use quantas.Raft.{
  Message, RaftConsensus, elect_message, vote_message, empty_request, extract_key, is_peer, send,
  reset_timer, reset_replication_state, enqueue_deferred, first_draw, rest_draws, has_quorum,
  quorum_threshold,
}
use quantas.Raft.Replication.{
  try_forward_deferred_requests, forward_all, forward_one, forward_request, try_start_replication,
  client_request_with, queue_client_request, own_request, count_own, start_pending, start_next,
  begin_replication, fill_request, count_client_request,
}
use quantas.Raft.Handlers.{
  on_message, handle_vote, count_vote, become_leader, take_lead, handle_elect,
}
use quantas.Raft.Outbox.{votes_sent}
use quantas.Raft.Fuel.{IsFresh, try_start_replication_returns}
use quantas.Raft.Reach.{
  Steps, reads, done, then_step, Steps-VotedOnce, Steps-monotone, quorums_meet,
}
use quantas.Raft.Leaders.{on_message-leads}

-- Peer 1, which follows nobody yet, with the vote of peer 0.
abbrev candidate_1 : RaftConsensus
candidate_1 = record {
  public_id = 1;
  members = 0 ∷ 1 ∷ 2 ∷ [];
  candidate = some 1;
  leader_id = none;
  term = 4;
  votes = 0 ∷ [];
  replies = [];
  submitted_round = [];
  committed_requests = [];
  known_requests = [];
  pending_client_requests = [];
  deferred_client_requests = [];
  has_in_flight = false;
  in_flight_key = none;
  in_flight_request = empty_request;
  leader_changes = 0;
  time_out_round = 0;
  time_out_spacing = 10;
  time_out_random = 5;
  submit_rate = 0;
  next_client_request_id = 0;
  confirmed_trans = [];
  latency = pos 0;
  draws = 3 ∷ [];
  outbox = [];
}

abbrev leader_1 : RaftConsensus
leader_1 = record candidate_1 { leader_id = some 1 }

abbrev outcome : Option RaftConsensus → RaftConsensus
outcome none = candidate_1
outcome (some s) = s

abbrev second_vote : Message
second_vote = vote_message (some 1) (some 2) 4

leader_1-IsFresh : IsFresh leader_1
leader_1-IsFresh = record { known = λ c h. cc h; committed = λ c h. cc h }

try_start_replication_returns_example :
    (t : RaftConsensus) × (try_start_replication 2 7 leader_1 ≡ some t)
try_start_replication_returns_example = try_start_replication_returns 0 7 leader_1 leader_1-IsFresh

-- A vote for peer 2 in term 5, and its request for one in that term again.
voted_twice :
    Steps candidate_1
      (handle_elect 8 (some 5) (some 2) (handle_elect 7 (some 5) (some 2) candidate_1))
unfolding on_message
voted_twice =
    then_step (then_step done (reads 0 7 (elect_message (some 5) (some 2)) refl))
      (reads 0 8 (elect_message (some 5) (some 2)) refl)

Steps-VotedOnce_example :
    AllDiff (
      votes_sent
        (handle_elect 8 (some 5) (some 2) (handle_elect 7 (some 5) (some 2) candidate_1)).outbox)
    × All
        (λ n.
          n
          ≤ (handle_elect 8 (some 5) (some 2) (handle_elect 7 (some 5) (some 2) candidate_1)).term)
        (votes_sent
          (handle_elect 8 (some 5) (some 2) (handle_elect 7 (some 5) (some 2) candidate_1)).outbox)
unfolding votes_sent
Steps-VotedOnce_example = Steps-VotedOnce voted_twice refl

Steps-monotone_example :
    (4 ≤ (handle_elect 8 (some 5) (some 2) (handle_elect 7 (some 5) (some 2) candidate_1)).term)
    × AllDiff
        (handle_elect 8 (some 5) (some 2) (handle_elect 7 (some 5) (some 2) candidate_1)).votes
Steps-monotone_example = Steps-monotone voted_twice ((λ m. m), tt)

quorums_meet_example : (a : ℕ) × Elem a (0 ∷ 1 ∷ []) × Elem a (1 ∷ 2 ∷ [])
unfolding has_quorum quorum_threshold
quorums_meet_example =
    quorums_meet candidate_1 (0 ∷ 1 ∷ []) (1 ∷ 2 ∷ []) (grind arith) (grind arith)
      (inl refl, (inr (inl refl), tt)) (inr (inl refl), (inr (inr (inl refl)), tt)) refl refl

-- The second vote makes peer 1 lead.
on_message-leads_example :
    (sender : ℕ) × (some 2 ≡ some sender)
    × (contains sender (0 ∷ []) ≡ false)
    × (has_quorum 2 candidate_1 ≡ true)
unfolding on_message handle_vote count_vote become_leader take_lead has_quorum quorum_threshold
    is_peer reset_timer reset_replication_state first_draw rest_draws try_forward_deferred_requests
    forward_all forward_one forward_request try_start_replication client_request_with
    queue_client_request own_request count_own start_pending start_next begin_replication
    fill_request count_client_request extract_key enqueue_deferred send
on_message-leads_example =
    on_message-leads 2 7 second_vote candidate_1 (outcome (on_message 2 7 second_vote candidate_1))
      refl refl refl refl
