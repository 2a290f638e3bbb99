-- ===== src/Pbft/Tests.antt =====
-- PBFTPeer.cpp in a committee of four, and the theorems there.
use quantas.Common.{
  ℕ, ◌≤◌, ◌<◌, ◌≡◌, refl, inl, inr, false, Option, some, List, [], ◌∷◌, ◌++◌, arith, length,
}
use quantas.Common.Predicates.{All, Elem}
use quantas.Pbft.{
  Request, Digests, Body, Wire, PbftConsensus, prepare, commit, pre_prepare, phase_message,
  consensus_message, prepare_phase, view_change_phase, view_change, f, quorum, leader_for,
  is_leader, next_seq, send_and_keep, same_kind, bodies, checkpoint_digests, supports,
  any_pre_prepare, has_pre_prepare, senders, count_prepares, count_commits, is_prepared,
  is_committed, tally_reaches, stable_checkpoint_ready, maybe_stable_checkpoint,
}
use quantas.Pbft.Phases.{
  to_phase, run_prepare, prepared_here, prepared_proof, first_prepared, request_view_change,
}
use quantas.Pbft.Rounds.{run_on_time, is_late, run_once, run_phase, read_message, new_consensus}
use quantas.Pbft.Returns.{run_phase-returns}
use quantas.Pbft.Returns.Measure.{pre_prepares_from, phases_left}
use quantas.Pbft.Votes.{sent, votes, allowance}
use quantas.Pbft.Runs.{
  Steps, reads, runs, done, then_step, HasOwnCommits, Steps-votes_once, is_committed-agree,
}
use quantas.Pbft.Marks.{HasMarks}
use quantas.Pbft.Confirms.{Confirms, run_once-Confirms, Steps-keep_log}
use quantas.Pbft.Proofs.{IsProven, request_view_change_proof}

abbrev digests : Digests
digests = record { digest_of = λ r. r.request_id; state_digest = length }

abbrev request_5 : Request
request_5 = record { request_id = 5; submitter_id = 2; round_submitted = 0; fault_flip = false }

abbrev body_from : ℕ → Body
body_from i = record {
  seq_num = 0;
  view = 0;
  proposal = some (record { request = request_5; view = 0 });
  from_id = i;
}

-- Peer `i` with the pre-prepare of peer 0 and the prepares of the others.
unfoldable starts : ℕ → PbftConsensus
unfolding new_consensus
starts i = record (new_consensus i 7 (0 ∷ 1 ∷ 2 ∷ 3 ∷ [])) {
  received =
      phase_message pre_prepare (body_from 0)
      ∷ phase_message prepare (body_from 1)
      ∷ phase_message prepare (body_from 2)
      ∷ phase_message prepare (body_from 3)
      ∷ [];
  phase = prepare_phase;
}

abbrev commit_from : ℕ → Option (ℕ × Wire)
commit_from i = some (7, consensus_message (phase_message commit (body_from i)))

-- It votes, and reads the commits of three of them.
unfoldable peers : ℕ → PbftConsensus
peers i = read_message 1 (commit_from 2) (
    read_message 1 (commit_from 1)
      (read_message 1 (commit_from 0) (run_once digests 1 (starts i)).0))

peers-Steps : (i : ℕ) → Steps digests (starts i) (peers i)
unfolding peers
peers-Steps i =
    then_step
      (then_step
        (then_step (then_step (done (starts i)) (runs 1 (starts i))) (reads 1 (commit_from 0) _))
        (reads 1 (commit_from 1) _))
      (reads 1 (commit_from 2) _)

run_phase-returns_example : (t : PbftConsensus) × (run_phase 12 digests 1 (starts 0) ≡ some t)
unfolding phases_left pre_prepares_from same_kind starts next_seq new_consensus
run_phase-returns_example = run_phase-returns 12 digests 1 (starts 0) (omega arith)

Steps-votes_once_example :
    (votes commit 0 0 (peers 1) ≤ allowance commit 0 0 (peers 1)) × (votes commit 0 0 (peers 1) ≤ 1)
unfolding same_kind starts new_consensus
Steps-votes_once_example = Steps-votes_once commit 0 0 refl (peers-Steps 1) refl

is_committed-agree_example : digests.digest_of request_5 ≡ 5
unfolding HasOwnCommits peers starts new_consensus read_message bodies same_kind sent is_committed
    count_commits quorum f senders supports run_once maybe_stable_checkpoint is_late run_on_time
    run_prepare to_phase send_and_keep prepared_here is_prepared has_pre_prepare any_pre_prepare
    count_prepares leader_for is_leader next_seq stable_checkpoint_ready checkpoint_digests
    tally_reaches
is_committed-agree_example =
    is_committed-agree digests 0 0 5 5 0 1 starts peers (3 ∷ []) (λ i sound. peers-Steps i)
      (λ i. refl) refl (omega arith) refl
      (inl refl, (inl refl, (inr (inl refl), (inr (inr (inl refl)), tt))))
      (inr (inl refl), (inl refl, (inr (inl refl), (inr (inr (inl refl)), tt))))
      ((λ _. inl refl), ((λ _. inl refl), ((λ _. inl refl), ((λ _. inl refl), tt))))
      ((λ _. inl refl), ((λ _. inl refl), ((λ _. inl refl), ((λ _. inl refl), tt)))) refl refl

starts-HasMarks : HasMarks (starts 0)
unfolding starts new_consensus
starts-HasMarks = record { reached = omega arith; low = refl; high = refl }

run_once-Confirms_example :
    HasMarks (run_once digests 1 (starts 0)).0
    × Confirms digests (maybe_stable_checkpoint (starts 0)) (run_once digests 1 (starts 0)).0
run_once-Confirms_example = run_once-Confirms digests 1 (starts 0) starts-HasMarks

Steps-keep_log_example :
    HasMarks (peers 0)
    × ((rs : List Request) × ((peers 0).confirmed_trans ≡ (starts 0).confirmed_trans ++ rs))
Steps-keep_log_example = Steps-keep_log (peers-Steps 0) starts-HasMarks

abbrev second_body_from : ℕ → Body
second_body_from i = record (body_from i) { seq_num = 1 }

-- A peer that has confirmed two requests, the second one not yet behind a checkpoint.
unfoldable two_confirmed : PbftConsensus
unfolding new_consensus
two_confirmed = record (new_consensus 1 7 (0 ∷ 1 ∷ 2 ∷ 3 ∷ [])) {
  confirmed_trans = request_5 ∷ request_5 ∷ [];
  received =
      phase_message pre_prepare (second_body_from 0)
      ∷ phase_message prepare (second_body_from 1)
      ∷ phase_message prepare (second_body_from 2)
      ∷ phase_message prepare (second_body_from 3)
      ∷ [];
}

two_confirmed_proof : prepared_proof digests 0 1 1 two_confirmed ≡ second_body_from 0 ∷ []
unfolding prepared_proof first_prepared two_confirmed new_consensus bodies same_kind is_prepared
    has_pre_prepare any_pre_prepare count_prepares senders supports leader_for is_leader quorum f
two_confirmed_proof = refl

request_view_change_proof_example :
    ((request_view_change digests 11 two_confirmed).view ≡ 1)
    × ((request_view_change digests 11 two_confirmed).phase ≡ view_change_phase)
    × ((proof : List Body) × ((request_view_change digests 11 two_confirmed).outbox
          ≡ [] ++ consensus_message (view_change 0 0 1 0 proof 1) ∷ [])
        × All (λ b. IsProven digests 0 two_confirmed b × (0 < b.seq_num) × (b.seq_num < 2)) proof
        × ((b : Body)
            → IsProven digests 0 two_confirmed b
            → 0 < b.seq_num
            → b.seq_num < 2
            → (c : Body) × Elem c proof × (c.seq_num ≡ b.seq_num)))
unfolding two_confirmed new_consensus next_seq
request_view_change_proof_example = request_view_change_proof digests 11 two_confirmed
