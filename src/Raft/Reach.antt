-- ===== src/Raft/Reach.antt =====
-- RaftPeer.cpp: what a peer comes through as it reads messages and ticks.
use quantas.Common.{ℕ, ◌≤◌, ◌≡◌, refl, inl, some, List, [], length, true, arith}
use quantas.Common.Predicates.{All, Elem, AllDiff, pigeonhole}
use quantas.Raft.{Message, RaftConsensus, has_quorum, quorum_threshold}
use quantas.Raft.Outbox.{votes_sent}
use quantas.Raft.Handlers.{on_message, tick}
use quantas.Raft.Elections.{VotedOnce, Elected, elected, Elected-trans}
use quantas.Raft.Messages.{on_message-Elected, tick-Elected}

-- One call of a handler that returned, in some round.
pub data Step : RaftConsensus → RaftConsensus → Type 0 where
  reads :
      (fuel round : ℕ) (m : Message) {s t : RaftConsensus}
      → on_message fuel round m s ≡ some t
      → Step s t
  ticks : (fuel round : ℕ) {s t : RaftConsensus} → tick fuel round s ≡ some t → Step s t

pub data Steps : RaftConsensus → RaftConsensus → Type 0 where
  done : {s : RaftConsensus} → Steps s s
  then_step : {s t u : RaftConsensus} → Steps s t → Step t u → Steps s u

Step-Elected : {s t : RaftConsensus} → Step s t → Elected s t
Step-Elected (reads fuel round m {s} {t} e) = on_message-Elected fuel round m s t e
Step-Elected (ticks fuel round {s} {t} e) = tick-Elected fuel round s t e

pub Steps-Elected : {s t : RaftConsensus} → Steps s t → Elected s t
Steps-Elected (done {s}) = elected s s refl refl (omega arith) (inl refl) refl
Steps-Elected (then_step steps step) = Elected-trans (Steps-Elected steps) (Step-Elected step)

-- From a state in which a peer has sent no vote, whatever messages it reads and however often it
-- ticks, it never votes twice in one term, and no vote that it has sent is for a term ahead of its
-- own.
pub Steps-VotedOnce :
    {s t : RaftConsensus}
    → Steps s t
    → votes_sent s.outbox ≡ []
    → AllDiff (votes_sent t.outbox) × All (λ n. n ≤ t.term) (votes_sent t.outbox)
Steps-VotedOnce {s} {t} steps none_sent =
    let start : VotedOnce s = record {
      sent_differ = rw none_sent tt;
      sent_old = rw none_sent tt;
    } in
    let now = (Steps-Elected steps).voted_once start in (now.sent_differ, now.sent_old)

-- Whatever messages a peer reads and however often it ticks, its term does not fall, and the voters
-- that it has counted stay different from one another.
pub Steps-monotone :
    {s t : RaftConsensus} → Steps s t → AllDiff s.votes → (s.term ≤ t.term) × AllDiff t.votes
Steps-monotone steps diff = let f = Steps-Elected steps in (f.term_grows, f.votes_differ diff)

-- Two quorums of one committee, each of different members, have a member in common.
pub quorums_meet :
    (s : RaftConsensus) (xs ys : List ℕ)
    → AllDiff xs
    → AllDiff ys
    → All (λ x. Elem x s.members) xs
    → All (λ y. Elem y s.members) ys
    → has_quorum (length xs) s ≡ true
    → has_quorum (length ys) s ≡ true
    → (a : ℕ) × Elem a xs × Elem a ys
unfolding has_quorum quorum_threshold
quorums_meet s xs ys xs_diff ys_diff xs_in ys_in xs_quorum ys_quorum =
    pigeonhole xs ys s.members xs_diff ys_diff xs_in ys_in (ground arith)
