-- ===== src/Raft/Elections.antt =====
-- RaftPeer.cpp: terms, votes, leaders and quorums over whole messages.
use quantas.Common.{
  ℕ, ◌≤◌, ◌<◌, ◌≡◌, refl, ◌∙◌, ◌⊎◌, inl, inr, Bool, Option, none, some, [], ◌∷◌, ◌++◌, arith, leb,
  Bool-cases,
}
use quantas.Common.Predicates.{All-mono, All-concat, contains-above, All, AllDiff, AllDiff-concat}
use quantas.Raft.{
  unicast_to, multicast_to, Request, RaftConsensus, respond_request, vote_message, commit_message,
  reset_timer, reset_replication_state, enqueue_deferred, send,
}
use quantas.Raft.Replication.{apply_commit, commit_request}
use quantas.Raft.Handlers.{
  follow, answer_request, handle_request, vote_for, handle_elect, handle_commit,
}
use quantas.Raft.Outbox.{vote_term, votes_sent, votes_sent-other, votes_sent-vote}
use quantas.Raft.Terms.{Started}

-- The votes that a peer has sent are for different terms, none of them ahead of its own.
pub record VotedOnce (s : RaftConsensus) : Type 0 where
  pub sent_differ : AllDiff (votes_sent s.outbox)
  pub sent_old : All (λ t. t ≤ s.term) (votes_sent s.outbox)

-- What a message does to the term and the votes: the term does not fall, no voter is counted twice,
-- and no term is voted in twice.
pub record Elected (s t : RaftConsensus) : Type 0 where
  pub same_id : t.public_id ≡ s.public_id
  pub same_members : t.members ≡ s.members
  pub term_grows : s.term ≤ t.term
  pub votes_differ : AllDiff s.votes → AllDiff t.votes
  pub voted_once : VotedOnce s → VotedOnce t

pub Elected-trans : {s t u : RaftConsensus} → Elected s t → Elected t u → Elected s u
Elected-trans f g = record {
  same_id = g.same_id ∙ f.same_id;
  same_members = g.same_members ∙ f.same_members;
  term_grows = omega (arith, f.term_grows, g.term_grows);
  votes_differ = λ d. g.votes_differ (f.votes_differ d);
  voted_once = λ v. g.voted_once (f.voted_once v);
}

-- What sends no vote.
pub VotedOnce-same :
    (s t : RaftConsensus)
    → s.term ≤ t.term
    → votes_sent t.outbox ≡ votes_sent s.outbox
    → VotedOnce s
    → VotedOnce t
VotedOnce-same s t le e v = record {
  sent_differ = rw e v.sent_differ;
  sent_old = rw e (
      All-mono (λ n. n ≤ s.term) (λ n. n ≤ t.term) (votes_sent s.outbox)
        (λ n h. omega (arith, h, le)) v.sent_old);
}

pub Elected-of_Started : {s t : RaftConsensus} → Started s t → Elected s t
Elected-of_Started {s} {t} f = record {
  same_id = f.same_id;
  same_members = f.same_members;
  term_grows = omega (arith, f.same_term);
  votes_differ = λ d. rw f.same_votes d;
  voted_once = VotedOnce-same s t (omega (arith, f.same_term)) f.same_sent;
}

-- A step that keeps the votes or clears them.
pub elected :
    (s t : RaftConsensus)
    → t.public_id ≡ s.public_id
    → t.members ≡ s.members
    → s.term ≤ t.term
    → (t.votes ≡ s.votes) ⊎ (t.votes ≡ [])
    → votes_sent t.outbox ≡ votes_sent s.outbox
    → Elected s t
elected s t id ms le v sent = record {
  same_id = id;
  same_members = ms;
  term_grows = le;
  votes_differ = λ d. elim v [ inl e ↦ rw e d | inr e ↦ rw e tt ];
  voted_once = VotedOnce-same s t le sent;
}

follow-Elected :
    (round term sender : ℕ) (s : RaftConsensus) → Elected s (follow round term sender s)
unfolding follow reset_timer reset_replication_state
follow-Elected round term sender s =
    elected s (follow round term sender s) (ground arith) (ground arith) (ground arith)
      (ground arith) (ground arith)

answer_request-Elected :
    (sender : ℕ) (r : Request) (s : RaftConsensus) → Elected s (answer_request sender r s)
unfolding answer_request enqueue_deferred send vote_term
answer_request-Elected sender r s =
    let x = unicast_to sender (respond_request (some s.public_id) s.term r) in
    elected s (answer_request sender r s) (ground arith) (ground arith) (ground arith)
      (ground arith) (ground (arith, votes_sent-other s.outbox x refl))

pub handle_request-Elected :
    (round : ℕ) (term from : Option ℕ) (r : Request) (s : RaftConsensus)
    → Elected s (handle_request round term from r s)
unfolding handle_request
handle_request-Elected round none from r s = elected s s refl refl (omega arith) (inl refl) refl
handle_request-Elected round (some t) none r s = elected s s refl refl (omega arith) (inl refl) refl
handle_request-Elected round (some t) (some sender) r s =
    Elected-trans (follow-Elected round t sender s)
      (answer_request-Elected sender r (follow round t sender s))

apply_commit-Elected :
    (r : Request) (submitted committed : ℕ) (skip : Bool) (s : RaftConsensus)
    → Elected s (apply_commit r submitted committed skip s)
unfolding apply_commit
apply_commit-Elected r submitted committed skip s =
    elected s (apply_commit r submitted committed skip s) (ground arith) (ground arith)
      (ground arith) (ground arith) (ground arith)

pub commit_request-Elected :
    (round : ℕ) (r : Request) (submitted : ℕ) (s : RaftConsensus)
    → Elected s (commit_request round r submitted s)
unfolding commit_request apply_commit send vote_term
commit_request-Elected round r submitted s =
    let x =
      multicast_to s.members
        (commit_message (some s.public_id) (some s.term) (some submitted) (some round) r) in
    elected s (commit_request round r submitted s) (ground arith) (ground arith) (ground arith)
      (ground arith) (ground (arith, votes_sent-other s.outbox x refl))

pub handle_commit-Elected :
    (round : ℕ) (from term submitted committed : Option ℕ) (r : Request) (s : RaftConsensus)
    → Elected s (handle_commit round from term submitted committed r s)
unfolding handle_commit apply_commit
handle_commit-Elected round from term submitted committed r s =
    let t = handle_commit round from term submitted committed r s in
    elected s t (ground arith) (ground arith) (ground arith) (ground arith) (ground arith)

-- A vote is for a later term than those before it.
vote_for-VotedOnce :
    (round term sender : ℕ) (s : RaftConsensus)
    → s.term < term
    → VotedOnce s
    → VotedOnce (vote_for round term sender s)
unfolding vote_for reset_timer reset_replication_state send vote_term
vote_for-VotedOnce round term sender s later v =
    let x = unicast_to sender (vote_message (some sender) (some s.public_id) term) in
    let sent : votes_sent (vote_for round term sender s).outbox ≡ votes_sent s.outbox ++ term ∷ [] =
      ground (arith, votes_sent-vote s.outbox x term refl) in
    let now : (vote_for round term sender s).term ≡ term = ground arith in
    record {
      sent_differ = rw sent (
          AllDiff-concat (votes_sent s.outbox) term v.sent_differ
            (contains-above term (votes_sent s.outbox) s.term later v.sent_old));
      sent_old =
          rw (sent, now)
            (All-concat (λ n. n ≤ term) (votes_sent s.outbox) term
              (All-mono (λ n. n ≤ s.term) (λ n. n ≤ term) (votes_sent s.outbox)
                (λ n h. omega (arith, h, later)) v.sent_old)
              (omega arith));
    }

vote_for-Elected :
    (round term sender : ℕ) (s : RaftConsensus)
    → s.term < term
    → Elected s (vote_for round term sender s)
unfolding vote_for reset_timer reset_replication_state send vote_term
vote_for-Elected round term sender s later = record {
  same_id = ground arith;
  same_members = ground arith;
  term_grows = ground arith;
  votes_differ = λ d.
      let none_left : (vote_for round term sender s).votes ≡ [] = ground arith in rw none_left tt;
  voted_once = vote_for-VotedOnce round term sender s later;
}

pub handle_elect-Elected :
    (round : ℕ) (term from : Option ℕ) (s : RaftConsensus)
    → Elected s (handle_elect round term from s)
unfolding handle_elect
handle_elect-Elected round none from s = elected s s refl refl (omega arith) (inl refl) refl
handle_elect-Elected round (some t) none s =
    elected s (handle_elect round (some t) none s) (ground arith) (ground arith) (ground arith)
      (ground arith) (ground arith)
handle_elect-Elected round (some t) (some sender) s = elim (Bool-cases (leb t s.term)) [
  | inl old ↦ rw old (elected s s refl refl (omega arith) (inl refl) refl)
  | inr later ↦ rw later (vote_for-Elected round t sender s (ground arith))
]
