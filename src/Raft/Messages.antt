-- ===== src/Raft/Messages.antt =====
-- RaftPeer.cpp: terms and votes over whole messages and ticks.
use quantas.Common.{
  ℕ, ◌+◌, ◌≡◌, refl, subst, ◌⊎◌, inl, inr, false, ◌&&◌, Option, none, some, [], ◌∷◌, ◌++◌, arith,
  length, ◌==◌, Bool-cases, Option-cases, eq_of_some,
}
use quantas.Common.Predicates.{AllDiff-concat}
use quantas.Common.Sets.{contains}
use quantas.Common.Maps.{value_or}
use quantas.Raft.{
  first_draw, rest_draws, multicast_to, TxKey, Request, Message, RaftConsensus, request_message,
  respond_request, vote_message, elect_message, commit_message, client_request, extract_key, is_key,
  is_peer, has_quorum, reset_timer, reset_replication_state, send, find_key, set_key,
}
use quantas.Raft.Replication.{
  own_request, count_own, try_start_replication, on_client_request, confirm_request,
  try_forward_deferred_requests,
}
use quantas.Raft.Handlers.{
  add_reply, handle_respond, take_lead, become_leader, count_vote, handle_vote, on_message,
  maybe_start_election, maybe_generate_client_request, tick, count_vote,
}
use quantas.Raft.Outbox.{vote_term, votes_sent-other}
use quantas.Raft.Fuel.{Forwarded, try_forward-Forwarded}
use quantas.Raft.Terms.{try_start-Started, client_request_with-Started}
use quantas.Raft.Elections.{
  Elected, elected, Elected-trans, Elected-of_Started, VotedOnce-same, handle_request-Elected,
  commit_request-Elected, handle_commit-Elected, handle_elect-Elected,
}

add_reply-Elected :
    (fuel round : ℕ) (key : TxKey) (sender : ℕ) (r : Request) (s t : RaftConsensus)
    → add_reply fuel round key sender r s ≡ some t
    → Elected s t
unfolding add_reply confirm_request
add_reply-Elected fuel round key sender r s t e =
    let responders = value_or [] (find_key key s.replies) in
    let touched : RaftConsensus = record s { replies = set_key key responders s.replies } in
    let replied : RaftConsensus = record s {
      replies = set_key key (responders ++ sender ∷ []) s.replies;
    } in
    let submitted = value_or (value_or round r.round_submitted) (find_key key s.submitted_round) in
    let start = elected s replied refl refl (omega arith) (inl refl) refl in
    elim (Bool-cases (contains sender responders)) [
      | inl again ↦
          subst (Elected s) (eq_of_some touched t (rw again at e))
            (elected s touched refl refl (omega arith) (inl refl) refl)
      | inr new ↦ elim (Bool-cases (has_quorum (length (responders ++ sender ∷ [])) replied)) [
        | inl quorum ↦ Elected-trans start (
            Elected-trans (commit_request-Elected round r submitted replied)
              (Elected-of_Started (try_start-Started fuel round _ t (rw (new, quorum) at e))))
        | inr few ↦ subst (Elected s) (eq_of_some replied t (rw (new, few) at e)) start
      ]
    ]

handle_respond-Elected :
    (fuel round : ℕ) (from : Option ℕ) (r : Request) (s t : RaftConsensus)
    → handle_respond fuel round from r s ≡ some t
    → Elected s t
unfolding handle_respond
handle_respond-Elected fuel round from r s t e =
    let unchanged = elected s s refl refl (omega arith) (inl refl) refl in
    let same = (λ (h : some s ≡ some t). subst (Elected s) (eq_of_some s t h) unchanged) in
    elim (Bool-cases (is_peer s.public_id s.leader_id)) [
      | inr follows ↦ same (rw follows at e)
      | inl leads ↦ elim (Option-cases (extract_key r)) [
        | inl invalid ↦ same (rw (leads, invalid, handle_respond) at e)
        | inr (key, valid) ↦ elim (Bool-cases (s.has_in_flight && is_key key s.in_flight_key)) [
          | inr other ↦ same (rw (leads, valid, other, handle_respond) at e)
          | inl mine ↦ elim (Option-cases from) [
            | inl nobody ↦ same (rw (leads, valid, mine, nobody, handle_respond) at e)
            | inr (sender, someone) ↦
                add_reply-Elected fuel round key sender r s t
                  (rw (leads, valid, mine, someone, handle_respond) at e)
          ]
        ]
      ]
    ]

take_lead-Elected : (round : ℕ) (s : RaftConsensus) → Elected s (take_lead round s)
unfolding take_lead reset_timer reset_replication_state
take_lead-Elected round s =
    elected s (take_lead round s) (ground arith) (ground arith) (ground arith) (ground arith)
      (ground arith)

Elected-of_Forwarded : {s t : RaftConsensus} → Forwarded s t → Elected s t
Elected-of_Forwarded {s} {t} f = record {
  same_id = f.same_id;
  same_members = f.same_members;
  term_grows = omega (arith, f.same_term);
  votes_differ = λ d. rw f.same_votes d;
  voted_once = VotedOnce-same s t (omega (arith, f.same_term)) f.same_sent;
}

become_leader-Elected : (round : ℕ) (s : RaftConsensus) → Elected s (become_leader round s)
unfolding become_leader
become_leader-Elected round s =
    Elected-trans (take_lead-Elected round s)
      (Elected-of_Forwarded (try_forward-Forwarded (take_lead round s)))

vote-Elected :
    (sender : ℕ) (s : RaftConsensus)
    → contains sender s.votes ≡ false
    → Elected s (record s { votes = s.votes ++ sender ∷ [] })
vote-Elected sender s new = record {
  same_id = refl;
  same_members = refl;
  term_grows = omega arith;
  votes_differ = λ d. AllDiff-concat s.votes sender d new;
  voted_once = VotedOnce-same s (record s { votes = s.votes ++ sender ∷ [] }) (omega arith) refl;
}

count_vote-Elected :
    (fuel round sender : ℕ) (s t : RaftConsensus)
    → count_vote fuel round sender s ≡ some t
    → Elected s t
unfolding count_vote
count_vote-Elected fuel round sender s t e =
    let voted : RaftConsensus = record s { votes = s.votes ++ sender ∷ [] } in
    elim (Bool-cases (contains sender s.votes)) [
      | inl again ↦
          subst (Elected s) (eq_of_some s t (rw again at e))
            (elected s s refl refl (omega arith) (inl refl) refl)
      | inr new ↦ elim (Bool-cases (has_quorum (length voted.votes) voted)) [
        | inl quorum ↦ Elected-trans (vote-Elected sender s new) (
            Elected-trans (become_leader-Elected round voted)
              (Elected-of_Started (try_start-Started fuel round _ t (rw (new, quorum) at e))))
        | inr few ↦
            subst (Elected s) (eq_of_some voted t (rw (new, few) at e)) (vote-Elected sender s new)
      ]
    ]

-- `handleVote` does nothing, or it counts the vote of a sender.
pub handle_vote_cases :
    (fuel round : ℕ) (trans from : Option ℕ) (s t : RaftConsensus)
    → handle_vote fuel round trans from s ≡ some t
    → (s ≡ t) ⊎ ((sender : ℕ) × (from ≡ some sender) × (count_vote fuel round sender s ≡ some t))
unfolding handle_vote
handle_vote_cases fuel round trans from s t e =
    elim (Bool-cases (is_peer s.public_id s.leader_id)) [
      | inl leads ↦ inl (eq_of_some s t (rw leads at e))
      | inr follows ↦ elim (Bool-cases (is_peer s.public_id trans)) [
        | inr other ↦ inl (eq_of_some s t (rw (follows, other) at e))
        | inl mine ↦ elim (Option-cases from) [
          | inl nobody ↦ inl (eq_of_some s t (rw (follows, mine, nobody, handle_vote) at e))
          | inr (sender, someone) ↦
              inr (sender, someone, rw (follows, mine, someone, handle_vote) at e)
        ]
      ]
    ]

on_client_request-Elected :
    (fuel round : ℕ) (r : Request) (s t : RaftConsensus)
    → on_client_request fuel round r s ≡ some t
    → Elected s t
unfolding on_client_request
on_client_request-Elected fuel round r s t e = Elected-of_Started (
    client_request_with-Started (try_start_replication fuel round) round r s t
      (λ u v. try_start-Started fuel round u v) e)

-- Whatever message a peer handles, its term does not fall, no voter is counted twice, and the peer
-- stays who it is, in the committee that it is in.
pub on_message-Elected :
    (fuel round : ℕ) (m : Message) (s t : RaftConsensus)
    → on_message fuel round m s ≡ some t
    → Elected s t
unfolding on_message
on_message-Elected fuel round (request_message term from r) s t e =
    subst (Elected s) (eq_of_some _ t e) (handle_request-Elected round term from r s)
on_message-Elected fuel round (respond_request from term r) s t e =
    handle_respond-Elected fuel round from r s t e
on_message-Elected fuel round (vote_message trans from term) s t e =
    elim (handle_vote_cases fuel round trans from s t e) [
      | inl same ↦ subst (Elected s) same (elected s s refl refl (omega arith) (inl refl) refl)
      | inr (sender, someone, counted) ↦ count_vote-Elected fuel round sender s t counted
    ]
on_message-Elected fuel round (elect_message term from) s t e =
    subst (Elected s) (eq_of_some _ t e) (handle_elect-Elected round term from s)
on_message-Elected fuel round (commit_message from term submitted committed r) s t e =
    subst (Elected s) (eq_of_some _ t e)
      (handle_commit-Elected round from term submitted committed r s)
on_message-Elected fuel round (client_request r) s t e =
    on_client_request-Elected fuel round r s t e

maybe_start_election-Elected :
    (round : ℕ) (s : RaftConsensus) → Elected s (maybe_start_election round s)
unfolding maybe_start_election reset_timer reset_replication_state send vote_term
maybe_start_election-Elected round s =
    let x = multicast_to s.members (elect_message (some (s.term + 1)) (some s.public_id)) in
    elected s (maybe_start_election round s) (ground arith) (ground arith) (ground arith)
      (ground arith) (ground (arith, votes_sent-other s.outbox x refl))

maybe_generate-Elected :
    (fuel round : ℕ) (s t : RaftConsensus)
    → maybe_generate_client_request fuel round s ≡ some t
    → Elected s t
unfolding maybe_generate_client_request count_own
maybe_generate-Elected fuel round s t e =
    let drawn : RaftConsensus = record s { draws = rest_draws s.draws } in
    elim (Bool-cases (s.submit_rate == 0)) [
      | inl off ↦
          subst (Elected s) (eq_of_some s t (rw off at e))
            (elected s s refl refl (omega arith) (inl refl) refl)
      | inr on ↦ elim (Bool-cases (first_draw s.draws == 0)) [
        | inl due ↦
            Elected-trans (elected s (count_own drawn) refl refl (omega arith) (inl refl) refl) (
              on_client_request-Elected fuel round (own_request round drawn) (count_own drawn) t
                (rw (on, due) at e))
        | inr not_due ↦
            subst (Elected s) (eq_of_some drawn t (rw (on, not_due) at e))
              (elected s drawn refl refl (omega arith) (inl refl) refl)
      ]
    ]

-- A tick keeps what a message keeps.
pub tick-Elected : (fuel round : ℕ) (s t : RaftConsensus) → tick fuel round s ≡ some t → Elected s t
unfolding tick
tick-Elected fuel round s t e = elim (Option-cases (maybe_generate_client_request fuel round s)) [
  | inl out ↦ absurd (let h : none ≡ some t = rw (out, tick) at e in cc h)
  | inr (u, made) ↦
      let stood = maybe_start_election round u in
      let same : try_forward_deferred_requests stood ≡ t = eq_of_some _ t (rw (made, tick) at e) in
      subst (Elected s) same (
        Elected-trans (maybe_generate-Elected fuel round s u made) (
          Elected-trans (maybe_start_election-Elected round u)
            (Elected-of_Forwarded (try_forward-Forwarded stood))))
]
