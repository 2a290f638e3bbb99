-- ===== src/Raft/Leaders.antt =====
-- RaftPeer.cpp: how a peer comes to lead.
use quantas.Common.{
  ℕ, ◌+◌, ◌≡◌, refl, sym, subst, ◌∙◌, inl, inr, Bool, true, false, Option, none, some, [], ◌∷◌,
  ◌++◌, arith, length, length-append, Bool-cases, eq_of_some,
}
use quantas.Common.Sets.{contains}
use quantas.Raft.{
  Request, Message, RaftConsensus, request_message, respond_request, vote_message, elect_message,
  commit_message, client_request, is_peer, has_quorum, quorum_threshold, reset_timer,
  reset_replication_state, enqueue_deferred, send,
}
use quantas.Raft.Replication.{try_start_replication, on_client_request, apply_commit}
use quantas.Raft.Handlers.{
  follow, answer_request, handle_request, handle_respond, count_vote, handle_elect, handle_commit,
  on_message,
}
use quantas.Raft.Terms.{Started, try_start-Started, client_request_with-Started}
use quantas.Raft.Messages.{handle_vote_cases}

abbrev pub leads : RaftConsensus → Bool
leads s = is_peer s.public_id s.leader_id

-- A request by which a peer would follow itself.
abbrev pub claims_from : ℕ → Message → Bool
claims_from n (request_message term from r) = is_peer n from
claims_from n (respond_request from term r) = false
claims_from n (vote_message trans from term) = false
claims_from n (elect_message term from) = false
claims_from n (commit_message from term submitted committed r) = false
claims_from n (client_request r) = false

-- Who votes by a message.
abbrev pub voter : Message → Option ℕ
voter (request_message term from r) = none
voter (respond_request from term r) = none
voter (vote_message trans from term) = from
voter (elect_message term from) = none
voter (commit_message from term submitted committed r) = none
voter (client_request r) = none

handle_request-leads :
    (round : ℕ) (term from : Option ℕ) (r : Request) (s : RaftConsensus)
    → leads s ≡ false
    → is_peer s.public_id from ≡ false
    → leads (handle_request round term from r s) ≡ false
unfolding handle_request follow answer_request reset_timer reset_replication_state enqueue_deferred
    send is_peer
handle_request-leads round none from r s idle other = idle
handle_request-leads round (some t) none r s idle other = idle
handle_request-leads round (some t) (some sender) r s idle other = ground arith

handle_elect-leads :
    (round : ℕ) (term from : Option ℕ) (s : RaftConsensus)
    → leads s ≡ false
    → leads (handle_elect round term from s) ≡ false
unfolding handle_elect reset_timer reset_replication_state send is_peer
handle_elect-leads round term from s idle = ground arith

handle_commit-leads :
    (round : ℕ) (from term submitted committed : Option ℕ) (r : Request) (s : RaftConsensus)
    → leads s ≡ false
    → leads (handle_commit round from term submitted committed r s) ≡ false
unfolding handle_commit apply_commit is_peer
handle_commit-leads round from term submitted committed r s idle = ground arith

contradiction {ℓ} :
    {P : Type ℓ} → (s t : RaftConsensus) → s ≡ t → leads s ≡ false → leads t ≡ true → P
contradiction s t same idle leading =
    absurd (let h : true ≡ false = sym leading ∙ subst (λ u. leads u ≡ false) same idle in cc h)

-- The vote that makes a peer lead is the one that makes the quorum.
count_vote-leads :
    (fuel round sender : ℕ) (s t : RaftConsensus)
    → count_vote fuel round sender s ≡ some t
    → leads s ≡ false
    → leads t ≡ true
    → (contains sender s.votes ≡ false) × (has_quorum (length s.votes + 1) s ≡ true)
unfolding count_vote has_quorum quorum_threshold
count_vote-leads fuel round sender s t e idle leading =
    let voted : RaftConsensus = record s { votes = s.votes ++ sender ∷ [] } in
    elim (Bool-cases (contains sender s.votes)) [
      | inl again ↦ contradiction s t (eq_of_some s t (rw again at e)) idle leading
      | inr new ↦ elim (Bool-cases (has_quorum (length voted.votes) voted)) [
        | inl quorum ↦ (new, ground (arith, quorum, length-append s.votes (sender ∷ [])))
        | inr few ↦ contradiction voted t (eq_of_some voted t (rw (new, few) at e)) idle leading
      ]
    ]

on_client_request-Started :
    (fuel round : ℕ) (r : Request) (s t : RaftConsensus)
    → on_client_request fuel round r s ≡ some t
    → Started s t
unfolding on_client_request
on_client_request-Started fuel round r s t e =
    client_request_with-Started (try_start_replication fuel round) round r s t
      (λ u v. try_start-Started fuel round u v) e

-- A peer that does not lead comes to lead by a message only if that message is a request in its own
-- name, or a vote of a sender that it has not counted yet and whose vote makes the quorum.
pub on_message-leads :
    (fuel round : ℕ) (m : Message) (s t : RaftConsensus)
    → on_message fuel round m s ≡ some t
    → leads s ≡ false
    → leads t ≡ true
    → claims_from s.public_id m ≡ false
    → (sender : ℕ) × (voter m ≡ some sender)
      × (contains sender s.votes ≡ false)
      × (has_quorum (length s.votes + 1) s ≡ true)
unfolding on_message handle_respond
on_message-leads fuel round (request_message term from r) s t e idle leading other =
    contradiction (handle_request round term from r s) t (eq_of_some _ t e)
      (handle_request-leads round term from r s idle other) leading
on_message-leads fuel round (respond_request from term r) s t e idle leading other =
    contradiction s t (eq_of_some s t (rw (idle, handle_respond) at e)) idle leading
on_message-leads fuel round (vote_message trans from term) s t e idle leading other =
    elim (handle_vote_cases fuel round trans from s t e) [
      | inl same ↦ contradiction s t same idle leading
      | inr (sender, someone, counted) ↦
          let quorum = count_vote-leads fuel round sender s t counted idle leading in
          (sender, someone, quorum.0, quorum.1)
    ]
on_message-leads fuel round (elect_message term from) s t e idle leading other =
    contradiction (handle_elect round term from s) t (eq_of_some _ t e)
      (handle_elect-leads round term from s idle) leading
on_message-leads fuel round (commit_message from term submitted committed r) s t e idle leading
      other =
    contradiction (handle_commit round from term submitted committed r s) t (eq_of_some _ t e)
      (handle_commit-leads round from term submitted committed r s idle) leading
on_message-leads fuel round (client_request r) s t e idle leading other =
    let f = on_client_request-Started fuel round r s t e in
    contradiction t t refl (rw (f.same_id, f.same_leader) idle) leading
