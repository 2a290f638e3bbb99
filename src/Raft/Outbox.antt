-- ===== src/Raft/Outbox.antt =====
-- RaftPeer.cpp: the votes among the messages that a peer has sent.
use quantas.Common.{ℕ, ◌≡◌, Option, none, some, List, [], ◌∷◌, ◌++◌, arith}
use quantas.Raft.{
  Send, request_message, respond_request, vote_message, elect_message, commit_message,
  client_request, unicast_to, multicast_to,
}

-- The term of a vote.
unfoldable pub vote_term : Send → Option ℕ
vote_term (unicast_to n (vote_message trans from t)) = some t
vote_term (unicast_to n (request_message term from r)) = none
vote_term (unicast_to n (respond_request from t r)) = none
vote_term (unicast_to n (elect_message term from)) = none
vote_term (unicast_to n (commit_message from term submitted committed r)) = none
vote_term (unicast_to n (client_request r)) = none
vote_term (multicast_to ns m) = none

-- The terms of the votes that were sent.
unfoldable pub votes_sent : List Send → List ℕ
votes_sent [] = []
votes_sent (x ∷ xs) = elim (vote_term x) [ none ↦ votes_sent xs | some t ↦ t ∷ votes_sent xs ]

pub votes_sent-other :
    (xs : List Send) (x : Send) → vote_term x ≡ none → votes_sent (xs ++ x ∷ []) ≡ votes_sent xs
unfolding votes_sent
votes_sent-other [] x e = ground arith
votes_sent-other (y ∷ ys) x e = ground (arith, votes_sent-other ys x e)

pub votes_sent-vote :
    (xs : List Send) (x : Send) (t : ℕ)
    → vote_term x ≡ some t
    → votes_sent (xs ++ x ∷ []) ≡ votes_sent xs ++ t ∷ []
unfolding votes_sent
votes_sent-vote [] x t e = ground arith
votes_sent-vote (y ∷ ys) x t e = ground (arith, votes_sent-vote ys x t e)
