-- ===== src/Pbft/Frugal/Parts.antt =====
-- PBFTPeer.cpp: the votes of a message, of a vote and of a request.
use quantas.Common.{
  ℕ, ◌≡◌, refl, ap, ◌∙◌, inl, inr, Bool, true, false, List, [], ◌∷◌, ◌++◌, arith, length,
  Bool-cases, List-cases,
}
use quantas.Pbft.{
  Request, Body, Kind, Message, Wire, Phase, PbftConsensus, pre_prepare, phase_message,
  client_request, next_seq, send_and_keep, same_kind, bodies, submit_request,
}
use quantas.Pbft.Phases.{to_phase, with_request}
use quantas.Pbft.Votes.{
  sent, votes, is_past, allowance, IsFrugal, sent-append, length-bodies, votes-send_and_keep,
  own_vote,
}

Kind-of_same_kind : (k j : Kind) → same_kind k j ≡ true → k ≡ j
unfolding same_kind
Kind-of_same_kind k j e = ground (arith, e)

-- The vote of a phase, cast once and before its end.
pub vote-IsFrugal :
    (k j : Kind) (p : Phase) (b : Body) (s : PbftConsensus)
    → IsFrugal k s
    → b.seq_num ≡ next_seq s
    → b.view ≡ s.view
    → is_past j s.phase ≡ false
    → is_past j p ≡ true
    → (is_past k s.phase ≡ true → is_past k p ≡ true)
    → IsFrugal k (record (send_and_keep (phase_message j b) s) { phase = p })
unfolding IsFrugal allowance votes send_and_keep next_seq is_past
vote-IsFrugal k j p b s inv at_seq at_view before after more n v =
    let count = votes-send_and_keep k n v (phase_message j b) s in
    elim (Bool-cases (same_kind k j)) [
      | inl own ↦
          let same = Kind-of_same_kind k j own in
          ground (arith, inv n v, count, own_vote k j n v b, at_seq, at_view, before, after, same)
      | inr other ↦ ground (arith, inv n v, count, own_vote k j n v b, other, more)
    ]

-- A message of another kind, in a phase that has no votes of this kind behind it.
pub other-IsFrugal :
    (k : Kind) (p : Phase) (m : Message) (s : PbftConsensus)
    → IsFrugal k s
    → ((n v : ℕ) → length (bodies k n v (m ∷ [])) ≡ 0)
    → (is_past k s.phase ≡ true → is_past k p ≡ true)
    → IsFrugal k (record (send_and_keep m s) { phase = p })
unfolding IsFrugal allowance votes send_and_keep next_seq
other-IsFrugal k p m s inv other more n v =
    ground (arith, inv n v, votes-send_and_keep k n v m s, other n v, more)

pub pre_prepare-no_vote :
    (k : Kind) (n v : ℕ) (b : Body)
    → same_kind k pre_prepare ≡ false
    → length (bodies k n v (phase_message pre_prepare b ∷ [])) ≡ 0
pre_prepare-no_vote k n v b vote = ground (arith, own_vote k pre_prepare n v b, vote)

-- A phase without a message.
pub to_phase-IsFrugal :
    (k : Kind) (p : Phase) (again : Bool) (s : PbftConsensus)
    → IsFrugal k s
    → (is_past k s.phase ≡ true → is_past k p ≡ true)
    → IsFrugal k (to_phase p again s).0
unfolding IsFrugal allowance votes next_seq to_phase
to_phase-IsFrugal k p again s inv more n v = ground (arith, inv n v, more)

-- A request of a client is no vote.
votes-client_request :
    (k : Kind) (n v : ℕ) (ws : List Wire) (r : Request)
    → length (bodies k n v (sent (ws ++ client_request r ∷ []))) ≡ length (bodies k n v (sent ws))
unfolding sent bodies
votes-client_request k n v ws r =
    ap (λ ms. length (bodies k n v ms)) (sent-append ws (client_request r ∷ []))
    ∙ omega (arith, length-bodies k n v (sent ws) [])

pub with_request-IsFrugal :
    (round : ℕ) (k : Kind) (s : PbftConsensus) → IsFrugal k s → IsFrugal k (with_request round s)
unfolding with_request submit_request IsFrugal votes allowance next_seq
with_request-IsFrugal round k s inv n v = elim (List-cases s.unhandled_requests) [
  | inl e ↦
      let r : Request = record {
        request_id = s.current_client_request_id;
        submitter_id = s.public_id;
        round_submitted = round;
        fault_flip = false;
      } in
      ground (arith, inv n v, e, votes-client_request k n v s.outbox r)
  | inr (r, rs, e) ↦ ground (arith, inv n v, e)
]

pub with_request-phase : (round : ℕ) (s : PbftConsensus) → (with_request round s).phase ≡ s.phase
unfolding with_request submit_request
with_request-phase round s = elim (List-cases s.unhandled_requests) [
  | inl e ↦ rw (e, with_request) refl
  | inr (r, rs, e) ↦ rw (e, with_request) refl
]
