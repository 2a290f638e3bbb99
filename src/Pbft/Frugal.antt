-- ===== src/Pbft/Frugal.antt =====
-- PBFTPeer.cpp: each phase casts at most the votes that are its own.
mod Parts
use quantas.Common.{
  ℕ, ◌+◌, ◌-◌, ◌≡◌, refl, sym, ap, ◌∙◌, inl, inr, Bool, true, false, Option, some, List, [], ◌∷◌,
  ◌++◌, arith, length, length-append, leb, ◌==◌, Bool-cases, Option-cases, List-cases, eq_of_some,
}
use quantas.Common.Predicates.{Elem}
use quantas.Pbft.{
  Request, Digests, Body, Kind, Message, Wire, Phase, PbftConsensus, pre_prepare, prepare, commit,
  phase_message, checkpoint, view_change, new_view, client_request, pre_prepare_phase,
  prepare_phase, commit_phase, view_change_phase, new_view_phase, window, quorum, next_seq,
  send_and_keep, same_kind, bodies, maybe_stable_checkpoint, leader_for, is_leader, submit_request,
  is_prepared,
}
use quantas.Pbft.Phases.{
  request_view_change, to_phase, run_prepare, run_commit, lead, back_up, leaders_pre_prepare,
  prepared_here, committed_here, decide, send_checkpoint, propose_request, with_request,
  prepared_proof,
}
use quantas.Pbft.Rounds.{
  Vote, run_view_change, leaders_new_view, reissue, install_view, run_new_view, announce_view,
  votes_for_view, voters,
}
use quantas.Pbft.Votes.{
  sent, votes, is_past, allowance, IsFrugal, sent-append, length-bodies, votes-send_and_keep,
  own_vote, Elem-bodies, leaders_pre_prepare-Elem,
}
use quantas.Pbft.Frugal.Parts.{
  vote-IsFrugal, other-IsFrugal, pre_prepare-no_vote, to_phase-IsFrugal, with_request-IsFrugal,
  with_request-phase,
}

pub stable-IsFrugal :
    (k : Kind) (s : PbftConsensus) → IsFrugal k s → IsFrugal k (maybe_stable_checkpoint s)
unfolding IsFrugal allowance votes next_seq maybe_stable_checkpoint
stable-IsFrugal k s inv n v = ground (arith, inv n v)

pub back_up-IsFrugal :
    (k : Kind) (s : PbftConsensus)
    → s.phase ≡ pre_prepare_phase
    → IsFrugal k s
    → IsFrugal k (back_up s).0
unfolding back_up to_phase is_past
back_up-IsFrugal k s at_phase inv =
    let here = bodies pre_prepare (next_seq s) s.view s.received in
    elim (Option-cases (leaders_pre_prepare s here)) [
      | inl not_yet ↦ rw (not_yet, back_up) inv
      | inr (pp, come) ↦
          let fits =
            Elem-bodies pre_prepare (next_seq s) s.view s.received pp
              (leaders_pre_prepare-Elem s here pp come) in
          rw (come, back_up)
            (vote-IsFrugal k prepare prepare_phase (record pp { from_id = s.public_id }) s inv
              fits.0 fits.1 (ground (arith, at_phase)) refl (ground (arith, at_phase)))
    ]

prepared_here-Elem :
    (h : Digests) (ms : List Body) (s : PbftConsensus) (pp : Body)
    → prepared_here h ms s ≡ some pp
    → Elem pp ms
unfolding prepared_here
prepared_here-Elem h [] s pp e = absurd (let g : Option.none ≡ some pp = e in cc g)
prepared_here-Elem h (m ∷ ms) s pp e = elim (Bool-cases (m.view == s.view)) [
  | inr elsewhere ↦ inr (prepared_here-Elem h ms s pp (rw (elsewhere, prepared_here) at e))
  | inl here ↦ elim (Option-cases m.proposal) [
    | inl bare ↦ inr (prepared_here-Elem h ms s pp (rw (here, bare, prepared_here) at e))
    | inr (p, has) ↦
        elim (Bool-cases (is_prepared h s.view (next_seq s) (h.digest_of p.request) s)) [
          | inl ready ↦ inl (sym (eq_of_some m pp (rw (here, has, ready, prepared_here) at e)))
          | inr short ↦
              inr (prepared_here-Elem h ms s pp (rw (here, has, short, prepared_here) at e))
        ]
  ]
]

pub run_prepare-IsFrugal :
    (h : Digests) (k : Kind) (s : PbftConsensus)
    → s.phase ≡ prepare_phase
    → IsFrugal k s
    → IsFrugal k (run_prepare h s).0
unfolding run_prepare to_phase is_past
run_prepare-IsFrugal h k s at_phase inv =
    let here = bodies pre_prepare (next_seq s) s.view s.received in
    elim (Option-cases (prepared_here h here s)) [
      | inl not_yet ↦ rw (not_yet, run_prepare) inv
      | inr (pp, come) ↦
          let fits =
            Elem-bodies pre_prepare (next_seq s) s.view s.received pp
              (prepared_here-Elem h here s pp come) in
          rw (come, run_prepare)
            (vote-IsFrugal k commit commit_phase (record pp { from_id = s.public_id }) s inv fits.0
              fits.1 (ground (arith, at_phase)) refl (ground (arith, at_phase)))
    ]

pub lead-IsFrugal :
    (round : ℕ) (k : Kind) (s : PbftConsensus)
    → same_kind k pre_prepare ≡ false
    → s.phase ≡ pre_prepare_phase
    → IsFrugal k s
    → IsFrugal k (lead round s).0
unfolding lead propose_request to_phase is_past
lead-IsFrugal round k s vote at_phase inv =
    let ready = with_request-IsFrugal round k s inv in
    elim (List-cases (with_request round s).unhandled_requests) [
      | inl e ↦ rw (e, lead) ready
      | inr (r, rs, e) ↦
          rw (e, lead)
            (other-IsFrugal k prepare_phase (phase_message pre_prepare _) (with_request round s)
              ready (λ n v. pre_prepare-no_vote k n v _ vote)
              (ground (arith, with_request-phase round s, at_phase)))
    ]

pub run_commit-IsFrugal :
    (h : Digests) (round : ℕ) (k : Kind) (s : PbftConsensus)
    → IsFrugal k s
    → IsFrugal k (run_commit h round s).0
unfolding run_commit decide send_checkpoint to_phase IsFrugal votes allowance next_seq send_and_keep
    bodies
run_commit-IsFrugal h round k s inv n v =
    elim (Option-cases (committed_here h (bodies pre_prepare (next_seq s) s.view s.received) s)) [
      | inl not_yet ↦ rw (not_yet, run_commit) (inv n v)
      | inr (r, come) ↦
          let log = s.confirmed_trans ++ r ∷ [] in
          let m = checkpoint (length log) s.view (h.state_digest log) s.public_id in
          ground (
            arith,
            inv n v,
            come,
            length-append s.confirmed_trans (r ∷ []),
            votes-send_and_keep k n v m s,
          )
    ]

pub request_view_change-IsFrugal :
    (h : Digests) (round : ℕ) (k : Kind) (s : PbftConsensus)
    → IsFrugal k s
    → IsFrugal k (request_view_change h round s)
unfolding request_view_change IsFrugal allowance votes send_and_keep next_seq bodies
request_view_change-IsFrugal h round k s inv n v =
    let stable = s.last_stable_checkpoint in
    let proof = prepared_proof h s.view (stable + 1) (next_seq s - (stable + 1)) s in
    let m = view_change stable s.view (s.view + 1) stable proof s.public_id in
    ground (arith, inv n v, votes-send_and_keep k n v m s)

announce_view-IsFrugal :
    (k : Kind) (vs : List Vote) (p : Phase) (s : PbftConsensus)
    → s.phase ≡ view_change_phase
    → IsFrugal k s
    → IsFrugal k (record (announce_view vs s) { phase = p })
unfolding announce_view bodies is_past
announce_view-IsFrugal k vs p s at_phase inv =
    other-IsFrugal k p (new_view _ _ _ _ _) s inv (λ n v. refl) (ground (arith, at_phase))

pub run_view_change-IsFrugal :
    (k : Kind) (s : PbftConsensus)
    → s.phase ≡ view_change_phase
    → IsFrugal k s
    → IsFrugal k (run_view_change s).0
unfolding run_view_change to_phase is_past
run_view_change-IsFrugal k s at_phase inv =
    let vs = votes_for_view s in
    elim (Bool-cases (leb (length (voters vs)) (quorum s))) [
      | inl few ↦ rw (few, run_view_change) inv
      | inr many ↦ elim (Bool-cases (is_leader s.public_id (leader_for s.view s))) [
        | inl leads ↦
            rw (many, leads, run_view_change)
              (announce_view-IsFrugal k vs new_view_phase s at_phase inv)
        | inr follows ↦
            rw (many, follows, run_view_change)
              (to_phase-IsFrugal k new_view_phase false s inv (ground (arith, at_phase)))
      ]
    ]

reissue-IsFrugal :
    (k : Kind) (proof : List Body) (s : PbftConsensus)
    → same_kind k pre_prepare ≡ false
    → IsFrugal k s
    → IsFrugal k (reissue proof s) × ((reissue proof s).phase ≡ s.phase)
unfolding reissue send_and_keep
reissue-IsFrugal k [] s vote inv = (inv, refl)
reissue-IsFrugal k (pp ∷ pps) s vote inv = elim (Option-cases pp.proposal) [
  | inl bare ↦ rw bare (reissue-IsFrugal k pps s vote inv)
  | inr (p, e) ↦ rw e (
      reissue-IsFrugal k pps _ vote (
        other-IsFrugal k s.phase (phase_message pre_prepare _) s inv
          (λ n v. pre_prepare-no_vote k n v _ vote) (λ past. past)))
]

marked-IsFrugal :
    (k : Kind) (s : PbftConsensus)
    → IsFrugal k s
    → IsFrugal k (record s {
      low_water_mark = s.last_stable_checkpoint;
      high_water_mark = s.last_stable_checkpoint + window;
    })
unfolding IsFrugal votes allowance next_seq
marked-IsFrugal k s inv n v = inv n v

timed-IsFrugal :
    (k : Kind) (timer : ℕ) (s : PbftConsensus)
    → IsFrugal k s
    → (is_past k s.phase ≡ true → is_past k pre_prepare_phase ≡ true)
    → IsFrugal k (record s { view_change_timer = timer; phase = pre_prepare_phase })
unfolding IsFrugal votes allowance next_seq
timed-IsFrugal k timer s inv more n v = ground (arith, inv n v, more)

pub run_new_view-IsFrugal :
    (round : ℕ) (k : Kind) (s : PbftConsensus)
    → same_kind k pre_prepare ≡ false
    → s.phase ≡ new_view_phase
    → IsFrugal k s
    → IsFrugal k (run_new_view round s).0
unfolding run_new_view install_view to_phase is_past
run_new_view-IsFrugal round k s vote at_phase inv =
    let vs = votes_for_view s in
    elim (Option-cases (leaders_new_view s s.received)) [
      | inl none_yet ↦ rw (none_yet, run_new_view) inv
      | inr (proof, come) ↦ elim (Bool-cases (leb (length (voters vs)) (quorum s))) [
        | inl few ↦ rw (come, few, run_new_view) inv
        | inr many ↦
            let marked : PbftConsensus = record s {
              low_water_mark = s.last_stable_checkpoint;
              high_water_mark = s.last_stable_checkpoint + window;
            } in
            let r = reissue-IsFrugal k proof marked vote (marked-IsFrugal k s inv) in
            rw (come, many, run_new_view)
              (timed-IsFrugal k (round + s.view_change_delay) (reissue proof marked) r.0
                (ground (arith, r.1, at_phase)))
      ]
    ]
