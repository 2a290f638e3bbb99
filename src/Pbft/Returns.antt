-- ===== src/Pbft/Returns.antt =====
-- PBFTPeer.cpp, runPhase: the phases that run one another end.
pub mod Measure
mod NewView
use quantas.Common.{
  ℕ, zero, suc, ◌+◌, ◌-◌, ◌*◌, ◌≤◌, ◌<◌, ◌≡◌, refl, sym, ap, subst, ◌∙◌, ◌≢◌, ◌⊎◌, inl, inr, true,
  false, ◌&&◌, Option, some, List, [], ◌∷◌, ◌++◌, arith, length, length-append, leb, ◌==◌,
  if◌then◌else◌, Bool-cases, Option-cases, List-cases, eq_of_some,
}
use quantas.Pbft.{
  Request, Digests, Body, Kind, Message, Phase, PbftConsensus, pre_prepare, prepare, commit,
  phase_message, checkpoint, view_change, new_view, pre_prepare_phase, prepare_phase, commit_phase,
  view_change_phase, new_view_phase, window, next_seq, send_and_keep, same_kind, bodies, prune,
  maybe_stable_checkpoint, leader_for, is_leader,
}
use quantas.Pbft.Phases.{
  request_view_change, to_phase, run_pre_prepare, run_prepare, run_commit, lead, back_up,
  leaders_pre_prepare, prepared_here, committed_here, decide, send_checkpoint, propose_request,
  with_request,
}
use quantas.Pbft.Rounds.{
  run_view_change, leaders_new_view, reissue, install_view, run_new_view, run_on_time, is_late,
  run_once, run_phase,
}
use quantas.Pbft.Returns.Measure.{
  Phase-cases, pre_prepares_from, proofs_in, phases_left, pre_prepares_from-append,
  pre_prepares_from-bodies, stable-left, back_up-left, prepared_here-bodies, committed_here-bodies,
}
use quantas.Pbft.Returns.NewView.{run_new_view-left}

run_prepare-left :
    (h : Digests) (s t : PbftConsensus)
    → s.phase ≡ prepare_phase
    → run_prepare h s ≡ (t, true)
    → phases_left t < phases_left s
unfolding run_prepare to_phase send_and_keep phases_left pre_prepares_from next_seq
run_prepare-left h s t p e =
    let here = bodies pre_prepare (next_seq s) s.view s.received in
    elim (Option-cases (prepared_here h here s)) [
      | inl not_yet ↦
          absurd (let f : (s, false) ≡ (t, true) = rw (not_yet, run_prepare) at e in cc f)
      | inr (pp, come) ↦
          let m = phase_message commit (record pp { from_id = s.public_id }) in
          ground (
            arith,
            pre_prepares_from-append (next_seq s) s.received (m ∷ []),
            pre_prepares_from-bodies (next_seq s) s.view s.received
                (prepared_here-bodies h here s pp come),
            come,
          )
    ]

decide-left :
    (h : Digests) (round : ℕ) (r : Request) (s : PbftConsensus)
    → pre_prepares_from (next_seq (decide h round r s)) (decide h round r s).received
      ≡ pre_prepares_from (next_seq s + 1) s.received
unfolding decide send_checkpoint send_and_keep next_seq pre_prepares_from
decide-left h round r s =
    let n = length s.confirmed_trans in
    let log = s.confirmed_trans ++ r ∷ [] in
    let m = checkpoint (length log) s.view (h.state_digest log) s.public_id in
    let grown : length log ≡ n + 1 = omega (arith, length-append s.confirmed_trans (r ∷ [])) in
    ground (arith, grown, pre_prepares_from-append (n + 1) s.received (m ∷ []))

pre_prepare_phase-left :
    (s : PbftConsensus)
    → phases_left (record s { phase = pre_prepare_phase })
      ≡ 3 * pre_prepares_from (next_seq s) s.received + 1
unfolding phases_left next_seq
pre_prepare_phase-left s = refl

commit_phase-left :
    (s : PbftConsensus)
    → s.phase ≡ commit_phase
    → phases_left s ≡ 3 * pre_prepares_from (next_seq s) s.received - 1
unfolding phases_left
commit_phase-left s p = ground (arith, p)

run_commit-left :
    (h : Digests) (round : ℕ) (s t : PbftConsensus)
    → s.phase ≡ commit_phase
    → run_commit h round s ≡ (t, true)
    → phases_left t < phases_left s
unfolding run_commit to_phase
run_commit-left h round s t p e =
    let here = bodies pre_prepare (next_seq s) s.view s.received in
    elim (Option-cases (committed_here h here s)) [
      | inl not_yet ↦
          absurd (let f : (s, false) ≡ (t, true) = rw (not_yet, run_commit) at e in cc f)
      | inr (r, come) ↦
          let next : PbftConsensus = record (decide h round r s) { phase = pre_prepare_phase } in
          let same : (next, true) ≡ (t, true) = rw (come, run_commit) at e in
          let room =
            pre_prepares_from-bodies (next_seq s) s.view s.received
              (committed_here-bodies h here s r come) in
          let fewer : phases_left next < phases_left s = omega (
            arith,
            room,
            decide-left h round r s,
            pre_prepare_phase-left (decide h round r s),
            commit_phase-left s p,
          ) in
          subst (λ u. phases_left u < phases_left s) (ap (λ x. x.0) same) fewer
    ]

lead-ends : (round : ℕ) (s : PbftConsensus) → (lead round s).1 ≡ false
unfolding lead propose_request to_phase
lead-ends round s = elim (List-cases (with_request round s).unhandled_requests) [
  | inl e ↦ rw (e, lead) refl
  | inr (r, rs, e) ↦ rw (e, lead) refl
]

run_view_change-ends : (s : PbftConsensus) → (run_view_change s).1 ≡ false
unfolding run_view_change to_phase
run_view_change-ends s = ground arith

run_pre_prepare-left :
    (round : ℕ) (s t : PbftConsensus)
    → s.phase ≡ pre_prepare_phase
    → run_pre_prepare round s ≡ (t, true)
    → phases_left t < phases_left s
unfolding run_pre_prepare
run_pre_prepare-left round s t p e =
    elim (Bool-cases (is_leader s.public_id (leader_for s.view s))) [
      | inl leads ↦
          let g : lead round s ≡ (t, true) = rw (leads, run_pre_prepare) at e in
          absurd (let c : false ≡ true = sym (lead-ends round s) ∙ ap (λ x. x.1) g in cc c)
      | inr follows ↦ back_up-left s t p (rw (follows, run_pre_prepare) at e)
    ]

run_on_time-left :
    (h : Digests) (round : ℕ) (s t : PbftConsensus)
    → run_on_time h round s ≡ (t, true)
    → phases_left t < phases_left s
unfolding run_on_time
run_on_time-left h round s t e = elim (Phase-cases s.phase) [
  | inl p ↦ run_pre_prepare-left round s t p (rw (p, run_on_time) at e)
  | inr (inl p) ↦ run_prepare-left h s t p (rw (p, run_on_time) at e)
  | inr (inr (inl p)) ↦ run_commit-left h round s t p (rw (p, run_on_time) at e)
  | inr (inr (inr (inl p))) ↦
      let g : run_view_change s ≡ (t, true) = rw (p, run_on_time) at e in
      absurd (let c : false ≡ true = sym (run_view_change-ends s) ∙ ap (λ x. x.1) g in cc c)
  | inr (inr (inr (inr p))) ↦ run_new_view-left round s t p (rw (p, run_on_time) at e)
]

run_once-left :
    (h : Digests) (round : ℕ) (s t : PbftConsensus)
    → run_once h round s ≡ (t, true)
    → phases_left t < phases_left s
unfolding run_once
run_once-left h round s t e =
    let stable = maybe_stable_checkpoint s in
    elim (Bool-cases (is_late round stable)) [
      | inl late ↦ absurd (
          let g : (request_view_change h round stable, false) ≡ (t, true) =
            rw (late, run_once) at e in
          let c : false ≡ true = ap (λ x. x.1) g in cc c)
      | inr early ↦
          omega
            (arith, stable-left s, run_on_time-left h round stable t (rw (early, run_once) at e))
    ]

-- runPhase comes to an end: one call more than `phases_left` counts is enough. That count is 0 in the
-- view-change phase. In the others it is three for each pre-prepare at the next number or above: one
-- more than that in the pre-prepare phase, one less, but not below 0, in the commit phase, and in the
-- new-view phase two more and three for each message in the proof of a new view.
pub run_phase-returns :
    (fuel : ℕ) (h : Digests) (round : ℕ) (s : PbftConsensus)
    → phases_left s < fuel
    → (t : PbftConsensus) × (run_phase fuel h round s ≡ some t)
unfolding run_phase
run_phase-returns zero h round s enough = elim enough [ ]
run_phase-returns (suc fuel) h round s enough = elim (Bool-cases (run_once h round s).1) [
  | inl again ↦
      let t = (run_once h round s).0 in
      let fewer = run_once-left h round s t (ap (λ b. (t, b)) again) in
      let r = run_phase-returns fuel h round t (omega (arith, fewer, enough)) in
      (r.0, rw (again, run_phase) r.1)
  | inr done ↦ ((run_once h round s).0, rw (done, run_phase) refl)
]
