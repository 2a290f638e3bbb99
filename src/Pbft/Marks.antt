-- ===== src/Pbft/Marks.antt =====
-- PBFTPeer.cpp: the checkpoints and the water marks.
use quantas.Common.{
  ℕ, ◌+◌, ◌≤◌, ◌≡◌, refl, sym, ◌∙◌, inl, inr, List, [], ◌∷◌, ◌++◌, arith, length, leb, Bool-cases,
  Option-cases, List-cases,
}
use quantas.Pbft.{
  Request, Digests, Body, PbftConsensus, pre_prepare, window, quorum, next_seq, send_and_keep,
  bodies, submit_request,
}
use quantas.Pbft.Phases.{
  request_view_change, to_phase, run_prepare, lead, back_up, leaders_pre_prepare, prepared_here,
  decide, send_checkpoint, propose_request, with_request,
}
use quantas.Pbft.Rounds.{
  run_view_change, leaders_new_view, reissue, install_view, run_new_view, announce_view,
  votes_for_view, voters,
}

-- The stable checkpoint is not ahead of the log, and the water marks follow it.
pub record HasMarks (s : PbftConsensus) : Type 0 where
  pub reached : s.last_stable_checkpoint ≤ length s.confirmed_trans
  pub low : s.low_water_mark ≡ s.last_stable_checkpoint
  pub high : s.high_water_mark ≡ s.low_water_mark + 128

-- What changes neither them nor the log.
pub record Same (s t : PbftConsensus) : Type 0 where
  pub same_log : t.confirmed_trans ≡ s.confirmed_trans
  pub same_stable : t.last_stable_checkpoint ≡ s.last_stable_checkpoint
  pub same_low : t.low_water_mark ≡ s.low_water_mark
  pub same_high : t.high_water_mark ≡ s.high_water_mark

pub Same-HasMarks : (s t : PbftConsensus) → Same s t → HasMarks s → HasMarks t
Same-HasMarks s t same inv = record {
  reached = rw (same.same_stable, same.same_log) inv.reached;
  low = rw (same.same_stable, same.same_low) inv.low;
  high = rw (same.same_low, same.same_high) inv.high;
}

Same-refl : (s : PbftConsensus) → Same s s
Same-refl s = record { same_log = refl; same_stable = refl; same_low = refl; same_high = refl }

ready-Same : (round : ℕ) (s : PbftConsensus) → Same s (with_request round s)
unfolding with_request submit_request
ready-Same round s = record {
  same_log = ground arith;
  same_stable = ground arith;
  same_low = ground arith;
  same_high = ground arith;
}

pub lead-Same : (round : ℕ) (s : PbftConsensus) → Same s (lead round s).0
unfolding lead propose_request with_request submit_request to_phase send_and_keep
lead-Same round s = elim (List-cases (with_request round s).unhandled_requests) [
  | inl e ↦ rw (e, lead) (ready-Same round s)
  | inr (r, rs, e) ↦
      let same = ready-Same round s in
      rw (e, lead)
        (record {
          same_log = same.same_log;
          same_stable = same.same_stable;
          same_low = same.same_low;
          same_high = same.same_high;
        })
]

pub back_up-Same : (s : PbftConsensus) → Same s (back_up s).0
unfolding back_up to_phase send_and_keep
back_up-Same s =
    elim (Option-cases
      (leaders_pre_prepare s (bodies pre_prepare (next_seq s) s.view s.received))) [
        | inl e ↦ rw (e, back_up) (Same-refl s)
        | inr (pp, e) ↦
            rw (e, back_up)
              (record { same_log = refl; same_stable = refl; same_low = refl; same_high = refl })
      ]

pub run_prepare-Same : (h : Digests) (s : PbftConsensus) → Same s (run_prepare h s).0
unfolding run_prepare to_phase send_and_keep
run_prepare-Same h s =
    elim (Option-cases (prepared_here h (bodies pre_prepare (next_seq s) s.view s.received) s)) [
      | inl e ↦ rw (e, run_prepare) (Same-refl s)
      | inr (pp, e) ↦
          rw (e, run_prepare)
            (record { same_log = refl; same_stable = refl; same_low = refl; same_high = refl })
    ]

pub request_view_change-Same :
    (h : Digests) (round : ℕ) (s : PbftConsensus) → Same s (request_view_change h round s)
unfolding request_view_change send_and_keep
request_view_change-Same h round s = record {
  same_log = refl;
  same_stable = refl;
  same_low = refl;
  same_high = refl;
}

pub run_view_change-Same : (s : PbftConsensus) → Same s (run_view_change s).0
unfolding run_view_change announce_view to_phase send_and_keep
run_view_change-Same s = record {
  same_log = ground arith;
  same_stable = ground arith;
  same_low = ground arith;
  same_high = ground arith;
}

reissue-Same : (proof : List Body) (s : PbftConsensus) → Same s (reissue proof s)
unfolding reissue send_and_keep
reissue-Same [] s = Same-refl s
reissue-Same (pp ∷ pps) s = elim (Option-cases pp.proposal) [
  | inl bare ↦ rw bare (reissue-Same pps s)
  | inr (p, e) ↦ rw e (
      let r = reissue-Same pps _ in
      record {
        same_log = r.same_log;
        same_stable = r.same_stable;
        same_low = r.same_low;
        same_high = r.same_high;
      })
]

-- A new view takes the stable checkpoint for its low water mark.
pub run_new_view-HasMarks :
    (round : ℕ) (s : PbftConsensus)
    → HasMarks s
    → HasMarks (run_new_view round s).0
      × ((run_new_view round s).0.confirmed_trans ≡ s.confirmed_trans)
unfolding run_new_view install_view to_phase
run_new_view-HasMarks round s inv =
    let vs = votes_for_view s in
    elim (Option-cases (leaders_new_view s s.received)) [
      | inl e ↦ rw (e, run_new_view) (inv, refl)
      | inr (proof, come) ↦ elim (Bool-cases (leb (length (voters vs)) (quorum s))) [
        | inl few ↦ rw (come, few, run_new_view) (inv, refl)
        | inr many ↦
            let marked : PbftConsensus = record s {
              low_water_mark = s.last_stable_checkpoint;
              high_water_mark = s.last_stable_checkpoint + window;
            } in
            let same = reissue-Same proof marked in
            rw (come, many, run_new_view)
              (
                record {
                  reached = rw (same.same_stable, same.same_log) inv.reached;
                  low = same.same_low ∙ sym same.same_stable;
                  high = rw (same.same_low, same.same_high) refl;
                },
                same.same_log,
              )
      ]
    ]

pub decide-Same :
    (h : Digests) (round : ℕ) (r : Request) (s : PbftConsensus)
    → Same (record s { confirmed_trans = s.confirmed_trans ++ r ∷ [] }) (decide h round r s)
unfolding decide send_checkpoint send_and_keep
decide-Same h round r s = record {
  same_log = ground arith;
  same_stable = ground arith;
  same_low = ground arith;
  same_high = ground arith;
}
