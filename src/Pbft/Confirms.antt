-- ===== src/Pbft/Confirms.antt =====
-- PBFTPeer.cpp: what a run confirms, and what it leaves of the checkpoints and the water marks.
use quantas.Common.{
  ℕ, ◌≡◌, refl, sym, ap, subst, ◌∙◌, ◌⊎◌, inl, inr, Bool, true, Option, some, List, [], ◌∷◌, ◌++◌,
  arith, length-append, ◌==◌, Bool-cases, Option-cases, eq_of_some,
}
use mathlib.Core.List.{append-nil, append_assoc}
use quantas.Common.Predicates.{Elem}
use quantas.Pbft.{
  Request, Digests, Body, Proposal, Wire, PbftConsensus, pre_prepare, next_seq, bodies, leader_for,
  is_leader, is_committed, maybe_stable_checkpoint,
}
use quantas.Pbft.Phases.{
  to_phase, run_pre_prepare, run_prepare, run_commit, lead, back_up, committed_here,
}
use quantas.Pbft.Rounds.{
  run_view_change, run_new_view, run_on_time, is_late, run_once, read_message,
}
use quantas.Pbft.Returns.Measure.{Phase-cases}
use quantas.Pbft.Runs.{Steps, reads, runs, done, then_step}
use quantas.Pbft.Marks.{
  HasMarks, Same, Same-HasMarks, lead-Same, back_up-Same, run_prepare-Same,
  request_view_change-Same, run_view_change-Same, run_new_view-HasMarks, decide-Same,
}

-- The leader's pre-prepare for the request at the next number stands in the log, with a commit quorum
-- for its digest.
pub record IsCertified (h : Digests) (s : PbftConsensus) (r : Request) : Type 0 where
  pub pre_prepared : Body
  pub proposal : Proposal
  pub in_log : Elem pre_prepared (bodies pre_prepare (next_seq s) s.view s.received)
  pub by_leader : is_leader pre_prepared.from_id (leader_for s.view s) ≡ true
  pub proposed : pre_prepared.proposal ≡ some proposal
  pub of_request : proposal.request ≡ r
  pub committed : is_committed h s.view (next_seq s) (h.digest_of r) s ≡ true

committed_here-IsCertified :
    (h : Digests) (ms : List Body) (s : PbftConsensus) (r : Request)
    → ((b : Body) → Elem b ms → Elem b (bodies pre_prepare (next_seq s) s.view s.received))
    → committed_here h ms s ≡ some r
    → IsCertified h s r
unfolding committed_here
committed_here-IsCertified h [] s r sub e = absurd (let g : Option.none ≡ some r = e in cc g)
committed_here-IsCertified h (m ∷ ms) s r sub e =
    let later = committed_here-IsCertified h ms s r (λ b k. sub b (inr k)) in
    elim (Bool-cases (m.view == s.view)) [
      | inr elsewhere ↦ later (rw (elsewhere, committed_here) at e)
      | inl here ↦ elim (Bool-cases (is_leader m.from_id (leader_for s.view s))) [
        | inr not_its ↦ later (rw (here, not_its, committed_here) at e)
        | inl its ↦ elim (Option-cases m.proposal) [
          | inl bare ↦ later (rw (here, its, bare, committed_here) at e)
          | inr (p, has) ↦
              elim (Bool-cases (is_committed h s.view (next_seq s) (h.digest_of p.request) s)) [
                | inr short ↦ later (rw (here, its, has, short, committed_here) at e)
                | inl enough ↦
                    let same =
                      eq_of_some p.request r (rw (here, its, has, enough, committed_here) at e) in
                    record {
                      pre_prepared = m;
                      proposal = p;
                      in_log = sub m (inl refl);
                      by_leader = its;
                      proposed = has;
                      of_request = same;
                      committed = rw same at enough;
                    }
              ]
        ]
      ]
    ]

-- A log keeps what it has, and grows by one certified request at most.
pub Confirms : Digests → PbftConsensus → PbftConsensus → Type 0
Confirms h s t =
    (t.confirmed_trans ≡ s.confirmed_trans)
    ⊎ ((r : Request) × IsCertified h s r × (t.confirmed_trans ≡ s.confirmed_trans ++ r ∷ []))

run_commit-Confirms :
    (h : Digests) (round : ℕ) (s : PbftConsensus)
    → HasMarks s
    → HasMarks (run_commit h round s).0 × Confirms h s (run_commit h round s).0
unfolding run_commit to_phase Confirms
run_commit-Confirms h round s inv =
    let here = bodies pre_prepare (next_seq s) s.view s.received in
    elim (Option-cases (committed_here h here s)) [
      | inl e ↦ rw (e, run_commit) (inv, inl refl)
      | inr (r, come) ↦
          let cert = committed_here-IsCertified h here s r (λ b k. k) come in
          let grown = decide-Same h round r s in
          let more = length-append s.confirmed_trans (r ∷ []) in
          rw (come, run_commit)
            (
              record {
                reached = rw (grown.same_stable, grown.same_log) (omega (arith, inv.reached, more));
                low = rw (grown.same_stable, grown.same_low) inv.low;
                high = rw (grown.same_low, grown.same_high) inv.high;
              },
              inr (r, cert, grown.same_log),
            )
    ]

module _ (h : Digests) (s t : PbftConsensus) where
  Same-Confirms : Same s t → HasMarks s → HasMarks t × Confirms h s t
  unfolding Confirms
  Same-Confirms same inv = (Same-HasMarks s t same inv, inl same.same_log)

-- A log that keeps what it has.
pub quiet :
    (h : Digests) (s t : PbftConsensus) → t.confirmed_trans ≡ s.confirmed_trans → Confirms h s t
unfolding Confirms
quiet h s t same = inl same

run_on_time-Confirms :
    (h : Digests) (round : ℕ) (s : PbftConsensus)
    → HasMarks s
    → HasMarks (run_on_time h round s).0 × Confirms h s (run_on_time h round s).0
unfolding run_on_time run_pre_prepare
run_on_time-Confirms h round s inv =
    let Goal = λ (x : PbftConsensus × Bool). HasMarks x.0 × Confirms h s x.0 in
    let by = λ (x : PbftConsensus × Bool) (e : run_on_time h round s ≡ x) (g : Goal x).
      subst Goal (sym e) g in
    elim (Phase-cases s.phase) [
      | inl p ↦ elim (Bool-cases (is_leader s.public_id (leader_for s.view s))) [
        | inl leads ↦
            by (lead round s) (simp (p, run_on_time, leads, run_pre_prepare) refl)
              (Same-Confirms h s _ (lead-Same round s) inv)
        | inr follows ↦
            by (back_up s) (simp (p, run_on_time, follows, run_pre_prepare) refl)
              (Same-Confirms h s _ (back_up-Same s) inv)
      ]
      | inr (inl p) ↦
          by (run_prepare h s) (simp (p, run_on_time) refl)
            (Same-Confirms h s _ (run_prepare-Same h s) inv)
      | inr (inr (inl p)) ↦
          by (run_commit h round s) (simp (p, run_on_time) refl) (run_commit-Confirms h round s inv)
      | inr (inr (inr (inl p))) ↦
          by (run_view_change s) (simp (p, run_on_time) refl)
            (Same-Confirms h s _ (run_view_change-Same s) inv)
      | inr (inr (inr (inr p))) ↦
          let r = run_new_view-HasMarks round s inv in
          by (run_new_view round s) (simp (p, run_on_time) refl) (r.0, quiet h s _ r.1)
    ]

stable-HasMarks :
    (s : PbftConsensus)
    → HasMarks s
    → HasMarks (maybe_stable_checkpoint s)
      × ((maybe_stable_checkpoint s).confirmed_trans ≡ s.confirmed_trans)
unfolding maybe_stable_checkpoint next_seq
stable-HasMarks s inv = (
  record {
    reached = ground (arith, inv.reached);
    low = ground (arith, inv.low);
    high = ground (arith, inv.high);
  },
  ground arith,
)

-- One call of a phase leaves the stable checkpoint within the log and the water marks 128 apart from
-- it on, and the log as it was or longer by one request, for which the log of messages holds the
-- leader's pre-prepare and a commit quorum.
pub run_once-Confirms :
    (h : Digests) (round : ℕ) (s : PbftConsensus)
    → HasMarks s
    → HasMarks (run_once h round s).0
      × Confirms h (maybe_stable_checkpoint s) (run_once h round s).0
unfolding run_once
run_once-Confirms h round s inv =
    let stable = maybe_stable_checkpoint s in
    let kept = (stable-HasMarks s inv).0 in
    elim (Bool-cases (is_late round stable)) [
      | inl late ↦
          rw (late, run_once)
            (Same-Confirms h stable _ (request_view_change-Same h round stable) kept)
      | inr early ↦ rw (early, run_once) (run_on_time-Confirms h round stable kept)
    ]

read_message-HasMarks :
    (round : ℕ) (m : Option (ℕ × Wire)) (s : PbftConsensus)
    → HasMarks s
    → HasMarks (read_message round m s)
      × ((read_message round m s).confirmed_trans ≡ s.confirmed_trans)
unfolding read_message
read_message-HasMarks round m s inv = (
  record {
    reached = ground (arith, inv.reached);
    low = ground (arith, inv.low);
    high = ground (arith, inv.high);
  },
  ground arith,
)

grow :
    (h : Digests) (rs : List Request) (s t u : PbftConsensus)
    → t.confirmed_trans ≡ s.confirmed_trans ++ rs
    → Confirms h t u
    → (qs : List Request) × (u.confirmed_trans ≡ s.confirmed_trans ++ qs)
unfolding Confirms
grow h rs s t u e (inl same) = (rs, same ∙ e)
grow h rs s t u e (inr (r, cert, more)) =
    (rs ++ r ∷ [], more ∙ ap (λ xs. xs ++ r ∷ []) e ∙ append_assoc s.confirmed_trans rs (r ∷ []))

-- Whatever a peer reads and however often it runs, the stable checkpoint stays within its log and the
-- water marks in place, and what it has confirmed stays confirmed, in its order.
pub Steps-keep_log :
    {h : Digests} {s t : PbftConsensus}
    → Steps h s t
    → HasMarks s
    → HasMarks t × ((rs : List Request) × (t.confirmed_trans ≡ s.confirmed_trans ++ rs))
Steps-keep_log (done s) inv = (inv, ([], sym (append-nil s.confirmed_trans)))
Steps-keep_log (then_step steps (reads round m t)) inv =
    let (now, (rs, e)) = Steps-keep_log steps inv in
    let r = read_message-HasMarks round m t now in (r.0, (rs, r.1 ∙ e))
Steps-keep_log {h = h} {s = s} (then_step steps (runs round t)) inv =
    let (now, (rs, e)) = Steps-keep_log steps inv in
    let r = run_once-Confirms h round t now in
    let same = (stable-HasMarks t now).1 ∙ e in
    let q = grow h rs s (maybe_stable_checkpoint t) (run_once h round t).0 same r.1 in
    (r.0, (q.0, q.1))
