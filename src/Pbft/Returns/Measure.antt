-- ===== src/Pbft/Returns/Measure.antt =====
-- PBFTPeer.cpp, runPhase: what is counted down when one phase runs another.
use quantas.Common.{
  ℕ, ◌+◌, ◌-◌, ◌*◌, ◌≤◌, ◌<◌, ◌≡◌, refl, ◌≢◌, ◌⊎◌, inl, inr, true, false, ◌&&◌, Option, some, List,
  [], ◌∷◌, ◌++◌, arith, length, leb, ◌==◌, if◌then◌else◌, Bool-cases, Option-cases,
}
use quantas.Pbft.{
  Request, Digests, Body, Message, Phase, PbftConsensus, pre_prepare, prepare, phase_message,
  checkpoint, view_change, new_view, pre_prepare_phase, prepare_phase, commit_phase,
  view_change_phase, new_view_phase, next_seq, send_and_keep, same_kind, bodies, prune,
  maybe_stable_checkpoint,
}
use quantas.Pbft.Phases.{to_phase, back_up, leaders_pre_prepare, prepared_here, committed_here}

pub Phase-cases :
    (p : Phase)
    → (p ≡ pre_prepare_phase)
      ⊎ ((p ≡ prepare_phase)
          ⊎ ((p ≡ commit_phase) ⊎ ((p ≡ view_change_phase) ⊎ (p ≡ new_view_phase))))
Phase-cases pre_prepare_phase = inl refl
Phase-cases prepare_phase = inr (inl refl)
Phase-cases commit_phase = inr (inr (inl refl))
Phase-cases view_change_phase = inr (inr (inr (inl refl)))
Phase-cases new_view_phase = inr (inr (inr (inr refl)))

-- The pre-prepares at `n` or above.
unfoldable pub pre_prepares_from : ℕ → List Message → ℕ
unfolding same_kind
pre_prepares_from n [] = 0
pre_prepares_from n (phase_message k b ∷ ms) =
    (if same_kind pre_prepare k && leb n b.seq_num then 1 else 0) + pre_prepares_from n ms
pre_prepares_from n (checkpoint s v d from ∷ ms) = pre_prepares_from n ms
pre_prepares_from n (view_change s v w stable proof from ∷ ms) = pre_prepares_from n ms
pre_prepares_from n (new_view s v stable proof from ∷ ms) = pre_prepares_from n ms

-- The messages in the proofs of new views.
unfoldable pub proofs_in : List Message → ℕ
proofs_in [] = 0
proofs_in (phase_message k b ∷ ms) = proofs_in ms
proofs_in (checkpoint s v d from ∷ ms) = proofs_in ms
proofs_in (view_change s v w stable proof from ∷ ms) = proofs_in ms
proofs_in (new_view s v stable proof from ∷ ms) = length proof + proofs_in ms

-- How many phases may still follow one another.
unfoldable pub phases_left : PbftConsensus → ℕ
phases_left s = elim s.phase [
  | pre_prepare_phase ↦ 3 * pre_prepares_from (next_seq s) s.received + 1
  | prepare_phase ↦ 3 * pre_prepares_from (next_seq s) s.received
  | commit_phase ↦ 3 * pre_prepares_from (next_seq s) s.received - 1
  | view_change_phase ↦ 0
  | new_view_phase ↦ 3 * (pre_prepares_from (next_seq s) s.received + proofs_in s.received) + 2
]

pub pre_prepares_from-append :
    (n : ℕ) (xs ys : List Message)
    → pre_prepares_from n (xs ++ ys) ≡ pre_prepares_from n xs + pre_prepares_from n ys
unfolding pre_prepares_from
pre_prepares_from-append n [] ys = omega arith
pre_prepares_from-append n (phase_message k b ∷ xs) ys =
    omega (arith, pre_prepares_from-append n xs ys)
pre_prepares_from-append n (checkpoint s v d from ∷ xs) ys = pre_prepares_from-append n xs ys
pre_prepares_from-append n (view_change s v w stable proof from ∷ xs) ys =
    pre_prepares_from-append n xs ys
pre_prepares_from-append n (new_view s v stable proof from ∷ xs) ys =
    pre_prepares_from-append n xs ys

pre_prepares_from-prune :
    (n low : ℕ) (ms : List Message) → pre_prepares_from n (prune low ms) ≤ pre_prepares_from n ms
unfolding pre_prepares_from prune
pre_prepares_from-prune n low [] = omega arith
pre_prepares_from-prune n low (phase_message k b ∷ xs) =
    ground (arith, pre_prepares_from-prune n low xs)
pre_prepares_from-prune n low (checkpoint s v d from ∷ xs) =
    ground (arith, pre_prepares_from-prune n low xs)
pre_prepares_from-prune n low (view_change s v w stable proof from ∷ xs) =
    ground (arith, pre_prepares_from-prune n low xs)
pre_prepares_from-prune n low (new_view s v stable proof from ∷ xs) =
    ground (arith, pre_prepares_from-prune n low xs)

proofs_in-prune : (low : ℕ) (ms : List Message) → proofs_in (prune low ms) ≤ proofs_in ms
unfolding proofs_in prune
proofs_in-prune low [] = omega arith
proofs_in-prune low (phase_message k b ∷ xs) = ground (arith, proofs_in-prune low xs)
proofs_in-prune low (checkpoint s v d from ∷ xs) = ground (arith, proofs_in-prune low xs)
proofs_in-prune low (view_change s v w stable proof from ∷ xs) =
    ground (arith, proofs_in-prune low xs)
proofs_in-prune low (new_view s v stable proof from ∷ xs) = ground (arith, proofs_in-prune low xs)

pre_prepares_from-suc :
    (n : ℕ) (ms : List Message) → pre_prepares_from (n + 1) ms ≤ pre_prepares_from n ms
unfolding pre_prepares_from
pre_prepares_from-suc n [] = omega arith
pre_prepares_from-suc n (phase_message k b ∷ xs) = ground (arith, pre_prepares_from-suc n xs)
pre_prepares_from-suc n (checkpoint s v d from ∷ xs) = pre_prepares_from-suc n xs
pre_prepares_from-suc n (view_change s v w stable proof from ∷ xs) = pre_prepares_from-suc n xs
pre_prepares_from-suc n (new_view s v stable proof from ∷ xs) = pre_prepares_from-suc n xs

-- A pre-prepare at `n` is not above it.
pub pre_prepares_from-bodies :
    (n v : ℕ) (ms : List Message)
    → bodies pre_prepare n v ms ≢ []
    → pre_prepares_from (n + 1) ms + 1 ≤ pre_prepares_from n ms
unfolding pre_prepares_from bodies
pre_prepares_from-bodies n v [] h = absurd (h refl)
pre_prepares_from-bodies n v (phase_message k b ∷ xs) h =
    elim (Bool-cases (same_kind pre_prepare k && b.seq_num == n && b.view == v)) [
      | inl here ↦ ground (arith, pre_prepares_from-suc n xs)
      | inr other ↦
          let more = pre_prepares_from-bodies n v xs (rw (other, bodies) at h) in
          ground (arith, more)
    ]
pre_prepares_from-bodies n v (checkpoint s w d from ∷ xs) h = pre_prepares_from-bodies n v xs h
pre_prepares_from-bodies n v (view_change s w u stable proof from ∷ xs) h =
    pre_prepares_from-bodies n v xs h
pre_prepares_from-bodies n v (new_view s w stable proof from ∷ xs) h =
    pre_prepares_from-bodies n v xs h

pub stable-left : (s : PbftConsensus) → phases_left (maybe_stable_checkpoint s) ≤ phases_left s
unfolding maybe_stable_checkpoint phases_left
stable-left s = ground (
  arith,
  pre_prepares_from-prune (next_seq s) (next_seq s) s.received,
  proofs_in-prune (next_seq s) s.received,
)

-- A phase that runs another one leaves fewer.
pub back_up-left :
    (s t : PbftConsensus)
    → s.phase ≡ pre_prepare_phase
    → back_up s ≡ (t, true)
    → phases_left t < phases_left s
unfolding back_up to_phase send_and_keep phases_left pre_prepares_from next_seq
back_up-left s t p e =
    elim (Option-cases
      (leaders_pre_prepare s (bodies pre_prepare (next_seq s) s.view s.received))) [
        | inl not_yet ↦ absurd (let f : (s, false) ≡ (t, true) = rw (not_yet, back_up) at e in cc f)
        | inr (pp, come) ↦
            let m = phase_message prepare (record pp { from_id = s.public_id }) in
            ground (arith, pre_prepares_from-append (next_seq s) s.received (m ∷ []), come)
      ]

pub prepared_here-bodies :
    (h : Digests) (pps : List Body) (s : PbftConsensus) (pp : Body)
    → prepared_here h pps s ≡ some pp
    → pps ≢ []
unfolding prepared_here
prepared_here-bodies h [] s pp e nil = absurd (let f : Option.none ≡ some pp = e in cc f)
prepared_here-bodies h (p ∷ pps) s pp e nil = cc nil

pub committed_here-bodies :
    (h : Digests) (pps : List Body) (s : PbftConsensus) (r : Request)
    → committed_here h pps s ≡ some r
    → pps ≢ []
unfolding committed_here
committed_here-bodies h [] s r e nil = absurd (let f : Option.none ≡ some r = e in cc f)
committed_here-bodies h (p ∷ pps) s r e nil = cc nil
