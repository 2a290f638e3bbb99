-- ===== src/Pbft/Returns/NewView.antt =====
-- PBFTPeer.cpp, runNewView: what a new view leaves to be done.
use quantas.Common.{
  ℕ, ◌+◌, ◌≤◌, ◌<◌, ◌≡◌, refl, sym, inl, inr, true, false, ◌&&◌, Option, some, List, [], ◌∷◌, arith,
  length, ◌==◌, Bool-cases, Option-cases, eq_of_some,
}
use quantas.Pbft.{
  Body, Kind, Message, PbftConsensus, pre_prepare, phase_message, checkpoint, view_change, new_view,
  new_view_phase, window, next_seq, send_and_keep, leader_for, is_leader,
}
use quantas.Pbft.Phases.{to_phase}
use quantas.Pbft.Rounds.{leaders_new_view, reissue, install_view, run_new_view}
use quantas.Pbft.Returns.Measure.{
  pre_prepares_from, proofs_in, phases_left, pre_prepares_from-append,
}

leaders_new_view-proofs :
    (s : PbftConsensus) (ms : List Message) (proof : List Body)
    → leaders_new_view s ms ≡ some proof
    → length proof ≤ proofs_in ms
unfolding leaders_new_view proofs_in
leaders_new_view-proofs s [] proof e = absurd (let g : Option.none ≡ some proof = e in cc g)
leaders_new_view-proofs s (new_view n v stable found from ∷ ms) proof e =
    elim (Bool-cases
      (n == s.view_change_anchor_seq && v == s.view && is_leader from (leader_for s.view s))) [
        | inl hit ↦
            let same = eq_of_some found proof (rw (hit, leaders_new_view) at e) in
            rw (sym same) (omega arith)
        | inr miss ↦
            let more = leaders_new_view-proofs s ms proof (rw (miss, leaders_new_view) at e) in
            omega (arith, more)
      ]
leaders_new_view-proofs s (phase_message k b ∷ ms) proof e = leaders_new_view-proofs s ms proof e
leaders_new_view-proofs s (checkpoint n v d from ∷ ms) proof e =
    leaders_new_view-proofs s ms proof e
leaders_new_view-proofs s (view_change n v w stable found from ∷ ms) proof e =
    leaders_new_view-proofs s ms proof e

pre_prepares_from-one :
    (n : ℕ) (k : Kind) (b : Body) → pre_prepares_from n (phase_message k b ∷ []) ≤ 1
unfolding pre_prepares_from
pre_prepares_from-one n k b = ground arith

-- What a new view adds for the next number.
reissue-left :
    (proof : List Body) (s : PbftConsensus)
    → (next_seq (reissue proof s) ≡ next_seq s)
      × (pre_prepares_from (next_seq s) (reissue proof s).received
          ≤ pre_prepares_from (next_seq s) s.received + length proof)
unfolding reissue send_and_keep next_seq
reissue-left [] s = (refl, omega arith)
reissue-left (pp ∷ pps) s = elim (Option-cases pp.proposal) [
  | inl bare ↦ rw bare (let r = reissue-left pps s in (r.0, omega (arith, r.1)))
  | inr (p, e) ↦
      let b : Body = record {
        seq_num = pp.seq_num;
        view = s.view;
        proposal = some (record { request = p.request; view = s.view });
        from_id = s.public_id;
      } in
      let m = phase_message pre_prepare b in
      let r = reissue-left pps (send_and_keep m s) in
      let one = pre_prepares_from-one (next_seq s) pre_prepare b in
      rw e (r.0, omega (arith, r.1, one, pre_prepares_from-append (next_seq s) s.received (m ∷ [])))
]

pub run_new_view-left :
    (round : ℕ) (s t : PbftConsensus)
    → s.phase ≡ new_view_phase
    → run_new_view round s ≡ (t, true)
    → phases_left t < phases_left s
unfolding run_new_view to_phase phases_left install_view next_seq
run_new_view-left round s t p e = elim (Option-cases (leaders_new_view s s.received)) [
  | inl none_yet ↦
      absurd (let g : (s, false) ≡ (t, true) = rw (none_yet, run_new_view) at e in cc g)
  | inr (proof, come) ↦
      let marked : PbftConsensus = record s {
        low_water_mark = s.last_stable_checkpoint;
        high_water_mark = s.last_stable_checkpoint + window;
      } in
      ground
        (arith, come, reissue-left proof marked, leaders_new_view-proofs s s.received proof come)
]
