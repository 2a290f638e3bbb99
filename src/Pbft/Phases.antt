-- ===== src/Pbft/Phases.antt =====
-- PBFTPeer.cpp: the phases. A phase says whether it runs the next one at once.
use quantas.Common.{
  ℕ, zero, suc, ◌+◌, ◌-◌, ◌%◌, Bool, true, false, not, ◌&&◌, Option, none, some, List, [], ◌∷◌,
  ◌++◌, ◌==◌, if◌then◌else◌,
}
use quantas.Common.Int.{pos, ◌+ℤ◌, ◌-ℤ◌}
use quantas.Pbft.{
  Request, Digests, Body, Phase, PbftConsensus, pre_prepare, prepare, commit, phase_message,
  checkpoint, view_change, pre_prepare_phase, prepare_phase, commit_phase, view_change_phase,
  leader_for, is_leader, next_seq, send_and_keep, bodies, is_prepared, is_committed, submit_request,
}

unfoldable pub send_checkpoint : Digests → PbftConsensus → PbftConsensus
send_checkpoint h s =
    let n = next_seq s in
    if not (n % s.checkpoint_interval == 0)
    then s
    else send_and_keep (checkpoint n s.view (h.state_digest s.confirmed_trans) s.public_id) s

-- The first pre-prepare of the old view at `n` that was prepared, if there is one.
unfoldable pub first_prepared : Digests → ℕ → ℕ → List Body → PbftConsensus → List Body
first_prepared h v n [] s = []
first_prepared h v n (pp ∷ pps) s =
    let rest = first_prepared h v n pps s in
    if not (pp.view == v) then rest else elim pp.proposal [
      | none ↦ rest
      | some p ↦ if is_prepared h v n (h.digest_of p.request) s then pp ∷ [] else rest
    ]

-- for (s = from; …), `count` times
unfoldable pub prepared_proof : Digests → ℕ → ℕ → ℕ → PbftConsensus → List Body
unfolding first_prepared
prepared_proof h v from zero s = []
prepared_proof h v from (suc count) s =
    first_prepared h v from (bodies pre_prepare from v s.received) s
    ++ prepared_proof h v (from + 1) count s

unfoldable pub request_view_change : Digests → ℕ → PbftConsensus → PbftConsensus
unfolding prepared_proof
request_view_change h round s =
    let stable = s.last_stable_checkpoint in
    let proof = prepared_proof h s.view (stable + 1) (next_seq s - (stable + 1)) s in
    let moved : PbftConsensus = record s { view_change_anchor_seq = stable; view = s.view + 1 } in
    record (send_and_keep (view_change stable s.view (s.view + 1) stable proof s.public_id) moved) {
      view_change_timer = round + s.view_change_delay;
      phase = view_change_phase;
    }

unfoldable pub to_phase : Phase → Bool → PbftConsensus → PbftConsensus × Bool
to_phase p again s = (record s { phase = p }, again)

-- _unhandledRequests.begin(), after submitRequest if there was none
unfoldable pub propose_request : ℕ → Request → PbftConsensus → PbftConsensus × Bool
propose_request round tx s = to_phase prepare_phase false (
    send_and_keep
      (phase_message pre_prepare (record {
        seq_num = next_seq s;
        view = s.view;
        proposal = some (record { request = tx; view = s.view });
        from_id = s.public_id;
      }))
      s)

unfoldable pub with_request : ℕ → PbftConsensus → PbftConsensus
with_request round s = elim s.unhandled_requests [ [] ↦ submit_request round s | r ∷ rs ↦ s ]

unfoldable pub lead : ℕ → PbftConsensus → PbftConsensus × Bool
unfolding propose_request with_request
lead round s =
    let ready = with_request round s in
    elim ready.unhandled_requests [ [] ↦ (ready, false) | r ∷ rs ↦ propose_request round r.1 ready ]

-- The leader's pre-prepare with a proposal, if it has come.
unfoldable pub leaders_pre_prepare : PbftConsensus → List Body → Option Body
leaders_pre_prepare s [] = none
leaders_pre_prepare s (m ∷ ms) = elim m.proposal [
  | none ↦ leaders_pre_prepare s ms
  | some p ↦
      if m.view == s.view && is_leader m.from_id (leader_for s.view s) && m.seq_num == next_seq s
      then some m
      else leaders_pre_prepare s ms
]

unfoldable pub back_up : PbftConsensus → PbftConsensus × Bool
unfolding leaders_pre_prepare
back_up s = elim (leaders_pre_prepare s (bodies pre_prepare (next_seq s) s.view s.received)) [
  | none ↦ (s, false)
  | some pp ↦
      to_phase prepare_phase true
        (send_and_keep (phase_message prepare (record pp { from_id = s.public_id })) s)
]

unfoldable pub run_pre_prepare : ℕ → PbftConsensus → PbftConsensus × Bool
unfolding lead back_up
run_pre_prepare round s =
    if is_leader s.public_id (leader_for s.view s) then lead round s else back_up s

-- The first pre-prepare at the next number that is prepared.
unfoldable pub prepared_here : Digests → List Body → PbftConsensus → Option Body
prepared_here h [] s = none
prepared_here h (pp ∷ pps) s =
    let rest = prepared_here h pps s in
    if not (pp.view == s.view) then rest else elim pp.proposal [
      | none ↦ rest
      | some p ↦
          if is_prepared h s.view (next_seq s) (h.digest_of p.request) s then some pp else rest
    ]

unfoldable pub run_prepare : Digests → PbftConsensus → PbftConsensus × Bool
unfolding prepared_here
run_prepare h s = elim (prepared_here h (bodies pre_prepare (next_seq s) s.view s.received) s) [
  | none ↦ (s, false)
  | some pp ↦
      to_phase commit_phase true
        (send_and_keep (phase_message commit (record pp { from_id = s.public_id })) s)
]

-- The request of the leader's first pre-prepare that is committed.
unfoldable pub committed_here : Digests → List Body → PbftConsensus → Option Request
committed_here h [] s = none
committed_here h (pp ∷ pps) s =
    let rest = committed_here h pps s in
    if not (pp.view == s.view)
    then rest
    else if not (is_leader pp.from_id (leader_for s.view s))
    then rest
    else elim pp.proposal [
      | none ↦ rest
      | some p ↦
          if is_committed h s.view (next_seq s) (h.digest_of p.request) s
          then some p.request
          else rest
    ]

unfoldable pub same_bool : Bool → Bool → Bool
same_bool true b = b
same_bool false b = not b

unfoldable pub same_request : Request → Request → Bool
unfolding same_bool
same_request a b =
    a.request_id == b.request_id
    && a.submitter_id == b.submitter_id
    && a.round_submitted == b.round_submitted
    && same_bool a.fault_flip b.fault_flip

unfoldable pub remove_request : Request → List (ℕ × Request) → List (ℕ × Request)
unfolding same_request
remove_request r [] = []
remove_request r ((k, q) ∷ rs) =
    let rest = remove_request r rs in if same_request q r then rs else (k, q) ∷ rest

unfoldable pub decide : Digests → ℕ → Request → PbftConsensus → PbftConsensus
unfolding remove_request
decide h round r s =
    let confirmed : PbftConsensus = record s {
      confirmed_trans = s.confirmed_trans ++ r ∷ [];
      latency = s.latency +ℤ (pos round -ℤ pos r.round_submitted);
      view_change_timer = round + s.view_change_delay;
    } in
    let sent = send_checkpoint h confirmed in
    record sent { unhandled_requests = remove_request r sent.unhandled_requests }

unfoldable pub run_commit : Digests → ℕ → PbftConsensus → PbftConsensus × Bool
unfolding committed_here decide
run_commit h round s =
    elim (committed_here h (bodies pre_prepare (next_seq s) s.view s.received) s) [
      | none ↦ (s, false)
      | some r ↦ to_phase pre_prepare_phase true (decide h round r s)
    ]
