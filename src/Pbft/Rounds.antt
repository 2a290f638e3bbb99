-- ===== src/Pbft/Rounds.antt =====
-- PBFTPeer.cpp: view changes, runPhase and the rounds of a peer. The messages in a proof of a view change
-- hold a proposal. `none` means that the fuel of runPhase ran out.
use quantas.Common.{
  ℕ, zero, suc, ◌+◌, ◌-◌, Bool, true, false, ◌&&◌, Option, none, some, List, [], ◌∷◌, ◌++◌, length,
  ltb, leb, ◌==◌, if◌then◌else◌,
}
use quantas.Common.Int.{pos}
use quantas.Common.Sets.{insert}
use quantas.Pbft.{
  Digests, Body, Message, Wire, PbftConsensus, pre_prepare, phase_message, checkpoint, view_change,
  new_view, client_request, consensus_message, pre_prepare_phase, prepare_phase, commit_phase,
  view_change_phase, new_view_phase, window, quorum, leader_for, is_leader, send_and_keep,
  maybe_stable_checkpoint, insert_request,
}
use quantas.Pbft.Phases.{request_view_change, to_phase, run_pre_prepare, run_prepare, run_commit}

-- A viewChange: who sent it, and its proof.
abbrev pub Vote : Type 0
Vote = ℕ × List Body

-- The viewChange messages to the view `w` at the anchor, in the view `v`.
unfoldable pub view_changes : ℕ → ℕ → ℕ → List Message → List Vote
view_changes anchor v w [] = []
view_changes anchor v w (view_change s u u' stable proof from ∷ ms) =
    let rest = view_changes anchor v w ms in
    if s == anchor && u == v && u' == w then (from, proof) ∷ rest else rest
view_changes anchor v w (phase_message k b ∷ ms) = view_changes anchor v w ms
view_changes anchor v w (checkpoint s u d from ∷ ms) = view_changes anchor v w ms
view_changes anchor v w (new_view s u stable proof from ∷ ms) = view_changes anchor v w ms

unfoldable pub voters : List Vote → List ℕ
voters [] = []
voters ((from, proof) ∷ vs) = insert from (voters vs)

-- The message at `n` of the latest view; `best` has the view one below its second part.
unfoldable pub best_of_proof : ℕ → List Body → Option Body × ℕ → Option Body × ℕ
best_of_proof n [] best = best
best_of_proof n (pp ∷ pps) (best, least) = elim pp.proposal [
  | none ↦ best_of_proof n pps (best, least)
  | some p ↦
      best_of_proof n pps
        (if pp.seq_num == n && leb least p.view then (some pp, p.view + 1) else (best, least))
]

unfoldable pub best_of_votes : ℕ → List Vote → Option Body × ℕ → Option Body × ℕ
unfolding best_of_proof
best_of_votes n [] best = best
best_of_votes n ((from, proof) ∷ vs) best = best_of_votes n vs (best_of_proof n proof best)

-- for (n = from; …), `count` times
unfoldable pub collect_prepared : List Vote → ℕ → ℕ → List Body
unfolding best_of_votes
collect_prepared vs from zero = []
collect_prepared vs from (suc count) =
    let rest = collect_prepared vs (from + 1) count in
    elim (best_of_votes from vs (none, 0)).0 [ none ↦ rest | some pp ↦ pp ∷ rest ]

unfoldable pub announce_view : List Vote → PbftConsensus → PbftConsensus
unfolding collect_prepared
announce_view vs s =
    let first = s.last_stable_checkpoint + 1 in
    let proof = collect_prepared vs first (s.high_water_mark + 1 - first) in
    send_and_keep
      (new_view s.view_change_anchor_seq s.view s.last_stable_checkpoint proof s.public_id) s

unfoldable pub votes_for_view : PbftConsensus → List Vote
unfolding view_changes
votes_for_view s = view_changes s.view_change_anchor_seq (s.view - 1) s.view s.received

unfoldable pub run_view_change : PbftConsensus → PbftConsensus × Bool
unfolding announce_view votes_for_view voters
run_view_change s =
    let votes = votes_for_view s in
    if leb (length (voters votes)) (quorum s)
    then (s, false)
    else if is_leader s.public_id (leader_for s.view s)
    then to_phase new_view_phase false (announce_view votes s)
    else to_phase new_view_phase false s

-- The new leader's NEW-VIEW for this view, by its proof.
unfoldable pub leaders_new_view : PbftConsensus → List Message → Option (List Body)
leaders_new_view s [] = none
leaders_new_view s (new_view n v stable proof from ∷ ms) =
    let rest = leaders_new_view s ms in
    if n == s.view_change_anchor_seq && v == s.view && is_leader from (leader_for s.view s)
    then some proof
    else rest
leaders_new_view s (phase_message k b ∷ ms) = leaders_new_view s ms
leaders_new_view s (checkpoint n v d from ∷ ms) = leaders_new_view s ms
leaders_new_view s (view_change n v w stable proof from ∷ ms) = leaders_new_view s ms

-- The proof of a new view that runPhase reads holds proposals only, as requestViewChange makes it
-- (Pbft/Proofs). For a message without one the source looks up a missing key in a constant JSON value,
-- for which the JSON library promises nothing; such a message is passed over here.
unfoldable pub reissue : List Body → PbftConsensus → PbftConsensus
reissue [] s = s
reissue (pp ∷ pps) s = elim pp.proposal [
  | none ↦ reissue pps s
  | some p ↦ reissue pps (
      send_and_keep
        (phase_message pre_prepare (record {
          seq_num = pp.seq_num;
          view = s.view;
          proposal = some (record { request = p.request; view = s.view });
          from_id = s.public_id;
        }))
        s)
]

unfoldable pub install_view : ℕ → List Body → PbftConsensus → PbftConsensus
unfolding reissue
install_view round proof s =
    let marked : PbftConsensus = record s {
      low_water_mark = s.last_stable_checkpoint;
      high_water_mark = s.last_stable_checkpoint + window;
    } in
    record (reissue proof marked) { view_change_timer = round + s.view_change_delay }

unfoldable pub run_new_view : ℕ → PbftConsensus → PbftConsensus × Bool
unfolding leaders_new_view install_view votes_for_view voters
run_new_view round s = elim (leaders_new_view s s.received) [
  | none ↦ (s, false)
  | some proof ↦
      if leb (length (voters (votes_for_view s))) (quorum s)
      then (s, false)
      else to_phase pre_prepare_phase true (install_view round proof s)
]

-- A phase that the timer has not ended.
unfoldable pub run_on_time : Digests → ℕ → PbftConsensus → PbftConsensus × Bool
run_on_time h round s = elim s.phase [
  | pre_prepare_phase ↦ run_pre_prepare round s
  | prepare_phase ↦ run_prepare h s
  | commit_phase ↦ run_commit h round s
  | view_change_phase ↦ run_view_change s
  | new_view_phase ↦ run_new_view round s
]

unfoldable pub is_late : ℕ → PbftConsensus → Bool
is_late round s = elim s.phase [
  | pre_prepare_phase ↦ ltb s.view_change_timer round
  | prepare_phase ↦ ltb s.view_change_timer round
  | commit_phase ↦ ltb s.view_change_timer round
  | view_change_phase ↦ leb s.view_change_timer round
  | new_view_phase ↦ leb s.view_change_timer round
]

-- One call of a phase.
unfoldable pub run_once : Digests → ℕ → PbftConsensus → PbftConsensus × Bool
unfolding is_late run_on_time
run_once h round s =
    let stable = maybe_stable_checkpoint s in
    if is_late round stable
    then (request_view_change h round stable, false)
    else run_on_time h round stable

unfoldable pub run_phase : ℕ → Digests → ℕ → PbftConsensus → Option PbftConsensus
run_phase zero h round s = none
run_phase (suc fuel) h round s =
    let r = run_once h round s in elim r.1 [ false ↦ some r.0 | true ↦ run_phase fuel h round r.0 ]

-- A message with its consensusId, `none` where a key is missing.
unfoldable pub read_message : ℕ → Option (ℕ × Wire) → PbftConsensus → PbftConsensus
read_message round none s = s
read_message round (some (id, client_request r)) s =
    if id == s.consensus_id
    then record s { unhandled_requests = insert_request round r s.unhandled_requests }
    else s
read_message round (some (id, consensus_message m)) s =
    if id == s.consensus_id then record s { received = s.received ++ m ∷ [] } else s

unfoldable pub read_messages : ℕ → List (Option (ℕ × Wire)) → PbftConsensus → PbftConsensus
unfolding read_message
read_messages round [] s = s
read_messages round (m ∷ ms) s = read_messages round ms (read_message round m s)

unfoldable pub perform_computation :
    ℕ → Digests → ℕ → List (Option (ℕ × Wire)) → PbftConsensus → Option PbftConsensus
perform_computation fuel h round ms s = run_phase fuel h round (read_messages round ms s)

-- PBFTConsensus(committee), for the peer that it belongs to
unfoldable pub new_consensus : ℕ → ℕ → List ℕ → PbftConsensus
new_consensus public_id id members = record {
  public_id = public_id;
  consensus_id = id;
  members = members;
  view = 0;
  view_change_timer = 10;
  view_change_delay = 10;
  checkpoint_interval = 10;
  low_water_mark = 0;
  high_water_mark = window;
  last_stable_checkpoint = 0;
  view_change_anchor_seq = 0;
  received = [];
  unhandled_requests = [];
  confirmed_trans = [];
  latency = pos 0;
  current_client_request_id = 0;
  phase = pre_prepare_phase;
  outbox = [];
}
