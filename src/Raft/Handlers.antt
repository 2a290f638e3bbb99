-- ===== src/Raft/Handlers.antt =====
-- RaftPeer.cpp: the handlers of the consensus messages, elections and the clock tick.
use quantas.Common.{
  ℕ, ◌+◌, true, false, not, ◌&&◌, Option, none, some, [], ◌∷◌, ◌++◌, length, ltb, leb, ◌==◌,
  if◌then◌else◌,
}
use quantas.Common.Maps.{value_or}
use quantas.Common.Sets.{contains}
use quantas.Raft.{
  TxKey, Request, Message, RaftConsensus, request_message, respond_request, vote_message,
  elect_message, commit_message, client_request, unicast_to, multicast_to, find_key, set_key,
  extract_key, is_key, is_peer, send, has_quorum, reset_timer, reset_replication_state,
  enqueue_deferred, first_draw, rest_draws,
}
use quantas.Raft.Replication.{
  try_forward_deferred_requests, try_start_replication, on_client_request, apply_commit,
  confirm_request, own_request, count_own,
}

-- A leader of this term or a later one is followed.
unfoldable pub follow : ℕ → ℕ → ℕ → RaftConsensus → RaftConsensus
follow round term sender s =
    if ltb term s.term
    then s
    else let led : RaftConsensus = record s { term = term; leader_id = some sender } in
      let changed =
        (if is_peer sender s.leader_id then led else reset_replication_state false led) in
      reset_timer round (record changed { votes = []; candidate = none })

unfoldable pub answer_request : ℕ → Request → RaftConsensus → RaftConsensus
answer_request sender r s = elim (extract_key r) [
  | none ↦ s
  | some key ↦
      let queued = enqueue_deferred r s in
      send (unicast_to sender (respond_request (some queued.public_id) queued.term r)) queued
]

unfoldable pub handle_request : ℕ → Option ℕ → Option ℕ → Request → RaftConsensus → RaftConsensus
unfolding follow answer_request
handle_request round term from r s = elim term [
  | none ↦ s
  | some t ↦ elim from [
    | none ↦ s
    | some sender ↦ answer_request sender r (follow round t sender s)
  ]
]

-- A new responder to the request in flight.
unfoldable pub add_reply : ℕ → ℕ → TxKey → ℕ → Request → RaftConsensus → Option RaftConsensus
add_reply fuel round key sender r s =
    let responders = value_or [] (find_key key s.replies) in
    if contains sender responders
    then some (record s { replies = set_key key responders s.replies })
    else let replied : RaftConsensus = record s {
      replies = set_key key (responders ++ sender ∷ []) s.replies;
    } in
      if has_quorum (length (responders ++ sender ∷ [])) replied
      then confirm_request fuel round r
          (value_or (value_or round r.round_submitted) (find_key key replied.submitted_round))
          replied
      else some replied

unfoldable pub handle_respond : ℕ → ℕ → Option ℕ → Request → RaftConsensus → Option RaftConsensus
handle_respond fuel round from r s =
    if not (is_peer s.public_id s.leader_id) then some s else elim (extract_key r) [
      | none ↦ some s
      | some key ↦
          if not (s.has_in_flight && is_key key s.in_flight_key)
          then some s
          else elim from [ none ↦ some s | some sender ↦ add_reply fuel round key sender r s ]
    ]

-- The candidate has its quorum.
unfoldable pub take_lead : ℕ → RaftConsensus → RaftConsensus
take_lead round s =
    let timed = reset_timer round s in
    let leading : RaftConsensus = record timed {
      leader_id = some timed.public_id;
      candidate = none;
      votes = [];
    } in
    let clean = reset_replication_state true leading in
    record clean { leader_changes = clean.leader_changes + 1 }

unfoldable pub become_leader : ℕ → RaftConsensus → RaftConsensus
become_leader round s = try_forward_deferred_requests (take_lead round s)

-- A new vote for this peer.
unfoldable pub count_vote : ℕ → ℕ → ℕ → RaftConsensus → Option RaftConsensus
count_vote fuel round sender s =
    if contains sender s.votes
    then some s
    else let voted : RaftConsensus = record s { votes = s.votes ++ sender ∷ [] } in
      if has_quorum (length voted.votes) voted
      then try_start_replication fuel round (become_leader round voted)
      else some voted

unfoldable pub handle_vote : ℕ → ℕ → Option ℕ → Option ℕ → RaftConsensus → Option RaftConsensus
handle_vote fuel round trans from s =
    if is_peer s.public_id s.leader_id
    then some s
    else if not (is_peer s.public_id trans)
    then some s
    else elim from [ none ↦ some s | some sender ↦ count_vote fuel round sender s ]

-- A vote for the sender, in the term that it stands for.
unfoldable pub vote_for : ℕ → ℕ → ℕ → RaftConsensus → RaftConsensus
vote_for round term sender s =
    let turned : RaftConsensus = record s {
      term = term;
      leader_id = none;
      votes = [];
      candidate = some sender;
    } in
    let ready = reset_timer round (reset_replication_state true turned) in
    send (unicast_to sender (vote_message (some sender) (some ready.public_id) ready.term)) ready

unfoldable pub handle_elect : ℕ → Option ℕ → Option ℕ → RaftConsensus → RaftConsensus
unfolding vote_for
handle_elect round term from s = elim term [
  | none ↦ s
  | some t ↦
      if leb t s.term then s else elim from [ none ↦ s | some sender ↦ vote_for round t sender s ]
]

unfoldable pub handle_commit :
    ℕ → Option ℕ → Option ℕ → Option ℕ → Option ℕ → Request → RaftConsensus → RaftConsensus
handle_commit round from term submitted committed r s =
    if is_peer s.public_id from
    then s
    else let t = value_or s.term term in
      let caught_up : RaftConsensus = (if ltb s.term t then record s { term = t } else s) in
      apply_commit r (value_or round submitted) (value_or round committed) false caught_up

-- `onConsensusMessage`, and `onClientRequest` for a request that a peer forwarded.
unfoldable pub on_message : ℕ → ℕ → Message → RaftConsensus → Option RaftConsensus
on_message fuel round (request_message term from r) s = some (handle_request round term from r s)
on_message fuel round (respond_request from term r) s = handle_respond fuel round from r s
on_message fuel round (vote_message trans from term) s = handle_vote fuel round trans from s
on_message fuel round (elect_message term from) s = some (handle_elect round term from s)
on_message fuel round (commit_message from term submitted committed r) s =
    some (handle_commit round from term submitted committed r s)
on_message fuel round (client_request r) s = on_client_request fuel round r s

unfoldable pub maybe_start_election : ℕ → RaftConsensus → RaftConsensus
maybe_start_election round s =
    if ltb round s.time_out_round
    then s
    else let clean = reset_replication_state true s in
      let stood = reset_timer round (record clean {
        candidate = some clean.public_id;
        leader_id = none;
        term = clean.term + 1;
        votes = [];
      }) in
      send (multicast_to stood.members (elect_message (some stood.term) (some stood.public_id)))
        stood

-- `randMod` is not called at a rate of 0.
unfoldable pub maybe_generate_client_request : ℕ → ℕ → RaftConsensus → Option RaftConsensus
unfolding first_draw rest_draws own_request count_own
maybe_generate_client_request fuel round s =
    if s.submit_rate == 0
    then some s
    else let drawn : RaftConsensus = record s { draws = rest_draws s.draws } in
      if first_draw s.draws == 0
      then on_client_request fuel round (own_request round drawn) (count_own drawn)
      else some drawn

unfoldable pub tick : ℕ → ℕ → RaftConsensus → Option RaftConsensus
tick fuel round s = elim (maybe_generate_client_request fuel round s) [
  | none ↦ none
  | some s' ↦ some (try_forward_deferred_requests (maybe_start_election round s'))
]
