-- ===== src/Pbft.antt =====
-- quantas/PBFTPeer/PBFTPeer.{hpp,cpp} with quantas/Common/{Committee,Consensus}.hpp: the messages, the
-- state of PBFTConsensus and its certificates. A consensus message stands in the log under its own
-- seqNum, view and MessageType, so `received` is the list of the messages, oldest first. A proposal has
-- a Request and a view. The digests, std::hash of a dump, are the parameter `Digests`. Counters do not
-- wrap.
pub mod Phases
pub mod Rounds
pub mod Quorums
pub mod Votes
pub mod Frugal
pub mod Runs
pub mod Marks
pub mod Confirms
pub mod Proofs
pub mod Returns
pub mod Tests
use quantas.Common.{
  ℕ, zero, suc, ◌+◌, ◌-◌, ◌*◌, ◌/◌, ◌%◌, Bool, true, false, not, ◌&&◌, ◌||◌, Option, none, some,
  List, [], ◌∷◌, ◌++◌, length, get_elem?, ltb, leb, ◌==◌, if◌then◌else◌,
}
use quantas.Common.Int.{ℤ}
use quantas.Common.Maps.{lookup, assign, value_or}
use quantas.Common.Sets.{insert}

pub record Request : Type 0 where
  pub request_id : ℕ
  pub submitter_id : ℕ
  pub round_submitted : ℕ
  pub fault_flip : Bool

pub record Digests : Type 0 where
  pub digest_of : Request → ℕ
  pub state_digest : List Request → ℕ

pub record Proposal : Type 0 where
  pub request : Request
  pub view : ℕ

-- What the messages of the three phases hold beside their type.
pub record Body : Type 0 where
  pub seq_num : ℕ
  pub view : ℕ
  pub proposal : Option Proposal
  pub from_id : ℕ

pub data Kind : Type 0 where
  pre_prepare prepare commit : Kind

pub data Message : Type 0 where
  phase_message : Kind → Body → Message
  checkpoint : (seq_num view digest from_id : ℕ) → Message
  view_change :
      (seq_num view new_view last_stable : ℕ) (prepared_proof : List Body) (from_id : ℕ) → Message
  new_view : (seq_num view last_stable : ℕ) (prepared_proof : List Body) (from_id : ℕ) → Message

pub data Wire : Type 0 where
  client_request : Request → Wire
  consensus_message : Message → Wire

pub data Phase : Type 0 where
  pre_prepare_phase prepare_phase commit_phase view_change_phase new_view_phase : Phase

-- All that a peer sends is for the members of the committee: `outbox`, oldest first.
pub record PbftConsensus : Type 0 where
  pub public_id : ℕ
  pub consensus_id : ℕ
  pub members : List ℕ
  pub view : ℕ
  pub view_change_timer : ℕ
  pub view_change_delay : ℕ
  pub checkpoint_interval : ℕ
  pub low_water_mark : ℕ
  pub high_water_mark : ℕ
  pub last_stable_checkpoint : ℕ
  pub view_change_anchor_seq : ℕ
  pub received : List Message
  pub unhandled_requests : List (ℕ × Request)
  pub confirmed_trans : List Request
  pub latency : ℤ
  pub current_client_request_id : ℕ
  pub phase : Phase
  pub outbox : List Wire

abbrev pub window : ℕ
window = 128

unfoldable pub f : PbftConsensus → ℕ
f s = (length s.members - 1) / 3

unfoldable pub quorum : PbftConsensus → ℕ
unfolding f
quorum s = 2 * f s

unfoldable pub leader_for : ℕ → PbftConsensus → Option ℕ
leader_for v s = if length s.members == 0 then none else get_elem? s.members (v % length s.members)

unfoldable pub is_leader : ℕ → Option ℕ → Bool
is_leader id none = false
is_leader id (some leader) = id == leader

unfoldable pub next_seq : PbftConsensus → ℕ
next_seq s = length s.confirmed_trans

-- Multicast, and kept in the log.
unfoldable pub send_and_keep : Message → PbftConsensus → PbftConsensus
send_and_keep m s = record s {
  outbox = s.outbox ++ consensus_message m ∷ [];
  received = s.received ++ m ∷ [];
}

unfoldable pub same_kind : Kind → Kind → Bool
same_kind pre_prepare pre_prepare = true
same_kind prepare prepare = true
same_kind commit commit = true
same_kind _ _ = false

-- _receivedMessages[n][v].equal_range(kind)
unfoldable pub bodies : Kind → ℕ → ℕ → List Message → List Body
unfolding same_kind
bodies kind n v [] = []
bodies kind n v (phase_message k b ∷ ms) =
    let rest = bodies kind n v ms in
    if same_kind kind k && b.seq_num == n && b.view == v then b ∷ rest else rest
bodies kind n v (checkpoint s w d from ∷ ms) = bodies kind n v ms
bodies kind n v (view_change s w w' stable proof from ∷ ms) = bodies kind n v ms
bodies kind n v (new_view s w stable proof from ∷ ms) = bodies kind n v ms

-- equal_range("checkpoint"), its digests
unfoldable pub checkpoint_digests : ℕ → ℕ → List Message → List ℕ
checkpoint_digests n v [] = []
checkpoint_digests n v (phase_message k b ∷ ms) = checkpoint_digests n v ms
checkpoint_digests n v (checkpoint s w d from ∷ ms) =
    let rest = checkpoint_digests n v ms in if s == n && w == v then d ∷ rest else rest
checkpoint_digests n v (view_change s w w' stable proof from ∷ ms) = checkpoint_digests n v ms
checkpoint_digests n v (new_view s w stable proof from ∷ ms) = checkpoint_digests n v ms

module _ (h : Digests) where
  -- A message for the request with this digest in view `v` at `n`.
  unfoldable pub supports : ℕ → ℕ → ℕ → Body → Bool
  supports v n d m = elim m.proposal [
    | none ↦ false
    | some p ↦ p.view == v && m.seq_num == n && h.digest_of p.request == d
  ]

  unfoldable pub any_pre_prepare : PbftConsensus → ℕ → ℕ → ℕ → List Body → Bool
  unfolding supports
  any_pre_prepare s v n d [] = false
  any_pre_prepare s v n d (m ∷ ms) =
      (supports v n d m && is_leader m.from_id (leader_for v s)) || any_pre_prepare s v n d ms

  unfoldable pub has_pre_prepare : ℕ → ℕ → ℕ → PbftConsensus → Bool
  unfolding any_pre_prepare
  has_pre_prepare v n d s = any_pre_prepare s v n d (bodies pre_prepare n v s.received)

  -- The set of those who sent a message for the request.
  unfoldable pub senders : ℕ → ℕ → ℕ → List Body → List ℕ
  unfolding supports
  senders v n d [] = []
  senders v n d (m ∷ ms) =
      let rest = senders v n d ms in if supports v n d m then insert m.from_id rest else rest

  unfoldable pub count_prepares : ℕ → ℕ → ℕ → PbftConsensus → ℕ
  count_prepares v n d s = length (senders v n d (bodies prepare n v s.received))

  unfoldable pub count_commits : ℕ → ℕ → ℕ → PbftConsensus → ℕ
  count_commits v n d s = length (senders v n d (bodies commit n v s.received))

  unfoldable pub is_prepared : ℕ → ℕ → ℕ → PbftConsensus → Bool
  unfolding count_prepares
  is_prepared v n d s = has_pre_prepare v n d s && ltb (quorum s) (count_prepares v n d s)

  unfoldable pub is_committed : ℕ → ℕ → ℕ → PbftConsensus → Bool
  unfolding count_commits
  is_committed v n d s = ltb (quorum s) (count_commits v n d s)

-- The tally of the digests, until one of them has more than `most`.
unfoldable pub tally_reaches : ℕ → List (ℕ × ℕ) → List ℕ → Bool
tally_reaches most tally [] = false
tally_reaches most tally (d ∷ ds) =
    let votes = value_or 0 (lookup d tally) + 1 in
    ltb most votes || tally_reaches most (assign d votes tally) ds

unfoldable pub stable_checkpoint_ready : ℕ → PbftConsensus → Bool
unfolding tally_reaches
stable_checkpoint_ready seq s =
    if not (seq % s.checkpoint_interval == 0)
    then false
    else tally_reaches (quorum s) [] (checkpoint_digests seq s.view s.received)

unfoldable pub message_seq : Message → ℕ
message_seq (phase_message k b) = b.seq_num
message_seq (checkpoint s v d from) = s
message_seq (view_change s v v' stable proof from) = s
message_seq (new_view s v stable proof from) = s

-- What is left of the log from the low water mark on.
unfoldable pub prune : ℕ → List Message → List Message
unfolding message_seq
prune low [] = []
prune low (m ∷ ms) = let rest = prune low ms in if ltb (message_seq m) low then rest else m ∷ rest

unfoldable pub maybe_stable_checkpoint : PbftConsensus → PbftConsensus
unfolding prune next_seq
maybe_stable_checkpoint s =
    let n = next_seq s in
    if not (n % s.checkpoint_interval == 0)
    then s
    else if not (stable_checkpoint_ready n s)
    then s
    else record s {
      last_stable_checkpoint = n;
      low_water_mark = n;
      high_water_mark = n + window;
      received = prune n s.received;
    }

-- A multimap keeps the requests of a round in the order in which they came.
unfoldable pub insert_request : ℕ → Request → List (ℕ × Request) → List (ℕ × Request)
insert_request round r [] = (round, r) ∷ []
insert_request round r ((k, q) ∷ rs) =
    let rest = insert_request round r rs in
    if ltb round k then (round, r) ∷ (k, q) ∷ rs else (k, q) ∷ rest

unfoldable pub submit_request : ℕ → PbftConsensus → PbftConsensus
unfolding insert_request
submit_request round s =
    let r : Request = record {
      request_id = s.current_client_request_id;
      submitter_id = s.public_id;
      round_submitted = round;
      fault_flip = false;
    } in
    record s {
      current_client_request_id = s.current_client_request_id + 1;
      outbox = s.outbox ++ client_request r ∷ [];
      unhandled_requests = insert_request round r s.unhandled_requests;
    }
