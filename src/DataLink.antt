-- ===== src/DataLink.antt =====
-- quantas/StableDataLinkPeer/StableDataLinkPeer.{hpp,cpp}: a stop-and-wait data link. A round is the
-- argument `round` (RoundManager::currentRound()); the messages that a peer has sent are kept in
-- `outbox`, oldest first. The counters, `int` in the source, are numbers that do not wrap; a
-- message number, which a message may lack, is an integer.
pub mod System
pub mod Progress
pub mod Safety
pub mod Refinement
mod Tests
use quantas.Common.{
  ℕ, ◌+◌, Bool, true, false, not, ◌&&◌, List, [], ◌∷◌, ◌++◌, ltb, leb, ◌==◌, if◌then◌else◌,
}
use quantas.Common.Int.{ℤ, pos, ltb_ℤ, eqb_ℤ, pos_part}

-- message["action"]; `other_action` is any other text, and that of a message without the key.
pub data Action : Type 0 where
  ack_action data_action other_action : Action

-- The keys that the peer writes and reads; `message_num` is -1 for a message without the key.
pub record Message : Type 0 where
  pub action : Action
  pub round_submitted : ℕ
  pub message_num : ℤ

pub record Peer : Type 0 where
  pub public_id : ℕ
  -- neighbors(), least id first
  pub neighbors : List ℕ
  pub requests_satisfied : ℕ
  pub messages_sent : ℕ
  pub time_out_rate : ℕ
  pub previous_message_round : ℕ
  pub next_message_num : ℕ
  pub last_sent_message_num : ℕ
  pub last_delivered_message_num : ℕ
  pub awaiting_ack : Bool
  pub outbox : List (ℕ × Message)

-- A peer as its constructor leaves it, with the id and the neighbours that the network gives it.
pub new_peer : ℕ → List ℕ → Peer
new_peer id nbrs = record {
  public_id = id;
  neighbors = nbrs;
  requests_satisfied = 0;
  messages_sent = 0;
  time_out_rate = 4;
  previous_message_round = 0;
  next_message_num = 1;
  last_sent_message_num = 0;
  last_delivered_message_num = 0;
  awaiting_ack = false;
  outbox = [];
}

first_or : List ℕ → ℕ → ℕ
first_or [] d = d
first_or (n ∷ ns) d = n

pub partner_id : Peer → ℕ
unfolding first_or
partner_id p = first_or p.neighbors (if p.public_id == 0 then 1 else 0)

pub send_message : ℕ → ℕ → Message → Peer → Peer
send_message round peer message p = record p {
  outbox = p.outbox ++ (peer, message) ∷ [];
  messages_sent = p.messages_sent + 1;
  previous_message_round = round;
}

pub data_message : ℕ → ℕ → Message
data_message round num = record {
  action = data_action;
  round_submitted = round;
  message_num = pos num;
}

pub ack_message : ℕ → ℤ → Message
ack_message round num = record { action = ack_action; round_submitted = round; message_num = num }

pub send_data : ℕ → ℕ → Peer → Peer
unfolding data_message send_message
send_data round num p = send_message round (partner_id p) (data_message round num) p

pub submit_trans : ℕ → Peer → Peer
unfolding send_data
submit_trans round p =
    if not (p.public_id == 0)
    then p
    else let marked : Peer = record p {
      last_sent_message_num = p.next_message_num;
      awaiting_ack = true;
    } in
      let sent = send_data round marked.next_message_num marked in
      record sent { next_message_num = sent.next_message_num + 1 }

pub resend_data : ℕ → Peer → Peer
unfolding send_data
resend_data round p =
    if not p.awaiting_ack
    then p
    else if leb p.last_sent_message_num 0
    then p
    else send_data round p.last_sent_message_num p

pub send_ack : ℕ → ℤ → Peer → Peer
unfolding ack_message send_message
send_ack round num p =
    if ltb_ℤ num (pos 0) then p else send_message round (partner_id p) (ack_message round num) p

pub handle_ack : ℕ → ℤ → Peer → Peer
unfolding submit_trans
handle_ack round num p =
    if not (p.public_id == 0)
    then p
    else if not p.awaiting_ack
    then p
    else if not (eqb_ℤ num (pos p.last_sent_message_num))
    then p
    else submit_trans round (record p {
      previous_message_round = round;
      awaiting_ack = false;
      requests_satisfied = p.requests_satisfied + 1;
    })

pub handle_data : ℕ → ℤ → Peer → Peer
unfolding send_ack
handle_data round num p =
    if ltb_ℤ num (pos 0)
    then p
    else let heard : Peer = record p { previous_message_round = round } in
      send_ack round num (
        if ltb_ℤ (pos heard.last_delivered_message_num) num
        then record heard { last_delivered_message_num = pos_part num }
        else heard)

-- The body of the loop over the input stream.
pub handle_message : ℕ → Message → Peer → Peer
unfolding handle_ack handle_data
handle_message round m p = elim m.action [
  | ack_action ↦ handle_ack round m.message_num p
  | data_action ↦ handle_data round m.message_num p
  | other_action ↦ p
]

-- while (!inStreamEmpty()) …
pub drain : ℕ → List Message → Peer → Peer
drain round [] p = p
drain round (m ∷ ms) p = drain round ms (handle_message round m p)

pub submit_first : ℕ → Peer → Peer
unfolding submit_trans
submit_first round p =
    if p.public_id == 0 && not p.awaiting_ack && p.next_message_num == 1
    then submit_trans round p
    else p

pub resend_late : ℕ → Peer → Peer
unfolding resend_data
resend_late round p =
    if p.public_id == 0 && p.awaiting_ack && ltb (p.previous_message_round + p.time_out_rate) round
    then resend_data round p
    else p

pub perform_computation : ℕ → List Message → Peer → Peer
unfolding submit_first drain resend_late
perform_computation round inbox p = resend_late round (drain round inbox (submit_first round p))
