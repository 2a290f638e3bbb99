-- ===== src/AltBit.antt =====
-- quantas/AltBitPeer/AltBitPeer.{hpp,cpp}: peer 0 sends numbered data to peer 1 and waits for the
-- acknowledgement of each. Message numbers are natural, as those that are sent are; the round is an
-- argument; what a peer sends goes to `outbox`, oldest first, with the peer that it is for.
pub mod Sender
pub mod Tests
use quantas.Common.{
  ℕ, zero, suc, ◌+◌, Bool, ◌&&◌, List, [], ◌∷◌, ◌++◌, ltb, leb, ◌==◌, if◌then◌else◌,
}

pub data Action : Type 0 where
  ack_action data_action other_action : Action

pub record Message : Type 0 where
  pub action : Action
  pub round_submitted : ℕ
  pub message_num : ℕ

pub record Peer : Type 0 where
  pub public_id : ℕ
  pub current_transaction : ℕ
  pub requests_satisfied : ℕ
  pub messages_sent : ℕ
  pub ns : ℕ
  pub time_out_rate : ℕ
  pub previous_message_round : ℕ
  pub outbox : List (ℕ × Message)

unfoldable pub send_message : ℕ → Message → Peer → Peer
send_message peer m p = record p {
  messages_sent = p.messages_sent + 1;
  outbox = p.outbox ++ (peer, m) ∷ [];
}

unfoldable pub numbered : Action → ℕ → Peer → Message
numbered action round p = record { action = action; round_submitted = round; message_num = p.ns }

unfoldable pub submit_trans : ℕ → Peer → Peer
unfolding numbered
submit_trans round p =
    let sent = send_message 1 (numbered data_action round p) p in
    record sent { current_transaction = sent.current_transaction + 1 }

unfoldable pub handle_message : ℕ → Message → Peer → Peer
handle_message round m p = elim m.action [
  | ack_action ↦
      if m.message_num == p.ns
      then submit_trans round (record p {
        previous_message_round = round;
        requests_satisfied = p.requests_satisfied + 1;
        ns = p.ns + 1;
      })
      else p
  | data_action ↦
      send_message 0 (record m { action = ack_action })
        (record p { previous_message_round = round; ns = m.message_num })
  | other_action ↦ p
]

unfoldable pub drain : ℕ → List Message → Peer → Peer
drain round [] p = p
drain round (m ∷ ms) p = drain round ms (handle_message round m p)

unfoldable pub resend_late : ℕ → Peer → Peer
resend_late round p =
    if leb round (p.previous_message_round + p.time_out_rate)
    then p
    else if p.public_id == 0
    then send_message 1 (numbered data_action round p) (record p { previous_message_round = round })
    else send_message 0 (numbered ack_action round p) (record p { previous_message_round = round })

unfoldable pub perform_computation : ℕ → List Message → Peer → Peer
perform_computation round ms p =
    let read = drain round ms p in
    if read.messages_sent == 0 && read.public_id == 0
    then submit_trans round read
    else resend_late round read

unfoldable pub init_parameters : ℕ → List Peer → List Peer
init_parameters rate [] = []
init_parameters rate (p ∷ ps) = record p { time_out_rate = rate } ∷ init_parameters rate ps

-- The sums that endOfRound logs in the last round: of the requests satisfied and of the messages sent.
unfoldable pub totals : List Peer → ℕ × ℕ
totals [] = (0, 0)
totals (p ∷ ps) = let rest = totals ps in (p.requests_satisfied + rest.0, p.messages_sent + rest.1)
