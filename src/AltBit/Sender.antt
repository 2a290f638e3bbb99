-- ===== src/AltBit/Sender.antt =====
-- AltBitPeer.cpp: the numbers of the peer that sends the data.
use quantas.Common.{
  ℕ, ◌+◌, ◌≤◌, ◌≡◌, refl, ◌≢◌, inl, inr, true, ◌&&◌, List, [], ◌∷◌, length, length-append, arith,
  leb, ◌==◌, Bool-cases,
}
use quantas.Common.Predicates.{All, All-concat, All-mono}
use quantas.AltBit.{
  ack_action, data_action, other_action, Message, Peer, send_message, numbered, submit_trans,
  handle_message, drain, resend_late, perform_computation,
}

-- Peer 0 has counted every number below its own, has sent none above it, and counts what it sends.
pub record IsSender (p : Peer) : Type 0 where
  pub is_first : p.public_id ≡ 0
  pub counted : p.ns ≡ p.requests_satisfied + 1
  pub none_ahead : All (λ s. s.1.message_num ≤ p.ns) p.outbox
  pub all_counted : length p.outbox ≡ p.messages_sent

-- No message is data.
abbrev pub IsAnswer : Message → Type 0
IsAnswer m = m.action ≢ data_action

send-IsSender :
    (peer : ℕ) (m : Message) (p : Peer)
    → m.message_num ≤ p.ns
    → IsSender p
    → IsSender (send_message peer m p)
unfolding send_message
send-IsSender peer m p le i = record {
  is_first = i.is_first;
  counted = i.counted;
  none_ahead = All-concat (λ s. s.1.message_num ≤ p.ns) p.outbox (peer, m) i.none_ahead le;
  all_counted = omega (arith, i.all_counted, length-append p.outbox ((peer, m) ∷ []));
}

submit_trans-IsSender : (round : ℕ) (p : Peer) → IsSender p → IsSender (submit_trans round p)
unfolding submit_trans numbered
submit_trans-IsSender round p i =
    let s = send-IsSender 1 (numbered data_action round p) p (omega arith) i in
    record {
      is_first = s.is_first;
      counted = s.counted;
      none_ahead = s.none_ahead;
      all_counted = s.all_counted;
    }

handle_message-IsSender :
    (round : ℕ) (m : Message) (p : Peer)
    → IsAnswer m
    → IsSender p
    → IsSender (handle_message round m p)
unfolding handle_message
handle_message-IsSender round m p answer i =
    elim m.action as (λ a. m.action ≡ a → IsSender (handle_message round m p)) [
      | ack_action ↦ λ is_ack. elim (Bool-cases (m.message_num == p.ns)) [
        | inr other ↦ rw (is_ack, other, handle_message) i
        | inl same ↦
            let next : Peer = record p {
              previous_message_round = round;
              requests_satisfied = p.requests_satisfied + 1;
              ns = p.ns + 1;
            } in
            let sender : IsSender next = record {
              is_first = i.is_first;
              counted = omega (arith, i.counted);
              none_ahead =
                  All-mono (λ s. s.1.message_num ≤ p.ns) (λ s. s.1.message_num ≤ p.ns + 1) p.outbox
                    (λ s le. omega (arith, le)) i.none_ahead;
              all_counted = i.all_counted;
            } in
            rw (is_ack, same, handle_message) (submit_trans-IsSender round next sender)
      ]
      | data_action ↦ λ is_data. absurd (answer is_data)
      | other_action ↦ λ is_other. rw (is_other, handle_message) i
    ]
      refl

drain-IsSender :
    (round : ℕ) (ms : List Message) (p : Peer)
    → All IsAnswer ms
    → IsSender p
    → IsSender (drain round ms p)
unfolding drain
drain-IsSender round [] p answers i = i
drain-IsSender round (m ∷ ms) p answers i =
    drain-IsSender round ms (handle_message round m p) answers.1
      (handle_message-IsSender round m p answers.0 i)

-- The peer with the round of its last message set.
IsSender-at :
    (round : ℕ) (p : Peer) → IsSender p → IsSender (record p { previous_message_round = round })
IsSender-at round p i = record {
  is_first = i.is_first;
  counted = i.counted;
  none_ahead = i.none_ahead;
  all_counted = i.all_counted;
}

resend_late-IsSender : (round : ℕ) (p : Peer) → IsSender p → IsSender (resend_late round p)
unfolding resend_late numbered
resend_late-IsSender round p i =
    let now : Peer = record p { previous_message_round = round } in
    elim (Bool-cases (leb round (p.previous_message_round + p.time_out_rate))) [
      | inl early ↦ rw (early, resend_late) i
      | inr late ↦
          let first : (p.public_id == 0) ≡ true = ground (arith, i.is_first) in
          rw (late, first, resend_late)
            (send-IsSender 1 (numbered data_action round p) now (omega arith)
              (IsSender-at round p i))
    ]

-- Peer 0, as long as it reads no data, keeps its books in each round, whatever it reads and however
-- late: its number is one more than the requests that it has counted, it has sent no number above
-- that, and it has counted each message that it sent.
pub perform_computation-IsSender :
    (round : ℕ) (ms : List Message) (p : Peer)
    → All IsAnswer ms
    → IsSender p
    → IsSender (perform_computation round ms p)
unfolding perform_computation
perform_computation-IsSender round ms p answers i =
    let read = drain-IsSender round ms p answers i in
    let q = drain round ms p in
    elim (Bool-cases (q.messages_sent == 0 && q.public_id == 0)) [
      | inl start ↦ rw (start, perform_computation) (submit_trans-IsSender round q read)
      | inr going ↦ rw (going, perform_computation) (resend_late-IsSender round q read)
    ]
