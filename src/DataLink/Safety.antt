-- ===== src/DataLink/Safety.antt =====
-- The invariant of the two-peer system of StableDataLinkPeer.cpp.
pub mod Peers
use quantas.Common.{
  ℕ, ◌+◌, ◌≤◌, ◌≡◌, refl, subst, ◌≢◌, true, false, List, [], ◌∷◌, ◌++◌, arith, Bool-cases,
}
use quantas.Common.Int.{ℤ, pos, pos_part, ◌≤ℤ◌}
use quantas.Common.Predicates.{All, Elem, All-concat, All-mono, All-Elem}
use quantas.DataLink.{
  Message, Peer, ack_action, data_action, submit_trans, handle_ack, handle_data, handle_message,
  drain, submit_first, resend_late, perform_computation, partner_id, data_message, ack_message,
}
use quantas.DataLink.Progress.{perform-Later}
use quantas.DataLink.System.{
  System, initial, Step, Reach, Deliverable, sender_turn, receiver_turn, here, next,
}
use quantas.DataLink.Safety.Peers.{
  DataUpTo, SentData, SentAcks, IsSender, IsReceiver, perform-IsSender, handle_message-IsReceiver,
  perform-IsReceiver,
}

pub record IsSafe (s : System) : Type 0 where
  pub sending : IsSender s.receiver.last_delivered_message_num s.sender
  pub receiving : IsReceiver s.sender.last_sent_message_num s.receiver

initial-IsSafe : IsSafe initial
unfolding initial SentData SentAcks
initial-IsSafe = record { sending = ground arith; receiving = ground arith }

Step-IsSafe : {s t : System} → Step s t → IsSafe s → IsSafe t
Step-IsSafe (sender_turn s round inbox del) v =
    let later = perform-Later round inbox s.sender v.sending.numbered in
    record {
      sending = perform-IsSender round _ s.receiver inbox s.sender v.receiving.acked del v.sending;
      receiving = record {
        id = v.receiving.id;
        numbered = v.receiving.numbered;
        delivered = omega (arith, later.last_sent, v.receiving.delivered);
        acked = v.receiving.acked;
      };
    }
Step-IsSafe (receiver_turn s round inbox del) v =
    let later = perform-Later round inbox s.receiver v.receiving.numbered in
    record {
      sending = record {
        id = v.sending.id;
        numbered = v.sending.numbered;
        waiting = v.sending.waiting;
        idle = v.sending.idle;
        satisfied = omega (arith, later.delivered, v.sending.satisfied);
        sent = v.sending.sent;
      };
      receiving =
          perform-IsReceiver round _ s.sender inbox s.receiver v.sending.sent del v.receiving;
    }

pub Reach-IsSafe : {s : System} → Reach initial s → IsSafe s
Reach-IsSafe here = initial-IsSafe
Reach-IsSafe (next r st) = Step-IsSafe st (Reach-IsSafe r)

-- Whatever the network loses, repeats, delays or reorders: a request counted as satisfied has been
-- delivered, what has been delivered has been sent, and the sender is at most one message ahead of
-- the requests that it counts.
pub Reach-window :
    {s : System}
    → Reach initial s
    → (s.sender.requests_satisfied ≤ s.receiver.last_delivered_message_num)
      × (s.receiver.last_delivered_message_num ≤ s.sender.last_sent_message_num)
      × (s.sender.last_sent_message_num ≤ s.sender.requests_satisfied + 1)
Reach-window {s} r =
    let v = Reach-IsSafe r in
    ground (arith, Bool-cases s.sender.awaiting_ack, v.sending, v.receiving)

-- In every reachable state, a message that the sender ever sent to the receiver raises the
-- receiver's last delivered number by one at most: no number is skipped.
pub Reach-no_gap :
    {s : System} (round : ℕ) (m : Message)
    → Reach initial s
    → Elem (s.receiver.public_id, m) s.sender.outbox
    → (handle_message round m s.receiver).last_delivered_message_num
      ≤ s.receiver.last_delivered_message_num + 1
unfolding SentData
Reach-no_gap {s} round m r sent =
    let v = Reach-IsSafe r in
    let fresh =
      All-Elem (DataUpTo s.sender.last_sent_message_num) s.sender.outbox _ v.sending.sent sent in
    let w = Reach-window r in
    omega (
      arith,
      (handle_message-IsReceiver round _ s.receiver.public_id m s.receiver fresh
          v.receiving).delivered,
      w,
    )
