-- ===== src/AltBit/Tests.antt =====
-- AltBitPeer.cpp: peer 0 with one message on its way, and the theorem there.
use quantas.Common.{◌≡◌, refl, [], ◌∷◌, arith}
use quantas.AltBit.{
  Peer, Message, ack_action, data_action, send_message, numbered, submit_trans, handle_message,
  drain, resend_late, perform_computation,
}
use quantas.AltBit.Sender.{IsSender, perform_computation-IsSender}

abbrev waiting : Peer
waiting = record {
  public_id = 0;
  current_transaction = 2;
  requests_satisfied = 0;
  messages_sent = 1;
  ns = 1;
  time_out_rate = 4;
  previous_message_round = 0;
  outbox = (1, record { action = data_action; round_submitted = 0; message_num = 1 }) ∷ [];
}

abbrev ack_1 : Message
ack_1 = record { action = ack_action; round_submitted = 0; message_num = 1 }

-- The acknowledgement and its copy count once.
counted_once : (perform_computation 2 (ack_1 ∷ ack_1 ∷ []) waiting).requests_satisfied ≡ 1
unfolding perform_computation drain handle_message submit_trans send_message numbered resend_late
counted_once = refl

waiting-IsSender : IsSender waiting
waiting-IsSender = record {
  is_first = refl;
  counted = refl;
  none_ahead = (omega arith, tt);
  all_counted = refl;
}

perform_computation-IsSender_example : IsSender (perform_computation 2 (ack_1 ∷ ack_1 ∷ []) waiting)
perform_computation-IsSender_example =
    perform_computation-IsSender 2 (ack_1 ∷ ack_1 ∷ []) waiting ((λ e. cc e), ((λ e. cc e), tt))
      waiting-IsSender
