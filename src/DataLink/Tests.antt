-- ===== src/DataLink/Tests.antt =====
-- Runs of StableDataLinkPeer.cpp, and the theorems at concrete inputs.
use quantas.Common.{◌+◌, ◌≤◌, ◌≡◌, refl, inl, inr, [], ◌∷◌}
use quantas.Common.Int.{pos}
use quantas.DataLink.{
  Peer, handle_message, perform_computation, partner_id, data_message, ack_message, new_peer,
}
use quantas.DataLink.System.{System, Reach, initial, here, next, sender_turn, receiver_turn}
use quantas.DataLink.Progress.{perform_computation-ack}
use quantas.DataLink.Safety.{Reach-window, Reach-no_gap}
use quantas.DataLink.Refinement.{window, view, Acts, Reach-Acts}

abbrev started : Peer
started = perform_computation 1 [] (new_peer 0 (1 ∷ []))

-- The sender submits, the receiver answers, and the sender submits the next message.
abbrev exchanged : System
exchanged = record {
  sender = perform_computation 3 (ack_message 2 (pos 1) ∷ []) started;
  receiver = perform_computation 2 (data_message 1 1 ∷ []) (new_peer 1 (0 ∷ []));
}

exchanged_counts : exchanged.sender.requests_satisfied ≡ 1
unfolding new_peer perform_computation partner_id ack_message handle_message
exchanged_counts = refl

Reach-exchanged : Reach initial exchanged
unfolding initial new_peer perform_computation partner_id ack_message handle_message
Reach-exchanged =
    next
      (next (next here (sender_turn initial 1 [] tt))
        (receiver_turn _ 2 (data_message 1 1 ∷ []) (inl refl, tt)))
      (sender_turn _ 3 (ack_message 2 (pos 1) ∷ []) (inl refl, tt))

Reach-window_example :
    (exchanged.sender.requests_satisfied ≤ exchanged.receiver.last_delivered_message_num)
    × (exchanged.receiver.last_delivered_message_num ≤ exchanged.sender.last_sent_message_num)
    × (exchanged.sender.last_sent_message_num ≤ exchanged.sender.requests_satisfied + 1)
Reach-window_example = Reach-window Reach-exchanged

Reach-no_gap_example :
    (handle_message 4 (data_message 3 2) exchanged.receiver).last_delivered_message_num
    ≤ exchanged.receiver.last_delivered_message_num + 1
unfolding new_peer perform_computation partner_id ack_message handle_message
Reach-no_gap_example = Reach-no_gap 4 (data_message 3 2) Reach-exchanged (inr (inl refl))

perform_computation-ack_example :
    started.requests_satisfied + 1
    ≤ (perform_computation 3
        (data_message 2 7 ∷ ack_message 2 (pos 1) ∷ [])
        started).requests_satisfied
unfolding new_peer perform_computation partner_id ack_message handle_message
perform_computation-ack_example =
    perform_computation-ack 3 (ack_message 2 (pos 1))
      (data_message 2 7 ∷ ack_message 2 (pos 1) ∷ []) started refl refl refl refl refl
      (inr (inl refl))

-- The receiver reads the second message, and the first one again.
Reach-Acts_example :
    Acts (view exchanged) (
      view (record exchanged {
        receiver =
            perform_computation 5 (data_message 1 1 ∷ data_message 3 2 ∷ []) exchanged.receiver;
      }))
    × Acts (window 0 0 0) (
        view (record exchanged {
          receiver =
              perform_computation 5 (data_message 1 1 ∷ data_message 3 2 ∷ []) exchanged.receiver;
        }))
unfolding new_peer perform_computation partner_id ack_message handle_message
Reach-Acts_example = Reach-Acts Reach-exchanged (
    receiver_turn exchanged 5 (data_message 1 1 ∷ data_message 3 2 ∷ [])
      (inl refl, (inr (inl refl), tt)))
