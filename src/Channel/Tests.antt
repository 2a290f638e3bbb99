-- ===== src/Channel/Tests.antt =====
-- Channel.cpp with a queue of three packets at most, and the theorems there.
use quantas.Common.{ℕ, ◌+◌, ◌≡◌, refl, true, false, some, List, [], ◌∷◌, ◌++◌, arith}
use quantas.Common.Int.{pos}
use quantas.Channel.{
  capacity, Packet, ds_poisson, ChannelProperties, Channel, Draws, new_packet, push_packet,
  push_copies, push_copy, compute_random_delay, clamp, fixed_delay, consume, can_send,
  shuffle_channel, receive_channel,
}
use quantas.Channel.Push.{Pushed, push_packet-Pushed}
use quantas.Channel.Receive.{Received, receive_channel-Received, receive_channel-push_packet}

abbrev three_properties : ChannelProperties
three_properties = record {
  delay_style = ds_poisson;
  max_msgs_rec = 1;
  size = pos 3;
  min_delay = pos 1;
  max_delay = pos 4;
}

abbrev empty_channel : Channel ℕ
empty_channel = record { properties = three_properties; throughput_left = pos 5; packet_queue = [] }

-- Every copy is duplicated, and the delays drawn are too large.
abbrev all_duplicated : Draws
all_duplicated = record { dropped = false; delay = λ k. pos (k + 9); duplicate = λ k. true }

abbrev copy_of_7 : Packet ℕ
copy_of_7 = record (new_packet 2 0 1 7) { delay = 4 }

abbrev full_channel : Channel ℕ
full_channel = record {
  properties = three_properties;
  throughput_left = pos 2;
  packet_queue = copy_of_7 ∷ copy_of_7 ∷ copy_of_7 ∷ [];
}

full : push_packet 4 all_duplicated (new_packet 2 0 1 7) empty_channel ≡ some full_channel
unfolding push_packet push_copies push_copy compute_random_delay clamp fixed_delay consume can_send
    new_packet capacity
full = refl

push_packet-Pushed_example :
    (t : Channel ℕ) × (push_packet 4 all_duplicated (new_packet 2 0 1 7) empty_channel ≡ some t)
    × Pushed (new_packet 2 0 1 7) empty_channel t
unfolding capacity
push_packet-Pushed_example =
    push_packet-Pushed 4 all_duplicated (new_packet 2 0 1 7) empty_channel (omega arith)
      (omega arith)

receive_channel-Received_example :
    (taken : List (Packet ℕ)) × ((receive_channel 6 (λ ps. ps) true full_channel []).1
      ≡ [] ++ taken)
    × Received 6 1
        (shuffle_channel (λ ps. ps) true full_channel).packet_queue
        taken
        (receive_channel 6 (λ ps. ps) true full_channel []).0.packet_queue
receive_channel-Received_example = receive_channel-Received 6 (λ ps. ps) true full_channel []

receive_channel-push_packet_example :
    (t : Channel ℕ) × (push_packet 4 all_duplicated (new_packet 2 0 1 7) empty_channel ≡ some t)
    × ((receive_channel 2 (λ ps. ps) true t (copy_of_7 ∷ [])).1 ≡ copy_of_7 ∷ [])
unfolding capacity
receive_channel-push_packet_example =
    receive_channel-push_packet 4 2 0 1 7 all_duplicated (λ ps. ps) true empty_channel
      (copy_of_7 ∷ []) refl (omega arith) (λ ps p m. m)
