-- ===== src/Channel.antt =====
-- quantas/Common/Packet.hpp, quantas/Common/Abstract/Channel.{hpp,cpp} and the loop over one channel
-- of NetworkInterfaceAbstract::receive. What the generators answer is an argument: whether a packet is
-- dropped, and for each copy of it the number drawn for its delay and whether it is duplicated. The
-- bodies of the packets are of any type. Counters do not wrap. A channel whose parameters make the
-- generators throw is not modelled.
pub mod Push
pub mod Receive
pub mod Tests
use quantas.Common.{
  ℕ, zero, suc, ◌+◌, ◌-◌, ◌^◌, Bool, true, false, not, ◌&&◌, ◌||◌, Option, none, some, List, [],
  ◌∷◌, ◌++◌, length, ltb, leb, ◌==◌, if◌then◌else◌,
}
use quantas.Common.Int.{ℤ, pos, negsuc, pos_part, ltb_ℤ, eqb_ℤ}

pub record Packet (M : Type 0) : Type 0 where
  pub target_id : Option ℕ
  pub source_id : Option ℕ
  pub body : M
  pub delay : ℕ
  pub round : ℕ

pub data DelayStyle : Type 0 where
  ds_uniform ds_poisson ds_one : DelayStyle

pub record ChannelProperties : Type 0 where
  pub delay_style : DelayStyle
  pub max_msgs_rec : ℕ
  pub size : ℤ
  pub min_delay : ℤ
  pub max_delay : ℤ

-- `size` as canSend compares it with the length of the queue: an int that becomes a size_t.
unfoldable pub capacity : ChannelProperties → ℕ
capacity props = elim props.size [ pos n ↦ n | negsuc n ↦ 2 ^ 64 - (n + 1) ]

-- A throughput of 0 forbids sending, and one below 0 does not bound it.
pub record Channel (M : Type 0) : Type 0 where
  pub properties : ChannelProperties
  pub throughput_left : ℤ
  pub packet_queue : List (Packet M)

-- What is drawn for the copies of one packet, by their number from 0.
pub record Draws : Type 0 where
  pub dropped : Bool
  pub delay : ℕ → ℤ
  pub duplicate : ℕ → Bool

unfoldable pub clamp : ℤ → ℤ → ℤ → ℤ
clamp d low high = if ltb_ℤ d low then low else if ltb_ℤ high d then high else d

-- `drawn` is what uniformInt or poissonInt answers, uniformInt within its bounds. They answer where the
-- least delay is not above the greatest and the mean of the Poisson distribution is positive; for other
-- parameters they throw, and nothing is said of such a channel.
unfoldable pub compute_random_delay : ChannelProperties → ℤ → ℤ
unfolding clamp
compute_random_delay props drawn = elim props.delay_style [
  | ds_uniform ↦ drawn
  | ds_poisson ↦ clamp drawn props.min_delay props.max_delay
  | ds_one ↦ pos 1
]

-- `setDelay(d, d)`
unfoldable pub fixed_delay : ℤ → ℕ
fixed_delay d = if ltb_ℤ d (pos 1) then 1 else pos_part d

unfoldable pub consume : ℤ → ℤ
consume (pos zero) = pos zero
consume (pos (suc n)) = pos n
consume (negsuc n) = negsuc n

module _ {M : Type 0} where
  -- Packet() in a round, then setSource, setTarget and setMessage
  unfoldable pub new_packet : ℕ → ℕ → ℕ → M → Packet M
  new_packet round source target body = record {
    target_id = some target;
    source_id = some source;
    body = body;
    delay = 0;
    round = round;
  }

  unfoldable pub has_arrived : ℕ → Packet M → Bool
  has_arrived now p = leb (p.round + p.delay) now

  unfoldable pub can_send : Channel M → Bool
  can_send ch =
      not (eqb_ℤ ch.throughput_left (pos 0))
      && ltb (length ch.packet_queue) (capacity ch.properties)

  -- One more copy in the queue.
  unfoldable pub push_copy : ℤ → Packet M → Channel M → Channel M
  unfolding compute_random_delay fixed_delay consume
  push_copy drawn p ch = record ch {
    throughput_left = consume ch.throughput_left;
    packet_queue =
        ch.packet_queue
        ++ record p { delay = fixed_delay (compute_random_delay ch.properties drawn) } ∷ [];
  }

  -- do … while (duplicate), from copy `k` on; `none` if the fuel is used up.
  unfoldable pub push_copies : ℕ → ℕ → Draws → Packet M → Channel M → Option (Channel M)
  unfolding push_copy can_send
  push_copies zero k draws p ch = none
  push_copies (suc fuel) k draws p ch =
      let pushed = push_copy (draws.delay k) p ch in
      let rest = push_copies fuel (k + 1) draws p pushed in
      if not (can_send ch) then some ch else if draws.duplicate k then rest else some pushed

  unfoldable pub push_packet : ℕ → Draws → Packet M → Channel M → Option (Channel M)
  push_packet fuel draws p ch = if draws.dropped then some ch else push_copies fuel 0 draws p ch

  -- `shuffle` is what std::shuffle makes of the queue, `reorder` what is drawn.
  unfoldable pub shuffle_channel :
      (List (Packet M) → List (Packet M)) → Bool → Channel M → Channel M
  shuffle_channel shuffle reorder ch =
      if ltb 1 (length ch.packet_queue) && reorder
      then record ch { packet_queue = shuffle ch.packet_queue }
      else ch

  -- The packets that the loop of `receive` takes from a queue, and those that it leaves.
  unfoldable pub take_arrived : ℕ → ℕ → List (Packet M) → List (Packet M) × List (Packet M)
  take_arrived now zero ps = ([], ps)
  take_arrived now (suc room) [] = ([], [])
  take_arrived now (suc room) (p ∷ ps) =
      let rest = take_arrived now room ps in
      if has_arrived now p then (p ∷ rest.0, rest.1) else ([], p ∷ ps)

  -- The channel afterwards, and the peer's stream.
  unfoldable pub receive_channel :
      ℕ
      → (List (Packet M) → List (Packet M))
      → Bool
      → Channel M
      → List (Packet M)
      → Channel M × List (Packet M)
  unfolding shuffle_channel take_arrived
  receive_channel now shuffle reorder ch in_stream =
      let ready = shuffle_channel shuffle reorder ch in
      let split = take_arrived now ready.properties.max_msgs_rec ready.packet_queue in
      (record ready { packet_queue = split.1 }, in_stream ++ split.0)
