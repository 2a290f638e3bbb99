-- ===== src/Channel/Receive.antt =====
-- Channel.cpp and NetworkInterfaceAbstract.hpp, receive: which packets a peer takes from a channel.
use quantas.Common.{
  ℕ, zero, suc, ◌+◌, ◌≤◌, ◌<◌, ◌≡◌, refl, ap, subst, ◌∙◌, ◌⊎◌, inl, inr, Bool, true, false, ◌&&◌,
  some, List, [], ◌∷◌, ◌++◌, length, arith, ltb, leb, Bool-cases,
}
use quantas.Common.Predicates.{All-of_Elem, All, All-Elem, All-mono, Elem}
use quantas.Channel.{
  capacity, Packet, Channel, Draws, new_packet, has_arrived, push_packet, shuffle_channel,
  take_arrived, receive_channel,
}
use quantas.Channel.Push.{IsCopy, push_packet-Pushed, append_nil}

module _ {M : Type 0} where
  -- The first packet, if there is one, has not arrived.
  abbrev pub Waits : ℕ → List (Packet M) → Type 0
  Waits now [] = Unit
  Waits now (p ∷ ps) = has_arrived now p ≡ false

  -- What a peer takes from the packets of a channel, and what it leaves there.
  pub record Received (now room : ℕ) (ps taken left : List (Packet M)) : Type 0 where
    pub in_order : taken ++ left ≡ ps
    pub all_arrived : All (λ p. has_arrived now p ≡ true) taken
    pub bounded : length taken ≤ room
    pub no_more : (length taken ≡ room) ⊎ Waits now left

  take_arrived-Received :
      (now room : ℕ) (ps : List (Packet M))
      → Received now room ps (take_arrived now room ps).0 (take_arrived now room ps).1
  unfolding take_arrived
  take_arrived-Received now zero ps = record {
    in_order = refl;
    all_arrived = tt;
    bounded = omega arith;
    no_more = inl refl;
  }
  take_arrived-Received now (suc room) [] = record {
    in_order = refl;
    all_arrived = tt;
    bounded = omega arith;
    no_more = inr tt;
  }
  take_arrived-Received now (suc room) (p ∷ ps) =
      let r = take_arrived-Received now room ps in
      elim (Bool-cases (has_arrived now p)) [
        | inl here ↦ rw here (record {
          in_order = ap (λ t. p ∷ t) r.in_order;
          all_arrived = (here, r.all_arrived);
          bounded = omega (arith, r.bounded);
          no_more = elim r.no_more [ inl full ↦ inl (ap suc full) | inr waits ↦ inr waits ];
        })
        | inr away ↦ rw away (record {
          in_order = refl;
          all_arrived = tt;
          bounded = omega arith;
          no_more = inr away;
        })
      ]

  -- A peer takes from the front of the channel, shuffled or not, packets that have arrived, behind
  -- those that are in its stream already and in their order. It takes `maxMsgsRec` at most, and fewer
  -- only if the next one has not arrived or there is none; the others stay.
  pub receive_channel-Received :
      (now : ℕ) (shuffle : List (Packet M) → List (Packet M)) (reorder : Bool) (ch : Channel M)
      (in_stream : List (Packet M))
      → (taken : List (Packet M)) × ((receive_channel now shuffle reorder ch in_stream).1
          ≡ in_stream ++ taken)
        × Received now ch.properties.max_msgs_rec
            (shuffle_channel shuffle reorder ch).packet_queue
            taken
            (receive_channel now shuffle reorder ch in_stream).0.packet_queue
  unfolding receive_channel shuffle_channel
  receive_channel-Received now shuffle reorder ch in_stream =
      let ready = shuffle_channel shuffle reorder ch in
      let room = ready.properties.max_msgs_rec in
      let same : room ≡ ch.properties.max_msgs_rec = ground arith in
      (
        (take_arrived now room ready.packet_queue).0,
        refl,
        subst
            (λ n.
              Received now n ready.packet_queue (take_arrived now room ready.packet_queue).0
                (take_arrived now room ready.packet_queue).1)
            same (take_arrived-Received now room ready.packet_queue),
      )

  take_arrived-nothing :
      (now room : ℕ) (ps : List (Packet M))
      → All (λ p. now < p.round + p.delay) ps
      → take_arrived now room ps ≡ ([], ps)
  unfolding take_arrived has_arrived
  take_arrived-nothing now zero ps late = refl
  take_arrived-nothing now (suc room) [] late = refl
  take_arrived-nothing now (suc room) (p ∷ ps) late =
      let away : leb (p.round + p.delay) now ≡ false = ground (arith, late.0) in rw away refl

  All-shuffle_channel :
      (P : Packet M → Type 0) (shuffle : List (Packet M) → List (Packet M)) (reorder : Bool)
      (ch : Channel M)
      → ((ps : List (Packet M)) (p : Packet M) → Elem p (shuffle ps) → Elem p ps)
      → All P ch.packet_queue
      → All P (shuffle_channel shuffle reorder ch).packet_queue
  unfolding shuffle_channel
  All-shuffle_channel P shuffle reorder ch shuffles all =
      elim (Bool-cases (ltb 1 (length ch.packet_queue) && reorder)) [
        | inr still ↦ rw still all
        | inl mixed ↦ rw mixed (
            All-of_Elem P (shuffle ch.packet_queue)
              (λ p m. All-Elem P ch.packet_queue p all (shuffles ch.packet_queue p m)))
      ]

  -- A packet that is sent over an empty channel is not received in the round in which it is sent,
  -- nor is any copy of it, whatever is drawn and however the channel is shuffled.
  pub receive_channel-push_packet :
      (fuel now source target : ℕ) (body : M) (draws : Draws)
      (shuffle : List (Packet M) → List (Packet M)) (reorder : Bool) (s : Channel M)
      (in_stream : List (Packet M))
      → s.packet_queue ≡ []
      → capacity s.properties < fuel
      → ((ps : List (Packet M)) (p : Packet M) → Elem p (shuffle ps) → Elem p ps)
      → (t : Channel M) × (push_packet fuel draws (new_packet now source target body) s ≡ some t)
        × ((receive_channel now shuffle reorder t in_stream).1 ≡ in_stream)
  unfolding receive_channel shuffle_channel new_packet
  receive_channel-push_packet fuel now source target body draws shuffle reorder s in_stream empty
        enough shuffles =
      let p = new_packet now source target body in
      let none_there : length s.packet_queue ≡ 0 = ap length empty in
      let (t, e, pushed) =
        push_packet-Pushed fuel draws p s (omega (arith, enough, none_there))
          (omega (arith, none_there)) in
      let only : t.packet_queue ≡ pushed.copies =
        pushed.appended ∙ ap (λ q. q ++ pushed.copies) empty in
      let late : All (λ c. now < c.round + c.delay) pushed.copies =
        All-mono (IsCopy p) (λ c. now < c.round + c.delay) pushed.copies
          (λ c h. omega (arith, h.3, h.4)) pushed.all_copies in
      let ready = shuffle_channel shuffle reorder t in
      let ready_late =
        All-shuffle_channel (λ c. now < c.round + c.delay) shuffle reorder t shuffles
          (rw only late) in
      let nothing =
        take_arrived-nothing now ready.properties.max_msgs_rec ready.packet_queue ready_late in
      (t, e, ap (λ r. in_stream ++ r.0) nothing ∙ append_nil in_stream)
