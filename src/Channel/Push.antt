-- ===== src/Channel/Push.antt =====
-- Channel.cpp, pushPacket: the loop ends, and what it leaves in the queue.
use quantas.Common.{
  ℕ, zero, suc, ◌+◌, ◌≤◌, ◌<◌, ◌≡◌, refl, sym, ap, subst, ◌∙◌, inl, inr, true, some, eq_of_some,
  List, [], ◌∷◌, ◌++◌, length, length-append, arith, Bool-cases,
}
use quantas.Common.Int.{ℤ}
use quantas.Common.Predicates.{All}
use quantas.Channel.{
  capacity, Packet, Channel, Draws, compute_random_delay, fixed_delay, consume, can_send, push_copy,
  push_copies, push_packet,
}

append_assoc : {A : Type 0} (xs ys zs : List A) → (xs ++ ys) ++ zs ≡ xs ++ (ys ++ zs)
append_assoc [] ys zs = refl
append_assoc (x ∷ xs) ys zs = ap (λ t. x ∷ t) (append_assoc xs ys zs)

pub append_nil : {A : Type 0} (xs : List A) → xs ++ [] ≡ xs
append_nil [] = refl
append_nil (x ∷ xs) = ap (λ t. x ∷ t) (append_nil xs)

-- What is left of a throughput after some sends: one below 0 is not used up.
pub spend : ℕ → ℤ → ℤ
spend zero z = z
spend (suc n) z = spend n (consume z)

module _ {M : Type 0} where
  -- The same packet, late by a round or more.
  abbrev pub IsCopy : Packet M → Packet M → Type 0
  IsCopy p c =
      (c.body ≡ p.body)
      × (c.target_id ≡ p.target_id)
      × (c.source_id ≡ p.source_id)
      × (c.round ≡ p.round)
      × (1 ≤ c.delay)

  pub record Pushed (p : Packet M) (s t : Channel M) : Type 0 where
    pub copies : List (Packet M)
    pub appended : t.packet_queue ≡ s.packet_queue ++ copies
    pub all_copies : All (IsCopy p) copies
    pub same_properties : t.properties ≡ s.properties
    pub bounded :
        length s.packet_queue ≤ capacity s.properties
        → length t.packet_queue ≤ capacity s.properties
    pub spent : t.throughput_left ≡ spend (length copies) s.throughput_left

  Pushed-refl : (p : Packet M) (s : Channel M) → Pushed p s s
  unfolding spend
  Pushed-refl p s = record {
    copies = [];
    appended = sym (append_nil s.packet_queue);
    all_copies = tt;
    same_properties = refl;
    bounded = λ h. h;
    spent = refl;
  }

  Pushed-more :
      (drawn : ℤ) (p : Packet M) (s t : Channel M)
      → can_send s ≡ true
      → Pushed p (push_copy drawn p s) t
      → Pushed p s t
  unfolding push_copy can_send spend fixed_delay
  Pushed-more drawn p s t can r =
      let c : Packet M = record p {
        delay = fixed_delay (compute_random_delay s.properties drawn);
      } in
      record {
        copies = c ∷ r.copies;
        appended = r.appended ∙ append_assoc s.packet_queue (c ∷ []) r.copies;
        all_copies = ((refl, refl, refl, refl, ground arith), r.all_copies);
        same_properties = r.same_properties;
        bounded = λ h. r.bounded (ground (arith, length-append s.packet_queue (c ∷ []), can));
        spent = r.spent;
      }

  push_copies-Pushed :
      (fuel k : ℕ) (draws : Draws) (p : Packet M) (s t : Channel M)
      → push_copies fuel k draws p s ≡ some t
      → Pushed p s t
  unfolding push_copies
  push_copies-Pushed zero k draws p s t e = cc e
  push_copies-Pushed (suc fuel) k draws p s t e =
      let pushed = push_copy (draws.delay k) p s in
      elim (Bool-cases (can_send s)) [
        | inr full ↦
            subst (Pushed p s) (eq_of_some s t (rw (full, push_copies) at e)) (Pushed-refl p s)
        | inl can ↦ Pushed-more (draws.delay k) p s t can (elim (Bool-cases (draws.duplicate k)) [
          | inl again ↦
              push_copies-Pushed fuel (k + 1) draws p pushed t (rw (can, again, push_copies) at e)
          | inr once ↦
              subst (Pushed p pushed) (eq_of_some pushed t (rw (can, once, push_copies) at e))
                (Pushed-refl p pushed)
        ])
      ]

  length-push_copy :
      (drawn : ℤ) (p : Packet M) (s : Channel M)
      → length (push_copy drawn p s).packet_queue ≡ length s.packet_queue + 1
  unfolding push_copy
  length-push_copy drawn p s = omega (arith, length-append s.packet_queue (_ ∷ []))

  push_copies_returns :
      (fuel k : ℕ) (draws : Draws) (p : Packet M) (s : Channel M)
      → capacity s.properties < fuel + length s.packet_queue
      → length s.packet_queue ≤ capacity s.properties
      → (t : Channel M) × (push_copies fuel k draws p s ≡ some t)
  unfolding push_copies can_send
  push_copies_returns zero k draws p s enough room = absurd (omega (arith, enough, room))
  push_copies_returns (suc fuel) k draws p s enough room =
      let pushed = push_copy (draws.delay k) p s in
      let longer = length-push_copy (draws.delay k) p s in
      elim (Bool-cases (can_send s)) [
        | inr full ↦ (s, rw (full, push_copies) refl)
        | inl can ↦ elim (Bool-cases (draws.duplicate k)) [
          | inr once ↦ (pushed, rw (can, once, push_copies) refl)
          | inl again ↦
              let rest =
                push_copies_returns fuel (k + 1) draws p pushed (omega (arith, enough, longer))
                  (ground (arith, can, longer)) in
              (rest.0, rw (can, again, push_copies) rest.1)
        ]
      ]

  -- However often the packet is duplicated, as much fuel as the queue has room, and one more, is
  -- enough for pushPacket to end. It leaves the packets that were there in their places, adds copies
  -- of the packet behind them that arrive a round later or more, keeps the queue within its size, and
  -- spends the throughput by the number of copies.
  pub push_packet-Pushed :
      (fuel : ℕ) (draws : Draws) (p : Packet M) (s : Channel M)
      → capacity s.properties < fuel + length s.packet_queue
      → length s.packet_queue ≤ capacity s.properties
      → (t : Channel M) × (push_packet fuel draws p s ≡ some t) × Pushed p s t
  unfolding push_packet
  push_packet-Pushed fuel draws p s enough room = elim (Bool-cases draws.dropped) [
    | inl lost ↦ (s, rw lost refl, Pushed-refl p s)
    | inr kept ↦
        let (t, e) = push_copies_returns fuel 0 draws p s enough room in
        (t, ground (arith, kept, e), push_copies-Pushed fuel 0 draws p s t e)
  ]
