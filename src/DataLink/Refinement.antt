-- ===== src/DataLink/Refinement.antt =====
-- What the two peers of StableDataLinkPeer.cpp promise, as a machine of three counters, and that their
-- system implements it.
use quantas.Common.{
  ℕ, ◌+◌, ◌≤◌, ◌<◌, ◌≡◌, refl, sym, ap, subst, ◌∙◌, inl, inr, not, ◌&&◌, List, [], ◌∷◌, arith, ◌==◌,
  Bool-cases,
}
use quantas.Common.Int.{ℤ, pos, ◌≤ℤ◌, eqb_ℤ, ltb_ℤ}
use quantas.Common.Predicates.{All, Elem, All-Elem}
use quantas.DataLink.{
  Message, Peer, submit_trans, send_ack, handle_ack, handle_data, handle_message, drain,
  submit_first, resend_late, resend_data, perform_computation, send_data, send_message,
}
use quantas.DataLink.System.{
  System, initial, Step, Reach, Deliverable, sender_turn, receiver_turn, here, next,
}
use quantas.DataLink.Safety.{Reach-IsSafe, Reach-window}
use quantas.DataLink.Safety.Peers.{
  DataUpTo, AckUpTo, SentData, SentAcks, IsSender, handle_message-IsSender, submit_first-IsSender,
}

-- Requests sent, delivered and known to be delivered.
pub record Window : Type 0 where
  pub sent : ℕ
  pub delivered : ℕ
  pub satisfied : ℕ

abbrev pub window : ℕ → ℕ → ℕ → Window
window sent delivered satisfied = record {
  sent = sent;
  delivered = delivered;
  satisfied = satisfied;
}

-- One request at a time: it is sent when all are satisfied, delivered once, and satisfied after that.
pub data Act : Window → Window → Type 0 where
  submits : (l d r : ℕ) → l ≡ r → Act (window l d r) (window (l + 1) d r)
  delivers : (l d r : ℕ) → d < l → Act (window l d r) (window l (d + 1) r)
  satisfies : (l d r : ℕ) → r < d → Act (window l d r) (window l d (r + 1))

pub data Acts : Window → Window → Type 0 where
  idle : (w : Window) → Acts w w
  acts : {v w x : Window} → Acts v w → Act w x → Acts v x

Acts-trans : {v w x : Window} → Acts v w → Acts w x → Acts v x
Acts-trans first (idle w) = first
Acts-trans first (acts second act) = acts (Acts-trans first second) act

unfoldable pub view : System → Window
view s =
    window s.sender.last_sent_message_num s.receiver.last_delivered_message_num
      s.sender.requests_satisfied

-- The sender's share of the window.
abbrev sending : ℕ → Peer → Window
sending d p = window p.last_sent_message_num d p.requests_satisfied

sending-eq :
    (d : ℕ) (p q : Peer)
    → q.last_sent_message_num ≡ p.last_sent_message_num
    → q.requests_satisfied ≡ p.requests_satisfied
    → Acts (sending d p) (sending d q)
sending-eq d p q e g = rw (e, g) (idle (sending d p))

handle_ack-Acts :
    (round d : ℕ) (num : ℤ) (p : Peer)
    → num ≤ℤ pos d
    → IsSender d p
    → Acts (sending d p) (sending d (handle_ack round num p))
unfolding handle_ack submit_trans send_data send_message
handle_ack-Acts round d num p le v =
    let q = handle_ack round num p in
    elim (Bool-cases (p.awaiting_ack && eqb_ℤ num (pos p.last_sent_message_num))) [
      | inr ignored ↦
          sending-eq d p q (ground (arith, ignored, v.id)) (ground (arith, ignored, v.id))
      | inl taken ↦
          let sent : q.last_sent_message_num ≡ p.last_sent_message_num + 1 =
            ground (arith, taken, v.id, v.numbered) in
          let counted : q.requests_satisfied ≡ p.requests_satisfied + 1 =
            ground (arith, taken, v.id) in
          let due : p.requests_satisfied < d = ground (arith, taken, le, v.waiting) in
          let level : p.last_sent_message_num ≡ p.requests_satisfied + 1 =
            ground (arith, taken, v.waiting) in
          rw (sent, counted)
            (acts (acts (idle _) (satisfies p.last_sent_message_num d p.requests_satisfied due))
              (submits p.last_sent_message_num d (p.requests_satisfied + 1) level))
    ]

drain-Acts :
    (round d : ℕ) (from : Peer) (ms : List Message) (p : Peer)
    → SentAcks d from.outbox
    → All (λ m. Elem (0, m) from.outbox) ms
    → IsSender d p
    → Acts (sending d p) (sending d (drain round ms p))
unfolding drain SentAcks handle_message
drain-Acts round d from [] p acked del v = idle (sending d p)
drain-Acts round d from (m ∷ ms) p acked del v =
    let a = All-Elem (AckUpTo d) from.outbox (0, m) acked del.0 in
    let q = handle_message round m p in
    let first : Acts (sending d p) (sending d q) =
      rw (a.0, handle_message) (handle_ack-Acts round d m.message_num p a.1 v) in
    Acts-trans first
      (drain-Acts round d from ms q acked del.1 (handle_message-IsSender round d 0 m p a v))

submit_first-Acts :
    (round d : ℕ) (p : Peer) → IsSender d p → Acts (sending d p) (sending d (submit_first round p))
unfolding submit_first submit_trans send_data send_message
submit_first-Acts round d p v =
    let q = submit_first round p in
    elim (Bool-cases (p.public_id == 0 && not p.awaiting_ack && p.next_message_num == 1)) [
      | inr later ↦ sending-eq d p q (ground (arith, later)) (ground (arith, later))
      | inl first ↦
          let sent : q.last_sent_message_num ≡ p.last_sent_message_num + 1 =
            ground (arith, first, v.id, v.numbered) in
          let kept : q.requests_satisfied ≡ p.requests_satisfied = ground (arith, first) in
          let level : p.last_sent_message_num ≡ p.requests_satisfied =
            ground (arith, first, v.idle) in
          rw (sent, kept)
            (acts (idle _) (submits p.last_sent_message_num d p.requests_satisfied level))
    ]

resend_late-Acts : (round d : ℕ) (p : Peer) → Acts (sending d p) (sending d (resend_late round p))
unfolding resend_late resend_data send_data send_message
resend_late-Acts round d p = sending-eq d p (resend_late round p) (ground arith) (ground arith)

sender-Acts :
    (round d : ℕ) (from : Peer) (ms : List Message) (p : Peer)
    → SentAcks d from.outbox
    → Deliverable from p ms
    → IsSender d p
    → Acts (sending d p) (sending d (perform_computation round ms p))
unfolding perform_computation
sender-Acts round d from ms p acked del v =
    let q = submit_first round p in
    let to_0 = subst (λ i. All (λ m. Elem (i, m) from.outbox) ms) v.id del in
    let read = drain-Acts round d from ms q acked to_0 (submit_first-IsSender round d p v) in
    Acts-trans (Acts-trans (submit_first-Acts round d p v) read)
      (resend_late-Acts round d (drain round ms q))

-- The receiver's share.
abbrev receiving : ℕ → ℕ → Peer → Window
receiving l r p = window l p.last_delivered_message_num r

handle_data-Acts :
    (round l r : ℕ) (num : ℤ) (p : Peer)
    → num ≤ℤ pos l
    → l ≤ r + 1
    → r ≤ p.last_delivered_message_num
    → Acts (receiving l r p) (receiving l r (handle_data round num p))
      × (r ≤ (handle_data round num p).last_delivered_message_num)
unfolding handle_data send_ack send_message
handle_data-Acts round l r num p le near behind =
    let q = handle_data round num p in
    elim (Bool-cases (not (ltb_ℤ num (pos 0)) && ltb_ℤ (pos p.last_delivered_message_num) num)) [
      | inr old ↦
          let same : q.last_delivered_message_num ≡ p.last_delivered_message_num =
            ground (arith, old) in
          (rw same (idle (receiving l r p)), omega (arith, same, behind))
      | inl new ↦
          let one : q.last_delivered_message_num ≡ p.last_delivered_message_num + 1 =
            ground (arith, new, le, near, behind) in
          let due : p.last_delivered_message_num < l = ground (arith, new, le) in
          (
            rw one (acts (idle _) (delivers l p.last_delivered_message_num r due)),
            omega (arith, one, behind),
          )
    ]

drain_data-Acts :
    (round l r id : ℕ) (from : Peer) (ms : List Message) (p : Peer)
    → SentData l from.outbox
    → All (λ m. Elem (id, m) from.outbox) ms
    → l ≤ r + 1
    → r ≤ p.last_delivered_message_num
    → Acts (receiving l r p) (receiving l r (drain round ms p))
unfolding drain SentData handle_message
drain_data-Acts round l r id from [] p sent del near behind = idle (receiving l r p)
drain_data-Acts round l r id from (m ∷ ms) p sent del near behind =
    let a = All-Elem (DataUpTo l) from.outbox (id, m) sent del.0 in
    let q = handle_message round m p in
    let step = handle_data-Acts round l r m.message_num p a.1 near behind in
    let is : q ≡ handle_data round m.message_num p = rw (a.0, handle_message) refl in
    let first : Acts (receiving l r p) (receiving l r q) =
      subst (λ u. Acts (receiving l r p) (receiving l r u)) (sym is) step.0 in
    let still : r ≤ q.last_delivered_message_num =
      subst (λ u. r ≤ u.last_delivered_message_num) (sym is) step.1 in
    Acts-trans first (drain_data-Acts round l r id from ms q sent del.1 near still)

submit_first-other : (round : ℕ) (p : Peer) → ¬ (p.public_id ≡ 0) → submit_first round p ≡ p
unfolding submit_first
submit_first-other round p other = ground (arith, other)

resend_late-delivered :
    (round : ℕ) (p : Peer)
    → (resend_late round p).last_delivered_message_num ≡ p.last_delivered_message_num
unfolding resend_late resend_data send_data send_message
resend_late-delivered round p = ground arith

receiver-Acts :
    (round l r : ℕ) (from : Peer) (ms : List Message) (p : Peer)
    → SentData l from.outbox
    → Deliverable from p ms
    → ¬ (p.public_id ≡ 0)
    → l ≤ r + 1
    → r ≤ p.last_delivered_message_num
    → Acts (receiving l r p) (receiving l r (perform_computation round ms p))
unfolding perform_computation
receiver-Acts round l r from ms p sent del other near behind =
    let q = drain round ms p in
    let read = drain_data-Acts round l r p.public_id from ms p sent del near behind in
    let same : (perform_computation round ms p).last_delivered_message_num
        ≡ q.last_delivered_message_num =
      ap (λ u. (resend_late round (drain round ms u)).last_delivered_message_num)
        (submit_first-other round p other)
      ∙ resend_late-delivered round q in
    subst (λ k. Acts (receiving l r p) (window l k r)) (sym same) read

Step-Acts : {s t : System} → Step s t → Reach initial s → Acts (view s) (view t)
unfolding view
Step-Acts (sender_turn s round inbox del) r =
    let v = Reach-IsSafe r in
    sender-Acts round s.receiver.last_delivered_message_num s.receiver inbox s.sender
      v.receiving.acked del v.sending
Step-Acts (receiver_turn s round inbox del) r =
    let v = Reach-IsSafe r in
    let w = Reach-window r in
    receiver-Acts round s.sender.last_sent_message_num s.sender.requests_satisfied s.sender inbox
      s.receiver v.sending.sent del v.receiving.id w.2 w.0

history : {s : System} → Reach initial s → Acts (window 0 0 0) (view s)
unfolding view initial
history here = idle (window 0 0 0)
history (next r step) = Acts-trans (history r) (Step-Acts step r)

-- Whatever the network loses, repeats, delays or reorders, the two peers implement the machine that
-- sends one request at a time, delivers it once and only then counts it: each of their turns is a run of
-- that machine, and so is every history.
pub Reach-Acts :
    {s t : System}
    → Reach initial s
    → Step s t
    → Acts (view s) (view t) × Acts (window 0 0 0) (view t)
Reach-Acts r step = (Step-Acts step r, Acts-trans (history r) (Step-Acts step r))
