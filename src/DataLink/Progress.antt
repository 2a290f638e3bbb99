-- ===== src/DataLink/Progress.antt =====
-- StableDataLinkPeer.cpp: which counters only grow, and what an acknowledgement and a timeout do.
use quantas.Common.{ℕ, ◌+◌, ◌≤◌, ◌≡◌, refl, ◌⊎◌, inl, inr, true, List, [], ◌∷◌, arith, sym, ap, ◌∙◌}
use quantas.Common.Int.{pos}
use quantas.Common.Predicates.{Elem}
use quantas.DataLink.{
  Message, Peer, ack_action, handle_message, drain, submit_first, resend_late, perform_computation,
}

-- From `p` to `q` the numbering goes on: the next number stays one above the last one sent.
pub record Later (p q : Peer) : Type 0 where
  pub numbered : q.next_message_num ≡ q.last_sent_message_num + 1
  pub last_sent : p.last_sent_message_num ≤ q.last_sent_message_num
  pub satisfied : p.requests_satisfied ≤ q.requests_satisfied
  pub delivered : p.last_delivered_message_num ≤ q.last_delivered_message_num
  pub id : q.public_id ≡ p.public_id

Later-trans : {p q r : Peer} → Later p q → Later q r → Later p r
Later-trans v w = ground arith

handle_message-Later :
    (round : ℕ) (m : Message) (p : Peer)
    → p.next_message_num ≡ p.last_sent_message_num + 1
    → Later p (handle_message round m p)
unfolding handle_message
handle_message-Later round m p h = ground arith

pub drain-Later :
    (round : ℕ) (ms : List Message) (p : Peer)
    → p.next_message_num ≡ p.last_sent_message_num + 1
    → Later p (drain round ms p)
unfolding drain
drain-Later round [] p h = omega arith
drain-Later round (m ∷ ms) p h =
    let first = handle_message-Later round m p h in
    Later-trans first (drain-Later round ms (handle_message round m p) first.numbered)

submit_first-Later :
    (round : ℕ) (p : Peer)
    → p.next_message_num ≡ p.last_sent_message_num + 1
    → Later p (submit_first round p)
unfolding submit_first
submit_first-Later round p h = ground arith

resend_late-Later :
    (round : ℕ) (p : Peer)
    → p.next_message_num ≡ p.last_sent_message_num + 1
    → Later p (resend_late round p)
unfolding resend_late
resend_late-Later round p h = ground arith

pub perform-Later :
    (round : ℕ) (ms : List Message) (p : Peer)
    → p.next_message_num ≡ p.last_sent_message_num + 1
    → Later p (perform_computation round ms p)
unfolding perform_computation
perform-Later round ms p h =
    let first = submit_first-Later round p h in
    let read = drain-Later round ms (submit_first round p) first.numbered in
    Later-trans first (
      Later-trans read
        (resend_late-Later round (drain round ms (submit_first round p)) read.numbered))

-- Reading a message either counts the request, or leaves the sender waiting for the same number.
handle_message_waits :
    (round : ℕ) (m : Message) (p : Peer)
    → p.public_id ≡ 0
    → p.awaiting_ack ≡ true
    → (p.requests_satisfied + 1 ≤ (handle_message round m p).requests_satisfied)
      ⊎ (((handle_message round m p).awaiting_ack ≡ true)
          × ((handle_message round m p).last_sent_message_num ≡ p.last_sent_message_num)
          × ((handle_message round m p).requests_satisfied ≡ p.requests_satisfied))
unfolding handle_message
handle_message_waits round m p id waits = ground arith

handle_message_counts :
    (round : ℕ) (m : Message) (p : Peer)
    → p.public_id ≡ 0
    → p.awaiting_ack ≡ true
    → m.action ≡ ack_action
    → m.message_num ≡ pos p.last_sent_message_num
    → (handle_message round m p).requests_satisfied ≡ p.requests_satisfied + 1
unfolding handle_message
handle_message_counts round m p id waits act num = ground arith

drain_counts :
    (round k : ℕ) (m : Message) (ms : List Message) (p : Peer)
    → p.next_message_num ≡ p.last_sent_message_num + 1
    → p.public_id ≡ 0
    → p.awaiting_ack ≡ true
    → m.action ≡ ack_action
    → m.message_num ≡ pos k
    → p.last_sent_message_num ≡ k
    → Elem m ms
    → p.requests_satisfied + 1 ≤ (drain round ms p).requests_satisfied
unfolding drain
drain_counts round k m [] p num id waits act is_k sent el = absurd el
drain_counts round k m (x ∷ xs) p num id waits act is_k sent (inl e) =
    let first = handle_message-Later round x p num in
    let rest = drain-Later round xs (handle_message round x p) first.numbered in
    let hit =
      handle_message_counts round x p id waits (rw (← e) act)
        (rw (← e) (is_k ∙ ap pos (sym sent))) in
    omega (arith, rest.satisfied, hit)
drain_counts round k m (x ∷ xs) p num id waits act is_k sent (inr el) =
    let first = handle_message-Later round x p num in
    let rest = drain-Later round xs (handle_message round x p) first.numbered in
    elim (handle_message_waits round x p id waits) [
      | inl hit ↦ omega (arith, rest.satisfied, hit)
      | inr (w, same, count) ↦
          let later =
            drain_counts round k m xs (handle_message round x p) first.numbered (first.id ∙ id) w
              act is_k (same ∙ sent) el in
          omega (arith, count, later)
    ]

-- A waiting sender that reads an acknowledgement of the number it sent last, among any other
-- messages and in any place, counts at least one more request in that round.
pub perform_computation-ack :
    (round : ℕ) (m : Message) (ms : List Message) (p : Peer)
    → p.public_id ≡ 0
    → p.next_message_num ≡ p.last_sent_message_num + 1
    → p.awaiting_ack ≡ true
    → m.action ≡ ack_action
    → m.message_num ≡ pos p.last_sent_message_num
    → Elem m ms
    → p.requests_satisfied + 1 ≤ (perform_computation round ms p).requests_satisfied
unfolding perform_computation submit_first
perform_computation-ack round m ms p id num waits act is_last el =
    let none_yet : submit_first round p ≡ p = ground arith in
    let read = drain_counts round p.last_sent_message_num m ms p num id waits act is_last refl el in
    let later = drain-Later round ms p num in
    let late = resend_late-Later round (drain round ms p) later.numbered in
    rw none_yet (omega (arith, read, late.satisfied))
