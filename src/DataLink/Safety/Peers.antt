-- ===== src/DataLink/Safety/Peers.antt =====
-- StableDataLinkPeer.cpp: what each of the two peers keeps in its round.
use quantas.Common.{ℕ, ◌+◌, ◌≤◌, ◌≡◌, refl, subst, ◌≢◌, true, false, List, [], ◌∷◌, ◌++◌, arith}
use quantas.Common.Int.{ℤ, pos, pos_part, ◌≤ℤ◌}
use quantas.Common.Predicates.{All, Elem, All-concat, All-mono, All-Elem}
use quantas.DataLink.{
  Message, Peer, ack_action, data_action, submit_trans, handle_ack, handle_data, handle_message,
  drain, submit_first, resend_late, perform_computation, partner_id, data_message, ack_message,
}
use quantas.DataLink.System.{Deliverable}

-- A send of data numbered `k` at most, or of an acknowledgement of `k` at most.
abbrev pub DataUpTo : ℕ → ℕ × Message → Type 0
DataUpTo k s = (s.1.action ≡ data_action) × (s.1.message_num ≤ℤ pos k)

abbrev pub AckUpTo : ℕ → ℕ × Message → Type 0
AckUpTo k s = (s.1.action ≡ ack_action) × (s.1.message_num ≤ℤ pos k)

unfoldable pub SentData : ℕ → List (ℕ × Message) → Type 0
SentData k = All (DataUpTo k)

unfoldable pub SentAcks : ℕ → List (ℕ × Message) → Type 0
SentAcks k = All (AckUpTo k)

-- `d` is what the receiver has delivered.
pub record IsSender (d : ℕ) (p : Peer) : Type 0 where
  pub id : p.public_id ≡ 0
  pub numbered : p.next_message_num ≡ p.last_sent_message_num + 1
  pub waiting : p.awaiting_ack ≡ true → p.last_sent_message_num ≡ p.requests_satisfied + 1
  pub idle : p.awaiting_ack ≡ false → (p.last_sent_message_num ≡ 0) × (p.requests_satisfied ≡ 0)
  pub satisfied : p.requests_satisfied ≤ d
  pub sent : SentData p.last_sent_message_num p.outbox

-- `l` is what the sender has sent.
pub record IsReceiver (l : ℕ) (p : Peer) : Type 0 where
  pub id : p.public_id ≢ 0
  pub numbered : p.next_message_num ≡ p.last_sent_message_num + 1
  pub delivered : p.last_delivered_message_num ≤ l
  pub acked : SentAcks p.last_delivered_message_num p.outbox

-- A later bound, and one more send within it.
SentData-concat :
    (round to j k n : ℕ) (xs : List (ℕ × Message))
    → j ≤ k
    → n ≤ k
    → SentData j xs
    → SentData k (xs ++ (to, data_message round n) ∷ [])
unfolding SentData data_message
SentData-concat round to j k n xs up le h =
    All-concat (DataUpTo k) xs (to, data_message round n)
      (All-mono (DataUpTo j) (DataUpTo k) xs (λ s p. (p.0, omega arith)) h) (refl, omega arith)

SentAcks-concat :
    (round to j k : ℕ) (n : ℤ) (xs : List (ℕ × Message))
    → j ≤ k
    → n ≤ℤ pos k
    → SentAcks j xs
    → SentAcks k (xs ++ (to, ack_message round n) ∷ [])
unfolding SentAcks ack_message
SentAcks-concat round to j k n xs up le h =
    All-concat (AckUpTo k) xs (to, ack_message round n)
      (All-mono (AckUpTo j) (AckUpTo k) xs (λ s p. (p.0, omega arith)) h) (refl, le)

-- What `submitTrans` needs, and leaves.
submit_trans-IsSender :
    (round d : ℕ) (p : Peer)
    → p.public_id ≡ 0
    → p.next_message_num ≡ p.last_sent_message_num + 1
    → p.last_sent_message_num ≡ p.requests_satisfied
    → p.requests_satisfied ≤ d
    → SentData p.last_sent_message_num p.outbox
    → IsSender d (submit_trans round p)
unfolding submit_trans partner_id
submit_trans-IsSender round d p zero_id numbered all_done le sent = ground (
  arith,
  SentData-concat round (partner_id p) p.last_sent_message_num (p.last_sent_message_num + 1)
      (p.last_sent_message_num + 1) p.outbox,
)

pub handle_ack-IsSender :
    (round d : ℕ) (num : ℤ) (p : Peer)
    → num ≤ℤ pos d
    → IsSender d p
    → IsSender d (handle_ack round num p)
unfolding handle_ack submit_trans partner_id
handle_ack-IsSender round d num p le v = ground (
  arith,
  SentData-concat round (partner_id p) p.last_sent_message_num (p.last_sent_message_num + 1)
      (p.last_sent_message_num + 1) p.outbox,
)

pub handle_message-IsSender :
    (round d to : ℕ) (m : Message) (p : Peer)
    → AckUpTo d (to, m)
    → IsSender d p
    → IsSender d (handle_message round m p)
unfolding handle_message
handle_message-IsSender round d to m p a v =
    rw (a.0, handle_message) (handle_ack-IsSender round d m.message_num p a.1 v)

drain-IsSender :
    (round d : ℕ) (from : Peer) (ms : List Message) (p : Peer)
    → SentAcks d from.outbox
    → All (λ m. Elem (0, m) from.outbox) ms
    → IsSender d p
    → IsSender d (drain round ms p)
unfolding drain SentAcks
drain-IsSender round d from [] p acks del v = v
drain-IsSender round d from (m ∷ ms) p acks del v =
    drain-IsSender round d from ms (handle_message round m p) acks del.1
      (handle_message-IsSender round d 0 m p (All-Elem (AckUpTo d) from.outbox (0, m) acks del.0) v)

pub submit_first-IsSender :
    (round d : ℕ) (p : Peer) → IsSender d p → IsSender d (submit_first round p)
unfolding submit_first
submit_first-IsSender round d p v = ground (arith, submit_trans-IsSender round d p)

resend_late-IsSender : (round d : ℕ) (p : Peer) → IsSender d p → IsSender d (resend_late round p)
unfolding resend_late partner_id
resend_late-IsSender round d p v = ground (
  arith,
  SentData-concat round (partner_id p) p.last_sent_message_num p.last_sent_message_num
      p.last_sent_message_num p.outbox,
)

-- The first submission comes before any message is read, and so changes no bound.
pub perform-IsSender :
    (round d : ℕ) (from : Peer) (ms : List Message) (p : Peer)
    → SentAcks d from.outbox
    → Deliverable from p ms
    → IsSender d p
    → IsSender d (perform_computation round ms p)
unfolding perform_computation
perform-IsSender round d from ms p acks del v = resend_late-IsSender round d _ (
    drain-IsSender round d from ms _ acks
      (subst (λ i. All (λ m. Elem (i, m) from.outbox) ms) v.id del)
      (submit_first-IsSender round d p v))

handle_data-IsReceiver :
    (round l : ℕ) (num : ℤ) (p : Peer)
    → num ≤ℤ pos l
    → IsReceiver l p
    → IsReceiver l (handle_data round num p)
unfolding handle_data partner_id
handle_data-IsReceiver round l num p le v = ground (
  arith,
  SentAcks-concat round (partner_id p) p.last_delivered_message_num (pos_part num) num p.outbox,
  SentAcks-concat round (partner_id p) p.last_delivered_message_num p.last_delivered_message_num num
      p.outbox,
)

pub handle_message-IsReceiver :
    (round l to : ℕ) (m : Message) (p : Peer)
    → DataUpTo l (to, m)
    → IsReceiver l p
    → IsReceiver l (handle_message round m p)
unfolding handle_message
handle_message-IsReceiver round l to m p a v =
    rw (a.0, handle_message) (handle_data-IsReceiver round l m.message_num p a.1 v)

drain-IsReceiver :
    (round l id : ℕ) (from : Peer) (ms : List Message) (p : Peer)
    → SentData l from.outbox
    → All (λ m. Elem (id, m) from.outbox) ms
    → IsReceiver l p
    → IsReceiver l (drain round ms p)
unfolding drain SentData
drain-IsReceiver round l id from [] p sent del v = v
drain-IsReceiver round l id from (m ∷ ms) p sent del v =
    drain-IsReceiver round l id from ms (handle_message round m p) sent del.1 (
      handle_message-IsReceiver round l id m p
        (All-Elem (DataUpTo l) from.outbox (id, m) sent del.0) v)

-- A peer other than 0 neither submits nor resends.
pub perform-IsReceiver :
    (round l : ℕ) (from : Peer) (ms : List Message) (p : Peer)
    → SentData l from.outbox
    → Deliverable from p ms
    → IsReceiver l p
    → IsReceiver l (perform_computation round ms p)
unfolding perform_computation submit_first resend_late
perform-IsReceiver round l from ms p sent del v =
    ground (arith, drain-IsReceiver round l p.public_id from ms p sent del v)
