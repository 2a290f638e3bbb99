-- ===== src/DataLink/System.antt =====
-- A sender (peer 0) and a receiver (peer 1) of StableDataLinkPeer.cpp over a network that may lose,
-- repeat, delay and reorder: a turn of a peer is one `performComputation`, at any round, on any list
-- of messages that the other peer once sent to it.
use quantas.Common.{ℕ, List, [], ◌∷◌}
use quantas.Common.Predicates.{All, Elem}
use quantas.DataLink.{Message, Peer, new_peer, perform_computation}

pub record System : Type 0 where
  pub sender : Peer
  pub receiver : Peer

unfoldable pub initial : System
unfolding new_peer
initial = record { sender = new_peer 0 (1 ∷ []); receiver = new_peer 1 (0 ∷ []) }

-- Each message of `inbox` is in the other peer's history of sends, under this peer's id.
abbrev pub Deliverable : Peer → Peer → List Message → Type 0
Deliverable from to inbox = All (λ m. Elem (to.public_id, m) from.outbox) inbox

pub data Step : System → System → Type 0 where
  sender_turn :
      (s : System) (round : ℕ) (inbox : List Message)
      → Deliverable s.receiver s.sender inbox
      → Step s (record s { sender = perform_computation round inbox s.sender })
  receiver_turn :
      (s : System) (round : ℕ) (inbox : List Message)
      → Deliverable s.sender s.receiver inbox
      → Step s (record s { receiver = perform_computation round inbox s.receiver })

pub data Reach (s : System) : System → Type 0 where
  here : Reach s s
  next : {t u : System} → Reach s t → Step t u → Reach s u
