-- ===== src/Pbft/Votes.antt =====
-- PBFTPeer.cpp: what a peer has multicast in the course of its runs, counted by kind, number and view.
use quantas.Common.{
  ℕ, ◌+◌, ◌≤◌, ◌≡◌, refl, sym, ap, ◌∙◌, ◌⊎◌, inl, inr, Bool, true, false, ◌&&◌, ◌||◌, Option, some,
  List, [], ◌∷◌, ◌++◌, arith, length, ltb, ◌==◌, if◌then◌else◌, Bool-cases, Option-cases,
  eq_of_some,
}
use quantas.Common.Predicates.{Elem}
use quantas.Pbft.{
  Body, Kind, Message, Wire, Phase, PbftConsensus, prepare, commit, phase_message, checkpoint,
  view_change, new_view, client_request, consensus_message, prepare_phase, commit_phase, next_seq,
  send_and_keep, same_kind, bodies, leader_for, is_leader,
}
use quantas.Pbft.Phases.{leaders_pre_prepare}

-- The consensus messages of the outbox.
unfoldable pub sent : List Wire → List Message
sent [] = []
sent (client_request r ∷ ws) = sent ws
sent (consensus_message m ∷ ws) = m ∷ sent ws

unfoldable pub votes : Kind → ℕ → ℕ → PbftConsensus → ℕ
unfolding sent
votes k n v s = length (bodies k n v (sent s.outbox))

-- Whether a peer in the phase has done with the votes of the kind at its number.
unfoldable pub is_past : Kind → Phase → Bool
is_past prepare prepare_phase = true
is_past prepare commit_phase = true
is_past commit commit_phase = true
is_past _ _ = false

-- How many votes a peer may have cast by now.
unfoldable pub allowance : Kind → ℕ → ℕ → PbftConsensus → ℕ
unfolding is_past next_seq
allowance k n v s =
    if ltb v s.view
    then 1
    else if v == s.view && (ltb n (next_seq s) || (n == next_seq s && is_past k s.phase))
    then 1
    else 0

unfoldable pub IsFrugal : Kind → PbftConsensus → Type 0
IsFrugal k s = (n v : ℕ) → votes k n v s ≤ allowance k n v s

pub sent-append : (xs ys : List Wire) → sent (xs ++ ys) ≡ sent xs ++ sent ys
unfolding sent
sent-append [] ys = refl
sent-append (client_request r ∷ xs) ys = sent-append xs ys
sent-append (consensus_message m ∷ xs) ys = ap (λ ms. m ∷ ms) (sent-append xs ys)

pub length-bodies :
    (k : Kind) (n v : ℕ) (xs ys : List Message)
    → length (bodies k n v (xs ++ ys)) ≡ length (bodies k n v xs) + length (bodies k n v ys)
unfolding bodies
length-bodies k n v [] ys = omega arith
length-bodies k n v (phase_message j b ∷ xs) ys = ground (arith, length-bodies k n v xs ys)
length-bodies k n v (checkpoint s w d from ∷ xs) ys = length-bodies k n v xs ys
length-bodies k n v (view_change s w u stable proof from ∷ xs) ys = length-bodies k n v xs ys
length-bodies k n v (new_view s w stable proof from ∷ xs) ys = length-bodies k n v xs ys

pub votes-send_and_keep :
    (k : Kind) (n v : ℕ) (m : Message) (s : PbftConsensus)
    → votes k n v (send_and_keep m s) ≡ votes k n v s + length (bodies k n v (m ∷ []))
unfolding votes send_and_keep
votes-send_and_keep k n v m s =
    ap (λ ms. length (bodies k n v ms)) (sent-append s.outbox (consensus_message m ∷ []))
    ∙ length-bodies k n v (sent s.outbox) (m ∷ [])

-- A vote of the own kind at the own number and view; any other message counts for nothing.
pub own_vote :
    (k j : Kind) (n v : ℕ) (b : Body)
    → length (bodies k n v (phase_message j b ∷ []))
      ≡ (if same_kind k j && b.seq_num == n && b.view == v then 1 else 0)
unfolding bodies
own_vote k j n v b = ground arith

pub Elem-bodies :
    (k : Kind) (n v : ℕ) (ms : List Message) (b : Body)
    → Elem b (bodies k n v ms)
    → (b.seq_num ≡ n) × (b.view ≡ v)
unfolding bodies
Elem-bodies k n v [] b m = absurd m
Elem-bodies k n v (phase_message j c ∷ ms) b m =
    elim (Bool-cases (same_kind k j && c.seq_num == n && c.view == v)) [
      | inl fits ↦
          let mem : (b ≡ c) ⊎ Elem b (bodies k n v ms) = rw (fits, bodies) at m in
          elim mem [
            | inl e ↦ (
              ap (λ x. x.seq_num) e ∙ ground (arith, fits),
              ap (λ x. x.view) e ∙ ground (arith, fits),
            )
            | inr rest ↦ Elem-bodies k n v ms b rest
          ]
      | inr other ↦ Elem-bodies k n v ms b (rw (other, bodies) at m)
    ]
Elem-bodies k n v (checkpoint s w d from ∷ ms) b m = Elem-bodies k n v ms b m
Elem-bodies k n v (view_change s w u stable proof from ∷ ms) b m = Elem-bodies k n v ms b m
Elem-bodies k n v (new_view s w stable proof from ∷ ms) b m = Elem-bodies k n v ms b m

pub leaders_pre_prepare-Elem :
    (s : PbftConsensus) (ms : List Body) (pp : Body)
    → leaders_pre_prepare s ms ≡ some pp
    → Elem pp ms
unfolding leaders_pre_prepare
leaders_pre_prepare-Elem s [] pp e = absurd (let g : Option.none ≡ some pp = e in cc g)
leaders_pre_prepare-Elem s (m ∷ ms) pp e = elim (Option-cases m.proposal) [
  | inl bare ↦ inr (leaders_pre_prepare-Elem s ms pp (rw (bare, leaders_pre_prepare) at e))
  | inr (p, has) ↦
      elim (Bool-cases (
        m.view == s.view && is_leader m.from_id (leader_for s.view s) && m.seq_num == next_seq s)) [
          | inl fits ↦ inl (sym (eq_of_some m pp (rw (has, fits, leaders_pre_prepare) at e)))
          | inr other ↦
              inr (leaders_pre_prepare-Elem s ms pp (rw (has, other, leaders_pre_prepare) at e))
        ]
]
