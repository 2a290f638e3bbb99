-- ===== src/Pbft/Runs.antt =====
-- PBFTPeer.cpp: what a peer comes through as it reads messages and runs its phases, and what the peers
-- of a committee commit.
use quantas.Common.{
  ℕ, zero, suc, ◌+◌, ◌*◌, ◌≤◌, ◌≡◌, refl, sym, ◌∙◌, inl, inr, true, false, Option, none, some, List,
  [], ◌∷◌, arith, length, Bool-cases, eq_of_some,
}
use quantas.Common.Predicates.{All, Elem, All-Elem}
use quantas.Pbft.{
  Digests, Body, Kind, Wire, PbftConsensus, client_request, consensus_message, pre_prepare, commit,
  f, next_seq, same_kind, bodies, is_committed, maybe_stable_checkpoint, is_leader, leader_for,
}
use quantas.Pbft.Phases.{run_pre_prepare}
use quantas.Pbft.Rounds.{
  run_on_time, is_late, run_once, run_phase, read_message, read_messages, perform_computation,
}
use quantas.Pbft.Votes.{sent, votes, allowance, IsFrugal}
use quantas.Pbft.Frugal.{
  stable-IsFrugal, back_up-IsFrugal, lead-IsFrugal, run_prepare-IsFrugal, run_commit-IsFrugal,
  run_view_change-IsFrugal, run_new_view-IsFrugal, request_view_change-IsFrugal,
}
use quantas.Pbft.Returns.Measure.{Phase-cases}
use quantas.Pbft.Quorums.{is_committed-share, supports-agree}

module _ (h : Digests) where
  -- One message read, or one call of a phase.
  pub data Step : PbftConsensus → PbftConsensus → Type 0 where
    reads :
        (round : ℕ) (m : Option (ℕ × Wire)) (s : PbftConsensus) → Step s (read_message round m s)
    runs : (round : ℕ) (s : PbftConsensus) → Step s (run_once h round s).0

  pub data Steps : PbftConsensus → PbftConsensus → Type 0 where
    done : (s : PbftConsensus) → Steps s s
    then_step : {s t u : PbftConsensus} → Steps s t → Step t u → Steps s u

module _ {h : Digests} where
  pub Steps-trans : {s t u : PbftConsensus} → Steps h s t → Steps h t u → Steps h s u
  Steps-trans first (done t) = first
  Steps-trans first (then_step second step) = then_step (Steps-trans first second) step

run_on_time-IsFrugal :
    (h : Digests) (round : ℕ) (k : Kind) (s : PbftConsensus)
    → same_kind k pre_prepare ≡ false
    → IsFrugal k s
    → IsFrugal k (run_on_time h round s).0
unfolding run_on_time run_pre_prepare
run_on_time-IsFrugal h round k s vote inv = elim (Phase-cases s.phase) [
  | inl p ↦ elim (Bool-cases (is_leader s.public_id (leader_for s.view s))) [
    | inl leads ↦ rw (p, run_on_time, leads, run_pre_prepare) (lead-IsFrugal round k s vote p inv)
    | inr follows ↦ rw (p, run_on_time, follows, run_pre_prepare) (back_up-IsFrugal k s p inv)
  ]
  | inr (inl p) ↦ rw (p, run_on_time) (run_prepare-IsFrugal h k s p inv)
  | inr (inr (inl p)) ↦ rw (p, run_on_time) (run_commit-IsFrugal h round k s inv)
  | inr (inr (inr (inl p))) ↦ rw (p, run_on_time) (run_view_change-IsFrugal k s p inv)
  | inr (inr (inr (inr p))) ↦ rw (p, run_on_time) (run_new_view-IsFrugal round k s vote p inv)
]

run_once-IsFrugal :
    (h : Digests) (round : ℕ) (k : Kind) (s : PbftConsensus)
    → same_kind k pre_prepare ≡ false
    → IsFrugal k s
    → IsFrugal k (run_once h round s).0
unfolding run_once
run_once-IsFrugal h round k s vote inv =
    let stable = maybe_stable_checkpoint s in
    let kept = stable-IsFrugal k s inv in
    elim (Bool-cases (is_late round stable)) [
      | inl late ↦ rw (late, run_once) (request_view_change-IsFrugal h round k stable kept)
      | inr early ↦ rw (early, run_once) (run_on_time-IsFrugal h round k stable vote kept)
    ]

read_message-IsFrugal :
    (round : ℕ) (m : Option (ℕ × Wire)) (k : Kind) (s : PbftConsensus)
    → IsFrugal k s
    → IsFrugal k (read_message round m s)
unfolding read_message IsFrugal votes allowance next_seq
read_message-IsFrugal round none k s inv n v = inv n v
read_message-IsFrugal round (some (id, client_request r)) k s inv n v = ground (arith, inv n v)
read_message-IsFrugal round (some (id, consensus_message m)) k s inv n v = ground (arith, inv n v)

Steps-IsFrugal :
    {h : Digests} {s t : PbftConsensus} (k : Kind)
    → same_kind k pre_prepare ≡ false
    → Steps h s t
    → IsFrugal k s
    → IsFrugal k t
Steps-IsFrugal k vote (done s) inv = inv
Steps-IsFrugal k vote (then_step steps (reads round m t)) inv =
    read_message-IsFrugal round m k t (Steps-IsFrugal k vote steps inv)
Steps-IsFrugal {h = h} k vote (then_step steps (runs round t)) inv =
    run_once-IsFrugal h round k t vote (Steps-IsFrugal k vote steps inv)

silent-IsFrugal : (k : Kind) (s : PbftConsensus) → s.outbox ≡ [] → IsFrugal k s
unfolding IsFrugal votes sent bodies
silent-IsFrugal k s empty n v = rw (empty, sent, bodies) (omega arith)

-- From a state with nothing sent, whatever a peer reads and however often it runs, it multicasts one
-- prepare and one commit at most for a number in a view, and none ahead of its place.
pub Steps-votes_once :
    {h : Digests} {s t : PbftConsensus} (k : Kind) (n v : ℕ)
    → same_kind k pre_prepare ≡ false
    → Steps h s t
    → s.outbox ≡ []
    → (votes k n v t ≤ allowance k n v t) × (votes k n v t ≤ 1)
unfolding allowance IsFrugal
Steps-votes_once {s = s} {t = t} k n v vote steps empty =
    let inv = Steps-IsFrugal k vote steps (silent-IsFrugal k s empty) n v in
    (inv, ground (arith, inv))

run_phase-Steps :
    (fuel : ℕ) (h : Digests) (round : ℕ) (s t : PbftConsensus)
    → run_phase fuel h round s ≡ some t
    → Steps h s t
unfolding run_phase
run_phase-Steps zero h round s t e = absurd (let g : Option.none ≡ some t = e in cc g)
run_phase-Steps (suc fuel) h round s t e =
    let u = (run_once h round s).0 in
    let once : Steps h s u = then_step (done s) (runs round s) in
    elim (Bool-cases (run_once h round s).1) [
      | inl again ↦ Steps-trans once (run_phase-Steps fuel h round u t (rw (again, run_phase) at e))
      | inr last ↦ rw (eq_of_some u t (rw (last, run_phase) at e)) at once
    ]

read_messages-Steps :
    (h : Digests) (round : ℕ) (ms : List (Option (ℕ × Wire))) (s : PbftConsensus)
    → Steps h s (read_messages round ms s)
unfolding read_messages
read_messages-Steps h round [] s = done s
read_messages-Steps h round (m ∷ ms) s =
    Steps-trans (then_step (done s) (reads round m s))
      (read_messages-Steps h round ms (read_message round m s))

pub perform_computation-Steps :
    (fuel : ℕ) (h : Digests) (round : ℕ) (ms : List (Option (ℕ × Wire))) (s t : PbftConsensus)
    → perform_computation fuel h round ms s ≡ some t
    → Steps h s t
unfolding perform_computation
perform_computation-Steps fuel h round ms s t e =
    Steps-trans (read_messages-Steps h round ms s)
      (run_phase-Steps fuel h round (read_messages round ms s) t e)

-- Two of a list of one element at most are equal.
Elem-only : {A : Type 0} (xs : List A) (a b : A) → length xs ≤ 1 → Elem a xs → Elem b xs → a ≡ b
Elem-only [] a b few m n = absurd m
Elem-only (x ∷ []) a b few (inl e) (inl g) = e ∙ sym g
Elem-only (x ∷ []) a b few (inr m) n = absurd m
Elem-only (x ∷ []) a b few (inl e) (inr n) = absurd n
Elem-only (x ∷ y ∷ xs) a b few m n = absurd (omega (arith, few))

-- The commits of a log under the name of a peer that is not faulty are its own.
unfoldable pub HasOwnCommits : (ℕ → PbftConsensus) → List ℕ → ℕ → ℕ → PbftConsensus → Type 0
HasOwnCommits peers faulty n v s =
    All (λ b. ¬ Elem b.from_id faulty → Elem b (bodies commit n v (sent (peers b.from_id).outbox)))
      (bodies commit n v s.received)

-- In a committee of 3f + 1, f of them faulty at most, in which each of the others has come by its own
-- steps from a state with nothing sent, and in which the commits of the two logs come from members and,
-- under the name of one that is not faulty, from that one: two peers that have a commit quorum for a
-- digest each, at one number in one view, have it for the same digest.
pub is_committed-agree :
    (h : Digests) (n v d e p q : ℕ) (starts peers : ℕ → PbftConsensus) (faulty : List ℕ)
    → ((i : ℕ) → ¬ Elem i faulty → Steps h (starts i) (peers i))
    → ((i : ℕ) → (starts i).outbox ≡ [])
    → length (peers p).members ≡ 3 * f (peers p) + 1
    → length faulty ≤ f (peers p)
    → (peers q).members ≡ (peers p).members
    → All (λ b. Elem b.from_id (peers p).members) (bodies commit n v (peers p).received)
    → All (λ b. Elem b.from_id (peers p).members) (bodies commit n v (peers q).received)
    → HasOwnCommits peers faulty n v (peers p)
    → HasOwnCommits peers faulty n v (peers q)
    → is_committed h v n d (peers p) ≡ true
    → is_committed h v n e (peers q) ≡ true
    → d ≡ e
unfolding HasOwnCommits votes same_kind
is_committed-agree h n v d e p q starts peers faulty steps silent size few same from_p from_q own_p
      own_q cp cq =
    let (a, b, in_p, in_q, from, sound, for_d, for_e) =
      is_committed-share h n v d e (peers p) (peers q) faulty size few same from_p from_q cp cq in
    let cast = λ (c : Body).
      ¬ Elem c.from_id faulty → Elem c (bodies commit n v (sent (peers c.from_id).outbox)) in
    let cast_a = All-Elem cast (bodies commit n v (peers p).received) a own_p in_p sound in
    let cast_b : Elem b (bodies commit n v (sent (peers a.from_id).outbox)) =
      rw (sym from) at
        (All-Elem cast (bodies commit n v (peers q).received) b own_q in_q (rw from at sound)) in
    let once = (Steps-votes_once commit n v refl (steps a.from_id sound) (silent a.from_id)).1 in
    let one =
      Elem-only (bodies commit n v (sent (peers a.from_id).outbox)) a b once cast_a cast_b in
    supports-agree h v n d e b (rw one at for_d) for_e
