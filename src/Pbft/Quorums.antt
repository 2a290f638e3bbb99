-- ===== src/Pbft/Quorums.antt =====
-- PBFTPeer.cpp: the sets of voters behind a certificate.
use quantas.Common.{
  ℕ, ◌+◌, ◌*◌, ◌≤◌, ◌<◌, ◌≡◌, refl, sym, ◌∙◌, inl, inr, true, List, [], ◌∷◌, arith, length,
  Bool-cases, Option-cases,
}
use quantas.Common.Predicates.{All, Elem, All-Elem, All-of_Elem}
use quantas.Common.Quorums.{
  IsIncreasing, Elem-insert, insert-IsIncreasing, AllDiff-of_IsIncreasing, quorum_overlap,
}
use quantas.Pbft.{
  Digests, Body, PbftConsensus, commit, quorum, f, bodies, supports, senders, count_commits,
  is_committed,
}

senders-IsIncreasing :
    (h : Digests) (v n d : ℕ) (ms : List Body) → IsIncreasing (senders h v n d ms)
unfolding senders
senders-IsIncreasing h v n d [] = tt
senders-IsIncreasing h v n d (m ∷ ms) = elim (Bool-cases (supports h v n d m)) [
  | inl fits ↦
      rw (fits, senders)
        (insert-IsIncreasing m.from_id (senders h v n d ms) (senders-IsIncreasing h v n d ms))
  | inr other ↦ rw (other, senders) (senders-IsIncreasing h v n d ms)
]

-- Each of them has sent a message that supports the digest.
senders-support :
    (h : Digests) (v n d : ℕ) (ms : List Body) (a : ℕ)
    → Elem a (senders h v n d ms)
    → (b : Body) × Elem b ms × (b.from_id ≡ a) × (supports h v n d b ≡ true)
unfolding senders
senders-support h v n d [] a m = absurd m
senders-support h v n d (x ∷ xs) a m = elim (Bool-cases (supports h v n d x)) [
  | inl fits ↦ elim (Elem-insert a x.from_id (senders h v n d xs) (rw (fits, senders) at m)) [
    | inl e ↦ (x, inl refl, sym e, fits)
    | inr k ↦ let r = senders-support h v n d xs a k in (r.0, inr r.1, r.2, r.3)
  ]
  | inr other ↦
      let r = senders-support h v n d xs a (rw (other, senders) at m) in (r.0, inr r.1, r.2, r.3)
]

All-senders :
    (h : Digests) (v n d : ℕ) (ms : List Body) (members : List ℕ)
    → All (λ b. Elem b.from_id members) ms
    → All (λ a. Elem a members) (senders h v n d ms)
All-senders h v n d ms members from_members =
    All-of_Elem (λ a. Elem a members) (senders h v n d ms)
      (λ a m.
        let r = senders-support h v n d ms a m in
        rw (sym r.2) (All-Elem (λ b. Elem b.from_id members) ms r.0 from_members r.1))

-- One message supports one digest.
pub supports-agree :
    (h : Digests) (v n d e : ℕ) (b : Body)
    → supports h v n d b ≡ true
    → supports h v n e b ≡ true
    → d ≡ e
unfolding supports
supports-agree h v n d e b x y = elim (Option-cases b.proposal) [
  | inl bare ↦ absurd (ground (arith, bare, x))
  | inr (p, has) ↦ ground (arith, has, x, y)
]

-- Two commit quorums of 3f + 1 members, f of them faulty at most, share a peer that is not faulty
-- and has sent a commit for the digest of either.
pub is_committed-share :
    (h : Digests) (n v d e : ℕ) (s t : PbftConsensus) (faulty : List ℕ)
    → length s.members ≡ 3 * f s + 1
    → length faulty ≤ f s
    → t.members ≡ s.members
    → All (λ b. Elem b.from_id s.members) (bodies commit n v s.received)
    → All (λ b. Elem b.from_id s.members) (bodies commit n v t.received)
    → is_committed h v n d s ≡ true
    → is_committed h v n e t ≡ true
    → (a b : Body) × Elem a (bodies commit n v s.received)
      × Elem b (bodies commit n v t.received)
      × (a.from_id ≡ b.from_id)
      × (¬ Elem a.from_id faulty)
      × (supports h v n d a ≡ true)
      × (supports h v n e b ≡ true)
unfolding is_committed count_commits quorum f
is_committed-share h n v d e s t faulty size few same from_s from_t cs ct =
    let xs = senders h v n d (bodies commit n v s.received) in
    let ys = senders h v n e (bodies commit n v t.received) in
    let many_x : 2 * f s < length xs = ground (arith, cs) in
    let many_y : 2 * f s < length ys = ground (arith, ct, same) in
    let r =
      quorum_overlap xs ys s.members faulty
        (AllDiff-of_IsIncreasing xs (senders-IsIncreasing h v n d (bodies commit n v s.received)))
        (AllDiff-of_IsIncreasing ys (senders-IsIncreasing h v n e (bodies commit n v t.received)))
        (All-senders h v n d (bodies commit n v s.received) s.members from_s)
        (All-senders h v n e (bodies commit n v t.received) s.members from_t)
        (omega (arith, size, few, many_x, many_y)) in
    let a = senders-support h v n d (bodies commit n v s.received) r.0 r.1 in
    let b = senders-support h v n e (bodies commit n v t.received) r.0 r.2 in
    (a.0, b.0, a.1, b.1, a.2 ∙ sym b.2, (λ m. r.3 (rw (sym a.2) m)), a.3, b.3)
