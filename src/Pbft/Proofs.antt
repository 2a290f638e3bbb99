-- ===== src/Pbft/Proofs.antt =====
-- PBFTPeer.cpp, requestViewChange: the proof that a peer sends with its request for a new view.
use quantas.Common.{
  ℕ, zero, suc, ◌+◌, ◌-◌, ◌≤◌, ◌<◌, ◌≡◌, refl, sym, ap, subst, ◌∙◌, ◌⊎◌, inl, inr, true, ◌&&◌, some,
  List, [], ◌∷◌, ◌++◌, arith, ◌==◌, Bool-cases, Option-cases, ℕ_discrete,
}
use quantas.Common.Predicates.{
  All, Elem, All-of_Elem, Elem-append_left, Elem-append_right, Elem-append_cases,
}
use quantas.Pbft.{
  Digests, Body, Proposal, Message, PbftConsensus, pre_prepare, prepare, commit, phase_message,
  checkpoint, view_change, new_view, consensus_message, view_change_phase, next_seq, send_and_keep,
  same_kind, bodies, is_prepared,
}
use quantas.Pbft.Phases.{first_prepared, prepared_proof, request_view_change}
use quantas.Pbft.Votes.{Elem-bodies}

-- A proposal that was prepared in the view `v` at the number `n`.
pub IsPreparedAt : Digests → ℕ → ℕ → PbftConsensus → Body → Type 0
IsPreparedAt h v n s b =
    (p : Proposal) × (b.proposal ≡ some p) × (is_prepared h v n (h.digest_of p.request) s ≡ true)

-- A pre-prepare of the view `v` in the log whose proposal was prepared.
pub IsProven : Digests → ℕ → PbftConsensus → Body → Type 0
IsProven h v s b =
    Elem (phase_message pre_prepare b) s.received × (b.view ≡ v) × IsPreparedAt h v b.seq_num s b

-- The pre-prepares of a view at a number are those of the log.
bodies-Elem :
    (n v : ℕ) (ms : List Message) (b : Body)
    → Elem b (bodies pre_prepare n v ms)
    → Elem (phase_message pre_prepare b) ms
unfolding bodies same_kind
bodies-Elem n v [] b m = elim m [ ]
bodies-Elem n v (phase_message pre_prepare c ∷ ms) b m =
    elim (Bool-cases (c.seq_num == n && c.view == v)) [
      | inl here ↦
          let now : Elem b (c ∷ bodies pre_prepare n v ms) = rw (here, bodies) at m in
          elim now [
            | inl first ↦ inl (ap (phase_message pre_prepare) first)
            | inr later ↦ inr (bodies-Elem n v ms b later)
          ]
      | inr other ↦ inr (bodies-Elem n v ms b (rw (other, bodies) at m))
    ]
bodies-Elem n v (phase_message prepare c ∷ ms) b m = inr (bodies-Elem n v ms b m)
bodies-Elem n v (phase_message commit c ∷ ms) b m = inr (bodies-Elem n v ms b m)
bodies-Elem n v (checkpoint k w d from ∷ ms) b m = inr (bodies-Elem n v ms b m)
bodies-Elem n v (view_change k w w' stable proof from ∷ ms) b m = inr (bodies-Elem n v ms b m)
bodies-Elem n v (new_view k w stable proof from ∷ ms) b m = inr (bodies-Elem n v ms b m)

bodies_later :
    (n v : ℕ) (x : Message) (ms : List Message) (b : Body)
    → Elem b (bodies pre_prepare n v ms)
    → Elem b (bodies pre_prepare n v (x ∷ ms))
unfolding bodies same_kind
bodies_later n v (phase_message pre_prepare c) ms b m =
    elim (Bool-cases (c.seq_num == n && c.view == v)) [
      | inl here ↦ rw (here, bodies) (inr m)
      | inr other ↦ rw (other, bodies) m
    ]
bodies_later n v (phase_message prepare c) ms b m = m
bodies_later n v (phase_message commit c) ms b m = m
bodies_later n v (checkpoint k w d from) ms b m = m
bodies_later n v (view_change k w w' stable proof from) ms b m = m
bodies_later n v (new_view k w stable proof from) ms b m = m

bodies-of_Elem :
    (n v : ℕ) (ms : List Message) (b : Body)
    → Elem (phase_message pre_prepare b) ms
    → b.seq_num ≡ n
    → b.view ≡ v
    → Elem b (bodies pre_prepare n v ms)
unfolding bodies same_kind
bodies-of_Elem n v [] b m at in_view = elim m [ ]
bodies-of_Elem n v (x ∷ ms) b (inl first) at in_view =
    let here : (b.seq_num == n && b.view == v) ≡ true = ground (arith, at, in_view) in
    subst (λ y. Elem b (bodies pre_prepare n v (y ∷ ms))) first (rw (here, bodies) (inl refl))
bodies-of_Elem n v (x ∷ ms) b (inr m) at in_view =
    bodies_later n v x ms b (bodies-of_Elem n v ms b m at in_view)

first_prepared_sound :
    (h : Digests) (v n : ℕ) (ms : List Body) (s : PbftConsensus) (b : Body)
    → Elem b (first_prepared h v n ms s)
    → Elem b ms × IsPreparedAt h v n s b
unfolding first_prepared IsPreparedAt
first_prepared_sound h v n [] s b m = elim m [ ]
first_prepared_sound h v n (pp ∷ pps) s b m =
    let later : Elem b (first_prepared h v n pps s) → Elem b (pp ∷ pps) × IsPreparedAt h v n s b =
      λ k. let r = first_prepared_sound h v n pps s b k in (inr r.0, r.1) in
    elim (Bool-cases (pp.view == v)) [
      | inr elsewhere ↦ later (rw (elsewhere, first_prepared) at m)
      | inl here ↦ elim (Option-cases pp.proposal) [
        | inl bare ↦ later (rw (here, bare, first_prepared) at m)
        | inr (p, has) ↦ elim (Bool-cases (is_prepared h v n (h.digest_of p.request) s)) [
          | inr short ↦ later (rw (here, has, short, first_prepared) at m)
          | inl enough ↦
              let only : (b ≡ pp) ⊎ ⊥ = rw (here, has, enough, first_prepared) at m in
              elim only [
                | inl e ↦ (inl e, subst (IsPreparedAt h v n s) (sym e) (p, has, enough))
                | inr none_left ↦ absurd none_left
              ]
        ]
      ]
    ]

-- A pre-prepare that was prepared is the one that is found.
first_prepared_here :
    (h : Digests) (v n : ℕ) (p : Proposal) (pp : Body) (pps : List Body) (s : PbftConsensus)
    → (pp.view == v) ≡ true
    → pp.proposal ≡ some p
    → is_prepared h v n (h.digest_of p.request) s ≡ true
    → first_prepared h v n (pp ∷ pps) s ≡ pp ∷ []
unfolding first_prepared
first_prepared_here h v n p pp pps s here has enough = ground (arith, here, has, enough)

first_prepared_complete :
    (h : Digests) (v n : ℕ) (ms : List Body) (s : PbftConsensus) (b : Body)
    → Elem b ms
    → b.view ≡ v
    → IsPreparedAt h v n s b
    → (c : Body) × Elem c (first_prepared h v n ms s)
unfolding first_prepared IsPreparedAt
first_prepared_complete h v n [] s b m in_view prepared = elim m [ ]
first_prepared_complete h v n (pp ∷ pps) s b (inl first) in_view (p, has, enough) =
    let here : (pp.view == v) ≡ true = ground (arith, first, in_view) in
    let its : pp.proposal ≡ some p = ap (λ (x : Body). x.proposal) (sym first) ∙ has in
    (pp, rw (first_prepared_here h v n p pp pps s here its enough) (inl refl))
first_prepared_complete h v n (pp ∷ pps) s b (inr m) in_view prepared =
    let (c, c_in) = first_prepared_complete h v n pps s b m in_view prepared in
    elim (Bool-cases (pp.view == v)) [
      | inr elsewhere ↦ (c, rw (elsewhere, first_prepared) c_in)
      | inl here ↦ elim (Option-cases pp.proposal) [
        | inl bare ↦ (c, rw (here, bare, first_prepared) c_in)
        | inr (p, has) ↦ elim (Bool-cases (is_prepared h v n (h.digest_of p.request) s)) [
          | inr short ↦ (c, rw (here, has, short, first_prepared) c_in)
          | inl enough ↦ (pp, rw (first_prepared_here h v n p pp pps s here has enough) (inl refl))
        ]
      ]
    ]

prepared_proof_sound :
    (h : Digests) (v from count : ℕ) (s : PbftConsensus) (b : Body)
    → Elem b (prepared_proof h v from count s)
    → IsProven h v s b × (from ≤ b.seq_num) × (b.seq_num < from + count)
unfolding prepared_proof IsProven
prepared_proof_sound h v from zero s b m = elim m [ ]
prepared_proof_sound h v from (suc count) s b m =
    let here = bodies pre_prepare from v s.received in
    elim (Elem-append_cases (first_prepared h v from here s) (prepared_proof h v (from + 1) count s)
      b m) [
        | inl now ↦
            let (b_in, prepared) = first_prepared_sound h v from here s b now in
            let fits = Elem-bodies pre_prepare from v s.received b b_in in
            (
              (
                bodies-Elem from v s.received b b_in,
                fits.1,
                subst (λ n. IsPreparedAt h v n s b) (sym fits.0) prepared,
              ),
              omega (arith, fits.0),
              omega (arith, fits.0),
            )
        | inr later ↦
            let (proven, low, high) = prepared_proof_sound h v (from + 1) count s b later in
            (proven, omega (arith, low), omega (arith, high))
      ]

prepared_proof_complete :
    (h : Digests) (v from count : ℕ) (s : PbftConsensus) (b : Body)
    → IsProven h v s b
    → from ≤ b.seq_num
    → b.seq_num < from + count
    → (c : Body) × Elem c (prepared_proof h v from count s) × (c.seq_num ≡ b.seq_num)
unfolding prepared_proof IsProven
prepared_proof_complete h v from zero s b proven low high = absurd (omega (arith, low, high))
prepared_proof_complete h v from (suc count) s b (known, in_view, prepared) low high =
    let here = bodies pre_prepare from v s.received in
    elim (ℕ_discrete b.seq_num from) [
      | yes at ↦
          let (c, c_in) =
            first_prepared_complete h v from here s b
              (bodies-of_Elem from v s.received b known at in_view) in_view
              (subst (λ n. IsPreparedAt h v n s b) at prepared) in
          let c_here = (first_prepared_sound h v from here s c c_in).0 in
          (
            c,
            Elem-append_left (first_prepared h v from here s)
                (prepared_proof h v (from + 1) count s) c c_in,
            (Elem-bodies pre_prepare from v s.received c c_here).0 ∙ sym at,
          )
      | no beyond ↦
          let (c, c_in, same) =
            prepared_proof_complete h v (from + 1) count s b (known, in_view, prepared)
              (omega (arith, low, beyond)) (omega (arith, high)) in
          (
            c,
            Elem-append_right (first_prepared h v from here s)
                (prepared_proof h v (from + 1) count s) c c_in,
            same,
          )
    ]

-- A peer that asks for a new view moves to the next view and its view-change phase, and sends one
-- message, for the view that it leaves and its stable checkpoint. The proof in it holds only
-- pre-prepares of that view from its log whose proposals were prepared, with numbers after the
-- checkpoint and before the next number; and for every such pre-prepare in the log it holds one with
-- the same number.
pub request_view_change_proof :
    (h : Digests) (round : ℕ) (s : PbftConsensus)
    → ((request_view_change h round s).view ≡ s.view + 1)
      × ((request_view_change h round s).phase ≡ view_change_phase)
      × ((proof : List Body) × ((request_view_change h round s).outbox
            ≡ s.outbox
              ++ consensus_message (
                  view_change s.last_stable_checkpoint s.view
                    (s.view + 1)
                    s.last_stable_checkpoint
                    proof
                    s.public_id)
                ∷ [])
          × All
              (λ b.
                IsProven h s.view s b
                × (s.last_stable_checkpoint < b.seq_num)
                × (b.seq_num < next_seq s))
              proof
          × ((b : Body)
              → IsProven h s.view s b
              → s.last_stable_checkpoint < b.seq_num
              → b.seq_num < next_seq s
              → (c : Body) × Elem c proof × (c.seq_num ≡ b.seq_num)))
unfolding request_view_change send_and_keep
request_view_change_proof h round s =
    let stable = s.last_stable_checkpoint in
    let count = next_seq s - (stable + 1) in
    let proof = prepared_proof h s.view (stable + 1) count s in
    (
      refl,
      refl,
      (
        proof,
        refl,
        All-of_Elem _ proof (λ b m.
            let (proven, low, high) = prepared_proof_sound h s.view (stable + 1) count s b m in
            (proven, omega (arith, low), omega (arith, low, high))),
        λ b proven low high.
            prepared_proof_complete h s.view (stable + 1) count s b proven (omega (arith, low))
              (omega (arith, low, high)),
      ),
    )
