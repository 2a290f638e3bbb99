-- ===== src/Kademlia/Routes.antt =====
-- KademliaPeer.cpp, selectFingerForGroup and findRoute: the finger that is taken.
use quantas.Common.{
  ℕ, ◌<◌, ◌≡◌, refl, sym, ap, subst, ◌∙◌, inl, inr, Bool, true, false, ◌||◌, Option, none, some,
  eq_of_some, List, [], ◌∷◌, length, get_or, arith, Bool-cases,
}
use quantas.Common.Sets.{contains}
use quantas.Common.Predicates.{All, All-Elem, Elem}
use quantas.Common.Places.{get_or-Elem}
use quantas.Kademlia.{
  KademliaFinger, Peer, first_different_bit, is_group, candidates, choose, is_nil,
  select_finger_for_group, find_route, get_binary_id,
}
use quantas.Kademlia.Bits.{IsLater, first_different_bit-IsLater}

-- The fingers hold the binary ids of their peers and the groups that these put them in.
abbrev pub IsFinger : Peer → KademliaFinger → Type 0
IsFinger p f =
    (f.bin_id ≡ get_binary_id p.binary_id_size f.id)
    × (f.group ≡ first_different_bit f.bin_id p.binary_id)

is_group-eq : (g : ℕ) (b : Option ℕ) → is_group g b ≡ true → b ≡ some g
unfolding is_group
is_group-eq g none h = cc h
is_group-eq g (some k) h = ap some (ground (arith, h))

-- The finger that a candidate comes from.
abbrev Candidate : ℕ → ℕ → List ℕ → List KademliaFinger → Type 0
Candidate g c nbrs fs =
    (f : KademliaFinger) × Elem f fs × (f.id ≡ c) × (f.group ≡ some g) × (contains c nbrs ≡ true)

candidates-Elem :
    (g c : ℕ) (nbrs : List ℕ) (fs : List KademliaFinger)
    → Elem c (candidates g nbrs fs)
    → Candidate g c nbrs fs
unfolding candidates
candidates-Elem g c nbrs [] m = elim m [ ]
candidates-Elem g c nbrs (f ∷ fs) m =
    let deeper : Elem c (candidates g nbrs fs) → Candidate g c nbrs (f ∷ fs) = λ later.
      let (h, h_in, is_c, in_group, near) = candidates-Elem g c nbrs fs later in
      (h, inr h_in, is_c, in_group, near) in
    elim (Bool-cases (is_group g f.group)) [
      | inr other ↦ deeper (rw (other, candidates) at m)
      | inl here ↦ elim (Bool-cases (contains f.id nbrs)) [
        | inr far ↦ deeper (rw (here, far, candidates) at m)
        | inl near ↦
            let now : Elem c (f.id ∷ candidates g nbrs fs) = rw (here, near, candidates) at m in
            elim now [
              | inl first ↦ (
                f,
                inl refl,
                sym first,
                is_group-eq g f.group here,
                subst (λ z. contains z nbrs ≡ true) (sym first) near,
              )
              | inr later ↦ deeper later
            ]
      ]
    ]

choose-Elem :
    (drawn : ℕ) (cs : List ℕ) (c : ℕ) → drawn < length cs → choose drawn cs ≡ some c → Elem c cs
unfolding choose
choose-Elem drawn [] c lt e = cc e
choose-Elem drawn (d ∷ []) c lt e = inl (sym (eq_of_some d c e))
choose-Elem drawn (d ∷ b ∷ cs) c lt e =
    subst (λ z. Elem z (d ∷ b ∷ cs)) (eq_of_some _ c e) (get_or-Elem (d ∷ b ∷ cs) drawn lt)

is_nil-of_group :
    (t b : List Bool) (g : ℕ) → first_different_bit t b ≡ some g → (is_nil t || is_nil b) ≡ false
unfolding first_different_bit is_nil
is_nil-of_group [] b g e = cc e
is_nil-of_group (x ∷ xs) [] g e = cc e
is_nil-of_group (x ∷ xs) (y ∷ ys) g e = refl

-- A finger of the group that is a neighbour is a candidate.
Elem-candidates :
    (g : ℕ) (f : KademliaFinger) (nbrs : List ℕ) (fs : List KademliaFinger)
    → Elem f fs
    → f.group ≡ some g
    → contains f.id nbrs ≡ true
    → Elem f.id (candidates g nbrs fs)
unfolding candidates is_group
Elem-candidates g f nbrs [] m in_group near = elim m [ ]
Elem-candidates g f nbrs (h ∷ fs) (inl same) in_group near =
    let its_group : h.group ≡ some g = ap (λ (x : KademliaFinger). x.group) (sym same) ∙ in_group in
    let its_id : f.id ≡ h.id = ap (λ (x : KademliaFinger). x.id) same in
    let here : is_group g h.group ≡ true = rw (its_group, is_group) (ground arith) in
    let there : contains h.id nbrs ≡ true = rw its_id at near in
    rw (here, there, candidates) (inl its_id)
Elem-candidates g f nbrs (h ∷ fs) (inr m) in_group near =
    let later = Elem-candidates g f nbrs fs m in_group near in
    elim (Bool-cases (is_group g h.group)) [
      | inr other ↦ rw (other, candidates) later
      | inl here ↦ elim (Bool-cases (contains h.id nbrs)) [
        | inr far ↦ rw (here, far, candidates) later
        | inl close ↦ rw (here, close, candidates) (inr later)
      ]
    ]

-- Every draw that is in range has its candidate.
choose-some : (drawn : ℕ) (cs : List ℕ) → drawn < length cs → (c : ℕ) × (choose drawn cs ≡ some c)
unfolding choose
choose-some drawn [] lt = absurd (omega arith)
choose-some drawn (c ∷ []) lt = (c, refl)
choose-some drawn (c ∷ d ∷ cs) lt = (get_or (c ∷ d ∷ cs) drawn 0, refl)

length-pos : (c : ℕ) (cs : List ℕ) → Elem c cs → 0 < length cs
length-pos c [] m = elim m [ ]
length-pos c (d ∷ cs) m = omega arith

-- Where the binary id of the target differs from the peer's at the bit `g` first, and the peer has a
-- finger of that group among its neighbours, findRoute takes such a finger, whichever of them is
-- drawn: a neighbour whose binary id agrees with the target's beyond that bit.
pub find_route-IsLater :
    (drawn : ℕ) (p : Peer) (t : List Bool) (target g : ℕ) (f : KademliaFinger) (nbrs : List ℕ)
    → All (IsFinger p) p.fingers
    → first_different_bit t p.binary_id ≡ some g
    → Elem f p.fingers
    → f.group ≡ some g
    → contains f.id nbrs ≡ true
    → (0 < length (candidates g nbrs p.fingers) → drawn < length (candidates g nbrs p.fingers))
    → (next : ℕ) × (find_route drawn p t target nbrs ≡ some next)
      × (contains next nbrs ≡ true)
      × IsLater g (first_different_bit t (get_binary_id p.binary_id_size next))
unfolding find_route select_finger_for_group
find_route-IsLater drawn p t target g f nbrs fingers differs known in_group near draws =
    let among = Elem-candidates g f nbrs p.fingers known in_group near in
    let lt = draws (length-pos f.id (candidates g nbrs p.fingers) among) in
    let (next, chosen) = choose-some drawn (candidates g nbrs p.fingers) lt in
    let (h, h_in, is_next, of_group, close) =
      candidates-Elem g next nbrs p.fingers
        (choose-Elem drawn (candidates g nbrs p.fingers) next lt chosen) in
    let finger = All-Elem (IsFinger p) p.fingers h fingers h_in in
    let bin : h.bin_id ≡ get_binary_id p.binary_id_size next =
      finger.0 ∙ ap (get_binary_id p.binary_id_size) is_next in
    (
      next,
      rw (is_nil-of_group t p.binary_id g differs, differs, chosen, find_route) refl,
      close,
      subst (λ b. IsLater g (first_different_bit t b)) bin
          (first_different_bit-IsLater t h.bin_id p.binary_id g differs (sym finger.1 ∙ of_group)),
    )
