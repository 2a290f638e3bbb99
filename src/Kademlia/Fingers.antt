-- ===== src/Kademlia/Fingers.antt =====
-- KademliaPeer.cpp, rebuildFingerTable: the fingers that are chosen.
use quantas.Common.{
  ℕ, zero, suc, refl, inl, inr, List, [], ◌∷◌, get_or, replicate, ◌==◌, Bool-cases, Option-cases,
}
use quantas.Common.Predicates.{All, All-concat}
use quantas.Kademlia.{
  KademliaFinger, Peer, put, entry_of, add_entry, group_all, pick, rebuild_finger_table,
}
use quantas.Kademlia.Routes.{IsFinger}

module _ (P : KademliaFinger → Type 0) where
  All-put :
      (g : ℕ) (f : KademliaFinger) (bs : List (List KademliaFinger))
      → P f
      → All (All P) bs
      → All (All P) (put g f bs)
  unfolding put
  All-put g f [] h hs = tt
  All-put zero f (b ∷ bs) h hs = (All-concat P b f hs.0 h, hs.1)
  All-put (suc g) f (b ∷ bs) h hs = (hs.0, All-put g f bs h hs.1)

  All-get_or :
      (fs : List KademliaFinger) (i : ℕ) (d : KademliaFinger) → P d → All P fs → P (get_or fs i d)
  All-get_or [] i d h hs = h
  All-get_or (f ∷ fs) zero d h hs = hs.0
  All-get_or (f ∷ fs) (suc i) d h hs = All-get_or fs i d h hs.1

  All-pick :
      (draws : List ℕ) (bs : List (List KademliaFinger)) → All (All P) bs → All P (pick draws bs)
  unfolding pick
  All-pick draws [] hs = tt
  All-pick draws ([] ∷ bs) hs = All-pick draws bs hs.1
  All-pick draws ((f ∷ []) ∷ bs) hs = (hs.0.0, All-pick draws bs hs.1)
  All-pick [] ((f ∷ g ∷ fs) ∷ bs) hs = (hs.0.0, All-pick [] bs hs.1)
  All-pick (d ∷ draws) ((f ∷ g ∷ fs) ∷ bs) hs =
      (All-get_or (f ∷ g ∷ fs) d f hs.0.0 hs.0, All-pick draws bs hs.1)

  All-nothing : (n : ℕ) → All (All P) (replicate n [])
  All-nothing zero = tt
  All-nothing (suc n) = (tt, All-nothing n)

entry_of-IsFinger : (p : Peer) (n : ℕ) → IsFinger p (entry_of p n)
unfolding entry_of
entry_of-IsFinger p n = (refl, refl)

add_entry-IsFinger :
    (p : Peer) (f : KademliaFinger) (bs : List (List KademliaFinger))
    → IsFinger p f
    → All (All (IsFinger p)) bs
    → All (All (IsFinger p)) (add_entry f bs)
unfolding add_entry
add_entry-IsFinger p f bs h hs = elim (Option-cases f.group) [
  | inl alike ↦ rw (alike, add_entry) hs
  | inr (g, differs) ↦ rw (differs, add_entry) (All-put (IsFinger p) g f bs h hs)
]

group_all-IsFinger :
    (p : Peer) (ns : List ℕ) (bs : List (List KademliaFinger))
    → All (All (IsFinger p)) bs
    → All (All (IsFinger p)) (group_all p ns bs)
unfolding group_all
group_all-IsFinger p [] bs hs = hs
group_all-IsFinger p (n ∷ ns) bs hs = elim (Bool-cases (n == p.public_id)) [
  | inl own ↦ rw own (group_all-IsFinger p ns bs hs)
  | inr other ↦ rw other (
      group_all-IsFinger p ns (add_entry (entry_of p n) bs)
        (add_entry-IsFinger p (entry_of p n) bs (entry_of-IsFinger p n) hs))
]

pub rebuild_finger_table-IsFinger :
    (draws nbrs : List ℕ) (p : Peer) → All (IsFinger p) (rebuild_finger_table draws nbrs p).fingers
unfolding rebuild_finger_table
rebuild_finger_table-IsFinger draws nbrs p =
    All-pick (IsFinger p) draws (group_all p nbrs (replicate p.binary_id_size [])) (
      group_all-IsFinger p nbrs (replicate p.binary_id_size [])
        (All-nothing (IsFinger p) p.binary_id_size))
