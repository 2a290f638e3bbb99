-- ===== src/Chord/Tests.antt =====
-- LinearChordPeer.cpp on a ring of four peers, and the theorems there.
use quantas.Common.{
  ℕ, zero, suc, ◌≤◌, ◌<◌, ◌≡◌, ◌≢◌, refl, inl, true, false, some, List, [], ◌∷◌, map, arith, length,
  get_or,
}
use quantas.Common.Int.{pos}
use quantas.Common.Sets.{contains, erase}
use quantas.Common.Maps.{lookup}
use quantas.Common.Predicates.{AllDiff, All}
use quantas.Chord.{Peer, ring_distance, select_finger, scan_fingers, consider_finger}
use quantas.Chord.Routing.{select_finger-closer}
use quantas.Chord.Clockwise.{Clockwise}
use quantas.Chord.Setup.{number_from, set_up, init_parameters, make_lookup_template}
use quantas.Chord.Setup.Placed.{IsOnRing, set_up-IsPlaced, init_parameters-IsOnRing}
use quantas.Chord.Delivery.{IsComplete, Delivers, ring_peer, lookup_delivered}

abbrev four : List ℕ
four = 10 ∷ 20 ∷ 30 ∷ 40 ∷ []

abbrev fresh_peer : ℕ → Peer
fresh_peer id = record {
  public_id = id;
  neighbors = erase id four;
  ring_order = [];
  index_by_id = [];
  fingers = [];
  self_index = 0;
  initialized = false;
  requests_satisfied = 0;
  total_hops = 0;
  total_latency = pos 0;
  outbox = [];
}

abbrev four_base : ℕ → Peer
four_base i = fresh_peer (get_or four i 0)

four-AllDiff : AllDiff four
four-AllDiff = grind arith

select_far : select_finger (ring_peer four four_base 0) 40 four ≡ some 30
unfolding select_finger set_up number_from ring_distance scan_fingers consider_finger
select_far = refl

select_finger-closer_example :
    (j : ℕ) × (lookup 30 (ring_peer four four_base 0).index_by_id ≡ some j)
    × (contains 30 four ≡ true)
    × (ring_distance (length (ring_peer four four_base 0).ring_order) j 3
        < ring_distance
            (length (ring_peer four four_base 0).ring_order)
            (ring_peer four four_base 0).self_index
            3)
unfolding set_up number_from
select_finger-closer_example =
    select_finger-closer (ring_peer four four_base 0) 40 3 30 four
      (set_up-IsPlaced four (four_base 0) four-AllDiff (inl refl)) refl select_far

init_parameters-IsOnRing_example :
    All (IsOnRing (30 ∷ 10 ∷ 20 ∷ [])) (init_parameters (map fresh_peer (30 ∷ 10 ∷ 20 ∷ [])))
    × (map (λ (p : Peer). p.public_id) (init_parameters (map fresh_peer (30 ∷ 10 ∷ 20 ∷ [])))
        ≡ 30 ∷ 10 ∷ 20 ∷ [])
init_parameters-IsOnRing_example =
    init_parameters-IsOnRing (map fresh_peer (30 ∷ 10 ∷ 20 ∷ [])) (grind arith)

four_linked :
    (i j : ℕ) → i < 4 → j < 4 → i ≢ j → contains (get_or four j 0) (four_base i).neighbors ≡ true
four_linked zero zero hi hj apart = absurd (apart refl)
four_linked zero (suc zero) hi hj apart = refl
four_linked zero (suc (suc zero)) hi hj apart = refl
four_linked zero (suc (suc (suc zero))) hi hj apart = refl
four_linked zero (suc (suc (suc (suc j)))) hi hj apart = absurd (omega arith)
four_linked (suc zero) zero hi hj apart = refl
four_linked (suc zero) (suc zero) hi hj apart = absurd (apart refl)
four_linked (suc zero) (suc (suc zero)) hi hj apart = refl
four_linked (suc zero) (suc (suc (suc zero))) hi hj apart = refl
four_linked (suc zero) (suc (suc (suc (suc j)))) hi hj apart = absurd (omega arith)
four_linked (suc (suc zero)) zero hi hj apart = refl
four_linked (suc (suc zero)) (suc zero) hi hj apart = refl
four_linked (suc (suc zero)) (suc (suc zero)) hi hj apart = absurd (apart refl)
four_linked (suc (suc zero)) (suc (suc (suc zero))) hi hj apart = refl
four_linked (suc (suc zero)) (suc (suc (suc (suc j)))) hi hj apart = absurd (omega arith)
four_linked (suc (suc (suc zero))) zero hi hj apart = refl
four_linked (suc (suc (suc zero))) (suc zero) hi hj apart = refl
four_linked (suc (suc (suc zero))) (suc (suc zero)) hi hj apart = refl
four_linked (suc (suc (suc zero))) (suc (suc (suc zero))) hi hj apart = absurd (apart refl)
four_linked (suc (suc (suc zero))) (suc (suc (suc (suc j)))) hi hj apart = absurd (omega arith)
four_linked (suc (suc (suc (suc i)))) j hi hj apart = absurd (omega arith)

four-IsComplete : IsComplete four four_base
four-IsComplete = record { diff = four-AllDiff; ids = λ i h. refl; linked = four_linked }

lookup_delivered_example :
    (m : ℕ) × (m ≤ 2) × Delivers 7 four four_base 0 (make_lookup_template 5 40 1 (four_base 0)) m
unfolding make_lookup_template ring_distance
lookup_delivered_example =
    lookup_delivered 7 four four_base four-IsComplete 2 0 3
      (make_lookup_template 5 40 1 (four_base 0)) (omega arith) (omega arith) (omega arith) refl
