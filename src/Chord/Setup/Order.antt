-- ===== src/Chord/Setup/Order.antt =====
-- LinearChordPeer.cpp, initParameters: the ring order and the index of its places.
use quantas.Common.{
  ℕ, zero, suc, ◌+◌, ◌≤◌, ◌<◌, ◌≡◌, refl, sym, ap, ◌∙◌, ◌≢◌, ◌⊎◌, inl, inr, some, List, [], ◌∷◌,
  arith, length, get_or, ltb, Bool-cases,
}
use quantas.Common.Maps.{lookup, assign, lookup-assign}
use quantas.Common.Predicates.{Elem, AllDiff}
use quantas.Chord.Setup.{insert_sorted, sort, number_from}

Elem-insert_sorted : (a b : ℕ) (xs : List ℕ) → Elem b (insert_sorted a xs) → (b ≡ a) ⊎ Elem b xs
unfolding insert_sorted
Elem-insert_sorted a b [] m = m
Elem-insert_sorted a b (x ∷ xs) el = elim (Bool-cases (ltb a x)) [
  | inl lt ↦ rw lt at el
  | inr ge ↦ elim (let m : (b ≡ x) ⊎ Elem b (insert_sorted a xs) = rw ge at el in m) [
    | inl e ↦ inr (inl e)
    | inr m ↦ elim (Elem-insert_sorted a b xs m) [ inl e ↦ inl e | inr k ↦ inr (inr k) ]
  ]
]

insert_sorted-Elem : (a b : ℕ) (xs : List ℕ) → (b ≡ a) ⊎ Elem b xs → Elem b (insert_sorted a xs)
unfolding insert_sorted
insert_sorted-Elem a b [] h = h
insert_sorted-Elem a b (x ∷ xs) h = elim (Bool-cases (ltb a x)) [
  | inl lt ↦ rw lt h
  | inr ge ↦ rw ge (elim h [
    | inl e ↦ inr (insert_sorted-Elem a b xs (inl e))
    | inr (inl e) ↦ inl e
    | inr (inr m) ↦ inr (insert_sorted-Elem a b xs (inr m))
  ])
]

insert_sorted-AllDiff :
    (a : ℕ) (xs : List ℕ) → ¬ Elem a xs → AllDiff xs → AllDiff (insert_sorted a xs)
unfolding insert_sorted
insert_sorted-AllDiff a [] fresh diff = (fresh, tt)
insert_sorted-AllDiff a (x ∷ xs) fresh diff = elim (Bool-cases (ltb a x)) [
  | inl lt ↦ rw lt (fresh, diff)
  | inr ge ↦ rw ge (
    λ m. elim (Elem-insert_sorted a x xs m) [ inl e ↦ fresh (inl (sym e)) | inr k ↦ diff.0 k ],
    insert_sorted-AllDiff a xs (λ m. fresh (inr m)) diff.1,
  )
]

pub sort-Elem : (b : ℕ) (xs : List ℕ) → Elem b xs → Elem b (sort xs)
unfolding sort
sort-Elem b [] m = m
sort-Elem b (x ∷ xs) (inl e) = insert_sorted-Elem x b (sort xs) (inl e)
sort-Elem b (x ∷ xs) (inr m) = insert_sorted-Elem x b (sort xs) (inr (sort-Elem b xs m))

Elem-sort : (b : ℕ) (xs : List ℕ) → Elem b (sort xs) → Elem b xs
unfolding sort
Elem-sort b [] m = m
Elem-sort b (x ∷ xs) m = elim (Elem-insert_sorted x b (sort xs) m) [
  | inl e ↦ inl e
  | inr k ↦ inr (Elem-sort b xs k)
]

pub sort-AllDiff : (xs : List ℕ) → AllDiff xs → AllDiff (sort xs)
unfolding sort
sort-AllDiff [] diff = tt
sort-AllDiff (x ∷ xs) diff =
    insert_sorted-AllDiff x (sort xs) (λ m. diff.0 (Elem-sort x xs m)) (sort-AllDiff xs diff.1)

-- An id that is not numbered keeps what the index had for it.
lookup-number_from_fresh :
    (start id : ℕ) (ids : List ℕ) (index : List (ℕ × ℕ))
    → ¬ Elem id ids
    → lookup id (number_from start ids index) ≡ lookup id index
unfolding number_from
lookup-number_from_fresh start id [] index fresh = refl
lookup-number_from_fresh start id (x ∷ xs) index fresh =
    let other : id ≢ x = λ e. fresh (inl e) in
    lookup-number_from_fresh (start + 1) id xs (assign x start index) (λ m. fresh (inr m))
    ∙ ground (arith, lookup-assign x id start index)

pub lookup-number_from :
    (start i : ℕ) (ids : List ℕ) (index : List (ℕ × ℕ))
    → AllDiff ids
    → i < length ids
    → lookup (get_or ids i 0) (number_from start ids index) ≡ some (start + i)
unfolding number_from
lookup-number_from start i [] index diff h = elim h [ ]
lookup-number_from start zero (x ∷ xs) index diff h =
    lookup-number_from_fresh (start + 1) x xs (assign x start index) diff.0
    ∙ ground (arith, lookup-assign x x start index)
lookup-number_from start (suc i) (x ∷ xs) index diff h =
    lookup-number_from (start + 1) i xs (assign x start index) diff.1 (omega arith)
    ∙ ap some (omega arith)

pub number_from-within :
    (start id i bound : ℕ) (ids : List ℕ) (index : List (ℕ × ℕ))
    → start + length ids ≤ bound
    → (lookup id index ≡ some i → i < bound)
    → lookup id (number_from start ids index) ≡ some i
    → i < bound
unfolding number_from
number_from-within start id i bound [] index room old found = old found
number_from-within start id i bound (x ∷ xs) index room old found =
    number_from-within (start + 1) id i bound xs (assign x start index) (omega arith)
      (λ h. ground (arith, lookup-assign x id start index)) found
