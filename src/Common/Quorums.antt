-- ===== src/Common/Quorums.antt =====
-- Sets of voters in increasing order, and what two large ones share.
use Prim.Native.Nat.{ℕ, ◌+◌, ◌<◌}
use mathlib.Core.Path.{◌≡◌}
use mathlib.Core.Logic.{◌⊎◌, inl, inr}
use mathlib.Core.List.{List, [], ◌∷◌, ◌++◌}
use native.Mathlib.Omega.{arith}
use quantas.Common.Tests.{ltb, ◌==◌, Bool-cases, if◌then◌else◌}
use quantas.Common.Lists.{length, length-append}
use quantas.Common.Sets.{contains, insert}
use quantas.Common.Predicates.{
  All, Elem, AllDiff, All-mono, All-Elem, All-of_Elem, Elem-append_right, Elem-of_contains,
  contains_of_Elem, length-le_of_AllDiff, pigeonhole,
}

abbrev pub IsIncreasing : List ℕ → Type 0
IsIncreasing [] = Unit
IsIncreasing (x ∷ xs) = All (λ y. x < y) xs × IsIncreasing xs

pub All-insert {κ} : (P : ℕ → Type κ) (a : ℕ) (xs : List ℕ) → P a → All P xs → All P (insert a xs)
All-insert P a [] h hs = (h, tt)
All-insert P a (x ∷ xs) h hs = elim (Bool-cases (a == x)) [
  | inl same ↦ rw same hs
  | inr other ↦ elim (Bool-cases (ltb a x)) [
    | inl below ↦ rw (other, below) (h, hs)
    | inr above ↦ rw (other, above) (hs.0, All-insert P a xs h hs.1)
  ]
]

pub Elem-insert : (a x : ℕ) (xs : List ℕ) → Elem a (insert x xs) → (a ≡ x) ⊎ Elem a xs
Elem-insert a x [] m = m
Elem-insert a x (y ∷ ys) m = elim (Bool-cases (x == y)) [
  | inl same ↦ inr (rw same at m)
  | inr other ↦ elim (Bool-cases (ltb x y)) [
    | inl below ↦ rw (other, below) at m
    | inr above ↦
        let n : (a ≡ y) ⊎ Elem a (insert x ys) = rw (other, above) at m in
        elim n [
          | inl e ↦ inr (inl e)
          | inr k ↦ elim (Elem-insert a x ys k) [ inl e ↦ inl e | inr r ↦ inr (inr r) ]
        ]
  ]
]

pub insert-IsIncreasing : (a : ℕ) (xs : List ℕ) → IsIncreasing xs → IsIncreasing (insert a xs)
insert-IsIncreasing a [] inc = (tt, tt)
insert-IsIncreasing a (x ∷ xs) inc = elim (Bool-cases (a == x)) [
  | inl same ↦ rw same inc
  | inr other ↦ elim (Bool-cases (ltb a x)) [
    | inl below ↦
        let lt : a < x = ground (arith, below) in
        rw (other, below)
          ((lt, All-mono (λ y. x < y) (λ y. a < y) xs (λ y l. omega (arith, l, lt)) inc.0), inc)
    | inr above ↦
        let lt : x < a = ground (arith, other, above) in
        rw (other, above) (All-insert (λ y. x < y) a xs lt inc.0, insert-IsIncreasing a xs inc.1)
  ]
]

pub AllDiff-of_IsIncreasing : (xs : List ℕ) → IsIncreasing xs → AllDiff xs
AllDiff-of_IsIncreasing [] inc = tt
AllDiff-of_IsIncreasing (x ∷ xs) inc = (
  λ m. let lt = All-Elem (λ y. x < y) xs x inc.0 m in omega (arith, lt),
  AllDiff-of_IsIncreasing xs inc.1,
)

-- Those of a list that are not in the other one.
abbrev pub outside : List ℕ → List ℕ → List ℕ
outside zs [] = []
outside zs (x ∷ xs) = if contains x zs then outside zs xs else x ∷ outside zs xs

pub Elem-outside : (a : ℕ) (zs xs : List ℕ) → Elem a (outside zs xs) → Elem a xs × (¬ Elem a zs)
Elem-outside a zs [] m = absurd m
Elem-outside a zs (x ∷ xs) m = elim (Bool-cases (contains x zs)) [
  | inl hit ↦ let r = Elem-outside a zs xs (rw hit at m) in (inr r.0, r.1)
  | inr miss ↦
      let n : (a ≡ x) ⊎ Elem a (outside zs xs) = rw miss at m in
      elim n [
        | inl e ↦
            (inl e, λ k. let c = contains_of_Elem a zs k in absurd (ground (arith, c, e, miss)))
        | inr k ↦ let r = Elem-outside a zs xs k in (inr r.0, r.1)
      ]
]

outside-AllDiff : (zs xs : List ℕ) → AllDiff xs → AllDiff (outside zs xs)
outside-AllDiff zs [] diff = tt
outside-AllDiff zs (x ∷ xs) diff = elim (Bool-cases (contains x zs)) [
  | inl hit ↦ rw hit (outside-AllDiff zs xs diff.1)
  | inr miss ↦ rw miss ((λ m. diff.0 (Elem-outside x zs xs m).0), outside-AllDiff zs xs diff.1)
]

All-outside {κ} : (P : ℕ → Type κ) (zs xs : List ℕ) → All P xs → All P (outside zs xs)
All-outside P zs [] hs = tt
All-outside P zs (x ∷ xs) hs = elim (Bool-cases (contains x zs)) [
  | inl hit ↦ rw hit (All-outside P zs xs hs.1)
  | inr miss ↦ rw miss (hs.0, All-outside P zs xs hs.1)
]

Elem-covered : (zs xs : List ℕ) (a : ℕ) → Elem a xs → Elem a (outside zs xs ++ zs)
Elem-covered zs [] a m = absurd m
Elem-covered zs (x ∷ xs) a m = elim (Bool-cases (contains x zs)) [
  | inl hit ↦ rw hit (elim m [
    | inl e ↦ Elem-append_right (outside zs xs) zs a (rw e (Elem-of_contains x zs hit))
    | inr k ↦ Elem-covered zs xs a k
  ])
  | inr miss ↦ rw miss (elim m [ inl e ↦ inl e | inr k ↦ inr (Elem-covered zs xs a k) ])
]

-- Two lists of distinct members that together exceed the members and the faulty ones share one
-- that is not faulty.
pub quorum_overlap :
    (xs ys members faulty : List ℕ)
    → AllDiff xs
    → AllDiff ys
    → All (λ x. Elem x members) xs
    → All (λ y. Elem y members) ys
    → length members + length faulty < length xs + length ys
    → (a : ℕ) × Elem a xs × Elem a ys × (¬ Elem a faulty)
quorum_overlap xs ys members faulty dx dy sx sy over =
    let covered =
      length-le_of_AllDiff xs (outside faulty xs ++ faulty) dx
        (All-of_Elem (λ a. Elem a (outside faulty xs ++ faulty)) xs (Elem-covered faulty xs)) in
    let r =
      pigeonhole (outside faulty xs) ys members (outside-AllDiff faulty xs dx) dy
        (All-outside (λ x. Elem x members) faulty xs sx) sy
        (omega (arith, covered, over, length-append (outside faulty xs) faulty)) in
    let e = Elem-outside r.0 faulty xs r.1 in (r.0, e.0, r.2, e.1)
