-- ===== src/Common/Predicates.antt =====
-- Predicates on lists by recursion, which the tactics read and build.
use Prim.Native.Nat.{ℕ, suc, ◌+◌, ◌≤◌, ◌<◌}
use mathlib.Core.Path.{◌≡◌, refl, sym, subst}
use mathlib.Core.Bool.{true, false}
use native.Mathlib.Omega.{arith}
use quantas.Common.Tests.{◌==◌, Bool-cases, if◌then◌else◌}
use quantas.Common.Lists.{length, length-append}
use quantas.Common.Sets.{contains}
use mathlib.Core.Logic.{◌≢◌, ◌⊎◌, inl, inr}
use mathlib.Core.List.{List, [], ◌∷◌, ◌++◌}

abbrev pub All {ℓ κ} : {A : Type ℓ} → (A → Type κ) → List A → Type κ
All P [] = Unit
All P (x ∷ xs) = P x × All P xs

abbrev pub Elem : {A : Type 0} → A → List A → Type 0
Elem a [] = ⊥
Elem a (x ∷ xs) = (a ≡ x) ⊎ Elem a xs

pub All-concat {ℓ κ} :
    {A : Type ℓ} (P : A → Type κ) (xs : List A) (x : A) → All P xs → P x → All P (xs ++ x ∷ [])
All-concat P [] x hs h = (h, tt)
All-concat P (y ∷ ys) x hs h = (hs.0, All-concat P ys x hs.1 h)

pub All-mono {ℓ κ} :
    {A : Type ℓ} (P Q : A → Type κ) (xs : List A) → ((a : A) → P a → Q a) → All P xs → All Q xs
All-mono P Q [] f hs = tt
All-mono P Q (x ∷ xs) f hs = (f x hs.0, All-mono P Q xs f hs.1)

pub All-Elem {κ} : {A : Type 0} (P : A → Type κ) (xs : List A) (a : A) → All P xs → Elem a xs → P a
All-Elem P [] a hs m = absurd m
All-Elem P (x ∷ xs) a hs (inl e) = subst P (sym e) hs.0
All-Elem P (x ∷ xs) a hs (inr m) = All-Elem P xs a hs.1 m

pub All-of_Elem {κ} :
    {A : Type 0} (P : A → Type κ) (xs : List A) → ((a : A) → Elem a xs → P a) → All P xs
All-of_Elem P [] h = tt
All-of_Elem P (x ∷ xs) h = (h x (inl refl), All-of_Elem P xs (λ a m. h a (inr m)))

pub Elem-concat : {A : Type 0} (xs : List A) (a : A) → Elem a (xs ++ a ∷ [])
Elem-concat [] a = inl refl
Elem-concat (x ∷ xs) a = inr (Elem-concat xs a)

pub Elem-append_left : {A : Type 0} (xs ys : List A) (a : A) → Elem a xs → Elem a (xs ++ ys)
Elem-append_left [] ys a m = absurd m
Elem-append_left (x ∷ xs) ys a (inl e) = inl e
Elem-append_left (x ∷ xs) ys a (inr m) = inr (Elem-append_left xs ys a m)

pub Elem-append_right : {A : Type 0} (xs ys : List A) (a : A) → Elem a ys → Elem a (xs ++ ys)
Elem-append_right [] ys a m = m
Elem-append_right (x ∷ xs) ys a m = inr (Elem-append_right xs ys a m)

pub Elem-append_cases :
    {A : Type 0} (xs ys : List A) (a : A) → Elem a (xs ++ ys) → Elem a xs ⊎ Elem a ys
Elem-append_cases [] ys a m = inr m
Elem-append_cases (x ∷ xs) ys a (inl e) = inl (inl e)
Elem-append_cases (x ∷ xs) ys a (inr m) = elim (Elem-append_cases xs ys a m) [
  | inl l ↦ inl (inr l)
  | inr r ↦ inr r
]

-- No id stands twice.
abbrev pub AllDiff : List ℕ → Type 0
AllDiff [] = Unit
AllDiff (x ∷ xs) = (¬ Elem x xs) × AllDiff xs

pub Elem-of_contains : (a : ℕ) (xs : List ℕ) → contains a xs ≡ true → Elem a xs
Elem-of_contains a [] h = absurd (let e : false ≡ true = h in cc e)
Elem-of_contains a (x ∷ xs) h = elim (Bool-cases (a == x)) [
  | inl same ↦ inl (ground arith)
  | inr other ↦ inr (Elem-of_contains a xs (ground arith))
]

pub contains_of_Elem : (a : ℕ) (xs : List ℕ) → Elem a xs → contains a xs ≡ true
contains_of_Elem a [] m = absurd m
contains_of_Elem a (x ∷ xs) (inl e) = ground arith
contains_of_Elem a (x ∷ xs) (inr m) = ground (arith, contains_of_Elem a xs m)

-- A new id at the end.
pub AllDiff-concat :
    (xs : List ℕ) (a : ℕ) → AllDiff xs → contains a xs ≡ false → AllDiff (xs ++ a ∷ [])
AllDiff-concat [] a diff new = ((λ m. m), tt)
AllDiff-concat (x ∷ xs) a diff new = (
  λ m. elim (Elem-append_cases xs (a ∷ []) x m) [
    | inl old ↦ diff.0 old
    | inr (inl e) ↦ absurd (ground arith)
    | inr (inr n) ↦ n
  ],
  AllDiff-concat xs a diff.1 (ground arith),
)

without : ℕ → List ℕ → List ℕ
without a [] = []
without a (x ∷ xs) = if a == x then xs else x ∷ without a xs

length-without : (a : ℕ) (xs : List ℕ) → Elem a xs → suc (length (without a xs)) ≡ length xs
unfolding without
length-without a [] m = absurd m
length-without a (x ∷ xs) (inl e) = ground arith
length-without a (x ∷ xs) (inr m) = ground (arith, length-without a xs m)

Elem-without : (a b : ℕ) (xs : List ℕ) → b ≢ a → Elem b xs → Elem b (without a xs)
unfolding without
Elem-without a b [] ne m = m
Elem-without a b (x ∷ xs) ne (inl e) = elim (Bool-cases (a == x)) [
  | inl same ↦ absurd (ne (ground arith))
  | inr other ↦ rw other (inl e)
]
Elem-without a b (x ∷ xs) ne (inr m) = elim (Bool-cases (a == x)) [
  | inl same ↦ rw same m
  | inr other ↦ rw other (inr (Elem-without a b xs ne m))
]

All-without :
    (a : ℕ) (xs ys : List ℕ)
    → ¬ Elem a xs
    → All (λ x. Elem x ys) xs
    → All (λ x. Elem x (without a ys)) xs
All-without a [] ys no_a sub = tt
All-without a (x ∷ xs) ys no_a sub = (
  Elem-without a x ys (λ e. no_a (inl (sym e))) sub.0,
  All-without a xs ys (λ m. no_a (inr m)) sub.1,
)

-- Distinct ids out of a list are no more than the list has.
pub length-le_of_AllDiff :
    (xs ys : List ℕ) → AllDiff xs → All (λ x. Elem x ys) xs → length xs ≤ length ys
length-le_of_AllDiff [] ys diff sub = omega arith
length-le_of_AllDiff (x ∷ xs) ys diff sub = omega (
  arith,
  length-without x ys sub.0,
  length-le_of_AllDiff xs (without x ys) diff.1 (All-without x xs ys diff.0 sub.1),
)

pub All-append {κ} :
    {A : Type 0} (P : A → Type κ) (xs ys : List A) → All P xs → All P ys → All P (xs ++ ys)
All-append P [] ys hx hy = hy
All-append P (x ∷ xs) ys hx hy = (hx.0, All-append P xs ys hx.1 hy)

-- Two lists with nothing in common.
AllDiff-append :
    (xs ys : List ℕ)
    → AllDiff xs
    → AllDiff ys
    → ((a : ℕ) → Elem a xs → ¬ Elem a ys)
    → AllDiff (xs ++ ys)
AllDiff-append [] ys dx dy apart = dy
AllDiff-append (x ∷ xs) ys dx dy apart = (
  λ m. elim (Elem-append_cases xs ys x m) [ inl l ↦ dx.0 l | inr r ↦ apart x (inl refl) r ],
  AllDiff-append xs ys dx.1 dy (λ a m. apart a (inr m)),
)

-- The first id of one list that stands in the other too.
common? : (xs ys : List ℕ) → ((a : ℕ) × Elem a xs × Elem a ys) ⊎ ((a : ℕ) → Elem a xs → ¬ Elem a ys)
common? [] ys = inr (λ a m. absurd m)
common? (x ∷ xs) ys = elim (Bool-cases (contains x ys)) [
  | inl hit ↦ inl (x, inl refl, Elem-of_contains x ys hit)
  | inr miss ↦ elim (common? xs ys) [
    | inl (a, l, r) ↦ inl (a, inr l, r)
    | inr apart ↦ inr (λ a m n. elim m [
      | inl e ↦ absurd (ground (arith, contains_of_Elem a ys n))
      | inr k ↦ apart a k n
    ])
  ]
]

-- Two lists of distinct members that together exceed the members share one.
pub pigeonhole :
    (xs ys zs : List ℕ)
    → AllDiff xs
    → AllDiff ys
    → All (λ x. Elem x zs) xs
    → All (λ y. Elem y zs) ys
    → length zs < length xs + length ys
    → (a : ℕ) × Elem a xs × Elem a ys
pigeonhole xs ys zs dx dy sx sy over = elim (common? xs ys) [
  | inl shared ↦ shared
  | inr apart ↦ absurd (
      omega (
        arith,
        length-le_of_AllDiff (xs ++ ys) zs (AllDiff-append xs ys dx dy apart)
            (All-append (λ x. Elem x zs) xs ys sx sy),
        length-append xs ys,
      ))
]

-- What is above all of a list is not in it.
pub contains-above :
    (a : ℕ) (xs : List ℕ) (n : ℕ) → n < a → All (λ x. x ≤ n) xs → contains a xs ≡ false
contains-above a [] n lt hs = refl
contains-above a (x ∷ xs) n lt hs = ground (arith, contains-above a xs n lt hs.1, hs.0)
