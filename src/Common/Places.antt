-- ===== src/Common/Places.antt =====
-- The places of a list of ids without duplicates.
use Prim.Native.Nat.{ℕ, zero, suc, ◌<◌}
use mathlib.Core.Path.{◌≡◌, refl, sym, ap}
use mathlib.Core.Logic.{inl, inr}
use mathlib.Core.List.{List, [], ◌∷◌}
use native.Mathlib.Omega.{arith}
use quantas.Common.Lists.{length, get_or}
use quantas.Common.Predicates.{Elem, AllDiff}

pub get_or-Elem : (xs : List ℕ) (i : ℕ) → i < length xs → Elem (get_or xs i 0) xs
get_or-Elem [] i h = elim h [ ]
get_or-Elem (x ∷ xs) zero h = inl refl
get_or-Elem (x ∷ xs) (suc i) h = inr (get_or-Elem xs i (omega arith))

pub Elem-get_or :
    (a : ℕ) (xs : List ℕ) → Elem a xs → (i : ℕ) × (i < length xs) × (get_or xs i 0 ≡ a)
Elem-get_or a [] m = elim m [ ]
Elem-get_or a (x ∷ xs) (inl e) = (0, omega arith, sym e)
Elem-get_or a (x ∷ xs) (inr m) = let r = Elem-get_or a xs m in (suc r.0, omega (arith, r.1), r.2)

pub get_or-injective :
    (xs : List ℕ) (i j : ℕ)
    → AllDiff xs
    → i < length xs
    → j < length xs
    → get_or xs i 0 ≡ get_or xs j 0
    → i ≡ j
get_or-injective [] i j diff hi hj e = elim hi [ ]
get_or-injective (x ∷ xs) zero zero diff hi hj e = refl
get_or-injective (x ∷ xs) zero (suc j) diff hi hj e =
    absurd (diff.0 (rw (sym e) at (get_or-Elem xs j (omega arith))))
get_or-injective (x ∷ xs) (suc i) zero diff hi hj e =
    absurd (diff.0 (rw e at (get_or-Elem xs i (omega arith))))
get_or-injective (x ∷ xs) (suc i) (suc j) diff hi hj e =
    ap suc (get_or-injective xs i j diff.1 (omega arith) (omega arith) e)
