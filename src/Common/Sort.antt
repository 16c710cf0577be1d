-- ===== src/Common/Sort.antt =====
-- Python's `sorted` and SQL's `ORDER BY`: a stable sort by a test that says whether the first
-- argument may stand before the second.
use Prim.Native.Nat.{ℕ, suc, ◌+◌}
use mathlib.Core.Path.{◌≡◌, refl}
use mathlib.Core.Bool.{Bool}
use mathlib.Core.List.{List, [], ◌∷◌}
use native.Mathlib.Omega.{arith}
use farm_link.Common.Tests.{leb, if◌then◌else◌}
use farm_link.Common.Table.{length, sum_by}

module _ {ℓ} {A : Type ℓ} where
  unfoldable pub insert_sorted : (A → A → Bool) → A → List A → List A
  insert_sorted before x [] = x ∷ []
  insert_sorted before x (y ∷ ys) = if before x y then x ∷ y ∷ ys else y ∷ insert_sorted before x ys

  unfoldable pub sort : (A → A → Bool) → List A → List A
  unfolding insert_sorted
  sort before [] = []
  sort before (x ∷ xs) = insert_sorted before x (sort before xs)

  sum_by-insert_sorted :
      (f : A → ℕ) (before : A → A → Bool) (x : A) (ys : List A)
      → sum_by f (insert_sorted before x ys) ≡ f x + sum_by f ys
  unfolding insert_sorted sum_by
  sum_by-insert_sorted f before x [] = refl
  sum_by-insert_sorted f before x (y ∷ ys) = ground (arith, sum_by-insert_sorted f before x ys)

  -- Sorting loses nothing from a sum.
  pub sum_by-sort :
      (f : A → ℕ) (before : A → A → Bool) (xs : List A) → sum_by f (sort before xs) ≡ sum_by f xs
  unfolding sort sum_by
  sum_by-sort f before [] = refl
  sum_by-sort f before (x ∷ xs) =
      omega (arith, sum_by-insert_sorted f before x (sort before xs), sum_by-sort f before xs)

  length-insert_sorted :
      (before : A → A → Bool) (x : A) (ys : List A)
      → length (insert_sorted before x ys) ≡ suc (length ys)
  unfolding insert_sorted
  length-insert_sorted before x [] = refl
  length-insert_sorted before x (y ∷ ys) = ground (arith, length-insert_sorted before x ys)

  pub length-sort : (before : A → A → Bool) (xs : List A) → length (sort before xs) ≡ length xs
  unfolding sort
  length-sort before [] = refl
  length-sort before (x ∷ xs) =
      omega (arith, length-insert_sorted before x (sort before xs), length-sort before xs)

-- By a number, up or down.
abbrev pub ascending {ℓ} : {A : Type ℓ} → (A → ℕ) → A → A → Bool
ascending f x y = leb (f x) (f y)

abbrev pub descending {ℓ} : {A : Type ℓ} → (A → ℕ) → A → A → Bool
descending f x y = leb (f y) (f x)
