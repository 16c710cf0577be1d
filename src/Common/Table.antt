-- ===== src/Common/Table.antt =====
-- A database table as the list of its rows, each found by its primary key.
use Prim.Native.Nat.{ℕ, suc, ◌+◌, ◌≤◌}
use mathlib.Core.Path.{◌≡◌, refl, ap}
use mathlib.Core.Logic.{◌≢◌}
use mathlib.Core.Bool.{Bool, true}
use mathlib.Core.Option.{Option, none, some}
use mathlib.Core.List.{List, [], ◌∷◌, ◌++◌, map}
use native.Mathlib.Omega.{arith}
use farm_link.Common.Tests.{◌==◌, if◌then◌else◌}

module _ {ℓ} {A : Type ℓ} where
  abbrev pub length : List A → ℕ
  length [] = 0
  length (x ∷ xs) = suc (length xs)

  -- The rows of a `WHERE` clause.
  unfoldable pub select : (A → Bool) → List A → List A
  select p [] = []
  select p (x ∷ xs) = if p x then x ∷ select p xs else select p xs

  -- `LIMIT 1` on a `WHERE` clause.
  unfoldable pub first : (A → Bool) → List A → Option A
  first p [] = none
  first p (x ∷ xs) = if p x then some x else first p xs

  -- `SUM` of a column.
  unfoldable pub sum_by : (A → ℕ) → List A → ℕ
  sum_by f [] = 0
  sum_by f (x ∷ xs) = f x + sum_by f xs

  pub sum_by-append : (f : A → ℕ) (xs ys : List A) → sum_by f (xs ++ ys) ≡ sum_by f xs + sum_by f ys
  unfolding sum_by
  sum_by-append f [] ys = omega arith
  sum_by-append f (x ∷ xs) ys = omega (arith, sum_by-append f xs ys)

  pub first-append_none :
      (p : A → Bool) (xs ys : List A) → first p xs ≡ none → first p (xs ++ ys) ≡ first p ys
  unfolding first
  first-append_none p [] ys h = refl
  first-append_none p (x ∷ xs) ys h = ground (arith, first-append_none p xs ys)

  pub first-append_some :
      (p : A → Bool) (xs ys : List A) (a : A) → first p xs ≡ some a → first p (xs ++ ys) ≡ some a
  unfolding first
  first-append_some p [] ys a h = ground arith
  first-append_some p (x ∷ xs) ys a h = ground (arith, first-append_some p xs ys a)

  -- What is found passes the test.
  pub first_sound : (p : A → Bool) (xs : List A) (a : A) → first p xs ≡ some a → p a ≡ true
  unfolding first
  first_sound p [] a h = ground arith
  first_sound p (x ∷ xs) a h = ground (arith, first_sound p xs a)

module _ {ℓ} {A : Type ℓ} (key : A → ℕ) where
  -- `SELECT … WHERE id = k`, as `scalar_one_or_none` reads it.
  unfoldable pub find : ℕ → List A → Option A
  find k [] = none
  find k (x ∷ xs) = if k == key x then some x else find k xs

  -- `UPDATE` of the row with the key of `r`.
  unfoldable pub replace : A → List A → List A
  replace r [] = []
  replace r (x ∷ xs) = if key r == key x then r ∷ xs else x ∷ replace r xs

  pub find_key : (k : ℕ) (xs : List A) (a : A) → find k xs ≡ some a → key a ≡ k
  unfolding find
  find_key k [] a h = ground arith
  find_key k (x ∷ xs) a h = ground (arith, find_key k xs a)

  pub find-replace_self :
      (r : A) (xs : List A) (old : A)
      → find (key r) xs ≡ some old
      → find (key r) (replace r xs) ≡ some r
  unfolding find replace
  find-replace_self r [] old h = ground arith
  find-replace_self r (x ∷ xs) old h = ground (arith, find-replace_self r xs old)

  pub find-replace_ne :
      (k : ℕ) (r : A) (xs : List A) → k ≢ key r → find k (replace r xs) ≡ find k xs
  unfolding find replace
  find-replace_ne k r [] h = refl
  find-replace_ne k r (x ∷ xs) h = ground (arith, find-replace_ne k r xs h)

  pub sum_by-replace :
      (f : A → ℕ) (r old : A) (xs : List A)
      → find (key r) xs ≡ some old
      → sum_by f (replace r xs) + f old ≡ sum_by f xs + f r
  unfolding find replace sum_by
  sum_by-replace f r old [] h = ground arith
  sum_by-replace f r old (x ∷ xs) h = ground (arith, sum_by-replace f r old xs)

  -- A row weighs no more than the table.
  pub find-le-sum_by :
      (f : A → ℕ) (k : ℕ) (xs : List A) (a : A) → find k xs ≡ some a → f a ≤ sum_by f xs
  unfolding find sum_by
  find-le-sum_by f k [] a h = ground arith
  find-le-sum_by f k (x ∷ xs) a h = ground (arith, find-le-sum_by f k xs a)

  pub find-append_none :
      (k : ℕ) (xs : List A) (r : A)
      → find k xs ≡ none
      → find k (xs ++ r ∷ []) ≡ (if k == key r then some r else none)
  unfolding find
  find-append_none k [] r h = refl
  find-append_none k (x ∷ xs) r h = ground (arith, find-append_none k xs r)

  pub find-append_some :
      (k : ℕ) (xs : List A) (r a : A) → find k xs ≡ some a → find k (xs ++ r ∷ []) ≡ some a
  unfolding find
  find-append_some k [] r a h = ground arith
  find-append_some k (x ∷ xs) r a h = ground (arith, find-append_some k xs r a)

module _ {A : Type 0} (key : A → ℕ) where
  -- The row that a test finds, once it is replaced by a row that passes the test too.
  pub first-replace :
      (p : A → Bool) (r old : A) (xs : List A)
      → first p xs ≡ some old
      → key r ≡ key old
      → p r ≡ true
      → first p (replace key r xs) ≡ some r
  unfolding first replace
  first-replace p r old [] h same passes = ground arith
  first-replace p r old (x ∷ xs) h same passes = ground (arith, first-replace p r old xs)

  pub replace-replace : (r : A) (xs : List A) → replace key r (replace key r xs) ≡ replace key r xs
  unfolding replace
  replace-replace r [] = refl
  replace-replace r (x ∷ xs) = ground (arith, replace-replace r xs)

pub length-map : {A B : Type 0} (f : A → B) (xs : List A) → length (map f xs) ≡ length xs
length-map f [] = refl
length-map f (x ∷ xs) = ap suc (length-map f xs)
