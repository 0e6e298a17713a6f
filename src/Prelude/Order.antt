-- ===== src/Prelude/Order.antt =====
-- Sorting by a numeric key, for SQL's ORDER BY on an id and JavaScript's stable `sort`.
use Prim.Native.Nat.{ℕ, ◌+◌, ◌≤◌}
use mathlib.Core.Path.{◌≡◌, refl, ap, ◌∙◌}
use mathlib.Core.List.{List, [], ◌∷◌, ◌++◌}
use native.Mathlib.Omega.{arith}
use ufsc_dso2_trabalho1_merc.Prelude.Tests.{leb, if◌then◌else◌}
use ufsc_dso2_trabalho1_merc.Prelude.Lists.{sum_of, All}

module _ {ℓ} {A : Type ℓ} (key : A → ℕ) where
  abbrev pub insert_by : A → List A → List A
  insert_by x [] = x ∷ []
  insert_by x (y ∷ ys) = if leb (key x) (key y) then x ∷ y ∷ ys else y ∷ insert_by x ys

  abbrev pub order_by : List A → List A
  order_by [] = []
  order_by (x ∷ xs) = insert_by x (order_by xs)

module _ {ℓ} {A : Type ℓ} (key : A → ℕ) where
  sum_of-insert_by :
      (f : A → ℕ) (x : A) (ys : List A) → sum_of f (insert_by key x ys) ≡ f x + sum_of f ys
  sum_of-insert_by f x [] = refl
  sum_of-insert_by f x (y ∷ ys) = ground (arith, sum_of-insert_by f x ys)

  -- Sorting changes no sum.
  pub sum_of-order_by : (f : A → ℕ) (xs : List A) → sum_of f (order_by key xs) ≡ sum_of f xs
  sum_of-order_by f [] = refl
  sum_of-order_by f (x ∷ xs) =
      omega (arith, sum_of-insert_by f x (order_by key xs), sum_of-order_by f xs)

module _ {ℓ} {A : Type ℓ} (key : A → ℕ) where
  insert_by-append_last :
      (y : A) (ys : List A) (x : A)
      → key y ≤ key x
      → insert_by key y (ys ++ x ∷ []) ≡ insert_by key y ys ++ x ∷ []
  insert_by-append_last y [] x le = ground arith
  insert_by-append_last y (z ∷ ys) x le = ground (arith, insert_by-append_last y ys x le)

  -- Sorting leaves a last element with the greatest key where it is.
  pub order_by-append_last :
      (xs : List A) (x : A)
      → All (λ y. key y ≤ key x) xs
      → order_by key (xs ++ x ∷ []) ≡ order_by key xs ++ x ∷ []
  order_by-append_last [] x h = refl
  order_by-append_last (y ∷ xs) x (le, rest) =
      ap (insert_by key y) (order_by-append_last xs x rest)
      ∙ insert_by-append_last y (order_by key xs) x le
