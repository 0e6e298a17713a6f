-- ===== src/Sql/Counting.antt =====
-- How many rows pass a test.
use ufsc_dso2_trabalho1_merc.Prelude.{
  ℕ, ◌≤◌, Bool, true, List, [], ◌∷◌, ◌≡◌, refl, ◌∙◌, arith, ◌&&◌, length,
}
use ufsc_dso2_trabalho1_merc.Prelude.Order.{insert_by, order_by}
use ufsc_dso2_trabalho1_merc.Sql.{select, exists_row}

module _ {ℓ} {A : Type ℓ} (p : A → Bool) where
  exists_row-insert_by :
      (key : A → ℕ) (x : A) (xs : List A)
      → exists_row p (insert_by key x xs) ≡ exists_row p (x ∷ xs)
  exists_row-insert_by key x [] = refl
  exists_row-insert_by key x (y ∷ xs) = ground (arith, exists_row-insert_by key x xs)

  -- Sorting neither hides nor makes rows.
  pub exists_row-order_by :
      (key : A → ℕ) (xs : List A) → exists_row p (order_by key xs) ≡ exists_row p xs
  exists_row-order_by key [] = refl
  exists_row-order_by key (x ∷ xs) =
      exists_row-insert_by key x (order_by key xs) ∙ ground (arith, exists_row-order_by key xs)

  pub exists_row-select :
      (q : A → Bool) (xs : List A)
      → exists_row p (select q xs) ≡ true
      → exists_row (λ a. q a && p a) xs ≡ true
  exists_row-select q [] h = h
  exists_row-select q (x ∷ xs) h = ground (arith, exists_row-select q xs)

  pub count_exists : (xs : List A) → exists_row p xs ≡ true → 1 ≤ length (select p xs)
  count_exists [] h = cc
  count_exists (x ∷ xs) h = ground (arith, count_exists xs)

  pub exists_row_le :
      (q : A → Bool) (xs : List A)
      → ((a : A) → p a ≡ true → q a ≡ true)
      → exists_row p xs ≡ true
      → exists_row q xs ≡ true
  exists_row_le q [] le h = h
  exists_row_le q (x ∷ xs) le h = ground (arith, le x, exists_row_le q xs le)

  -- A weaker test lets at least as many through.
  pub count_le :
      (q : A → Bool) (xs : List A)
      → ((a : A) → p a ≡ true → q a ≡ true)
      → length (select p xs) ≤ length (select q xs)
  count_le q [] le = omega arith
  count_le q (x ∷ xs) le = ground (arith, le x, count_le q xs le)
