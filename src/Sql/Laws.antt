-- ===== src/Sql/Laws.antt =====
-- Laws of the SQL statements: what a query sees of rows that were inserted.
use ufsc_dso2_trabalho1_merc.Prelude.{
  Bool, true, false, none, some, List, [], ◌∷◌, ◌++◌, ◌≡◌, refl, arith, Option, if◌then◌else◌, All,
  Bool-cases, inl, inr, subst, length,
}
use ufsc_dso2_trabalho1_merc.Sql.{select, select_one, exists_row, update, delete}

abbrev pub map_row {ℓ} : {A : Type ℓ} → (A → A) → Option A → Option A
map_row f none = none
map_row f (some a) = some (f a)

module _ {ℓ} {A : Type ℓ} (p : A → Bool) where
  pub select-append : (xs ys : List A) → select p (xs ++ ys) ≡ select p xs ++ select p ys
  select-append [] ys = refl
  select-append (x ∷ xs) ys = ground (arith, select-append xs ys)

  pub select_one-append_none :
      (xs ys : List A) → select_one p xs ≡ none → select_one p (xs ++ ys) ≡ select_one p ys
  select_one-append_none [] ys h = refl
  select_one-append_none (x ∷ xs) ys h = ground (arith, select_one-append_none xs ys)

  -- An insertion does not hide a row that was found.
  pub select_one-append_some :
      (xs ys : List A) {a : A} → select_one p xs ≡ some a → select_one p (xs ++ ys) ≡ some a
  select_one-append_some [] ys h = cc
  select_one-append_some (x ∷ xs) ys {a} h = ground (arith, select_one-append_some xs ys {a = a})

  pub select-eq-nil : (xs : List A) → exists_row p xs ≡ false → select p xs ≡ []
  select-eq-nil [] h = refl
  select-eq-nil (x ∷ xs) h = ground (arith, select-eq-nil xs)

  pub select_one-eq-none : (xs : List A) → exists_row p xs ≡ false → select_one p xs ≡ none
  select_one-eq-none [] h = refl
  select_one-eq-none (x ∷ xs) h = ground (arith, select_one-eq-none xs)

  -- A row that is found is in the table and passes the test.
  pub select_one_holds : (xs : List A) {a : A} → select_one p xs ≡ some a → p a ≡ true
  select_one_holds [] h = cc
  select_one_holds (x ∷ xs) {a} h = ground (arith, select_one_holds xs {a = a})

  -- Nothing is left of what was deleted, and all else is.
  pub select-delete : (xs : List A) → select p (delete p xs) ≡ []
  select-delete [] = refl
  select-delete (x ∷ xs) = ground (arith, select-delete xs)

  -- A deletion takes back the only row that it selects.
  pub delete-insert :
      (xs : List A) (x : A) → p x ≡ true → exists_row p xs ≡ false → delete p (xs ++ x ∷ []) ≡ xs
  delete-insert [] x h none_there = ground arith
  delete-insert (y ∷ xs) x h none_there = ground (arith, delete-insert xs x h)

  -- An update that the test does not see finds the same row, updated.
  pub select_one-update :
      (q : A → Bool) (f : A → A) (xs : List A)
      → ((a : A) → p (f a) ≡ p a)
      → select_one p (update q f xs) ≡ map_row (λ a. if q a then f a else a) (select_one p xs)
  select_one-update q f [] h = refl
  select_one-update q f (x ∷ xs) h = ground (arith, h x, select_one-update q f xs h)

  -- A query sees one inserted row exactly if it passes the test.
  pub select-insert :
      (xs : List A) (x : A) → p x ≡ true → select p (xs ++ x ∷ []) ≡ select p xs ++ x ∷ []
  select-insert [] x h = ground arith
  select-insert (y ∷ xs) x h = ground (arith, select-insert xs x h)

  pub select-insert_other :
      (xs : List A) (x : A) → p x ≡ false → select p (xs ++ x ∷ []) ≡ select p xs
  select-insert_other [] x h = ground arith
  select-insert_other (y ∷ xs) x h = ground (arith, select-insert_other xs x h)

  -- The first row is the same after an insertion that the test does not pass.
  pub select_one-insert_other :
      (xs : List A) (x : A) → p x ≡ false → select_one p (xs ++ x ∷ []) ≡ select_one p xs
  select_one-insert_other [] x h = ground arith
  select_one-insert_other (y ∷ xs) x h = ground (arith, select_one-insert_other xs x h)

module _ {ℓ} {A : Type ℓ} (p q : A → Bool) (f : A → A)
    (apart : (a : A) → q a ≡ true → (p (f a) ≡ false) × (p a ≡ false)) where
  -- An update of rows that a query does not see, before or after.
  pub select-update_apart : (xs : List A) → select p (update q f xs) ≡ select p xs
  select-update_apart [] = refl
  select-update_apart (x ∷ xs) = elim (Bool-cases (q x)) [
    | inl here ↦
        let (after, before) = apart x here in
        ground (arith, after, before, here, select-update_apart xs)
    | inr missed ↦ ground (arith, missed, select-update_apart xs)
  ]

module _ {ℓ κ} {A : Type ℓ} (p : A → Bool) (P Q : A → Type κ) where
  -- What holds of every row holds of a row that is found.
  pub select_one-All : (xs : List A) {a : A} → All P xs → select_one p xs ≡ some a → P a
  select_one-All [] h e = cc
  select_one-All (x ∷ xs) (first, rest) e = elim (Bool-cases (p x)) [
    | inl hit_here ↦ subst P (cc (rw hit_here at e)) first
    | inr missed ↦ select_one-All xs rest (rw missed at e)
  ]

  -- An update keeps what the changed rows and the others satisfy.
  pub update-All :
      (f : A → A) (xs : List A)
      → ((a : A) → p a ≡ true → P a → Q (f a))
      → ((a : A) → p a ≡ false → P a → Q a)
      → All P xs
      → All Q (update p f xs)
  update-All f [] hit miss h = tt
  update-All f (x ∷ xs) hit miss (first, rest) = elim (Bool-cases (p x)) [
    | inl hit_here ↦ rw hit_here (hit x hit_here first, update-All f xs hit miss rest)
    | inr missed ↦ rw missed (miss x missed first, update-All f xs hit miss rest)
  ]

  -- A table with no such row.
  pub absent-All :
      (xs : List A)
      → exists_row p xs ≡ false
      → ((a : A) → p a ≡ false → P a → Q a)
      → All P xs
      → All Q xs
  absent-All [] e miss h = tt
  absent-All (x ∷ xs) e miss (first, rest) =
      (miss x (ground arith) first, absent-All xs (ground arith) miss rest)

module _ {ℓ} {A : Type ℓ} (p q : A → Bool) (narrower : (a : A) → q a ≡ true → p a ≡ true) where
  none_left : (xs : List A) → length (select p xs) ≡ 0 → length (select q xs) ≡ 0
  none_left [] h = refl
  none_left (x ∷ xs) h = elim (Bool-cases (p x)) [
    | inl hit_here ↦ ground (arith, hit_here)
    | inr missed ↦ elim (Bool-cases (q x)) [
      | inl narrow ↦ cc (missed, narrower x narrow)
      | inr other ↦ rw other (none_left xs (rw missed at h))
    ]
  ]

  -- If one row passes a test, and the first that does passes a narrower one, one row passes that.
  pub length-select_narrower :
      (xs : List A) {a : A}
      → select_one p xs ≡ some a
      → q a ≡ true
      → length (select p xs) ≡ 1
      → length (select q xs) ≡ 1
  length-select_narrower [] found narrow h = cc
  length-select_narrower (x ∷ xs) {a} found narrow h = elim (Bool-cases (p x)) [
    | inl hit_here ↦
        let here : q x ≡ true = subst (λ y. q y ≡ true) (cc (rw hit_here at found)) narrow in
        let rest : length (select p xs) ≡ 0 = omega (arith, rw hit_here at h) in
        rw here (omega (arith, none_left xs rest))
    | inr missed ↦ elim (Bool-cases (q x)) [
      | inl narrow_here ↦ cc (missed, narrower x narrow_here)
      | inr other ↦
          rw other (length-select_narrower xs (rw missed at found) narrow (rw missed at h))
    ]
  ]
