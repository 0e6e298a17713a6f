-- ===== src/Sql.antt =====
-- The SQL statements that the repositories send through Drizzle, over a table as a list of rows:
-- SELECT … WHERE, … LIMIT 1, UPDATE … WHERE, DELETE … WHERE. INSERT … VALUES appends.
pub mod Laws
pub mod Counting
use ufsc_dso2_trabalho1_merc.Prelude.{
  Bool, true, false, Option, none, some, List, [], ◌∷◌, ◌||◌, if◌then◌else◌,
}

module _ {ℓ} {A : Type ℓ} where
  abbrev pub select : (A → Bool) → List A → List A
  select p [] = []
  select p (r ∷ rows) = let rest = select p rows in if p r then r ∷ rest else rest

  abbrev pub select_one : (A → Bool) → List A → Option A
  select_one p [] = none
  select_one p (r ∷ rows) = if p r then some r else select_one p rows

  abbrev pub update : (A → Bool) → (A → A) → List A → List A
  update p set [] = []
  update p set (r ∷ rows) = (if p r then set r else r) ∷ update p set rows

  abbrev pub delete : (A → Bool) → List A → List A
  delete p [] = []
  delete p (r ∷ rows) = let rest = delete p rows in if p r then rest else r ∷ rest

  abbrev pub exists_row : (A → Bool) → List A → Bool
  exists_row p [] = false
  exists_row p (r ∷ rows) = p r || exists_row p rows
