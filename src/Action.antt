-- ===== src/Action.antt =====
-- The effects of a service: it reads and writes the database and may throw. What was written
-- before a throw stays written, until a transaction rolls it back.
pub mod Laws
use ufsc_dso2_trabalho1_merc.Prelude.{◌≡◌}
use ufsc_dso2_trabalho1_merc.Result.{Error, Result, ok, err}

abbrev pub Action : Type 0 → Type 0 → Type 0
Action S A = S → Result A × S

module _ {S : Type 0} where
  abbrev pub pure : {A : Type 0} → A → Action S A
  pure a s = (ok a, s)

  abbrev pub lift : {A : Type 0} → Result A → Action S A
  lift r s = (r, s)

  abbrev pub gets : {A : Type 0} → (S → A) → Action S A
  gets f s = (ok (f s), s)

  -- A call that only reads, and may throw.
  abbrev pub reads : {A : Type 0} → (S → Result A) → Action S A
  reads f s = (f s, s)

  -- A repository call that writes and returns.
  abbrev pub writes : {A : Type 0} → (S → A × S) → Action S A
  writes f s = let (a, s') = f s in (ok a, s')

  abbrev pub modify : (S → S) → Action S (Unit {0})
  modify f s = (ok tt, f s)

  infixl 5 ◌>>=◌ ◌>>◌
  abbrev pub ◌>>=◌ : {A B : Type 0} → Action S A → (A → Action S B) → Action S B
  ◌>>=◌ m f s = let (r, s') = m s in elim r [ ok a ↦ f a s' | err e ↦ (err e, s') ]

  abbrev pub ◌>>◌ : {B : Type 0} → Action S (Unit {0}) → Action S B → Action S B
  m >> k = m >>= λ _. k

-- Drizzle's `db.transaction(work)`: it commits if `work` resolves and rolls back if it rejects.
-- The database runs it, so it is a parameter with its documented behaviour.
pub record Transactions (S : Type 0) : Type 1 where
  pub transaction : {A : Type 0} → Action S A → Action S A
  pub commits :
      {A : Type 0} (work : Action S A) (s s' : S) (a : A)
      → work s ≡ (ok a, s')
      → transaction work s ≡ (ok a, s')
  pub rolls_back :
      {A : Type 0} (work : Action S A) (s s' : S) (e : Error)
      → work s ≡ (err e, s')
      → transaction work s ≡ (err e, s)
