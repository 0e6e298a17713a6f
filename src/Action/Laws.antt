-- ===== src/Action/Laws.antt =====
-- Inversion of a chain of effects, and what a transaction keeps.
use ufsc_dso2_trabalho1_merc.Prelude.{◌≡◌, ap, refl, subst, ◌⊎◌, inl, inr}
use ufsc_dso2_trabalho1_merc.Result.{Error, Result, ok, err}
use ufsc_dso2_trabalho1_merc.Action.{Action, reads, lift, writes, ◌>>=◌, Transactions}

module _ {S A : Type 0} where
  pub outcome :
      (m : Action S A) (s : S)
      → ((a : A) × (s' : S) × (m s ≡ (ok a, s'))) ⊎ ((e : Error) × (s' : S) × (m s ≡ (err e, s')))
  outcome m s = split (m s) refl
    where
      split :
          (r : Result A × S)
          → m s ≡ r
          → ((a : A) × (s' : S) × (m s ≡ (ok a, s')))
            ⊎ ((e : Error) × (s' : S) × (m s ≡ (err e, s')))
      split (ok a, s') h = inl (a, s', h)
      split (err e, s') h = inr (e, s', h)

-- A chain that ends well has gone well at every step.
pub >>=-eq-ok :
    {S A B : Type 0} (m : Action S A) (f : A → Action S B) {s s' : S} {b : B}
    → (m >>= f) s ≡ (ok b, s')
    → (a : A) × (t : S) × (m s ≡ (ok a, t)) × (f a t ≡ (ok b, s'))
>>=-eq-ok {S} {A} {B} m f {s} {s'} {b} h = split (m s) refl h
  where
    split :
        (r : Result A × S)
        → m s ≡ r
        → (elim r.0 [ ok a ↦ f a r.1 | err e ↦ (err e, r.1) ]) ≡ (ok b, s')
        → (a : A) × (t : S) × (m s ≡ (ok a, t)) × (f a t ≡ (ok b, s'))
    split (ok a, t) e k = (a, t, e, k)
    split (err x, t) e k = cc

-- After a step that went well the rest runs.
pub >>=_continues :
    {S A B : Type 0} (m : Action S A) (f : A → Action S B) {s t : S} {a : A}
    → m s ≡ (ok a, t)
    → (m >>= f) s ≡ f a t
>>=_continues {B} m f h = ap (λ r. elim r.0 [ ok a ↦ f a r.1 | err e ↦ (err e, r.1) ]) h

-- A step that throws ends the chain.
pub >>=_stops :
    {S A B : Type 0} (m : Action S A) (f : A → Action S B) {s t : S} {e : Error}
    → m s ≡ (err e, t)
    → (m >>= f) s ≡ (err e, t)
>>=_stops {B} m f h = ap (λ r. elim r.0 [ ok a ↦ f a r.1 | err e ↦ (err e, r.1) ]) h

module _ {S A : Type 0} (tx : Transactions S) (work : Action S A) {s : S} where
  -- A transaction that returns has run the work to its end.
  pub transaction-eq-ok :
      {s' : S} {a : A} → tx.transaction work s ≡ (ok a, s') → work s ≡ (ok a, s')
  transaction-eq-ok {s'} {a} h = split (work s) refl
    where
      split : (r : Result A × S) → work s ≡ r → work s ≡ (ok a, s')
      split (ok x, t) e = cc (e, h, tx.commits work s t x e)
      split (err x, t) e = cc (h, tx.rolls_back work s t x e)

  -- A transaction that throws has changed nothing, and throws what the work threw.
  pub transaction-eq-err :
      {s' : S} {e : Error} → tx.transaction work s ≡ (err e, s') → (s' ≡ s) × ((work s).0 ≡ err e)
  transaction-eq-err {s'} {e} h = split (work s) refl
    where
      split : (r : Result A × S) → work s ≡ r → (s' ≡ s) × ((work s).0 ≡ err e)
      split (ok x, t) k = cc (h, tx.commits work s t x k)
      split (err x, t) k =
          (cc (h, tx.rolls_back work s t x k), cc (k, h, tx.rolls_back work s t x k))

  -- What held before a transaction holds after it, if the work keeps it whenever it returns.
  pub transaction-keeps :
      (P : S → Type 0)
      → P s
      → ((a : A) (s' : S) → work s ≡ (ok a, s') → P s')
      → P (tx.transaction work s).1
  transaction-keeps P held keeps = split (work s) refl
    where
      split : (r : Result A × S) → work s ≡ r → P (tx.transaction work s).1
      split (ok x, t) h = rw (tx.commits work s t x h) (keeps x t h)
      split (err x, t) h = rw (tx.rolls_back work s t x h) held

  -- So does what the work leaves in any case.
  pub transaction-holds : (P : S → Type 0) → P s → P (work s).1 → P (tx.transaction work s).1
  transaction-holds P held after = transaction-keeps P held (λ a s' h. subst (λ x. P x.1) h after)

-- A read that throws leaves what held; one that returns leaves it to the rest.
pub reads-keeps :
    {S A B : Type 0} (f : S → Result A) (k : A → Action S B) (P : S → Type 0) {s : S}
    → P s
    → ((a : A) → f s ≡ ok a → P (k a s).1)
    → P ((reads f >>= k) s).1
reads-keeps {S} {A} {B} f k P {s} held keeps = split (f s) refl
  where
    split :
        (r : Result A)
        → f s ≡ r
        → P (elim r as (λ _. Result B × S) [ ok a ↦ k a s | err e ↦ (err e, s) ]).1
    split (ok a) h = keeps a h
    split (err e) h = held

-- What a step leaves, if it throws, and what the rest leaves, if it does not.
pub bind-keeps :
    {S A B : Type 0} (m : Action S A) (k : A → Action S B) (P : S → Type 0) {s : S}
    → ((e : Error) (t : S) → m s ≡ (err e, t) → P t)
    → ((a : A) (t : S) → m s ≡ (ok a, t) → P (k a t).1)
    → P ((m >>= k) s).1
bind-keeps {S} {A} {B} m k P {s} thrown returned = split (m s) refl
  where
    split :
        (r : Result A × S)
        → m s ≡ r
        → P (elim r.0 as (λ _. Result B × S) [ ok a ↦ k a r.1 | err e ↦ (err e, r.1) ]).1
    split (ok a, t) h = returned a t h
    split (err e, t) h = thrown e t h

-- A last step that only returns or throws leaves what was there.
pub lifted-keeps :
    {S A B : Type 0} (m : Action S A) (g : A → Result B) (P : S → Type 0) {s : S}
    → P (m s).1
    → P ((m >>= λ a. lift (g a)) s).1
lifted-keeps m g P {s} after =
    bind-keeps m (λ a. lift (g a)) P {s = s} (λ _ t h. subst (λ x. P x.1) h after)
      (λ _ t h. subst (λ x. P x.1) h after)

-- What a write has returned and left.
pub writes-eq-ok :
    {S A : Type 0} (f : S → A × S) {s s' : S} {a : A} → writes f s ≡ (ok a, s') → f s ≡ (a, s')
writes-eq-ok {S} {A} f {s} {s'} {a} h = split (f s) h
  where
    split : (p : A × S) → ◌≡◌ {A = Result A × S} (ok p.0, p.1) (ok a, s') → p ≡ (a, s')
    split (x, y) k = cc
