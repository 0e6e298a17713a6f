-- ===== src/Result.antt =====
-- backend/src/errors/AppError.ts: a service returns or throws. The message and the details of an
-- error are left out; its status and its code are kept.
use ufsc_dso2_trabalho1_merc.Prelude.{ℕ, Option, none, some, Bool, if◌then◌else◌, ◌≡◌, refl}

-- The `code` of each AppError that the modelled services throw.
pub data Code : Type 0 where
  empty_cart insufficient_inventory product_price_required order_total_limit_exceeded : Code
  delivery_address_not_found checkout_quote_changed invalid_delivery_option : Code
  product_not_found product_forbidden invalid_product_currency : Code
  product_status_transition_invalid product_inventory_required : Code
  order_not_found order_forbidden order_status_transition_invalid : Code
  idempotency_key_reused notification_not_found : Code
  invalid_refresh_token refresh_token_reused refresh_already_rotated session_expired : Code
  session_not_found invalid_auth_token review_forbidden review_purchase_required : Code

-- `internal` is a plain `Error`, which the error handler answers with status 500.
pub data Error : Type 0 where
  app_error : ℕ → Code → Error
  internal : Error

-- What a call of a service ends in: a value, or the error that it throws.
pub data Result {ℓ} (X : Type ℓ) : Type ℓ where
  ok : X → Result X
  err : Error → Result X

infixl 5 ◌>>=◌ ◌>>◌
-- The rest of a service runs on what a call returned; a throw skips it.
abbrev pub ◌>>=◌ {ℓ κ} : {X : Type ℓ} {Y : Type κ} → Result X → (X → Result Y) → Result Y
err thrown >>= rest = err thrown
ok x >>= rest = rest x

-- `if (c) throw e`
abbrev pub throw_if : Bool → Error → Result (Unit {0})
throw_if c e = if c then err e else ok tt

-- `if (!x) throw e`
abbrev pub or_throw {ℓ} : {X : Type ℓ} → Option X → Error → Result X
or_throw none e = err e
or_throw (some x) e = ok x

-- The same after a check that returns nothing.
abbrev pub ◌>>◌ {ℓ} : {Y : Type ℓ} → Result (Unit {0}) → Result Y → Result Y
check >> rest = check >>= λ _. rest

-- A service that returns has passed its first call, and its rest has returned.
pub >>=-eq-ok {ℓ κ} :
    {X : Type ℓ} {Y : Type κ} (m : Result X) (f : X → Result Y) {y : Y}
    → (m >>= f) ≡ ok y
    → (x : X) × (m ≡ ok x) × (f x ≡ ok y)
>>=-eq-ok (err thrown) f done = cc
>>=-eq-ok (ok x) f done = (x, refl, done)

-- What was thrown for if it was missing is there.
pub or_throw-eq-ok {ℓ} :
    {X : Type ℓ} (found : Option X) (e : Error) {x : X} → or_throw found e ≡ ok x → found ≡ some x
or_throw-eq-ok none e done = cc
or_throw-eq-ok (some y) e done = cc
