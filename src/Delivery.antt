-- ===== src/Delivery.antt =====
-- backend/src/services/deliveryOptions.ts, and the one address query that a checkout makes, of
-- backend/src/repositories/postgres/deliveryAddressRepository.ts.
use ufsc_dso2_trabalho1_merc.Prelude.{ℕ, String, Bool, Option, ◌&&◌, ◌==◌, if◌then◌else◌, str_eq}
use ufsc_dso2_trabalho1_merc.Sql.{select_one}
use ufsc_dso2_trabalho1_merc.Result.{Result, ok, err, app_error, invalid_delivery_option}
use ufsc_dso2_trabalho1_merc.Money.{Money, money_from_minor}
use ufsc_dso2_trabalho1_merc.Database.{Uuid, AddressRow, Db}

pub record DeliveryOptionQuote : Type 0 where
  pub id : String
  pub label : String
  pub estimate : String
  pub shipping : Money
  pub shipping_minor : ℕ

abbrev quote : String → String → String → ℕ → String → DeliveryOptionQuote
quote id label estimate shipping_minor currency = record {
  id = id;
  label = label;
  estimate = estimate;
  shipping = money_from_minor currency shipping_minor;
  shipping_minor = shipping_minor;
}

-- The request validator lets only the two ids through, so the inherited keys of the `options`
-- object are never looked up.
unfoldable pub get_delivery_option : String → String → Result DeliveryOptionQuote
get_delivery_option id currency =
    if str_eq id "standard"
    then ok
        (quote "standard" "Standard demo delivery" "3–5 business days (demo estimate)" 499 currency)
    else if str_eq id "express"
    then ok
        (quote "express" "Express demo delivery" "1–2 business days (demo estimate)" 999 currency)
    else err (app_error 400 invalid_delivery_option)

abbrev is_address : String → Uuid → Uuid → AddressRow → Bool
is_address tenant_id user_id address_id row =
    str_eq row.tenant_id tenant_id && row.user_id == user_id && row.id == address_id

-- `mapAddress` renames the row's columns only.
unfoldable pub find_address : String → Uuid → Uuid → Db → Option AddressRow
find_address tenant_id user_id address_id db =
    select_one (is_address tenant_id user_id address_id) db.addresses
