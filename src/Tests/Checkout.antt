-- ===== src/Tests/Checkout.antt =====
-- Checkouts of the sample cart.
use ufsc_dso2_trabalho1_merc.Prelude.{arith, ◌+◌, none, some, [], ◌∷◌, ◌≡◌, refl, map}
use ufsc_dso2_trabalho1_merc.Result.{ok, err, app_error, empty_cart}
use ufsc_dso2_trabalho1_merc.Tenants.{Tenant, one, resolve_tenant}
use ufsc_dso2_trabalho1_merc.Products.Stock.{stock}
use ufsc_dso2_trabalho1_merc.Events.{count_unread}
use ufsc_dso2_trabalho1_merc.Checkout.Notified.{count_unread-create_order}
use ufsc_dso2_trabalho1_merc.Database.{Db}
use ufsc_dso2_trabalho1_merc.Checkout.Completes.{HasKeys}
use ufsc_dso2_trabalho1_merc.Checkout.Success.{create_order_succeeds}
use ufsc_dso2_trabalho1_merc.Checkout.Service.{create_order}
use ufsc_dso2_trabalho1_merc.Checkout.Stock.{stock-create_order}
use ufsc_dso2_trabalho1_merc.Checkout.Retry.{create_order_retry}
use ufsc_dso2_trabalho1_merc.Checkout.Amounts.{HasAmounts, create_order-HasAmounts}
use ufsc_dso2_trabalho1_merc.Checkout.Cart.{create_order-sells_once}
use ufsc_dso2_trabalho1_merc.Tests.Fixtures.{
  plain_transactions, tenant, buyer, market, env, later, quote_hash,
}
use ufsc_dso2_trabalho1_merc.Tests.Runs.{checkout_run, express, checkout, sold, returned}

stock_after : map (λ p. p.inventory) sold.products ≡ 4 ∷ 1 ∷ []
unfolding checkout_run
stock_after = refl

stock-create_order_example : stock tenant 20 sold.products + 3 ≡ 4
unfolding checkout_run
stock-create_order_example =
    stock-create_order quote_hash plain_transactions env tenant buyer 99 (some express) market refl
      refl tenant 20

create_order_retry_example :
    create_order quote_hash plain_transactions later tenant buyer 99 none sold
    ≡ ((checkout (some express)).0, sold)
unfolding checkout_run
create_order_retry_example =
    create_order_retry quote_hash plain_transactions tenant buyer 99 env later (some express) none
      market (record { orders = refl; history = refl; items = refl }) refl

create_order-sells_once_example :
    create_order quote_hash plain_transactions later tenant buyer 98 none sold
    ≡ (err (app_error 400 empty_cart), sold)
unfolding checkout_run
create_order-sells_once_example =
    create_order-sells_once quote_hash plain_transactions env later tenant buyer 99 98
      (some express) none market refl refl refl

create_order-HasAmounts_example :
    (found : Tenant) × (resolve_tenant (one tenant) ≡ some found)
    × HasAmounts found.currency_code (some express) (returned (checkout (some express)).0)
unfolding checkout_run
create_order-HasAmounts_example =
    create_order-HasAmounts quote_hash plain_transactions env tenant buyer 99 (some express) market
      refl refl

-- 12.50, 3.00 and the express shipping.
total_after : map (λ o. o.total_minor) sold.orders ≡ some 2549 ∷ []
unfolding checkout_run
total_after = refl

count_unread-create_order_example : count_unread tenant 2 sold ≡ 0 + 0 + 1
unfolding checkout_run count_unread
count_unread-create_order_example =
    count_unread-create_order quote_hash plain_transactions env tenant buyer 99 (some express)
      market refl refl 2

market-HasKeys : HasKeys tenant market.products
market-HasKeys id = ground arith

create_order_succeeds_example :
    (db' : Db) × (create_order quote_hash plain_transactions env tenant buyer 99
        (some express)
        market
      ≡ (ok (returned (checkout (some express)).0), db'))
unfolding checkout_run
create_order_succeeds_example =
    create_order_succeeds quote_hash env tenant buyer 99 (some express) market _ _
      plain_transactions refl refl refl market-HasKeys ((refl, tt), (tt, tt))
