-- ===== src/Tests/Marketplace.antt =====
-- A checkout, and what follows it: seller 2 confirms the order and the buyer cancels it.
use ufsc_dso2_trabalho1_merc.Prelude.{◌+◌, none, some, [], ◌∷◌, ◌≡◌, refl, map, inr}
use ufsc_dso2_trabalho1_merc.OrderStatus.{confirmed, delivered, cancelled}
use ufsc_dso2_trabalho1_merc.Sql.{select_one}
use ufsc_dso2_trabalho1_merc.Database.{OrderRow, Db}
use ufsc_dso2_trabalho1_merc.Orders.{is_order, placed_row}
use ufsc_dso2_trabalho1_merc.Orders.History.{AreRecorded}
use ufsc_dso2_trabalho1_merc.Fulfilment.Later.{HasLater}
use ufsc_dso2_trabalho1_merc.Checkout.Supply.{supply}
use ufsc_dso2_trabalho1_merc.Marketplace.{Calls, checkout, status_change, idle, followed_by}
use ufsc_dso2_trabalho1_merc.Marketplace.History.{Calls-AreRecorded}
use ufsc_dso2_trabalho1_merc.Marketplace.Supply.{Calls-supply}
use ufsc_dso2_trabalho1_merc.Marketplace.Later.{Calls-HasLater, Calls-IsFinal}
use ufsc_dso2_trabalho1_merc.Tests.Fixtures.{
  plain_transactions, tenant, buyer, market, env, change_env, quote_hash,
}
use ufsc_dso2_trabalho1_merc.Tests.Runs.{checkout_run, change_run, express, sold, change}

abbrev cancelled_db : Db
cancelled_db = (change buyer cancelled (change 2 confirmed sold).1).1

abbrev changes : Calls quote_hash plain_transactions sold cancelled_db
changes =
    followed_by (followed_by idle (status_change change_env 2 tenant 1000 confirmed))
      (status_change change_env buyer tenant 1000 cancelled)

abbrev calls : Calls quote_hash plain_transactions market cancelled_db
calls =
    followed_by
      (followed_by
        (followed_by idle (
          checkout env tenant buyer 99 (some express)
            (record { orders = refl; history = refl; items = refl })))
        (status_change change_env 2 tenant 1000 confirmed))
      (status_change change_env buyer tenant 1000 cancelled)

Calls-AreRecorded_example : AreRecorded cancelled_db
Calls-AreRecorded_example = Calls-AreRecorded quote_hash plain_transactions refl calls

statuses_after : map (λ row. row.status) cancelled_db.orders ≡ cancelled ∷ []
unfolding checkout_run change_run
statuses_after = refl

Calls-supply_example : supply tenant 20 cancelled_db ≡ supply tenant 20 market
Calls-supply_example = Calls-supply quote_hash plain_transactions tenant 20 calls

-- 1 pen in stock, and 3 in the cancelled order.
supply_after : supply tenant 20 cancelled_db ≡ 1 + 3
unfolding checkout_run change_run
supply_after = refl

abbrev no_row : OrderRow
no_row =
    placed_row 0 "" 0 0
      (record {
        currency = "";
        currency_minor_unit = 0;
        subtotal_minor = 0;
        discount_minor = 0;
        shipping_minor = 0;
        total_minor = 0;
      })
      0 none none

abbrev first_order : Db → OrderRow
first_order db = elim db.orders [ [] ↦ no_row | row ∷ rows ↦ row ]

Calls-HasLater_example : HasLater tenant 1000 (first_order sold) cancelled_db
unfolding checkout_run
Calls-HasLater_example = Calls-HasLater quote_hash plain_transactions tenant 1000 changes refl

abbrev reopening :
    Calls quote_hash plain_transactions cancelled_db (change 2 delivered cancelled_db).1
reopening = followed_by idle (status_change change_env 2 tenant 1000 delivered)

Calls-IsFinal_example :
    select_one (is_order tenant 1000) (change 2 delivered cancelled_db).1.orders
    ≡ some (first_order cancelled_db)
unfolding checkout_run change_run
Calls-IsFinal_example =
    Calls-IsFinal quote_hash plain_transactions tenant 1000 reopening refl (inr refl)
