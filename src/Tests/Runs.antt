-- ===== src/Tests/Runs.antt =====
-- Checkouts of the sample cart and changes of the order that they place.
use ufsc_dso2_trabalho1_merc.Prelude.{Option, none, some, []}
use ufsc_dso2_trabalho1_merc.Result.{Result, ok, err}
use ufsc_dso2_trabalho1_merc.Database.{Uuid, Db}
use ufsc_dso2_trabalho1_merc.Tenants.{resolve_tenant}
use ufsc_dso2_trabalho1_merc.OrderStatus.{OrderStatus}
use ufsc_dso2_trabalho1_merc.Money.{checked_money_add, checked_money_multiply}
use ufsc_dso2_trabalho1_merc.Products.{
  map_product_row, map_product_rows, find_by_ids_for_update, decrement_available_inventory,
}
use ufsc_dso2_trabalho1_merc.Carts.{find_for_checkout, map_get, clear}
use ufsc_dso2_trabalho1_merc.Orders.{
  placed_order, create_placed, map_order, find_by_checkout_idempotency_key, find_by_id,
  update_status,
}
use ufsc_dso2_trabalho1_merc.OrderItems.{create_items, list_by_order_id, seller_owns_order}
use ufsc_dso2_trabalho1_merc.Events.{append_many, notify_many}
use ufsc_dso2_trabalho1_merc.Delivery.{get_delivery_option, find_address}
use ufsc_dso2_trabalho1_merc.Pricing.{price_line, price_lines, calculate_checkout_quote}
use ufsc_dso2_trabalho1_merc.Checkout.Plan.{
  CheckoutOrderRequest, check_items, price_item, price_items, cart_lines_of, select_terms,
  plan_cart, plan_order,
}
use ufsc_dso2_trabalho1_merc.Checkout.Persist.{
  PlacedOrder, decrement_all, unique, record_events, persist_order,
}
use ufsc_dso2_trabalho1_merc.Checkout.Service.{
  persist_plan, create_or_replay, create_order_in_transaction, create_order,
}
use ufsc_dso2_trabalho1_merc.Fulfilment.{
  change_status, keep_status, check_transition, guarded_change, update_order_status_in_transaction,
  update_order_status,
}
use ufsc_dso2_trabalho1_merc.Tests.Fixtures.{
  plain_transactions, tenant, buyer, market, env, change_env, quote_hash,
}

-- What a run of a checkout computes with.
unfoldable pub checkout_run : Unit {0}
unfolding create_order create_order_in_transaction create_or_replay persist_plan plan_order
    plan_cart find_for_checkout find_by_checkout_idempotency_key find_by_ids_for_update
    map_product_row map_product_rows resolve_tenant check_items map_get price_item price_items
    checked_money_add checked_money_multiply select_terms cart_lines_of find_address
    calculate_checkout_quote price_line price_lines get_delivery_option persist_order create_placed
    create_items decrement_all decrement_available_inventory record_events append_many clear unique
    notify_many list_by_order_id map_order
checkout_run = tt

-- What a run of a change of status computes with besides.
unfoldable pub change_run : Unit {0}
unfolding change_status keep_status check_transition guarded_change
    update_order_status_in_transaction update_order_status find_by_id update_status
    seller_owns_order list_by_order_id map_order append_many notify_many
change_run = tt

abbrev pub express : CheckoutOrderRequest
express = record { address_id = 60; delivery_option_id = "express"; quote_id = "express" }

-- The sample checkout, with the key 99.
abbrev pub checkout : Option CheckoutOrderRequest → Result PlacedOrder × Db
checkout selection = create_order quote_hash plain_transactions env tenant buyer 99 selection market

-- The database after it.
abbrev pub sold : Db
sold = (checkout (some express)).1

-- A change of the order that it placed.
abbrev pub change : Uuid → OrderStatus → Db → Result PlacedOrder × Db
change user_id status db =
    update_order_status change_env user_id tenant 1000 status plain_transactions db

abbrev no_order : PlacedOrder
no_order = record {
  order =
      placed_order 0 tenant 0
        (record {
          currency = "";
          currency_minor_unit = 0;
          subtotal_minor = 0;
          discount_minor = 0;
          shipping_minor = 0;
          total_minor = 0;
        })
        0 none none;
  items = [];
}

-- The order that a call returned.
abbrev pub returned : Result PlacedOrder → PlacedOrder
returned (ok placed) = placed
returned (err e) = no_order
