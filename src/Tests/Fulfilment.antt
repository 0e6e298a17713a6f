-- ===== src/Tests/Fulfilment.antt =====
-- Changes of the order that the sample checkout placed: the pens are seller 2's.
use ufsc_dso2_trabalho1_merc.Prelude.{true, some, [], ◌∷◌, ◌≡◌, ◌⊎◌, refl, map}
use ufsc_dso2_trabalho1_merc.OrderStatus.{confirmed, cancelled}
use ufsc_dso2_trabalho1_merc.OrderStatus.Lifecycle.{Moves}
use ufsc_dso2_trabalho1_merc.Orders.{CheckoutOrder, find_by_id}
use ufsc_dso2_trabalho1_merc.OrderItems.{seller_owns_order}
use ufsc_dso2_trabalho1_merc.Fulfilment.{update_order_status}
use ufsc_dso2_trabalho1_merc.Fulfilment.Repeat.{update_order_status_repeat}
use ufsc_dso2_trabalho1_merc.Fulfilment.Change.{
  IsScopedTo, update_order_status_permitted, update_order_status-IsScopedTo,
}
use ufsc_dso2_trabalho1_merc.Tests.Fixtures.{
  plain_transactions, tenant, buyer, change_env, later_change_env,
}
use ufsc_dso2_trabalho1_merc.Tests.Runs.{checkout_run, change_run, sold, change, returned}

update_order_status_permitted_example :
    (order : CheckoutOrder) × (find_by_id tenant 1000 sold ≡ some order)
    × ((seller_owns_order tenant 1000 2 sold ≡ true)
        ⊎ ((order.buyer ≡ 2) × (confirmed ≡ cancelled)))
    × (((order.status ≡ confirmed) × ((change 2 confirmed sold).1 ≡ sold))
        ⊎ (Moves order.status confirmed × (confirmed ≡ cancelled → order.buyer ≡ 2)))
unfolding checkout_run change_run
update_order_status_permitted_example =
    update_order_status_permitted change_env 2 tenant 1000 confirmed plain_transactions sold refl

update_order_status-IsScopedTo_example : IsScopedTo 2 (returned (change 2 confirmed sold).0)
unfolding checkout_run change_run
update_order_status-IsScopedTo_example =
    update_order_status-IsScopedTo change_env 2 tenant 1000 confirmed plain_transactions sold refl
      refl refl

-- The seller of the pens sees one item, the buyer two.
items_shown : map (λ i. i.product) (returned (change 2 confirmed sold).0).items ≡ 20 ∷ []
unfolding checkout_run change_run
items_shown = refl

items_of_buyer :
    map (λ i. i.product) (returned (change buyer cancelled sold).0).items ≡ 10 ∷ 20 ∷ []
unfolding checkout_run change_run
items_of_buyer = refl

update_order_status_repeat_example :
    update_order_status later_change_env 2 tenant 1000 confirmed plain_transactions
      (change 2 confirmed sold).1
    ≡ change 2 confirmed sold
unfolding checkout_run change_run
update_order_status_repeat_example =
    update_order_status_repeat 2 tenant 1000 confirmed change_env later_change_env
      plain_transactions sold refl
