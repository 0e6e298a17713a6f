-- ===== src/Carts.antt =====
-- PostgresCartRepository of backend/src/repositories/postgres/checkoutRepositories.ts. `new_id` is
-- what `randomUUID()` returned, `now` what `new Date()` did.
pub mod Tables
use ufsc_dso2_trabalho1_merc.Prelude.{
  ℕ, String, Bool, Option, none, some, List, [], ◌∷◌, ◌++◌, map, ◌&&◌, ◌==◌, if◌then◌else◌, str_eq,
}
use ufsc_dso2_trabalho1_merc.Prelude.Order.{order_by}
use ufsc_dso2_trabalho1_merc.Sql.{select, select_one, update, delete, exists_row}
use ufsc_dso2_trabalho1_merc.Result.{Result, ok, internal, or_throw, ◌>>=◌}
use ufsc_dso2_trabalho1_merc.Database.{Uuid, Date, CartRow, CartItemRow, Db}
use ufsc_dso2_trabalho1_merc.Products.{ProductRecord, in_array, map_product_rows}

-- `new Map(products.map((product) => [product._id, product])).get(id)`: the last entry wins.
unfoldable pub map_get : Uuid → List ProductRecord → Option ProductRecord
map_get id [] = none
map_get id (product ∷ products) = elim (map_get id products) [
  | some later ↦ some later
  | none ↦ if product.id == id then some product else none
]

-- An item of a cart with its product.
pub record CartLine : Type 0 where
  pub product : ProductRecord
  pub quantity : ℕ

pub record Cart : Type 0 where
  pub tenant_id : String
  pub buyer : Uuid
  pub items : List CartLine

pub record CheckoutCartItem : Type 0 where
  pub product_id : Uuid
  pub quantity : ℕ

pub record CheckoutCart : Type 0 where
  pub id : Uuid
  pub tenant_id : String
  pub buyer_id : Uuid
  pub items : List CheckoutCartItem

abbrev pub is_cart_of : String → Uuid → CartRow → Bool
is_cart_of tenant_id buyer_id row = str_eq row.tenant_id tenant_id && row.buyer_id == buyer_id

abbrev pub is_item_of : String → Uuid → CartItemRow → Bool
is_item_of tenant_id cart_id row = str_eq row.tenant_id tenant_id && row.cart_id == cart_id

abbrev pub is_item_for : String → Uuid → Uuid → CartItemRow → Bool
is_item_for tenant_id cart_id product_id row =
    is_item_of tenant_id cart_id row && row.product_id == product_id

abbrev pub is_cart : String → Uuid → CartRow → Bool
is_cart tenant_id cart_id row = str_eq row.tenant_id tenant_id && row.id == cart_id

abbrev pub touched : Date → CartRow → CartRow
touched now row = record row { updated_at = now }

-- The rows of a cart with their products; a row with no product throws.
unfoldable pub cart_lines : List ProductRecord → List CartItemRow → Result (List CartLine)
cart_lines products [] = ok []
cart_lines products (row ∷ rows) = do
  product ← or_throw (map_get row.product_id products) internal
  rest ← cart_lines products rows
  ok (record { product = product; quantity = row.quantity } ∷ rest)

abbrev pub cart_items_of : String → Uuid → Db → List CartItemRow
cart_items_of tenant_id cart_id db = select (is_item_of tenant_id cart_id) db.cart_items

-- The second and third query of `get`; with no items the product rows are not asked for.
abbrev get_lines : String → Uuid → Db → Result (List CartLine)
get_lines tenant_id cart_id db = do
  products ← map_product_rows (
      select
        (λ row.
          str_eq row.tenant_id tenant_id
          && in_array (map (λ item. item.product_id) (cart_items_of tenant_id cart_id db)) row.id)
        db.products)
  cart_lines products (cart_items_of tenant_id cart_id db)

unfoldable pub get : String → Uuid → Db → Result (Option Cart)
get tenant_id buyer_id db = elim (select_one (is_cart_of tenant_id buyer_id) db.carts) [
  | none ↦ ok none
  | some cart ↦ do
    lines ← get_lines tenant_id cart.id db
    ok (some (record { tenant_id = tenant_id; buyer = buyer_id; items = lines }))
]

-- `insert … onConflictDoNothing` on the tenant and the buyer.
abbrev with_cart : Uuid → Date → String → Uuid → List CartRow → List CartRow
with_cart new_id now tenant_id buyer_id rows =
    if exists_row (is_cart_of tenant_id buyer_id) rows
    then rows
    else rows
      ++ record {
        id = new_id;
        tenant_id = tenant_id;
        buyer_id = buyer_id;
        created_at = now;
        updated_at = now;
      }
        ∷ []

-- `insert … onConflictDoUpdate` on the key of `cart_items`.
abbrev upsert_item : String → Uuid → Uuid → ℕ → List CartItemRow → List CartItemRow
upsert_item tenant_id cart_id product_id quantity rows =
    if exists_row (is_item_for tenant_id cart_id product_id) rows
    then update (is_item_for tenant_id cart_id product_id)
        (λ row. record row { quantity = quantity }) rows
    else rows
      ++ record {
        tenant_id = tenant_id;
        cart_id = cart_id;
        product_id = product_id;
        quantity = quantity;
      }
        ∷ []

abbrev pub set_in_cart : Date → String → Uuid → ℕ → Db → Option CartRow → Db
set_in_cart now tenant_id product_id quantity db none = db
set_in_cart now tenant_id product_id quantity db (some cart) = record db {
  cart_items = upsert_item tenant_id cart.id product_id quantity db.cart_items;
  carts = update (is_cart tenant_id cart.id) (touched now) db.carts;
}

-- `cart` is found, since the first statement made it if it was missing.
unfoldable pub set_item : Uuid → Date → String → Uuid → Uuid → ℕ → Db → Db
set_item new_id now tenant_id buyer_id product_id quantity db =
    let db' = record db { carts = with_cart new_id now tenant_id buyer_id db.carts } in
    set_in_cart now tenant_id product_id quantity db'
      (select_one (is_cart_of tenant_id buyer_id) db'.carts)

abbrev pub remove_from_cart : Date → String → Uuid → Db → Option CartRow → Db
remove_from_cart now tenant_id product_id db none = db
remove_from_cart now tenant_id product_id db (some cart) = record db {
  cart_items = delete (is_item_for tenant_id cart.id product_id) db.cart_items;
  carts = update (is_cart tenant_id cart.id) (touched now) db.carts;
}

unfoldable pub remove_item : Date → String → Uuid → Uuid → Db → Db
remove_item now tenant_id buyer_id product_id db =
    remove_from_cart now tenant_id product_id db
      (select_one (is_cart_of tenant_id buyer_id) db.carts)

abbrev pub to_checkout_item : CartItemRow → CheckoutCartItem
to_checkout_item row = record { product_id = row.product_id; quantity = row.quantity }

abbrev pub to_checkout_cart : Db → String → CartRow → CheckoutCart
to_checkout_cart db tenant_id cart = record {
  id = cart.id;
  tenant_id = cart.tenant_id;
  buyer_id = cart.buyer_id;
  items =
      map to_checkout_item (order_by (λ row. row.product_id) (cart_items_of tenant_id cart.id db));
}

abbrev pub map_cart : (CartRow → CheckoutCart) → Option CartRow → Option CheckoutCart
map_cart f none = none
map_cart f (some cart) = some (f cart)

unfoldable pub find_for_checkout : String → Uuid → Db → Option CheckoutCart
find_for_checkout tenant_id buyer_id db =
    map_cart (to_checkout_cart db tenant_id) (select_one (is_cart_of tenant_id buyer_id) db.carts)

unfoldable pub clear : Date → String → Uuid → Db → Db
clear now tenant_id cart_id db = record db {
  cart_items = delete (is_item_of tenant_id cart_id) db.cart_items;
  carts = update (is_cart tenant_id cart_id) (touched now) db.carts;
}
