-- ===== src/Carts/Tables.antt =====
-- The two tables that a change of a cart writes.
use ufsc_dso2_trabalho1_merc.Prelude.{ℕ, String, Option, none, some, List}
use ufsc_dso2_trabalho1_merc.Database.{Uuid, Date, CartRow, CartItemRow, Db}
use ufsc_dso2_trabalho1_merc.Carts.{set_item, remove_item, set_in_cart, remove_from_cart}

-- A predicate that does not look into the carts.
abbrev IgnoresCarts : (Db → Type 0) → Db → Type 0
IgnoresCarts P db =
    (carts : List CartRow) (items : List CartItemRow)
    → P (record db { carts = carts; cart_items = items })

in_cart_keeps :
    (P : Db → Type 0) (now : Date) (tenant_id : String) (product_id : Uuid) (quantity : ℕ) (db : Db)
    (found : Option CartRow)
    → IgnoresCarts P db
    → P (set_in_cart now tenant_id product_id quantity db found)
in_cart_keeps P now tenant_id product_id quantity db none h = h db.carts db.cart_items
in_cart_keeps P now tenant_id product_id quantity db (some cart) h = h _ _

-- What does not look into the carts still holds after `setItem`.
pub set_item_keeps :
    (P : Db → Type 0) (new_id : Uuid) (now : Date) (tenant_id : String) (buyer_id product_id : Uuid)
    (quantity : ℕ) (db : Db)
    → IgnoresCarts P db
    → P (set_item new_id now tenant_id buyer_id product_id quantity db)
unfolding set_item
set_item_keeps P new_id now tenant_id buyer_id product_id quantity db h =
    in_cart_keeps P now tenant_id product_id quantity _ _ h

out_of_cart_keeps :
    (P : Db → Type 0) (now : Date) (tenant_id : String) (product_id : Uuid) (db : Db)
    (found : Option CartRow)
    → IgnoresCarts P db
    → P (remove_from_cart now tenant_id product_id db found)
out_of_cart_keeps P now tenant_id product_id db none h = h db.carts db.cart_items
out_of_cart_keeps P now tenant_id product_id db (some cart) h = h _ _

-- The same after `removeItem`.
pub remove_item_keeps :
    (P : Db → Type 0) (now : Date) (tenant_id : String) (buyer_id product_id : Uuid) (db : Db)
    → IgnoresCarts P db
    → P (remove_item now tenant_id buyer_id product_id db)
unfolding remove_item
remove_item_keeps P now tenant_id buyer_id product_id db h =
    out_of_cart_keeps P now tenant_id product_id db _ h
