-- ===== src/Reviews.antt =====
-- PostgresReviewRepository of backend/src/repositories/postgres/commerceRepositories.ts. Service is
-- `createReviewWithRepository` of services/commerceService.ts.
pub mod Service
pub mod Earned
pub mod Permitted
use ufsc_dso2_trabalho1_merc.Prelude.{
  ℕ, String, Bool, Option, none, some, List, [], ◌∷◌, ◌++◌, ◌&&◌, ◌==◌, str_eq,
}
use ufsc_dso2_trabalho1_merc.Sql.{select_one, update, exists_row}
use ufsc_dso2_trabalho1_merc.Database.{Uuid, Date, OrderRow, OrderItemRow, ReviewRow, Db}

-- A review is returned with the fields of its row.
abbrev pub is_review : String → Uuid → ReviewRow → Bool
is_review tenant_id review_id row = str_eq row.tenant_id tenant_id && row.id == review_id

unfoldable pub find_by_id : String → Uuid → Db → Option ReviewRow
find_by_id tenant_id review_id db = select_one (is_review tenant_id review_id) db.reviews

-- The join of the item with the order that it is part of.
abbrev pub is_order_by : String → Uuid → Uuid → OrderRow → Bool
is_order_by tenant_id order_id buyer_id order =
    str_eq order.tenant_id tenant_id && order.id == order_id && order.buyer_id == buyer_id

abbrev pub is_purchase : List OrderRow → String → Uuid → Uuid → OrderItemRow → Bool
is_purchase orders tenant_id buyer_id product_id item =
    str_eq item.tenant_id tenant_id
    && item.product_id == product_id
    && exists_row (is_order_by item.tenant_id item.order_id buyer_id) orders

unfoldable pub has_purchased_product : String → Uuid → Uuid → Db → Bool
has_purchased_product tenant_id buyer_id product_id db =
    exists_row (is_purchase db.orders tenant_id buyer_id product_id) db.order_items

-- The target of `onConflictDoUpdate`, which is unique.
abbrev pub is_review_of : String → Uuid → Uuid → ReviewRow → Bool
is_review_of tenant_id product_id author_id row =
    str_eq row.tenant_id tenant_id && row.product_id == product_id && row.author_id == author_id

abbrev pub revised : ℕ → String → Date → ReviewRow → ReviewRow
revised rating comment now row = record row { rating = rating; comment = comment; updated_at = now }

-- The `values` of `upsert`.
abbrev pub review_row : Uuid → String → Uuid → Uuid → ℕ → String → Date → ReviewRow
review_row new_id tenant_id product_id author_id rating comment now = record {
  id = new_id;
  tenant_id = tenant_id;
  product_id = product_id;
  author_id = author_id;
  rating = rating;
  comment = comment;
  created_at = now;
  updated_at = now;
}

abbrev pub upsert_on :
    Uuid → String → Uuid → Uuid → ℕ → String → Date → Option ReviewRow → Db → ReviewRow × Db
upsert_on new_id tenant_id product_id author_id rating comment now none db =
    let row = review_row new_id tenant_id product_id author_id rating comment now in
    (row, record db { reviews = db.reviews ++ row ∷ [] })
upsert_on new_id tenant_id product_id author_id rating comment now (some old) db = (
  revised rating comment now old,
  record db {
    reviews =
        update (is_review_of tenant_id product_id author_id) (revised rating comment now)
          db.reviews;
  },
)

unfoldable pub upsert : Uuid → String → Uuid → Uuid → ℕ → String → Date → Db → ReviewRow × Db
upsert new_id tenant_id product_id author_id rating comment now db =
    upsert_on new_id tenant_id product_id author_id rating comment now
      (select_one (is_review_of tenant_id product_id author_id) db.reviews) db
