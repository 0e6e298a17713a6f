-- ===== src/Watchlist.antt =====
-- PostgresWatchlistRepository of backend/src/repositories/postgres/commerceRepositories.ts, and
-- `addWatchlistWithRepository` of services/commerceService.ts.
pub mod Entries
use ufsc_dso2_trabalho1_merc.Prelude.{
  String, Bool, Option, none, some, [], ◌∷◌, ◌++◌, ◌&&◌, ◌==◌, str_eq,
}
use ufsc_dso2_trabalho1_merc.Sql.{select_one, delete}
use ufsc_dso2_trabalho1_merc.Result.{app_error, or_throw, product_not_found}
use ufsc_dso2_trabalho1_merc.Action.{Action, pure, lift, reads, writes, ◌>>=◌}
use ufsc_dso2_trabalho1_merc.Database.{Uuid, Date, WatchlistRow, Db}
use ufsc_dso2_trabalho1_merc.Products.{ProductRecord, find_by_id}

-- The unique target of `onConflictDoNothing`.
abbrev pub is_entry : String → Uuid → Uuid → WatchlistRow → Bool
is_entry tenant_id user_id product_id row =
    str_eq row.tenant_id tenant_id && row.user_id == user_id && row.product_id == product_id

abbrev pub entry_row : Uuid → String → Uuid → Uuid → Date → WatchlistRow
entry_row new_id tenant_id user_id product_id now = record {
  id = new_id;
  tenant_id = tenant_id;
  user_id = user_id;
  product_id = product_id;
  created_at = now;
  updated_at = now;
}

abbrev pub add_on :
    Uuid → String → Uuid → Uuid → Date → Option WatchlistRow → Db → WatchlistRow × Db
add_on new_id tenant_id user_id product_id now none db =
    let row = entry_row new_id tenant_id user_id product_id now in
    (row, record db { watchlist = db.watchlist ++ row ∷ [] })
add_on new_id tenant_id user_id product_id now (some old) db = (old, db)

-- `add`: the row that is selected at the end is the one that was there, or the new one.
unfoldable pub add : Uuid → String → Uuid → Uuid → Date → Db → WatchlistRow × Db
add new_id tenant_id user_id product_id now db =
    add_on new_id tenant_id user_id product_id now
      (select_one (is_entry tenant_id user_id product_id) db.watchlist) db

unfoldable pub remove : String → Uuid → Uuid → Db → Db
remove tenant_id user_id product_id db = record db {
  watchlist = delete (is_entry tenant_id user_id product_id) db.watchlist;
}

-- `{ ...entry, product }`
pub record WatchedProduct : Type 0 where
  pub entry : WatchlistRow
  pub product : ProductRecord

abbrev pub with_product : WatchlistRow → ProductRecord → WatchedProduct
with_product entry product = record { entry = entry; product = product }

-- `addWatchlistWithRepository`
unfoldable pub add_watchlist : Uuid → Date → Uuid → String → Uuid → Action Db WatchedProduct
add_watchlist new_id now user_id tenant_id product_id = do
  found ← reads (find_by_id tenant_id product_id)
  product ← lift (or_throw found (app_error 404 product_not_found))
  entry ← writes (add new_id tenant_id user_id product_id now)
  pure (with_product entry product)
