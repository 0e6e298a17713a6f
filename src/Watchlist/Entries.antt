-- ===== src/Watchlist/Entries.antt =====
-- What is added to a watchlist is added once, and can be taken back.
use ufsc_dso2_trabalho1_merc.Prelude.{
  List, String, false, none, some, [], ◌∷◌, ◌++◌, ◌≡◌, refl, sym, ap, ◌∙◌, str_eq_refl, ==_refl,
  Option-cases, inl, inr,
}
use ufsc_dso2_trabalho1_merc.Sql.{select_one, exists_row}
use ufsc_dso2_trabalho1_merc.Sql.Laws.{delete-insert, select_one-eq-none, select_one-append_none}
use ufsc_dso2_trabalho1_merc.Result.{
  Result, ok, app_error, or_throw, or_throw-eq-ok, product_not_found,
}
use ufsc_dso2_trabalho1_merc.Action.{pure, lift, reads, writes, ◌>>=◌}
use ufsc_dso2_trabalho1_merc.Action.Laws.{>>=-eq-ok, >>=_continues, writes-eq-ok}
use ufsc_dso2_trabalho1_merc.Database.{Uuid, Date, WatchlistRow, Db}
use ufsc_dso2_trabalho1_merc.Products.{ProductRecord, find_by_id}
use ufsc_dso2_trabalho1_merc.Watchlist.{
  is_entry, entry_row, add_on, add, remove, WatchedProduct, with_product, add_watchlist,
}

abbrev with_watchlist : Db → List WatchlistRow → Db
with_watchlist db rows = record db { watchlist = rows }

module _ (user_id : Uuid) (tenant_id : String) (product_id : Uuid) where
  -- What a call that returned has found and written.
  pub record IsAdded (new_id : Uuid) (now : Date) (db : Db) (watched : WatchedProduct) (db' : Db)
      : Type 0 where
    pub found : find_by_id tenant_id product_id db ≡ ok (some watched.product)
    pub written : add new_id tenant_id user_id product_id now db ≡ (watched.entry, db')

  assembled :
      (new_id : Uuid) (now : Date) (db : Db) (product : ProductRecord) (entry : WatchlistRow)
      {watched : WatchedProduct} {db' : Db}
      → find_by_id tenant_id product_id db ≡ ok (some product)
      → add new_id tenant_id user_id product_id now db ≡ (entry, db')
      → Result.ok (with_product entry product) ≡ ok watched
      → IsAdded new_id now db watched db'
  assembled new_id now db product entry {watched} {db'} found written same =
      let w : with_product entry product ≡ watched = cc in
      record {
        found = found ∙ ap (λ x. ok (some x.product)) w;
        written = written ∙ ap (λ x. (x.entry, db')) w;
      }

  add_watchlist-IsAdded :
      (new_id : Uuid) (now : Date) (db : Db) {watched : WatchedProduct} {db' : Db}
      → add_watchlist new_id now user_id tenant_id product_id db ≡ (ok watched, db')
      → IsAdded new_id now db watched db'
  unfolding add_watchlist
  add_watchlist-IsAdded new_id now db {watched} {db'} h =
      let after_product = λ (product : ProductRecord).
        writes (add new_id tenant_id user_id product_id now) >>= λ entry.
        pure (with_product entry product) in
      let (found, d1, e1, h1) =
        >>=-eq-ok (reads (find_by_id tenant_id product_id))
          (λ found. lift (or_throw found (app_error 404 product_not_found)) >>= after_product) h in
      let (product, d2, e2, h2) =
        >>=-eq-ok (lift (or_throw found (app_error 404 product_not_found))) after_product h1 in
      let (entry, d3, e3, h3) =
        >>=-eq-ok (writes (add new_id tenant_id user_id product_id now))
          (λ entry. pure (with_product entry product)) h2 in
      let same : Result.ok (with_product entry product) ≡ ok watched = ap (λ x. x.0) h3 in
      let is_found = or_throw-eq-ok found (app_error 404 product_not_found) (ap (λ x. x.0) e2) in
      assembled new_id now db product entry (cc (ap (λ x. x.0) e1, is_found))
        (ap (add new_id tenant_id user_id product_id now) (ap (λ x. x.1) e1 ∙ ap (λ x. x.1) e2)
          ∙ writes-eq-ok (add new_id tenant_id user_id product_id now) e3
          ∙ ap (λ x. (entry, x.1)) h3)
        same

  find_by_id-add :
      (new_id : Uuid) (now : Date) (db : Db)
      → find_by_id tenant_id product_id (add new_id tenant_id user_id product_id now db).1
        ≡ find_by_id tenant_id product_id db
  unfolding add find_by_id
  find_by_id-add new_id now db =
      elim (Option-cases (select_one (is_entry tenant_id user_id product_id) db.watchlist)) [
        | inl absent ↦ rw absent refl
        | inr (old, there) ↦ rw there refl
      ]

  inserted :
      (new_id : Uuid) (now : Date) (db : Db)
      → select_one (is_entry tenant_id user_id product_id) db.watchlist ≡ none
      → select_one
          (is_entry tenant_id user_id product_id)
          (db.watchlist ++ entry_row new_id tenant_id user_id product_id now ∷ [])
        ≡ some (entry_row new_id tenant_id user_id product_id now)
  inserted new_id now db absent =
      select_one-append_none (is_entry tenant_id user_id product_id) db.watchlist
        (entry_row new_id tenant_id user_id product_id now ∷ []) absent
      ∙ rw (str_eq_refl tenant_id, ==_refl user_id, ==_refl product_id) refl

  add_again :
      (new_id new_id' : Uuid) (now now' : Date) (db : Db)
      → add new_id' tenant_id user_id product_id now'
          (add new_id tenant_id user_id product_id now db).1
        ≡ add new_id tenant_id user_id product_id now db
  unfolding add
  add_again new_id new_id' now now' db =
      elim (Option-cases (select_one (is_entry tenant_id user_id product_id) db.watchlist)) [
        | inl absent ↦ rw (absent, inserted new_id now db absent) refl
        | inr (old, there) ↦ rw (there, there) refl
      ]

  runs :
      (new_id : Uuid) (now : Date) (db : Db) {watched : WatchedProduct} {db' : Db}
      → IsAdded new_id now db watched db'
      → add_watchlist new_id now user_id tenant_id product_id db ≡ (ok watched, db')
  unfolding add_watchlist
  runs new_id now db {watched} {db'} a =
      let after_product = λ (product : ProductRecord).
        writes (add new_id tenant_id user_id product_id now) >>= λ entry.
        pure (with_product entry product) in
      >>=_continues (reads (find_by_id tenant_id product_id))
        (λ found. lift (or_throw found (app_error 404 product_not_found)) >>= after_product)
        (ap (λ r. (r, db)) a.found)
      ∙ >>=_continues (writes (add new_id tenant_id user_id product_id now))
          (λ entry. pure (with_product entry watched.product)) (ap (λ x. (ok x.0, x.1)) a.written)

  -- A product that was added to a watchlist may be added again at any time: the same entry is
  -- returned and nothing changes.
  pub add_watchlist_again :
      (new_id new_id' : Uuid) (now now' : Date) (db : Db) {watched : WatchedProduct} {db' : Db}
      → add_watchlist new_id now user_id tenant_id product_id db ≡ (ok watched, db')
      → add_watchlist new_id' now' user_id tenant_id product_id db' ≡ (ok watched, db')
  add_watchlist_again new_id new_id' now now' db h =
      let a = add_watchlist-IsAdded new_id now db h in
      runs new_id' now' _ (record {
        found =
            ap (find_by_id tenant_id product_id) (ap (λ x. x.1) (sym a.written))
            ∙ find_by_id-add new_id now db
            ∙ a.found;
        written =
            ap (add new_id' tenant_id user_id product_id now') (ap (λ x. x.1) (sym a.written))
            ∙ add_again new_id new_id' now now' db
            ∙ a.written;
      })

  -- Taking a product off the watchlist after it was added leaves the database as it was before, if
  -- the product was not on it.
  pub remove-add_watchlist :
      (new_id : Uuid) (now : Date) (db : Db) {watched : WatchedProduct} {db' : Db}
      → exists_row (is_entry tenant_id user_id product_id) db.watchlist ≡ false
      → add_watchlist new_id now user_id tenant_id product_id db ≡ (ok watched, db')
      → remove tenant_id user_id product_id db' ≡ db
  unfolding add remove
  remove-add_watchlist new_id now db {watched} {db'} absent h =
      let a = add_watchlist-IsAdded new_id now db h in
      let p = is_entry tenant_id user_id product_id in
      let none_there = select_one-eq-none p db.watchlist absent in
      let row = entry_row new_id tenant_id user_id product_id now in
      let left : record db { watchlist = db.watchlist ++ row ∷ [] } ≡ db' =
        ap (λ x. x.1) (rw (none_there, add_on) at a.written) in
      ap (remove tenant_id user_id product_id) (sym left)
      ∙ ap (λ w. with_watchlist db w)
          (delete-insert p db.watchlist row
            (rw (str_eq_refl tenant_id, ==_refl user_id, ==_refl product_id) refl) absent)
