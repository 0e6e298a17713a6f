-- ===== src/ProductService/Prices.antt =====
-- What the writes of the product service make of the history of a product's prices.
use ufsc_dso2_trabalho1_merc.Prelude.{
  ℕ, String, Bool, true, false, Option, none, some, List, [], ◌∷◌, ◌++◌, ◌≡◌, refl, ap, sym, ◌∙◌,
  arith, Bool-cases, inl, inr, str_eq, str_eq_iff, ◌==◌, ◌&&◌, if◌then◌else◌,
}
use ufsc_dso2_trabalho1_merc.Sql.{select, select_one, update, exists_row}
use ufsc_dso2_trabalho1_merc.Sql.Laws.{
  map_row, select_one-append_none, select_one-eq-none, select_one-update, select_one-insert_other,
  select_one_holds, select-insert, select-insert_other,
}
use ufsc_dso2_trabalho1_merc.Tenants.{Tenant}
use ufsc_dso2_trabalho1_merc.Database.{Uuid, Date, ProductRow, PriceHistoryRow, Db}
use ufsc_dso2_trabalho1_merc.Products.{is_product}
use ufsc_dso2_trabalho1_merc.Products.Writing.{
  is_price_of, is_owned, set_values, new_row, price_row, amount_or, CreateProductRecord,
  UpdateProductRecord, AppendProductPriceHistory,
}

-- The price of the last entry.
abbrev pub last_price : List PriceHistoryRow → Option ℕ
last_price [] = none
last_price (row ∷ []) = some row.unit_price_minor
last_price (row ∷ next ∷ rows) = last_price (next ∷ rows)

abbrev pub price_of : Option ProductRow → Option ℕ
price_of none = none
price_of (some row) = row.unit_price_minor

-- For every product of every tenant the history ends with the price, and is empty without one.
unfoldable pub HasPriceTrail : Db → Type 0
HasPriceTrail db =
    (t : String) (p : Uuid)
    → last_price (select (is_price_of t p) db.price_history)
      ≡ price_of (select_one (is_product t p) db.products)

last_price-append :
    (rows : List PriceHistoryRow) (row : PriceHistoryRow)
    → last_price (rows ++ row ∷ []) ≡ some row.unit_price_minor
last_price-append [] row = refl
last_price-append (a ∷ []) row = refl
last_price-append (a ∷ b ∷ rows) row = last_price-append (b ∷ rows) row

module _ (to_lower : String → String) (t : String) (p : Uuid) where
  history_hit :
      (rows : List PriceHistoryRow) (row : PriceHistoryRow)
      → is_price_of t p row ≡ true
      → last_price (select (is_price_of t p) (rows ++ row ∷ [])) ≡ some row.unit_price_minor
  history_hit rows row hit =
      ap last_price (select-insert (is_price_of t p) rows row hit)
      ∙ last_price-append (select (is_price_of t p) rows) row

  history_miss :
      (rows : List PriceHistoryRow) (row : PriceHistoryRow)
      → is_price_of t p row ≡ false
      → last_price (select (is_price_of t p) (rows ++ row ∷ []))
        ≡ last_price (select (is_price_of t p) rows)
  history_miss rows row miss = ap last_price (select-insert_other (is_price_of t p) rows row miss)

  same_key : (t' : String) (p' : Uuid) → (str_eq t' t && p' == p) ≡ true → (t' ≡ t) × (p' ≡ p)
  same_key t' p' h = ground (arith, str_eq_iff t' t)

  price_of-set :
      (values : UpdateProductRecord) (now : Date) (q : ProductRow → Bool)
      (found : Option ProductRow)
      → values.price ≡ none
      → price_of (map_row (λ row. if q row then set_values to_lower values now row else row) found)
        ≡ price_of found
  price_of-set values now q none h = refl
  price_of-set values now q (some row) h = elim (Bool-cases (q row)) [
    | inl hit_here ↦ rw (hit_here, h, amount_or) refl
    | inr missed ↦ rw missed refl
  ]

  pub added_trail :
      (db db' : Db) (product : CreateProductRecord) (entry : AppendProductPriceHistory)
      (tenant : Tenant) (sequence : ℕ) (new_id : Uuid) (now : Date)
      → last_price (select (is_price_of t p) db.price_history)
        ≡ price_of (select_one (is_product t p) db.products)
      → exists_row (is_product product.tenant_id new_id) db.products ≡ false
      → entry.tenant_id ≡ product.tenant_id
      → entry.product_id ≡ new_id
      → entry.price ≡ product.price
      → db'.products ≡ db.products ++ new_row to_lower new_id now product ∷ []
      → db'.price_history ≡ db.price_history ++ price_row entry tenant sequence ∷ []
      → last_price (select (is_price_of t p) db'.price_history)
        ≡ price_of (select_one (is_product t p) db'.products)
  added_trail db db' product entry tenant sequence new_id now trail fresh of_tenant of_product
        of_price products history =
      let row = new_row to_lower new_id now product in
      let price = price_row entry tenant sequence in
      let both : is_price_of t p price ≡ is_product t p row =
        ap (λ x. str_eq x t && entry.product_id == p) of_tenant
        ∙ ap (λ x. str_eq product.tenant_id t && x == p) of_product in
      elim (Bool-cases (is_product t p row)) [
        | inl hit_here ↦
            let (is_t, is_p) = same_key product.tenant_id new_id hit_here in
            let unused : exists_row (is_product t p) db.products ≡ false =
              ap (λ x. exists_row (is_product x p) db.products) (sym is_t)
              ∙ ap (λ x. exists_row (is_product product.tenant_id x) db.products) (sym is_p)
              ∙ fresh in
            let found : select_one (is_product t p) (db.products ++ row ∷ []) ≡ some row =
              select_one-append_none (is_product t p) db.products (row ∷ [])
                (select_one-eq-none (is_product t p) db.products unused)
              ∙ rw hit_here refl in
            rw (products, history, found)
              (history_hit db.price_history price (both ∙ hit_here)
                ∙ ap (λ m. some m.amount_minor) of_price)
        | inr missed ↦
            rw (products, history)
              (history_miss db.price_history price (both ∙ missed)
                ∙ trail
                ∙ ap price_of
                    (sym (select_one-insert_other (is_product t p) db.products row missed)))
      ]

  pub edited_trail :
      (values : UpdateProductRecord) (now : Date) (tenant_id : String) (product_id seller : Uuid)
      (rows : List ProductRow)
      → values.price ≡ none
      → price_of (select_one (is_product t p) rows)
        ≡ price_of (
            select_one
              (is_product t p)
              (update (is_owned tenant_id product_id seller) (set_values to_lower values now) rows))
  edited_trail values now tenant_id product_id seller rows unpriced =
      let q = is_owned tenant_id product_id seller in
      sym (
        ap price_of
          (select_one-update (is_product t p) q (set_values to_lower values now) rows (λ a. refl))
        ∙ price_of-set values now q (select_one (is_product t p) rows) unpriced)

  owned_by_other :
      (tenant_id : String) (product_id seller : Uuid) (row : ProductRow)
      → (str_eq tenant_id t && product_id == p) ≡ false
      → is_product t p row ≡ true
      → is_owned tenant_id product_id seller row ≡ false
  owned_by_other tenant_id product_id seller row other own = ground (
    arith,
    str_eq_iff row.tenant_id t,
    str_eq_iff row.tenant_id tenant_id,
    str_eq_iff tenant_id t,
  )

  other_price :
      (tenant_id : String) (product_id seller : Uuid) (values : UpdateProductRecord) (now : Date)
      (rows : List ProductRow) (found : Option ProductRow)
      → (str_eq tenant_id t && product_id == p) ≡ false
      → select_one (is_product t p) rows ≡ found
      → price_of found
        ≡ price_of (
            map_row
              (λ a.
                if is_owned tenant_id product_id seller a
                then set_values to_lower values now a
                else a)
              found)
  other_price tenant_id product_id seller values now rows none other e = refl
  other_price tenant_id product_id seller values now rows (some row) other e =
      rw
        (owned_by_other tenant_id product_id seller row other
          (select_one_holds (is_product t p) rows e))
        refl

  pub repriced_trail :
      (db db' : Db) (seller : Uuid) (values : UpdateProductRecord) (now : Date)
      (entry : AppendProductPriceHistory) (tenant : Tenant) (sequence : ℕ) (row : ProductRow)
      → last_price (select (is_price_of t p) db.price_history)
        ≡ price_of (select_one (is_product t p) db.products)
      → select_one (is_product entry.tenant_id entry.product_id) db.products ≡ some row
      → (row.seller_id == seller) ≡ true
      → values.price ≡ some entry.price
      → db'.products
        ≡ update
            (is_owned entry.tenant_id entry.product_id seller)
            (set_values to_lower values now)
            db.products
      → db'.price_history ≡ db.price_history ++ price_row entry tenant sequence ∷ []
      → last_price (select (is_price_of t p) db'.price_history)
        ≡ price_of (select_one (is_product t p) db'.products)
  repriced_trail db db' seller values now entry tenant sequence row trail found own priced products
        history =
      let q = is_owned entry.tenant_id entry.product_id seller in
      let price = price_row entry tenant sequence in
      let after =
        select_one-update (is_product t p) q (set_values to_lower values now) db.products
          (λ a. refl) in
      elim (Bool-cases (is_price_of t p price)) [
        | inl hit_here ↦
            let (is_t, is_p) = same_key entry.tenant_id entry.product_id hit_here in
            let found_here : select_one (is_product t p) db.products ≡ some row =
              ap (λ x. select_one (is_product x p) db.products) (sym is_t)
              ∙ ap (λ x. select_one (is_product entry.tenant_id x) db.products) (sym is_p)
              ∙ found in
            let mine : q row ≡ true =
              rw (select_one_holds (is_product entry.tenant_id entry.product_id) db.products found)
                own in
            rw (products, history, after, found_here, map_row, mine, priced, amount_or)
              (history_hit db.price_history price hit_here)
        | inr missed ↦
            rw (products, history, after)
              (history_miss db.price_history price missed
                ∙ trail
                ∙ other_price entry.tenant_id entry.product_id seller values now db.products _
                    missed refl)
      ]
