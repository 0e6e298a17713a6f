-- ===== src/ProductService/Permitted.antt =====
-- The changes of status that `updateProductStatus` permits.
use ufsc_dso2_trabalho1_merc.Prelude.{
  ℕ, Bool, true, false, ◌≡◌, ◌≤◌, refl, ◌⊎◌, inl, inr, arith, Bool-cases, not, is_some, ltb, ◌&&◌,
}
use ufsc_dso2_trabalho1_merc.Result.{
  ok, err, app_error, Code, product_status_transition_invalid, product_inventory_required,
  product_price_required,
}
use ufsc_dso2_trabalho1_merc.ProductStatus.{
  ProductStatus, same_status, draft, active, paused, sold_out, archived,
}
use ufsc_dso2_trabalho1_merc.Products.{ProductRecord}
use ufsc_dso2_trabalho1_merc.ProductService.Guards.{allowed, check_status}

-- The changes of status that a seller makes.
pub data Moves : ProductStatus → ProductStatus → Type 0 where
  publish : Moves draft active
  archive_draft : Moves draft archived
  pause : Moves active paused
  archive : Moves active archived
  resume : Moves paused active
  archive_paused : Moves paused archived
  restock : Moves sold_out active
  archive_sold_out : Moves sold_out archived
  reactivate : Moves archived active

allowed-Moves : (a b : ProductStatus) → allowed a b ≡ true → Moves a b
unfolding allowed
allowed-Moves draft draft h = cc
allowed-Moves draft active h = publish
allowed-Moves draft paused h = cc
allowed-Moves draft sold_out h = cc
allowed-Moves draft archived h = archive_draft
allowed-Moves active draft h = cc
allowed-Moves active active h = cc
allowed-Moves active paused h = pause
allowed-Moves active sold_out h = cc
allowed-Moves active archived h = archive
allowed-Moves paused draft h = cc
allowed-Moves paused active h = resume
allowed-Moves paused paused h = cc
allowed-Moves paused sold_out h = cc
allowed-Moves paused archived h = archive_paused
allowed-Moves sold_out draft h = cc
allowed-Moves sold_out active h = restock
allowed-Moves sold_out paused h = cc
allowed-Moves sold_out sold_out h = cc
allowed-Moves sold_out archived h = archive_sold_out
allowed-Moves archived draft h = cc
allowed-Moves archived active h = reactivate
allowed-Moves archived paused h = cc
allowed-Moves archived sold_out h = cc
allowed-Moves archived archived h = cc

Moves-allowed : {a b : ProductStatus} → Moves a b → allowed a b ≡ true
unfolding allowed
Moves-allowed publish = refl
Moves-allowed archive_draft = refl
Moves-allowed pause = refl
Moves-allowed archive = refl
Moves-allowed resume = refl
Moves-allowed archive_paused = refl
Moves-allowed restock = refl
Moves-allowed archive_sold_out = refl
Moves-allowed reactivate = refl

same_status_refl : (a : ProductStatus) → same_status a a ≡ true
same_status_refl draft = refl
same_status_refl active = refl
same_status_refl paused = refl
same_status_refl sold_out = refl
same_status_refl archived = refl

same_status-eq : (a b : ProductStatus) → same_status a b ≡ true → a ≡ b
same_status-eq draft draft h = refl
same_status-eq draft active h = cc
same_status-eq draft paused h = cc
same_status-eq draft sold_out h = cc
same_status-eq draft archived h = cc
same_status-eq active draft h = cc
same_status-eq active active h = refl
same_status-eq active paused h = cc
same_status-eq active sold_out h = cc
same_status-eq active archived h = cc
same_status-eq paused draft h = cc
same_status-eq paused active h = cc
same_status-eq paused paused h = refl
same_status-eq paused sold_out h = cc
same_status-eq paused archived h = cc
same_status-eq sold_out draft h = cc
same_status-eq sold_out active h = cc
same_status-eq sold_out paused h = cc
same_status-eq sold_out sold_out h = refl
same_status-eq sold_out archived h = cc
same_status-eq archived draft h = cc
same_status-eq archived active h = cc
same_status-eq archived paused h = cc
same_status-eq archived sold_out h = cc
same_status-eq archived archived h = refl

-- A status that a product may get from its seller: the one it has, or the next of a step; never
-- sold out; and active only with stock and a price.
pub record Permitted (product : ProductRecord) (status : ProductStatus) : Type 0 where
  pub step : (status ≡ product.status) ⊎ Moves product.status status
  pub not_sold_out : same_status status sold_out ≡ false
  pub in_stock : status ≡ active → 1 ≤ product.inventory
  pub priced : status ≡ active → is_some product.price ≡ true

step_of :
    (a b : ProductStatus)
    → (not (same_status b a) && not (allowed a b)) ≡ false
    → (b ≡ a) ⊎ Moves a b
step_of a b h = elim (Bool-cases (same_status b a)) [
  | inl same ↦ inl (same_status-eq b a same)
  | inr other ↦ elim (Bool-cases (allowed a b)) [
    | inl may ↦ inr (allowed-Moves a b may)
    | inr not_may ↦ cc (rw (other, not_may) at h)
  ]
]

stock_of :
    (status : ProductStatus) (n : ℕ)
    → (same_status status active && ltb n 1) ≡ false
    → status ≡ active
    → 1 ≤ n
stock_of active n h is_active = ground arith
stock_of draft n h is_active = cc
stock_of paused n h is_active = cc
stock_of sold_out n h is_active = cc
stock_of archived n h is_active = cc

price_of :
    (status : ProductStatus) (priced : Bool)
    → (same_status status active && not priced) ≡ false
    → status ≡ active
    → priced ≡ true
price_of status true h is_active = refl
price_of status false h is_active = cc (rw is_active at h)

-- The three checks that a permitted change passes.
in_stock_passes :
    (status : ProductStatus) (n : ℕ)
    → (status ≡ active → 1 ≤ n)
    → (same_status status active && ltb n 1) ≡ false
in_stock_passes active n stocked = let enough = stocked refl in ground arith
in_stock_passes draft n stocked = refl
in_stock_passes paused n stocked = refl
in_stock_passes sold_out n stocked = refl
in_stock_passes archived n stocked = refl

priced_passes :
    (status : ProductStatus) (priced : Bool)
    → (status ≡ active → priced ≡ true)
    → (same_status status active && not priced) ≡ false
priced_passes active priced has_price = rw (has_price refl) refl
priced_passes draft priced has_price = refl
priced_passes paused priced has_price = refl
priced_passes sold_out priced has_price = refl
priced_passes archived priced has_price = refl

step_passes :
    (a b : ProductStatus)
    → (b ≡ a) ⊎ Moves a b
    → (not (same_status b a) && not (allowed a b)) ≡ false
step_passes a b (inl same) = rw (same, same_status_refl a) refl
step_passes a b (inr moves) = elim (Bool-cases (same_status b a)) [
  | inl same ↦ rw same refl
  | inr other ↦ rw (other, Moves-allowed moves) refl
]

pub check_status-Permitted :
    (status : ProductStatus) (product : ProductRecord)
    → Permitted product status
    → check_status status product ≡ ok tt
unfolding check_status
check_status-Permitted status product permitted =
    rw
      (
        permitted.not_sold_out,
        in_stock_passes status product.inventory permitted.in_stock,
        priced_passes status (is_some product.price) permitted.priced,
        step_passes product.status status permitted.step,
      )
      refl

pub check_status-cases :
    (status : ProductStatus) (product : ProductRecord)
    → ((check_status status product ≡ ok tt) × Permitted product status)
      ⊎ ((code : Code) × (check_status status product ≡ err (app_error 409 code)))
unfolding check_status
check_status-cases status product = elim (Bool-cases (same_status status sold_out)) [
  | inl out ↦ inr (product_status_transition_invalid, rw out refl)
  | inr not_out ↦ elim (Bool-cases (same_status status active && ltb product.inventory 1)) [
    | inl empty ↦ inr (product_inventory_required, rw (not_out, empty) refl)
    | inr stocked ↦ elim (Bool-cases (same_status status active && not (is_some product.price))) [
      | inl unpriced ↦ inr (product_price_required, rw (not_out, stocked, unpriced) refl)
      | inr priced ↦
          elim (Bool-cases
            (not (same_status status product.status) && not (allowed product.status status))) [
              | inl wrong ↦
                  inr (product_status_transition_invalid, rw (not_out, stocked, priced, wrong) refl)
              | inr right ↦ inl (
                rw (not_out, stocked, priced, right) refl,
                record {
                  step = step_of product.status status right;
                  not_sold_out = not_out;
                  in_stock = λ is_active. stock_of status product.inventory stocked is_active;
                  priced = λ is_active. price_of status (is_some product.price) priced is_active;
                },
              )
            ]
    ]
  ]
]
