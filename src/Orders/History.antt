-- ===== src/Orders/History.antt =====
-- The rows of `order_status_history` that one order has, as a path of the life cycle.
use ufsc_dso2_trabalho1_merc.Prelude.{
  ℕ, ◌+◌, ◌≤◌, String, true, false, List, [], ◌∷◌, ◌++◌, map, ◌≡◌, ap, refl, ◌∙◌, arith, All,
}
use ufsc_dso2_trabalho1_merc.Prelude.Order.{order_by, order_by-append_last}
use ufsc_dso2_trabalho1_merc.Sql.{select}
use ufsc_dso2_trabalho1_merc.Sql.Laws.{select-insert, select-insert_other}
use ufsc_dso2_trabalho1_merc.OrderStatus.{OrderStatus, placed}
use ufsc_dso2_trabalho1_merc.OrderStatus.Lifecycle.{Moves}
use ufsc_dso2_trabalho1_merc.Database.{Uuid, OrderRow, StatusHistoryRow, Db}
use ufsc_dso2_trabalho1_merc.Orders.{
  StatusEntry, is_history_of, to_entry, history_of, latest_sequence,
}

-- A path of the life cycle that begins with placed, and the status that it ends in.
pub data Reaches : List OrderStatus → OrderStatus → Type 0 where
  start : Reaches (placed ∷ []) placed
  step :
      {path : List OrderStatus} {from to : OrderStatus}
      → Reaches path from
      → Moves from to
      → Reaches (path ++ to ∷ []) to

abbrev pub statuses : List StatusEntry → List OrderStatus
statuses = map (λ entry. entry.status)

-- The history of an order leads from placed to its status.
abbrev pub IsRecorded : List StatusHistoryRow → OrderRow → Type 0
IsRecorded history row = Reaches (statuses (history_of row.tenant_id row.id history)) row.status

-- The history of every order leads from placed to the order's status.
abbrev pub AreRecorded : Db → Type 0
AreRecorded db = All (IsRecorded db.status_history) db.orders

latest_sequence-bounds :
    (rows : List StatusHistoryRow) (n : ℕ)
    → latest_sequence rows ≤ n
    → All (λ row. row.sequence ≤ n) rows
latest_sequence-bounds [] n h = tt
latest_sequence-bounds (row ∷ rows) n h =
    (omega (arith, h), latest_sequence-bounds rows n (omega (arith, h)))

map-append {ℓ κ} :
    {A : Type ℓ} {B : Type κ} (f : A → B) (xs : List A) (y : A)
    → map f (xs ++ y ∷ []) ≡ map f xs ++ f y ∷ []
map-append f [] y = refl
map-append f (x ∷ xs) y = ap (λ rest. f x ∷ rest) (map-append f xs y)

module _ (tenant_id : String) (order_id : Uuid) (rows : List StatusHistoryRow)
    (new : StatusHistoryRow) where
  -- The next row of an order comes last in its history.
  pub history_of-append :
      is_history_of tenant_id order_id new ≡ true
      → new.sequence ≡ latest_sequence (select (is_history_of tenant_id order_id) rows) + 1
      → statuses (history_of tenant_id order_id (rows ++ new ∷ []))
        ≡ statuses (history_of tenant_id order_id rows) ++ new.status ∷ []
  history_of-append own next =
      let mine = select (is_history_of tenant_id order_id) rows in
      ap statuses (
        ap (λ all. map to_entry (order_by (λ row. row.sequence) all))
          (select-insert (is_history_of tenant_id order_id) rows new own)
        ∙ ap (map to_entry) (
            order_by-append_last (λ row. row.sequence) mine new
              (latest_sequence-bounds mine new.sequence (omega (arith, next))))
        ∙ map-append to_entry (order_by (λ row. row.sequence) mine) new)
      ∙ map-append (λ entry. entry.status) (history_of tenant_id order_id rows) (to_entry new)

  -- A row of another order changes nothing in it.
  pub history_of-other :
      is_history_of tenant_id order_id new ≡ false
      → history_of tenant_id order_id (rows ++ new ∷ []) ≡ history_of tenant_id order_id rows
  history_of-other other =
      ap (λ all. map to_entry (order_by (λ row. row.sequence) all))
        (select-insert_other (is_history_of tenant_id order_id) rows new other)
