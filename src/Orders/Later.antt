-- ===== src/Orders/Later.antt =====
-- What may become of an order's row.
use ufsc_dso2_trabalho1_merc.Prelude.{◌≡◌, ◌⊎◌, inl, inr, refl}
use ufsc_dso2_trabalho1_merc.OrderStatus.{OrderStatus, delivered, cancelled}
use ufsc_dso2_trabalho1_merc.OrderStatus.Lifecycle.{
  Moves, confirm, ship, deliver, cancel_placed, cancel_confirmed,
}
use ufsc_dso2_trabalho1_merc.Database.{Date, OrderRow}

-- The row, or a later one: only the status moves, by steps of the life cycle, and the date of the
-- last change with it.
pub data Later (row : OrderRow) : OrderRow → Type 0 where
  unmoved : Later row row
  moved :
      {mid : OrderRow} (to : OrderStatus) (date : Date)
      → Later row mid
      → Moves mid.status to
      → Later row (record mid { status = to; updated_at = date })

abbrev pub IsFinal : OrderStatus → Type 0
IsFinal status = (status ≡ delivered) ⊎ (status ≡ cancelled)

Moves-IsFinal : {from to : OrderStatus} → Moves from to → IsFinal from → ⊥
Moves-IsFinal confirm (inl f) = cc f
Moves-IsFinal confirm (inr f) = cc f
Moves-IsFinal ship (inl f) = cc f
Moves-IsFinal ship (inr f) = cc f
Moves-IsFinal deliver (inl f) = cc f
Moves-IsFinal deliver (inr f) = cc f
Moves-IsFinal cancel_placed (inl f) = cc f
Moves-IsFinal cancel_placed (inr f) = cc f
Moves-IsFinal cancel_confirmed (inl f) = cc f
Moves-IsFinal cancel_confirmed (inr f) = cc f

-- A delivered or cancelled order has no later row but itself.
pub Later-IsFinal : {row row' : OrderRow} → IsFinal row.status → Later row row' → row' ≡ row
Later-IsFinal final unmoved = refl
Later-IsFinal final (moved {mid} to date before moves) =
    let same = Later-IsFinal final before in elim (Moves-IsFinal moves (rw same final)) [ ]

pub Later-trans : {row mid end : OrderRow} → Later row mid → Later mid end → Later row end
Later-trans first unmoved = first
Later-trans first (moved to date before moves) = moved to date (Later-trans first before) moves
