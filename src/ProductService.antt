-- ===== src/ProductService.antt =====
-- backend/src/services/productService.ts, from the data that backend/src/validators has accepted:
-- Guards checks and decides, Service reads and writes. The other modules are about repeated
-- creation (Creating, Replays, Retry), about changes of status (Permitted, StatusChange), and about
-- what any calls do to the products (Effects, Added, Edited, Repriced, Calls, Stocked, Ownership)
-- and to the history of their prices (Prices, PriceTrail).
pub mod Guards
pub mod Service
pub mod Creating
pub mod Replays
pub mod Retry
pub mod Effects
pub mod Added
pub mod Edited
pub mod Repriced
pub mod Calls
pub mod Prices
pub mod PriceTrail
pub mod Ownership
pub mod Stocked
pub mod Permitted
pub mod StatusChange
