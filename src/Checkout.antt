-- ===== src/Checkout.antt =====
-- backend/src/services/checkoutService.ts. All reads of `createOrderInTransaction` come before its
-- first write, so it is a plan that reads (Plan) and a chain of writes (Persist), put together in
-- Service. The other modules are about what an order is worth, what it does to the tables, retries,
-- and when it succeeds.
pub mod Plan
pub mod Persist
pub mod Service
pub mod Planning
pub mod Lines
pub mod Writes
pub mod Placing
pub mod Amounts
pub mod Stock
pub mod Retry
pub mod Cart
pub mod Recorded
pub mod Supply
pub mod Later
pub mod Notified
pub mod Loop
pub mod Completes
pub mod Success
