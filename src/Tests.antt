-- ===== src/Tests.antt =====
-- Runs of the model on a small marketplace, and each theorem at such a run.
mod Fixtures
mod Runs
mod Checkout
mod Products
mod Sessions
mod Reviews
mod Watchlist
mod Pricing
mod Fulfilment
mod Marketplace
