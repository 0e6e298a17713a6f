-- ===== src/Lib.antt =====
-- The backend of MercadoZetta, a multi-tenant marketplace: sellers list products, buyers fill a
-- cart, get a quote and place an order, and the order moves along its life cycle.
--
-- Parts, by module and by file under backend/src:
--   Money            money.ts
--   Tenants          tenants.ts
--   OrderStatus      orderStatus.ts; Lifecycle is the life cycle as a relation
--   ProductStatus    productStatus.ts
--   Result, Action   errors/AppError.ts and the transactions of repositories/checkoutTransaction.ts:
--                    a service that throws is an error value; one that writes passes the database
--   Sql, Database    the queries of Drizzle as functions on lists, and the rows of database/schema.ts
--   Products         repositories/postgres/productRepository.ts, repositories/mappers.ts
--   Carts, Orders, OrderItems  repositories/postgres/checkoutRepositories.ts
--   Events           notifications and audit events, of the same file and auditEventRepository.ts
--   Delivery         services/deliveryOptions.ts and the address that a checkout looks up
--   Pricing          services/checkoutPricing.ts (calculateCheckoutQuote)
--   Checkout         services/checkoutService.ts (createOrder, getCheckoutQuote): Plan is what it
--                    reads and decides, Persist what it writes, Service the two together
--   Fulfilment       services/commerceService.ts (updateOrderStatus)
--   Idempotency      repositories/postgres/mutationIdempotencyRepository.ts
--   ProductService   services/productService.ts: Guards is what it checks and decides, Service what
--                    it does
--   Sessions         repositories/postgres/sessionRepository.ts; Security is the part of
--                    services/sessionSecurityService.ts about refresh tokens and expiry
--   SessionService   services/sessionService.ts: Steps has the branches, Service the calls
--   Reviews, Watchlist  repositories/postgres/commerceRepositories.ts, with createReview and
--                    addWatchlist of services/commerceService.ts
--   Marketplace      sequences of the calls of checkout, orders, carts and notifications, as
--                    relations between databases
--   Tests            runs on a small marketplace
--
-- A table is the list of its rows. An UPDATE maps the rows that its condition selects, a DELETE
-- filters them out, an INSERT appends, and LIMIT 1 takes the first row. A function of the source
-- with a given name has here the same name in snake case. `randomUUID()` and `new Date()` are
-- parameters, one for each call in the source (the records Env); a UUID is a number, in the order
-- that PostgreSQL gives UUIDs, and a date its milliseconds. The modelled calls that Marketplace puts
-- in sequences are createOrder, updateOrderStatus, setItem, removeItem and updateRead, where the id
-- of a new order names no row yet. ProductService.Calls puts createProduct, updateProduct,
-- updateProductStatus and updateProductInventory in sequences, and SessionService.Calls
-- createSession, rotateSession, revokeSession and revokeAllSessions.
--
-- Code that is not in the repository is a parameter: the hashes of a quote's fingerprint and of a
-- request, the HMAC of a refresh token, the signature of an access token, toLowerCase, and Drizzle's
-- transaction, of which only this is used: work that returns is committed with its result, and
-- work that throws leaves the database as it was. A transaction runs alone, so the row locks
-- (`for('update')`) do nothing here. The CSRF token, whose nonce is random, is a parameter too, and
-- a refresh token is its two parts or a text of another form. Services start from the data that the
-- validators have accepted.
--
-- Loops are structural recursion on the rows or the items, so no fuel is used. Amounts are ℕ, as
-- the bigint of the source; the schema keeps them nonnegative and up to nine quadrillion.
--
-- Not modelled: listings and pagination, which only read, the texts of errors, HTTP, the zod
-- schemas of the validators, configuration, scripts and the frontend, which are I/O and glue; and
-- the services of accounts, e-mail changes, address books and data cleanup.
pub mod Prelude
pub mod Sql
pub mod Result
pub mod Action
pub mod Money
pub mod Tenants
pub mod OrderStatus
pub mod ProductStatus
pub mod Database
pub mod Products
pub mod Carts
pub mod Orders
pub mod OrderItems
pub mod Events
pub mod Delivery
pub mod Pricing
pub mod Checkout
pub mod Fulfilment
pub mod Idempotency
pub mod ProductService
pub mod Sessions
pub mod SessionService
pub mod Reviews
pub mod Watchlist
pub mod Marketplace
mod Tests
