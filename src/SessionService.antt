-- ===== src/SessionService.antt =====
-- backend/src/services/sessionService.ts: Steps has the data and the branches, Service the calls.
-- The other modules are about what any calls make of a session (Later, Updates, Rotating, Calls),
-- about sessions that are not active (Expired), and about rotations by earlier tokens and by the
-- current one (Reuse, Success, Once), and about clean-ups beside rotations (CleanUp).
pub mod Steps
pub mod Service
pub mod Later
pub mod Updates
pub mod Rotating
pub mod Calls
pub mod Expired
pub mod Reuse
pub mod Success
pub mod Once
pub mod CleanUp
