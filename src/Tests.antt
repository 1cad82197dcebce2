-- ===== src/Tests.antt =====
-- Runs of the components, and the theorems at concrete inputs.
mod Fixtures
mod Stores
mod Callers
mod Consuming
mod Outboxes
mod Failing
mod Raising
mod Handling
mod Starting
mod Agreeing
mod Working
mod Unanswering
mod Unstorable
