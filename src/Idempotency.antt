-- ===== src/Idempotency.antt =====
-- src/idempotency/guard.py: the context manager and the decorator, over any store.
pub mod Guard
pub mod Decorator
