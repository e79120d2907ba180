-- ===== src/Coroutine.antt =====
-- The coroutine helpers: include/obelisk/core/coroutine.
pub mod Mutex
