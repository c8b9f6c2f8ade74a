-- ===== src/Cache.antt =====
-- The cache: the in-process backend (app/cache/memory.py) and the service in front of a backend
-- (app/services/cache.py).
pub mod Memory
pub mod Rate
pub mod Service
pub mod Circuit
pub mod Contents
mod Tests
