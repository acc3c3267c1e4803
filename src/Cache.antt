-- ===== src/Cache.antt =====
-- pkg/util/cache: the least-recently-used cache, the cache in memory with expiry and the cache in
-- Redis, with what pkg/util/redis does of its own.
pub mod Lru
pub mod InMem
pub mod Redis
pub mod Shared
pub mod Samples
mod Tests
