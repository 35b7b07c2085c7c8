-- ===== src/MemoryStore.antt =====
-- source/memorystore: the cache of the stations' schedules and its entries. CacheStatistics.h has
-- fields only, which nothing sets.
pub mod CacheEntry
pub mod GridCache
