-- ===== src/MemoryStore/CacheEntry.antt =====
-- source/memorystore/CacheEntry.h: an object of the cache with its time to live and the number of its
-- users, which share 64 bits: 48 of them and 16.
pub mod Locks
mod Tests
use api_pack.Base.{ℕ, ◌+◌, ◌-◌, ◌*◌, ◌/◌, ◌%◌, ◌^◌, Bool, Option, ltb}

-- The union CacheEntryMeta by its bit fields.
pub record CacheEntryMeta : Type 0 where
  pub ttl : ℕ
  pub lock_count : ℕ

-- The union's `value`, and a write to it.
unfoldable pub value : CacheEntryMeta → ℕ
value meta = meta.ttl + 2 ^ 48 * meta.lock_count

unfoldable pub of_value : ℕ → CacheEntryMeta
of_value v = record { ttl = v % 2 ^ 48; lock_count = v / 2 ^ 48 % 2 ^ 16 }

-- `data` is the address of the object; `none` is the null pointer.
pub record CacheEntry : Type 0 where
  pub data_object : Option ℕ
  pub meta : CacheEntryMeta

unfoldable pub locked : CacheEntry → Bool
locked e = ltb 0 (e.meta).lock_count

unfoldable pub lock : CacheEntry → CacheEntry
lock e = record e { meta = record (e.meta) { lock_count = ((e.meta).lock_count + 1) % 2 ^ 16 } }

-- 0 wraps around to 2^16 - 1.
unfoldable pub unlock : CacheEntry → CacheEntry
unlock e = record e {
  meta = record (e.meta) { lock_count = ((e.meta).lock_count + (2 ^ 16 - 1)) % 2 ^ 16 };
}
