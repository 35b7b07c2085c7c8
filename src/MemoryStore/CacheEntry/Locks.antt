-- ===== src/MemoryStore/CacheEntry/Locks.antt =====
-- How many users hold an entry of CacheEntry.h.
use api_pack.Base.{
  ℕ, suc, ◌+◌, ◌%◌, ◌^◌, ◌<◌, ◌≡◌, refl, arith, Bool, true, false, not, ◌==◌, List, [], ◌∷◌,
}
use api_pack.MemoryStore.CacheEntry.{
  CacheEntry, CacheEntryMeta, value, of_value, locked, lock, unlock,
}

-- Calls of `lock` (true) and `unlock` (false), the first one first.
unfoldable pub calls : List Bool → CacheEntry → CacheEntry
unfolding lock unlock
calls [] e = e
calls (true ∷ rest) e = calls rest (lock e)
calls (false ∷ rest) e = calls rest (unlock e)

abbrev pub count_of : Bool → List Bool → ℕ
count_of b [] = 0
count_of true (true ∷ rest) = suc (count_of true rest)
count_of true (false ∷ rest) = count_of true rest
count_of false (true ∷ rest) = count_of false rest
count_of false (false ∷ rest) = suc (count_of false rest)

calls-lock_count :
    (cs : List Bool) (e : CacheEntry)
    → (((calls cs e).meta).lock_count + count_of false cs) % 2 ^ 16
      ≡ ((e.meta).lock_count + count_of true cs) % 2 ^ 16
unfolding calls lock unlock
calls-lock_count [] e = refl
calls-lock_count (true ∷ rest) e = omega (arith, calls-lock_count rest (lock e))
calls-lock_count (false ∷ rest) e = omega (arith, calls-lock_count rest (unlock e))

calls_keep :
    (cs : List Bool) (e : CacheEntry)
    → (e.meta).lock_count < 2 ^ 16
    → (((calls cs e).meta).ttl ≡ (e.meta).ttl)
      × ((calls cs e).data_object ≡ e.data_object)
      × (((calls cs e).meta).lock_count < 2 ^ 16)
unfolding calls lock unlock
calls_keep [] e h = (refl, refl, h)
calls_keep (true ∷ rest) e h = calls_keep rest (lock e) (omega arith)
calls_keep (false ∷ rest) e h = calls_keep rest (unlock e) (omega arith)

-- After any calls of `lock` and `unlock`, no more of the second than of the first together with the
-- users at the start, the entry is locked exactly if the number of users that are left is not a
-- multiple of 2^16: the 65536th user unlocks it. The time to live and the object are as they were.
pub locked-calls :
    (cs : List Bool) (e : CacheEntry) (users : ℕ)
    → (e.meta).lock_count < 2 ^ 16
    → users + count_of false cs ≡ (e.meta).lock_count + count_of true cs
    → (locked (calls cs e) ≡ not (users % 2 ^ 16 == 0))
      × (((calls cs e).meta).ttl ≡ (e.meta).ttl)
      × ((calls cs e).data_object ≡ e.data_object)
unfolding locked
locked-calls cs e users h left =
    let (t, d, small) = calls_keep cs e h in
    (ground (arith, left, small, calls-lock_count cs e), t, d)

-- The word of an entry's fields is read back as the fields, and a word is written as it was.
pub of_value-value :
    (meta : CacheEntryMeta) (v : ℕ)
    → meta.ttl < 2 ^ 48
    → meta.lock_count < 2 ^ 16
    → v < 2 ^ 64
    → (of_value (value meta) ≡ meta) × (value (of_value v) ≡ v)
unfolding of_value value
of_value-value meta v ht hl hv = (cc (fields, counts), omega arith)
  where
    fields : (of_value (value meta)).ttl ≡ meta.ttl
    fields = unfold of_value value in omega arith

    counts : (of_value (value meta)).lock_count ≡ meta.lock_count
    counts = unfold of_value value in omega arith
