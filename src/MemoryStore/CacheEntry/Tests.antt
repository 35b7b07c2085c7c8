-- ===== src/MemoryStore/CacheEntry/Tests.antt =====
-- An entry with two users, of which one leaves.
use api_pack.Base.{◌≡◌, refl, arith, true, false, some, [], ◌∷◌, not, ◌%◌, ◌^◌, ◌==◌}
use api_pack.MemoryStore.CacheEntry.{CacheEntry, locked}
use api_pack.MemoryStore.CacheEntry.Locks.{calls, locked-calls}

abbrev idle : CacheEntry
idle = record { data_object = some 64; meta = record { ttl = 3600; lock_count = 0 } }

locked-calls_example :
    (locked (calls (true ∷ true ∷ false ∷ []) idle) ≡ not (1 % 2 ^ 16 == 0))
    × (((calls (true ∷ true ∷ false ∷ []) idle).meta).ttl ≡ 3600)
    × ((calls (true ∷ true ∷ false ∷ []) idle).data_object ≡ some 64)
locked-calls_example = locked-calls (true ∷ true ∷ false ∷ []) idle 1 (omega arith) refl
