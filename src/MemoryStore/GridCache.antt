-- ===== src/MemoryStore/GridCache.antt =====
-- source/memorystore/GridCache.h and GridCache.cpp: an array of entries for each station, made when
-- it is first asked for. The bytes of the object `std::vector` are kept, since `memset` writes over
-- them; a pointer to an array is its place in the order of allocation.
pub mod Bytes
pub mod Arrays
mod Tests
use api_pack.Base.{
  ℕ, zero, suc, ◌+◌, ◌*◌, ◌%◌, ◌^◌, Bool, true, false, Option, none, some, List, [], ◌∷◌, ◌++◌,
  ◌==◌, length, if◌then◌else◌,
}

-- `memset(bytes, 0, n)`: the bytes of the object, and how many were written behind its end.
unfoldable pub fill_zero : ℕ → List ℕ → List ℕ × ℕ
fill_zero zero bytes = (bytes, 0)
fill_zero (suc n) [] = ([], suc n)
fill_zero (suc n) (b ∷ bytes) = let (filled, past) = fill_zero n bytes in (0 ∷ filled, past)

-- The object of a `CacheEntryArray` made with `size` entries.
pub record CacheEntryArray : Type 0 where
  pub size : ℕ
  pub bytes : List ℕ
  pub past_end : ℕ

unfoldable pub find_array : ℕ → List (ℕ × ℕ) → Option ℕ
find_array station [] = none
find_array station ((s, k) ∷ cache) = if s == station then some k else find_array station cache

-- `new_vector n` are the bytes of a vector of `n` entries, as the standard library lays it out.
module _ (new_vector : ℕ → List ℕ) where
  pub record GridCache : Type 0 where
    pub days_back : ℕ
    pub days_forward : ℕ
    pub num_stations : ℕ
    pub cache : List (ℕ × ℕ)
    pub arrays : List CacheEntryArray

  -- `GridCache(numberOfDaysBack, numberOfDaysForward, numberOfStations)`.
  unfoldable pub construct : ℕ → ℕ → ℕ → GridCache
  construct back forward stations = record {
    days_back = back;
    days_forward = forward;
    num_stations = stations;
    cache = [];
    arrays = [];
  }

  -- `new CacheEntryArray(n)` and the call of `memset`, whose `&entry[0]` is the vector itself.
  unfoldable pub new_array : ℕ → CacheEntryArray
  unfolding fill_zero
  new_array n =
      let (bytes, past) = fill_zero n (new_vector n) in
      record { size = n; bytes = bytes; past_end = past }

  array_found : Option ℕ → GridCache → ℕ → Bool → GridCache × Option ℕ
  unfolding new_array
  array_found (some k) g station create_if_missing = (g, some k)
  array_found none g station true = (
    record g {
      cache = (station, length g.arrays) ∷ g.cache;
      arrays = g.arrays ++ (new_array ((g.days_back * g.days_forward) % 2 ^ 64) ∷ []);
    },
    some (length g.arrays),
  )
  array_found none g station false = (g, none)

  -- `array(station, createIfMissing)`; `none` is the null pointer.
  unfoldable pub array : GridCache → ℕ → Bool → GridCache × Option ℕ
  unfolding array_found find_array
  array g station create_if_missing =
      array_found (find_array station g.cache) g station create_if_missing

  -- `~GridCache()` has an empty body: it frees no array.
  unfoldable pub destruct : GridCache → GridCache
  destruct g = g
