-- ===== src/MemoryStore/GridCache/Tests.antt =====
-- The cache of two stations, over vectors whose object has 24 bytes, 5 days back and 5 forward.
use api_pack.Base.{ℕ, ◌≡◌, ◌↔◌, refl, true, false, some, List, [], ◌∷◌}
use api_pack.MemoryStore.GridCache.{construct, array, find_array}
use api_pack.MemoryStore.GridCache.Arrays.{Filled, calls, calls-construct, array-calls}

-- Three pointers, which are not null, of eight bytes each.
abbrev new_vector : ℕ → List ℕ
new_vector n =
    1 ∷ 1 ∷ 1 ∷ 1 ∷ 1 ∷ 1 ∷ 1 ∷ 1 ∷ 1 ∷ 1 ∷ 1 ∷ 1 ∷ 1 ∷ 1 ∷ 1 ∷ 1 ∷ 1 ∷ 1 ∷ 1 ∷ 1 ∷ 1 ∷ 1 ∷ 1 ∷ 1
    ∷ []

calls-construct_example :
    Filled new_vector 5 5
      (calls new_vector ((10003, true) ∷ (7, true) ∷ []) (construct new_vector 5 5 100))
calls-construct_example = calls-construct new_vector 5 5 100 ((10003, true) ∷ (7, true) ∷ [])

array-calls_example :
    (array new_vector
        (calls new_vector
          ((7, true) ∷ [])
          (array new_vector (construct new_vector 5 5 100) 10003 true).0)
        10003
        false
      ≡ (
        calls new_vector
            ((7, true) ∷ [])
            (array new_vector (construct new_vector 5 5 100) 10003 true).0,
        some 0,
      ))
    × (◌≡◌ {A = ℕ} 0 1 ↔ ◌≡◌ {A = ℕ} 10003 7)
unfolding calls array find_array construct
array-calls_example =
    array-calls new_vector 5 5 100 [] ((7, true) ∷ []) 10003 7 0 1 true false refl refl
