-- ===== src/MemoryStore/GridCache/Bytes.antt =====
-- What `memset` of GridCache.cpp writes.
use api_pack.Base.{
  ℕ, zero, suc, ◌-◌, ◌<◌, ◌≤◌, ◌≡◌, refl, ap, arith, List, [], ◌∷◌, ◌++◌, length, drop,
}
use api_pack.MemoryStore.GridCache.{fill_zero}

unfoldable pub zeros : ℕ → List ℕ
zeros zero = []
zeros (suc n) = 0 ∷ zeros n

-- `memset` of less than the object leaves its last bytes; of more, it goes on behind the object.
pub fill_zero_lem : (n : ℕ) (bytes : List ℕ) → (fill_zero n bytes).1 ≡ n - length bytes
unfolding fill_zero
fill_zero_lem zero bytes = omega arith
fill_zero_lem (suc n) [] = omega arith
fill_zero_lem (suc n) (b ∷ bytes) = omega (arith, fill_zero_lem n bytes)

pub fill_zero_all :
    (n : ℕ) (bytes : List ℕ) → length bytes < suc n → (fill_zero n bytes).0 ≡ zeros (length bytes)
unfolding fill_zero zeros
fill_zero_all zero [] h = refl
fill_zero_all zero (b ∷ bytes) h = absurd (omega arith)
fill_zero_all (suc n) [] h = refl
fill_zero_all (suc n) (b ∷ bytes) h = ap (◌∷◌ 0) (fill_zero_all n bytes (omega arith))

-- The bytes up to the object's end are zeros and then the object's own.
pub fill_zero_part :
    (n : ℕ) (bytes : List ℕ) → n ≤ length bytes → (fill_zero n bytes).0 ≡ zeros n ++ drop n bytes
unfolding fill_zero zeros
fill_zero_part zero bytes h = refl
fill_zero_part (suc n) [] h = absurd (omega arith)
fill_zero_part (suc n) (b ∷ bytes) h = ap (◌∷◌ 0) (fill_zero_part n bytes (omega arith))
