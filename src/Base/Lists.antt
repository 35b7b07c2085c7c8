-- ===== src/Base/Lists.antt =====
-- Lists measured and indexed by native numbers, under the library's names.
use Prim.Native.Nat.{ℕ, zero, suc, ◌+◌, ◌-◌, ◌≤◌, ◌<◌, min}
use mathlib.Core.Path.{◌≡◌, refl, ap}
use mathlib.Core.List.{List, [], ◌∷◌, ◌++◌}
use mathlib.Core.Option.{Option, none, some}
use native.Mathlib.Omega.{arith}

module _ {ℓ} {A : Type ℓ} where
  abbrev pub length : List A → ℕ
  length [] = 0
  length (x ∷ xs) = suc (length xs)

  abbrev pub get_elem? : List A → ℕ → Option A
  get_elem? [] i = none
  get_elem? (x ∷ xs) zero = some x
  get_elem? (x ∷ xs) (suc i) = get_elem? xs i

  -- A write out of range changes nothing.
  abbrev pub set : List A → ℕ → A → List A
  set [] i v = []
  set (x ∷ xs) zero v = v ∷ xs
  set (x ∷ xs) (suc i) v = x ∷ set xs i v

  abbrev pub take : ℕ → List A → List A
  take zero xs = []
  take (suc n) [] = []
  take (suc n) (x ∷ xs) = x ∷ take n xs

  abbrev pub drop : ℕ → List A → List A
  drop zero xs = xs
  drop (suc n) [] = []
  drop (suc n) (x ∷ xs) = drop n xs

  -- A predicate on every element, by recursion.
  abbrev pub All {κ} : (A → Type κ) → List A → Type κ
  All P [] = Unit
  All P (x ∷ xs) = P x × All P xs

  pub length-append : (xs ys : List A) → length (xs ++ ys) ≡ length xs + length ys
  length-append [] ys = omega arith
  length-append (x ∷ xs) ys = omega (arith, length-append xs ys)

  pub take-append-drop : (n : ℕ) (xs : List A) → take n xs ++ drop n xs ≡ xs
  take-append-drop zero xs = refl
  take-append-drop (suc n) [] = refl
  take-append-drop (suc n) (x ∷ xs) = ap (◌∷◌ x) (take-append-drop n xs)

  pub length-take : (n : ℕ) (xs : List A) → length (take n xs) ≡ min n (length xs)
  length-take zero xs = omega arith
  length-take (suc n) [] = omega arith
  length-take (suc n) (x ∷ xs) = omega (arith, length-take n xs)

  pub length-drop : (n : ℕ) (xs : List A) → length (drop n xs) ≡ length xs - n
  length-drop zero xs = omega arith
  length-drop (suc n) [] = omega arith
  length-drop (suc n) (x ∷ xs) = omega (arith, length-drop n xs)

module _ {ℓ} {A : Type ℓ} where
  -- The first element that `drop` leaves.
  pub drop-eq-cons :
      (i : ℕ) (xs : List A) {x : A} {r : List A}
      → drop i xs ≡ x ∷ r
      → (get_elem? xs i ≡ some x) × (drop (suc i) xs ≡ r) × (i < length xs)
  drop-eq-cons zero [] e = cc
  drop-eq-cons zero (y ∷ ys) e = (cc, cc, omega arith)
  drop-eq-cons (suc i) [] e = cc
  drop-eq-cons (suc i) (y ∷ ys) e =
      let (a, b, c) = drop-eq-cons i ys e in (a, drop_suc ys b, omega arith)
    where
      drop_suc : (ys : List A) {r : List A} → drop (suc i) ys ≡ r → drop (suc (suc i)) (y ∷ ys) ≡ r
      drop_suc ys e = e

  pub drop-eq-nil : (i : ℕ) (xs : List A) → drop i xs ≡ [] → i ≤ length xs → i ≡ length xs
  drop-eq-nil zero [] e h = refl
  drop-eq-nil zero (y ∷ ys) e h = cc
  drop-eq-nil (suc i) [] e h = absurd (omega arith)
  drop-eq-nil (suc i) (y ∷ ys) e h = ap suc (drop-eq-nil i ys e (omega arith))

  pub some_injective : {x y : A} → some x ≡ some y → x ≡ y
  some_injective e = cc
