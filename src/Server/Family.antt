-- ===== src/Server/Family.antt =====
-- Sums over a list, and a write into it.
use mathlib.Core.Path.{subst}
use api_pack.Base.{
  some_injective, ℕ, zero, suc, ◌+◌, ◌*◌, ◌≤◌, ◌<◌, ◌≡◌, refl, inl, inr, arith, ltb, ltb→lt,
  Bool-cases, some, List, [], ◌∷◌, length, get_elem?, set, All,
}

module _ {ℓ} {A : Type ℓ} where
  abbrev pub total : (A → ℕ) → List A → ℕ
  total w [] = 0
  total w (x ∷ xs) = w x + total w xs

  pub total-set :
      (w : A → ℕ) (xs : List A) (i : ℕ) (a b : A)
      → get_elem? xs i ≡ some a
      → total w (set xs i b) + w a ≡ total w xs + w b
  total-set w [] i a b e = cc
  total-set w (x ∷ xs) zero a b e = ground arith
  total-set w (x ∷ xs) (suc i) a b e = omega (arith, total-set w xs i a b e)

  pub get-le-total :
      (w : A → ℕ) (xs : List A) (i : ℕ) (a : A) → get_elem? xs i ≡ some a → w a ≤ total w xs
  get-le-total w [] i a e = cc
  get-le-total w (x ∷ xs) zero a e = ground arith
  get-le-total w (x ∷ xs) (suc i) a e = omega (arith, get-le-total w xs i a e)

  pub total-le :
      (w : A → ℕ) (n : ℕ) (xs : List A) → All (λ x. w x ≤ n) xs → total w xs ≤ length xs * n
  total-le w n [] h = omega arith
  total-le w n (x ∷ xs) h = grind (arith, total-le w n xs h.1)

  pub length-set : (xs : List A) (i : ℕ) (b : A) → length (set xs i b) ≡ length xs
  length-set [] i b = refl
  length-set (x ∷ xs) zero b = refl
  length-set (x ∷ xs) (suc i) b = omega (arith, length-set xs i b)

  pub All-set {κ} :
      (P : A → Type κ) (xs : List A) (i : ℕ) (b : A) → All P xs → P b → All P (set xs i b)
  All-set P [] i b h p = tt
  All-set P (x ∷ xs) zero b h p = (p, h.1)
  All-set P (x ∷ xs) (suc i) b h p = (h.0, All-set P xs i b h.1 p)

  pub All-get {κ} :
      (P : A → Type κ) (xs : List A) (i : ℕ) (a : A) → All P xs → get_elem? xs i ≡ some a → P a
  All-get P [] i a h e = cc
  All-get P (x ∷ xs) zero a h e = subst P (some_injective e) h.0
  All-get P (x ∷ xs) (suc i) a h e = All-get P xs i a h.1 e

  -- If the sum stays below the bound on all, one of the weights stays below the bound on each.
  pub some-below :
      (w : A → ℕ) (n : ℕ) (xs : List A)
      → total w xs < length xs * n
      → (i : ℕ) × (x : A) × (get_elem? xs i ≡ some x) × (w x < n)
  some-below w n [] l = absurd (omega (arith, l))
  some-below w n (x ∷ xs) l = elim (Bool-cases (ltb (w x) n)) [
    | inl t ↦ (0, x, refl, ltb→lt (w x) n t)
    | inr f ↦ let (i, y, e, below) = some-below w n xs (grind (arith, l, f)) in (suc i, y, e, below)
  ]
