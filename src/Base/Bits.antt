-- ===== src/Base/Bits.antt =====
-- `&` and `|` on words: the equation for the lowest digit, and the split of a word into fields.
use Prim.Native.Nat.{
  ℕ, zero, suc, ◌+◌, ◌*◌, ◌/◌, ◌%◌, ◌^◌, ◌≤◌, ◌<◌, ◌-◌, min, max, digits, bit_and, bit_or, bitwise,
  bit_and-bitwise, bit_or-bitwise,
}
use mathlib.Core.Path.{◌≡◌, refl, ap}
use native.Mathlib.Nat.{pow-suc, one-le-pow}
use native.Mathlib.Omega.{arith}

-- The native operations are defined by a recursion on binary digits whose fuel is the first
-- number; the recursion reads only as much fuel as that number has digits.
module _ (rest : ℕ → ℕ) (bit : ℕ → ℕ → ℕ) where
  fuels_agree : {x : ℕ} (y k l : ℕ) → x ≤ k → x ≤ l → digits rest bit k x y ≡ digits rest bit l x y
  fuels_agree {x = zero} y zero zero hk hl = refl
  fuels_agree {x = zero} y zero (suc l) hk hl = refl
  fuels_agree {x = zero} y (suc k) zero hk hl = refl
  fuels_agree {x = zero} y (suc k) (suc l) hk hl = refl
  fuels_agree {x = suc x} y zero l hk hl = absurd (omega arith)
  fuels_agree {x = suc x} y (suc k) zero hk hl = absurd (omega arith)
  fuels_agree {x = suc x} y (suc k) (suc l) hk hl =
      ap (λ (t : ℕ). t * 2 + bit (suc x % 2) (y % 2))
        (fuels_agree {x = suc x / 2} (y / 2) k l (omega arith) (omega arith))

  low_digit :
      (x y : ℕ)
      → bitwise rest bit (suc x) y
        ≡ bitwise rest bit (suc x / 2) (y / 2) * 2 + bit (suc x % 2) (y % 2)
  low_digit x y =
      ap (λ (t : ℕ). t * 2 + bit (suc x % 2) (y % 2))
        (fuels_agree {x = suc x / 2} (y / 2) x (suc x / 2) (omega arith) (omega arith))

pub bit_and_step : (x y : ℕ) → bit_and x y ≡ bit_and (x / 2) (y / 2) * 2 + min (x % 2) (y % 2)
bit_and_step zero y = simp bit_and-bitwise (omega arith)
bit_and_step (suc x) y = simp bit_and-bitwise (low_digit (λ t. 0) min x y)

pub bit_or_step : (x y : ℕ) → bit_or x y ≡ bit_or (x / 2) (y / 2) * 2 + max (x % 2) (y % 2)
bit_or_step zero y = simp bit_or-bitwise (omega arith)
bit_or_step (suc x) y = simp bit_or-bitwise (low_digit (λ t. t) max x y)

shift_once : (q k : ℕ) → q * 2 ^ suc k ≡ 2 * (q * 2 ^ k)
shift_once q k = grind (arith, pow-suc 2 k)

-- A word with `k` low bits `r` below the bits `q`.
abbrev pub field : ℕ → ℕ → ℕ → ℕ
field k q r = q * 2 ^ k + r

-- An operation that works bit by bit acts on the two parts of a word separately.
module _ (op g : ℕ → ℕ → ℕ) (op_zero : op 0 0 ≡ 0)
    (op_step : (a b : ℕ) → op a b ≡ op (a / 2) (b / 2) * 2 + g (a % 2) (b % 2)) where
  op-field :
      (k q p r t : ℕ)
      → r < 2 ^ k
      → t < 2 ^ k
      → op (field k q r) (field k p t) ≡ field k (op q p) (op r t)
  op-field zero q p r t hr ht = ground (arith, op_zero)
  op-field (suc k) q p r t hr ht = ground (
    arith,
    op_step (field (suc k) q r) (field (suc k) p t),
    op_step r t,
    shift_once q k,
    shift_once p k,
    shift_once (op q p) k,
    pow-suc 2 k,
    op-field k q p (r / 2) (t / 2),
  )

pub bit_or-field :
    (k q p r t : ℕ)
    → r < 2 ^ k
    → t < 2 ^ k
    → bit_or (field k q r) (field k p t) ≡ field k (bit_or q p) (bit_or r t)
bit_or-field = op-field bit_or max refl bit_or_step

pub bit_and-field :
    (k q p r t : ℕ)
    → r < 2 ^ k
    → t < 2 ^ k
    → bit_and (field k q r) (field k p t) ≡ field k (bit_and q p) (bit_and r t)
bit_and-field = op-field bit_and min refl bit_and_step

pub zero-bit_or : (b : ℕ) → bit_or 0 b ≡ b
zero-bit_or b = simp bit_or-bitwise

-- No bits on the right: `|` keeps the word and `&` clears it.
with_no_bits : (bound x : ℕ) → x ≤ bound → (bit_or x 0 ≡ x) × (bit_and x 0 ≡ 0)
with_no_bits bound zero within = (refl, refl)
with_no_bits zero (suc x) within = absurd (omega arith)
with_no_bits (suc bound) (suc x) within =
    let (kept, cleared) = with_no_bits bound (suc x / 2) (omega arith) in
    (omega (arith, bit_or_step (suc x) 0, kept), omega (arith, bit_and_step (suc x) 0, cleared))

pub bit_or-zero : (x : ℕ) → bit_or x 0 ≡ x
bit_or-zero x = (with_no_bits x x (omega arith)).0

pub bit_and-zero : (x : ℕ) → bit_and x 0 ≡ 0
bit_and-zero x = (with_no_bits x x (omega arith)).1

pub zero-bit_and : (word : ℕ) → bit_and 0 word ≡ 0
zero-bit_and word = simp bit_and-bitwise

-- All ones in the low `k` bits keep a number of `k` bits.
bit_and_ones : (k r : ℕ) → r < 2 ^ k → bit_and r (2 ^ k - 1) ≡ r
bit_and_ones zero r h = ground (arith, bit_and-zero r)
bit_and_ones (suc k) r h =
    ground
      (arith, bit_and_step r (2 ^ suc k - 1), pow-suc 2 k, one-le-pow k 2, bit_and_ones k (r / 2))

-- `x & (2^k - 1)` is the remainder by `2^k`.
pub bit_and_mask : (k x : ℕ) → bit_and x (2 ^ k - 1) ≡ x % 2 ^ k
bit_and_mask k x = ground (
  arith,
  one-le-pow k 2,
  bit_and-field k (x / 2 ^ k) 0 (x % 2 ^ k) (2 ^ k - 1),
  bit_and-zero (x / 2 ^ k),
  bit_and_ones k (x % 2 ^ k),
)

-- A mask whose low `k` bits are ones keeps a number of `k` bits.
pub bit_and_keep : (k m r : ℕ) → r < 2 ^ k → bit_and r (field k m (2 ^ k - 1)) ≡ r
bit_and_keep k m r h =
    ground
      (arith, one-le-pow k 2, bit_and-field k 0 m r (2 ^ k - 1), zero-bit_and m, bit_and_ones k r)

-- Fields that do not overlap are joined by a sum.
pub bit_or_join : (k q r : ℕ) → r < 2 ^ k → bit_or (q * 2 ^ k) r ≡ field k q r
bit_or_join k q r h =
    ground (arith, one-le-pow k 2, bit_or-field k q 0 0 r, bit_or-zero q, zero-bit_or r)

pub bit_or_join_left : (k q r : ℕ) → r < 2 ^ k → bit_or r (q * 2 ^ k) ≡ field k q r
bit_or_join_left k q r h =
    ground (arith, one-le-pow k 2, bit_or-field k 0 q r 0, zero-bit_or q, bit_or-zero r)
