-- ===== src/Utils/ObjectPool/Items.antt =====
-- How often an item of ObjectPool.h stands in a list.
use api_pack.Base.{
  ℕ, zero, suc, ◌+◌, ◌≤◌, ◌≡◌, arith, Bool, ◌&&◌, List, [], ◌∷◌, ◌++◌, ◌==◌, ltb, leb, length,
  if◌then◌else◌,
}
use api_pack.Utils.ObjectPool.{Item, push_block, push_blocks}

abbrev pub is_item : Item → Item → Bool
is_item x y = (x.block == y.block) && (x.index == y.index)

unfoldable pub count : Item → List Item → ℕ
count x [] = 0
count x (y ∷ ys) = if is_item x y then suc (count x ys) else count x ys

abbrev pub sum : List ℕ → ℕ
sum [] = 0
sum (n ∷ ns) = n + sum ns

-- An item is in a block at most once, and in no other block.
pub count-push_block :
    (x : Item) (b i n : ℕ) (free : List Item)
    → count x (push_block b i n free) ≡ (
        if (x.block == b) && (leb i x.index && ltb x.index (i + n))
        then suc (count x free)
        else count x free)
unfolding count push_block
count-push_block x b i zero free = ground arith
count-push_block x b i (suc n) free = ground (arith, count-push_block x b (suc i) n free)

pub length-push_block :
    (b i n : ℕ) (free : List Item) → length (push_block b i n free) ≡ n + length free
unfolding push_block
length-push_block b i zero free = omega arith
length-push_block b i (suc n) free = omega (arith, length-push_block b (suc i) n free)

pub count-push_blocks :
    (x : Item) (b : ℕ) (counts : List ℕ) (free : List Item)
    → (b ≤ x.block → count x free ≡ 0)
    → count x free ≤ 1
    → (count x (push_blocks b counts free) ≤ 1)
      × (b + length counts ≤ x.block → count x (push_blocks b counts free) ≡ 0)
unfolding push_blocks
count-push_blocks x b [] free h k = (k, λ l. h (omega arith))
count-push_blocks x b (n ∷ counts) free h k =
    let c = count-push_block x b 0 n free in
    let (once, later) =
      count-push_blocks x (suc b) counts (push_block b 0 n free)
        (λ l. ground (arith, c, h (omega arith))) (ground (arith, c, h)) in
    (once, λ l. later (omega arith))

pub length-push_blocks :
    (b : ℕ) (counts : List ℕ) (free : List Item)
    → length (push_blocks b counts free) ≡ sum counts + length free
unfolding push_blocks
length-push_blocks b [] free = omega arith
length-push_blocks b (n ∷ counts) free =
    omega (
      arith,
      length-push_blocks (suc b) counts (push_block b 0 n free),
      length-push_block b 0 n free,
    )

pub sum-snoc : (ns : List ℕ) (n : ℕ) → sum (ns ++ (n ∷ [])) ≡ sum ns + n
sum-snoc [] n = omega arith
sum-snoc (m ∷ ns) n = omega (arith, sum-snoc ns n)
