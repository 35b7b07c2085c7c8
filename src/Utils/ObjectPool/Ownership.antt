-- ===== src/Utils/ObjectPool/Ownership.antt =====
-- Who has an item of ObjectPool.h: the pool or one client.
use mathlib.Core.Path.{subst}
use api_pack.Base.{
  ℕ, zero, suc, ◌+◌, ◌/◌, ◌%◌, ◌^◌, ◌<◌, ◌≤◌, ◌≡◌, ◌⊎◌, inl, inr, refl, sym, ap, arith, Bool, true,
  false, ◌&&◌, Option, none, some, List, [], ◌∷◌, ◌==◌, ltb, leb, length, length-append,
  if◌then◌else◌, Bool-cases, if_intro,
}
use api_pack.Utils.ObjectPool.{
  empty_pool, construct, Item, ObjectPool, push_block, fitting, add_block, resize, pop,
  after_resize, create_from, create, destroy, reset,
}
use api_pack.Utils.ObjectPool.Items.{
  count, sum, count-push_block, length-push_block, count-push_blocks, length-push_blocks, sum-snoc,
}

-- Every item is free or used and not both, and none is from a block that there is not; the pool has
-- as many items as it says, which is no more than its maximum, and as many blocks, up to 2^64.
pub record Owned (p : ObjectPool) (used : List Item) : Type 0 where
  pub once : (x : Item) → count x p.free_items + count x used ≤ 1
  pub old : (x : Item) → length p.item_caches ≤ x.block → count x p.free_items + count x used ≡ 0
  pub total : length p.free_items + length used ≡ p.curr_items
  pub counts : sum p.item_caches ≡ p.curr_items
  pub bound : p.curr_items ≤ p.max_items
  pub word : p.max_items < 2 ^ 64
  pub allocated : p.allocation_count ≡ length p.item_caches % 2 ^ 64

-- `create` hands out an item that was not used, or none: then none was free, and the pool is at its
-- maximum or its step is 0.
abbrev pub Created : ObjectPool → List Item → ObjectPool × Option Item → Type 0
Created p used (p', none) =
    (p.free_items ≡ []) × (p' ≡ p) × ((p.curr_items ≡ p.max_items) ⊎ (p.increase_step ≡ 0))
Created p used (p', some item) = Owned p' (item ∷ used)

pop-Owned :
    (p : ObjectPool) (used free : List Item) (item : Item)
    → p.free_items ≡ item ∷ free
    → Owned p used
    → Owned (record p { free_items = free; resets = item ∷ p.resets }) (item ∷ used)
unfolding count
pop-Owned p used free item e o = record {
  once = λ x. ground (arith, o.once x, ap (count x) e);
  old = λ x l. ground (arith, o.old x l, ap (count x) e);
  total = omega (arith, o.total, ap length e);
  counts = o.counts;
  bound = o.bound;
  word = o.word;
  allocated = o.allocated;
}

add_block-Owned :
    (p : ObjectPool) (used : List Item) (n : ℕ)
    → p.curr_items + n ≤ p.max_items
    → Owned p used
    → Owned (add_block p n) used
unfolding add_block
add_block-Owned p used n fits o = record {
  once = λ x.
      ground (arith, o.once x, o.old x, count-push_block x (length p.item_caches) 0 n p.free_items);
  old = λ x l. ground (
    arith,
    o.old x (omega (arith, length-append p.item_caches (n ∷ []))),
    length-append p.item_caches (n ∷ []),
    count-push_block x (length p.item_caches) 0 n p.free_items,
  );
  total =
      omega (
        arith,
        o.total,
        o.bound,
        o.word,
        length-push_block (length p.item_caches) 0 n p.free_items,
      );
  counts = omega (arith, o.counts, o.bound, o.word, sum-snoc p.item_caches n);
  bound = omega (arith, o.bound, o.word);
  word = o.word;
  allocated = omega (arith, o.allocated, length-append p.item_caches (n ∷ []));
}

fitting_lem :
    (p : ObjectPool) (used : List Item) (n : ℕ)
    → p.curr_items + n < 2 ^ 64
    → Owned p used
    → (p.curr_items + fitting p n ≤ p.max_items)
      × ((1 ≤ fitting p n) ⊎ ((fitting p n ≡ 0) × ((p.curr_items ≡ p.max_items) ⊎ (n ≡ 0))))
unfolding fitting
fitting_lem p used n h o = elim (Bool-cases (ltb p.max_items ((p.curr_items + n) % 2 ^ 64))) [
  | inl e ↦ (ground (arith, o.bound, o.word), ground (arith, o.bound, o.word))
  | inr e ↦ (ground (arith, o.bound, o.word), ground (arith, o.bound, o.word))
]

-- What `resize` does: it adds a block that fits, or nothing.
abbrev Resized : ObjectPool → ℕ → ObjectPool × Bool → Type 0
Resized p n (p', true) = (k : ℕ) × (1 ≤ k) × (p.curr_items + k ≤ p.max_items) × (p' ≡ add_block p k)
Resized p n (p', false) = (p' ≡ p) × ((p.curr_items ≡ p.max_items) ⊎ (n ≡ 0))

resize-Resized :
    (p : ObjectPool) (used : List Item) (n : ℕ)
    → p.curr_items + n < 2 ^ 64
    → Owned p used
    → Resized p n (resize p n)
unfolding resize
resize-Resized p used n h o =
    let (fits, some_or_none) = fitting_lem p used n h o in
    if_intro (Resized p n)
      (ltb 0 (fitting p n) && leb ((p.curr_items + fitting p n) % 2 ^ 64) p.max_items)
      (add_block p (fitting p n), true) (p, false) (λ e. (fitting p n, ground arith, fits, refl))
      (λ e. (refl, refused (fitting p n) fits some_or_none e))
  where
    refused :
        (k : ℕ)
        → p.curr_items + k ≤ p.max_items
        → (1 ≤ k) ⊎ ((k ≡ 0) × ((p.curr_items ≡ p.max_items) ⊎ (n ≡ 0)))
        → (ltb 0 k && leb ((p.curr_items + k) % 2 ^ 64) p.max_items) ≡ false
        → (p.curr_items ≡ p.max_items) ⊎ (n ≡ 0)
    refused k fits (inl pos) e = absurd (ground (arith, o.word))
    refused k fits (inr (z, why)) e = why

after_resize-Created :
    (p : ObjectPool) (used : List Item) (x : ObjectPool × Bool)
    → p.free_items ≡ []
    → Owned p used
    → Resized p p.increase_step x
    → Created p used (after_resize x)
unfolding after_resize pop push_block add_block
after_resize-Created p used (p', true) e o (zero, pos, fits, same) = absurd (omega arith)
after_resize-Created p used (p', true) e o (suc k, pos, fits, same) =
    subst (λ r. Created p used (pop r r.free_items)) (sym same)
      (pop-Owned (add_block p (suc k)) used _ _ refl (add_block-Owned p used (suc k) fits o))
after_resize-Created p used (p', false) e o (same, why) = (e, same, why)

create_from-Created :
    (p : ObjectPool) (used free : List Item)
    → p.curr_items + p.increase_step < 2 ^ 64
    → p.free_items ≡ free
    → Owned p used
    → Created p used (create_from p free)
unfolding create_from pop
create_from-Created p used [] h e o =
    after_resize-Created p used (resize p p.increase_step) e o
      (resize-Resized p used p.increase_step h o)
create_from-Created p used (item ∷ free) h e o = pop-Owned p used free item e o

pub create-Created :
    (p : ObjectPool) (used : List Item)
    → p.curr_items + p.increase_step < 2 ^ 64
    → Owned p used
    → Created p used (create p)
unfolding create
create-Created p used h o = create_from-Created p used p.free_items h refl o

-- An item that a client gives back is no longer used; giving back a null pointer does nothing.
pub destroy-Owned :
    (p : ObjectPool) (used : List Item) (item : Item)
    → Owned p (item ∷ used)
    → Owned (destroy p (some item)).0 used × (destroy p none ≡ (p, false))
unfolding destroy count
destroy-Owned p used item o = (
  record {
    once = λ x. ground (arith, o.once x);
    old = λ x l. ground (arith, o.old x l);
    total = omega (arith, o.total);
    counts = o.counts;
    bound = o.bound;
    word = o.word;
    allocated = o.allocated;
  },
  refl,
)

-- After `reset` all the items of all the blocks are free again.
pub reset-Owned : (p : ObjectPool) (used : List Item) → Owned p used → Owned (reset p) []
unfolding reset count
reset-Owned p used o = record {
  once = λ x. ground (arith, (count-push_blocks x 0 p.item_caches [] (λ l. refl) (omega arith)).0);
  old = λ x l.
      ground (
        arith,
        (count-push_blocks x 0 p.item_caches [] (λ l'. refl) (omega arith)).1 (omega arith),
      );
  total = omega (arith, o.counts, length-push_blocks 0 p.item_caches []);
  counts = o.counts;
  bound = o.bound;
  word = o.word;
  allocated = o.allocated;
}

Resized-Owned :
    (p : ObjectPool) (n : ℕ) (x : ObjectPool × Bool) → Owned p [] → Resized p n x → Owned x.0 []
Resized-Owned p n (p', true) o (k, pos, fits, same) =
    subst (λ r. Owned r []) (sym same) (add_block-Owned p [] k fits o)
Resized-Owned p n (p', false) o (same, why) = subst (λ r. Owned r []) (sym same) o

empty_pool-Owned : (max_items step : ℕ) → max_items < 2 ^ 64 → Owned (empty_pool max_items step) []
unfolding count
empty_pool-Owned max_items step hm = record {
  once = λ x. omega arith;
  old = λ x l. refl;
  total = refl;
  counts = refl;
  bound = omega arith;
  word = hm;
  allocated = refl;
}

-- A new pool owns its items, and no client has one.
pub construct-Owned :
    (initial_capacity max_items increase_step : ℕ)
    → initial_capacity < 2 ^ 64
    → max_items < 2 ^ 64
    → Owned (construct initial_capacity max_items increase_step) []
unfolding construct
construct-Owned initial_capacity max_items increase_step hi hm =
    let step = if increase_step == 0 then initial_capacity / 2 else increase_step in
    let start = empty_pool-Owned max_items step hm in
    Resized-Owned (empty_pool max_items step) initial_capacity
      (resize (empty_pool max_items step) initial_capacity) start
      (resize-Resized (empty_pool max_items step) [] initial_capacity (omega arith) start)
