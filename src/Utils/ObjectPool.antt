-- ===== src/Utils/ObjectPool.antt =====
-- source/utils/ObjectPool.h: objects in blocks that are never given back, and the list of those that
-- are free. A `T*` is its block and its index in it. Calls of `T::reset` are recorded.
pub mod Items
pub mod Ownership
pub mod Clients
mod Tests
use api_pack.Base.{
  ℕ, zero, suc, ◌+◌, ◌-◌, ◌/◌, ◌%◌, ◌^◌, ◌≡◌, Bool, true, false, ◌&&◌, Option, none, some, List, [],
  ◌∷◌, ◌++◌, ◌==◌, ltb, leb, length, if◌then◌else◌,
}

pub record Item : Type 0 where
  pub block : ℕ
  pub index : ℕ

-- The counts of the blocks in the order in which they were allocated; the free items with the last
-- one first; the items that were reset, the last one first.
pub record ObjectPool : Type 0 where
  pub free_items : List Item
  pub item_caches : List ℕ
  pub max_items : ℕ
  pub curr_items : ℕ
  pub increase_step : ℕ
  pub allocation_count : ℕ
  pub resets : List Item

-- The items that a loop over a block pushes from its end to its start.
unfoldable pub push_block : ℕ → ℕ → ℕ → List Item → List Item
push_block b i zero free = free
push_block b i (suc n) free = record { block = b; index = i } ∷ push_block b (suc i) n free

-- The first `if` of `resize`.
unfoldable pub fitting : ObjectPool → ℕ → ℕ
fitting p count =
    if ltb p.max_items ((p.curr_items + count) % 2 ^ 64)
    then (p.max_items + 2 ^ 64 - p.curr_items) % 2 ^ 64
    else count

unfoldable pub add_block : ObjectPool → ℕ → ObjectPool
unfolding push_block
add_block p count = record p {
  free_items = push_block (length p.item_caches) 0 count p.free_items;
  item_caches = p.item_caches ++ (count ∷ []);
  curr_items = (p.curr_items + count) % 2 ^ 64;
  allocation_count = (p.allocation_count + 1) % 2 ^ 64;
}

unfoldable pub resize : ObjectPool → ℕ → ObjectPool × Bool
unfolding fitting add_block
resize p count =
    let n = fitting p count in
    if ltb 0 n && leb ((p.curr_items + n) % 2 ^ 64) p.max_items
    then (add_block p n, true)
    else (p, false)

abbrev pub empty_pool : ℕ → ℕ → ObjectPool
empty_pool max_items increase_step = record {
  free_items = [];
  item_caches = [];
  max_items = max_items;
  curr_items = 0;
  increase_step = increase_step;
  allocation_count = 0;
  resets = [];
}

-- `ObjectPool(initialCapacity, maxItems, increaseStep)`.
unfoldable pub construct : ℕ → ℕ → ℕ → ObjectPool
unfolding resize
construct initial_capacity max_items increase_step =
    let step = if increase_step == 0 then initial_capacity / 2 else increase_step in
    (resize (empty_pool max_items step) initial_capacity).0

-- `back`, `pop_back` and `reset` of the object.
unfoldable pub pop : ObjectPool → List Item → ObjectPool × Option Item
pop p [] = (p, none)
pop p (item ∷ free) = (record p { free_items = free; resets = item ∷ p.resets }, some item)

after_resize : ObjectPool × Bool → ObjectPool × Option Item
unfolding pop
after_resize (p, true) = pop p p.free_items
after_resize (p, false) = (p, none)

create_from : ObjectPool → List Item → ObjectPool × Option Item
unfolding pop after_resize resize
create_from p [] = after_resize (resize p p.increase_step)
create_from p (item ∷ free) = pop p (item ∷ free)

unfoldable pub create : ObjectPool → ObjectPool × Option Item
unfolding create_from
create p = create_from p p.free_items

unfoldable pub destroy : ObjectPool → Option Item → ObjectPool × Bool
destroy p none = (p, false)
destroy p (some item) = (record p { free_items = item ∷ p.free_items }, true)

-- `destroy(items, count)` from an item on, each one after the other; none of them is null.
unfoldable pub push_items : Item → ℕ → List Item → List Item
push_items item zero free = free
push_items item (suc n) free = push_items (record item { index = suc item.index }) n (item ∷ free)

unfoldable pub destroy_items : ObjectPool → Item → ℕ → ObjectPool × ℕ
unfolding push_items
destroy_items p items count = (record p { free_items = push_items items count p.free_items }, count)

abbrev pub capacity : ObjectPool → ℕ
capacity p = p.max_items

abbrev pub available_count : ObjectPool → ℕ
available_count p = length p.free_items

abbrev pub allocation_count : ObjectPool → ℕ
allocation_count p = p.allocation_count

-- The blocks that the loop of the destructor deletes, from block `b` on.
unfoldable pub delete_caches : ℕ → List ℕ → List ℕ
delete_caches b [] = []
delete_caches b (n ∷ counts) = b ∷ delete_caches (suc b) counts

-- `~ObjectPool()`.
unfoldable pub destruct : ObjectPool → List ℕ
unfolding delete_caches
destruct p = delete_caches 0 p.item_caches

-- The loop of `reset` over the blocks, from block `b` on.
unfoldable pub push_blocks : ℕ → List ℕ → List Item → List Item
unfolding push_block
push_blocks b [] free = free
push_blocks b (n ∷ counts) free = push_blocks (suc b) counts (push_block b 0 n free)

unfoldable pub reset : ObjectPool → ObjectPool
unfolding push_blocks
reset p = record p { free_items = push_blocks 0 p.item_caches [] }
