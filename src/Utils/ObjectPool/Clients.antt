-- ===== src/Utils/ObjectPool/Clients.antt =====
-- The clients of one ObjectPool.h, from its construction on.
use mathlib.Core.List.{Permᴰ}
use mathlib.Core.List.Permᴰ.{nil, cons, swap, trans}
use mathlib.Core.Path.{subst}
use api_pack.Base.{
  ℕ, zero, suc, ◌+◌, ◌^◌, ◌<◌, ◌≡◌, refl, sym, ap, ◌∙◌, arith, Option, none, some, List, [], ◌∷◌,
  length,
}
use api_pack.Utils.ObjectPool.{
  Item, ObjectPool, construct, delete_caches, destruct, allocation_count, create, destroy,
  push_items, destroy_items, reset,
}
use api_pack.Utils.ObjectPool.Items.{count}
use api_pack.Utils.ObjectPool.Ownership.{
  Owned, Created, create-Created, destroy-Owned, reset-Owned, construct-Owned,
}

-- A pool and the items that its clients have, after some calls: of `create`, while the step fits
-- the address space, of the two `destroy` on items that the clients have, and of `reset`, after
-- which they have none.
pub data Uses (initial_capacity max_items increase_step : ℕ) : ObjectPool → List Item → Type 0 where
  constructed :
      Uses initial_capacity max_items increase_step
        (construct initial_capacity max_items increase_step)
        []
  gets :
      {p p' : ObjectPool} {used : List Item} (item : Item)
      → Uses initial_capacity max_items increase_step p used
      → p.curr_items + p.increase_step < 2 ^ 64
      → create p ≡ (p', some item)
      → Uses initial_capacity max_items increase_step p' (item ∷ used)
  gets_none :
      {p p' : ObjectPool} {used : List Item}
      → Uses initial_capacity max_items increase_step p used
      → p.curr_items + p.increase_step < 2 ^ 64
      → create p ≡ (p', none)
      → Uses initial_capacity max_items increase_step p' used
  gives :
      {p : ObjectPool} {used rest : List Item} (item : Item)
      → Uses initial_capacity max_items increase_step p used
      → Permᴰ used (item ∷ rest)
      → Uses initial_capacity max_items increase_step (destroy p (some item)).0 rest
  gives_none :
      {p : ObjectPool} {used : List Item}
      → Uses initial_capacity max_items increase_step p used
      → Uses initial_capacity max_items increase_step (destroy p none).0 used
  gives_many :
      {p : ObjectPool} {used rest : List Item} (items : Item) (n : ℕ)
      → Uses initial_capacity max_items increase_step p used
      → Permᴰ used (push_items items n rest)
      → Uses initial_capacity max_items increase_step (destroy_items p items n).0 rest
  resets :
      {p : ObjectPool} {used : List Item}
      → Uses initial_capacity max_items increase_step p used
      → Uses initial_capacity max_items increase_step (reset p) []

count-Permᴰ : (x : Item) {a b : List Item} → Permᴰ a b → count x a ≡ count x b
unfolding count
count-Permᴰ x nil = refl
count-Permᴰ x (cons {a} e p) = rw (sym e) (ground (arith, count-Permᴰ x p))
count-Permᴰ x (swap {a} {b} e f) = rw (sym e, sym f) (ground arith)
count-Permᴰ x (trans p q) = count-Permᴰ x p ∙ count-Permᴰ x q

length-Permᴰ : {a b : List Item} → Permᴰ a b → length a ≡ length b
length-Permᴰ nil = refl
length-Permᴰ (cons e p) = ap suc (length-Permᴰ p)
length-Permᴰ (swap e f) = refl
length-Permᴰ (trans p q) = length-Permᴰ p ∙ length-Permᴰ q

Owned-Permᴰ :
    (p : ObjectPool) {used used' : List Item} → Permᴰ used used' → Owned p used → Owned p used'
Owned-Permᴰ p same o = record {
  once = λ x. omega (arith, o.once x, count-Permᴰ x same);
  old = λ x l. omega (arith, o.old x l, count-Permᴰ x same);
  total = omega (arith, o.total, length-Permᴰ same);
  counts = o.counts;
  bound = o.bound;
  word = o.word;
  allocated = o.allocated;
}

count-push_items :
    (x items : Item) (n : ℕ) (free : List Item)
    → count x (push_items items n free) ≡ count x (push_items items n []) + count x free
unfolding push_items count
count-push_items x items zero free = omega arith
count-push_items x items (suc n) free =
    let after : Item = record items { index = suc items.index } in
    ground
      (arith, count-push_items x after n (items ∷ free), count-push_items x after n (items ∷ []))

length-push_items :
    (items : Item) (n : ℕ) (free : List Item) → length (push_items items n free) ≡ n + length free
unfolding push_items
length-push_items items zero free = omega arith
length-push_items items (suc n) free =
    omega (arith, length-push_items (record items { index = suc items.index }) n (items ∷ free))

destroy_items-Owned :
    (p : ObjectPool) (used : List Item) (items : Item) (n : ℕ)
    → Owned p (push_items items n used)
    → Owned (destroy_items p items n).0 used
unfolding destroy_items
destroy_items-Owned p used items n o = record {
  once = λ x.
      omega
        (arith, o.once x, count-push_items x items n used, count-push_items x items n p.free_items);
  old = λ x l.
      omega (
        arith,
        o.old x l,
        count-push_items x items n used,
        count-push_items x items n p.free_items,
      );
  total =
      omega
        (arith, o.total, length-push_items items n used, length-push_items items n p.free_items);
  counts = o.counts;
  bound = o.bound;
  word = o.word;
  allocated = o.allocated;
}

destroy_none-Owned :
    (p : ObjectPool) (used : List Item) → Owned p used → Owned (destroy p none).0 used
unfolding destroy
destroy_none-Owned p used o = o

-- `create` that returned none changed nothing.
got_none-Owned :
    (p : ObjectPool) (used : List Item) (x : ObjectPool × Option Item)
    → x.1 ≡ none
    → Owned p used
    → Created p used x
    → Owned x.0 used
got_none-Owned p used (p', none) e o (empty, same, why) = subst (λ r. Owned r used) (sym same) o
got_none-Owned p used (p', some item) e o made = cc

pub Uses-Owned :
    (initial_capacity max_items increase_step : ℕ) (p : ObjectPool) (used : List Item)
    → initial_capacity < 2 ^ 64
    → max_items < 2 ^ 64
    → Uses initial_capacity max_items increase_step p used
    → Owned p used
Uses-Owned i m s p used hi hm constructed = construct-Owned i m s hi hm
Uses-Owned i m s p used hi hm (gets {p = q} {used = before} item u fits e) =
    subst (Created q before) e (create-Created q before fits (Uses-Owned i m s q before hi hm u))
Uses-Owned i m s p used hi hm (gets_none {p = q} u fits e) =
    let o = Uses-Owned i m s q used hi hm u in
    subst (λ x. Owned x.0 used) e
      (got_none-Owned q used (create q) (ap (λ x. x.1) e) o (create-Created q used fits o))
Uses-Owned i m s p used hi hm (gives {p = q} {used = before} item u same) =
    (destroy-Owned q used item (Owned-Permᴰ q same (Uses-Owned i m s q before hi hm u))).0
Uses-Owned i m s p used hi hm (gives_none {p = q} u) =
    destroy_none-Owned q used (Uses-Owned i m s q used hi hm u)
Uses-Owned i m s p used hi hm (gives_many {p = q} {used = before} items n u same) =
    destroy_items-Owned q used items n (Owned-Permᴰ q same (Uses-Owned i m s q before hi hm u))
Uses-Owned i m s p used hi hm (resets {p = q} {used = before} u) =
    reset-Owned q before (Uses-Owned i m s q before hi hm u)

length-delete_caches : (b : ℕ) (counts : List ℕ) → length (delete_caches b counts) ≡ length counts
unfolding delete_caches
length-delete_caches b [] = refl
length-delete_caches b (n ∷ counts) = omega (arith, length-delete_caches (suc b) counts)

-- The destructor deletes as many blocks as were allocated, if their number fits the count.
pub length-destruct :
    (initial_capacity max_items increase_step : ℕ) (p : ObjectPool) (used : List Item)
    → initial_capacity < 2 ^ 64
    → max_items < 2 ^ 64
    → Uses initial_capacity max_items increase_step p used
    → length p.item_caches < 2 ^ 64
    → length (destruct p) ≡ allocation_count p
unfolding destruct
length-destruct i m s p used hi hm u fits =
    omega (
      arith,
      length-delete_caches 0 p.item_caches,
      (Uses-Owned i m s p used hi hm u).allocated,
      fits,
    )
