-- ===== src/Datastore/Iterator/Lifetime/Heaps.antt =====
-- The addresses of the results that libpq allocates for DatastoreIterator.cpp.
use api_pack.Base.{ℕ, ◌<◌, ◌≤◌, ◌≡◌, refl, arith, Option, none, some, List, [], ◌∷◌}
use api_pack.Datastore.Libpq.{PgResult, Heap, alloc, clear, free_found, find, remove}

-- The newest comes first, and each address is below those of the newer results and below `n`.
unfoldable pub Descending : ℕ → List (ℕ × PgResult) → Type 0
Descending n [] = Unit
Descending n ((j, r) ∷ l) = (j < n) × Descending j l

raise-Descending : (m n : ℕ) (l : List (ℕ × PgResult)) → Descending m l → m ≤ n → Descending n l
unfolding Descending
raise-Descending m n [] h le = tt
raise-Descending m n ((j, r) ∷ l) h le = (omega (arith, h.0, le), h.1)

remove-Descending : (k n : ℕ) (l : List (ℕ × PgResult)) → Descending n l → Descending n (remove k l)
unfolding Descending remove
remove-Descending k n [] h = tt
remove-Descending k n ((j, r) ∷ l) h =
    ground (arith, raise-Descending j n l h.1, remove-Descending k j l h.1)

find-above : (k n : ℕ) (l : List (ℕ × PgResult)) → Descending n l → n ≤ k → find k l ≡ none
unfolding Descending find
find-above k n [] h le = refl
find-above k n ((j, r) ∷ l) h le = ground (arith, h.0, find-above k j l h.1)

find-below :
    (k n : ℕ) (r : PgResult) (l : List (ℕ × PgResult)) → Descending n l → find k l ≡ some r → k < n
find-below k n r l h e = ground (arith, find-above k n l h)

find-remove : (k n : ℕ) (l : List (ℕ × PgResult)) → Descending n l → find k (remove k l) ≡ none
unfolding Descending find remove
find-remove k n [] h = refl
find-remove k n ((j, r) ∷ l) h = ground (arith, find-above k j l h.1, find-remove k j l h.1)

find-remove_other :
    (k j : ℕ) (l : List (ℕ × PgResult)) → find k l ≡ none → find k (remove j l) ≡ none
unfolding find remove
find-remove_other k j [] e = refl
find-remove_other k j ((i, r) ∷ l) e = ground (arith, find-remove_other k j l)

-- The addresses on the heap differ, and are below the next one.
abbrev pub Ordered : Heap → Type 0
Ordered h = Descending h.fresh h.live

pub alloc-Ordered : (h : Heap) (r : Option PgResult) → Ordered h → Ordered (alloc h r).0
unfolding alloc Descending
alloc-Ordered h none o = o
alloc-Ordered h (some r) o = (omega arith, o)

pub clear-Ordered : (h : Heap) (k : Option ℕ) → Ordered h → Ordered (clear h k)
unfolding clear
clear-Ordered h none o = o
clear-Ordered h (some k) o = freed (find k h.live)
  where
    freed : (r : Option PgResult) → Ordered (free_found h k r)
    freed none = unfold free_found in o
    freed (some r) = unfold free_found in remove-Descending k h.fresh h.live o

-- The result behind `k` was freed, and no other will be there.
abbrev pub Dangling : ℕ → Heap → Type 0
Dangling k h = (find k h.live ≡ none) × (k < h.fresh)

pub alloc-Dangling :
    (k : ℕ) (h : Heap) (r : Option PgResult) → Dangling k h → Dangling k (alloc h r).0
unfolding alloc find
alloc-Dangling k h none d = d
alloc-Dangling k h (some r) d = (ground (arith, d.0, d.1), omega (arith, d.1))

pub clear-Dangling : (k : ℕ) (j : Option ℕ) (h : Heap) → Dangling k h → Dangling k (clear h j)
unfolding clear
clear-Dangling k none h d = d
clear-Dangling k (some j) h d = freed (find j h.live)
  where
    freed : (r : Option PgResult) → Dangling k (free_found h j r)
    freed none = unfold free_found in d
    freed (some r) = unfold free_found in (find-remove_other k j h.live d.0, d.1)

pub clear_dangles :
    (k : ℕ) (h : Heap) (r : PgResult)
    → Ordered h
    → find k h.live ≡ some r
    → Dangling k (clear h (some k))
unfolding clear free_found
clear_dangles k h r o e = rw e (find-remove k h.fresh h.live o, find-below k h.fresh r h.live o e)
