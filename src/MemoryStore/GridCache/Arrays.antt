-- ===== src/MemoryStore/GridCache/Arrays.antt =====
-- The arrays of GridCache.cpp after some calls of `array`.
use api_pack.Base.{
  some_injective, Bool-cases, inl, inr, ◌↔◌, ℕ, suc, ◌-◌, ◌*◌, ◌%◌, ◌^◌, ◌<◌, ◌≤◌, drop, ◌≡◌, refl,
  sym, ap, ◌∙◌, arith, Bool, true, false, Option, none, some, List, [], ◌∷◌, ◌++◌, ◌==◌, length,
  length-append, All, if◌then◌else◌,
}
use api_pack.MemoryStore.GridCache.Bytes.{zeros, fill_zero_lem, fill_zero_all, fill_zero_part}
use api_pack.MemoryStore.GridCache.{
  CacheEntryArray, GridCache, construct, new_array, array_found, array, find_array,
}

All-snoc :
    {A : Type 0} (P : A → Type 0) (xs : List A) (x : A) → All P xs → P x → All P (xs ++ (x ∷ []))
All-snoc P [] x a p = (p, tt)
All-snoc P (y ∷ ys) x a p = (a.0, All-snoc P ys x a.1 p)

module _ (new_vector : ℕ → List ℕ) where
  -- The object of an array is overwritten from its start, by as many zeros as the array has entries:
  -- a larger object keeps its other bytes, an object that is not larger is all zero, and the rest of
  -- the zeros lies behind it.
  pub record Overwritten (size : ℕ) (a : CacheEntryArray) : Type 0 where
    pub same_size : a.size ≡ size
    pub past : a.past_end ≡ size - length (new_vector size)
    pub written :
        size ≤ length (new_vector size) → a.bytes ≡ zeros size ++ drop size (new_vector size)
    pub wiped : length (new_vector size) < suc size → a.bytes ≡ zeros (length (new_vector size))

  -- The pointers of the stations are the numbers of the arrays, newest first; no station is there
  -- twice.
  unfoldable pub Numbered : List (ℕ × ℕ) → Type 0
  Numbered [] = Unit
  Numbered ((s, k) ∷ cache) = (k ≡ length cache) × (find_array s cache ≡ none) × Numbered cache

  -- A cache of `back` and `forward` days.
  pub record Filled (back forward : ℕ) (g : GridCache new_vector) : Type 0 where
    pub same_back : g.days_back ≡ back
    pub same_forward : g.days_forward ≡ forward
    pub numbered : Numbered g.cache
    pub count : length g.arrays ≡ length g.cache
    pub overwritten : All (Overwritten ((back * forward) % 2 ^ 64)) g.arrays

  -- Some calls of `array`, each with its station and its flag.
  unfoldable pub calls : List (ℕ × Bool) → GridCache new_vector → GridCache new_vector
  unfolding array
  calls [] g = g
  calls ((station, create) ∷ rest) g = calls rest (array new_vector g station create).0

  new_array-Overwritten : (n : ℕ) → Overwritten n (new_array new_vector n)
  unfolding new_array
  new_array-Overwritten n = record {
    same_size = refl;
    past = fill_zero_lem n (new_vector n);
    written = fill_zero_part n (new_vector n);
    wiped = fill_zero_all n (new_vector n);
  }

  array_found-Filled :
      (back forward : ℕ) (g : GridCache new_vector) (station : ℕ) (create : Bool) (o : Option ℕ)
      → find_array station g.cache ≡ o
      → Filled back forward g
      → Filled back forward (array_found new_vector o g station create).0
  unfolding array_found Numbered
  array_found-Filled back forward g station create (some k) e f = f
  array_found-Filled back forward g station false none e f = f
  array_found-Filled back forward g station true none e f = record {
    same_back = f.same_back;
    same_forward = f.same_forward;
    numbered = (f.count, e, f.numbered);
    count = omega (
      arith,
      f.count,
      length-append g.arrays (new_array new_vector ((g.days_back * g.days_forward) % 2 ^ 64) ∷ []),
    );
    overwritten =
        All-snoc (Overwritten ((back * forward) % 2 ^ 64)) g.arrays _ f.overwritten
          (rw (f.same_back, f.same_forward) (new_array-Overwritten ((back * forward) % 2 ^ 64)));
  }

  calls-Filled :
      (back forward : ℕ) (cs : List (ℕ × Bool)) (g : GridCache new_vector)
      → Filled back forward g
      → Filled back forward (calls cs g)
  unfolding calls array
  calls-Filled back forward [] g f = f
  calls-Filled back forward ((station, create) ∷ rest) g f =
      calls-Filled back forward rest _ (array_found-Filled back forward g station create _ refl f)

  -- After any calls of `array` on a new cache each station has at most one array and no array is of
  -- two stations. `memset` wrote over the vector object of each array, one zero for each entry: if
  -- there are at most as many entries as the object has bytes, these first bytes are zero and the
  -- others are the constructor's; if there are as many or more, all of the object is zero, and the
  -- zeros beyond its size lie behind it.
  pub calls-construct :
      (back forward stations : ℕ) (cs : List (ℕ × Bool))
      → Filled back forward (calls cs (construct new_vector back forward stations))
  unfolding construct Numbered
  calls-construct back forward stations cs = calls-Filled back forward cs _ (record {
    same_back = refl;
    same_forward = refl;
    numbered = tt;
    count = refl;
    overwritten = tt;
  })

  array_found_keeps :
      (g : GridCache new_vector) (station s k : ℕ) (create : Bool) (o : Option ℕ)
      → find_array s g.cache ≡ some k
      → find_array station g.cache ≡ o
      → find_array s (array_found new_vector o g station create).0.cache ≡ some k
  unfolding array_found find_array
  array_found_keeps g station s k create (some j) e e' = e
  array_found_keeps g station s k false none e e' = e
  array_found_keeps g station s k true none e e' = ground (arith, e, ap (λ x. x) e')

  calls_keep :
      (cs : List (ℕ × Bool)) (g : GridCache new_vector) (s k : ℕ)
      → find_array s g.cache ≡ some k
      → find_array s (calls cs g).cache ≡ some k
  unfolding calls array
  calls_keep [] g s k e = e
  calls_keep ((station, create) ∷ rest) g s k e =
      calls_keep rest _ s k (array_found_keeps g station s k create _ e refl)

  array_found_kept :
      (g : GridCache new_vector) (s k : ℕ) (create : Bool) (o : Option ℕ)
      → find_array s g.cache ≡ o
      → (array_found new_vector o g s create).1 ≡ some k
      → find_array s (array_found new_vector o g s create).0.cache ≡ some k
  unfolding array_found find_array
  array_found_kept g s k create (some j) e e' = e ∙ e'
  array_found_kept g s k false none e e' = cc
  array_found_kept g s k true none e e' = ground (arith, e')

  -- A station that has an array keeps it.
  array_again :
      (cs : List (ℕ × Bool)) (g : GridCache new_vector) (s k : ℕ) (create create' : Bool)
      → (array new_vector g s create).1 ≡ some k
      → (find_array s (calls cs (array new_vector g s create).0).cache ≡ some k)
        × (array new_vector (calls cs (array new_vector g s create).0) s create'
            ≡ (calls cs (array new_vector g s create).0, some k))
  unfolding array array_found
  array_again cs g s k create create' e =
      let after = calls cs (array new_vector g s create).0 in
      let there =
        calls_keep cs (array new_vector g s create).0 s k
          (array_found_kept g s k create _ refl e) in
      (there, ap (λ o. array_found new_vector o after s create') there)

  find-below :
      (cache : List (ℕ × ℕ)) (s k : ℕ)
      → Numbered cache
      → find_array s cache ≡ some k
      → k < length cache
  unfolding Numbered find_array
  find-below [] s k n e = cc
  find-below ((t, j) ∷ cache) s k n e = elim (Bool-cases (t == s)) [
    | inl same ↦ ground (arith, e, n.0)
    | inr other ↦ omega (arith, find-below cache s k n.2 (rest other))
  ]
    where
      rest : (t == s) ≡ false → find_array s cache ≡ some k
      rest other = ground (arith, e, other)

  find-separate :
      (cache : List (ℕ × ℕ)) (s t k : ℕ)
      → Numbered cache
      → find_array s cache ≡ some k
      → find_array t cache ≡ some k
      → s ≡ t
  unfolding Numbered find_array
  find-separate [] s t k n e f = cc
  find-separate ((r, j) ∷ cache) s t k n e f = elim (Bool-cases (r == s)) [
    | inl same ↦ elim (Bool-cases (r == t)) [
      | inl same' ↦ ground (arith, same, same')
      | inr other' ↦ absurd (ground (arith, e, n.0, find-below cache t k n.2 (rest t f other')))
    ]
    | inr other ↦ elim (Bool-cases (r == t)) [
      | inl same' ↦ absurd (ground (arith, f, n.0, find-below cache s k n.2 (rest s e other)))
      | inr other' ↦ find-separate cache s t k n.2 (rest s e other) (rest t f other')
    ]
  ]
    where
      rest :
          (q : ℕ)
          → (if r == q then some j else find_array q cache) ≡ some k
          → (r == q) ≡ false
          → find_array q cache ≡ some k
      rest q e other = ground (arith, e, other)

  array_looks :
      (g : GridCache new_vector) (t j : ℕ) (o : Option ℕ)
      → (array_found new_vector o g t false).1 ≡ some j
      → o ≡ some j
  unfolding array_found
  array_looks g t j (some i) e = e
  array_looks g t j none e = cc

  -- Once `array` has returned the array of a station, it returns the same one after any other calls
  -- and changes nothing; and the arrays of two stations are the same one only if the stations are.
  pub array-calls :
      (back forward stations : ℕ) (before after : List (ℕ × Bool)) (s t k j : ℕ)
      (create create' : Bool)
      → let g = calls before (construct new_vector back forward stations) in
        let g' = calls after (array new_vector g s create).0 in
        (array new_vector g s create).1 ≡ some k
        → (array new_vector g' t false).1 ≡ some j
        → (array new_vector g' s create' ≡ (g', some k)) × ((k ≡ j) ↔ (s ≡ t))
  unfolding array calls
  array-calls back forward stations before after s t k j create create' e e' =
      let g = calls before (construct new_vector back forward stations) in
      let g' = calls after (array new_vector g s create).0 in
      let numbered =
        (calls-Filled back forward ((s, create) ∷ after) g
          (calls-construct back forward stations before)).numbered in
      let (here, again) = array_again after g s k create create' e in
      let there = array_looks g' t j _ e' in
      (
        again,
        (
          λ same. find-separate g'.cache s t j numbered (here ∙ ap some same) there,
          λ same. some_injective (sym here ∙ ap (λ x. find_array x g'.cache) same ∙ there),
        ),
      )
