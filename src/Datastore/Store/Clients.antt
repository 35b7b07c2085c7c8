-- ===== src/Datastore/Store/Clients.antt =====
-- The clients of one store of Datastore.cpp, in any order.
use mathlib.Core.Path.{subst}
use api_pack.Base.{
  ltb, ◌-◌, ◌%◌, ◌==◌, ℕ, zero, suc, ◌+◌, ◌<◌, ◌^◌, ◌≡◌, inl, inr, refl, sym, ap, ◌∙◌, arith, true,
  false, not, Option, none, some, List, ◌∷◌, if◌then◌else◌, if_intro,
}
use api_pack.Base.Text.{Text, Decimal}
use api_pack.Datastore.Topics.{Topic}
use api_pack.Datastore.ScheduleDay.{Calendar}
use api_pack.Datastore.Libpq.{Libpq, PgResult}
use api_pack.Datastore.Iterator
use api_pack.Datastore.Iterator.{
  DatastoreIterator, State, ready, open_cursor, close_and_reset, next, execute_ids, execute_dates,
  execute_calendar,
}
use api_pack.Datastore.Iterator.Memory.{Owns, Top, next-Owns, close_and_reset-Owns}
use api_pack.Datastore.Iterator.Leak.{Queried, execute_query-Queried}
use api_pack.Datastore.Store.{
  Datastore, data_ids, data_dates, data_calendar, drop_pointer, set_fetch_size, guarded, hand_out,
  settle,
}
use api_pack.Datastore.Store.Sessions.{drop_last}
use api_pack.Utils.IntrusiveTracked.{
  IntrusiveTracked, intrusive_ptr_add_ref, intrusive_ptr_release, kept, release_object,
}

-- The pointers that clients have after a call of `data`.
abbrev pub handed : Option ℕ → ℕ → ℕ
handed none n = n
handed (some k) n = suc n

module _ (lib : Libpq) (p : Decimal) (c : Calendar) where
  -- A store and the number of pointers that its clients have, after some calls: clients query the
  -- store, which may refuse, fail or hand out its iterator; who has a pointer calls `next`, makes a
  -- copy of the pointer or drops it.
  pub data Uses (start : Datastore lib) : Datastore lib → ℕ → Type 0 where
    begin : Uses start start 0
    asks_ids :
        {s : Datastore lib} {n : ℕ} (ids : List ℕ) (topic : Topic)
        → Uses start s n
        → suc n < 2 ^ 64
        → Uses start (data_ids lib p s ids topic).0 (handed (data_ids lib p s ids topic).1 n)
    asks_dates :
        {s : Datastore lib} {n : ℕ} (from to : Text) (ids : List ℕ)
        → Uses start s n
        → suc n < 2 ^ 64
        → Uses start
            (data_dates lib p s from to ids).0
            (handed (data_dates lib p s from to ids).1 n)
    asks_calendar :
        {s : Datastore lib} {n : ℕ} (from to : c.Date) (ids : List ℕ)
        → Uses start s n
        → suc n < 2 ^ 64
        → Uses start
            (data_calendar lib p c s from to ids).0
            (handed (data_calendar lib p c s from to ids).1 n)
    sets_fetch_size :
        {s : Datastore lib} {n : ℕ} (val : ℕ)
        → Uses start s n
        → Uses start (set_fetch_size lib s val) n
    reads_on :
        {s : Datastore lib} {n : ℕ}
        → Uses start s (suc n)
        → Uses start (record s { iter = (next lib s.iter).0 }) (suc n)
    copies :
        {s : Datastore lib} {n : ℕ}
        → Uses start s (suc n)
        → suc (suc n) < 2 ^ 64
        → Uses start (record s { tracked = intrusive_ptr_add_ref s.tracked }) (suc (suc n))
    drops : {s : Datastore lib} {n : ℕ} → Uses start s (suc n) → Uses start (drop_pointer lib s) n

module _ (lib : Libpq) where
  -- The count is that of the pointers, a store without pointers is ready, and the heap holds, each
  -- once, the iterator's result and those that nobody has a pointer to.
  pub record Sound (s : Datastore lib) (n : ℕ) : Type 0 where
    pub counted : s.tracked.reference ≡ n
    pub small : n < 2 ^ 64
    pub created : s.tracked.creator ≡ true
    pub idle : (n ≡ 0) → s.iter.state ≡ ready
    pub leaked : List (ℕ × PgResult)
    pub owns : Owns lib s.iter leaked

  Queried-Owns :
      (d : DatastoreIterator lib) (rest : List (ℕ × PgResult))
      → Queried lib rest d
      → (leaked : List (ℕ × PgResult)) × Owns lib d leaked
  Queried-Owns d rest q = elim q.leak [
    | inl (st, live) ↦ (
      rest,
      record { once = q.once; top = subst (λ k. Top k d.heap.live rest) (sym q.no_result) live },
    )
    | inr (st, (k, r, live)) ↦ (
      (k, r) ∷ rest,
      record {
        once = q.once;
        top = subst (λ j. Top j d.heap.live ((k, r) ∷ rest)) (sym q.no_result) live;
      },
    )
  ]

  ready_state : (d : DatastoreIterator lib) → Iterator.is_ready lib d ≡ true → d.state ≡ ready
  ready_state d e = by_state d.state e
    where
      by_state : (st : State) → not (Iterator.is_open st) ≡ true → st ≡ ready
      by_state ready e = refl
      by_state open_cursor e = cc

  -- A query of a sound store.
  guarded-Sound :
      (s : Datastore lib) (n : ℕ) (execute : DatastoreIterator lib → DatastoreIterator lib)
      → ((d : DatastoreIterator lib)
          → d.state ≡ ready
          → d.heap.double_free ≡ false
          → Queried lib d.heap.live (execute d))
      → suc n < 2 ^ 64
      → Sound s n
      → Sound (guarded lib s execute).0 (handed (guarded lib s execute).1 n)
  unfolding guarded hand_out intrusive_ptr_add_ref
  guarded-Sound s n execute q small o =
      if_intro (λ (x : Datastore lib × Option ℕ). Sound x.0 (handed x.1 n))
        (not (Iterator.is_ready lib s.iter)) (s, none)
        (hand_out lib (record s { iter = execute s.iter })) (λ e. o)
        (λ e.
          let (leaked, owns) =
            Queried-Owns (execute s.iter) s.iter.heap.live
              (q s.iter (ready_state s.iter (ground (arith, e))) o.owns.once) in
          record {
            counted = omega (arith, o.counted);
            small = small;
            created = o.created;
            idle = λ z. absurd (omega (arith, z));
            leaked = leaked;
            owns = owns;
          })

  -- Another pointer is left, so the iterator is not given back.
  release_more :
      (t : IntrusiveTracked) (n : ℕ)
      → t.reference ≡ suc (suc n)
      → suc (suc n) < 2 ^ 64
      → intrusive_ptr_release t ≡ (record t { reference = suc n }, kept)
  unfolding intrusive_ptr_release
  release_more t n e small =
      let r : (t.reference + 2 ^ 64 - 1) % 2 ^ 64 ≡ suc n = omega (arith, e, small) in
      let more : (suc n == 0) ≡ false = ground arith in
      ap
        (λ m. (
          record t { reference = m },
          if m == 0 then release_object (record t { reference = m }) else kept,
        ))
        r
      ∙ ap
          (λ b. (
            record t { reference = suc n },
            if b then release_object (record t { reference = suc n }) else kept,
          ))
          more

  drop_more :
      (s : Datastore lib) (n : ℕ)
      → s.tracked.reference ≡ suc (suc n)
      → suc (suc n) < 2 ^ 64
      → drop_pointer lib s
        ≡ record s { tracked = record { reference = suc n; creator = s.tracked.creator } }
  unfolding drop_pointer settle
  drop_more s n e small = ap (settle lib s) (release_more s.tracked n e small)

  drop-Sound : (s : Datastore lib) (n : ℕ) → Sound s (suc n) → Sound (drop_pointer lib s) n
  drop-Sound s zero o =
      subst (λ x. Sound x zero) (sym (drop_last lib s o.counted o.created))
        (record {
          counted = refl;
          small = omega arith;
          created = refl;
          idle = λ z. unfold close_and_reset in refl;
          leaked = o.leaked;
          owns = close_and_reset-Owns lib s.iter o.leaked o.owns;
        })
  drop-Sound s (suc n) o =
      subst (λ x. Sound x (suc n)) (sym (drop_more s n o.counted o.small))
        (record {
          counted = refl;
          small = omega (arith, o.small);
          created = o.created;
          idle = λ z. absurd (omega (arith, z));
          leaked = o.leaked;
          owns = o.owns;
        })

  set_fetch_size-Sound :
      (s : Datastore lib) (n val : ℕ) → Sound s n → Sound (set_fetch_size lib s val) n
  unfolding set_fetch_size
  set_fetch_size-Sound s n val o =
      if_intro (λ x. Sound x n) (ltb val 1) (record s { fetch_size = 1 })
        (record s { fetch_size = val }) (λ _. same 1) (λ _. same val)
    where
      same : (val : ℕ) → Sound (record s { fetch_size = val }) n
      same val = record {
        counted = o.counted;
        small = o.small;
        created = o.created;
        idle = o.idle;
        leaked = o.leaked;
        owns = o.owns;
      }

  next-Sound :
      (s : Datastore lib) (n : ℕ)
      → Sound s (suc n)
      → Sound (record s { iter = (next lib s.iter).0 }) (suc n)
  next-Sound s n o = record {
    counted = o.counted;
    small = o.small;
    created = o.created;
    idle = λ z. absurd (omega (arith, z));
    leaked = o.leaked;
    owns = (next-Owns lib s.iter o.leaked o.owns).0;
  }

  copy-Sound :
      (s : Datastore lib) (n : ℕ)
      → suc (suc n) < 2 ^ 64
      → Sound s (suc n)
      → Sound (record s { tracked = intrusive_ptr_add_ref s.tracked }) (suc (suc n))
  unfolding intrusive_ptr_add_ref
  copy-Sound s n small o = record {
    counted = omega (arith, o.counted);
    small = small;
    created = o.created;
    idle = λ z. absurd (omega (arith, z));
    leaked = o.leaked;
    owns = o.owns;
  }

module _ (lib : Libpq) (p : Decimal) (c : Calendar) where
  -- Whatever its clients do with a store that starts ready, with no pointers handed out and the
  -- results of others on the heap, and whatever libpq answers: the count is that of the pointers,
  -- the store is ready whenever there are none, no result is freed twice, and the heap holds the
  -- iterator's current result above those that nobody has a pointer to.
  pub Uses-Sound :
      (start : Datastore lib) (leaked : List (ℕ × PgResult)) (s : Datastore lib) (n : ℕ)
      → start.iter.state ≡ ready
      → start.tracked.reference ≡ 0
      → start.tracked.creator ≡ true
      → Owns lib start.iter leaked
      → Uses lib p c start s n
      → Sound lib s n
  unfolding data_ids data_dates data_calendar execute_ids execute_dates execute_calendar
  Uses-Sound start leaked s n st ref cr owns begin = record {
    counted = ref;
    small = omega arith;
    created = cr;
    idle = λ z. st;
    leaked = leaked;
    owns = owns;
  }
  Uses-Sound start leaked s n st ref cr owns (asks_ids {s = t} {n = k} ids topic u small) =
      guarded-Sound lib t k (λ d. execute_ids lib p d ids topic t.fetch_size)
        (λ d ready_now once.
          execute_query-Queried lib p (record d { query_text = _ }) _ topic _ ready_now once)
        small (Uses-Sound start leaked t k st ref cr owns u)
  Uses-Sound start leaked s n st ref cr owns (asks_dates {s = t} {n = k} from to ids u small) =
      guarded-Sound lib t k (λ d. execute_dates lib p d from to ids t.fetch_size)
        (λ d ready_now once.
          execute_query-Queried lib p (record d { query_text = _ }) _ _ _ ready_now once)
        small (Uses-Sound start leaked t k st ref cr owns u)
  Uses-Sound start leaked s n st ref cr owns (asks_calendar {s = t} {n = k} from to ids u small) =
      guarded-Sound lib t k (λ d. execute_calendar lib p c d from to ids t.fetch_size)
        (λ d ready_now once.
          execute_query-Queried lib p (record d { query_text = _ }) _ _ _ ready_now once)
        small (Uses-Sound start leaked t k st ref cr owns u)
  Uses-Sound start leaked s n st ref cr owns (sets_fetch_size {s = t} val u) =
      set_fetch_size-Sound lib t n val (Uses-Sound start leaked t n st ref cr owns u)
  Uses-Sound start leaked s n st ref cr owns (reads_on {s = t} {n = k} u) =
      next-Sound lib t k (Uses-Sound start leaked t (suc k) st ref cr owns u)
  Uses-Sound start leaked s n st ref cr owns (copies {s = t} {n = k} u small) =
      copy-Sound lib t k small (Uses-Sound start leaked t (suc k) st ref cr owns u)
  Uses-Sound start leaked s n st ref cr owns (drops {s = t} {n = k} u) =
      drop-Sound lib t n (Uses-Sound start leaked t (suc n) st ref cr owns u)
