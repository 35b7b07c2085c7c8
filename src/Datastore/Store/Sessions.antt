-- ===== src/Datastore/Store/Sessions.antt =====
-- Who may query a store of Datastore.cpp, and when.
use api_pack.Base.{ℕ, ◌≤◌, ◌≡◌, ◌⊎◌, refl, arith, true, false, Option, none, some, List, ==_self}
use api_pack.Base.Text.{Text, Decimal}
use api_pack.Datastore.Topics.{Topic}
use api_pack.Datastore.ScheduleDay.{Calendar}
use api_pack.Datastore.Libpq.{Libpq}
use api_pack.Datastore.Iterator
use api_pack.Datastore.Iterator.{DatastoreIterator, ready, close_and_reset, next}
use api_pack.Datastore.Iterator.Keeping.{nexts}
use api_pack.Datastore.Store.{
  Datastore, data_ids, data_dates, data_calendar, drop_pointer, release, set_fetch_size, guarded,
  hand_out, settle,
}
use api_pack.Utils.IntrusiveTracked.{intrusive_ptr_add_ref, intrusive_ptr_release, release_object}

module _ (lib : Libpq) where
  -- A client that is handed the iterator, calls `next` some times and drops its pointer.
  pub use_and_drop : ℕ → Datastore lib × Option ℕ → Datastore lib
  unfolding nexts drop_pointer
  use_and_drop n (s, none) = s
  use_and_drop n (s, some k) = drop_pointer lib (record s { iter = nexts lib n s.iter })

module _ (lib : Libpq) (p : Decimal) (c : Calendar) where
  -- While a cursor is open, each of the three `data` calls returns the null pointer and leaves the
  -- store as it is.
  pub data_refused :
      (s : Datastore lib) (ids : List ℕ) (topic : Topic) (from to : Text) (a b : c.Date)
      → Iterator.is_ready lib s.iter ≡ false
      → (data_ids lib p s ids topic ≡ (s, none))
        × (data_dates lib p s from to ids ≡ (s, none))
        × (data_calendar lib p c s a b ids ≡ (s, none))
  unfolding data_ids data_dates data_calendar guarded
  data_refused s ids topic from to a b e = (rw e, rw e, rw e)

module _ (lib : Libpq) where
  -- The last pointer gives the iterator back to the store, which closes it.
  pub drop_last :
      (s : Datastore lib)
      → s.tracked.reference ≡ 1
      → s.tracked.creator ≡ true
      → drop_pointer lib s ≡ record s {
        tracked = record { reference = 0; creator = true };
        iter = close_and_reset lib s.iter;
      }
  unfolding drop_pointer settle release intrusive_ptr_release release_object
  drop_last s r k = rw (r, k, ==_self) refl

module _ (lib : Libpq) (p : Decimal) where
  -- On a ready store without references, `data` of ids hands out the iterator and counts it once;
  -- however often the client then calls `next`, once its pointer is dropped the store is ready
  -- and without references again, so the next query is not refused.
  pub session-IsReady :
      (s : Datastore lib) (ids : List ℕ) (topic : Topic) (n : ℕ)
      → Iterator.is_ready lib s.iter ≡ true
      → s.tracked.reference ≡ 0
      → s.tracked.creator ≡ true
      → let x = data_ids lib p s ids topic in
        let s' = use_and_drop lib n x in
        (x.1 ≡ some s.data_iter)
        × (x.0.tracked.reference ≡ 1)
        × (Iterator.is_ready lib s'.iter ≡ true)
        × (s'.tracked.reference ≡ 0)
  unfolding data_ids guarded hand_out use_and_drop drop_pointer intrusive_ptr_add_ref
      intrusive_ptr_release release_object release close_and_reset settle
  session-IsReady s ids topic n e r k = rw (e, r, k, ==_self) (refl, refl, refl, refl)

module _ (lib : Libpq) where
  -- `setFetchSize` leaves a fetch size of at least 1 and at least the value, which is the value
  -- itself or 1.
  pub set_fetch_size_pos :
      (s : Datastore lib) (val : ℕ)
      → (1 ≤ (set_fetch_size lib s val).fetch_size)
        × (val ≤ (set_fetch_size lib s val).fetch_size)
        × (((set_fetch_size lib s val).fetch_size ≡ val)
            ⊎ ((set_fetch_size lib s val).fetch_size ≡ 1))
  unfolding set_fetch_size
  set_fetch_size_pos s val = (ground arith, ground arith, ground arith)
