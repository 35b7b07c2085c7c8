-- ===== src/Datastore/Store.antt =====
-- source/datastore/Datastore.h and Datastore.cpp: the store with its one iterator, which clients
-- share by counted pointers. The constructor of the source leaves `mDataIter` unset; the model
-- starts where it points to an iterator whose creator is the store.
mod Tests
pub mod Sessions
pub mod Clients
use api_pack.Base.{
  ℕ, ◌+◌, ◌%◌, ◌^◌, ◌≡◌, Bool, true, false, not, ◌&&◌, Option, none, some, List, ◌==◌, ltb,
  if◌then◌else◌,
}
use api_pack.Base.Text.{Text, Decimal}
use api_pack.Datastore.Topics.{Topic}
use api_pack.Datastore.ScheduleDay.{Calendar}
use api_pack.Datastore.Libpq.{Libpq}
use api_pack.Datastore.Iterator.{
  DatastoreIterator, execute_ids, execute_dates, execute_calendar, close_and_reset, destruct,
}
use api_pack.Datastore.Iterator
use api_pack.Utils.IntrusiveTracked.{
  IntrusiveTracked, Outcome, kept, given_back, deleted, intrusive_ptr_add_ref,
  intrusive_ptr_release,
}

module _ (lib : Libpq) where
  pub record Datastore : Type 0 where
    pub fetch_size : ℕ
    pub connection_info : Text
    -- The address of the iterator, its reference count and the iterator.
    pub data_iter : ℕ
    pub tracked : IntrusiveTracked
    pub iter : DatastoreIterator lib

  unfoldable pub set_fetch_size : Datastore → ℕ → Datastore
  set_fetch_size s val =
      let s' = record s { fetch_size = val } in
      if ltb s'.fetch_size 1 then record s' { fetch_size = 1 } else s'

  unfoldable pub is_valid : Datastore → Bool
  is_valid s = Iterator.is_valid lib s.iter

  unfoldable pub is_connected : Datastore → Bool
  is_connected s = Iterator.is_connected lib s.iter

  -- `iter=mDataIter; return iter;`: the pointer that is returned counts once.
  hand_out : Datastore → Datastore × Option ℕ
  unfolding intrusive_ptr_add_ref
  hand_out s = (record s { tracked = intrusive_ptr_add_ref s.tracked }, some s.data_iter)

  -- `none` is the null pointer.
  unfoldable pub guarded :
      Datastore → (DatastoreIterator lib → DatastoreIterator lib) → Datastore × Option ℕ
  unfolding hand_out
  guarded s execute =
      if not (Iterator.is_ready lib s.iter)
      then (s, none)
      else hand_out (record s { iter = execute s.iter })

  module _ (p : Decimal) where
    unfoldable pub data_ids : Datastore → List ℕ → Topic → Datastore × Option ℕ
    unfolding guarded
    data_ids s ids topic = guarded s (λ d. execute_ids lib p d ids topic s.fetch_size)

    unfoldable pub data_dates : Datastore → Text → Text → List ℕ → Datastore × Option ℕ
    unfolding guarded
    data_dates s date_from date_to stations =
        guarded s (λ d. execute_dates lib p d date_from date_to stations s.fetch_size)

    unfoldable pub data_calendar :
        (c : Calendar) → Datastore → c.Date → c.Date → List ℕ → Datastore × Option ℕ
    unfolding guarded
    data_calendar c s date_from date_to stations =
        guarded s (λ d. execute_calendar lib p c d date_from date_to stations s.fetch_size)

  -- `release(object)`: only the store's own iterator is closed.
  unfoldable pub release : Datastore → Option ℕ → Datastore
  release s none = s
  release s (some object) =
      if object == s.data_iter then record s { iter = close_and_reset lib s.iter } else s

  settle : Datastore → IntrusiveTracked × Outcome → Datastore
  unfolding release
  settle s (t, kept) = record s { tracked = t }
  settle s (t, given_back) = release (record s { tracked = t }) (some s.data_iter)
  settle s (t, deleted) = record s { tracked = t; iter = destruct lib s.iter }

  -- A client's pointer to the iterator goes out of scope.
  unfoldable pub drop_pointer : Datastore → Datastore
  unfolding settle intrusive_ptr_release
  drop_pointer s = settle s (intrusive_ptr_release s.tracked)

  -- `~Datastore()`.
  unfoldable pub destruct_store : Datastore → Datastore
  destruct_store s = if s.tracked.reference == 0 then record s { iter = destruct lib s.iter } else s
