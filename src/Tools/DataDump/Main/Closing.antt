-- ===== src/Tools/DataDump/Main/Closing.antt =====
-- The end of `main` of dataDump.cpp: the store on a connection that is at rest is deleted.
use api_pack.Base.{ℕ, ◌≡◌, refl, ap, ◌∙◌, true, ◌&&◌, none}
use api_pack.Base.Text.{Text, Decimal}
use api_pack.Datastore.Libpq.{Libpq}
use api_pack.Datastore.Libpq.Transactions.{Transactions}
use api_pack.Datastore.Iterator.{status_is_ok, is_some_conn, destruct, close_and_reset}
use api_pack.Datastore.Store
use api_pack.Datastore.Store.{Datastore, destruct_store}
use api_pack.Tools.DataDump.Main.Sequence.{Rested}

module _ (lib : Libpq) (p : Decimal) (t : Text) (pg : Transactions lib p 2 t) (fuel : ℕ) where
  pub Rested-is_connected :
      (s : Datastore lib) → Rested lib p t pg fuel s → Store.is_connected lib s ≡ true
  unfolding Store.is_connected
  Rested-is_connected s r =
      ap (λ k. is_some_conn lib k && status_is_ok lib k) r.connected ∙ pg.idle_ok r.conn r.idle

  -- The store that is deleted has no connection; what it did not free stays allocated.
  pub destruct_store_lem :
      (s : Datastore lib)
      → Rested lib p t pg fuel s
      → ((destruct_store lib s).iter.connection ≡ none)
        × ((destruct_store lib s).iter.was_error ≡ s.iter.was_error)
        × ((destruct_store lib s).iter.heap ≡ s.iter.heap)
  unfolding destruct_store destruct close_and_reset
  destruct_store_lem s r = rw (r.no_references, r.is_ready) (refl, refl, refl)
