-- ===== src/Datastore/Libpq/Transactions.antt =====
-- What PostgreSQL documents of a connection on which one transaction follows the other, each with
-- one cursor: BEGIN succeeds outside a transaction, a query that the server can answer declares a
-- cursor at its rows, and after END the connection is outside a transaction again.
use api_pack.Base.{ℕ, ◌≡◌, true, Option, some, List}
use api_pack.Base.Text.{Text, Decimal, codes}
use api_pack.Datastore.Topics.{Topic}
use api_pack.Datastore.Query.{fetch_command, close_command}
use api_pack.Datastore.Libpq.{Libpq, PgResult, command_ok}
use api_pack.Datastore.Libpq.Cursor.{Cursor}

-- The cursors are those of the thread `t`, with `n` rows for each FETCH.
pub record Transactions (lib : Libpq) (p : Decimal) (n : ℕ) (t : Text) : Type 1 where
  -- A connection outside a transaction, and one inside it that has no cursor.
  pub Idle : lib.Conn → Type 0
  pub Begun : lib.Conn → Type 0
  -- The rows with which the server answers a query of a topic.
  pub Selects : Topic → Text → List (Option Text) → Type 0
  pub cursor : (topic : Topic) → Cursor lib (fetch_command p n topic t) (close_command p topic t) n
  pub idle_ok : (c : lib.Conn) → Idle c → lib.is_ok c ≡ true
  pub begin_ok :
      (c : lib.Conn)
      → Idle c
      → (b : PgResult) × ((lib.exec c (codes "BEGIN")).1 ≡ some b)
        × (b.status ≡ command_ok)
        × Begun (lib.exec c (codes "BEGIN")).0
  pub query_ok :
      (c : lib.Conn) (topic : Topic) (query : Text) (rows : List (Option Text))
      → Begun c
      → Selects topic query rows
      → (r : PgResult) × ((lib.exec c query).1 ≡ some r)
        × (r.status ≡ command_ok)
        × (cursor topic).At (lib.exec c query).0 rows
  pub finished_idle : (topic : Topic) (c : lib.Conn) → (cursor topic).Finished c → Idle c
