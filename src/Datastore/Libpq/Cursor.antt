-- ===== src/Datastore/Libpq/Cursor.antt =====
-- What PostgreSQL documents of a cursor inside a transaction: `FETCH n` returns the next `n` rows
-- (fewer at the end), and `CLOSE` and `END` succeed.
use api_pack.Base.{ℕ, ◌≡◌, Option, some, List, take, drop}
use api_pack.Base.Text.{Text, codes}
use api_pack.Datastore.Libpq.{Libpq, PgResult, command_ok, tuples_ok}

pub record Cursor (lib : Libpq) (fetch_text close_text : Text) (n : ℕ) : Type 1 where
  -- The rows that are left, a cursor that was closed, and a transaction that has ended.
  pub At : lib.Conn → List (Option Text) → Type 0
  pub Closed : lib.Conn → Type 0
  pub Finished : lib.Conn → Type 0
  pub fetch_rows :
      (c : lib.Conn) (rows : List (Option Text))
      → At c rows
      → ((lib.exec c fetch_text).1 ≡ some (record { status = tuples_ok; rows = take n rows }))
        × At (lib.exec c fetch_text).0 (drop n rows)
  pub close_ok :
      (c : lib.Conn) (rows : List (Option Text))
      → At c rows
      → (r : PgResult) × ((lib.exec c close_text).1 ≡ some r)
        × (r.status ≡ command_ok)
        × Closed (lib.exec c close_text).0
  pub end_ok :
      (c : lib.Conn)
      → Closed c
      → (r : PgResult) × ((lib.exec c (codes "END")).1 ≡ some r)
        × (r.status ≡ command_ok)
        × Finished (lib.exec c (codes "END")).0
