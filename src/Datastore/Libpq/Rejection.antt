-- ===== src/Datastore/Libpq/Rejection.antt =====
-- What PostgreSQL documents of a query that it rejects: the error aborts the transaction, in which
-- each further command fails until END, which leaves it; and FETCH fails outside a transaction.
use api_pack.Base.{◌≡◌, some}
use api_pack.Base.Text.{Text, codes}
use api_pack.Datastore.Libpq.{Libpq, PgResult, ExecStatus, command_ok, failed}

-- The command leads from a connection to one that is as `After` tells, with a result of the status.
abbrev pub Answers : (lib : Libpq) → lib.Conn → Text → ExecStatus → (lib.Conn → Type 0) → Type 0
Answers lib c command status After =
    (r : PgResult) × ((lib.exec c command).1 ≡ some r)
    × (r.status ≡ status)
    × After (lib.exec c command).0

pub record Rejection (lib : Libpq) (query fetch_text close_text : Text) : Type 1 where
  -- A connection outside a transaction, one inside it, and one whose transaction was aborted.
  pub Idle : lib.Conn → Type 0
  pub Begun : lib.Conn → Type 0
  pub Aborted : lib.Conn → Type 0
  pub begin_ok : (c : lib.Conn) → Idle c → Answers lib c (codes "BEGIN") command_ok Begun
  pub query_fails : (c : lib.Conn) → Begun c → Answers lib c query failed Aborted
  pub close_fails : (c : lib.Conn) → Aborted c → Answers lib c close_text failed Aborted
  pub end_ok : (c : lib.Conn) → Aborted c → Answers lib c (codes "END") command_ok Idle
  pub fetch_fails : (c : lib.Conn) → Idle c → Answers lib c fetch_text failed Idle
