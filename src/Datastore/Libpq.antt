-- ===== src/Datastore/Libpq.antt =====
-- What DatastoreIterator.cpp uses of PostgreSQL's client library, and the memory of its results.
-- A connection is a value that a command changes; a result is reached through a pointer (a number)
-- until `PQclear` frees it.
pub mod Replay
pub mod Cursor
pub mod Transactions
pub mod Rejection
pub mod Refusing
use api_pack.Base.{
  ℕ, ◌+◌, Bool, true, false, Option, none, some, List, [], ◌∷◌, length, ◌==◌, if◌then◌else◌,
  get_elem?,
}
use api_pack.Base.Text.{Text}

-- `ExecStatusType`, as far as the code tells the values apart.
pub data ExecStatus : Type 0 where
  command_ok tuples_ok failed : ExecStatus

-- A row is its first column, which is all that the code reads: `none` is SQL's null.
pub record PgResult : Type 0 where
  pub status : ExecStatus
  pub rows : List (Option Text)

-- `connectdb` and `exec` may return a null pointer (`none`).
pub record Libpq : Type 1 where
  pub Conn : Type 0
  pub connectdb : Text → Option Conn
  pub is_ok : Conn → Bool
  pub error_message : Option Conn → Text
  pub exec : Conn → Text → Conn × Option PgResult

-- The results that are allocated, newest first, and whether one that is not was freed.
pub record Heap : Type 0 where
  pub fresh : ℕ
  pub live : List (ℕ × PgResult)
  pub double_free : Bool

abbrev pub empty_heap : Heap
empty_heap = record { fresh = 0; live = []; double_free = false }

unfoldable pub find : ℕ → List (ℕ × PgResult) → Option PgResult
find k [] = none
find k ((j, r) ∷ rest) = if j == k then some r else find k rest

unfoldable pub remove : ℕ → List (ℕ × PgResult) → List (ℕ × PgResult)
remove k [] = []
remove k ((j, r) ∷ rest) = if j == k then rest else (j, r) ∷ remove k rest

-- The pointer that `PQexec` returns.
unfoldable pub alloc : Heap → Option PgResult → Heap × Option ℕ
alloc h none = (h, none)
alloc h (some r) = (record h { fresh = h.fresh + 1; live = (h.fresh, r) ∷ h.live }, some h.fresh)

unfoldable pub free_found : Heap → ℕ → Option PgResult → Heap
unfolding remove
free_found h k none = record h { double_free = true }
free_found h k (some r) = record h { live = remove k h.live }

-- `PQclear`: nothing on a null pointer.
unfoldable pub clear : Heap → Option ℕ → Heap
unfolding free_found find
clear h none = h
clear h (some k) = free_found h k (find k h.live)

-- The result behind a pointer; a null or freed one has none.
unfoldable pub deref : Heap → Option ℕ → Option PgResult
unfolding find
deref h none = none
deref h (some k) = find k h.live

-- `PQresultStatus` and `PQntuples` answer `failed` and 0 on a null pointer.
abbrev pub result_status : Option PgResult → ExecStatus
result_status none = failed
result_status (some r) = r.status

abbrev pub n_tuples : Option PgResult → ℕ
n_tuples none = 0
n_tuples (some r) = length r.rows

abbrev pub is_command_ok : ExecStatus → Bool
is_command_ok command_ok = true
is_command_ok tuples_ok = false
is_command_ok failed = false

abbrev pub is_tuples_ok : ExecStatus → Bool
is_tuples_ok command_ok = false
is_tuples_ok tuples_ok = true
is_tuples_ok failed = false

-- The first column of a row: `none` out of range, `some none` for SQL's null.
abbrev pub column : Option PgResult → ℕ → Option (Option Text)
column none i = none
column (some r) i = get_elem? r.rows i
