-- ===== src/Datastore/Iterator/Commands.antt =====
-- The state of DatastoreIterator.h and .cpp, its flags, and the commands that it sends.
use api_pack.Base.{ℕ, Bool, true, false, not, ◌&&◌, Option, none, some}
use api_pack.Base.Text.{Text}
use api_pack.Datastore.Libpq.{
  Libpq, Heap, PgResult, alloc, clear, deref, ExecStatus, command_ok, tuples_ok, failed,
  result_status,
}

pub data State : Type 0 where
  ready open_cursor : State

abbrev pub is_open : State → Bool
is_open ready = false
is_open open_cursor = true

-- source/datastore/DataObject.h: a length, and a pointer into a result (its pointer and the row).
pub record DataObject : Type 0 where
  pub size_in_bytes : ℕ
  pub thrift_object : Option (ℕ × ℕ)

-- `DataObject()`.
abbrev pub new_object : DataObject
new_object = record { size_in_bytes = 0; thrift_object = none }

module _ (lib : Libpq) where
  open lib use {Conn, is_ok, exec}

  pub record DatastoreIterator : Type 0 where
    pub error : Text
    pub fetch_text : Text
    pub close_text : Text
    pub query_text : Text
    pub result : Option ℕ
    pub state : State
    pub connection : Option Conn
    pub thread_id : Text
    pub connection_string : Text
    pub result_offset : ℕ
    pub was_error : Bool
    pub heap : Heap

  abbrev pub set_error : DatastoreIterator → DatastoreIterator
  set_error d = record d { was_error = true }

  abbrev pub reset_error : DatastoreIterator → DatastoreIterator
  reset_error d = record d { was_error = false }

  abbrev pub has_error : DatastoreIterator → Bool
  has_error d = d.was_error

  abbrev pub is_ready : DatastoreIterator → Bool
  is_ready d = not (is_open d.state)

  abbrev pub is_some_conn : Option Conn → Bool
  is_some_conn none = false
  is_some_conn (some c) = true

  abbrev pub is_valid : DatastoreIterator → Bool
  is_valid d = is_some_conn d.connection

  abbrev pub status_is_ok : Option Conn → Bool
  status_is_ok none = false
  status_is_ok (some c) = is_ok c

  abbrev pub is_connected : DatastoreIterator → Bool
  is_connected d = is_valid d && status_is_ok d.connection

  unfoldable pub run_on : DatastoreIterator → Conn × Option PgResult → DatastoreIterator × Option ℕ
  unfolding alloc
  run_on d (c, r) = let (h, k) = alloc d.heap r in (record d { connection = some c; heap = h }, k)

  unfoldable pub exec_on : DatastoreIterator → Option Conn → Text → DatastoreIterator × Option ℕ
  unfolding run_on
  exec_on d none command = (d, none)
  exec_on d (some c) command = run_on d (exec c command)

  -- `PQexec(mConnection, command)`: a null connection gives a null result.
  unfoldable pub pq_exec : DatastoreIterator → Text → DatastoreIterator × Option ℕ
  unfolding exec_on
  pq_exec d command = exec_on d d.connection command

  -- `setError()` unless the status is `PGRES_COMMAND_OK`.
  unfoldable pub note_failure : DatastoreIterator → ExecStatus → DatastoreIterator
  note_failure d command_ok = d
  note_failure d tuples_ok = set_error d
  note_failure d failed = set_error d

  -- `PQclear` of a result that is not the current one.
  unfoldable pub free : DatastoreIterator → Option ℕ → DatastoreIterator
  unfolding clear
  free d k = record d { heap = clear d.heap k }

  unfoldable pub check_and_clear : DatastoreIterator × Option ℕ → DatastoreIterator
  unfolding note_failure free deref
  check_and_clear (d, k) = free (note_failure d (result_status (deref d.heap k))) k

  -- Run a command, note an error unless it is `PGRES_COMMAND_OK`, and free its result.
  unfoldable pub exec_and_clear : DatastoreIterator → Text → DatastoreIterator
  unfolding pq_exec check_and_clear
  exec_and_clear d command = check_and_clear (pq_exec d command)
