-- ===== src/Datastore/Iterator/Connection.antt =====
-- The constructor, the destructor and `createConnection` of DatastoreIterator.cpp.
use api_pack.Base.{false, not, ◌||◌, none, [], ◌++◌, if◌then◌else◌}
use api_pack.Base.Text.{Text, codes}
use api_pack.Datastore.Libpq.{Libpq, Heap}
use api_pack.Datastore.Iterator.Commands.{
  DatastoreIterator, set_error, reset_error, is_valid, is_connected, ready,
}
use api_pack.Datastore.Iterator.Rows.{close_and_reset}

module _ (lib : Libpq) where
  open lib use {connectdb, error_message}

  -- `PQfinish` ends the connection.
  destroy_connection : DatastoreIterator lib → DatastoreIterator lib
  destroy_connection d = record d { connection = none }

  unfoldable pub connect_error : Text → Text → Text
  connect_error connection_string message =
      codes "Error connecting to PostgreSQL with connection string: "
      ++ (connection_string ++ (codes ": " ++ (message ++ codes " ")))

  unfoldable pub create_connection : DatastoreIterator lib → DatastoreIterator lib
  unfolding destroy_connection connect_error
  create_connection d =
      if is_valid lib d
      then d
      else (let d' = record (destroy_connection d) { connection = connectdb d.connection_string } in
          if not (is_valid lib d') || not (is_connected lib d')
          then record (set_error lib d') {
            error = connect_error d'.connection_string (error_message d'.connection);
          }
          else d')

  -- `DatastoreIterator(connectionString)` on the thread `thread`. The fields that the source leaves
  -- unset until the end of the constructor are set at once.
  unfoldable pub construct : Text → Text → Heap → DatastoreIterator lib
  unfolding create_connection
  construct connection_string thread h =
      let d = create_connection (record {
        error = [];
        fetch_text = [];
        close_text = [];
        query_text = [];
        result = none;
        state = ready;
        connection = none;
        thread_id = thread;
        connection_string = connection_string;
        result_offset = 0;
        was_error = false;
        heap = h;
      }) in
      reset_error lib (record d { state = ready })

  -- `~DatastoreIterator()`: `mResult` ends with the object, so no pointer to a result is left.
  unfoldable pub destruct : DatastoreIterator lib → DatastoreIterator lib
  unfolding close_and_reset destroy_connection
  destruct d = record (destroy_connection (close_and_reset lib d)) { result = none }
