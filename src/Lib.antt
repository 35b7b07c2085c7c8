-- ===== src/Lib.antt =====
-- Verification library of ApiPack2, a server that hands out program data from a PostgreSQL store.
--
-- The parts of the program and the files that model them:
--   * source/datastore/DatastoreIterator.*: one query at a time over a cursor of the server. The
--     client calls `next` until it returns null; the texts of the commands are built from topics,
--     ids and dates. Datastore/Iterator.antt has the class, with one function for each method
--     (`next`, `closeAndReset` as close_and_reset, the four `executeQuery` as execute_query,
--     execute_ids, execute_dates and execute_calendar, `createConnection`, the constructor and
--     the destructor); Datastore/Query.antt has the texts. Datastore/Iterator/Stream.antt sees the
--     iterator as a stream of rows.
--   * libpq is a parameter: Datastore/Libpq.antt has the record of the calls, and the heap of
--     results, so that a result that is lost or freed twice is seen. Datastore/Libpq/Cursor.antt
--     states what PostgreSQL documents of cursors, Datastore/Libpq/Transactions.antt of transactions
--     that follow each other, Datastore/Libpq/Rejection.antt of a query that is rejected;
--     Datastore/Libpq/Replay.antt and Refusing.antt beside it are instances.
--   * source/datastore/Datastore.*: the store, which shares its iterator by counted pointers
--     (Datastore/Store.antt), over source/utils/IntrusiveTracked.h (Utils/IntrusiveTracked.antt).
--   * source/datastore/ScheduleDay.*: a station, a day and a year in 64 bits
--     (Datastore/ScheduleDay.antt); boost's dates are the record Calendar.
--   * source/datastore/Topics.*: Datastore/Topics.antt.
--   * source/datastore/DatastoreConnectionInfo.*: Datastore/ConnectionInfo.antt.
--   * source/datastore/ThriftConverter.*: Datastore/ThriftConverter.antt, with Thrift a parameter.
--   * source/tools/dataDump/dataDump.cpp: the query loops over the store with the objects of the
--     converter (Tools/DataDump/Objects.antt), and `main`: what it logs first
--     (Tools/DataDump/Main/Start.antt), the ids it asks for (Tools/DataDump/Main.antt), and its
--     queries (Tools/DataDump/Converting.antt). Tools/DataDump.antt has auxiliary loops without the
--     converter, for the proofs.
--   * source/handler: a request's handler (Handler/IoHandler.antt), which IOHandlerFactory makes
--     (Handler/IoHandlerFactory.antt), puts itself into a queue; the logic handler's thread
--     (Handler/LogicHandler.antt, its map in Handler/RequestMap.antt) takes it out and is told of the
--     end of a request by another queue. The queues are the record BlockingConcurrentQueue of
--     Handler/Messages.antt, which promises that nothing is lost or made up and leaves the order
--     open; Handler/ListQueue.antt is an instance.
--   * source/server/main.cpp: the factory and four logic handlers on one queue (Server.antt). Each
--     handler's model has the queue in a field, and a step of the server puts the shared one there.
--   * source/memorystore: the cache of the stations' schedules and the locks of its entries
--     (MemoryStore/GridCache.antt, MemoryStore/CacheEntry.antt).
--   * source/pipeline/Message.h: Pipeline/Message.antt. source/thriftHelpers: the operators of the
--     generated types (ThriftHelpers/ModelOperators.antt).
--   * source/utils/ObjectPool.h, SleepTimer.* and StopTimer.h: Utils/ObjectPool.antt,
--     Utils/SleepTimer.antt and Utils/StopTimer.antt, over readings of the clock.
--
-- Numbers are natural numbers with the wrap-around of their width written out; texts are lists of
-- code points. folly's printing of numbers is the record Decimal of Base/Text.antt, with the
-- instance Base/Printing.antt. The loop of dataDump.cpp and that over the answers run on fuel; one
-- round more than there are rows, or answers, is enough, since each round takes one away. A round
-- of the logic handler's loop is one step, and other threads act between the rounds; its thread
-- starts, ends and is joined. When the server has stopped, the logic handlers are deleted one after
-- the other (Closing of Server.antt) while those that are left go on. `try_dequeue` may fail on a
-- queue that has items; `wait_dequeue_timed` fails only when it times out or nothing is there.
--
-- Not modelled: log lines and the busy message, which nothing sends; CacheStatistics, which has
-- fields only, and SerializedDataObject, whose methods are empty; the pause of the stop timer,
-- which is a call of the system; the options of the HTTP server; the queues and the smart pointer,
-- which are copies of other projects' code; the constructor of the store, which writes through a
-- pointer that is not set: the store is given where it is used.
pub mod Base
pub mod Datastore
pub mod Server
pub mod Handler
pub mod MemoryStore
pub mod Pipeline
pub mod ThriftHelpers
pub mod Utils
pub mod Tools
