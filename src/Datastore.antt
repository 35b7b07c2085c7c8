-- ===== src/Datastore.antt =====
-- source/datastore: ids, topics, the query iterator and the store.
pub mod ScheduleDay
pub mod Topics
pub mod Query
pub mod Libpq
pub mod Iterator
pub mod Store
pub mod ConnectionInfo
pub mod ThriftConverter
