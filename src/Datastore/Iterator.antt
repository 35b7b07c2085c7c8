-- ===== src/Datastore/Iterator.antt =====
-- source/datastore/DatastoreIterator.h and DatastoreIterator.cpp: one query at a time over a cursor
-- of PostgreSQL. The heap of results is part of the state; log lines are left out.
mod Tests
pub mod Commands
pub mod Rows
pub mod Queries
pub mod Connection
pub mod Cases
pub mod Frame
pub mod Leak
pub mod Errors
pub mod Keeping
pub mod Executing
pub mod Fetching
pub mod Stream
pub mod Client
pub mod Memory
pub mod Lifetime
pub mod Rejected
pub mod Refused
unfoldable pub use Commands.*
unfoldable pub use Rows.*
unfoldable pub use Queries.*
unfoldable pub use Connection.*
