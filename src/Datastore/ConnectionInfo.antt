-- ===== src/Datastore/ConnectionInfo.antt =====
-- source/datastore/DatastoreConnectionInfo.h and DatastoreConnectionInfo.cpp: the addresses of the
-- databases, used in turn. The configuration is what the code reads of it: `none` for a key that is
-- missing or null.
pub mod Rotation
mod Tests
use api_pack.Base.{
  ℕ, zero, suc, ◌+◌, ◌%◌, ◌^◌, Option, none, some, List, [], ◌∷◌, ◌==◌, length, get_elem?,
  if◌then◌else◌,
}
use api_pack.Base.Text.{Text}

pub record DatabaseConfig : Type 0 where
  pub connections : Option (List Text)
  pub fetch_size : Option ℕ

pub record DatastoreConnectionInfo : Type 0 where
  pub default_fetch_size : ℕ
  pub connection_strings : List Text
  pub last_uri : ℕ

read_connections : Option (List Text) → List Text
read_connections none = []
read_connections (some uris) = uris

-- A number of the configuration is cast to `size_t`.
read_fetch_size : Option ℕ → ℕ
read_fetch_size none = 500
read_fetch_size (some n) = n % 2 ^ 64

unfoldable pub construct : Option DatabaseConfig → DatastoreConnectionInfo
unfolding read_connections read_fetch_size
construct none = record { default_fetch_size = 500; connection_strings = []; last_uri = 0 }
construct (some c) = record {
  default_fetch_size = read_fetch_size c.fetch_size;
  connection_strings = read_connections c.connections;
  last_uri = 0;
}

advance : DatastoreConnectionInfo → DatastoreConnectionInfo
advance i =
    let next = (i.last_uri + 1) % 2 ^ 64 in
    record i { last_uri = if next == length i.connection_strings then 0 else next }

uri_at : DatastoreConnectionInfo → DatastoreConnectionInfo × Option Text
uri_at i = (i, get_elem? i.connection_strings i.last_uri)

next_of : List Text → DatastoreConnectionInfo → DatastoreConnectionInfo × Option Text
unfolding advance uri_at
next_of [] i = (i, some [])
next_of (_ ∷ _) i = uri_at (advance i)

-- `getNextUri()`: the empty text if there is no address; `none` for an access out of range.
unfoldable pub get_next_uri : DatastoreConnectionInfo → DatastoreConnectionInfo × Option Text
unfolding next_of
get_next_uri i = next_of i.connection_strings i
