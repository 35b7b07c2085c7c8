-- ===== src/Datastore/ThriftConverter/Tests.antt =====
-- Objects that are a topic and the bytes that were read; a reader that wants a byte.
use api_pack.Base.{[], ◌∷◌}
use api_pack.Base.Text.{Text}
use api_pack.Datastore.Topics.{Topic}
use api_pack.Datastore.ThriftConverter.{Thrift, ReadResult, filled, transport_exception}

abbrev read_bytes : Topic × Text → Text → ReadResult (Topic × Text)
read_bytes o [] = transport_exception
read_bytes (topic, old) (c ∷ t) = filled (topic, c ∷ t)

abbrev pub reader : Thrift
reader = record { Object = Topic × Text; fresh = λ topic. (topic, []); read = read_bytes }
