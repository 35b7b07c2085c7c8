-- ===== src/Datastore/ThriftConverter/Reading.antt =====
-- What ThriftConverter.cpp makes of the bytes of a row.
use api_pack.Base.{
  ℕ, zero, suc, ◌%◌, ◌^◌, ◌<◌, ◌≤◌, ◌≡◌, refl, ap, arith, some, [], ◌∷◌, length, take,
}
use api_pack.Base.Text.{Text}
use api_pack.Datastore.Topics.{Topic}
use api_pack.Datastore.ThriftConverter.{Thrift, made_of, create_and_populate}

take_all : (n : ℕ) (t : Text) → length t ≤ n → take n t ≡ t
take_all zero [] h = refl
take_all (suc n) [] h = refl
take_all zero (c ∷ t) h = absurd (omega arith)
take_all (suc n) (c ∷ t) h = ap (◌∷◌ c) (take_all n t (omega arith))

module _ (thrift : Thrift) where
  -- For bytes shorter than 2^32 the cast of the size cuts off nothing.
  pub create_and_populate_all :
      (topic : Topic) (bytes : Text)
      → length bytes < 2 ^ 32
      → create_and_populate thrift topic (some bytes) (length bytes)
        ≡ made_of thrift (thrift.read (thrift.fresh topic) bytes)
  unfolding create_and_populate
  create_and_populate_all topic bytes h =
      ap (λ t. made_of thrift (thrift.read (thrift.fresh topic) t))
        (take_all (length bytes % 2 ^ 32) bytes (omega arith))
