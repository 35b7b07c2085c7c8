-- ===== src/Datastore/ThriftConverter.antt =====
-- source/datastore/ThriftConverter.h and ThriftConverter.cpp: an object for a topic, read from bytes
-- for two of the topics. The generated types and Thrift's reader are a parameter.
pub mod Reading
pub mod Tests
use api_pack.Base.{ℕ, ◌%◌, ◌^◌, Option, none, some, take}
use api_pack.Base.Text.{Text}
use api_pack.Datastore.Topics.{
  Topic, metamorphosis_station, metamorphosis_linuep, metamorphosis_image, metamorphosis_person,
  metamorphosis_program_tms_id, metamorphosis_affiliation, metamorphosis_market,
  metamorphosis_schedule_day, metamorphosis_provider, metamorphosis_headend,
  metamorphosis_rating_body, metamorphosis_rating_value, metamorphosis_animation,
  metamorphosis_award_type, metamorphosis_award_body, metamorphosis_genre,
  metamorphosis_production_company, metamorphosis_advisory, metamorphosis_holiday,
  metamorphosis_playoff, metamorphosis_team, metamorphosis_venue, metamorphosis_warning,
  metamorphosis_conference, metamorphosis_university,
}

-- `read` fills the object, or throws a `TTransportException` or something else.
pub data ReadResult (A : Type 0) : Type 0 where
  filled : A → ReadResult A
  transport_exception other_exception : ReadResult A

-- `fresh` is `new` of the topic's type; `read` is called on an object and what the buffer holds.
pub record Thrift : Type 1 where
  pub Object : Type 0
  pub fresh : Topic → Object
  pub read : Object → Text → ReadResult Object

-- The object, the null pointer, or an exception that is not caught.
pub data Made (A : Type 0) : Type 0 where
  object : A → Made A
  null thrown : Made A

module _ (thrift : Thrift) where
  open thrift use {Object, fresh, read}

  -- The `catch`: only a `TTransportException` is caught; the object is deleted.
  unfoldable pub made_of : ReadResult Object → Made Object
  made_of (filled o) = object o
  made_of transport_exception = null
  made_of other_exception = thrown

  -- `data` is the null pointer or points to bytes; the size is cast to `uint32_t`.
  unfoldable pub create_and_populate : Topic → Option Text → ℕ → Made Object
  unfolding made_of
  create_and_populate topic none size = object (fresh topic)
  create_and_populate topic (some bytes) size =
      made_of (read (fresh topic) (take (size % 2 ^ 32) bytes))

  unfoldable pub create_populated : Topic → Option Text → ℕ → Made Object
  unfolding create_and_populate
  create_populated metamorphosis_station bytes size =
      create_and_populate metamorphosis_station bytes size
  create_populated metamorphosis_linuep bytes size = object (fresh metamorphosis_linuep)
  create_populated metamorphosis_image bytes size = object (fresh metamorphosis_image)
  create_populated metamorphosis_person bytes size = object (fresh metamorphosis_person)
  create_populated metamorphosis_program_tms_id bytes size =
      object (fresh metamorphosis_program_tms_id)
  create_populated metamorphosis_affiliation bytes size = object (fresh metamorphosis_affiliation)
  create_populated metamorphosis_market bytes size = object (fresh metamorphosis_market)
  create_populated metamorphosis_schedule_day bytes size =
      create_and_populate metamorphosis_schedule_day bytes size
  create_populated metamorphosis_provider bytes size = object (fresh metamorphosis_provider)
  create_populated metamorphosis_headend bytes size = object (fresh metamorphosis_headend)
  create_populated metamorphosis_rating_body bytes size = object (fresh metamorphosis_rating_body)
  create_populated metamorphosis_rating_value bytes size = object (fresh metamorphosis_rating_value)
  create_populated metamorphosis_animation bytes size = object (fresh metamorphosis_animation)
  create_populated metamorphosis_award_type bytes size = object (fresh metamorphosis_award_type)
  create_populated metamorphosis_award_body bytes size = object (fresh metamorphosis_award_body)
  create_populated metamorphosis_genre bytes size = object (fresh metamorphosis_genre)
  create_populated metamorphosis_production_company bytes size =
      object (fresh metamorphosis_production_company)
  create_populated metamorphosis_advisory bytes size = object (fresh metamorphosis_advisory)
  create_populated metamorphosis_holiday bytes size = object (fresh metamorphosis_holiday)
  create_populated metamorphosis_playoff bytes size = object (fresh metamorphosis_playoff)
  create_populated metamorphosis_team bytes size = object (fresh metamorphosis_team)
  create_populated metamorphosis_venue bytes size = object (fresh metamorphosis_venue)
  create_populated metamorphosis_warning bytes size = object (fresh metamorphosis_warning)
  create_populated metamorphosis_conference bytes size = object (fresh metamorphosis_conference)
  create_populated metamorphosis_university bytes size = object (fresh metamorphosis_university)
