-- ===== src/Tools/DataDump/Objects/Readings.antt =====
-- What `testQuery` of dataDump.cpp makes of the rows of a query, told without the converter's code.
use mathlib.Core.Path.{ap₂}
use api_pack.Base.{
  ◌^◌, ◌<◌, ◌≡◌, refl, ap, ◌∙◌, All, Option, none, some, List, [], ◌∷◌, length, map,
}
use api_pack.Base.Text.{Text}
use api_pack.Datastore.Topics.{
  Topic, metamorphosis_station, metamorphosis_linuep, metamorphosis_image, metamorphosis_person,
  metamorphosis_program_tms_id, metamorphosis_affiliation, metamorphosis_market,
  metamorphosis_schedule_day, metamorphosis_provider, metamorphosis_headend,
  metamorphosis_rating_body, metamorphosis_rating_value, metamorphosis_animation,
  metamorphosis_award_type, metamorphosis_award_body, metamorphosis_genre,
  metamorphosis_production_company, metamorphosis_advisory, metamorphosis_holiday,
  metamorphosis_playoff, metamorphosis_team, metamorphosis_venue, metamorphosis_warning,
  metamorphosis_conference, metamorphosis_university, number,
}
use api_pack.Datastore.Iterator.Fetching.{seen_row}
use api_pack.Datastore.ThriftConverter.{
  Thrift, ReadResult, filled, transport_exception, other_exception, create_populated,
  create_and_populate, made_of,
}
use api_pack.Datastore.ThriftConverter.Reading.{create_and_populate_all}
use api_pack.Tools.DataDump.Objects.{
  Converted, keeps, goes_on, crashes, escapes, Ending, finished, crashed, escaped, convert_row,
  read_fields,
}
use api_pack.Tools.DataDump.Objects.Outcomes.{convert_all, add_converted}

-- The bytes of a row are fewer than 2^32.
unfoldable pub Fits : Option Text → Type 0
Fits none = Unit
Fits (some bytes) = length bytes < 2 ^ 32

module _ (thrift : Thrift) where
  -- A reader that fills the object: it is kept. A `TTransportException` makes a null pointer, which
  -- is read through; any other exception leaves the query.
  read_outcome : ReadResult thrift.Object → Converted thrift.Object
  read_outcome (filled o) = keeps o
  read_outcome transport_exception = crashes
  read_outcome other_exception = escapes

  -- SQL's null leaves the fresh object.
  pub bytes_outcome : Topic → Option Text → Converted thrift.Object
  unfolding read_outcome
  bytes_outcome topic none = keeps (thrift.fresh topic)
  bytes_outcome topic (some bytes) = read_outcome (thrift.read (thrift.fresh topic) bytes)

  -- Stations and schedule days are converted, no other topic is.
  pub row_outcome : Topic → Option Text → Converted thrift.Object
  unfolding bytes_outcome
  row_outcome metamorphosis_station row = bytes_outcome metamorphosis_station row
  row_outcome metamorphosis_linuep row = goes_on
  row_outcome metamorphosis_image row = goes_on
  row_outcome metamorphosis_person row = goes_on
  row_outcome metamorphosis_program_tms_id row = goes_on
  row_outcome metamorphosis_affiliation row = goes_on
  row_outcome metamorphosis_market row = goes_on
  row_outcome metamorphosis_schedule_day row = bytes_outcome metamorphosis_schedule_day row
  row_outcome metamorphosis_provider row = goes_on
  row_outcome metamorphosis_headend row = goes_on
  row_outcome metamorphosis_rating_body row = goes_on
  row_outcome metamorphosis_rating_value row = goes_on
  row_outcome metamorphosis_animation row = goes_on
  row_outcome metamorphosis_award_type row = goes_on
  row_outcome metamorphosis_award_body row = goes_on
  row_outcome metamorphosis_genre row = goes_on
  row_outcome metamorphosis_production_company row = goes_on
  row_outcome metamorphosis_advisory row = goes_on
  row_outcome metamorphosis_holiday row = goes_on
  row_outcome metamorphosis_playoff row = goes_on
  row_outcome metamorphosis_team row = goes_on
  row_outcome metamorphosis_venue row = goes_on
  row_outcome metamorphosis_warning row = goes_on
  row_outcome metamorphosis_conference row = goes_on
  row_outcome metamorphosis_university row = goes_on

  -- An object more, or the end.
  outcome_then : Converted thrift.Object → Ending × List thrift.Object → Ending × List thrift.Object
  outcome_then (keeps x) (ending, objects) = (ending, x ∷ objects)
  outcome_then goes_on (ending, objects) = (ending, objects)
  outcome_then crashes (ending, objects) = (crashed, [])
  outcome_then escapes (ending, objects) = (escaped, [])

  -- How the query ends, and the objects that it made, by its rows.
  pub rows_outcome : Topic → List (Option Text) → Ending × List thrift.Object
  unfolding row_outcome outcome_then
  rows_outcome topic [] = (finished, [])
  rows_outcome topic (row ∷ rows) = outcome_then (row_outcome topic row) (rows_outcome topic rows)

  read_fields-read_outcome :
      (r : ReadResult thrift.Object) → read_fields (made_of thrift r) ≡ read_outcome r
  unfolding read_fields made_of read_outcome
  read_fields-read_outcome (filled o) = refl
  read_fields-read_outcome transport_exception = refl
  read_fields-read_outcome other_exception = refl

  read_bytes :
      (topic : Topic) (row : Option Text)
      → Fits row
      → let (size, bytes) = seen_row row in
        read_fields (create_and_populate thrift topic bytes size) ≡ bytes_outcome topic row
  unfolding Fits bytes_outcome create_and_populate read_fields
  read_bytes topic none h = refl
  read_bytes topic (some bytes) h =
      ap (λ m. read_fields m) (create_and_populate_all thrift topic bytes h)
      ∙ read_fields-read_outcome (thrift.read (thrift.fresh topic) bytes)

  convert_row-row_outcome :
      (topic : Topic) (row : Option Text)
      → Fits row
      → convert_row thrift topic (seen_row row) ≡ row_outcome topic row
  unfolding convert_row row_outcome create_populated number
  convert_row-row_outcome metamorphosis_station row h = read_bytes metamorphosis_station row h
  convert_row-row_outcome metamorphosis_linuep row h = refl
  convert_row-row_outcome metamorphosis_image row h = refl
  convert_row-row_outcome metamorphosis_person row h = refl
  convert_row-row_outcome metamorphosis_program_tms_id row h = refl
  convert_row-row_outcome metamorphosis_affiliation row h = refl
  convert_row-row_outcome metamorphosis_market row h = refl
  convert_row-row_outcome metamorphosis_schedule_day row h =
      read_bytes metamorphosis_schedule_day row h
  convert_row-row_outcome metamorphosis_provider row h = refl
  convert_row-row_outcome metamorphosis_headend row h = refl
  convert_row-row_outcome metamorphosis_rating_body row h = refl
  convert_row-row_outcome metamorphosis_rating_value row h = refl
  convert_row-row_outcome metamorphosis_animation row h = refl
  convert_row-row_outcome metamorphosis_award_type row h = refl
  convert_row-row_outcome metamorphosis_award_body row h = refl
  convert_row-row_outcome metamorphosis_genre row h = refl
  convert_row-row_outcome metamorphosis_production_company row h = refl
  convert_row-row_outcome metamorphosis_advisory row h = refl
  convert_row-row_outcome metamorphosis_holiday row h = refl
  convert_row-row_outcome metamorphosis_playoff row h = refl
  convert_row-row_outcome metamorphosis_team row h = refl
  convert_row-row_outcome metamorphosis_venue row h = refl
  convert_row-row_outcome metamorphosis_warning row h = refl
  convert_row-row_outcome metamorphosis_conference row h = refl
  convert_row-row_outcome metamorphosis_university row h = refl

  add_converted-outcome_then :
      (topic : Topic) (c : Converted thrift.Object) (rest : Ending × List thrift.Object)
      → add_converted (convert_row thrift topic) c rest ≡ outcome_then c rest
  unfolding add_converted outcome_then
  add_converted-outcome_then topic (keeps x) rest = refl
  add_converted-outcome_then topic goes_on rest = refl
  add_converted-outcome_then topic crashes rest = refl
  add_converted-outcome_then topic escapes rest = refl

  pub convert_all-rows_outcome :
      (topic : Topic) (rows : List (Option Text))
      → All Fits rows
      → convert_all (convert_row thrift topic) (map seen_row rows) ≡ rows_outcome topic rows
  unfolding convert_all rows_outcome
  convert_all-rows_outcome topic [] fit = refl
  convert_all-rows_outcome topic (row ∷ rows) fit =
      add_converted-outcome_then topic (convert_row thrift topic (seen_row row))
        (convert_all (convert_row thrift topic) (map seen_row rows))
      ∙ ap₂ outcome_then (convert_row-row_outcome topic row fit.0)
          (convert_all-rows_outcome topic rows fit.1)
