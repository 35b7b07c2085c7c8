-- ===== src/ThriftHelpers/ModelOperators.antt =====
-- source/thriftHelpers/ThriftModelOperators.cpp: `operator<` of seventeen generated types, each by
-- one field. The types, their fields and the orders of the fields are parameters.
pub mod Orders
mod Tests
use api_pack.Base.{Bool}

pub data Model : Type 0 where
  attribute related_station description sport event organization : Model
  organization_type organization_season sport_franchise sport_franchise_season : Model
  venue venue_former_name venue_capacity event_type college country team_member : Model

pub data Field : Type 0 where
  name id text eid numeric person_name_id : Field

-- The generated types, with `operator<` of their fields' values.
pub record Generated : Type 1 where
  pub Struct : Model → Type 0
  pub Value : Model → Field → Type 0
  pub get_field : (m : Model) (f : Field) → Struct m → Value m f
  pub less : (m : Model) (f : Field) → Value m f → Value m f → Bool

-- The field by which each operator compares.
unfoldable pub compared : Model → Field
compared attribute = name
compared related_station = id
compared description = text
compared sport = eid
compared event = eid
compared organization = eid
compared organization_type = eid
compared organization_season = eid
compared sport_franchise = eid
compared sport_franchise_season = eid
compared venue = eid
compared venue_former_name = eid
compared venue_capacity = eid
compared event_type = eid
compared college = eid
compared country = numeric
compared team_member = person_name_id

-- `operator<` of a type.
unfoldable pub less_than : (g : Generated) (m : Model) → g.Struct m → g.Struct m → Bool
less_than g m a b =
    g.less m (compared m) (g.get_field m (compared m) a) (g.get_field m (compared m) b)
