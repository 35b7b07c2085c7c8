-- ===== src/ThriftHelpers/ModelOperators/Tests.antt =====
-- Types whose fields are all one number.
use api_pack.Base.{ℕ, arith, ltb, All}
use api_pack.ThriftHelpers.ModelOperators.{
  attribute, related_station, description, country, team_member, name, id, text, eid, numeric,
  person_name_id, Generated,
}
use api_pack.ThriftHelpers.ModelOperators.Orders.{Total, OrderedBy, sports, less_than_lem}

abbrev numbers : Generated
numbers = record { Struct = λ m. ℕ; Value = λ m f. ℕ; get_field = λ m f a. a; less = λ m f. ltb }

ltb-Total : Total ltb
ltb-Total = record {
  irreflexive = λ a. ground arith;
  transitive = λ a b c ab bc. ground (arith, ab, bc);
  total = λ a b. ground arith;
}

less_than_lem_example :
    OrderedBy numbers name attribute
    × OrderedBy numbers id related_station
    × OrderedBy numbers text description
    × OrderedBy numbers numeric country
    × OrderedBy numbers person_name_id team_member
    × All (OrderedBy numbers eid) sports
less_than_lem_example = less_than_lem numbers (λ m f. ltb-Total)
