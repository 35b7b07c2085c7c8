-- ===== src/ThriftHelpers/ModelOperators/Orders.antt =====
-- What std::set asks of the operators of ThriftModelOperators.cpp.
use api_pack.Base.{◌≡◌, ◌↔◌, sym, ap, ◌∙◌, Bool, true, false, ◌⊎◌, inl, inr, List, [], ◌∷◌, All}
use api_pack.ThriftHelpers.ModelOperators.{
  Model, attribute, related_station, description, sport, event, organization, organization_type,
  organization_season, sport_franchise, sport_franchise_season, venue, venue_former_name,
  venue_capacity, event_type, college, country, team_member, Field, name, id, text, eid, numeric,
  person_name_id, Generated, compared, less_than,
}

-- What `operator<` of texts and of numbers is.
pub record Total {A : Type 0} (less : A → A → Bool) : Type 0 where
  pub irreflexive : (a : A) → less a a ≡ false
  pub transitive : (a b c : A) → less a b ≡ true → less b c ≡ true → less a c ≡ true
  pub total : (a b : A) → (less a b ≡ true) ⊎ (a ≡ b) ⊎ (less b a ≡ true)

-- A strict weak order, in which two values are equivalent, so that a set keeps only one of them,
-- exactly if they have the same key.
pub record Keyed {A K : Type 0} (key : A → K) (less : A → A → Bool) : Type 0 where
  pub irreflexive : (a : A) → less a a ≡ false
  pub transitive : (a b c : A) → less a b ≡ true → less b c ≡ true → less a c ≡ true
  pub equivalent : (a b : A) → ((less a b ≡ false) × (less b a ≡ false)) ↔ (key a ≡ key b)

by_key-Keyed :
    {A K : Type 0} (key : A → K) (less : K → K → Bool)
    → Total less
    → Keyed key (λ a b. less (key a) (key b))
by_key-Keyed key less t = record {
  irreflexive = λ a. t.irreflexive (key a);
  transitive = λ a b c. t.transitive (key a) (key b) (key c);
  equivalent = λ a b. (
    λ (ab, ba). elim (t.total (key a) (key b)) [
      | inl l ↦ cc (ab, l)
      | inr r ↦ elim r [ inl same ↦ same | inr l ↦ cc (ba, l) ]
    ],
    λ same. (
      ap (less (key a)) (sym same) ∙ t.irreflexive (key a),
      ap (λ k. less k (key a)) (sym same) ∙ t.irreflexive (key a),
    ),
  );
}

-- The types that are compared by `eid`.
abbrev pub sports : List Model
sports =
    sport ∷ event ∷ organization ∷ organization_type ∷ organization_season ∷ sport_franchise
    ∷ sport_franchise_season ∷ venue ∷ venue_former_name ∷ venue_capacity ∷ event_type ∷ college
    ∷ []

abbrev pub OrderedBy : Generated → Field → Model → Type 0
OrderedBy g f m = Keyed (g.get_field m f) (less_than g m)

-- If the orders of the fields are total, each `operator<` is a strict weak order, and a set keeps
-- one of two values exactly if they agree in the name (attributes), the id (related stations), the
-- text (descriptions), the number (countries), the id of the person's name (team members) or the
-- eid (the twelve types of sports), whatever their other fields.
pub less_than_lem :
    (g : Generated)
    → ((m : Model) (f : Field) → Total (g.less m f))
    → OrderedBy g name attribute
      × OrderedBy g id related_station
      × OrderedBy g text description
      × OrderedBy g numeric country
      × OrderedBy g person_name_id team_member
      × All (OrderedBy g eid) sports
unfolding less_than compared
less_than_lem g t = (
  by attribute name,
  by related_station id,
  by description text,
  by country numeric,
  by team_member person_name_id,
  (
    by sport eid,
    (
      by event eid,
      (
        by organization eid,
        (
          by organization_type eid,
          (
            by organization_season eid,
            (
              by sport_franchise eid,
              (
                by sport_franchise_season eid,
                (
                  by venue eid,
                  (
                    by venue_former_name eid,
                    (by venue_capacity eid, (by event_type eid, (by college eid, tt))),
                  ),
                ),
              ),
            ),
          ),
        ),
      ),
    ),
  ),
)
  where
    by :
        (m : Model) (f : Field)
        → Keyed (g.get_field m f) (λ a b. g.less m f (g.get_field m f a) (g.get_field m f b))
    by m f = by_key-Keyed (g.get_field m f) (g.less m f) (t m f)
