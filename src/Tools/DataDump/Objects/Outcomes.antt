-- ===== src/Tools/DataDump/Objects/Outcomes.antt =====
-- How the query loops of dataDump.cpp end, by the rows that they read.
use mathlib.Core.Option
use mathlib.Core.Path.{subst}
use api_pack.Base.{
  some_injective, ℕ, zero, suc, ◌≡◌, refl, ap, ◌∙◌, Option, none, some, List, [], ◌∷◌, sym,
}
use api_pack.Datastore.Libpq.{Libpq}
use api_pack.Datastore.Iterator.{DatastoreIterator, DataObject, next}
use api_pack.Datastore.Iterator.Fetching.{Seen, seen_object}
use api_pack.Datastore.Store.{Datastore, drop_pointer}
use api_pack.Datastore.ThriftConverter.{Thrift}
use api_pack.Tools.DataDump.{drain, round, with_iterator}
use api_pack.Tools.DataDump.Objects.{
  Converted, keeps, goes_on, crashes, escapes, Ending, finished, crashed, escaped, Progress,
  add_object, convert_object, convert_round, convert_rows, leave_query, with_converter,
}

module _ {A : Type 0} (convert : Seen → Converted A) where
  unfoldable pub add_converted : Converted A → Ending × List A → Ending × List A
  add_converted (keeps x) (ending, objects) = (ending, x ∷ objects)
  add_converted goes_on rest = rest
  add_converted crashes rest = (crashed, [])
  add_converted escapes rest = (escaped, [])

  -- The rows are converted up to the first one that crashes or throws.
  unfoldable pub convert_all : List Seen → Ending × List A
  unfolding add_converted
  convert_all [] = (finished, [])
  convert_all (row ∷ rows) = add_converted (convert row) (convert_all rows)

-- Two states agree if the loop finished.
abbrev pub AgreeAt : {B : Type 0} → Ending → B → B → Type 0
AgreeAt finished x y = x ≡ y
AgreeAt crashed x y = Unit
AgreeAt escaped x y = Unit

module _ (thrift : Thrift) (lib : Libpq) where
  -- The query made these objects, ended so, and if it finished left this store.
  unfoldable pub Answers :
      Datastore lib
      → Ending × List thrift.Object
      → Option (Datastore lib × Ending × List thrift.Object)
      → Type 0
  Answers s' (ending, objects) r =
      (s : Datastore lib) × (r ≡ some (s, ending, objects)) × AgreeAt ending s s'

module _ (thrift : Thrift) (lib : Libpq) (convert : Seen → Converted thrift.Object) where
  -- The loop made these objects, ended so, and if it finished left this iterator.
  Loops :
      DatastoreIterator lib
      → Ending × List thrift.Object
      → Option (Progress thrift lib convert)
      → Type 0
  Loops d' (ending, objects) r =
      (d : DatastoreIterator lib) × (r ≡ some (d, ending, objects)) × AgreeAt ending d d'

  convert_object-Loops :
      (loop : DatastoreIterator lib → Option (Progress thrift lib convert))
      (d d' : DatastoreIterator lib) (c : Converted thrift.Object)
      (rest : Ending × List thrift.Object)
      → Loops d' rest (loop d)
      → Loops d' (add_converted convert c rest) (convert_object thrift lib convert loop d c)
  unfolding convert_object add_converted add_object Loops
  convert_object-Loops loop d d' (keeps x) rest (e, same, agree) =
      (e, ap (Option.map (add_object thrift lib convert x)) same, agree)
  convert_object-Loops loop d d' goes_on rest l = l
  convert_object-Loops loop d d' crashes rest l = (d, refl, tt)
  convert_object-Loops loop d d' escapes rest l = (d, refl, tt)

  convert_round-Loops :
      (f : ℕ) (d' : DatastoreIterator lib) (rows : List Seen)
      (x : DatastoreIterator lib × Option DataObject)
      → ((d : DatastoreIterator lib) (rest : List Seen)
          → drain lib f d ≡ some (d', rest)
          → Loops d' (convert_all convert rest) (convert_rows thrift lib convert f d))
      → round lib (drain lib f) x ≡ some (d', rows)
      → Loops d'
          (convert_all convert rows)
          (convert_round thrift lib convert (convert_rows thrift lib convert f) x)
  unfolding round convert_round convert_all Loops
  convert_round-Loops f d' rows (d, none) ih e =
      subst
        (λ (y : DatastoreIterator lib × List Seen).
          Loops y.0 (convert_all convert y.1) (some (d, finished, [])))
        (some_injective e) (d, refl, refl)
  convert_round-Loops f d' rows (d, some o) ih e = by_rest (drain lib f d) refl e
    where
      by_rest :
          (r : Option (DatastoreIterator lib × List Seen))
          → drain lib f d ≡ r
          → Option.map {B = DatastoreIterator lib × List Seen}
              (λ (y : DatastoreIterator lib × List Seen). (y.0, seen_object lib d o ∷ y.1))
              r
            ≡ some (d', rows)
          → Loops d' (convert_all convert rows) (
              convert_object thrift lib convert
                (convert_rows thrift lib convert f)
                d
                (convert (seen_object lib d o)))
      by_rest none e₁ e₂ = cc
      by_rest (some (d₁, rest)) e₁ e₂ =
          let same = some_injective e₂ in
          subst
            (λ all. Loops d' (convert_all convert all) (
              convert_object thrift lib convert (convert_rows thrift lib convert f) d
                (convert (seen_object lib d o))))
            (ap (λ y. y.1) same)
            (convert_object-Loops (convert_rows thrift lib convert f) d d'
              (convert (seen_object lib d o)) (convert_all convert rest)
              (ih d rest (e₁ ∙ ap (λ y. some (y.0, rest)) same)))

  convert_rows-Loops :
      (f : ℕ) (d d' : DatastoreIterator lib) (rows : List Seen)
      → drain lib f d ≡ some (d', rows)
      → Loops d' (convert_all convert rows) (convert_rows thrift lib convert f d)
  unfolding drain convert_rows
  convert_rows-Loops zero d d' rows e = cc
  convert_rows-Loops (suc f) d d' rows e =
      convert_round-Loops f d' rows (next lib d) (λ d₁ rest e₁. convert_rows-Loops f d₁ d' rest e₁)
        e

  leave_query-Answers :
      (s : Datastore lib) (d d' : DatastoreIterator lib) (ending : Ending)
      (objects : List thrift.Object)
      → AgreeAt ending d d'
      → Answers thrift lib
          (drop_pointer lib (record s { iter = d' }))
          (ending, objects)
          (some (leave_query thrift lib convert s (d, ending, objects)))
  unfolding leave_query Answers
  leave_query-Answers s d d' finished objects agree =
      (_, refl, ap (λ x. drop_pointer lib (record s { iter = x })) agree)
  leave_query-Answers s d d' crashed objects agree = (_, refl, tt)
  leave_query-Answers s d d' escaped objects agree = (_, refl, tt)

  map_leave-Answers :
      (s : Datastore lib) (d' : DatastoreIterator lib) (all : Ending × List thrift.Object)
      (r : Option (Progress thrift lib convert))
      → Loops d' all r
      → Answers thrift lib
          (drop_pointer lib (record s { iter = d' }))
          all
          (Option.map (leave_query thrift lib convert s) r)
  unfolding Loops
  map_leave-Answers s d' (ending, objects) r (d, same, agree) =
      subst
        (λ y.
          Answers thrift lib (drop_pointer lib (record s { iter = d' })) (ending, objects)
            (Option.map (leave_query thrift lib convert s) y))
        (sym same) (leave_query-Answers s d d' ending objects agree)

  -- What a query with the converter does follows from what it reads.
  pub with_converter-Answers :
      (fuel : ℕ) (x : Datastore lib × Option ℕ) (s' : Datastore lib) (rows : List Seen)
      → with_iterator lib fuel x ≡ some (s', rows)
      → Answers thrift lib s' (convert_all convert rows) (with_converter thrift lib convert fuel x)
  unfolding with_iterator with_converter convert_all
  with_converter-Answers fuel (s, none) s' rows e =
      subst
        (λ (y : Datastore lib × List Seen).
          Answers thrift lib y.0 (convert_all convert y.1) (some (s, finished, [])))
        (some_injective e) (unfold Answers in (s, refl, refl))
  with_converter-Answers fuel (s, some k) s' rows e = by_drain (drain lib fuel s.iter) refl e
    where
      by_drain :
          (r : Option (DatastoreIterator lib × List Seen))
          → drain lib fuel s.iter ≡ r
          → Option.map {B = Datastore lib × List Seen}
              (λ (y : DatastoreIterator lib × List Seen).
                (drop_pointer lib (record s { iter = y.0 }), y.1))
              r
            ≡ some (s', rows)
          → Answers thrift lib s' (convert_all convert rows) (
              Option.map
                (leave_query thrift lib convert s)
                (convert_rows thrift lib convert fuel s.iter))
      by_drain none e₁ e₂ = cc
      by_drain (some (d', rest)) e₁ e₂ =
          subst
            (λ (y : Datastore lib × List Seen). Answers thrift lib y.0 (convert_all convert y.1) (
              Option.map (leave_query thrift lib convert s)
                (convert_rows thrift lib convert fuel s.iter)))
            (some_injective e₂)
            (map_leave-Answers s d' (convert_all convert rest) _
              (convert_rows-Loops fuel s.iter d' rest e₁))
