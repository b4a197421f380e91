-- ===== src/Cache/Flights.antt =====
-- The flights of the cache (src/db/cache/Cache.cpp): the lists of prepared flights, of today's
-- flights and of another day's, and the hash by id. `objectAdded`, `objectUpdated`,
-- `objectDeleted` and `refreshFlightsOf` at flights, with the sets of locations and accounting
-- notes. Each operation holds `dataMutex`, so operations are functions.
pub mod Invariant
pub mod Placement
use startkladde.Prelude.{
  ℕ, ◌==◌, Bool, true, false, not, ◌&&◌, ◌||◌, String, List, [], ◌∷◌, ◌++◌, Option, none, some,
  if◌then◌else◌, str_eq,
}
use startkladde.Qt.{Qt}
use startkladde.Text.{is_blank}
use startkladde.Container.{insert_text, Hash, nat_eq, insert, remove}
use startkladde.Flight.{Flight, is_prepared, is_flying}
use startkladde.Flight.Order.{eff_datum}
use startkladde.Cache.Objects.{get_object}
use startkladde.Cache.Contents.{Contents}
use startkladde.Cache.EntityList.{remove_by_id, replace_or_add}

module _ ⦃q : Qt⦄ where
  open q use {DateTime, Date, date_eq}

  pub record Cache : Type 0 where
    pub contents : Contents
    pub open contents use *
    pub prepared_flights : List (Flight DateTime)
    pub flights_today : List (Flight DateTime)
    pub flights_other : List (Flight DateTime)
    pub today_date : Date
    pub other_date : Date
    pub flights_by_id : Hash ℕ (Flight DateTime)
    pub locations : List String
    pub accounting_notes : List String

  abbrev pub get_flight : Cache → ℕ → Option (Flight DateTime)
  get_flight c id = get_object c.flights_by_id id

  -- `if (!isBlank (s)) set.insert (s);`
  insert_location : String → List String → List String
  unfolding insert_text
  insert_location s set = if not (is_blank s) then insert_text s set else set

  -- `updateHashesObjectAdded<Flight>`; `updateHashesObjectDeleted<Flight>` does nothing, so
  -- `updateHashesObjectUpdated<Flight>` is this too.
  unfoldable pub update_hashes_object_added : Flight DateTime → Cache → Cache
  unfolding insert_location
  update_hashes_object_added f c = record c {
    locations =
        insert_location f.towflight_landing_location
          (insert_location f.landing_location (insert_location f.departure_location c.locations));
    accounting_notes = insert_location f.accounting_notes c.accounting_notes;
  }

  -- The last lines of `objectAdded` and `objectUpdated`, under `if (interested)`.
  unfoldable pub update_hashes : Flight DateTime → Cache → Cache
  unfolding update_hashes_object_added
  update_hashes f c =
      update_hashes_object_added f (record c { flights_by_id = insert f.id f c.flights_by_id })

  unfoldable pub object_added : Flight DateTime → Cache → Cache
  object_added f c =
      if is_prepared f
      then update_hashes f (record c { prepared_flights = c.prepared_flights ++ f ∷ [] })
      else if date_eq (eff_datum f) c.today_date
      then update_hashes f (record c { flights_today = c.flights_today ++ f ∷ [] })
      else if date_eq (eff_datum f) c.other_date
      then update_hashes f (record c { flights_other = c.flights_other ++ f ∷ [] })
      else c

  unfoldable pub object_deleted : ℕ → Cache → Cache
  object_deleted id c = record c {
    prepared_flights = remove_by_id (λ g. g.id) id c.prepared_flights;
    flights_today = remove_by_id (λ g. g.id) id c.flights_today;
    flights_other = remove_by_id (λ g. g.id) id c.flights_other;
    flights_by_id = remove id c.flights_by_id;
  }

  unfoldable pub object_updated : Flight DateTime → Cache → Cache
  object_updated f c =
      if is_prepared f
      then update_hashes f (record c {
        prepared_flights = replace_or_add (λ g. g.id) f.id f c.prepared_flights;
        flights_today = remove_by_id (λ g. g.id) f.id c.flights_today;
        flights_other = remove_by_id (λ g. g.id) f.id c.flights_other;
      })
      else if date_eq (eff_datum f) c.today_date
      then update_hashes f (record c {
        prepared_flights = remove_by_id (λ g. g.id) f.id c.prepared_flights;
        flights_today = replace_or_add (λ g. g.id) f.id f c.flights_today;
        flights_other = remove_by_id (λ g. g.id) f.id c.flights_other;
      })
      else if date_eq (eff_datum f) c.other_date
      then update_hashes f (record c {
        prepared_flights = remove_by_id (λ g. g.id) f.id c.prepared_flights;
        flights_today = remove_by_id (λ g. g.id) f.id c.flights_today;
        flights_other = replace_or_add (λ g. g.id) f.id f c.flights_other;
      })
      else record c {
        prepared_flights = remove_by_id (λ g. g.id) f.id c.prepared_flights;
        flights_today = remove_by_id (λ g. g.id) f.id c.flights_today;
        flights_other = remove_by_id (λ g. g.id) f.id c.flights_other;
      }

  -- A DbEvent on the flights table, and `handleDbChanged<Flight>`.
  pub data FlightEvent : Type 0 where
    type_add type_change : Flight DateTime → FlightEvent
    type_delete : ℕ → FlightEvent

  unfoldable pub handle_db_changed : FlightEvent → Cache → Cache
  handle_db_changed (type_add f) c = object_added f c
  handle_db_changed (type_change f) c = object_updated f c
  handle_db_changed (type_delete id) c = object_deleted id c

  -- The flying flights of `getFlyingFlights (false)`.
  abbrev filter_flying : List (Flight DateTime) → List (Flight DateTime)
  filter_flying [] = []
  filter_flying (f ∷ flights) =
      let rest = filter_flying flights in if is_flying f then f ∷ rest else rest

  pub get_flying_flights : Cache → List (Flight DateTime)
  get_flying_flights c = filter_flying (c.flights_today ++ c.prepared_flights)
