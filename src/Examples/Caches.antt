-- ===== src/Examples/Caches.antt =====
-- The cache with a flight of each list, and its containers.
use startkladde.Prelude.{◌≡◌, refl, [], ◌∷◌, some, arith}
use startkladde.Container.{nat_eq, string_eq, value, contains}
use startkladde.Flight.{initialize, happened, is_prepared}
use startkladde.Flight.Order.{eff_datum, effective_time}
use startkladde.Cache.Objects.{get_object}
use startkladde.Cache.Flights.{Cache, get_flight, type_add, handle_db_changed, object_updated}
use startkladde.Cache.Flights.Invariant.{occurrences, IsConsistent, handle_db_changed-IsConsistent}
use startkladde.Cache.Flights.Placement.{object_updated_stale}
use startkladde.Examples.Setting.{seconds, contents, prepared, airborne}

-- On day 1, with day 0 as the other day.
abbrev pub cache : Cache
cache = record {
  contents = contents;
  prepared_flights = prepared 7 ∷ [];
  flights_today = airborne 8 90000 ∷ [];
  flights_other = airborne 9 50000 ∷ [];
  today_date = 1;
  other_date = 0;
  flights_by_id = (7, prepared 7) ∷ (8, airborne 8 90000) ∷ (9, airborne 9 50000) ∷ [];
  locations = "Aachen" ∷ [];
  accounting_notes = [];
}

pub cache-IsConsistent : IsConsistent cache
unfolding initialize is_prepared happened value eff_datum effective_time
cache-IsConsistent = record {
  prepared = ((refl, refl), tt);
  today = ((refl, refl), tt);
  other = ((refl, refl), tt);
  once = λ id. ground arith;
}

handle_db_changed-IsConsistent_example :
    IsConsistent (handle_db_changed (type_add (airborne 10 91000)) cache)
unfolding initialize
handle_db_changed-IsConsistent_example =
    handle_db_changed-IsConsistent cache (type_add (airborne 10 91000)) cache-IsConsistent refl

-- A day that the cache does not keep.
object_updated_stale_example :
    (occurrences 8 (object_updated (airborne 8 200000) cache) ≡ 0)
    × (get_flight (object_updated (airborne 8 200000) cache) 8 ≡ some (airborne 8 90000))
unfolding initialize is_prepared happened eff_datum effective_time get_object value contains
object_updated_stale_example = object_updated_stale cache (airborne 8 200000) (refl, refl, refl)
