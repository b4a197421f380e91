-- ===== src/Examples/Contents.antt =====
-- The whole cache: an event, a lookup of a person, and reading the flights again.
use startkladde.Prelude.{
  ℕ, ◌≤◌, ◌≡◌, ◌≢◌, ◌⊎◌, refl, ◌==◌, List, [], ◌∷◌, none, arith, if◌then◌else◌,
}
use startkladde.DbId.{invalid_id}
use startkladde.Container.{nat_eq, string_eq, pair_eq, value}
use startkladde.Flight.{Flight, initialize, is_prepared, happened}
use startkladde.Flight.Order.{eff_datum, effective_time}
use startkladde.Cache.Flights.{get_flight}
use startkladde.Cache.Flights.Invariant as Invariant
use startkladde.Cache.Flights.Invariant.{occurs}
use startkladde.Cache.People.Consistency as PeopleConsistency
use startkladde.Cache.People.Lookup.{
  IsNamed, get_unique_person_id_by_name, get_unique_person_id_by_name_lem,
}
use startkladde.Cache.FlarmNet.Consistency as FlarmNetConsistency
use startkladde.Model.Plane.{Plane}
use startkladde.Cache.Planes as Planes
use startkladde.Cache.Events.Consistency.{IsConsistent}
use startkladde.Cache.Refresh.{Queries, refresh_flights}
use startkladde.Cache.Refresh.Flights.{refresh_flights-IsConsistent, refresh_flights_lost}
use startkladde.Examples.Setting.{seconds, contents, glider, prepared, airborne}
use startkladde.Examples.Caches.{cache}

people-IsConsistent : PeopleConsistency.IsConsistent contents
unfolding value
people-IsConsistent = record {
  table = record { found = λ id. ground arith; once = λ id. ground arith; no_invalid = refl };
  last_names = λ k id. ground arith;
  first_names = λ k id. ground arith;
  names = λ k id. ground arith;
}

-- The glider gets another registration.
abbrev renamed : Plane
renamed = record glider { registration = "D-4321" }

get_unique_person_id_by_name_lem_example :
    (IsNamed contents "Lilienthal" "Otto"
        (get_unique_person_id_by_name contents "Lilienthal" "Otto")
      × ((id : ℕ)
          → IsNamed contents "Lilienthal" "Otto" id
          → id ≡ get_unique_person_id_by_name contents "Lilienthal" "Otto"))
    ⊎ ((get_unique_person_id_by_name contents "Lilienthal" "Otto" ≡ invalid_id)
        × (((id : ℕ) → ¬ (IsNamed contents "Lilienthal" "Otto" id))
            ⊎ ((i j : ℕ) × (i ≢ j)
                × IsNamed contents "Lilienthal" "Otto" i
                × IsNamed contents "Lilienthal" "Otto" j)))
get_unique_person_id_by_name_lem_example =
    get_unique_person_id_by_name_lem contents "Lilienthal" "Otto" people-IsConsistent

-- The database on day 1: flight 11 has been added by another program.
abbrev of_day : ℕ → List (Flight ℕ)
of_day day = if day == 1 then airborne 8 90000 ∷ airborne 11 91000 ∷ [] else airborne 9 50000 ∷ []

abbrev database : Queries
database = record {
  null_date = 1000000;
  is_null = λ d. d == 1000000;
  current_date = 1;
  prepared = prepared 7 ∷ [];
  of_date = of_day;
}

refresh_flights-IsConsistent_example :
    Invariant.IsConsistent (refresh_flights database database database cache)
unfolding initialize is_prepared happened eff_datum effective_time
refresh_flights-IsConsistent_example =
    refresh_flights-IsConsistent database database database cache
      (record { today = refl; other = refl; prepared = refl })
      (record {
        prepared_kind = (refl, tt);
        today_kind = (refl, (refl, tt));
        other_kind = (refl, tt);
      })
      (record {
        today_stay = λ id h. ground arith;
        other_stay = λ id h. ground arith;
        once = λ id. ground arith;
      })

-- The prepared flight has departed.
abbrev departed : Queries
departed = record database {
  prepared = [];
  of_date = λ day. airborne 7 91000 ∷ airborne 8 90000 ∷ [];
}

refresh_flights_lost_example :
    (1 ≤ occurs 7 (refresh_flights departed departed departed cache).flights_today)
    × (get_flight (refresh_flights departed departed departed cache) 7 ≡ none)
unfolding initialize
refresh_flights_lost_example =
    refresh_flights_lost departed departed departed cache (airborne 7 91000)
      (record { today = refl; other = refl; prepared = refl }) (omega arith) (omega arith) refl
