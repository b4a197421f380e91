-- ===== src/Examples/Lists.antt =====
-- A list of flights with its towflights, and small tables.
use startkladde.Prelude.{true, false, ◌≡◌, refl, [], ◌∷◌, some, arith}
use startkladde.Prelude.Int.{pos}
use startkladde.Flight.{initialize}
use startkladde.Flight.Towflight.{make_towflight}
use startkladde.FlightReference.{reference}
use startkladde.FlightProxyList.{
  airtow_launch_method, find_towref, find_model_index, get_flight_reference,
}
use startkladde.FlightProxyList.Indices.{
  IsProper, find_towref-find_towref, find_model_index-get_flight_reference,
}
use startkladde.FlightProxyList.Changes.{
  Situation, IsInSync, SourceStep, insert, SourceStep-IsInSync,
}
use startkladde.FlightProxyList.Rows.{proxy_of}
use startkladde.FlightProxyList.Handlers.{insert_row, add_towflight_for, source_model_rows_inserted}
use startkladde.Cache.Flights.{Cache}
use startkladde.Container.{value, contains}
use startkladde.Cache.EntityList.{find_by_id}
use startkladde.Cache.Objects.{get_object, get_plane_id_by_registration}
use startkladde.Examples.Setting.{seconds, context, contents, objects, prepared, airborne}

abbrev cache : Cache
cache = record {
  contents = contents;
  prepared_flights = prepared 7 ∷ [];
  flights_today = airborne 8 90000 ∷ [];
  flights_other = [];
  today_date = 1;
  other_date = 0;
  flights_by_id = (7, prepared 7) ∷ (8, airborne 8 90000) ∷ [];
  locations = [];
  accounting_notes = [];
}

-- One airtow with its towflight.
abbrev before : Situation
before = record {
  flights = prepared 7 ∷ [];
  towflights = make_towflight context (prepared 7) 5 0 ∷ [];
}

abbrev after : Situation
after = record {
  flights = prepared 7 ∷ airborne 8 90000 ∷ [];
  towflights =
      make_towflight context (prepared 7) 5 0 ∷ make_towflight context (airborne 8 90000) 5 0 ∷ [];
}

before-IsInSync : IsInSync objects before
unfolding initialize make_towflight airtow_launch_method get_object contains value
before-IsInSync = record { unique = λ a. ground arith; counts = λ a. ground arith }

inserted : SourceStep context objects before after
unfolding initialize source_model_rows_inserted insert_row add_towflight_for make_towflight
    airtow_launch_method get_object contains value get_plane_id_by_registration
inserted =
    insert cache refl (prepared 7 ∷ []) (airborne 8 90000) [] [] refl (λ a. ground arith) after refl

SourceStep-IsInSync_example : IsInSync objects after
SourceStep-IsInSync_example =
    SourceStep-IsInSync context objects before after inserted before-IsInSync

flights-IsProper : IsProper false after.flights
unfolding initialize
flights-IsProper = record { each = ((refl, refl), ((refl, refl), tt)); unique = λ a. ground arith }

towflights-IsProper : IsProper true after.towflights
unfolding initialize make_towflight
towflights-IsProper = record {
  each = ((refl, refl), ((refl, refl), tt));
  unique = λ a. ground arith;
}

-- The first flight and its towflight find each other.
find_towref-find_towref_example :
    find_towref (pos 2) (proxy_of after.flights after.towflights) ≡ some (pos 0)
unfolding initialize make_towflight find_towref find_by_id
find_towref-find_towref_example =
    find_towref-find_towref after.flights after.towflights flights-IsProper.unique
      towflights-IsProper.unique 0 2 refl

-- The reference to the second towflight.
find_model_index-get_flight_reference_example :
    find_model_index (reference 8 true) (proxy_of after.flights after.towflights) ≡ pos 3
unfolding initialize make_towflight get_flight_reference
find_model_index-get_flight_reference_example =
    find_model_index-get_flight_reference after.flights after.towflights flights-IsProper
      towflights-IsProper 3 (reference 8 true) refl
