-- ===== src/Examples/Flights.antt =====
-- Single flights.
use startkladde.Prelude.{ℕ, true, false, not, ◌&&◌, ◌≡◌, ◌↔◌, refl, [], ◌∷◌, str_eq, inl}
use startkladde.Prelude.Int.{pos}
use startkladde.DbId.{id_invalid}
use startkladde.Text.{is_blank, is_none}
use startkladde.Model.FlightError.{
  landing_location_equals_departure_location, launch_method_missing,
}
use startkladde.Container.{value, contains}
use startkladde.Cache.Objects.{get_object}
use startkladde.Flight.{initialize, departs_here, lands_here, is_towflight, is_prepared, happened}
use startkladde.Flight.Actions.{depart_now, land_now, land_towflight_now}
use startkladde.Flight.Actions.Lifecycle.{
  Situation, Reach, start, next, wait, depart, land, IsFresh, IsConsistent, all_landings,
  Reach-IsConsistent,
}
use startkladde.Flight.Order.{IsStrictWeakOrder, less_than-IsStrictWeakOrder}
use startkladde.Flight.Errors.{
  check, differ, get_errors, get_errors_impl, status_errors, departure_errors, landing_errors,
  basic_errors, pilot_errors, copilot_errors, towpilot_errors, plane_errors, location_errors,
  towflight_errors, check_person, copilot_specified, database_changed, table_people,
}
use startkladde.Flight.Errors.Caching.{
  IsCachedFor, changed_other, get_errors_again, database_changed-IsCachedFor,
}
use startkladde.Flight.Errors.Course.{Reach-course_errors}
use startkladde.Flight.Errors.ErrorFree.{IsErrorFree, get_errors_impl-eq-nil}
use startkladde.Flight.Towflight.{make_towflight}
use startkladde.Flight.Towflight.Laws.{land_now-make_towflight}
use startkladde.Examples.Setting.{
  seconds, seconds-IsTimeOrder, seconds-KeepsOrder, context, settings, objects, prepared, airborne,
}

abbrev at_noon : Situation ℕ
at_noon = record { flight = prepared 7; now = 43210 }

-- Departs, waits and lands.
abbrev flown : Situation ℕ
flown = record {
  flight = (land_now 43999 "Aachen" false (depart_now 43210 false (prepared 7)).1).1;
  now = 43999;
}

flown-Reach : Reach at_noon flown
flown-Reach = next (next (next start depart) (wait 43999 refl refl)) (land "Aachen")

prepared-IsFresh : IsFresh at_noon
unfolding initialize is_prepared happened
prepared-IsFresh = record { prepared = refl; no_landings = refl; in_utc = refl }

Reach-IsConsistent_example :
    (flown.flight.num_landings ≡ pos (all_landings flown-Reach)) × IsConsistent flown.flight
Reach-IsConsistent_example = Reach-IsConsistent seconds-KeepsOrder prepared-IsFresh flown-Reach

less_than-IsStrictWeakOrder_example : IsStrictWeakOrder
less_than-IsStrictWeakOrder_example = less_than-IsStrictWeakOrder seconds-IsTimeOrder

Reach-course_errors_example :
    let f = flown.flight in
    (status_errors f
      ≡ check
          (differ (departs_here f) (lands_here f) && str_eq f.departure_location f.landing_location)
          landing_location_equals_departure_location)
    × (departure_errors f
        ≡ check
            (departs_here f && f.departed && id_invalid f.launch_method_id && not (is_towflight f))
            launch_method_missing)
    × (landing_errors f ≡ [])
Reach-course_errors_example = Reach-course_errors seconds-KeepsOrder prepared-IsFresh flown-Reach

get_errors_impl-eq-nil_example :
    (get_errors_impl settings objects true (airborne 7 43200) ≡ [])
    ↔ IsErrorFree settings objects true (airborne 7 43200)
get_errors_impl-eq-nil_example = get_errors_impl-eq-nil settings objects true (airborne 7 43200)

-- The errors of a departed flight without a launch method, and what the check says of one with it.
no_launch_method_errors :
    get_errors_impl settings objects true (record (airborne 7 43200) { launch_method_id = 0 })
    ≡ launch_method_missing ∷ []
unfolding initialize get_errors_impl basic_errors pilot_errors copilot_errors towpilot_errors
    plane_errors status_errors departure_errors landing_errors location_errors towflight_errors
    check_person copilot_specified get_object contains value is_blank is_none
no_launch_method_errors = refl

airborne_errors : get_errors_impl settings objects true (airborne 7 43200) ≡ []
unfolding initialize get_errors_impl basic_errors pilot_errors copilot_errors towpilot_errors
    plane_errors status_errors departure_errors landing_errors location_errors towflight_errors
    check_person copilot_specified get_object contains value is_blank is_none
airborne_errors = refl

get_errors_again_example :
    (get_errors settings objects true (get_errors settings objects false (prepared 7)).1).0
    ≡ (get_errors settings objects false (prepared 7)).0
get_errors_again_example = get_errors_again settings objects false true (prepared 7)

database_changed-IsCachedFor_example :
    IsCachedFor settings objects false (database_changed table_people 3 (prepared 7))
unfolding initialize
database_changed-IsCachedFor_example =
    database_changed-IsCachedFor settings objects objects false (prepared 7) table_people 3
      (changed_other (λ x. refl) (λ x. refl)) (inl refl)

land_now-make_towflight_example :
    land_now 43999 "Aachen" false (make_towflight context (airborne 7 43200) 5 0) ≡ (
      (land_towflight_now 43999 "Aachen" false (airborne 7 43200)).0,
      make_towflight context (land_towflight_now 43999 "Aachen" false (airborne 7 43200)).1 5 0,
    )
unfolding initialize
land_now-make_towflight_example =
    land_now-make_towflight context 43999 "Aachen" (airborne 7 43200) 5 0 refl refl
