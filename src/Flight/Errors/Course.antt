-- ===== src/Flight/Errors/Course.antt =====
-- What the error check says of a flight that was run by the unforced actions alone.
use startkladde.Prelude.{not, ◌&&◌, ◌≡◌, [], arith, str_eq}
use startkladde.DbId.{id_invalid}
use startkladde.Qt.{Qt}
use startkladde.Model.FlightError.{
  landing_location_equals_departure_location, launch_method_missing,
}
use startkladde.Flight.{Flight, departs_here, lands_here, is_towflight}
use startkladde.Flight.Actions.Lifecycle.{
  Situation, Reach, KeepsOrder, IsFresh, IsConsistent, Reach-IsConsistent,
}
use startkladde.Flight.Errors.{check, differ, status_errors, departure_errors, landing_errors}

module _ ⦃q : Qt⦄ where
  open q use {DateTime}

  consistent_errors :
      (f : Flight DateTime)
      → IsConsistent f
      → (status_errors f
          ≡ check
              (differ (departs_here f) (lands_here f)
                && str_eq f.departure_location f.landing_location)
              landing_location_equals_departure_location)
        × (departure_errors f
            ≡ check
                (departs_here f
                  && f.departed
                  && id_invalid f.launch_method_id
                  && not (is_towflight f))
                launch_method_missing)
        × (landing_errors f ≡ [])
  unfolding status_errors departure_errors landing_errors
  consistent_errors f h = (ground arith, ground arith, ground arith)

  -- From a prepared flight whose number of landings is 0, whatever unforced actions are tried at UTC
  -- times that do not go back, the
  -- status, departure and landing sections of the error check report at most two things: that the
  -- landing location equals the departure location on a flight that is not local, and that the
  -- launch method is missing on a departed flight that is no towflight.
  pub Reach-course_errors :
      (laws : KeepsOrder q) {s t : Situation DateTime}
      → IsFresh s
      → Reach s t
      → let f = t.flight in
        (status_errors f
          ≡ check
              (differ (departs_here f) (lands_here f)
                && str_eq f.departure_location f.landing_location)
              landing_location_equals_departure_location)
        × (departure_errors f
            ≡ check
                (departs_here f
                  && f.departed
                  && id_invalid f.launch_method_id
                  && not (is_towflight f))
                launch_method_missing)
        × (landing_errors f ≡ [])
  Reach-course_errors laws {t = t} h r = consistent_errors t.flight (Reach-IsConsistent laws h r).1
