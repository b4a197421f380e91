-- ===== src/Flight/Errors.antt =====
-- The error check of src/model/Flight.cpp: `checkPerson`, `getErrorsImpl` in its sections,
-- `getErrors` with its cache, `isErroneous`, `getColor` and `databaseChanged`.
pub mod ErrorFree
pub mod Caching
pub mod Course
use startkladde.Prelude.{
  ℕ, ◌==◌, Bool, true, false, not, ◌&&◌, ◌||◌, String, List, [], ◌∷◌, ◌++◌, Option, none, some,
  if◌then◌else◌, str_eq,
}
use startkladde.Prelude.Int.{ℤ, pos, ltb_ℤ, ◌==ℤ◌}
use startkladde.DbId.{id_valid, id_invalid}
use startkladde.Qt.{Qt}
use startkladde.Text.{is_blank, is_none, is_none_both}
use startkladde.Model.FlightType.{
  type_eq, type_none, type_training2, type_guest_private, type_guest_external,
  type_copilot_recorded, type_supervisor_recorded,
}
use startkladde.Model.Plane.{Plane, category_eq, category_glider}
use startkladde.Model.LaunchMethod as LaunchMethod
use startkladde.Model.LaunchMethod.{LaunchMethod, is_airtow, towplane_known, type_self}
use startkladde.Model.FlightError.{
  FlightError, no_error, id_missing, type_missing, departure_location_missing,
  landing_location_missing, towflight_landing_location_missing, plane_missing, pilot_missing,
  launch_method_missing, pilot_last_name_missing, pilot_first_name_missing, pilot_not_identified,
  copilot_last_name_missing, copilot_first_name_missing, copilot_not_identified,
  towpilot_last_name_missing, towpilot_first_name_missing, towpilot_not_identified,
  pilot_equals_copilot, pilot_equals_towpilot, landing_location_equals_departure_location,
  num_landings_negative, landing_without_departure, landing_before_departure,
  landings_without_departure, num_landings_zero, training_without_instructor, towplane_missing,
  copilot_in_single_seater, training_in_single_seater, passenger_flight_in_single_seater,
  glider_multiple_landings, glider_landings_without_landing_time, glider_self_launch,
  towplane_is_glider,
}
use startkladde.FlightColor.{Color, flight_color}
use startkladde.Cache.Objects.{Objects, get_plane, get_launch_method}
use startkladde.Flight.{
  Flight, data_changed, departs_here, lands_here, towflight_lands_here, is_towflight,
}

-- What `Settings::instance ()` gives the check.
pub record Settings : Type 0 where
  pub anonymous_mode : Bool
  pub record_towpilot : Bool

-- `if (b) errors << e;`
abbrev pub check : Bool → FlightError → List FlightError
check b e = if b then e ∷ [] else []

-- A test on an object that may be NULL, which is false at NULL.
abbrev pub is_some_and {ℓ} : {A : Type ℓ} → Option A → (A → Bool) → Bool
is_some_and none p = false
is_some_and (some a) p = p a

module _ ⦃q : Qt⦄ where
  open q use {DateTime, before}

  pub pilot_specified : Flight DateTime → Bool
  pilot_specified f = id_valid f.pilot_id || not (is_none_both f.pilot_last_name f.pilot_first_name)

  unfoldable pub copilot_specified : Flight DateTime → Bool
  copilot_specified f =
      not (type_supervisor_recorded f.type)
      && (id_valid f.copilot_id || not (is_none_both f.copilot_last_name f.copilot_first_name))

  pub towpilot_specified : Flight DateTime → Bool
  towpilot_specified f =
      id_valid f.towpilot_id || not (is_none_both f.towpilot_last_name f.towpilot_first_name)

  unfoldable pub check_person :
      Settings
      → ℕ
      → String
      → String
      → Bool
      → FlightError
      → FlightError
      → FlightError
      → FlightError
      → List FlightError
  check_person settings id last first required not_specified last_only first_only not_identified =
      if settings.anonymous_mode
      then []
      else if id_valid id
      then []
      else if not (is_blank last) && not (is_blank first)
      then not_identified ∷ []
      else if not (is_blank last)
      then last_only ∷ []
      else if not (is_blank first)
      then first_only ∷ []
      else check required not_specified

  -- The sections of `getErrorsImpl`, in order; `plane`, `towplane` and `launch_method` are what
  -- the cache has for the flight's identifiers.
  unfoldable pub basic_errors : Flight DateTime → List FlightError
  basic_errors f =
      check (id_invalid f.id) id_missing ++ check (type_eq f.type type_none) type_missing

  unfoldable pub pilot_errors : Settings → Option LaunchMethod → Flight DateTime → List FlightError
  pilot_errors settings launch_method f =
      check_person settings f.pilot_id f.pilot_last_name f.pilot_first_name
        (is_some_and launch_method (λ l. l.person_required)) pilot_missing pilot_first_name_missing
        pilot_last_name_missing pilot_not_identified

  unfoldable pub copilot_errors : Settings → Flight DateTime → List FlightError
  copilot_errors settings f =
      if type_copilot_recorded f.type || type_supervisor_recorded f.type
      then check_person settings f.copilot_id f.copilot_last_name f.copilot_first_name false
          no_error copilot_first_name_missing copilot_last_name_missing copilot_not_identified
        ++ (check
              (id_valid f.pilot_id
                && (f.pilot_id == f.copilot_id)
                && not (type_supervisor_recorded f.type))
              pilot_equals_copilot
            ++ check (type_eq f.type type_training2 && not (copilot_specified f))
                training_without_instructor)
      else []

  unfoldable pub towpilot_errors :
      Settings → Option LaunchMethod → Flight DateTime → List FlightError
  towpilot_errors settings launch_method f =
      if settings.record_towpilot && is_some_and launch_method is_airtow
      then check_person settings f.towpilot_id f.towpilot_last_name f.towpilot_first_name false
          no_error towpilot_first_name_missing towpilot_last_name_missing towpilot_not_identified
        ++ check (id_valid f.towpilot_id && (f.pilot_id == f.towpilot_id)) pilot_equals_towpilot
      else []

  unfoldable pub single_seater_errors : Plane → Flight DateTime → List FlightError
  single_seater_errors plane f =
      if plane.num_seats ==ℤ pos 1
      then check (type_eq f.type type_training2) training_in_single_seater
        ++ (check (type_eq f.type type_guest_private) passenger_flight_in_single_seater
            ++ (check (type_eq f.type type_guest_external) passenger_flight_in_single_seater
                ++ check (type_copilot_recorded f.type && copilot_specified f)
                    copilot_in_single_seater))
      else []

  unfoldable pub glider_errors : Plane → Option LaunchMethod → Flight DateTime → List FlightError
  glider_errors plane launch_method f =
      check
        (category_eq plane.category category_glider
          && is_some_and launch_method (λ l. LaunchMethod.type_eq l.type type_self))
        glider_self_launch
      ++ (if category_eq plane.category category_glider
            && is_some_and launch_method (λ l. not (is_airtow l))
          then check (ltb_ℤ (pos 1) f.num_landings) glider_multiple_landings
            ++ check (ltb_ℤ (pos 0) f.num_landings && not f.landed)
                glider_landings_without_landing_time
          else [])

  unfoldable pub plane_errors :
      Option Plane → Option LaunchMethod → Flight DateTime → List FlightError
  unfolding single_seater_errors glider_errors
  plane_errors none launch_method f = check (id_invalid f.plane_id) plane_missing
  plane_errors (some plane) launch_method f =
      check (id_invalid f.plane_id) plane_missing
      ++ (single_seater_errors plane f ++ glider_errors plane launch_method f)

  abbrev pub differ : Bool → Bool → Bool
  differ a b = if a then not b else b

  unfoldable pub status_errors : Flight DateTime → List FlightError
  status_errors f =
      check (ltb_ℤ f.num_landings (pos 0)) num_landings_negative
      ++ (check
            (differ (departs_here f) (lands_here f)
              && str_eq f.departure_location f.landing_location)
            landing_location_equals_departure_location
          ++ (if departs_here f && lands_here f
              then check (not f.departed && f.landed) landing_without_departure
                ++ check (f.departed && f.landed && before f.landing_time f.departure_time)
                    landing_before_departure
              else []))

  unfoldable pub departure_errors : Flight DateTime → List FlightError
  departure_errors f =
      if departs_here f
      then check (f.departed && id_invalid f.launch_method_id && not (is_towflight f))
          launch_method_missing
        ++ check (not f.departed && ltb_ℤ (pos 0) f.num_landings) landings_without_departure
      else []

  unfoldable pub landing_errors : Flight DateTime → List FlightError
  landing_errors f =
      if lands_here f then check ((f.num_landings ==ℤ pos 0) && f.landed) num_landings_zero else []

  unfoldable pub location_errors : Flight DateTime → List FlightError
  location_errors f =
      check ((f.departed || not (departs_here f)) && is_none f.departure_location)
        departure_location_missing
      ++ check ((f.landed || not (lands_here f)) && is_none f.landing_location)
          landing_location_missing

  unfoldable pub towflight_errors :
      Bool → Option Plane → Option LaunchMethod → Flight DateTime → List FlightError
  towflight_errors include_towflight_errors towplane none f = []
  towflight_errors include_towflight_errors towplane (some l) f =
      if include_towflight_errors && is_airtow l
      then check
          ((f.towflight_landed || not (towflight_lands_here f))
            && is_none f.towflight_landing_location)
          towflight_landing_location_missing
        ++ (check (not (towplane_known l) && id_invalid f.towplane_id) towplane_missing
            ++ check
                (not (towplane_known l)
                  && is_some_and towplane (λ p. category_eq p.category category_glider))
                towplane_is_glider)
      else []

  unfoldable pub get_errors_impl : Settings → Objects → Bool → Flight DateTime → List FlightError
  get_errors_impl settings cache include_towflight_errors f =
      let plane = get_plane cache f.plane_id in
      let towplane = get_plane cache f.towplane_id in
      let launch_method = get_launch_method cache f.launch_method_id in
      basic_errors f
      ++ (pilot_errors settings launch_method f
          ++ (copilot_errors settings f
              ++ (towpilot_errors settings launch_method f
                  ++ (plane_errors plane launch_method f
                      ++ (status_errors f
                          ++ (departure_errors f
                              ++ (landing_errors f
                                  ++ (location_errors f
                                      ++ towflight_errors include_towflight_errors towplane
                                          launch_method f))))))))

  -- The list, and the flight with its cache filled.
  unfoldable pub get_errors :
      Settings → Objects → Bool → Flight DateTime → List FlightError × Flight DateTime
  get_errors settings cache include_towflight_errors f =
      let errors = get_errors_impl settings cache include_towflight_errors f in
      if not f.cached_errors_valid
      then (errors, record f { cached_errors = errors; cached_errors_valid = true })
      else (f.cached_errors, f)

  abbrev first_error : List FlightError → Option FlightError
  first_error [] = none
  first_error (e ∷ errors) = some e

  -- The error that `errorText` describes; `none` is the result `false`.
  unfoldable pub is_erroneous :
      Settings → Objects → Flight DateTime → Option FlightError × Flight DateTime
  unfolding get_errors
  is_erroneous settings cache f =
      let (errors, f') = get_errors settings cache false f in (first_error errors, f')

  abbrev pub is_error : Option FlightError → Bool
  is_error none = false
  is_error (some e) = true

  abbrev color_of : Settings → Objects → Flight DateTime → Color × Flight DateTime
  color_of settings cache f =
      let (error, f') = is_erroneous settings cache f in
      let color = flight_color f.mode (is_error error) (is_towflight f) f.departed f.landed in
      (color, record f' { cached_color = some color })

  unfoldable pub get_color : Settings → Objects → Flight DateTime → Color × Flight DateTime
  unfolding is_erroneous
  get_color settings cache f = elim f.cached_color [
    | none ↦ color_of settings cache f
    | some color ↦ (color, f)
  ]

-- The tables and identifiers of a DbEvent, as far as `databaseChanged` reads them.
pub data Table : Type 0 where
  table_flights table_launch_methods table_people table_planes table_flarm_net_records : Table

unfoldable pub database_changed : {D : Type 0} → Table → ℕ → Flight D → Flight D
database_changed table_flights id f = f
database_changed table_launch_methods id f = if id == f.launch_method_id then data_changed f else f
database_changed table_people id f =
    if (id == f.pilot_id) || (id == f.copilot_id) || (id == f.towpilot_id)
    then data_changed f
    else f
database_changed table_planes id f =
    if (id == f.plane_id) || (id == f.towplane_id) then data_changed f else f
database_changed table_flarm_net_records id f = f
