-- ===== src/Flight/Towflight.antt =====
-- Airtows and towflights: the sections "Launch method" and "Misc" of src/model/Flight.cpp.
pub mod Laws
use startkladde.Prelude.{
  ℕ, Bool, true, false, not, ◌&&◌, ◌||◌, String, List, [], ◌∷◌, Option, none, some, if◌then◌else◌,
}
use startkladde.Prelude.Int.{ℤ, pos}
use startkladde.DbId.{invalid_id, id_invalid}
use startkladde.Qt.{Qt}
use startkladde.Model.Mode.{mode_local}
use startkladde.Model.FlightType.{type_tow}
use startkladde.Model.LaunchMethod.{LaunchMethod, is_airtow, towplane_known, type_self}
use startkladde.Cache.Objects.{
  Objects, get_launch_method, get_launch_method_by_type, get_plane_id_by_registration,
}
use startkladde.Flight.{Flight, initialize, departs_here, towflight_lands_here}

-- The translated texts of a towflight, and the fields that `Flight towflight;` leaves
-- uninitialised.
pub record TowflightContext : Type 0 where
  pub towflight_for_flight : ℕ → String
  pub see_glider_flight : String
  pub num_crew : ℤ
  pub num_pax : ℤ
  pub uploaded : Bool

-- A test on a launch method, with NotFoundException as `false`.
abbrev airtow_or_false : Option LaunchMethod → Bool
airtow_or_false none = false
airtow_or_false (some launch_method) = is_airtow launch_method

module _ ⦃q : Qt⦄ where
  open q use {DateTime, null_date_time}

  -- `Flight::isAirtow`
  unfoldable pub flight_is_airtow : Objects → Flight DateTime → Bool
  flight_is_airtow cache f =
      if not (departs_here f)
      then false
      else if id_invalid f.launch_method_id
      then false
      else airtow_or_false (get_launch_method cache f.launch_method_id)

  -- The towplane by the launch method; the handler of NotFoundException returns `false`, that is
  -- the invalid identifier.
  abbrev towplane_by : Objects → Flight DateTime → Option LaunchMethod → ℕ
  towplane_by cache f none = invalid_id
  towplane_by cache f (some launch_method) =
      if not (is_airtow launch_method)
      then invalid_id
      else if towplane_known launch_method
      then get_plane_id_by_registration cache launch_method.towplane_registration
      else f.towplane_id

  unfoldable pub effective_towplane_id : Objects → Flight DateTime → ℕ
  effective_towplane_id cache f =
      if id_invalid f.launch_method_id
      then invalid_id
      else towplane_by cache f (get_launch_method cache f.launch_method_id)

  -- The flight that `Flight towflight;` and the setters make; each setter resets the caches, which
  -- a new flight has reset.
  unfoldable pub make_towflight : TowflightContext → Flight DateTime → ℕ → ℕ → Flight DateTime
  unfolding initialize
  make_towflight context f the_towplane_id tow_launch_method =
      let towflight =
        initialize context.num_crew context.num_pax context.uploaded null_date_time invalid_id in
      record towflight {
        id = f.id;
        plane_id = the_towplane_id;
        pilot_id = f.towpilot_id;
        copilot_id = invalid_id;
        towpilot_id = invalid_id;
        departure_time = f.departure_time;
        landing_time = f.towflight_landing_time;
        towflight_landing_time = null_date_time;
        launch_method_id = tow_launch_method;
        type = type_tow;
        departure_location = f.departure_location;
        landing_location = f.towflight_landing_location;
        towflight_landing_location = "";
        num_landings = if towflight_lands_here f && f.towflight_landed then pos 1 else pos 0;
        comments = context.towflight_for_flight f.id;
        accounting_notes = context.see_glider_flight;
        mode = f.towflight_mode;
        towflight_mode = mode_local;
        pilot_last_name = f.towpilot_last_name;
        pilot_first_name = f.towpilot_first_name;
        copilot_last_name = "";
        copilot_first_name = "";
        towpilot_last_name = "";
        towpilot_first_name = "";
        towplane_id = invalid_id;
        departed = f.departed;
        landed = f.towflight_landed;
        towflight_landed = false;
        flarm_id = "";
      }

  -- The overload with a cache.
  pub make_towflight_by : TowflightContext → Objects → Flight DateTime → Flight DateTime
  unfolding make_towflight effective_towplane_id
  make_towflight_by context cache f =
      let tow_launch_method = get_launch_method_by_type cache type_self in
      make_towflight context f (effective_towplane_id cache f) tow_launch_method

  -- The loop of `makeTowflights`.
  make_each : TowflightContext → Objects → ℕ → List (Flight DateTime) → List (Flight DateTime)
  make_each context cache tow_launch_method [] = []
  make_each context cache tow_launch_method (f ∷ flights) =
      let rest = make_each context cache tow_launch_method flights in
      if flight_is_airtow cache f
      then make_towflight context f (effective_towplane_id cache f) tow_launch_method ∷ rest
      else rest

  unfoldable pub make_towflights :
      TowflightContext → Objects → List (Flight DateTime) → List (Flight DateTime)
  unfolding make_each
  make_towflights context cache flights =
      make_each context cache (get_launch_method_by_type cache type_self) flights
