-- ===== src/Flight.antt =====
-- src/model/FlightBase.h, FlightBase.cpp and the status functions of src/model/Flight.cpp and
-- Flight.h. `D` is QDateTime. The two caches of `Flight` are fields of the record.
pub mod Status
pub mod Actions
pub mod Order
pub mod Errors
pub mod Towflight
pub mod Row
use startkladde.Prelude.{
  ℕ, ◌==◌, Bool, true, false, not, ◌&&◌, ◌||◌, String, List, [], ◌∷◌, Option, none, some, zero, suc,
  ◌+◌, if◌then◌else◌,
}
use startkladde.Prelude.Int.{ℤ, pos}
use startkladde.DbId.{invalid_id}
use startkladde.Model.Mode as Mode
use startkladde.Model.Mode.{Mode, mode_local}
use startkladde.Model.FlightType.{FlightType, type_none, type_tow, type_eq}
use startkladde.Model.FlightError.{FlightError}
use startkladde.FlightColor.{Color}

pub record Flight (D : Type 0) : Type 0 where
  pub id : ℕ
  pub plane_id : ℕ
  pub pilot_id : ℕ
  pub copilot_id : ℕ
  pub supervisor_id : ℕ
  pub num_crew : ℤ
  pub num_pax : ℤ
  pub type : FlightType
  pub mode : Mode
  pub departed : Bool
  pub landed : Bool
  pub towflight_landed : Bool
  pub launch_method_id : ℕ
  pub departure_location : String
  pub landing_location : String
  pub departure_time : D
  pub landing_time : D
  pub num_landings : ℤ
  pub towplane_id : ℕ
  pub towflight_mode : Mode
  pub towflight_landing_location : String
  pub towflight_landing_time : D
  pub towpilot_id : ℕ
  pub pilot_last_name : String
  pub pilot_first_name : String
  pub copilot_last_name : String
  pub copilot_first_name : String
  pub towpilot_last_name : String
  pub towpilot_first_name : String
  pub comments : String
  pub accounting_notes : String
  pub flarm_id : String
  pub vf_id : ℕ
  pub uploaded : Bool
  -- the mutable caches; an invalid QColor is `none`
  pub cached_color : Option Color
  pub cached_errors : List FlightError
  pub cached_errors_valid : Bool

module _ {D : Type 0} where
  -- `dataChanged`, which every setter calls.
  abbrev pub data_changed : Flight D → Flight D
  data_changed f = record f { cached_color = none; cached_errors_valid = false }

  -- What the constructors leave: QDateTime () and empty texts by their own constructors, the rest
  -- by `initialize`. `num_crew`, `num_pax` and `uploaded` are left uninitialised by the source,
  -- so they are arguments.
  unfoldable pub initialize : ℤ → ℤ → Bool → D → ℕ → Flight D
  initialize num_crew num_pax uploaded null_time id = record {
    id = id;
    plane_id = invalid_id;
    pilot_id = invalid_id;
    copilot_id = invalid_id;
    supervisor_id = invalid_id;
    num_crew = num_crew;
    num_pax = num_pax;
    type = type_none;
    mode = mode_local;
    departed = false;
    landed = false;
    towflight_landed = false;
    launch_method_id = invalid_id;
    departure_location = "";
    landing_location = "";
    departure_time = null_time;
    landing_time = null_time;
    num_landings = pos 0;
    towplane_id = invalid_id;
    towflight_mode = mode_local;
    towflight_landing_location = "";
    towflight_landing_time = null_time;
    towpilot_id = invalid_id;
    pilot_last_name = "";
    pilot_first_name = "";
    copilot_last_name = "";
    copilot_first_name = "";
    towpilot_last_name = "";
    towpilot_first_name = "";
    comments = "";
    accounting_notes = "";
    flarm_id = "";
    vf_id = invalid_id;
    uploaded = uploaded;
    cached_color = none;
    cached_errors = [];
    cached_errors_valid = false;
  }

  abbrev pub is_towflight : Flight D → Bool
  is_towflight f = type_eq f.type type_tow

  abbrev pub departs_here : Flight D → Bool
  departs_here f = Mode.departs_here f.mode

  abbrev pub lands_here : Flight D → Bool
  lands_here f = Mode.lands_here f.mode

  abbrev pub towflight_lands_here : Flight D → Bool
  towflight_lands_here f = Mode.lands_here f.towflight_mode

  unfoldable pub happened : Flight D → Bool
  happened f =
      if departs_here f && f.departed
      then true
      else if lands_here f && f.landed
      then true
      else false

  unfoldable pub finished : Flight D → Bool
  finished f = if is_towflight f then f.landed else if lands_here f then f.landed else f.departed

  unfoldable pub is_flying : Flight D → Bool
  is_flying f = f.departed && lands_here f && not f.landed

  unfoldable pub is_prepared : Flight D → Bool
  unfolding happened
  is_prepared f = not (happened f)

  unfoldable pub is_towplane_flying : Flight D → Bool
  is_towplane_flying f =
      departs_here f && towflight_lands_here f && f.departed && not f.towflight_landed

  pub is_external : Flight D → Bool
  is_external f = not (lands_here f) || not (departs_here f)

  pub count_flying : List (Flight D) → ℕ
  unfolding is_flying
  count_flying [] = 0
  count_flying (f ∷ flights) = (if is_flying f then 1 else 0) + count_flying flights

  pub count_happened : List (Flight D) → ℕ
  unfolding happened
  count_happened [] = 0
  count_happened (f ∷ flights) = (if happened f then 1 else 0) + count_happened flights

  abbrev pub can_have_departure_time : Flight D → Bool
  can_have_departure_time f = departs_here f

  abbrev pub can_have_landing_time : Flight D → Bool
  can_have_landing_time f = lands_here f || is_towflight f

  abbrev pub has_departure_time : Flight D → Bool
  has_departure_time f = can_have_departure_time f && f.departed

  abbrev pub has_landing_time : Flight D → Bool
  has_landing_time f = can_have_landing_time f && f.landed

  abbrev pub has_duration : Flight D → Bool
  has_duration f = has_departure_time f && can_have_landing_time f
