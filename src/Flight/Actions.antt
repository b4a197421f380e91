-- ===== src/Flight/Actions.antt =====
-- Departing, landing and touch-and-go: the section "Departure/landing" of src/model/Flight.cpp.
pub mod Guards
pub mod Lifecycle
use startkladde.Prelude.{
  Bool, true, false, not, ◌&&◌, ◌||◌, String, Option, none, some, if◌then◌else◌,
}
use startkladde.Prelude.Int.{pos, ◌+ℤ◌}
use startkladde.Qt.{Qt}
use startkladde.Text.{is_none}
use startkladde.Clock.{null_seconds}
use startkladde.Flight.{
  Flight, data_changed, departs_here, lands_here, towflight_lands_here, is_towflight,
}

-- The reasons that are written through `QString *reason`.
pub data Reason : Type 0 where
  has_already_landed does_not_depart_here has_already_departed does_not_land_here : Reason
  has_not_departed_yet is_a_towflight towflight_has_already_landed : Reason

-- A `false` comes with its reason; `none` is `true`.
module _ {D : Type 0} where
  pub why_not_depart : Flight D → Option Reason
  why_not_depart f =
      if lands_here f && f.landed
      then some has_already_landed
      else if not (departs_here f)
      then some does_not_depart_here
      else if f.departed
      then some has_already_departed
      else none

  pub why_not_land : Flight D → Option Reason
  why_not_land f =
      if f.landed
      then some has_already_landed
      else if not (is_towflight f) && not (lands_here f)
      then some does_not_land_here
      else if departs_here f && not f.departed
      then some has_not_departed_yet
      else none

  pub why_not_touchngo : Flight D → Option Reason
  why_not_touchngo f =
      if is_towflight f
      then some is_a_towflight
      else if f.landed
      then some has_already_landed
      else if departs_here f && not f.departed
      then some has_not_departed_yet
      else none

  pub why_not_towflight_land : Flight D → Option Reason
  why_not_towflight_land f =
      if f.towflight_landed
      then some towflight_has_already_landed
      else if departs_here f && not f.departed
      then some has_not_departed_yet
      else none

abbrev possible : Option Reason → Bool
possible none = true
possible (some reason) = false

module _ {D : Type 0} where
  pub can_depart : Flight D → Bool
  unfolding why_not_depart
  can_depart f = possible (why_not_depart f)

  pub can_land : Flight D → Bool
  unfolding why_not_land
  can_land f = possible (why_not_land f)

  pub can_touchngo : Flight D → Bool
  unfolding why_not_touchngo
  can_touchngo f = possible (why_not_touchngo f)

  pub can_towflight_land : Flight D → Bool
  unfolding why_not_towflight_land
  can_towflight_land f = possible (why_not_towflight_land f)

-- An action returns its Boolean result and the flight as it leaves it. `now` is
-- QDateTime::currentDateTime ().toUTC () and `here` is Settings::location.
module _ ⦃q : Qt⦄ where
  open q use {DateTime}

  unfoldable pub depart_now : DateTime → Bool → Flight DateTime → Bool × Flight DateTime
  unfolding can_depart
  depart_now now force f =
      if force || can_depart f
      then (true, data_changed (record f { departure_time = null_seconds now; departed = true }))
      else (false, f)

  unfoldable pub land_now : DateTime → String → Bool → Flight DateTime → Bool × Flight DateTime
  unfolding can_land
  land_now now here force f =
      if force || can_land f
      then (
        true,
        data_changed (record f {
          landing_time = null_seconds now;
          num_landings = f.num_landings +ℤ pos 1;
          landed = true;
          landing_location = if is_none f.landing_location then here else f.landing_location;
        }),
      )
      else (false, f)

  unfoldable pub land_towflight_now :
      DateTime → String → Bool → Flight DateTime → Bool × Flight DateTime
  unfolding can_towflight_land
  land_towflight_now now here force f =
      if force || can_towflight_land f
      then (
        true,
        data_changed (record f {
          towflight_landing_time = null_seconds now;
          towflight_landed = true;
          towflight_landing_location =
              if towflight_lands_here f && is_none f.towflight_landing_location
              then here
              else f.towflight_landing_location;
        }),
      )
      else (false, f)

  unfoldable pub perform_touchngo : Bool → Flight DateTime → Bool × Flight DateTime
  unfolding can_touchngo
  perform_touchngo force f =
      if force || can_touchngo f
      then (true, data_changed (record f { num_landings = f.num_landings +ℤ pos 1 }))
      else (false, f)

  -- The overloads with a location.
  abbrev set_location_if :
      Bool × Flight DateTime → (Flight DateTime → Flight DateTime) → Bool × Flight DateTime
  set_location_if (true, f) set = (true, set f)
  set_location_if (false, f) set = (false, f)

  pub depart_now_at : DateTime → String → Bool → Flight DateTime → Bool × Flight DateTime
  unfolding depart_now
  depart_now_at now location force f =
      set_location_if (depart_now now force f)
        (λ g. data_changed (record g { departure_location = location }))

  pub land_now_at : DateTime → String → String → Bool → Flight DateTime → Bool × Flight DateTime
  unfolding land_now
  land_now_at now here location force f =
      set_location_if (land_now now here force f)
        (λ g. data_changed (record g { landing_location = location }))

  pub land_towflight_now_at :
      DateTime → String → String → Bool → Flight DateTime → Bool × Flight DateTime
  unfolding land_towflight_now
  land_towflight_now_at now here location force f =
      set_location_if (land_towflight_now now here force f)
        (λ g. data_changed (record g { towflight_landing_location = location }))
