-- ===== src/Flarm/Record.antt =====
-- src/flarm/FlarmRecord.cpp: what is known of one aircraft, and the departures and landings that
-- are told from its speed and altitude. The position, altitude and speed are `double`s that hold the
-- integers of a PFLAA sentence, so they are integers; the climb rate, the registration and the
-- frequency are only displayed and left out. A signal carries the FLARM identifier, which does not
-- change, so it is left out too.
pub mod Updown
pub mod Landing
pub mod History
use startkladde.Prelude.{
  ℕ, zero, suc, ◌+◌, ◌-◌, ◌*◌, ltb, Bool, true, false, not, ◌&&◌, List, [], ◌∷◌, ◌++◌,
  if◌then◌else◌,
}
use startkladde.Prelude.Int.{ℤ, pos, pos_part, neg_part, ltb_ℤ}
use startkladde.Prelude.Lists.{length}
use startkladde.Model.Plane.{Category, category_none, category_motorglider, category_eq}

pub data FlarmState : Type 0 where
  state_unknown state_on_ground state_starting state_flying state_flying_far state_landing :
      FlarmState

pub data FlightSituation : Type 0 where
  ground_situation low_situation flying_situation : FlightSituation

pub data Signal : Type 0 where
  departure_detected landing_detected touch_and_go_detected remove : Signal

-- What the record reads of a PflaaSentence.
pub record Sentence : Type 0 where
  pub relative_north : ℤ
  pub relative_east : ℤ
  pub relative_vertical : ℤ
  pub ground_speed : ℤ

pub record FlarmRecord : Type 0 where
  -- east and north
  pub relative_position : ℤ × ℤ
  pub previous_relative_positions : List (ℤ × ℤ)
  pub relative_altitude : ℤ
  pub last_relative_altitude : ℤ
  pub ground_speed : ℤ
  pub last_ground_speed : ℤ
  pub state : FlarmState
  pub category : Category
  -- QTimer::isActive
  pub keepalive_timer : Bool
  pub landing_timer : Bool

-- The constructor; the default QPointF is (0, 0).
abbrev pub new : FlarmRecord
new = record {
  relative_position = (pos 0, pos 0);
  previous_relative_positions = [];
  relative_altitude = pos 0;
  last_relative_altitude = pos 0;
  ground_speed = pos 0;
  last_ground_speed = pos 0;
  state = state_unknown;
  category = category_none;
  keepalive_timer = true;
  landing_timer = false;
}

-- fabs (a - b)
abbrev distance : ℤ → ℤ → ℕ
distance a b =
    (pos_part a + neg_part b - (pos_part b + neg_part a))
    + (pos_part b + neg_part a - (pos_part a + neg_part b))

-- A km/h is 1000/3600 = 5/18 m/s: more than 400 km/h is 9 v > 1000, and more than 100 km/h is
-- 9 v > 250.
unfoldable pub is_plausible : FlarmRecord → Bool
is_plausible r =
    if ltb_ℤ r.ground_speed (pos 0)
    then false
    else if ltb 1000 (9 * pos_part r.ground_speed)
    then false
    else if ltb 100 (distance r.relative_altitude r.last_relative_altitude)
    then false
    else if ltb 250 (9 * distance r.ground_speed r.last_ground_speed)
    then false
    else true

unfoldable pub get_situation : FlarmRecord → FlightSituation
get_situation r =
    if ltb_ℤ r.ground_speed (pos 2)
    then ground_situation
    else if ltb_ℤ r.ground_speed (pos 10)
    then (if ltb_ℤ r.relative_altitude (pos 40) then ground_situation else flying_situation)
    else if ltb_ℤ r.ground_speed (pos 40)
    then (if ltb_ℤ r.relative_altitude (pos 40) then low_situation else flying_situation)
    else flying_situation

abbrev square : ℤ → ℕ
square z = (pos_part z + neg_part z) * (pos_part z + neg_part z)

-- `range` is the setting flarmRange; sqrt (x*x + y*y) > range, squared.
unfoldable pub general_filter_match : ℤ → FlarmRecord → Bool
general_filter_match range r =
    if ltb_ℤ (pos 0) range
    then (if ltb (square range) (square r.relative_position.0 + square r.relative_position.1)
        then false
        else true)
    else true

-- `_departureDetected` and its like
unfoldable pub detected : ℤ → Signal → FlarmRecord → List Signal
unfolding general_filter_match
detected range signal r = if general_filter_match range r then signal ∷ [] else []

abbrev is_motorglider : FlarmRecord → Bool
is_motorglider r = category_eq r.category category_motorglider

-- "[touch and go]" and "[landing]" of the table in the source.
abbrev touch_and_go : ℤ → FlarmRecord → FlarmRecord × List Signal
touch_and_go range r = (r, if is_motorglider r then detected range touch_and_go_detected r else [])

abbrev landing : ℤ → FlarmRecord → FlarmRecord × List Signal
landing range r =
    if is_motorglider r
    then (record r { landing_timer = true }, [])
    else (r, detected range landing_detected r)

-- `stateTransition` in the state of the record.
unfoldable pub transition_from :
    FlarmState → FlightSituation → ℤ → FlarmRecord → FlarmRecord × List Signal
unfolding detected
transition_from state_unknown ground_situation range r = (record r { state = state_on_ground }, [])
transition_from state_unknown low_situation range r = (record r { state = state_landing }, [])
transition_from state_unknown flying_situation range r = (record r { state = state_flying }, [])
transition_from state_on_ground ground_situation range r = (r, [])
transition_from state_on_ground low_situation range r =
    let r' = record r { state = state_starting } in
    if r.landing_timer
    then touch_and_go range (record r' { landing_timer = false })
    else (r', detected range departure_detected r')
transition_from state_on_ground flying_situation range r =
    let r' = record r { state = state_flying } in
    if r.landing_timer
    then touch_and_go range (record r' { landing_timer = false })
    else (r', detected range departure_detected r')
transition_from state_landing ground_situation range r =
    landing range (record r { state = state_on_ground })
transition_from state_landing low_situation range r = (r, [])
transition_from state_landing flying_situation range r =
    touch_and_go range (record r { state = state_flying })
transition_from state_flying ground_situation range r =
    landing range (record r { state = state_on_ground })
transition_from state_flying low_situation range r = (record r { state = state_landing }, [])
transition_from state_flying flying_situation range r = (r, [])
transition_from state_flying_far ground_situation range r =
    landing range (record r { state = state_on_ground })
transition_from state_flying_far low_situation range r = (record r { state = state_landing }, [])
transition_from state_flying_far flying_situation range r = (record r { state = state_flying }, [])
transition_from state_starting ground_situation range r =
    let r' = record r { state = state_on_ground } in (r', detected range landing_detected r')
transition_from state_starting low_situation range r = (r, [])
transition_from state_starting flying_situation range r = (record r { state = state_flying }, [])

unfoldable pub state_transition : ℤ → FlarmRecord → FlarmRecord × List Signal
unfolding transition_from get_situation
state_transition range r = transition_from r.state (get_situation r) range r

-- removeLast
abbrev remove_last {ℓ} : {A : Type ℓ} → List A → List A
remove_last [] = []
remove_last (x ∷ []) = []
remove_last (x ∷ y ∷ xs) = x ∷ remove_last (y ∷ xs)

-- The loop that truncates the history, from index `i`: i < size () - 20 is i + 20 < size (). It
-- removes one position a round, so the size is fuel enough.
unfoldable pub truncate_from {ℓ} : {A : Type ℓ} → ℕ → ℕ → List A → List A
truncate_from zero i xs = xs
truncate_from (suc fuel) i xs =
    let rest = truncate_from fuel (suc i) (remove_last xs) in
    if ltb (i + 20) (length xs) then rest else xs

-- The values of a sentence, before the state is looked at.
unfoldable pub read_sentence : Sentence → FlarmRecord → FlarmRecord
unfolding truncate_from
read_sentence s r =
    let position : ℤ × ℤ = (s.relative_east, s.relative_north) in
    let positions : List (ℤ × ℤ) = position ∷ r.previous_relative_positions in
    record r {
      keepalive_timer = true;
      last_relative_altitude = r.relative_altitude;
      last_ground_speed = r.ground_speed;
      relative_altitude = s.relative_vertical;
      ground_speed = s.ground_speed;
      relative_position = position;
      previous_relative_positions = truncate_from (length positions) 0 positions;
    }

unfoldable pub process_pflaa_sentence : ℤ → Sentence → FlarmRecord → FlarmRecord × List Signal
process_pflaa_sentence range s r =
    let r' = read_sentence s r in if is_plausible r' then state_transition range r' else (r', [])

-- `keepaliveTimeout` once the timer is stopped, by the state.
abbrev pub keepalive_from : FlarmState → ℤ → FlarmRecord → FlarmRecord × List Signal
keepalive_from state_landing range r =
    let r' = record r { state = state_on_ground } in (r', detected range landing_detected r')
keepalive_from state_flying range r = (record r { state = state_flying_far }, [])
keepalive_from other range r = (r, [])

unfoldable pub keepalive_timeout : ℤ → FlarmRecord → FlarmRecord × List Signal
unfolding detected
keepalive_timeout range r =
    let (r', signals) = keepalive_from r.state range (record r { keepalive_timer = false }) in
    (r', signals ++ remove ∷ [])

abbrev landing_from : FlarmState → ℤ → FlarmRecord → List Signal
landing_from state_on_ground range r = detected range landing_detected r
landing_from other range r = []

unfoldable pub landing_timeout : ℤ → FlarmRecord → FlarmRecord × List Signal
unfolding detected
landing_timeout range r =
    let r' = record r { landing_timer = false } in (r', landing_from r.state range r')
