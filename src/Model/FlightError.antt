-- ===== src/Model/FlightError.antt =====
-- `Flight::Error` of src/model/Flight.h, the texts of `errorDescription` left out.

pub data FlightError : Type 0 where
  no_error id_missing : FlightError
  mode_missing towflight_mode_missing type_missing : FlightError
  departure_location_missing landing_location_missing : FlightError
  towflight_landing_location_missing : FlightError
  plane_missing pilot_missing launch_method_missing : FlightError
  pilot_last_name_missing pilot_first_name_missing pilot_not_identified : FlightError
  copilot_last_name_missing copilot_first_name_missing copilot_not_identified : FlightError
  towpilot_last_name_missing towpilot_first_name_missing towpilot_not_identified : FlightError
  pilot_equals_copilot pilot_equals_towpilot : FlightError
  landing_location_equals_departure_location num_landings_negative : FlightError
  landing_without_departure landing_before_departure : FlightError
  landings_without_departure num_landings_zero : FlightError
  towflight_landing_without_departure towflight_landing_before_departure : FlightError
  copilot_not_allowed training_without_instructor towplane_missing : FlightError
  copilot_in_single_seater training_in_single_seater passenger_flight_in_single_seater : FlightError
  glider_multiple_landings glider_landings_without_landing_time : FlightError
  glider_self_launch towplane_is_glider : FlightError
