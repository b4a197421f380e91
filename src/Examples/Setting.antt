-- ===== src/Examples/Setting.antt =====
-- An instance of the parameter: date and time values are seconds, 0 being the invalid one, and
-- texts are taken as they are.
use startkladde.Prelude.{
  ℕ, ◌+◌, ◌-◌, ◌*◌, ◌/◌, ◌%◌, ◌==◌, ltb, Bool, true, false, not, ◌≡◌, [], ◌∷◌, arith,
}
use startkladde.Prelude.Int.{pos}
use startkladde.Qt.{Qt, IsTimeOrder}
use startkladde.Clock.{null_seconds}
use startkladde.Model.FlightType.{type_normal}
use startkladde.Model.LaunchMethod.{LaunchMethod, type_airtow}
use startkladde.Model.Plane.{Plane, category_airplane, category_glider}
use startkladde.Cache.Objects.{Objects}
use startkladde.Cache.Contents.{Contents}
use startkladde.Model.Person.{Person}
use startkladde.Model.FlarmNetRecord.{FlarmNetRecord}
use startkladde.Flight.{Flight, initialize}
use startkladde.Flight.Errors.{Settings}
use startkladde.Flight.Towflight.{TowflightContext}
use startkladde.Flight.Actions.Lifecycle.{KeepsOrder}

instance abbrev pub seconds : Qt
seconds = record {
  DateTime = ℕ;
  Date = ℕ;
  Time = ℕ;
  Zone = Bool;
  null_date_time = 0;
  is_valid = λ t. not (t == 0);
  before = λ a b. ltb a b;
  date = λ t. t / 86400;
  time = λ t. t % 86400;
  time_zone = λ t. true;
  date_time = λ d t z. d * 86400 + t;
  to_time_zone = λ t z. t;
  utc = true;
  date_eq = λ a b. a == b;
  hour = λ t. t / 3600;
  minute = λ t. t % 3600 / 60;
  clock_time = λ h m s. h * 3600 + m * 60 + s;
  trimmed = λ s. s;
  to_lower = λ s. s;
}

pub seconds-IsTimeOrder : IsTimeOrder seconds
seconds-IsTimeOrder = record {
  irrefl = λ a. ground arith;
  transitive = λ a b c h k. ground arith;
  weak = λ a b c h. ground arith;
}

-- The clock of the instance, cut off at the minute.
cut_minute : (t : ℕ) → null_seconds t ≡ t - t % 60
unfolding null_seconds
cut_minute t = ground arith

pub seconds-KeepsOrder : KeepsOrder seconds
seconds-KeepsOrder = record {
  order = seconds-IsTimeOrder;
  cut = λ a b y z h. ground (arith, cut_minute a, cut_minute b);
}

abbrev pub context : TowflightContext
context = record {
  towflight_for_flight = λ id. "towflight";
  see_glider_flight = "see glider flight";
  num_crew = pos 1;
  num_pax = pos 0;
  uploaded = false;
}

abbrev pub settings : Settings
settings = record { anonymous_mode = false; record_towpilot = true }

abbrev pub by_airtow : LaunchMethod
by_airtow = record {
  id = 1;
  name = "airtow";
  short_name = "A";
  log_string = "A";
  keyboard_shortcut = "a";
  type = type_airtow;
  towplane_registration = "D-EBOB";
  person_required = true;
  comments = "";
}

abbrev pub towplane : Plane
towplane = record {
  id = 5;
  registration = "D-EBOB";
  club = "club";
  num_seats = pos 4;
  type = "Robin";
  category = category_airplane;
  callsign = "";
  flarm_id = "";
  comments = "";
}

abbrev pub glider : Plane
glider = record {
  id = 6;
  registration = "D-1234";
  club = "club";
  num_seats = pos 2;
  type = "ASK 21";
  category = category_glider;
  callsign = "AA";
  flarm_id = "";
  comments = "";
}

abbrev pub objects : Objects
objects = record {
  planes = towplane ∷ glider ∷ [];
  planes_sorted_by_usage = (towplane, pos 0) ∷ (glider, pos 0) ∷ [];
  plane_types = "ASK 21" ∷ "Robin" ∷ [];
  plane_registrations = "D-1234" ∷ "D-EBOB" ∷ [];
  clubs = "club" ∷ [];
  planes_by_id = (5, towplane) ∷ (6, glider) ∷ [];
  plane_ids_by_registration = ("D-EBOB", 5) ∷ ("D-1234", 6) ∷ [];
  plane_ids_by_flarm_id = ("", 5) ∷ ("", 6) ∷ [];
  launch_methods = by_airtow ∷ [];
  launch_methods_by_id = (1, by_airtow) ∷ [];
  launch_method_ids_by_type = (type_airtow, 1) ∷ [];
}

abbrev pub pilot : Person ℕ
pilot = record {
  id = 3;
  last_name = "Lilienthal";
  first_name = "Otto";
  nickname = "";
  club = "club";
  club_id = "";
  vfid = 0;
  check_medical = false;
  medical_validity = 0;
  comments = "";
}

abbrev pub towpilot : Person ℕ
towpilot = record pilot { id = 4; first_name = "Gustav" }

abbrev pub known_glider : FlarmNetRecord
known_glider = record {
  id = 2;
  flarm_id = "DDA456";
  registration = "D-1234";
  owner = "";
  airfield = "";
  type = "ASK 21";
  callsign = "AA";
  frequency = "";
  comments = "";
}

abbrev pub contents : Contents
contents = record {
  objects = objects;
  people = pilot ∷ towpilot ∷ [];
  people_sorted_by_frequency = (pilot, pos 0) ∷ (towpilot, pos 0) ∷ [];
  people_by_id = (3, pilot) ∷ (4, towpilot) ∷ [];
  person_last_names = "Lilienthal" ∷ [];
  person_first_names = "Gustav" ∷ "Otto" ∷ [];
  last_names_by_first_name = ("Gustav", "Lilienthal") ∷ ("Otto", "Lilienthal") ∷ [];
  first_names_by_last_name = ("Lilienthal", "Gustav") ∷ ("Lilienthal", "Otto") ∷ [];
  person_ids_by_last_name = ("Lilienthal", 4) ∷ ("Lilienthal", 3) ∷ [];
  person_ids_by_first_name = ("Gustav", 4) ∷ ("Otto", 3) ∷ [];
  person_ids_by_name = (("Lilienthal", "Gustav"), 4) ∷ (("Lilienthal", "Otto"), 3) ∷ [];
  flarm_net_records = known_glider ∷ [];
  flarm_net_records_by_id = (2, known_glider) ∷ [];
  flarm_net_record_ids_by_flarm_id = ("DDA456", 2) ∷ [];
}

-- A local flight of the glider by airtow, as it is prepared.
abbrev pub prepared : ℕ → Flight ℕ
prepared id = record (initialize (pos 1) (pos 0) false 0 id) {
  type = type_normal;
  plane_id = 6;
  pilot_id = 3;
  towpilot_id = 4;
  launch_method_id = 1;
  departure_location = "Aachen";
  landing_location = "Aachen";
  towflight_landing_location = "Aachen";
}

-- The same, departed at a time.
abbrev pub airborne : ℕ → ℕ → Flight ℕ
airborne id t = record (prepared id) { departed = true; departure_time = t }
