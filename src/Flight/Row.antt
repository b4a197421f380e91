-- ===== src/Flight/Row.antt =====
-- The row of a flight in the database (src/model/Flight.cpp). The lists of columns are the texts of the source,
-- split at the commas.
use startkladde.Prelude.{ℕ, false, String, ◌≡◌, refl, List, [], ◌∷◌, none, map}
use startkladde.Container.{string_eq}
use startkladde.Qt.{Qt}
use startkladde.Database.Sql.{
  Column, column, cast_as_char, Values, IsFaithful, result_value, zip, cell,
}
use startkladde.Database.{Entity}
use startkladde.Database.Objects.{IsEntity}
use startkladde.Model.FlightType.{type_to_db, type_from_db, type_from_db-type_to_db}
use startkladde.Model.Mode.{mode_to_db, mode_from_db, mode_from_db-mode_to_db}
use startkladde.Flight.{Flight}

abbrev pub select_column_list : List Column
select_column_list =
    column "id"
    ∷ column "pilot_id"
    ∷ column "copilot_id"
    ∷ column "supervisor_id"
    ∷ column "plane_id"
    ∷ column "type"
    ∷ column "mode"
    ∷ column "departed"
    ∷ column "landed"
    ∷ column "towflight_landed"
    ∷ column "launch_method_id"
    ∷ column "departure_location"
    ∷ column "landing_location"
    ∷ column "num_landings"
    ∷ cast_as_char "departure_time"
    ∷ cast_as_char "landing_time"
    ∷ column "pilot_last_name"
    ∷ column "pilot_first_name"
    ∷ column "copilot_last_name"
    ∷ column "copilot_first_name"
    ∷ cast_as_char "towflight_landing_time"
    ∷ column "towflight_mode"
    ∷ column "towflight_landing_location"
    ∷ column "towplane_id"
    ∷ column "accounting_notes"
    ∷ column "comments"
    ∷ column "towpilot_id"
    ∷ column "towpilot_last_name"
    ∷ column "towpilot_first_name"
    ∷ column "flarm_id"
    ∷ column "vfid"
    ∷ column "num_crew"
    ∷ column "num_pax"
    ∷ column "uploaded"
    ∷ []

abbrev pub insert_column_list : List String
insert_column_list =
    "pilot_id" ∷ "copilot_id" ∷ "supervisor_id" ∷ "plane_id" ∷ "type" ∷ "mode" ∷ "departed"
    ∷ "landed" ∷ "towflight_landed" ∷ "launch_method_id" ∷ "departure_location" ∷ "landing_location"
    ∷ "num_landings" ∷ "departure_time" ∷ "landing_time" ∷ "pilot_last_name" ∷ "pilot_first_name"
    ∷ "copilot_last_name" ∷ "copilot_first_name" ∷ "towflight_landing_time" ∷ "towflight_mode"
    ∷ "towflight_landing_location" ∷ "towplane_id" ∷ "accounting_notes" ∷ "comments" ∷ "towpilot_id"
    ∷ "towpilot_last_name" ∷ "towpilot_first_name" ∷ "flarm_id" ∷ "vfid" ∷ "num_crew" ∷ "num_pax"
    ∷ "uploaded" ∷ []

module _ ⦃q : Qt⦄ ⦃v : Values q⦄ where
  open q use {DateTime, to_time_zone, utc}
  open v use {
    Value, of_id, to_id, of_int, to_int, of_bool, to_bool, of_date_time, to_date_time,
    set_time_zone, of_text, to_text,
  }

  -- The values that are bound, in the order of the calls of `bind`.
  unfoldable pub bind_values : Flight DateTime → List Value
  bind_values object =
      of_id object.pilot_id
      ∷ of_id object.copilot_id
      ∷ of_id object.supervisor_id
      ∷ of_id object.plane_id
      ∷ of_text (type_to_db object.type)
      ∷ of_text (mode_to_db object.mode)
      ∷ of_bool object.departed
      ∷ of_bool object.landed
      ∷ of_bool object.towflight_landed
      ∷ of_id object.launch_method_id
      ∷ of_text object.departure_location
      ∷ of_text object.landing_location
      ∷ of_int object.num_landings
      ∷ of_date_time (to_time_zone object.departure_time utc)
      ∷ of_date_time (to_time_zone object.landing_time utc)
      ∷ of_text object.pilot_last_name
      ∷ of_text object.pilot_first_name
      ∷ of_text object.copilot_last_name
      ∷ of_text object.copilot_first_name
      ∷ of_date_time (to_time_zone object.towflight_landing_time utc)
      ∷ of_text (mode_to_db object.towflight_mode)
      ∷ of_text object.towflight_landing_location
      ∷ of_id object.towplane_id
      ∷ of_text object.accounting_notes
      ∷ of_text object.comments
      ∷ of_id object.towpilot_id
      ∷ of_text object.towpilot_last_name
      ∷ of_text object.towpilot_first_name
      ∷ of_text object.flarm_id
      ∷ of_id object.vf_id
      ∷ of_int object.num_crew
      ∷ of_int object.num_pax
      ∷ of_bool object.uploaded
      ∷ []

  -- Every field is set; the caches are as the constructor and the setters leave them.
  unfoldable pub create_from_result : List Value → Flight DateTime
  create_from_result row = record {
    id = to_id (result_value v 0 row);
    pilot_id = to_id (result_value v 1 row);
    copilot_id = to_id (result_value v 2 row);
    supervisor_id = to_id (result_value v 3 row);
    plane_id = to_id (result_value v 4 row);
    type = type_from_db (to_text (result_value v 5 row));
    mode = mode_from_db (to_text (result_value v 6 row));
    departed = to_bool (result_value v 7 row);
    landed = to_bool (result_value v 8 row);
    towflight_landed = to_bool (result_value v 9 row);
    launch_method_id = to_id (result_value v 10 row);
    departure_location = to_text (result_value v 11 row);
    landing_location = to_text (result_value v 12 row);
    num_landings = to_int (result_value v 13 row);
    departure_time = set_time_zone (to_date_time (result_value v 14 row)) utc;
    landing_time = set_time_zone (to_date_time (result_value v 15 row)) utc;
    pilot_last_name = to_text (result_value v 16 row);
    pilot_first_name = to_text (result_value v 17 row);
    copilot_last_name = to_text (result_value v 18 row);
    copilot_first_name = to_text (result_value v 19 row);
    towflight_landing_time = set_time_zone (to_date_time (result_value v 20 row)) utc;
    towflight_mode = mode_from_db (to_text (result_value v 21 row));
    towflight_landing_location = to_text (result_value v 22 row);
    towplane_id = to_id (result_value v 23 row);
    accounting_notes = to_text (result_value v 24 row);
    comments = to_text (result_value v 25 row);
    towpilot_id = to_id (result_value v 26 row);
    towpilot_last_name = to_text (result_value v 27 row);
    towpilot_first_name = to_text (result_value v 28 row);
    flarm_id = to_text (result_value v 29 row);
    vf_id = to_id (result_value v 30 row);
    num_crew = to_int (result_value v 31 row);
    num_pax = to_int (result_value v 32 row);
    uploaded = to_bool (result_value v 33 row);
    cached_color = none;
    cached_errors = [];
    cached_errors_valid = false;
  }

  abbrev pub entity : Entity q v (Flight DateTime)
  entity = record {
    db_table_name = "flights";
    select_column_list = select_column_list;
    create_from_result = create_from_result;
    insert_column_list = insert_column_list;
    bind_values = bind_values;
    get_id = λ object. object.id;
    set_id = λ id object. record object { id = id };
  }

  -- The flight with times in UTC and with empty caches.
  abbrev pub kept : Flight DateTime → Flight DateTime
  kept object = record object {
    departure_time = to_time_zone object.departure_time utc;
    landing_time = to_time_zone object.landing_time utc;
    towflight_landing_time = to_time_zone object.towflight_landing_time utc;
    cached_color = none;
    cached_errors = [];
    cached_errors_valid = false;
  }

  -- For values that are read back as they were stored: a flight that is written into the columns of
  -- `insertColumnList` and read from those of `selectColumnList` is the same in all its fields, its times in UTC and its caches empty,
  -- with the identifier of the row.
  pub create_from_result-bind_values :
      IsFaithful q v
      → (id : ℕ) (object : Flight DateTime)
      → create_from_result (
          map
            (cell v (("id", v.of_id id) ∷ zip v insert_column_list (bind_values object)))
            select_column_list)
        ≡ kept (record object { id = id })
  unfolding create_from_result bind_values cell
  create_from_result-bind_values h id object =
      simp
        (h.id, h.text, h.int, h.bool, h.date_time, type_from_db-type_to_db, mode_from_db-mode_to_db)

  pub entity-IsEntity : IsFaithful q v → IsEntity entity kept
  entity-IsEntity h = record {
    read = create_from_result-bind_values h;
    get_id-set_id = λ id object. refl;
    set_id-get_id = λ object. refl;
  }
