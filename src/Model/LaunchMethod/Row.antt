-- ===== src/Model/LaunchMethod/Row.antt =====
-- The row of a launch method in the database (src/model/LaunchMethod.cpp). The lists of columns are the texts of the source,
-- split at the commas.
use startkladde.Prelude.{ℕ, String, ◌≡◌, refl, List, [], ◌∷◌, map}
use startkladde.Container.{string_eq}
use startkladde.Qt.{Qt}
use startkladde.Database.Sql.{Column, column, Values, IsFaithful, result_value, zip, cell}
use startkladde.Database.{Entity}
use startkladde.Database.Objects.{IsEntity}
use startkladde.Model.LaunchMethod.{type_to_db, type_from_db, type_from_db-type_to_db}
use startkladde.Model.LaunchMethod.{LaunchMethod}

abbrev pub select_column_list : List Column
select_column_list =
    column "id"
    ∷ column "name"
    ∷ column "short_name"
    ∷ column "log_string"
    ∷ column "keyboard_shortcut"
    ∷ column "type"
    ∷ column "towplane_registration"
    ∷ column "person_required"
    ∷ column "comments"
    ∷ []

abbrev pub insert_column_list : List String
insert_column_list =
    "name" ∷ "short_name" ∷ "log_string" ∷ "keyboard_shortcut" ∷ "type" ∷ "towplane_registration"
    ∷ "person_required" ∷ "comments" ∷ []

module _ ⦃q : Qt⦄ ⦃v : Values q⦄ where
  open v use {Value, of_id, to_id, of_bool, to_bool, of_text, to_text}

  -- The values that are bound, in the order of the calls of `bind`.
  unfoldable pub bind_values : LaunchMethod → List Value
  bind_values object =
      of_text object.name
      ∷ of_text object.short_name
      ∷ of_text object.log_string
      ∷ of_text object.keyboard_shortcut
      ∷ of_text (type_to_db object.type)
      ∷ of_text object.towplane_registration
      ∷ of_bool object.person_required
      ∷ of_text object.comments
      ∷ []

  unfoldable pub create_from_result : List Value → LaunchMethod
  create_from_result row = record {
    id = to_id (result_value v 0 row);
    name = to_text (result_value v 1 row);
    short_name = to_text (result_value v 2 row);
    log_string = to_text (result_value v 3 row);
    keyboard_shortcut = to_text (result_value v 4 row);
    type = type_from_db (to_text (result_value v 5 row));
    towplane_registration = to_text (result_value v 6 row);
    person_required = to_bool (result_value v 7 row);
    comments = to_text (result_value v 8 row);
  }

  abbrev pub entity : Entity q v LaunchMethod
  entity = record {
    db_table_name = "launch_methods";
    select_column_list = select_column_list;
    create_from_result = create_from_result;
    insert_column_list = insert_column_list;
    bind_values = bind_values;
    get_id = λ object. object.id;
    set_id = λ id object. record object { id = id };
  }

  -- For values that are read back as they were stored: a launch method that is written into the columns of
  -- `insertColumnList` and read from those of `selectColumnList` is the same in all its fields,
  -- with the identifier of the row.
  pub create_from_result-bind_values :
      IsFaithful q v
      → (id : ℕ) (object : LaunchMethod)
      → create_from_result (
          map
            (cell v (("id", v.of_id id) ∷ zip v insert_column_list (bind_values object)))
            select_column_list)
        ≡ record object { id = id }
  unfolding create_from_result bind_values cell
  create_from_result-bind_values h id object = simp (h.id, h.text, h.bool, type_from_db-type_to_db)

  pub entity-IsEntity : IsFaithful q v → IsEntity entity (λ object. object)
  entity-IsEntity h = record {
    read = create_from_result-bind_values h;
    get_id-set_id = λ id object. refl;
    set_id-get_id = λ object. refl;
  }
