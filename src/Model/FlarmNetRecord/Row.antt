-- ===== src/Model/FlarmNetRecord/Row.antt =====
-- The row of a FlarmNet record in the database (src/flarm/flarmNet/FlarmNetRecord.cpp). The lists of columns are the texts of the source,
-- split at the commas.
use startkladde.Prelude.{ℕ, String, ◌≡◌, refl, List, [], ◌∷◌, map}
use startkladde.Container.{string_eq}
use startkladde.Qt.{Qt}
use startkladde.Database.Sql.{Column, column, Values, IsFaithful, result_value, zip, cell}
use startkladde.Database.{Entity}
use startkladde.Database.Objects.{IsEntity}
use startkladde.Model.FlarmNetRecord.{FlarmNetRecord}

abbrev pub select_column_list : List Column
select_column_list =
    column "id"
    ∷ column "flarm_id"
    ∷ column "registration"
    ∷ column "callsign"
    ∷ column "owner"
    ∷ column "airfield"
    ∷ column "type"
    ∷ column "frequency"
    ∷ []

abbrev pub insert_column_list : List String
insert_column_list =
    "flarm_id" ∷ "registration" ∷ "callsign" ∷ "owner" ∷ "airfield" ∷ "type" ∷ "frequency" ∷ []

module _ ⦃q : Qt⦄ ⦃v : Values q⦄ where
  open v use {Value, of_id, to_id, of_text, to_text}

  -- The values that are bound, in the order of the calls of `bind`.
  unfoldable pub bind_values : FlarmNetRecord → List Value
  bind_values object =
      of_text object.flarm_id
      ∷ of_text object.registration
      ∷ of_text object.callsign
      ∷ of_text object.owner
      ∷ of_text object.airfield
      ∷ of_text object.type
      ∷ of_text object.frequency
      ∷ []

  unfoldable pub create_from_result : List Value → FlarmNetRecord
  create_from_result row = record {
    id = to_id (result_value v 0 row);
    flarm_id = to_text (result_value v 1 row);
    registration = to_text (result_value v 2 row);
    callsign = to_text (result_value v 3 row);
    owner = to_text (result_value v 4 row);
    airfield = to_text (result_value v 5 row);
    type = to_text (result_value v 6 row);
    frequency = to_text (result_value v 7 row);
    comments = "";
  }

  abbrev pub entity : Entity q v FlarmNetRecord
  entity = record {
    db_table_name = "flarmnet";
    select_column_list = select_column_list;
    create_from_result = create_from_result;
    insert_column_list = insert_column_list;
    bind_values = bind_values;
    get_id = λ object. object.id;
    set_id = λ id object. record object { id = id };
  }

  -- The comments are not stored.
  abbrev pub kept : FlarmNetRecord → FlarmNetRecord
  kept object = record object { comments = "" }

  -- For values that are read back as they were stored: a FlarmNet record that is written into the columns of
  -- `insertColumnList` and read from those of `selectColumnList` is the same in all its fields but its comments,
  -- with the identifier of the row.
  pub create_from_result-bind_values :
      IsFaithful q v
      → (id : ℕ) (object : FlarmNetRecord)
      → create_from_result (
          map
            (cell v (("id", v.of_id id) ∷ zip v insert_column_list (bind_values object)))
            select_column_list)
        ≡ kept (record object { id = id })
  unfolding create_from_result bind_values cell
  create_from_result-bind_values h id object = simp (h.id, h.text)

  pub entity-IsEntity : IsFaithful q v → IsEntity entity kept
  entity-IsEntity h = record {
    read = create_from_result-bind_values h;
    get_id-set_id = λ id object. refl;
    set_id-get_id = λ object. refl;
  }
