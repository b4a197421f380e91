-- ===== src/Model/Plane/Row.antt =====
-- The row of a plane in the database (src/model/Plane.cpp). The lists of columns are the texts of the source,
-- split at the commas.
use startkladde.Prelude.{ℕ, String, ◌≡◌, refl, List, [], ◌∷◌, map}
use startkladde.Container.{string_eq}
use startkladde.Qt.{Qt}
use startkladde.Database.Sql.{Column, column, Values, IsFaithful, result_value, zip, cell}
use startkladde.Database.{Entity}
use startkladde.Database.Objects.{IsEntity}
use startkladde.Model.Plane.{category_to_db, category_from_db, category_from_db-category_to_db}
use startkladde.Model.Plane.{Plane}

abbrev pub select_column_list : List Column
select_column_list =
    column "id"
    ∷ column "registration"
    ∷ column "club"
    ∷ column "num_seats"
    ∷ column "type"
    ∷ column "category"
    ∷ column "callsign"
    ∷ column "flarm_id"
    ∷ column "comments"
    ∷ []

abbrev pub insert_column_list : List String
insert_column_list =
    "registration" ∷ "club" ∷ "num_seats" ∷ "type" ∷ "category" ∷ "callsign" ∷ "flarm_id"
    ∷ "comments" ∷ []

module _ ⦃q : Qt⦄ ⦃v : Values q⦄ where
  open v use {Value, of_id, to_id, of_int, to_int, of_text, to_text}

  -- The values that are bound, in the order of the calls of `bind`.
  unfoldable pub bind_values : Plane → List Value
  bind_values object =
      of_text object.registration
      ∷ of_text object.club
      ∷ of_int object.num_seats
      ∷ of_text object.type
      ∷ of_text (category_to_db object.category)
      ∷ of_text object.callsign
      ∷ of_text object.flarm_id
      ∷ of_text object.comments
      ∷ []

  unfoldable pub create_from_result : List Value → Plane
  create_from_result row = record {
    id = to_id (result_value v 0 row);
    registration = to_text (result_value v 1 row);
    club = to_text (result_value v 2 row);
    num_seats = to_int (result_value v 3 row);
    type = to_text (result_value v 4 row);
    category = category_from_db (to_text (result_value v 5 row));
    callsign = to_text (result_value v 6 row);
    flarm_id = to_text (result_value v 7 row);
    comments = to_text (result_value v 8 row);
  }

  abbrev pub entity : Entity q v Plane
  entity = record {
    db_table_name = "planes";
    select_column_list = select_column_list;
    create_from_result = create_from_result;
    insert_column_list = insert_column_list;
    bind_values = bind_values;
    get_id = λ object. object.id;
    set_id = λ id object. record object { id = id };
  }

  -- For values that are read back as they were stored: a plane that is written into the columns of
  -- `insertColumnList` and read from those of `selectColumnList` is the same in all its fields,
  -- with the identifier of the row.
  pub create_from_result-bind_values :
      IsFaithful q v
      → (id : ℕ) (object : Plane)
      → create_from_result (
          map
            (cell v (("id", v.of_id id) ∷ zip v insert_column_list (bind_values object)))
            select_column_list)
        ≡ record object { id = id }
  unfolding create_from_result bind_values cell
  create_from_result-bind_values h id object =
      simp (h.id, h.text, h.int, category_from_db-category_to_db)

  pub entity-IsEntity : IsFaithful q v → IsEntity entity (λ object. object)
  entity-IsEntity h = record {
    read = create_from_result-bind_values h;
    get_id-set_id = λ id object. refl;
    set_id-get_id = λ object. refl;
  }
