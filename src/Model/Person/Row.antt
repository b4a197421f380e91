-- ===== src/Model/Person/Row.antt =====
-- The row of a person in the database (src/model/Person.cpp). The lists of columns are the texts of the source,
-- split at the commas.
use startkladde.Prelude.{ℕ, String, ◌≡◌, refl, List, [], ◌∷◌, map}
use startkladde.Container.{string_eq}
use startkladde.Qt.{Qt}
use startkladde.Database.Sql.{
  Column, column, cast_as_char, Values, IsFaithful, result_value, zip, cell,
}
use startkladde.Database.{Entity}
use startkladde.Database.Objects.{IsEntity}
use startkladde.Model.Person.{Person}

abbrev pub select_column_list : List Column
select_column_list =
    column "id"
    ∷ column "last_name"
    ∷ column "first_name"
    ∷ column "nickname"
    ∷ column "club"
    ∷ column "club_id"
    ∷ column "vfid"
    ∷ column "comments"
    ∷ cast_as_char "medical_validity"
    ∷ column "check_medical_validity"
    ∷ []

abbrev pub insert_column_list : List String
insert_column_list =
    "last_name" ∷ "first_name" ∷ "nickname" ∷ "club" ∷ "club_id" ∷ "vfid" ∷ "comments"
    ∷ "medical_validity" ∷ "check_medical_validity" ∷ []

module _ ⦃q : Qt⦄ ⦃v : Values q⦄ where
  open q use {Date}
  open v use {Value, of_id, to_id, of_bool, to_bool, of_date, to_date, of_text, to_text}

  -- The values that are bound, in the order of the calls of `bind`.
  unfoldable pub bind_values : Person Date → List Value
  bind_values object =
      of_text object.last_name
      ∷ of_text object.first_name
      ∷ of_text object.nickname
      ∷ of_text object.club
      ∷ of_text object.club_id
      ∷ of_id object.vfid
      ∷ of_text object.comments
      ∷ of_date object.medical_validity
      ∷ of_bool object.check_medical
      ∷ []

  unfoldable pub create_from_result : List Value → Person Date
  create_from_result row = record {
    id = to_id (result_value v 0 row);
    last_name = to_text (result_value v 1 row);
    first_name = to_text (result_value v 2 row);
    nickname = to_text (result_value v 3 row);
    club = to_text (result_value v 4 row);
    club_id = to_text (result_value v 5 row);
    vfid = to_id (result_value v 6 row);
    comments = to_text (result_value v 7 row);
    medical_validity = to_date (result_value v 8 row);
    check_medical = to_bool (result_value v 9 row);
  }

  abbrev pub entity : Entity q v (Person Date)
  entity = record {
    db_table_name = "people";
    select_column_list = select_column_list;
    create_from_result = create_from_result;
    insert_column_list = insert_column_list;
    bind_values = bind_values;
    get_id = λ object. object.id;
    set_id = λ id object. record object { id = id };
  }

  -- For values that are read back as they were stored: a person that is written into the columns of
  -- `insertColumnList` and read from those of `selectColumnList` is the same in all its fields,
  -- with the identifier of the row.
  pub create_from_result-bind_values :
      IsFaithful q v
      → (id : ℕ) (object : Person Date)
      → create_from_result (
          map
            (cell v (("id", v.of_id id) ∷ zip v insert_column_list (bind_values object)))
            select_column_list)
        ≡ record object { id = id }
  unfolding create_from_result bind_values cell
  create_from_result-bind_values h id object = simp (h.id, h.text, h.bool, h.date)

  pub entity-IsEntity : IsFaithful q v → IsEntity entity (λ object. object)
  entity-IsEntity h = record {
    read = create_from_result-bind_values h;
    get_id-set_id = λ id object. refl;
    set_id-get_id = λ object. refl;
  }
