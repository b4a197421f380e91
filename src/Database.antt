-- ===== src/Database.antt =====
-- src/db/Database.cpp: reading and writing objects. The class template parameter T is an Entity.
-- An operation is `none` when a statement throws; a transaction around one statement, and the
-- progress that createObjects reports, change nothing else.
pub mod Sql
pub mod Objects
pub mod Flights
use startkladde.Prelude.{
  ℕ, ltb, Bool, true, false, String, List, [], ◌∷◌, ◌++◌, Option, none, some, if◌then◌else◌,
}
use startkladde.DbId.{id_valid}
use startkladde.Qt.{Qt}
use startkladde.Database.Sql.{Column, Values, Connection}

-- What Database requires of a class.
pub record Entity (q : Qt) (v : Values q) (T : Type 0) : Type 0 where
  pub db_table_name : String
  pub select_column_list : List Column
  pub create_from_result : List v.Value → T
  pub insert_column_list : List String
  pub bind_values : T → List v.Value
  pub get_id : T → ℕ
  pub set_id : ℕ → T → T

-- DbEvent::added, changed and deleted; the table is the entity's.
pub data DbEvent (T : Type 0) : Type 0 where
  added changed : T → DbEvent T
  deleted : ℕ → DbEvent T

-- `not_found` is NotFoundException.
pub data Outcome (T : Type 0) : Type 0 where
  found : T → Outcome T
  not_found failed : Outcome T

module _ {q : Qt} {v : Values q} (c : Connection q v) {T : Type 0} (e : Entity q v T) where
  -- The first row of the result.
  abbrev pub first_of : Option (List (List v.Value)) → Outcome T
  first_of none = failed
  first_of (some []) = not_found
  first_of (some (row ∷ rows)) = found (e.create_from_result row)

  unfoldable pub get_object : ℕ → c.Db → Outcome T
  get_object id db = first_of (c.select e.db_table_name e.select_column_list id db)

  abbrev pub created : T → Option (c.Db × ℕ) → Option (c.Db × T × List (DbEvent T))
  created object none = none
  created object (some (db, id)) =
      let object' = e.set_id id object in
      some (db, object', if id_valid (e.get_id object') then added object' ∷ [] else [])

  unfoldable pub create_object : T → c.Db → Option (c.Db × T × List (DbEvent T))
  create_object object db =
      created object (c.insert e.db_table_name e.insert_column_list (e.bind_values object) db)

  -- The database, the objects and the events, and whether no statement threw: the objects before
  -- one that throws are written, the others stay as they are.
  unfoldable pub create_objects : List T → c.Db → c.Db × List T × List (DbEvent T) × Bool
  unfolding create_object
  create_objects [] db = (db, [], [], true)
  create_objects (object ∷ objects) db = elim (create_object object db) [
    | none ↦ (db, object ∷ objects, [], false)
    | some (db', object', events) ↦
        let (db'', objects', more, finished) = create_objects objects db' in
        (db'', object' ∷ objects', events ++ more, finished)
  ]

  abbrev pub affected : DbEvent T → Option (c.Db × ℕ) → Option (c.Db × Bool × List (DbEvent T))
  affected event none = none
  affected event (some (db, n)) = some (db, ltb 0 n, event ∷ [])

  unfoldable pub update_object : T → c.Db → Option (c.Db × Bool × List (DbEvent T))
  update_object object db = affected (changed object) (
      c.replace e.db_table_name ("id" ∷ e.insert_column_list)
        (v.of_id (e.get_id object) ∷ e.bind_values object) db)

  unfoldable pub delete_object : ℕ → c.Db → Option (c.Db × Bool × List (DbEvent T))
  delete_object id db = affected (deleted id) (c.delete e.db_table_name id db)
