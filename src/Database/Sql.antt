-- ===== src/Database/Sql.antt =====
-- What src/db uses of Qt and of the database server, which are not part of the repository: the
-- values of a query (QVariant) with their conversions, and a connection that runs the statements
-- of src/db/Database.cpp.
use startkladde.Prelude.{ℕ, Bool, String, ◌≡◌, ◌≢◌, List, [], ◌∷◌, Option, none, some, map}
use startkladde.Prelude.Int.{ℤ}
use startkladde.Prelude.Lists.{get_elem?}
use startkladde.Container.{string_eq, value}
use startkladde.Qt.{Qt}

-- A column of a SELECT, which may be cast to a text: CAST (name AS CHAR).
pub data Column : Type 0 where
  column : String → Column
  cast_as_char : String → Column

pub record Values (q : Qt) : Type 1 where
  pub Value : Type 0
  -- NULL
  pub null : Value
  pub of_id : ℕ → Value
  pub of_int : ℤ → Value
  pub of_bool : Bool → Value
  pub of_text : String → Value
  pub of_date_time : q.DateTime → Value
  pub of_date : q.Date → Value
  pub to_id : Value → ℕ
  pub to_int : Value → ℤ
  pub to_bool : Value → Bool
  pub to_text : Value → String
  pub to_date_time : Value → q.DateTime
  pub to_date : Value → q.Date
  -- CAST (... AS CHAR)
  pub to_char : Value → Value
  -- QDateTime::setTimeZone, which keeps the date and the time
  pub set_time_zone : q.DateTime → q.Zone → q.DateTime

-- A value that is stored is read back; a UTC time through the text that it is cast to.
pub record IsFaithful (q : Qt) (v : Values q) : Type 0 where
  pub id : (x : ℕ) → v.to_id (v.of_id x) ≡ x
  pub int : (x : ℤ) → v.to_int (v.of_int x) ≡ x
  pub bool : (x : Bool) → v.to_bool (v.of_bool x) ≡ x
  pub text : (x : String) → v.to_text (v.of_text x) ≡ x
  pub date : (d : q.Date) → v.to_date (v.to_char (v.of_date d)) ≡ d
  pub date_time :
      (t : q.DateTime)
      → v.set_time_zone (v.to_date_time (v.to_char (v.of_date_time (q.to_time_zone t q.utc)))) q.utc
        ≡ q.to_time_zone t q.utc

module _ {q : Qt} (v : Values q) where
  -- The values of an inserted row by the names of the columns.
  abbrev pub zip : List String → List v.Value → List (String × v.Value)
  zip [] values = []
  zip (c ∷ columns) [] = []
  zip (c ∷ columns) (x ∷ values) = (c, x) ∷ zip columns values

  abbrev or_null : Option v.Value → v.Value
  or_null none = v.null
  or_null (some x) = x

  unfoldable pub cell : List (String × v.Value) → Column → v.Value
  unfolding value
  cell row (column name) = or_null (value name row)
  cell row (cast_as_char name) = v.to_char (or_null (value name row))

  -- Result::value
  abbrev pub result_value : ℕ → List v.Value → v.Value
  result_value i row = or_null (get_elem? row i)

-- A connection to the server. An operation on it is `none` when an exception is thrown.
pub record Connection (q : Qt) (v : Values q) : Type 1 where
  pub Db : Type 0
  -- INSERT INTO table (columns) values (values), with the id of the new row
  pub insert : String → List String → List v.Value → Db → Option (Db × ℕ)
  -- REPLACE INTO and DELETE FROM table WHERE id=..., with the number of affected rows
  pub replace : String → List String → List v.Value → Db → Option (Db × ℕ)
  pub delete : String → ℕ → Db → Option (Db × ℕ)
  -- SELECT columns FROM table WHERE id=...
  pub select : String → List Column → ℕ → Db → Option (List (List v.Value))

-- The rows of a table whose first column is the primary key, which INSERT chooses.
pub record IsServer (q : Qt) (v : Values q) (c : Connection q v) : Type 0 where
  pub inserted :
      (table : String) (columns : List String) (values : List v.Value) (db db' : c.Db) (id : ℕ)
      → c.insert table columns values db ≡ some (db', id)
      → (names : List Column)
      → c.select table names id db'
        ≡ some (map (cell v (("id", v.of_id id) ∷ zip v columns values)) names ∷ [])
  pub replaced :
      (table : String) (columns : List String) (values : List v.Value) (db db' : c.Db) (id n : ℕ)
      → c.replace table ("id" ∷ columns) (v.of_id id ∷ values) db ≡ some (db', n)
      → (names : List Column)
      → c.select table names id db'
        ≡ some (map (cell v (("id", v.of_id id) ∷ zip v columns values)) names ∷ [])
  pub deleted :
      (table : String) (db db' : c.Db) (id n : ℕ)
      → c.delete table id db ≡ some (db', n)
      → (names : List Column) → c.select table names id db' ≡ some []
  -- A statement about one row leaves the others.
  pub replaced_other :
      (table : String) (columns : List String) (values : List v.Value) (db db' : c.Db) (id n : ℕ)
      → c.replace table ("id" ∷ columns) (v.of_id id ∷ values) db ≡ some (db', n)
      → (other : ℕ) (names : List Column) → other ≢ id
      → c.select table names other db' ≡ c.select table names other db
  pub deleted_other :
      (table : String) (db db' : c.Db) (id n : ℕ)
      → c.delete table id db ≡ some (db', n)
      → (other : ℕ) (names : List Column) → other ≢ id
      → c.select table names other db' ≡ c.select table names other db
