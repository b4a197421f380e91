-- ===== src/Examples/Server.antt =====
-- A database server in memory with one table, for the values of the instance in seconds.
use startkladde.Prelude.{
  ℕ, suc, Bool, false, String, ◌≡◌, ◌≢◌, refl, ap, List, [], ◌∷◌, Option, none, some, map, arith,
}
use startkladde.Prelude.Int.{ℤ, pos}
use startkladde.Container.{Hash, nat_eq, value, remove, insert}
use startkladde.Container.Laws.{value-remove, value-insert}
use startkladde.Database.Sql.{Column, Values, IsFaithful, Connection, IsServer, zip, cell}
use startkladde.Examples.Setting.{seconds}

pub data Stored : Type 0 where
  empty : Stored
  number : ℕ → Stored
  integer : ℤ → Stored
  flag : Bool → Stored
  text : String → Stored
  moment : ℕ → Stored
  day : ℕ → Stored

instance abbrev pub stored_values : Values seconds
stored_values = record {
  Value = Stored;
  null = empty;
  of_id = number;
  of_int = integer;
  of_bool = flag;
  of_text = text;
  of_date_time = moment;
  of_date = day;
  to_id = λ x. elim x [ number n ↦ n | _ ↦ 0 ];
  to_int = λ x. elim x [ integer n ↦ n | _ ↦ pos 0 ];
  to_bool = λ x. elim x [ flag b ↦ b | _ ↦ false ];
  to_text = λ x. elim x [ text s ↦ s | _ ↦ "" ];
  to_date_time = λ x. elim x [ moment t ↦ t | _ ↦ 0 ];
  to_date = λ x. elim x [ day d ↦ d | _ ↦ 0 ];
  to_char = λ x. x;
  set_time_zone = λ t zone. t;
}

pub stored_values-IsFaithful : IsFaithful seconds stored_values
stored_values-IsFaithful = record {
  id = λ x. refl;
  int = λ x. refl;
  bool = λ x. refl;
  text = λ x. refl;
  date = λ d. refl;
  date_time = λ t. refl;
}

-- The next identifier and the rows.
abbrev pub Memory : Type 0
Memory = ℕ × Hash ℕ (Hash String Stored)

abbrev put : String → List String → List Stored → Memory → Option (Memory × ℕ)
put table [] values db = none
put table (id ∷ columns) [] db = none
put table (id ∷ columns) (empty ∷ values) db = none
put table (id ∷ columns) (number n ∷ values) (next, rows) =
    some ((next, insert n (("id", number n) ∷ zip stored_values columns values) rows), 1)
put table (id ∷ columns) (x ∷ values) db = none

abbrev read_row : List Column → Option (Hash String Stored) → List (List Stored)
read_row names none = []
read_row names (some row) = map (cell stored_values row) names ∷ []

abbrev pub memory : Connection seconds stored_values
memory = record {
  Db = Memory;
  insert = λ table columns values db.
      some (
        (suc db.0, insert db.0 (("id", number db.0) ∷ zip stored_values columns values) db.1),
        db.0,
      );
  replace = put;
  delete = λ table id db. some ((db.0, remove id db.1), 1);
  select = λ table names id db. some (read_row names (value id db.1));
}

-- The row that is found after one is put, and after one is removed.
module _ {V : Type 0} (id : ℕ) (rows : Hash ℕ V) where
  found_row : (v : V) → value id (insert id v rows) ≡ some v
  found_row v = ground (arith, value-insert id id v rows)

  other_row : (other : ℕ) (v : V) → other ≢ id → value other (insert id v rows) ≡ value other rows
  other_row other v d = ground (arith, value-insert id other v rows)

  found_none : value id (remove id rows) ≡ none
  found_none = ground (arith, value-remove id id rows)

  other_kept : (other : ℕ) → other ≢ id → value other (remove id rows) ≡ value other rows
  other_kept other d = ground (arith, value-remove id other rows)

selected :
    (names : List Column) {r r' : Option (Hash String Stored)}
    → r ≡ r'
    → some (read_row names r) ≡ some (read_row names r')
selected names e = ap (λ r. some (read_row names r)) e

abbrev row_of : ℕ → List String → List Stored → Hash String Stored
row_of id columns values = ("id", number id) ∷ zip stored_values columns values

pub memory-IsServer : IsServer seconds stored_values memory
memory-IsServer = record {
  inserted = λ table columns values db db' id h names.
      let at : id ≡ db.0 = cc in
      let rows : insert db.0 (row_of db.0 columns values) db.1 ≡ db'.1 = cc in
      rw⁻¹ rows (rw at (selected names (found_row db.0 db.1 (row_of db.0 columns values))));
  replaced = λ table columns values db db' id n h names.
      let rows : insert id (row_of id columns values) db.1 ≡ db'.1 = cc in
      rw⁻¹ rows (selected names (found_row id db.1 (row_of id columns values)));
  deleted = λ table db db' id n h names.
      let rows : remove id db.1 ≡ db'.1 = cc in rw⁻¹ rows (selected names (found_none id db.1));
  replaced_other = λ table columns values db db' id n h other names d.
      let rows : insert id (row_of id columns values) db.1 ≡ db'.1 = cc in
      rw⁻¹ rows (selected names (other_row id db.1 other (row_of id columns values) d));
  deleted_other = λ table db db' id n h other names d.
      let rows : remove id db.1 ≡ db'.1 = cc in
      rw⁻¹ rows (selected names (other_kept id db.1 other d));
}
