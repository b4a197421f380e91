-- ===== src/Migrator.antt =====
-- src/db/migration/Migrator.cpp: the schema's versions. The migrations of MigrationFactory and the
-- schema are generated or mere SQL, so they are a parameter.
pub mod Pending
pub mod Required
use startkladde.Prelude.{
  ℕ, ◌==◌, ltb, Bool, true, false, not, ◌||◌, List, [], ◌∷◌, ◌++◌, Option, none, some,
  if◌then◌else◌,
}

pub data Action : Type 0 where
  action_none action_migrate action_load : Action

-- The tables but the migrations table are of any type `S`. A migration returns `false` if it throws.
pub record Migrations (S : Type 0) : Type 0 where
  -- MigrationFactory::availableVersions, in ascending order
  pub available_versions : List ℕ
  pub migration_up : ℕ → S → Bool × S
  pub migration_down : ℕ → S → Bool × S
  -- CurrentSchema
  pub schema_up : S → Bool × S
  pub schema_versions : List ℕ
  -- whether `showTables` lists a table
  pub tables_exist : S → Bool

-- The versions in the migrations table, `none` if there is no such table. They are read in
-- descending order of text, which is that of numbers, since versions have 14 digits.
pub record Database (S : Type 0) : Type 0 where
  pub tables : S
  pub versions : Option (List ℕ)

unfoldable pub contains : ℕ → List ℕ → Bool
contains v [] = false
contains v (w ∷ ws) = (w == v) || contains v ws

unfoldable pub maximum : List ℕ → ℕ
maximum [] = 0
maximum (v ∷ vs) = let rest = maximum vs in if ltb rest v then v else rest

unfoldable pub last : List ℕ → ℕ
last [] = 0
last (v ∷ []) = v
last (v ∷ w ∷ vs) = last (w ∷ vs)

-- The available versions that are not applied.
unfoldable pub missing : List ℕ → List ℕ → List ℕ
missing applied [] = []
missing applied (v ∷ vs) =
    let rest = missing applied vs in if contains v applied then rest else v ∷ rest

abbrev without : ℕ → List ℕ → List ℕ
without v [] = []
without v (w ∷ ws) = let rest = without v ws in if w == v then rest else w ∷ rest

abbrev first : List ℕ → ℕ
first [] = 0
first (v ∷ vs) = v

abbrev pub applied : Option (List ℕ) → List ℕ
applied none = []
applied (some vs) = vs

module _ {S : Type 0} where
  unfoldable pub applied_migrations : Database S → List ℕ
  applied_migrations db = applied db.versions

  unfoldable pub current_version : Database S → ℕ
  unfolding applied_migrations maximum
  current_version db = maximum (applied_migrations db)

  -- Creates the table if it is missing.
  unfoldable pub add_migration : ℕ → Database S → Database S
  unfolding applied_migrations contains
  add_migration version db = record db {
    versions = some (
        if contains version (applied_migrations db)
        then applied_migrations db
        else applied_migrations db ++ version ∷ []);
  }

  unfoldable pub remove_migration : ℕ → Database S → Database S
  remove_migration version db = record db {
    versions = elim db.versions [ none ↦ none | some vs ↦ some (without version vs) ];
  }

  module _ (m : Migrations S) where
    unfoldable pub latest_version : ℕ
    unfolding last
    latest_version = last m.available_versions

    unfoldable pub pending_migrations : Database S → List ℕ
    unfolding applied_migrations missing
    pending_migrations db = missing (applied_migrations db) m.available_versions

    -- The loop of `nextMigration` stops at the first version that is pending.
    unfoldable pub next_migration : Database S → ℕ
    unfolding pending_migrations
    next_migration db = first (pending_migrations db)

    unfoldable pub is_current : Database S → Bool
    unfolding next_migration
    is_current db = next_migration db == 0

    -- `false` is an exception, thrown by the factory or by the migration.
    unfoldable pub run_migration_up : ℕ → Database S → Bool × Database S
    unfolding contains add_migration
    run_migration_up version db =
        if not (contains version m.available_versions)
        then (false, db)
        else (let (done, tables) = m.migration_up version db.tables in
            let db' = record db { tables = tables } in
            if done then (true, add_migration version db') else (false, db'))

    unfoldable pub run_migration_down : ℕ → Database S → Bool × Database S
    unfolding contains remove_migration
    run_migration_down version db =
        if not (contains version m.available_versions)
        then (false, db)
        else (let (done, tables) = m.migration_down version db.tables in
            let db' = record db { tables = tables } in
            if done then (true, remove_migration version db') else (false, db'))

    pub up : Database S → Bool × Database S
    unfolding next_migration run_migration_up
    up db =
        let version = next_migration db in
        if version == 0 then (true, db) else run_migration_up version db

    pub down : Database S → Bool × Database S
    unfolding current_version run_migration_down
    down db =
        let version = current_version db in
        if version == 0 then (true, db) else run_migration_down version db

    -- The loop of `migrate`, which an exception leaves.
    unfoldable pub run_each : List ℕ → Database S → Bool × Database S
    unfolding run_migration_up
    run_each [] db = (true, db)
    run_each (v ∷ vs) db =
        let (done, db') = run_migration_up v db in
        let rest = run_each vs db' in if done then rest else (false, db')

    unfoldable pub migrate : Database S → Bool × Database S
    unfolding pending_migrations run_each
    migrate db = run_each (pending_migrations db) db

    -- Creates the migrations table, empties it, loads the schema and saves its versions; an
    -- exception, as of a canceled load, leaves before the versions are saved.
    unfoldable pub load_schema : Database S → Bool × Database S
    load_schema db =
        let (done, tables) = m.schema_up db.tables in
        let db' : Database S = record { tables = tables; versions = some [] } in
        if done then (true, record db' { versions = some m.schema_versions }) else (false, db')

    unfoldable pub get_required_action : Database S → Action
    unfolding current_version latest_version
    get_required_action db =
        if not (m.tables_exist db.tables) then action_load else (elim db.versions [
          | none ↦ action_migrate
          | some vs ↦
              if current_version db == 0
              then action_load
              else if current_version db == latest_version
              then action_none
              else action_migrate
        ])
