-- ===== src/Migrator/Required.antt =====
-- `getRequiredAction` of src/db/migration/Migrator.cpp beside the table in its comment.
use startkladde.Prelude.{
  refl, ap, Bool-cases, inl, inr, ℕ, ◌==◌, ◌≤◌, ◌<◌, Bool, true, false, ◌||◌, ◌≡◌, ◌≢◌, List, [],
  ◌∷◌, Option, none, some, arith, if◌then◌else◌,
}
use mathlib.Core.Path.{subst}
use startkladde.Migrator.{
  Migrations, Database, Action, action_none, action_migrate, action_load, contains, maximum, last,
  applied, applied_migrations, current_version, latest_version, is_current, missing,
  pending_migrations, next_migration, first, migrate, load_schema, get_required_action,
}
use startkladde.Migrator.Pending.{migrate_lem, contains-missing, missing-nil}

-- The rows of the table in the comment of `getRequiredAction`: what is said of the migrations table,
-- and whether other tables exist.
pub data MigrationsTable : Type 0 where
  not_existing empty not_current current : MigrationsTable

pub documented_action : MigrationsTable → Bool → Action
documented_action not_existing true = action_migrate
documented_action empty true = action_load
documented_action not_current true = action_migrate
documented_action current true = action_none
documented_action table false = action_load

-- The state of the table, with whether the database is current, as `isCurrent` finds it.
pub classify : Bool → Option (List ℕ) → MigrationsTable
classify is_current none = not_existing
classify is_current (some []) = empty
classify is_current (some (v ∷ vs)) = if is_current then current else not_current

maximum-contains : (v : ℕ) (vs : List ℕ) → contains v vs ≡ true → v ≤ maximum vs
unfolding contains maximum
maximum-contains v [] h = cc
maximum-contains v (w ∷ ws) h = ground (arith, maximum-contains v ws)

maximum-le : (n : ℕ) (vs : List ℕ) → ((v : ℕ) → contains v vs ≡ true → v ≤ n) → maximum vs ≤ n
unfolding contains maximum
maximum-le n [] h = omega arith
maximum-le n (w ∷ ws) h = ground (arith, h w, maximum-le n ws (λ v there. h v (ground arith)))

abbrev pub IsAscending : List ℕ → Type 0
IsAscending [] = Unit {0}
IsAscending (v ∷ []) = Unit {0}
IsAscending (v ∷ w ∷ vs) = (v < w) × IsAscending (w ∷ vs)

le-last : (vs : List ℕ) → IsAscending vs → (v : ℕ) → contains v vs ≡ true → v ≤ last vs
unfolding contains last
le-last [] h v there = cc
le-last (w ∷ []) h v there = ground arith
le-last (w ∷ x ∷ vs) (lt, h) v there = ground (arith, le-last (x ∷ vs) h v, le-last (x ∷ vs) h x)

contains-last : (vs : List ℕ) → last vs ≢ 0 → contains (last vs) vs ≡ true
unfolding contains last
contains-last [] n = ground arith
contains-last (w ∷ []) n = ground arith
contains-last (w ∷ x ∷ vs) n = ground (arith, contains-last (x ∷ vs) n)

contains-maximum : (vs : List ℕ) → maximum vs ≢ 0 → contains (maximum vs) vs ≡ true
unfolding contains maximum
contains-maximum [] n = ground arith
contains-maximum (v ∷ vs) n = ground (arith, contains-maximum vs)

maximum-positive : (v : ℕ) (vs : List ℕ) → contains 0 (v ∷ vs) ≡ false → maximum (v ∷ vs) ≢ 0
unfolding contains maximum
maximum-positive v vs h = ground arith

first-nil : (vs : List ℕ) → contains 0 vs ≡ false → (first vs == 0) ≡ true → vs ≡ []
unfolding contains
first-nil [] h e = refl
first-nil (v ∷ vs) h e = ground arith

module _ {S : Type 0} (m : Migrations S) where
  -- A database that has tables needs no action once its current version is the latest.
  at_latest :
      (tables : S) (versions : Option (List ℕ))
      → m.tables_exist tables ≡ true
      → latest_version m ≢ 0
      → maximum (applied versions) ≡ latest_version m
      → get_required_action m (record { tables = tables; versions = versions }) ≡ action_none
  unfolding get_required_action current_version applied_migrations maximum
  at_latest tables none t n e = ground arith
  at_latest tables (some vs) t n e = ground arith

  canceled :
      (tables : S)
      → get_required_action m (record { tables = tables; versions = some [] }) ≡ action_load
  unfolding get_required_action current_version applied_migrations maximum
  canceled tables = ground arith

  -- If no migration throws, migrating a database leads to one that requires no action: where the
  -- available versions ascend and do not begin with 0, no applied version is above the latest one,
  -- and there are tables after the migration.
  pub get_required_action-migrate :
      ((v : ℕ) (s : S) → (m.migration_up v s).0 ≡ true)
      → IsAscending m.available_versions
      → latest_version m ≢ 0
      → (db : Database S)
      → ((v : ℕ) → contains v (applied_migrations db) ≡ true → v ≤ latest_version m)
      → m.tables_exist (migrate m db).1.tables ≡ true
      → get_required_action m (migrate m db).1 ≡ action_none
  unfolding applied_migrations latest_version
  get_required_action-migrate works ascending n db below t =
      at_latest (migrate m db).1.tables (migrate m db).1.versions t n
        (omega (arith, at_most, at_least))
    where
      adds :
          (v : ℕ)
          → contains v (applied (migrate m db).1.versions)
            ≡ (contains v (applied db.versions) || contains v m.available_versions)
      adds = (migrate_lem m works db).2

      at_most : maximum (applied (migrate m db).1.versions) ≤ latest_version m
      at_most =
          maximum-le _ _
            (λ v there. ground (arith, adds v, below v, le-last m.available_versions ascending v))

      at_least : latest_version m ≤ maximum (applied (migrate m db).1.versions)
      at_least =
          maximum-contains (latest_version m) _
            (ground (arith, adds (latest_version m), contains-last m.available_versions n))

  -- Whatever version is available below an applied one is applied, and none is above the latest.
  pub record HasNoGap (db : Database S) : Type 0 where
    pub filled :
        (v w : ℕ)
        → contains w (applied_migrations db) ≡ true
        → contains v m.available_versions ≡ true
        → v ≤ w
        → contains v (applied_migrations db) ≡ true
    pub below : (v : ℕ) → contains v (applied_migrations db) ≡ true → v ≤ latest_version m

  module _ (ascending : IsAscending m.available_versions)
      (positive : contains 0 m.available_versions ≡ false) (n : latest_version m ≢ 0)
      (db : Database S) (gapless : HasNoGap db) where
    nothing_pending :
        is_current m db ≡ true → missing (applied_migrations db) m.available_versions ≡ []
    unfolding is_current next_migration pending_migrations
    nothing_pending c =
        first-nil (missing (applied_migrations db) m.available_versions)
          (ground (arith, contains-missing 0 (applied_migrations db) m.available_versions)) c

    current-at_latest : is_current m db ≡ true → maximum (applied_migrations db) ≡ latest_version m
    unfolding latest_version contains
    current-at_latest c =
        let none_missing = nothing_pending c in
        let there : contains (last m.available_versions) (applied_migrations db) ≡ true =
          latest_applied none_missing in
        omega (
          arith,
          maximum-contains (last m.available_versions) (applied_migrations db) there,
          maximum-le (last m.available_versions) (applied_migrations db) gapless.below,
        )
      where
        latest_applied :
            missing (applied_migrations db) m.available_versions ≡ []
            → contains (last m.available_versions) (applied_migrations db) ≡ true
        latest_applied e = ground (
          arith,
          contains-missing (last m.available_versions) (applied_migrations db) m.available_versions,
          contains-last m.available_versions n,
          ap (contains (last m.available_versions)) e,
        )

    at_latest-current : maximum (applied_migrations db) ≡ latest_version m → is_current m db ≡ true
    unfolding is_current next_migration pending_migrations latest_version
    at_latest-current e =
        let there : contains (last m.available_versions) (applied_migrations db) ≡ true =
          subst (λ v. contains v (applied_migrations db) ≡ true) e
            (contains-maximum (applied_migrations db) (ground arith)) in
        rw
          (missing-nil (applied_migrations db) m.available_versions (λ v available.
            gapless.filled v (last m.available_versions) there available
              (le-last m.available_versions ascending v available)))
          refl

    is_current_lem : is_current m db ≡ (maximum (applied_migrations db) == latest_version m)
    is_current_lem = elim (Bool-cases (is_current m db)) [
      | inl c ↦ let e = current-at_latest c in ground arith
      | inr c ↦ let e = at_latest-current in ground arith
    ]

  -- The required action is the one that the table in its comment gives, where the database is current
  -- if no available version is pending, as `isCurrent` has it: for a database that has no gap, that is
  -- where every available version below an applied one is applied and no applied version is above the
  -- latest one, and where there are available versions, which ascend and, like the applied ones, do
  -- not hold 0.
  pub get_required_action_lem :
      IsAscending m.available_versions
      → contains 0 m.available_versions ≡ false
      → latest_version m ≢ 0
      → (db : Database S) → contains 0 (applied_migrations db) ≡ false
      → HasNoGap db
      → get_required_action m db
        ≡ documented_action (classify (is_current m db) db.versions) (m.tables_exist db.tables)
  unfolding get_required_action classify documented_action applied_migrations current_version
  get_required_action_lem ascending positive n db h gapless =
      rw (is_current_lem ascending positive n db gapless) (by_versions db.tables db.versions h)
    where
      by_versions :
          (tables : S) (versions : Option (List ℕ))
          → contains 0 (applied versions) ≡ false
          → get_required_action m (record { tables = tables; versions = versions })
            ≡ documented_action
                (classify (maximum (applied versions) == latest_version m) versions)
                (m.tables_exist tables)
      by_versions tables none h = ground arith
      by_versions tables (some []) h = ground arith
      by_versions tables (some (v ∷ vs)) h = ground (arith, maximum-positive v vs h)

  -- A database whose schema was being loaded when an exception was thrown requires loading. One
  -- whose schema was loaded requires no action, where the schema makes tables and its newest version
  -- is the latest available one, which is not 0.
  pub load_schema_lem :
      (db : Database S)
      → latest_version m ≢ 0
      → maximum m.schema_versions ≡ latest_version m
      → m.tables_exist (m.schema_up db.tables).1 ≡ true
      → get_required_action m (load_schema m db).1
        ≡ (if (load_schema m db).0 then action_none else action_load)
  unfolding load_schema
  load_schema_lem db n e t = elim (Bool-cases (m.schema_up db.tables).0) [
    | inl done ↦ rw done (at_latest (m.schema_up db.tables).1 (some m.schema_versions) t n e)
    | inr thrown ↦ rw thrown (canceled (m.schema_up db.tables).1)
  ]
