-- ===== src/Examples/Migrations.antt =====
-- Three migrations that count, and a connection to their database.
use startkladde.Prelude.{◌+◌, none, false}
use startkladde.DbManager.{
  Surroundings, Manager, returned, state_disconnected, connect, other_sql, database_does_not_exist,
}
use startkladde.DbManager.Undisturbed.{connect_returns}
use startkladde.Prelude.{ℕ, suc, ◌-◌, not, ◌==◌, true, ◌||◌, ◌≡◌, refl, [], ◌∷◌, some, arith}
use startkladde.Migrator.{
  Migrations, Database, action_none, current_version, contains, applied_migrations,
  pending_migrations, missing, maximum, last, run_migration_up, run_each, add_migration,
  latest_version, migrate, get_required_action, is_current,
}
use startkladde.Migrator.Pending.{migrate_lem}
use startkladde.Migrator.Required.{
  documented_action, classify, get_required_action_lem, get_required_action-migrate,
}

-- The tables are counted.
abbrev migrations : Migrations ℕ
migrations = record {
  available_versions = 10 ∷ 20 ∷ 30 ∷ [];
  migration_up = λ v s. (true, suc s);
  migration_down = λ v s. (true, s - 1);
  schema_up = λ s. (true, 3);
  schema_versions = 10 ∷ 20 ∷ 30 ∷ [];
  tables_exist = λ s. not (s == 0);
}

-- The second migration is left out.
abbrev gap : Database ℕ
gap = record { tables = 2; versions = some (10 ∷ 30 ∷ []) }

migrate_lem_example :
    ((migrate migrations gap).0 ≡ true)
    × (pending_migrations migrations (migrate migrations gap).1 ≡ [])
    × ((v : ℕ)
        → contains v (applied_migrations (migrate migrations gap).1)
          ≡ (contains v (applied_migrations gap) || contains v (10 ∷ 20 ∷ 30 ∷ [])))
migrate_lem_example = migrate_lem migrations (λ v s. refl) gap

-- The first migration alone.
abbrev behind : Database ℕ
behind = record gap { versions = some (10 ∷ []) }

get_required_action_lem_example :
    get_required_action migrations behind
    ≡ documented_action (classify (is_current migrations behind) (some (10 ∷ []))) true
unfolding contains applied_migrations latest_version last
get_required_action_lem_example =
    get_required_action_lem migrations (ground arith, (ground arith, tt)) refl (λ h. ground arith)
      behind refl (record { filled = λ v w h k l. ground arith; below = λ v there. ground arith })

get_required_action-migrate_example :
    get_required_action migrations (migrate migrations behind).1 ≡ action_none
unfolding latest_version last migrate run_each run_migration_up add_migration applied_migrations
    pending_migrations missing contains
get_required_action-migrate_example =
    get_required_action-migrate migrations (λ v s. refl) (ground arith, (ground arith, tt))
      (λ h. ground arith) behind (λ v there. ground arith) refl

-- With a gap below the latest version no action is required, although a migration is pending.
gap_action :
    (get_required_action migrations gap ≡ action_none)
    × (pending_migrations migrations gap ≡ 20 ∷ [])
unfolding get_required_action current_version latest_version last maximum applied_migrations
    pending_migrations missing contains
gap_action = (refl, refl)

-- Nothing goes wrong; refreshing adds the number of tables to the cache.
abbrev undisturbed : Surroundings ℕ ℕ ℕ
undisturbed = record {
  next_throw = λ w. (none, suc w);
  disturb = λ w db cache. (db, cache);
  failure = λ w. other_sql;
  answer = λ w. (true, suc w);
  patience = 3;
  create_launch_methods = suc;
  cleared = 0;
  refresh_all = λ db cache. db.tables + cache;
}

-- The first operation does not find the database, and the user does not want it created.
abbrev missing_database : Surroundings ℕ ℕ ℕ
missing_database = record undisturbed {
  next_throw = λ w. (some database_does_not_exist, suc w);
  answer = λ w. (false, suc w);
}

abbrev manager : Manager ℕ ℕ ℕ
manager = record {
  state = state_disconnected;
  session = record {
    is_open = false;
    database = record gap { versions = some (10 ∷ []) };
    cache = 0;
    world = 0;
  };
}

connect_returns_example : (connect migrations undisturbed manager).0 ≡ returned true
unfolding get_required_action current_version latest_version last maximum applied_migrations
connect_returns_example =
    connect_returns migrations undisturbed (λ w. refl) (λ w. refl) (λ v s. refl) manager
      (λ h. ground arith)
