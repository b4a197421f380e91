-- ===== src/Migrator/Pending.antt =====
-- The pending migrations of src/db/migration/Migrator.cpp and the run of `migrate`.
use startkladde.Prelude.{ℕ, ◌==◌, true, not, ◌&&◌, ◌||◌, ◌≡◌, refl, List, [], ◌∷◌, ◌++◌, arith}
use startkladde.Migrator.{
  Migrations, Database, contains, missing, applied_migrations, add_migration, pending_migrations,
  run_migration_up, run_each, migrate,
}

contains-snoc : (v w : ℕ) (vs : List ℕ) → contains v (vs ++ w ∷ []) ≡ ((w == v) || contains v vs)
unfolding contains
contains-snoc v w [] = ground arith
contains-snoc v w (u ∷ vs) = ground (arith, contains-snoc v w vs)

pub contains-missing :
    (v : ℕ) (applied available : List ℕ)
    → contains v (missing applied available) ≡ (contains v available && not (contains v applied))
unfolding contains missing
contains-missing v applied [] = ground arith
contains-missing v applied (w ∷ ws) = ground (arith, contains-missing v applied ws)

-- Nothing is missing where every available version is applied.
pub missing-nil :
    (applied available : List ℕ)
    → ((v : ℕ) → contains v available ≡ true → contains v applied ≡ true)
    → missing applied available ≡ []
unfolding contains missing
missing-nil applied [] h = refl
missing-nil applied (w ∷ ws) h =
    ground (arith, h w, missing-nil applied ws (λ v there. h v (ground arith)))

module _ {S : Type 0} (m : Migrations S)
    (works : (v : ℕ) (s : S) → (m.migration_up v s).0 ≡ true) where
  applied-add_migration :
      (v w : ℕ) (db : Database S)
      → contains v (applied_migrations (add_migration w db))
        ≡ ((w == v) || contains v (applied_migrations db))
  unfolding applied_migrations add_migration
  applied-add_migration v w db = ground (arith, contains-snoc v w (applied_migrations db))

  run_migration_up_lem :
      (w : ℕ) (db : Database S)
      → contains w m.available_versions ≡ true
      → ((run_migration_up m w db).0 ≡ true)
        × ((v : ℕ)
            → contains v (applied_migrations (run_migration_up m w db).1)
              ≡ ((w == v) || contains v (applied_migrations db)))
  unfolding run_migration_up applied_migrations
  run_migration_up_lem w db there =
      let done = works w db.tables in
      (
        rw (there, done) refl,
        λ v.
            rw (there, done)
              (applied-add_migration v w (record db { tables = (m.migration_up w db.tables).1 })),
      )

  run_each_lem :
      (vs : List ℕ) (db : Database S)
      → ((v : ℕ) → contains v vs ≡ true → contains v m.available_versions ≡ true)
      → ((run_each m vs db).0 ≡ true)
        × ((v : ℕ)
            → contains v (applied_migrations (run_each m vs db).1)
              ≡ (contains v vs || contains v (applied_migrations db)))
  unfolding run_each
  run_each_lem [] db h = (refl, λ v. refl)
  run_each_lem (w ∷ ws) db h =
      let (done, adds) = run_migration_up_lem w db (h w (ground arith)) in
      let (all_done, all_adds) =
        run_each_lem ws (run_migration_up m w db).1 (λ v there. h v (ground arith)) in
      (rw done all_done, λ v. rw done (ground (arith, all_adds v, adds v)))

  -- If no migration throws, `migrate` succeeds: it leaves nothing pending, and the applied
  -- migrations are those that were applied before and the available ones.
  pub migrate_lem :
      (db : Database S)
      → ((migrate m db).0 ≡ true)
        × (pending_migrations m (migrate m db).1 ≡ [])
        × ((v : ℕ)
            → contains v (applied_migrations (migrate m db).1)
              ≡ (contains v (applied_migrations db) || contains v m.available_versions))
  unfolding migrate pending_migrations
  migrate_lem db =
      (runs.0, missing-nil _ m.available_versions (λ v there. ground (arith, exact v)), exact)
    where
      pending : List ℕ
      pending = missing (applied_migrations db) m.available_versions

      runs :
          ((run_each m pending db).0 ≡ true)
          × ((v : ℕ)
              → contains v (applied_migrations (run_each m pending db).1)
                ≡ (contains v pending || contains v (applied_migrations db)))
      runs = run_each_lem pending db (λ v there.
          ground (arith, contains-missing v (applied_migrations db) m.available_versions))

      exact :
          (v : ℕ)
          → contains v (applied_migrations (run_each m pending db).1)
            ≡ (contains v (applied_migrations db) || contains v m.available_versions)
      exact v =
          ground (arith, runs.1 v, contains-missing v (applied_migrations db) m.available_versions)
