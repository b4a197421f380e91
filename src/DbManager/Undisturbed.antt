-- ===== src/DbManager/Undisturbed.antt =====
-- `connect` of src/db/DbManager.cpp when nothing goes wrong.
use startkladde.Prelude.{
  ℕ, Bool, true, false, ◌≡◌, ◌≢◌, refl, sym, ◌∙◌, ap, Option, none, some, if◌then◌else◌,
}
use startkladde.Migrator.{
  Migrations, Database, Action, action_none, action_migrate, action_load, is_current, migrate,
  next_migration, get_required_action,
}
use startkladde.Migrator.Pending.{migrate_lem}
use startkladde.DbManager.{
  Exception, connect_failed, connect_canceled, Result, returned, threw, Surroundings, Session,
  Manager, run_unless, run_worker, perform_action, read_worker, migrator_worker, ensure_current,
  confirm_or_cancel, check_version, do_open_interface, create_missing, open_interface, clear_cache,
  refresh_cache, close_on_throw, connect_impl, connect_granted, settle, connect,
}
use startkladde.DbManager.After.{After, After-then_step}

module _ {W S C : Type 0} where
  abbrev Never : Session W S C → Type 0
  Never s = ⊥

  abbrev Done : Unit {0} → Session W S C → Type 0
  Done u s = Unit {0}

  abbrev Keeps : Database S → Unit {0} → Session W S C → Type 0
  Keeps db u s = s.database ≡ db

module _ {W S C : Type 0} (m : Migrations S) (around : Surroundings W S C)
    (quiet : (w : W) → (around.next_throw w).0 ≡ none)
    (agreed : (w : W) → (around.answer w).0 ≡ true)
    (succeeds : (v : ℕ) (s : S) → (m.migration_up v s).0 ≡ true) where
  run_unless-none :
      {A : Type 0}
      → (P : A → Session W S C → Type 0) → (thrown : Option Exception)
      → (operation : Session W S C → Result A × Session W S C) → (s : Session W S C) → thrown ≡ none
      → After P Never (operation s)
      → After P Never (run_unless m around thrown operation s)
  unfolding run_unless
  run_unless-none P none operation s e h = h
  run_unless-none P (some x) operation s e h = cc

  run_worker_done :
      {A : Type 0}
      → (P : A → Session W S C → Type 0) → (operation : Session W S C → Result A × Session W S C)
      → (s : Session W S C)
      → ((s' : Session W S C) → s'.database ≡ s.database → After P Never (operation s'))
      → After P Never (run_worker m around operation s)
  unfolding run_worker
  run_worker_done P operation s h =
      let (thrown, w) = around.next_throw s.world in
      let s' = record s { world = w } in
      run_unless-none P thrown operation s' (quiet s.world) (h s' refl)

  read_worker_done :
      {A : Type 0} (f : Database S → A) (s : Session W S C)
      → After
          (λ a s'. (a ≡ f s.database) × (s'.database ≡ s.database))
          Never
          (read_worker m around f s)
  unfolding read_worker
  read_worker_done f s = run_worker_done _ _ s (λ s' e. (ap f e, e))

  confirmed_done :
      (confirmed : Bool) (s : Session W S C)
      → confirmed ≡ true
      → After
          (Keeps s.database)
          Never
          (if confirmed then (returned tt, s) else (threw connect_canceled, s))
  confirmed_done true s e = refl
  confirmed_done false s e = cc

  confirm_or_cancel_done :
      (s : Session W S C) → After (Keeps s.database) Never (confirm_or_cancel m around s)
  unfolding confirm_or_cancel
  confirm_or_cancel_done s =
      let (confirmed, w) = around.answer s.world in
      confirmed_done confirmed (record s { world = w }) (agreed s.world)

  is_current-migrate : (db : Database S) → is_current m (migrate m db).1 ≡ true
  unfolding is_current next_migration
  is_current-migrate db = rw ((migrate_lem m succeeds db).1) refl

  migrated_done :
      (done : Bool) (s : Session W S C)
      → done ≡ true
      → is_current m s.database ≡ true
      → After
          (λ u s'. is_current m s'.database ≡ true)
          Never
          (if done then (returned tt, s) else (threw (around.failure s.world), s))
  migrated_done true s e h = h
  migrated_done false s e h = cc

  migrate_done :
      (s : Session W S C)
      → After
          (λ u s'. is_current m s'.database ≡ true)
          Never
          (migrator_worker m around (migrate m) s)
  unfolding migrator_worker
  migrate_done s = run_worker_done _ _ s (λ s' _.
      migrated_done (migrate m s'.database).0 (record s' { database = (migrate m s'.database).1 })
        ((migrate_lem m succeeds s'.database).0) (is_current-migrate s'.database))

  ensured :
      (current : Bool) (s : Session W S C)
      → current ≡ true
      → After Done Never (if current then (returned tt, s) else (threw connect_failed, s))
  ensured true s e = tt
  ensured false s e = cc

  ensure_current-Done :
      (s : Session W S C)
      → is_current m s.database ≡ true
      → After Done Never (ensure_current m around s)
  unfolding ensure_current
  ensure_current-Done s h =
      After-then_step _ Done Never _ _ (read_worker_done (is_current m) s)
        (λ current s' e. ensured current s' (e.0 ∙ h))

  perform_action-Done :
      (action : Action) (s : Session W S C)
      → action ≢ action_load
      → After Done Never (perform_action m around action s)
  unfolding perform_action
  perform_action-Done action_load s n = elim (n refl) [ ]
  perform_action-Done action_migrate s n =
      After-then_step _ Done Never _ _ (confirm_or_cancel_done s) (λ _ s₁ _.
        After-then_step _ Done Never _ _ (migrate_done s₁) (λ _ s₂ h. ensure_current-Done s₂ h))
  perform_action-Done action_none s n = tt

  check_version-Done :
      (s : Session W S C)
      → get_required_action m s.database ≢ action_load
      → After Done Never (check_version m around s)
  unfolding check_version
  check_version-Done s n =
      After-then_step _ Done Never _ _ (read_worker_done (get_required_action m) s)
        (λ action s' e. perform_action-Done action s' (λ load. n (sym e.0 ∙ load)))

  created_done :
      (db : Database S) (r : Result (Unit {0}) × Session W S C)
      → After (Keeps db) Never r
      → After (Keeps db) Never (create_missing m around r)
  unfolding create_missing
  created_done db (returned u, s) h = h
  created_done db (threw e, s) h = elim h [ ]

  open_interface_done :
      (s : Session W S C) → After (Keeps s.database) Never (open_interface m around s)
  unfolding open_interface do_open_interface
  open_interface_done s = created_done s.database _ (run_worker_done _ _ s (λ s' e. e))

  closed-Done :
      (r : Result (Unit {0}) × Session W S C)
      → After Done Never r
      → After Done Never (close_on_throw m around r)
  unfolding close_on_throw
  closed-Done (returned u, s) h = tt
  closed-Done (threw e, s) h = h

  connect_impl-Done :
      (s : Session W S C)
      → get_required_action m s.database ≢ action_load
      → After Done Never (connect_impl m around s)
  unfolding connect_impl clear_cache refresh_cache
  connect_impl-Done s n = closed-Done _ (
      After-then_step _ Done Never _ _ (open_interface_done s) (λ _ s₁ e.
        After-then_step _ Done Never _ _
          (check_version-Done s₁ (λ load. n (sym (ap (get_required_action m) e) ∙ load)))
          (λ _ s₂ _.
            After-then_step Done Done Never (clear_cache m around s₂) _ tt
              (λ _ s₃ _. run_worker_done _ _ s₃ (λ _ _. tt)))))

  granted-Done :
      (r : Result (Unit {0}) × Session W S C)
      → After Done Never r
      → (settle m around (connect_granted m around r)).0 ≡ returned true
  unfolding settle connect_granted
  granted-Done (returned u, s) h = refl
  granted-Done (threw e, s) h = elim h [ ]

  -- If no operation throws, the user confirms and the migrations succeed, `connect` returns true for
  -- a database that need not be loaded.
  pub connect_returns :
      (manager : Manager W S C)
      → get_required_action m manager.session.database ≢ action_load
      → (connect m around manager).0 ≡ returned true
  unfolding connect
  connect_returns manager n = granted-Done _ (connect_impl-Done manager.session n)
