-- ===== src/DbManager.antt =====
-- src/db/DbManager.cpp: opening the connection. The dialogs' texts and the signals are left out, and
-- so are the operations on single objects.
pub mod After
pub mod Closed
pub mod Settled
pub mod Undisturbed
use startkladde.Prelude.{ℕ, zero, suc, Bool, true, false, Option, none, some, if◌then◌else◌}
use startkladde.Migrator.{
  Migrations, Database, Action, action_none, action_migrate, action_load, is_current, migrate,
  load_schema, get_required_action,
}

-- DbManager::State
pub data State : Type 0 where
  state_disconnected state_connecting state_connected : State

-- `database_does_not_exist` and `access_denied` are SqlExceptions as well.
pub data Exception : Type 0 where
  access_denied database_does_not_exist other_sql : Exception
  operation_canceled connect_canceled connect_failed other_exception : Exception

pub data Result (A : Type 0) : Type 0 where
  returned : A → Result A
  threw : Exception → Result A

-- The server, the network and the user, whose state is a `W`; the schema's tables are an `S`, the
-- cache is a `C`.
pub record Surroundings (W S C : Type 0) : Type 0 where
  -- whether an operation of a worker throws, is canceled ones included
  pub next_throw : W → Option Exception × W
  -- what an operation that throws leaves
  pub disturb : W → Database S → C → Database S × C
  -- the exception of a migration that fails
  pub failure : W → Exception
  -- `yesNoQuestion`, and whether the password is entered
  pub answer : W → Bool × W
  -- after this many passwords the user cancels
  pub patience : ℕ
  -- `createObjects (sampleLaunchMethods)`
  pub create_launch_methods : S → S
  -- the cache that Cache::clear leaves, and Cache::refreshAll, which depends on the cache before it
  pub cleared : C
  pub refresh_all : Database S → C → C

-- What the manager holds beside its state.
pub record Session (W S C : Type 0) : Type 0 where
  pub is_open : Bool
  pub database : Database S
  pub cache : C
  pub world : W

pub record Manager (W S C : Type 0) : Type 0 where
  pub state : State
  pub session : Session W S C

-- The four handlers at the end of `connect`.
unfoldable pub is_reported : Exception → Bool
is_reported other_exception = false
is_reported e = true

module _ {W S C : Type 0} where
  -- An exception leaves the steps that follow.
  unfoldable pub then_step :
      {A B : Type 0}
      → Result A × Session W S C
      → (A → Session W S C → Result B × Session W S C)
      → Result B × Session W S C
  then_step (returned a, s) g = g a s
  then_step (threw e, s) g = (threw e, s)

  module _ (m : Migrations S) (around : Surroundings W S C) where
    -- The operation, unless it throws before it is done.
    unfoldable pub run_unless :
        {A : Type 0}
        → Option Exception
        → (Session W S C → Result A × Session W S C)
        → Session W S C
        → Result A × Session W S C
    run_unless none operation s = operation s
    run_unless (some e) operation s =
        let (database, cache) = around.disturb s.world s.database s.cache in
        (threw e, record s { database = database; cache = cache })

    -- An operation of a worker, which the monitor may cancel, and its result.
    unfoldable pub run_worker :
        {A : Type 0}
        → (Session W S C → Result A × Session W S C)
        → Session W S C
        → Result A × Session W S C
    unfolding run_unless
    run_worker operation s =
        let (thrown, w) = around.next_throw s.world in
        run_unless thrown operation (record s { world = w })

    -- A read of the database.
    unfoldable pub read_worker :
        {A : Type 0} → (Database S → A) → Session W S C → Result A × Session W S C
    unfolding run_worker
    read_worker f = run_worker (λ s. (returned (f s.database), s))

    -- An operation of the migrator, with the exception of a migration that fails.
    unfoldable pub migrator_worker :
        (Database S → Bool × Database S) → Session W S C → Result (Unit {0}) × Session W S C
    unfolding run_worker
    migrator_worker f = run_worker (λ s.
        let (done, database) = f s.database in
        let s' = record s { database = database } in
        if done then (returned tt, s') else (threw (around.failure s'.world), s'))

    unfoldable pub ensure_current : Session W S C → Result (Unit {0}) × Session W S C
    unfolding read_worker
    ensure_current s =
        then_step (read_worker (is_current m) s)
          (λ current s'. if current then (returned tt, s') else (threw connect_failed, s'))

    unfoldable pub confirm_or_cancel : Session W S C → Result (Unit {0}) × Session W S C
    confirm_or_cancel s =
        let (confirmed, w) = around.answer s.world in
        let s' = record s { world = w } in
        if confirmed then (returned tt, s') else (threw connect_canceled, s')

    unfoldable pub create_sample_launch_methods : Session W S C → Result (Unit {0}) × Session W S C
    unfolding run_worker
    create_sample_launch_methods = run_worker (λ s. (
      returned tt,
      record s {
        database = record s.database { tables = around.create_launch_methods s.database.tables };
      },
    ))

    -- The cases of `check_version`.
    unfoldable pub perform_action : Action → Session W S C → Result (Unit {0}) × Session W S C
    unfolding migrator_worker ensure_current confirm_or_cancel create_sample_launch_methods
    perform_action action_load s = then_step (confirm_or_cancel s) (λ _ s₁.
        then_step (migrator_worker (load_schema m) s₁)
          (λ _ s₂. then_step (ensure_current s₂) (λ _. create_sample_launch_methods)))
    perform_action action_migrate s =
        then_step (confirm_or_cancel s)
          (λ _ s₁. then_step (migrator_worker (migrate m) s₁) (λ _. ensure_current))
    perform_action action_none s = (returned tt, s)

    unfoldable pub check_version : Session W S C → Result (Unit {0}) × Session W S C
    unfolding read_worker perform_action
    check_version s = then_step (read_worker (get_required_action m) s) perform_action

    unfoldable pub do_open_interface : Session W S C → Result (Unit {0}) × Session W S C
    unfolding run_worker
    do_open_interface = run_worker (λ s. (returned tt, record s { is_open = true }))

    -- `createDatabase`, and likewise the login as root with `grantAll`: an interface of its own is opened
    -- and used; the manager's stays as it is.
    unfoldable pub use_other_interface : Session W S C → Result (Unit {0}) × Session W S C
    unfolding run_worker
    use_other_interface s =
        then_step (run_worker (λ s'. (returned tt, s')) s)
          (λ _. run_worker (λ s'. (returned tt, s')))

    -- The dialog of one password, which a refused login shows again.
    unfoldable pub retry_grant :
        Result (Unit {0}) × Session W S C
        → (Session W S C → Result (Unit {0}) × Session W S C)
        → Result (Unit {0}) × Session W S C
    retry_grant (threw access_denied, s) again = again s
    retry_grant r again = r

    unfoldable pub grant_attempts : ℕ → Session W S C → Result (Unit {0}) × Session W S C
    unfolding use_other_interface confirm_or_cancel retry_grant
    grant_attempts zero s = (threw connect_canceled, s)
    grant_attempts (suc n) s =
        then_step (confirm_or_cancel s)
          (λ _ s'. retry_grant (use_other_interface s') (grant_attempts n))

    abbrev pub grant_permissions : Session W S C → Result (Unit {0}) × Session W S C
    grant_permissions = grant_attempts around.patience

    -- The handler in `openInterface`.
    unfoldable pub create_missing :
        Result (Unit {0}) × Session W S C → Result (Unit {0}) × Session W S C
    unfolding confirm_or_cancel use_other_interface do_open_interface migrator_worker ensure_current
        create_sample_launch_methods
    create_missing (threw database_does_not_exist, s) = then_step (confirm_or_cancel s) (λ _ s₁.
        then_step (use_other_interface s₁) (λ _ s₂. then_step (do_open_interface s₂) (λ _ s₃.
          then_step (migrator_worker (load_schema m) s₃)
            (λ _ s₄. then_step (ensure_current s₄) (λ _. create_sample_launch_methods)))))
    create_missing r = r

    unfoldable pub open_interface : Session W S C → Result (Unit {0}) × Session W S C
    unfolding create_missing do_open_interface
    open_interface s = create_missing (do_open_interface s)

    unfoldable pub clear_cache : Session W S C → Result (Unit {0}) × Session W S C
    clear_cache s = (returned tt, record s { cache = around.cleared })

    unfoldable pub refresh_cache : Session W S C → Result (Unit {0}) × Session W S C
    unfolding run_worker
    refresh_cache =
        run_worker (λ s. (returned tt, record s { cache = around.refresh_all s.database s.cache }))

    -- `catch (...)`: the interface is closed and the exception thrown again.
    unfoldable pub close_on_throw :
        Result (Unit {0}) × Session W S C → Result (Unit {0}) × Session W S C
    close_on_throw (returned u, s) = (returned u, s)
    close_on_throw (threw e, s) = (threw e, record s { is_open = false })

    unfoldable pub connect_impl : Session W S C → Result (Unit {0}) × Session W S C
    unfolding open_interface check_version clear_cache refresh_cache close_on_throw
    connect_impl s = close_on_throw (
        then_step (open_interface s) (λ _ s₁.
          then_step (check_version s₁) (λ _ s₂. then_step (clear_cache s₂) (λ _. refresh_cache))))

    -- The inner handler of `connect`.
    unfoldable pub connect_granted :
        Result (Unit {0}) × Session W S C → Result (Unit {0}) × Session W S C
    unfolding grant_attempts connect_impl
    connect_granted (threw access_denied, s) = then_step (grant_permissions s) (λ _. connect_impl)
    connect_granted r = r

    -- The outer handlers; an exception that none of them catches leaves `connect`.
    unfoldable pub settle : Result (Unit {0}) × Session W S C → Result Bool × Manager W S C
    unfolding is_reported
    settle (returned u, s) = (returned true, record { state = state_connected; session = s })
    settle (threw e, s) =
        if is_reported e
        then (returned false, record { state = state_disconnected; session = s })
        else (threw e, record { state = state_connecting; session = s })

    unfoldable pub connect : Manager W S C → Result Bool × Manager W S C
    unfolding settle connect_granted connect_impl
    connect manager = settle (connect_granted (connect_impl manager.session))

    pub disconnect : Manager W S C → Manager W S C
    disconnect manager = record {
      state = state_disconnected;
      session = record manager.session { is_open = false; cache = around.cleared };
    }
