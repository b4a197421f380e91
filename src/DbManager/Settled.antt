-- ===== src/DbManager/Settled.antt =====
-- How `connect` of src/db/DbManager.cpp ends.
use startkladde.Prelude.{Bool, true, false, ◌≡◌, ◌⊎◌}
use startkladde.Migrator.{Migrations, Database, action_none, is_current, get_required_action}
use startkladde.DbManager.{
  state_disconnected, state_connecting, state_connected, Result, returned, threw, Surroundings,
  Session, Manager, is_reported,
}
use startkladde.DbManager.After.{After}
use startkladde.DbManager.Closed.{Closed}

module _ {W S C : Type 0} (m : Migrations S) (around : Surroundings W S C) where
  -- The database is what this version of the program expects.
  abbrev pub IsReady : Database S → Type 0
  IsReady db = (get_required_action m db ≡ action_none) ⊎ (is_current m db ≡ true)

  abbrev pub IsSettled : Result Bool × Manager W S C → Type 0
  IsSettled (returned true, manager) =
      (manager.state ≡ state_connected)
      × IsReady manager.session.database
      × (manager.session.cache ≡ around.refresh_all manager.session.database around.cleared)
  IsSettled (returned false, manager) =
      (manager.state ≡ state_disconnected) × (manager.session.is_open ≡ false)
  IsSettled (threw e, manager) =
      (manager.state ≡ state_connecting)
      × (manager.session.is_open ≡ false)
      × (is_reported e ≡ false)

  abbrev IsFilled : Unit {0} → Session W S C → Type 0
  IsFilled u s = IsReady s.database × (s.cache ≡ around.refresh_all s.database around.cleared)

  abbrev Ready : Unit {0} → Session W S C → Type 0
  Ready u s = IsReady s.database

  abbrev Current : Unit {0} → Session W S C → Type 0
  Current u s = is_current m s.database ≡ true

  abbrev Cleared : Unit {0} → Session W S C → Type 0
  Cleared u s = IsReady s.database × (s.cache ≡ around.cleared)
