-- ===== src/DbManager/Closed.antt =====
-- The interface stays closed while the permissions are granted (`grantPermissions` of
-- src/db/DbManager.cpp).
use startkladde.Prelude.{ℕ, zero, suc, Bool, true, false, ◌≡◌, Option, none, some, if◌then◌else◌}
use startkladde.Migrator.{Migrations}
use startkladde.DbManager.{
  Exception, access_denied, connect_canceled, use_other_interface, confirm_or_cancel, retry_grant,
  Result, returned, threw, Surroundings, Session, run_unless, run_worker, grant_attempts,
}
use startkladde.DbManager.After.{After, After-then_step}

module _ {W S C : Type 0} where
  abbrev pub Closed : Session W S C → Type 0
  Closed s = s.is_open ≡ false

module _ {W S C : Type 0} (m : Migrations S) (around : Surroundings W S C) where
  run_unless-Closed :
      {A : Type 0}
      → (thrown : Option Exception) (a : A) (s : Session W S C) → Closed s
      → After (λ _. Closed) Closed (run_unless m around thrown (λ s'. (returned a, s')) s)
  unfolding run_unless
  run_unless-Closed none a s h = h
  run_unless-Closed (some e) a s h = h

  run_worker-Closed :
      {A : Type 0}
      → (a : A) (s : Session W S C) → Closed s
      → After (λ _. Closed) Closed (run_worker m around (λ s'. (returned a, s')) s)
  unfolding run_worker
  run_worker-Closed a s h =
      let (thrown, w) = around.next_throw s.world in
      run_unless-Closed thrown a (record s { world = w }) h

  use_other_interface-Closed :
      (s : Session W S C) → Closed s → After (λ _. Closed) Closed (use_other_interface m around s)
  unfolding use_other_interface
  use_other_interface-Closed s h =
      After-then_step (λ _. Closed) (λ _. Closed) Closed _ _ (run_worker-Closed tt s h)
        (λ _. run_worker-Closed tt)

  confirmed_or_not :
      (confirmed : Bool) (s : Session W S C)
      → Closed s
      → After
          (λ _. Closed)
          Closed
          (if confirmed then (returned tt, s) else (threw connect_canceled, s))
  confirmed_or_not true s h = h
  confirmed_or_not false s h = h

  confirm_or_cancel-Closed :
      (s : Session W S C) → Closed s → After (λ _. Closed) Closed (confirm_or_cancel m around s)
  unfolding confirm_or_cancel
  confirm_or_cancel-Closed s h =
      let (confirmed, w) = around.answer s.world in
      confirmed_or_not confirmed (record s { world = w }) h

  retry_grant-Closed :
      (r : Result (Unit {0}) × Session W S C)
      → (again : Session W S C → Result (Unit {0}) × Session W S C) → After (λ _. Closed) Closed r
      → ((s : Session W S C) → Closed s → After (λ _. Closed) Closed (again s))
      → After (λ _. Closed) Closed (retry_grant m around r again)
  unfolding retry_grant
  retry_grant-Closed (returned u, s) again h k = h
  retry_grant-Closed (threw access_denied, s) again h k = k s h
  retry_grant-Closed (threw e, s) again h k = h

  -- The interface stays closed while the user is asked for the password.
  pub grant_attempts-Closed :
      (n : ℕ) (s : Session W S C)
      → Closed s
      → After (λ _. Closed) Closed (grant_attempts m around n s)
  unfolding grant_attempts
  grant_attempts-Closed zero s h = h
  grant_attempts-Closed (suc n) s h =
      After-then_step (λ _. Closed) (λ _. Closed) Closed _ _ (confirm_or_cancel-Closed s h)
        (λ _ s' h'.
          retry_grant-Closed _ _ (use_other_interface-Closed s' h') (grant_attempts-Closed n))
