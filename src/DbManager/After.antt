-- ===== src/DbManager/After.antt =====
-- Reasoning on the steps of src/db/DbManager.cpp: what holds after a step that returns, and after
-- one that throws.
use startkladde.Prelude.{◌≡◌, refl, Option, none, some}
use startkladde.Migrator.{Migrations, Database}
use startkladde.DbManager.{
  Exception, Result, returned, threw, Surroundings, Session, then_step, run_unless, run_worker,
  read_worker,
}

-- What holds after a step, by whether it returns or throws.
abbrev pub After :
    {A Session : Type 0} → (A → Session → Type 0) → (Session → Type 0) → Result A × Session → Type 0
After P E (returned a, s) = P a s
After P E (threw e, s) = E s

module _ {W S C : Type 0} where
  abbrev pub Any : {A : Type 0} → A → Session W S C → Type 0
  Any a s = Unit {0}

  abbrev pub AnyThrow : Session W S C → Type 0
  AnyThrow s = Unit {0}

  pub After-then_step :
      {A B : Type 0}
      → (P : A → Session W S C → Type 0) → (Q : B → Session W S C → Type 0)
      → (E : Session W S C → Type 0) → (r : Result A × Session W S C)
      → (g : A → Session W S C → Result B × Session W S C) → After P E r
      → ((a : A) (s : Session W S C) → P a s → After Q E (g a s))
      → After Q E (then_step r g)
  unfolding then_step
  After-then_step P Q E (returned a, s) g h k = k a s h
  After-then_step P Q E (threw e, s) g h k = h

  pub After-weaken :
      {A : Type 0}
      → (P Q : A → Session W S C → Type 0) → (r : Result A × Session W S C)
      → ((a : A) (s : Session W S C) → P a s → Q a s)
      → After P AnyThrow r
      → After Q AnyThrow r
  After-weaken P Q (returned a, s) k h = k a s h
  After-weaken P Q (threw e, s) k h = tt

  pub After-Any : {A : Type 0} (r : Result A × Session W S C) → After Any AnyThrow r
  After-Any (returned a, s) = tt
  After-Any (threw e, s) = tt

  -- A step after which the database is made ready.
  pub then_any :
      {A B : Type 0}
      → (Q : B → Session W S C → Type 0) → (r : Result A × Session W S C)
      → (g : A → Session W S C → Result B × Session W S C)
      → ((a : A) (s : Session W S C) → After Q AnyThrow (g a s))
      → After Q AnyThrow (then_step r g)
  then_any Q r g k = After-then_step Any Q AnyThrow r g (After-Any r) (λ a s h. k a s)

module _ {W S C : Type 0} (m : Migrations S) (around : Surroundings W S C) where
  pub After-run_unless :
      {A : Type 0}
      → (P : A → Session W S C → Type 0) → (thrown : Option Exception)
      → (operation : Session W S C → Result A × Session W S C) → (s : Session W S C)
      → After P AnyThrow (operation s)
      → After P AnyThrow (run_unless m around thrown operation s)
  unfolding run_unless
  After-run_unless P none operation s h = h
  After-run_unless P (some e) operation s h = tt

  pub After-run_worker :
      {A : Type 0}
      → (P : A → Session W S C → Type 0) → (operation : Session W S C → Result A × Session W S C)
      → (s : Session W S C)
      → ((s' : Session W S C)
          → (s'.database ≡ s.database) × (s'.cache ≡ s.cache)
          → After P AnyThrow (operation s'))
      → After P AnyThrow (run_worker m around operation s)
  unfolding run_worker
  After-run_worker P operation s h =
      let (thrown, w) = around.next_throw s.world in
      let s' = record s { world = w } in After-run_unless P thrown operation s' (h s' (refl, refl))

  pub read_worker_lem :
      {A : Type 0} (f : Database S → A) (s : Session W S C)
      → After (λ a s'. a ≡ f s'.database) AnyThrow (read_worker m around f s)
  unfolding read_worker
  read_worker_lem f s =
      After-run_worker (λ a s'. a ≡ f s'.database) (λ s'. (returned (f s'.database), s')) s
        (λ s' e. refl)
