-- ===== src/Flight/Errors/Caching.antt =====
-- The cache of `getErrors` (src/model/Flight.cpp) and `databaseChanged`.
use startkladde.Prelude.{
  ℕ, Bool, false, ◌≡◌, ◌≢◌, ◌⊎◌, inl, inr, refl, sym, ◌∙◌, Bool-cases, ◌||◌, ◌==◌, arith,
}
use startkladde.Qt.{Qt}
use startkladde.Cache.Objects.{Objects, get_plane, get_launch_method}
use startkladde.Flight.{Flight, data_changed}
use startkladde.Flight.Errors.{
  Settings, get_errors, get_errors_impl, Table, table_flights, table_launch_methods, table_people,
  table_planes, table_flarm_net_records, database_changed,
}

module _ ⦃q : Qt⦄ where
  open q use {DateTime}

  -- The cached list is marked invalid, or it is what the check finds, without towflight errors or
  -- with them.
  abbrev pub IsCachedFor : Settings → Objects → Bool → Flight DateTime → Type 0
  IsCachedFor settings cache include f =
      (f.cached_errors_valid ≡ false) ⊎ (f.cached_errors ≡ get_errors_impl settings cache include f)

  -- Once the errors have been determined, both kinds of call return the same list: the argument
  -- `includeTowflightErrors` is not looked at until the flight changes.
  pub get_errors_again :
      (settings : Settings) (cache : Objects) (include again : Bool) (f : Flight DateTime)
      → (get_errors settings cache again (get_errors settings cache include f).1).0
        ≡ (get_errors settings cache include f).0
  unfolding get_errors
  get_errors_again settings cache include again f = ground arith

  -- A change of the database, as the cache shows it: outside the object with identifier `id` of
  -- the table, every lookup is as before.
  pub data Changed (c c' : Objects) (id : ℕ) : Table → Type 0 where
    changed_plane :
        ((x : ℕ) → x ≢ id → get_plane c' x ≡ get_plane c x)
        → ((x : ℕ) → get_launch_method c' x ≡ get_launch_method c x)
        → Changed c c' id table_planes
    changed_launch_method :
        ((x : ℕ) → get_plane c' x ≡ get_plane c x)
        → ((x : ℕ) → x ≢ id → get_launch_method c' x ≡ get_launch_method c x)
        → Changed c c' id table_launch_methods
    changed_other :
        {t : Table}
        → ((x : ℕ) → get_plane c' x ≡ get_plane c x)
        → ((x : ℕ) → get_launch_method c' x ≡ get_launch_method c x)
        → Changed c c' id t

  -- The check reads the cache only at the three identifiers of the flight.
  get_errors_impl-eq :
      (settings : Settings) (c c' : Objects) (include : Bool) (f : Flight DateTime)
      → get_plane c' f.plane_id ≡ get_plane c f.plane_id
      → get_plane c' f.towplane_id ≡ get_plane c f.towplane_id
      → get_launch_method c' f.launch_method_id ≡ get_launch_method c f.launch_method_id
      → get_errors_impl settings c' include f ≡ get_errors_impl settings c include f
  unfolding get_errors_impl
  get_errors_impl-eq settings c c' include f p t l = rw (p, t, l)

  module _ (settings : Settings) (c c' : Objects) (include : Bool) (f : Flight DateTime) where
    invalid : IsCachedFor settings c' include (data_changed f)
    invalid = inl refl

    unchanged :
        IsCachedFor settings c include f
        → get_plane c' f.plane_id ≡ get_plane c f.plane_id
        → get_plane c' f.towplane_id ≡ get_plane c f.towplane_id
        → get_launch_method c' f.launch_method_id ≡ get_launch_method c f.launch_method_id
        → IsCachedFor settings c' include f
    unchanged (inl invalid) p t l = inl invalid
    unchanged (inr cached) p t l =
        inr (cached ∙ sym (get_errors_impl-eq settings c c' include f p t l))

    database_changed-cases :
        (t : Table) (id : ℕ)
        → (database_changed t id f ≡ f) ⊎ (database_changed t id f ≡ data_changed f)
    unfolding database_changed
    database_changed-cases table_flights id = inl refl
    database_changed-cases table_launch_methods id = ground arith
    database_changed-cases table_people id = ground arith
    database_changed-cases table_planes id = ground arith
    database_changed-cases table_flarm_net_records id = inl refl

    -- `databaseChanged` keeps the cached errors right: if they were those of the check before the
    -- database changed, they are either marked invalid or those of the check after it.
    pub database_changed-IsCachedFor :
        (t : Table) (id : ℕ)
        → Changed c c' id t
        → IsCachedFor settings c include f
        → IsCachedFor settings c' include (database_changed t id f)
    unfolding database_changed
    database_changed-IsCachedFor table_planes id (changed_plane p l) h =
        elim (Bool-cases ((id == f.plane_id) || (id == f.towplane_id))) [
          | inl hit ↦ rw hit invalid
          | inr miss ↦
              rw miss (unchanged h (p _ (ground arith)) (p _ (ground arith)) (l f.launch_method_id))
        ]
    database_changed-IsCachedFor table_launch_methods id (changed_launch_method p l) h =
        elim (Bool-cases (id == f.launch_method_id)) [
          | inl hit ↦ rw hit invalid
          | inr miss ↦ rw miss (unchanged h (p _) (p _) (l _ (ground arith)))
        ]
    database_changed-IsCachedFor t id (changed_other p l) h = elim (database_changed-cases t id) [
      | inl same ↦ rw same (unchanged h (p _) (p _) (l _))
      | inr reset ↦ rw reset invalid
    ]
