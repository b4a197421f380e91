-- ===== src/Cache/Planes/Lookup.antt =====
-- Lookups of planes by registration (src/db/cache/Cache_lookup.cpp).
use startkladde.Prelude.{
  ℕ, false, ◌≡◌, ◌⊎◌, sym, ◌∙◌, inl, inr, String, none, some, arith, str_eq, Option-cases,
}
use startkladde.DbId.{invalid_id}
use startkladde.Qt.{Qt}
use startkladde.Container.{nat_eq, string_eq, value}
use startkladde.Container.Laws.{value-contains}
use startkladde.Model.Plane.{Plane}
use startkladde.Cache.Index.{contains_pair-value, has_key-some, value-contains_pair}
use startkladde.Cache.Objects.{Objects, get_plane, get_plane_id_by_registration}
use startkladde.Cache.Planes.Consistency.{IsConsistent, get_object-value}

module _ ⦃q : Qt⦄ where
  open q use {to_lower}

  -- The plane that a lookup found has the registration.
  abbrev pub IsRegistered : Objects → String → ℕ → Plane → Type 0
  IsRegistered c registration id p =
      (get_plane c id ≡ some p) × (to_lower p.registration ≡ to_lower registration)

  unregistered :
      (c : Objects) (registration : String)
      → IsConsistent c
      → value (to_lower registration) c.plane_ids_by_registration ≡ none
      → (id : ℕ) (p : Plane) → get_plane c id ≡ some p
      → str_eq (to_lower p.registration) (to_lower registration) ≡ false
  unregistered c registration v missing id p e = ground (
    arith,
    v.registrations (to_lower registration) id,
    get_object-value c.planes_by_id id v.no_invalid,
    value-contains_pair (to_lower registration) id c.plane_ids_by_registration,
  )

  -- Looking up a registration in a consistent cache gives the identifier of a plane of the cache
  -- with that registration, upper and lower case not being told apart, or it gives the invalid
  -- identifier, and no plane of the cache has that registration.
  pub get_plane_id_by_registration_lem :
      (c : Objects) (registration : String)
      → IsConsistent c
      → ((p : Plane) × IsRegistered c registration (get_plane_id_by_registration c registration) p)
        ⊎ ((get_plane_id_by_registration c registration ≡ invalid_id)
            × ((id : ℕ) (p : Plane)
                → get_plane c id ≡ some p
                → str_eq (to_lower p.registration) (to_lower registration) ≡ false))
  unfolding get_plane_id_by_registration
  get_plane_id_by_registration_lem c registration v =
      elim (Option-cases (value (to_lower registration) c.plane_ids_by_registration)) [
        | inl missing ↦ inr (ground arith, λ id p e. unregistered c registration v missing id p e)
        | inr (id, e) ↦
            let (p, at_id, same) =
              has_key-some (λ p. to_lower p.registration) (to_lower registration)
                (value id c.planes_by_id)
                (sym (v.registrations (to_lower registration) id)
                  ∙ contains_pair-value (to_lower registration) id c.plane_ids_by_registration e) in
            let there = value-contains (to_lower registration) id c.plane_ids_by_registration e in
            inl (p, (rw (there, e) (get_object-value c.planes_by_id id v.no_invalid ∙ at_id), same))
      ]
