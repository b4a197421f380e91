-- ===== src/Cache/FlarmIds.antt =====
-- Lookups by FLARM identifier (src/db/cache/Cache_lookup.cpp).
use startkladde.Prelude.{
  ℕ, true, false, not, ◌≡◌, ◌≢◌, ◌⊎◌, inl, inr, sym, ◌∙◌, String, List, some, arith, if◌then◌else◌,
  Option-cases,
}
use startkladde.Qt.{Qt}
use startkladde.DbId.{invalid_id}
use startkladde.Container.{Hash, nat_eq, string_eq, value, values, contains, contains_pair}
use startkladde.Container.Laws.{value-contains}
use startkladde.Model.Plane.{Plane}
use startkladde.Cache.Index.{has_key-some, contains_pair-value, value-contains_pair}
use startkladde.Cache.Objects.{Objects, get_plane, or_invalid}
use startkladde.Cache.Planes.Consistency as Planes
use startkladde.Cache.Planes.Consistency.{get_object-value}
use startkladde.Cache.Contents.{Contents}

-- `value` of a multi-hash, or the invalid identifier if the key is missing.
unfoldable pub id_by_flarm_id : Hash String ℕ → String → ℕ
id_by_flarm_id index flarm_id =
    if not (contains flarm_id index) then invalid_id else or_invalid (value flarm_id index)

unfoldable pub get_plane_ids_by_flarm_id : Objects → String → List ℕ
get_plane_ids_by_flarm_id c flarm_id = values flarm_id c.plane_ids_by_flarm_id

unfoldable pub get_plane_id_by_flarm_id : Objects → String → ℕ
unfolding id_by_flarm_id
get_plane_id_by_flarm_id c flarm_id = id_by_flarm_id c.plane_ids_by_flarm_id flarm_id

-- What a hash by FLARM identifier gives.
id_by_flarm_id-cases :
    (index : Hash String ℕ) (flarm_id : String)
    → (contains_pair flarm_id (id_by_flarm_id index flarm_id) index ≡ true)
      ⊎ ((id_by_flarm_id index flarm_id ≡ invalid_id)
          × ((id : ℕ) → contains_pair flarm_id id index ≡ false))
unfolding id_by_flarm_id
id_by_flarm_id-cases index flarm_id = elim (Option-cases (value flarm_id index)) [
  | inl missing ↦ inr (ground arith, λ id. ground (arith, value-contains_pair flarm_id id index))
  | inr (id, e) ↦
      inl (rw (value-contains flarm_id id index e, e) (contains_pair-value flarm_id id index e))
]

module _ ⦃q : Qt⦄ where
  unfoldable pub get_flarm_net_record_id_by_flarm_id : Contents → String → ℕ
  unfolding id_by_flarm_id
  get_flarm_net_record_id_by_flarm_id c flarm_id =
      id_by_flarm_id c.flarm_net_record_ids_by_flarm_id flarm_id

  -- No plane of the cache has the FLARM identifier.
  abbrev pub IsFree : Objects → String → Type 0
  IsFree c flarm_id = (id : ℕ) (p : Plane) → get_plane c id ≡ some p → p.flarm_id ≢ flarm_id

  module _ (c : Objects) (flarm_id : String) (v : Planes.IsConsistent c) where
    -- The planes that the hash knows for the FLARM identifier are those that have it.
    pub paired_plane :
        (id : ℕ)
        → contains_pair flarm_id id c.plane_ids_by_flarm_id ≡ true
        → (p : Plane) × (get_plane c id ≡ some p) × (p.flarm_id ≡ flarm_id)
    paired_plane id h =
        let (p, e, k) =
          has_key-some (λ (p : Plane). p.flarm_id) flarm_id (value id c.planes_by_id)
            (sym (v.flarm_ids flarm_id id) ∙ h) in
        (p, get_object-value c.planes_by_id id v.no_invalid ∙ e, k)

    pub unpaired_plane :
        ((id : ℕ) → contains_pair flarm_id id c.plane_ids_by_flarm_id ≡ false) → IsFree c flarm_id
    unpaired_plane free id p e k = ground (
      arith,
      free id,
      v.flarm_ids flarm_id id,
      get_object-value c.planes_by_id id v.no_invalid,
      string_eq.eq_iff p.flarm_id flarm_id,
    )

    -- Looking up a FLARM identifier in a consistent cache gives the identifier of a plane of the
    -- cache that has it, or the invalid identifier, and then no plane has it.
    pub get_plane_id_by_flarm_id_lem :
        ((p : Plane) × (get_plane c (get_plane_id_by_flarm_id c flarm_id) ≡ some p)
          × (p.flarm_id ≡ flarm_id))
        ⊎ ((get_plane_id_by_flarm_id c flarm_id ≡ invalid_id) × IsFree c flarm_id)
    unfolding get_plane_id_by_flarm_id
    get_plane_id_by_flarm_id_lem = elim (id_by_flarm_id-cases c.plane_ids_by_flarm_id flarm_id) [
      | inl h ↦ inl (paired_plane (id_by_flarm_id c.plane_ids_by_flarm_id flarm_id) h)
      | inr (e, free) ↦ inr (e, unpaired_plane free)
    ]
