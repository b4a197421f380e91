-- ===== src/Cache/Planes.antt =====
-- The planes of the cache: `objectAdded`, `objectDeleted` and `objectUpdated` of
-- src/db/cache/Cache.cpp at planes, with the updates of the hashes of Cache_hashUpdates.cpp.
pub mod Consistency
pub mod Lookup
use startkladde.Prelude.{
  ℕ, ◌==◌, Bool, true, false, not, String, List, [], ◌∷◌, ◌++◌, Option, none, some, if◌then◌else◌,
}
use startkladde.Prelude.Int.{ℤ, pos}
use startkladde.Qt.{Qt}
use startkladde.Text.{is_blank}
use startkladde.Container.{
  nat_eq, string_eq, contains, insert, remove, insert_multi, remove_pair, insert_text, remove_text,
}
use startkladde.Model.Plane.{Plane}
use startkladde.Cache.EntityList.{remove_by_id, replace_by_id}
use startkladde.Cache.Objects.{Objects, get_plane}

abbrev pub insert_text_if : String → Bool → List String → List String
insert_text_if s condition set = if condition then insert_text s set else set

-- The loop over `planesSortedByUsage`.
unfoldable pub remove_usage : ℕ → List (Plane × ℤ) → List (Plane × ℤ)
remove_usage id [] = []
remove_usage id ((p, key) ∷ ps) =
    let rest = remove_usage id ps in if p.id == id then rest else (p, key) ∷ rest

module _ ⦃q : Qt⦄ where
  open q use {to_lower}

  unfoldable pub update_hashes_plane_added : Plane → Objects → Objects
  unfolding insert_text
  update_hashes_plane_added p c = record c {
    plane_types = insert_text_if p.type (not (is_blank p.type)) c.plane_types;
    plane_registrations = insert_text p.registration c.plane_registrations;
    plane_ids_by_registration =
        insert_multi (to_lower p.registration) p.id c.plane_ids_by_registration;
    plane_ids_by_flarm_id = insert_multi p.flarm_id p.id c.plane_ids_by_flarm_id;
    clubs = insert_text_if p.club (not (is_blank p.club)) c.clubs;
    planes_sorted_by_usage = (p, pos 0) ∷ c.planes_sorted_by_usage;
  }

  -- The old plane may be NULL.
  unfoldable pub update_hashes_plane_deleted : ℕ → Option Plane → Objects → Objects
  unfolding remove_text remove_usage
  update_hashes_plane_deleted id none c = c
  update_hashes_plane_deleted id (some old) c =
      let registration_lower = to_lower old.registration in
      let ids = remove_pair registration_lower id c.plane_ids_by_registration in
      record c {
        plane_ids_by_registration = ids;
        plane_registrations =
            if not (contains registration_lower ids)
            then remove_text old.registration c.plane_registrations
            else c.plane_registrations;
        plane_ids_by_flarm_id = remove_pair old.flarm_id id c.plane_ids_by_flarm_id;
        planes_sorted_by_usage = remove_usage old.id c.planes_sorted_by_usage;
      }

  unfoldable pub update_hashes_plane_updated : Plane → Option Plane → Objects → Objects
  unfolding update_hashes_plane_added update_hashes_plane_deleted
  update_hashes_plane_updated p old c =
      update_hashes_plane_added p (update_hashes_plane_deleted p.id old c)

  unfoldable pub plane_added : Plane → Objects → Objects
  unfolding update_hashes_plane_added
  plane_added p c =
      update_hashes_plane_added p
        (record c { planes = c.planes ++ p ∷ []; planes_by_id = insert p.id p c.planes_by_id })

  unfoldable pub plane_deleted : ℕ → Objects → Objects
  unfolding update_hashes_plane_deleted
  plane_deleted id c =
      let old = get_plane c id in
      update_hashes_plane_deleted id old (record c {
        planes = remove_by_id (λ p. p.id) id c.planes;
        planes_by_id = remove id c.planes_by_id;
      })

  unfoldable pub plane_updated : Plane → Objects → Objects
  unfolding update_hashes_plane_updated
  plane_updated p c =
      let old = get_plane c p.id in
      update_hashes_plane_updated p old (record c {
        planes = replace_by_id (λ p. p.id) p.id p c.planes;
        planes_by_id = insert p.id p c.planes_by_id;
      })

  -- A DbEvent on the planes table, and `handleDbChanged<Plane>`.
  pub data PlaneEvent : Type 0 where
    plane_add plane_change : Plane → PlaneEvent
    plane_delete : ℕ → PlaneEvent

  unfoldable pub handle_plane_changed : PlaneEvent → Objects → Objects
  unfolding plane_added plane_updated plane_deleted
  handle_plane_changed (plane_add p) c = plane_added p c
  handle_plane_changed (plane_change p) c = plane_updated p c
  handle_plane_changed (plane_delete id) c = plane_deleted id c
