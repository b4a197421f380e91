-- ===== src/Cache/Planes/Consistency.antt =====
-- The list and the hashes of planes (src/db/cache), and when they agree.
use startkladde.Prelude.{ℕ, ◌==◌, true, false, ◌≡◌, sym, ap, [], ◌∷◌, Option, none, some, arith}
use startkladde.Prelude.All.{All, All-append, All-map}
use startkladde.DbId.{invalid_id, id_valid}
use startkladde.Qt.{Qt}
use startkladde.Container.{Hash, nat_eq, string_eq, value, insert, remove}
use startkladde.Container.Laws.{value-insert, value-remove, value-absent}
use startkladde.Model.Plane.{Plane}
use startkladde.Cache.EntityList.{remove_by_id, replace_by_id, All-remove_by_id, All-replace_by_id}
use startkladde.Cache.Index.{IsIndexed, IsIndexed-remove, IsIndexed-insert, IsIndexed-update}
use startkladde.Cache.Objects.{Objects, get_object, get_plane}
use startkladde.Cache.Planes.{
  PlaneEvent, plane_add, plane_change, plane_delete, plane_added, plane_deleted, plane_updated,
  handle_plane_changed, update_hashes_plane_added, update_hashes_plane_deleted,
  update_hashes_plane_updated,
}

-- Where the invalid identifier is not in the hash, looking up an identifier reads the hash.
pub get_object-value :
    {T : Type 0} (objects : Hash ℕ T) (id : ℕ)
    → value invalid_id objects ≡ none
    → get_object objects id ≡ value id objects
unfolding get_object
get_object-value objects id h = ground (arith, value-absent id objects)

module _ ⦃q : Qt⦄ where
  open q use {to_lower}

  pub record IsConsistent (c : Objects) : Type 0 where
    pub listed : All (λ p. value p.id c.planes_by_id ≡ some p) c.planes
    pub no_invalid : value invalid_id c.planes_by_id ≡ none
    pub registrations :
        IsIndexed (λ p. to_lower p.registration) c.planes_by_id c.plane_ids_by_registration
    pub flarm_ids : IsIndexed (λ p. p.flarm_id) c.planes_by_id c.plane_ids_by_flarm_id

  -- Planes with another identifier keep their place in the hash.
  keep_insert :
      (p x : Plane) (h : Hash ℕ Plane)
      → value x.id h ≡ some x
      → (x.id == p.id) ≡ false
      → value x.id (insert p.id p h) ≡ some x
  keep_insert p x h e ne = ground (arith, value-insert p.id x.id p h)

  keep_remove :
      (id : ℕ) (x : Plane) (h : Hash ℕ Plane)
      → value x.id h ≡ some x
      → (x.id == id) ≡ false
      → value x.id (remove id h) ≡ some x
  keep_remove id x h e ne = ground (arith, value-remove id x.id h)

  inserted : (p : Plane) (h : Hash ℕ Plane) → value p.id (insert p.id p h) ≡ some p
  inserted p h = ground (arith, value-insert p.id p.id p h)

  module _ (c : Objects) (v : IsConsistent c) where
    other :
        (x : Plane)
        → value x.id c.planes_by_id ≡ some x
        → (p : Plane) → value p.id c.planes_by_id ≡ none
        → (x.id == p.id) ≡ false
    other x e p absent = ground (arith, ap (λ id. value id c.planes_by_id))

    listed_removed :
        (id : ℕ)
        → All
            (λ p. value p.id (remove id c.planes_by_id) ≡ some p)
            (remove_by_id (λ p. p.id) id c.planes)
    listed_removed id =
        All-remove_by_id (λ p. p.id) _ _ id (λ x e ne. keep_remove id x c.planes_by_id e ne)
          c.planes v.listed

    invalid_removed : (id : ℕ) → value invalid_id (remove id c.planes_by_id) ≡ none
    invalid_removed id = ground (arith, value-remove id invalid_id c.planes_by_id, v.no_invalid)

    invalid_inserted :
        (p : Plane) → id_valid p.id ≡ true → value invalid_id (insert p.id p c.planes_by_id) ≡ none
    invalid_inserted p n =
        ground (arith, value-insert p.id invalid_id p c.planes_by_id, v.no_invalid)

    listed_replaced :
        (p : Plane)
        → All
            (λ x. value x.id (insert p.id p c.planes_by_id) ≡ some x)
            (replace_by_id (λ p. p.id) p.id p c.planes)
    listed_replaced p =
        All-replace_by_id (λ p. p.id) _ _ p.id (λ x e ne. keep_insert p x c.planes_by_id e ne) p
          (inserted p c.planes_by_id) c.planes v.listed

    deleted-IsConsistent :
        (id : ℕ) (old : Option Plane)
        → value id c.planes_by_id ≡ old
        → IsConsistent (
            update_hashes_plane_deleted id old (record c {
              planes = remove_by_id (λ p. p.id) id c.planes;
              planes_by_id = remove id c.planes_by_id;
            }))
    unfolding update_hashes_plane_deleted
    deleted-IsConsistent id none e = record {
      listed = listed_removed id;
      no_invalid = invalid_removed id;
      registrations =
          IsIndexed-remove (λ p. to_lower p.registration) c.planes_by_id _ v.registrations id none
            e;
      flarm_ids = IsIndexed-remove (λ p. p.flarm_id) c.planes_by_id _ v.flarm_ids id none e;
    }
    deleted-IsConsistent id (some old) e = record {
      listed = listed_removed id;
      no_invalid = invalid_removed id;
      registrations =
          IsIndexed-remove (λ p. to_lower p.registration) c.planes_by_id _ v.registrations id
            (some old) e;
      flarm_ids = IsIndexed-remove (λ p. p.flarm_id) c.planes_by_id _ v.flarm_ids id (some old) e;
    }

    updated-IsConsistent :
        (p : Plane) (old : Option Plane)
        → id_valid p.id ≡ true
        → value p.id c.planes_by_id ≡ old
        → IsConsistent (
            update_hashes_plane_updated p old (record c {
              planes = replace_by_id (λ p. p.id) p.id p c.planes;
              planes_by_id = insert p.id p c.planes_by_id;
            }))
    unfolding update_hashes_plane_updated update_hashes_plane_added update_hashes_plane_deleted
    updated-IsConsistent p none n e = record {
      listed = listed_replaced p;
      no_invalid = invalid_inserted p n;
      registrations =
          IsIndexed-update (λ p. to_lower p.registration) c.planes_by_id _ v.registrations p.id p
            none e;
      flarm_ids = IsIndexed-update (λ p. p.flarm_id) c.planes_by_id _ v.flarm_ids p.id p none e;
    }
    updated-IsConsistent p (some old) n e = record {
      listed = listed_replaced p;
      no_invalid = invalid_inserted p n;
      registrations =
          IsIndexed-update (λ p. to_lower p.registration) c.planes_by_id _ v.registrations p.id p
            (some old) e;
      flarm_ids =
          IsIndexed-update (λ p. p.flarm_id) c.planes_by_id _ v.flarm_ids p.id p (some old) e;
    }

    added-IsConsistent :
        (p : Plane)
        → id_valid p.id ≡ true
        → value p.id c.planes_by_id ≡ none
        → IsConsistent (plane_added p c)
    unfolding plane_added update_hashes_plane_added
    added-IsConsistent p n absent = record {
      listed =
          All-append _ c.planes (p ∷ [])
            (All-map (λ x. value x.id c.planes_by_id ≡ some x) _ c.planes
              (λ x e. keep_insert p x c.planes_by_id e (other x e p absent)) v.listed)
            (inserted p c.planes_by_id, tt);
      no_invalid = invalid_inserted p n;
      registrations =
          IsIndexed-insert (λ p. to_lower p.registration) c.planes_by_id _ v.registrations p.id p
            absent;
      flarm_ids = IsIndexed-insert (λ p. p.flarm_id) c.planes_by_id _ v.flarm_ids p.id p absent;
    }

  -- An event names a valid identifier, and an added plane is new.
  abbrev pub IsProperEvent : PlaneEvent → Objects → Type 0
  IsProperEvent (plane_add p) c = (id_valid p.id ≡ true) × (value p.id c.planes_by_id ≡ none)
  IsProperEvent (plane_change p) c = id_valid p.id ≡ true
  IsProperEvent (plane_delete id) c = Unit {0}

  -- Every database event on a plane keeps the planes of the cache consistent, where an added or
  -- changed plane has a valid identifier and an added one is new: the hash gives for the identifier
  -- of each listed plane that plane, and the hashes by registration, in lower case, and by FLARM
  -- identifier pair a key with exactly the identifiers of the planes that have that key. In
  -- particular no pair of an old version of a plane is left behind.
  pub handle_plane_changed-IsConsistent :
      (c : Objects) (event : PlaneEvent)
      → IsConsistent c
      → IsProperEvent event c
      → IsConsistent (handle_plane_changed event c)
  unfolding handle_plane_changed plane_deleted plane_updated
  handle_plane_changed-IsConsistent c (plane_add p) v (n, absent) =
      added-IsConsistent c v p n absent
  handle_plane_changed-IsConsistent c (plane_change p) v n =
      updated-IsConsistent c v p (get_plane c p.id) n
        (sym (get_object-value c.planes_by_id p.id v.no_invalid))
  handle_plane_changed-IsConsistent c (plane_delete id) v n =
      deleted-IsConsistent c v id (get_plane c id)
        (sym (get_object-value c.planes_by_id id v.no_invalid))
