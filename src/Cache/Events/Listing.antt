-- ===== src/Cache/Events/Listing.antt =====
-- The lists of planes, of planes by usage and of launch methods of the cache (src/db/cache) beside
-- the hashes by identifier.
use startkladde.Prelude.{
  ℕ, ◌==◌, true, ◌≡◌, sym, ◌∙◌, List, [], ◌∷◌, Option, none, some, arith, if◌then◌else◌,
}
use startkladde.Prelude.Int.{ℤ}
use startkladde.Qt.{Qt}
use startkladde.DbId.{id_valid}
use startkladde.Container.{nat_eq, value, insert, remove}
use startkladde.Container.Laws.{value-insert, value-remove}
use startkladde.Model.Plane.{Plane}
use startkladde.Model.LaunchMethod.{LaunchMethod}
use startkladde.Cache.EntityList.{remove_by_id, replace_by_id}
use startkladde.Cache.Table.{find, IsTable, IsTable-add, IsTable-delete, IsTable-change}
use startkladde.Cache.Objects.{Objects, get_plane, get_launch_method}
use startkladde.Cache.Planes.{
  PlaneEvent, plane_add, plane_change, plane_delete, plane_added, plane_deleted, plane_updated,
  handle_plane_changed, remove_usage, update_hashes_plane_added, update_hashes_plane_deleted,
  update_hashes_plane_updated,
}
use startkladde.Cache.Planes.Consistency.{get_object-value}
use startkladde.Cache.LaunchMethods.{
  LaunchMethodEvent, launch_method_add, launch_method_change, launch_method_delete,
  launch_method_added, launch_method_deleted, launch_method_updated, handle_launch_method_changed,
  update_hashes_launch_method_added, update_hashes_launch_method_deleted,
  update_hashes_launch_method_updated,
}

-- The plane of the list by usage with the identifier.
abbrev find_used : ℕ → List (Plane × ℤ) → Option Plane
find_used id [] = none
find_used id ((p, key) ∷ ps) = let rest = find_used id ps in if p.id == id then some p else rest

find_used-remove_usage :
    (i id : ℕ) (ps : List (Plane × ℤ))
    → find_used i (remove_usage id ps) ≡ (if id == i then none else find_used i ps)
unfolding remove_usage
find_used-remove_usage i id [] = ground arith
find_used-remove_usage i id ((p, key) ∷ ps) = ground (arith, find_used-remove_usage i id ps)

abbrev pub IsUsed : Objects → Type 0
IsUsed c = (id : ℕ) → find_used id c.planes_sorted_by_usage ≡ value id c.planes_by_id

-- The list and the list by usage hold the planes of the hash by identifier.
pub record PlanesListed (c : Objects) : Type 0 where
  pub table : IsTable (λ p. p.id) c.planes c.planes_by_id
  pub used : IsUsed c

abbrev pub LaunchMethodsListed : Objects → Type 0
LaunchMethodsListed c = IsTable (λ l. l.id) c.launch_methods c.launch_methods_by_id

find-id : (i : ℕ) (xs : List Plane) (x : Plane) → find (λ p. p.id) i xs ≡ some x → x.id ≡ i
find-id i [] x h = cc
find-id i (y ∷ xs) x h = ground (arith, find-id i xs x)

module _ ⦃q : Qt⦄ where
  -- An added object has a new valid identifier, a changed one is in the cache.
  abbrev pub IsListedPlane : PlaneEvent → Objects → Type 0
  IsListedPlane (plane_add p) c = (id_valid p.id ≡ true) × (value p.id c.planes_by_id ≡ none)
  IsListedPlane (plane_change p) c =
      (id_valid p.id ≡ true) × ((old : Plane) × (value p.id c.planes_by_id ≡ some old))
  IsListedPlane (plane_delete id) c = Unit {0}

module _ ⦃q : Qt⦄ (c : Objects) (v : PlanesListed c) where
  deleted-PlanesListed :
      (id : ℕ) (old : Option Plane)
      → value id c.planes_by_id ≡ old
      → PlanesListed (
          update_hashes_plane_deleted id old (record c {
            planes = remove_by_id (λ p. p.id) id c.planes;
            planes_by_id = remove id c.planes_by_id;
          }))
  unfolding update_hashes_plane_deleted
  deleted-PlanesListed id none e = record {
    table = IsTable-delete (λ p. p.id) c.planes c.planes_by_id v.table id;
    used = λ i. ground (arith, value-remove id i c.planes_by_id, v.used i);
  }
  deleted-PlanesListed id (some old) e = record {
    table = IsTable-delete (λ p. p.id) c.planes c.planes_by_id v.table id;
    used =
        let same : old.id ≡ id = find-id id c.planes old (sym (v.table.found id) ∙ e) in
        λ i. ground (
          arith,
          value-remove id i c.planes_by_id,
          v.used i,
          find_used-remove_usage i old.id c.planes_sorted_by_usage,
        );
  }

  updated-PlanesListed :
      (p old : Plane)
      → id_valid p.id ≡ true
      → value p.id c.planes_by_id ≡ some old
      → PlanesListed (
          update_hashes_plane_updated p (some old) (record c {
            planes = replace_by_id (λ p. p.id) p.id p c.planes;
            planes_by_id = insert p.id p c.planes_by_id;
          }))
  unfolding update_hashes_plane_updated update_hashes_plane_added update_hashes_plane_deleted
  updated-PlanesListed p old n e = record {
    table = IsTable-change (λ p. p.id) c.planes c.planes_by_id v.table p old n e;
    used =
        let same : old.id ≡ p.id = find-id p.id c.planes old (sym (v.table.found p.id) ∙ e) in
        λ i. ground (
          arith,
          value-insert p.id i p c.planes_by_id,
          v.used i,
          find_used-remove_usage i old.id c.planes_sorted_by_usage,
        );
  }

  pub handle_plane_changed-PlanesListed :
      (event : PlaneEvent) → IsListedPlane event c → PlanesListed (handle_plane_changed event c)
  unfolding handle_plane_changed plane_added plane_deleted plane_updated update_hashes_plane_added
  handle_plane_changed-PlanesListed (plane_add p) (n, absent) = record {
    table = IsTable-add (λ p. p.id) c.planes c.planes_by_id v.table p n absent;
    used = λ i. ground (arith, value-insert p.id i p c.planes_by_id, v.used i);
  }
  handle_plane_changed-PlanesListed (plane_change p) (n, (old, there)) =
      rw (get_object-value c.planes_by_id p.id v.table.no_invalid ∙ there)
        (updated-PlanesListed p old n there)
  handle_plane_changed-PlanesListed (plane_delete id) h =
      deleted-PlanesListed id (get_plane c id)
        (sym (get_object-value c.planes_by_id id v.table.no_invalid))

-- An added object has a new valid identifier, a changed one is in the cache.
abbrev pub IsListedLaunchMethod : LaunchMethodEvent → Objects → Type 0
IsListedLaunchMethod (launch_method_add l) c =
    (id_valid l.id ≡ true) × (value l.id c.launch_methods_by_id ≡ none)
IsListedLaunchMethod (launch_method_change l) c =
    (id_valid l.id ≡ true) × ((old : LaunchMethod) × (value l.id c.launch_methods_by_id ≡ some old))
IsListedLaunchMethod (launch_method_delete id) c = Unit {0}

module _ (c : Objects) (v : LaunchMethodsListed c) where
  deleted-LaunchMethodsListed :
      (id : ℕ) (old : Option LaunchMethod)
      → LaunchMethodsListed (
          update_hashes_launch_method_deleted id old (record c {
            launch_methods = remove_by_id (λ l. l.id) id c.launch_methods;
            launch_methods_by_id = remove id c.launch_methods_by_id;
          }))
  unfolding update_hashes_launch_method_deleted
  deleted-LaunchMethodsListed id none =
      IsTable-delete (λ l. l.id) c.launch_methods c.launch_methods_by_id v id
  deleted-LaunchMethodsListed id (some old) =
      IsTable-delete (λ l. l.id) c.launch_methods c.launch_methods_by_id v id

  pub handle_launch_method_changed-LaunchMethodsListed :
      (event : LaunchMethodEvent)
      → IsListedLaunchMethod event c
      → LaunchMethodsListed (handle_launch_method_changed event c)
  unfolding handle_launch_method_changed launch_method_added launch_method_deleted
      launch_method_updated update_hashes_launch_method_added update_hashes_launch_method_updated
      update_hashes_launch_method_deleted
  handle_launch_method_changed-LaunchMethodsListed (launch_method_add l) (n, absent) =
      IsTable-add (λ l. l.id) c.launch_methods c.launch_methods_by_id v l n absent
  handle_launch_method_changed-LaunchMethodsListed (launch_method_change l) (n, (old, there)) =
      rw (get_object-value c.launch_methods_by_id l.id v.no_invalid ∙ there)
        (IsTable-change (λ l. l.id) c.launch_methods c.launch_methods_by_id v l old n there)
  handle_launch_method_changed-LaunchMethodsListed (launch_method_delete id) h =
      deleted-LaunchMethodsListed id (get_launch_method c id)
