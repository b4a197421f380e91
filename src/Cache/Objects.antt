-- ===== src/Cache/Objects.antt =====
-- The planes and launch methods of the cache (src/db/cache/Cache.cpp, Cache_lookup.cpp and
-- Cache_hashUpdates.cpp): their lists, the hashes by id and the hashes by property. The mutex
-- `dataMutex` is held by each operation, so operations are functions.
use startkladde.Prelude.{
  ℕ, true, not, ◌≡◌, ◌↔◌, String, List, [], ◌∷◌, Option, none, some, arith, if◌then◌else◌,
}
use startkladde.Prelude.Int.{ℤ}
use startkladde.DbId.{invalid_id, id_invalid}
use startkladde.Qt.{Qt}
use startkladde.Container.{Eq, Hash, nat_eq, string_eq, value, contains, values}
use startkladde.Model.LaunchMethod.{LaunchMethod, LaunchMethodType, type_eq}
use startkladde.Model.Plane.{Plane}

pub type_eq_iff : (a b : LaunchMethodType) → (type_eq a b ≡ true) ↔ (a ≡ b)
type_eq_iff a b = ground arith

instance abbrev pub launch_method_type_eq : Eq LaunchMethodType
launch_method_type_eq = record { eq = type_eq; eq_iff = type_eq_iff }

pub record Objects : Type 0 where
  pub planes : List Plane
  -- with the sort keys
  pub planes_sorted_by_usage : List (Plane × ℤ)
  pub planes_by_id : Hash ℕ Plane
  pub plane_types : List String
  pub plane_registrations : List String
  pub clubs : List String
  pub plane_ids_by_registration : Hash String ℕ
  pub plane_ids_by_flarm_id : Hash String ℕ
  pub launch_methods : List LaunchMethod
  pub launch_methods_by_id : Hash ℕ LaunchMethod
  pub launch_method_ids_by_type : Hash LaunchMethodType ℕ

-- `getObject` on the hash of a type; `none` is NotFoundException, and `getNewObject`'s NULL.
unfoldable pub get_object : {T : Type 0} → Hash ℕ T → ℕ → Option T
get_object objects_by_id_hash id =
    if id_invalid id
    then none
    else if not (contains id objects_by_id_hash)
    then none
    else value id objects_by_id_hash

abbrev pub get_plane : Objects → ℕ → Option Plane
get_plane c id = get_object c.planes_by_id id

abbrev pub get_launch_method : Objects → ℕ → Option LaunchMethod
get_launch_method c id = get_object c.launch_methods_by_id id

abbrev pub or_invalid : Option ℕ → ℕ
or_invalid none = invalid_id
or_invalid (some id) = id

abbrev first : List ℕ → ℕ
first [] = invalid_id
first (id ∷ ids) = id

unfoldable pub get_launch_method_by_type : Objects → LaunchMethodType → ℕ
get_launch_method_by_type c type = first (values type c.launch_method_ids_by_type)

module _ ⦃q : Qt⦄ where
  open q use {to_lower}

  unfoldable pub get_plane_id_by_registration : Objects → String → ℕ
  get_plane_id_by_registration c registration =
      if not (contains (to_lower registration) c.plane_ids_by_registration)
      then invalid_id
      else or_invalid (value (to_lower registration) c.plane_ids_by_registration)
