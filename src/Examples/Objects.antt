-- ===== src/Examples/Objects.antt =====
-- The planes and launch methods of the cache.
use startkladde.Prelude.{ℕ, false, ◌≡◌, ◌⊎◌, refl, some, arith, str_eq}
use startkladde.DbId.{invalid_id}
use startkladde.Container.{nat_eq, string_eq, value, contains_pair}
use startkladde.Model.Plane.{Plane}
use startkladde.Cache.Objects.{get_plane, get_plane_id_by_registration, launch_method_type_eq}
use startkladde.Cache.Planes.Consistency as Planes
use startkladde.Cache.Planes.Lookup.{IsRegistered, get_plane_id_by_registration_lem}
use startkladde.Cache.LaunchMethods.ByType as ByType
use startkladde.Examples.Setting.{seconds, objects}

pub planes-IsConsistent : Planes.IsConsistent objects
unfolding value contains_pair
planes-IsConsistent = record {
  listed = (refl, (refl, tt));
  no_invalid = refl;
  registrations = λ k id. ground arith;
  flarm_ids = λ k id. ground arith;
}

pub launch_methods-IsConsistent : ByType.IsConsistent objects
unfolding value contains_pair
launch_methods-IsConsistent = record { no_invalid = refl; types = λ k id. ground arith }

get_plane_id_by_registration_lem_example :
    ((p : Plane) × IsRegistered objects "D-EBOB" (get_plane_id_by_registration objects "D-EBOB") p)
    ⊎ ((get_plane_id_by_registration objects "D-EBOB" ≡ invalid_id)
        × ((id : ℕ) (p : Plane)
            → get_plane objects id ≡ some p
            → str_eq p.registration "D-EBOB" ≡ false))
get_plane_id_by_registration_lem_example =
    get_plane_id_by_registration_lem objects "D-EBOB" planes-IsConsistent
