-- ===== src/Flarm/Algorithms/FlarmIdCheck/Canceled.antt =====
-- A swap of FLARM identifiers that is canceled halfway
-- (src/flarm/algorithms/FlarmIdUpdate.cpp, checkAndUpdate).
use startkladde.Prelude.{◌==◌, true, false, ◌≡◌, refl, ◌∙◌, String, some, arith, ==_iff, str_eq}
use startkladde.Qt.{Qt}
use startkladde.DbId.{id_valid}
use startkladde.Model.Plane.{Plane}
use startkladde.Cache.Objects.{Objects, get_plane}
use startkladde.Flarm.Algorithms.FlarmIdCheck.{
  ResolutionSet, swap, find_conflicting_plane, show_choice_dialog, flarm_ids_for, interactive_check,
  update_other, apply_resolution, interactive_apply, started,
}
use startkladde.Flarm.Algorithms.FlarmIdCheck.Update.{User, update_plane, check_and_update}
use startkladde.Flarm.Algorithms.FlarmIdCheck.Resolved.{get_plane-updated}

module _ ⦃q : Qt⦄ where
  -- A user who swaps with the conflicting plane, lets its update complete and cancels the update of
  -- the edited plane.
  pub record IsHalfway (user : User) : Type 0 where
    pub swaps : (s : ResolutionSet) → user.choose s ≡ some swap
    pub first : user.other_completes ≡ true
    pub second : user.plane_completes ≡ false

  -- A swap that is canceled halfway answers false, and then both planes have the old FLARM
  -- identifier of the edited one: the other plane has taken it, and the edited plane has kept it.
  pub check_and_update_canceled :
      (user : User) (c : Objects) (plane o : Plane) (flarm_id : String)
      → IsHalfway user
      → get_plane c plane.id ≡ some plane
      → id_valid o.id ≡ true
      → (o.id == plane.id) ≡ false
      → str_eq flarm_id plane.flarm_id ≡ false
      → find_conflicting_plane c (started flarm_id plane.id plane.flarm_id) ≡ some o
      → ((check_and_update user plane flarm_id c).1 ≡ false)
        × (get_plane (check_and_update user plane flarm_id c).0 o.id
            ≡ some (record o { flarm_id = plane.flarm_id }))
        × (get_plane (check_and_update user plane flarm_id c).0 plane.id ≡ some plane)
  unfolding check_and_update interactive_check interactive_apply apply_resolution show_choice_dialog
      flarm_ids_for update_other update_plane
  check_and_update_canceled user c plane o flarm_id u there n apart changes found =
      let swapped : Plane = record o { flarm_id = plane.flarm_id } in
      rw (found, u.swaps, u.first, changes, u.second)
        (
          refl,
          get_plane-updated swapped c o.id n ∙ ground (arith, ==_iff o.id o.id),
          get_plane-updated swapped c plane.id n ∙ ground (arith, there),
        )
