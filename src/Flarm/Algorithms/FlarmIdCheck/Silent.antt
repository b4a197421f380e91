-- ===== src/Flarm/Algorithms/FlarmIdCheck/Silent.antt =====
-- An update of a FLARM identifier without asking (src/flarm/algorithms/FlarmIdUpdate.cpp).
use startkladde.Prelude.{
  ℕ, Bool, true, false, ◌≡◌, refl, List, [], ◌∷◌, none, some, arith, str_eq, str_eq_iff,
}
use startkladde.Qt.{Qt}
use startkladde.Flight.{Flight}
use startkladde.Model.Plane.{Plane}
use startkladde.Cache.Objects.{Objects}
use startkladde.Cache.Planes.{plane_updated}
use startkladde.Cache.FlarmIds.{get_plane_ids_by_flarm_id}
use startkladde.Flarm.Algorithms.FlarmIdCheck.{
  find_other, find_conflicting_plane, interactive_check, interactive_apply, apply_resolution,
  started,
}
use startkladde.Flarm.Algorithms.FlarmIdCheck.Update.{
  User, update_plane, check_and_update, can_update_silently, perform, update_found, is_nil,
}

module _ ⦃q : Qt⦄ where
  open q use {DateTime}

  taken-nobody :
      (c : Objects) (plane_id : ℕ) (ids : List ℕ)
      → is_nil ids ≡ true
      → find_other c plane_id ids ≡ none
  unfolding find_other
  taken-nobody c plane_id [] h = refl
  taken-nobody c plane_id (id ∷ ids) h = cc

  silent-none :
      (manual_operation : Bool) (old_plane_id : ℕ) (plane : Plane) (flight : Flight DateTime)
      (c : Objects)
      → can_update_silently manual_operation old_plane_id plane flight c ≡ true
      → find_conflicting_plane c (started flight.flarm_id plane.id plane.flarm_id) ≡ none
  unfolding can_update_silently find_conflicting_plane
  silent-none manual_operation old_plane_id plane flight c h =
      ground (arith, taken-nobody c plane.id (get_plane_ids_by_flarm_id c flight.flarm_id))

  -- Where an update may be silent and the flight's FLARM identifier is not the plane's, the plane is
  -- given the flight's identifier if its update completes. The user is asked nothing: the result
  -- does not depend on any other answer.
  pub update_found_silently :
      (user : User) (manual_operation : Bool) (old_plane_id : ℕ) (plane : Plane)
      (flight : Flight DateTime) (c : Objects)
      → can_update_silently manual_operation old_plane_id plane flight c ≡ true
      → str_eq plane.flarm_id flight.flarm_id ≡ false
      → user.plane_completes ≡ true
      → update_found user manual_operation old_plane_id flight c (some plane)
        ≡ (plane_updated (record plane { flarm_id = flight.flarm_id }) c, true)
  unfolding update_found perform check_and_update interactive_check interactive_apply
      apply_resolution update_plane
  update_found_silently user manual_operation old_plane_id plane flight c h other done =
      let other' : str_eq flight.flarm_id plane.flarm_id ≡ false = ground (
        arith,
        str_eq_iff flight.flarm_id plane.flarm_id,
        str_eq_iff plane.flarm_id flight.flarm_id,
      ) in
      rw (other, h, silent-none manual_operation old_plane_id plane flight c h, other', done) refl
