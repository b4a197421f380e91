-- ===== src/Flarm/Algorithms/FlarmIdCheck/Update.antt =====
-- src/flarm/algorithms/FlarmIdUpdate.cpp: the update of a plane's FLARM identifier after a check.
use startkladde.Prelude.{
  ℕ, Bool, true, false, not, String, List, [], ◌∷◌, Option, none, some, if◌then◌else◌, str_eq,
}
use startkladde.Qt.{Qt}
use startkladde.DbId.{id_valid}
use startkladde.Text.{is_blank}
use startkladde.Flight.{Flight}
use startkladde.Model.Plane.{Plane}
use startkladde.Cache.Objects.{Objects, get_plane}
use startkladde.Cache.Planes.{plane_updated}
use startkladde.Cache.FlarmIds.{get_plane_ids_by_flarm_id}
use startkladde.Flarm.Algorithms.FlarmIdCheck.{
  Resolution, ResolutionSet, interactive_check, interactive_apply,
}

-- What the user answers to the question, and whether an update of the database completes.
pub data UpdateAction : Type 0 where
  update dont_update cancel : UpdateAction

pub record User : Type 0 where
  pub choose : ResolutionSet → Option Resolution
  pub query : UpdateAction
  pub other_completes : Bool
  pub plane_completes : Bool

abbrev pub is_nil : List ℕ → Bool
is_nil [] = true
is_nil (id ∷ ids) = false

module _ ⦃q : Qt⦄ where
  open q use {DateTime}

  -- The last lines of `checkAndUpdate`; a canceled update leaves it by an exception, which the
  -- caller answers with false.
  unfoldable pub update_plane : Bool → Plane → String → String × Objects × Bool → Objects × Bool
  unfolding plane_updated
  update_plane completes plane old_flarm_id (flarm_id, c, false) = (c, false)
  update_plane completes plane old_flarm_id (flarm_id, c, true) =
      if not (str_eq flarm_id old_flarm_id)
      then (if completes
          then (plane_updated (record plane { flarm_id = flarm_id }) c, true)
          else (c, false))
      else (c, true)

  unfoldable pub check_and_update : User → Plane → String → Objects → Objects × Bool
  unfolding interactive_check interactive_apply update_plane
  check_and_update user plane flight_flarm_id c =
      let check = interactive_check user.choose c flight_flarm_id plane.id plane.flarm_id in
      update_plane user.plane_completes plane plane.flarm_id
        (interactive_apply user.other_completes check plane.flarm_id c)

  unfoldable pub can_update_silently : Bool → ℕ → Plane → Flight DateTime → Objects → Bool
  unfolding is_blank get_plane_ids_by_flarm_id
  can_update_silently manual_operation old_plane_id plane flight c =
      if manual_operation
      then false
      else if id_valid old_plane_id
      then false
      else if not (is_blank plane.flarm_id)
      then false
      else if not (is_nil (get_plane_ids_by_flarm_id c flight.flarm_id))
      then false
      else true

  unfoldable pub perform : UpdateAction → User → Plane → String → Objects → Objects × Bool
  unfolding check_and_update
  perform update user plane flight_flarm_id c = check_and_update user plane flight_flarm_id c
  perform dont_update user plane flight_flarm_id c = (c, true)
  perform cancel user plane flight_flarm_id c = (c, false)

  -- With the plane of the flight; NotFoundException allows continuing.
  unfoldable pub update_found :
      User → Bool → ℕ → Flight DateTime → Objects → Option Plane → Objects × Bool
  unfolding perform can_update_silently
  update_found user manual_operation old_plane_id flight c none = (c, true)
  update_found user manual_operation old_plane_id flight c (some plane) =
      if str_eq plane.flarm_id flight.flarm_id
      then (c, true)
      else perform
          (if can_update_silently manual_operation old_plane_id plane flight c
            then update
            else user.query)
          user plane flight.flarm_id c

  -- `current` is what Flight::isCurrent gives; the messages to the user are left out.
  unfoldable pub interactive_update_flarm_id :
      User → Bool → Flight DateTime → Bool → ℕ → Objects → Objects × Bool
  unfolding update_found
  interactive_update_flarm_id user current flight manual_operation old_plane_id c =
      let updated =
        update_found user manual_operation old_plane_id flight c (get_plane c flight.plane_id) in
      if not (id_valid flight.plane_id)
      then (c, true)
      else if str_eq flight.flarm_id ""
      then (c, true)
      else if not current
      then (c, true)
      else updated
