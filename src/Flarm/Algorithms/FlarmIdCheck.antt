-- ===== src/Flarm/Algorithms/FlarmIdCheck.antt =====
-- src/flarm/algorithms/FlarmIdCheck.cpp and FlarmIdUpdate.cpp: conflicts between the FLARM
-- identifiers of planes, and bringing a plane's identifier up to date with a flight's. The dialogs
-- are parameters, and DbManager::updateObject ends with the cache's change of the plane, or with an
-- OperationCanceledException and no change.
pub mod Update
pub mod Conflict
pub mod Uniqueness
pub mod Resolved
pub mod Silent
pub mod Canceled
use startkladde.Prelude.{
  ℕ, ◌==◌, Bool, true, false, not, ◌≡◌, String, List, [], ◌∷◌, ◌++◌, Option, none, some,
  if◌then◌else◌, str_eq,
}
use startkladde.Qt.{Qt}
use startkladde.Text.{is_blank}
use startkladde.Model.Plane.{Plane}
use startkladde.Cache.Objects.{Objects, get_plane}
use startkladde.Cache.Planes.{plane_updated}
use startkladde.Cache.FlarmIds.{get_plane_ids_by_flarm_id}

pub data Resolution : Type 0 where
  clear swap keep ignore cancel : Resolution

pub record ResolutionSet : Type 0 where
  pub resolutions : List Resolution
  pub default_resolution : Resolution

pub record FlarmIdCheck : Type 0 where
  pub new_flarm_id : String
  pub plane_id : ℕ
  pub old_flarm_id : String
  pub conflicting_plane : Option Plane
  pub selected_resolution : Resolution

-- `getObject` in the loop of `findConflictingPlane`; a NotFoundException continues the loop.
abbrev pub or_continue : Option Plane → Option Plane → Option Plane
or_continue none rest = rest
or_continue (some plane) rest = some plane

-- The loop of `findConflictingPlane`.
unfoldable pub find_other : Objects → ℕ → List ℕ → Option Plane
find_other c plane_id [] = none
find_other c plane_id (id ∷ ids) =
    let rest = find_other c plane_id ids in
    if not (id == plane_id) then or_continue (get_plane c id) rest else rest

unfoldable pub get_possible_resolutions : FlarmIdCheck → ResolutionSet
get_possible_resolutions check =
    if not (str_eq check.new_flarm_id check.old_flarm_id)
    then record {
      resolutions =
          clear ∷ (if not (str_eq check.old_flarm_id "") then swap ∷ [] else [])
          ++ keep ∷ ignore ∷ [];
      default_resolution = clear;
    }
    else record { resolutions = clear ∷ ignore ∷ []; default_resolution = ignore }

abbrev pub or_cancel : Option Resolution → Resolution
or_cancel none = cancel
or_cancel (some resolution) = resolution

-- `choose` is ChoiceDialog::choose: the resolution whose option the user chose, if any.
unfoldable pub show_choice_dialog :
    (ResolutionSet → Option Resolution) → Option Plane → ResolutionSet → Resolution
show_choice_dialog choose none possible_resolutions = keep
show_choice_dialog choose (some conflicting) possible_resolutions =
    or_cancel (choose possible_resolutions)

-- The FLARM identifier of the plane and of the conflicting plane, where `interactiveApply` sets
-- them.
unfoldable pub flarm_ids_for : FlarmIdCheck → Resolution → Option String × Option String
flarm_ids_for check clear = (some check.new_flarm_id, some "")
flarm_ids_for check swap = (some check.new_flarm_id, some check.old_flarm_id)
flarm_ids_for check keep = (some check.old_flarm_id, none)
flarm_ids_for check ignore = (some check.new_flarm_id, none)
flarm_ids_for check cancel = (none, none)

abbrev pub is_cancel : Resolution → Bool
is_cancel cancel = true
is_cancel _ = false

abbrev pub or_old : Option String → String → String
or_old none s = s
or_old (some t) s = t

module _ ⦃q : Qt⦄ where
  unfoldable pub find_conflicting_plane : Objects → FlarmIdCheck → Option Plane
  unfolding find_other get_plane_ids_by_flarm_id
  find_conflicting_plane c check =
      if is_blank check.new_flarm_id
      then none
      else find_other c check.plane_id (get_plane_ids_by_flarm_id c check.new_flarm_id)

  -- The members that `interactiveCheck` sets first.
  abbrev pub started : String → ℕ → String → FlarmIdCheck
  started new_flarm_id plane_id old_flarm_id = record {
    new_flarm_id = new_flarm_id;
    plane_id = plane_id;
    old_flarm_id = old_flarm_id;
    conflicting_plane = none;
    selected_resolution = ignore;
  }

  abbrev pub checked :
      (ResolutionSet → Option Resolution) → FlarmIdCheck → Option Plane → FlarmIdCheck
  checked choose check none = check
  checked choose check (some conflicting) = record check {
    conflicting_plane = some conflicting;
    selected_resolution =
        show_choice_dialog choose (some conflicting) (get_possible_resolutions check);
  }

  -- The new state of a check; its answer is that the selected resolution is not `cancel`.
  unfoldable pub interactive_check :
      (ResolutionSet → Option Resolution) → Objects → String → ℕ → String → FlarmIdCheck
  unfolding find_conflicting_plane show_choice_dialog get_possible_resolutions
  interactive_check choose c new_flarm_id plane_id old_flarm_id =
      let check = started new_flarm_id plane_id old_flarm_id in
      checked choose check (find_conflicting_plane c check)

  -- The write to the conflicting plane, if there is one; `completes` says that the user does not
  -- cancel the update.
  unfoldable pub update_other : Bool → Plane → Option String → Objects → Objects × Bool
  unfolding plane_updated
  update_other completes other none c = (c, true)
  update_other completes other (some flarm_id) c =
      if completes
      then (plane_updated (record other { flarm_id = flarm_id }) c, true)
      else (c, false)

  -- The plane's new FLARM identifier, the new cache and the answer.
  unfoldable pub apply_resolution :
      Bool → FlarmIdCheck → Option Plane → String → Objects → String × Objects × Bool
  unfolding flarm_ids_for update_other
  apply_resolution completes check none flarm_id c = (check.new_flarm_id, c, true)
  apply_resolution completes check (some other) flarm_id c =
      let (this_id, other_id) = flarm_ids_for check check.selected_resolution in
      let (c', updated) = update_other completes other other_id c in
      (
        or_old this_id flarm_id,
        c',
        if updated then not (is_cancel check.selected_resolution) else false,
      )

  unfoldable pub interactive_apply :
      Bool → FlarmIdCheck → String → Objects → String × Objects × Bool
  unfolding apply_resolution
  interactive_apply completes check flarm_id c =
      apply_resolution completes check check.conflicting_plane flarm_id c
