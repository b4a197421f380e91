-- ===== src/Flarm/Algorithms/PlaneLookup.antt =====
-- src/flarm/algorithms/PlaneLookup.cpp: the plane of a FLARM identifier.
pub mod Soundness
use startkladde.Prelude.{
  ℕ, Bool, not, ◌&&◌, ◌≡◌, true, false, ◌||◌, String, Option, none, some, if◌then◌else◌, str_eq,
}
use startkladde.Qt.{Qt}
use startkladde.DbId.{id_valid}
use startkladde.Model.Plane.{Plane}
use startkladde.Model.FlarmNetRecord.{FlarmNetRecord}
use startkladde.Cache.Objects.{get_object, get_plane, get_plane_id_by_registration}
use startkladde.Cache.Contents.{Contents}
use startkladde.Cache.FlarmIds.{get_plane_id_by_flarm_id, get_flarm_net_record_id_by_flarm_id}

pub record Result : Type 0 where
  pub plane : Option Plane
  pub flarm_net_record : Option FlarmNetRecord

abbrev pub result : Option Plane → Option FlarmNetRecord → Result
result plane flarm_net_record = record { plane = plane; flarm_net_record = flarm_net_record }

abbrev pub nothing : Result
nothing = result none none

-- The rest of a `try` block after `getObject`; a NotFoundException gives nothing.
abbrev pub found : {T : Type 0} → Option T → (T → Result) → Result
found none rest = nothing
found (some t) rest = rest t

abbrev pub is_empty : String → Bool
is_empty s = str_eq s ""

module _ ⦃q : Qt⦄ where
  unfoldable pub lookup_plane_by_flarm_id : Contents → String → Result
  lookup_plane_by_flarm_id c flarm_id =
      let plane_id = get_plane_id_by_flarm_id c.objects flarm_id in
      if id_valid plane_id
      then found (get_plane c.objects plane_id) (λ plane. result (some plane) none)
      else nothing

  -- With the FlarmNet record's plane, which was found.
  unfoldable pub matching : String → FlarmNetRecord → Plane → Result
  matching flarm_id flarm_net_record plane =
      if not (is_empty plane.flarm_id) && not (str_eq plane.flarm_id flarm_id)
      then nothing
      else result (some plane) (some flarm_net_record)

  -- With the FlarmNet record, which was found.
  unfoldable pub by_record : Contents → String → FlarmNetRecord → Result
  unfolding matching
  by_record c flarm_id flarm_net_record =
      let plane_id = get_plane_id_by_registration c.objects flarm_net_record.registration in
      if is_empty flarm_net_record.registration
      then nothing
      else if not (id_valid plane_id)
      then result none (some flarm_net_record)
      else found (get_plane c.objects plane_id) (matching flarm_id flarm_net_record)

  unfoldable pub lookup_plane_by_flarm_net_database : Contents → String → Result
  unfolding by_record
  lookup_plane_by_flarm_net_database c flarm_id =
      let flarm_net_record_id = get_flarm_net_record_id_by_flarm_id c flarm_id in
      if not (id_valid flarm_net_record_id)
      then nothing
      else found (get_object c.flarm_net_records_by_id flarm_net_record_id) (by_record c flarm_id)

  abbrev pub is_some : {T : Type 0} → Option T → Bool
  is_some none = false
  is_some (some t) = true

  -- The choice between the plane that is found directly and what FlarmNet gives.
  unfoldable pub choose : Result → Bool → Result → Result
  choose direct flarm_net_enabled via_net =
      if is_some direct.plane
      then direct
      else if flarm_net_enabled && (is_some via_net.plane || is_some via_net.flarm_net_record)
      then via_net
      else nothing

  -- `flarm_net_enabled` is the setting.
  unfoldable pub lookup_plane : Bool → Contents → String → Result
  unfolding choose lookup_plane_by_flarm_id lookup_plane_by_flarm_net_database
  lookup_plane flarm_net_enabled c flarm_id =
      choose (lookup_plane_by_flarm_id c flarm_id) flarm_net_enabled
        (lookup_plane_by_flarm_net_database c flarm_id)
