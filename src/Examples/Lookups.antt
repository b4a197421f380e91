-- ===== src/Examples/Lookups.antt =====
-- Lookups by FLARM identifier, and updates of it.
use startkladde.Prelude.{
  ℕ, Bool, true, false, ◌≡◌, ◌⊎◌, inl, inr, refl, sym, ◌∙◌, [], ◌∷◌, some, none, arith, String, ◌≢◌,
  List, str_eq, str_eq_iff,
}
use startkladde.Container.{nat_eq, string_eq, value, values, contains, contains_pair}
use startkladde.Text.{is_blank}
use startkladde.Model.Plane.{Plane}
use startkladde.Flight.{Flight, initialize}
use startkladde.FlightReference.{reference_to}
use startkladde.Cache.Objects.{Objects, get_object, get_plane}
use startkladde.Cache.Planes.Consistency as Planes
use startkladde.Cache.FlarmIds.{IsFree, get_plane_id_by_flarm_id, get_plane_ids_by_flarm_id}
use startkladde.Flarm.Algorithms.PlaneLookup.{lookup_plane, result, nothing}
use startkladde.Flarm.Algorithms.PlaneLookup.Soundness.{IsNet, lookup_plane_lem}
use startkladde.Flarm.Algorithms.FlightLookup.{lookup_flight, result as flight_result}
use startkladde.Flarm.Algorithms.FlightLookup.Choice.{
  IsFirst, IsLacking, IsByPlane, has_flarm_id, lookup_flight_lem,
}
use startkladde.Flarm.Algorithms.FlarmIdCheck.{
  Resolution, clear, swap, find_conflicting_plane, find_other, update_other, interactive_check,
  interactive_apply, apply_resolution, show_choice_dialog, flarm_ids_for, get_possible_resolutions,
}
use startkladde.Flarm.Algorithms.FlarmIdCheck.Update.{User, update, update_plane, check_and_update}
use startkladde.Flarm.Algorithms.FlarmIdCheck.Uniqueness.{IsUnique}
use startkladde.Flarm.Algorithms.FlarmIdCheck.Resolved.{IsEdited, check_and_update-IsUnique}
use startkladde.Flarm.Algorithms.FlarmIdCheck.Canceled.{check_and_update_canceled}
use startkladde.Examples.Setting.{seconds, contents, objects, towplane, glider, prepared}
use startkladde.Examples.Objects.{planes-IsConsistent}

lookup_plane_lem_example :
    ((p : Plane) × (lookup_plane true contents "DDA456" ≡ result (some p) none)
      × (get_plane objects (get_plane_id_by_flarm_id objects "DDA456") ≡ some p)
      × (p.flarm_id ≡ "DDA456"))
    ⊎ (IsFree objects "DDA456"
        × IsNet contents "DDA456" (lookup_plane true contents "DDA456")
        × ((true ≡ true) ⊎ (lookup_plane true contents "DDA456" ≡ nothing)))
lookup_plane_lem_example = lookup_plane_lem true contents "DDA456" planes-IsConsistent

-- A prepared flight of the glider, which FlarmNet knows.
abbrev candidates : List (Flight ℕ)
candidates = prepared 7 ∷ []

lookup_flight_lem_example :
    ((f : Flight ℕ) × IsFirst (has_flarm_id "DDA456") candidates f
      × (lookup_flight true contents candidates "DDA456"
          ≡ flight_result (reference_to f) none none))
    ⊎ (IsLacking (has_flarm_id "DDA456") candidates
        × IsByPlane candidates
            (lookup_plane true contents "DDA456").plane
            (lookup_plane true contents "DDA456").flarm_net_record
            (lookup_flight true contents candidates "DDA456"))
unfolding initialize
lookup_flight_lem_example = lookup_flight_lem true contents candidates "DDA456" (refl, tt)

-- The towplane and the glider with FLARM identifiers.
abbrev tow_flarm : Plane
tow_flarm = record towplane { flarm_id = "DD0001" }

abbrev glider_flarm : Plane
glider_flarm = record glider { flarm_id = "DD0002" }

abbrev fleet : Objects
fleet = record objects {
  planes = tow_flarm ∷ glider_flarm ∷ [];
  planes_by_id = (5, tow_flarm) ∷ (6, glider_flarm) ∷ [];
  plane_ids_by_flarm_id = ("DD0001", 5) ∷ ("DD0002", 6) ∷ [];
}

fleet-IsConsistent : Planes.IsConsistent fleet
unfolding value contains_pair
fleet-IsConsistent = record {
  listed = (refl, (refl, tt));
  no_invalid = refl;
  registrations = λ k id. ground arith;
  flarm_ids = λ k id. ground arith;
}

abbrev user_with : Resolution → Bool → User
user_with resolution completes = record {
  choose = λ s. some resolution;
  query = update;
  other_completes = true;
  plane_completes = completes;
}

-- What the lookups find.
fleet_planes :
    (id : ℕ) (p : Plane)
    → get_plane fleet id ≡ some p
    → ((id ≡ 5) × (p.flarm_id ≡ "DD0001")) ⊎ ((id ≡ 6) × (p.flarm_id ≡ "DD0002"))
unfolding get_object value contains
fleet_planes id p e = ground arith

apart : (a b : String) → str_eq a b ≡ false → a ≢ b
apart a b h e = ground (arith, str_eq_iff a b)

fleet-IsUnique : IsUnique (get_plane fleet)
fleet-IsUnique i j p r e k same = elim (fleet_planes i p e) [
  | inl (i5, p5) ↦ elim (fleet_planes j r k) [
    | inl (j5, r5) ↦ inl (i5 ∙ sym j5)
    | inr (j6, r6) ↦ elim (apart "DD0001" "DD0002" refl (sym p5 ∙ same ∙ r6)) [ ]
  ]
  | inr (i6, p6) ↦ elim (fleet_planes j r k) [
    | inl (j5, r5) ↦ elim (apart "DD0001" "DD0002" refl (sym r5 ∙ sym same ∙ p6)) [ ]
    | inr (j6, r6) ↦ inl (i6 ∙ sym j6)
  ]
]

glider-IsEdited : IsEdited fleet glider_flarm
unfolding get_object value contains is_blank
glider-IsEdited = record {
  there = refl;
  keyed = λ id p e. ground arith;
  unique = fleet-IsUnique;
  empty_is_blank = refl;
}

check_and_update-IsUnique_example :
    IsUnique (get_plane (check_and_update (user_with clear true) glider_flarm "DD0001" fleet).0)
unfolding check_and_update update_plane apply_resolution flarm_ids_for update_other
    interactive_check interactive_apply show_choice_dialog find_conflicting_plane find_other
    get_plane_ids_by_flarm_id values get_object value contains is_blank get_possible_resolutions
check_and_update-IsUnique_example =
    check_and_update-IsUnique (user_with clear true) fleet glider_flarm "DD0001" fleet-IsConsistent
      glider-IsEdited (λ s e. cc e) refl

check_and_update_canceled_example :
    ((check_and_update (user_with swap false) glider_flarm "DD0001" fleet).1 ≡ false)
    × (get_plane (check_and_update (user_with swap false) glider_flarm "DD0001" fleet).0 5
        ≡ some (record tow_flarm { flarm_id = "DD0002" }))
    × (get_plane (check_and_update (user_with swap false) glider_flarm "DD0001" fleet).0 6
        ≡ some glider_flarm)
unfolding find_conflicting_plane find_other get_plane_ids_by_flarm_id values get_object value
    contains is_blank
check_and_update_canceled_example =
    check_and_update_canceled (user_with swap false) fleet glider_flarm tow_flarm "DD0001"
      (record { swaps = λ s. refl; first = refl; second = refl }) refl refl refl refl refl
