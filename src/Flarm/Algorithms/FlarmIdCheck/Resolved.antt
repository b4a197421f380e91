-- ===== src/Flarm/Algorithms/FlarmIdCheck/Resolved.antt =====
-- No two planes share a FLARM identifier after an update of a plane
-- (src/flarm/algorithms/FlarmIdUpdate.cpp, checkAndUpdate).
use startkladde.Prelude.{
  ℕ, ◌==◌, Bool, true, false, ◌≡◌, ◌≢◌, ◌⊎◌, inl, inr, refl, sym, ◌∙◌, ap, String, none, some,
  arith, if◌then◌else◌, Bool-cases, Option-cases, ==_iff, str_eq, str_eq_iff,
}
use startkladde.Qt.{Qt}
use startkladde.DbId.{id_valid, id_invalid}
use startkladde.Text.{is_blank}
use startkladde.Container.{Hash, nat_eq, value, insert}
use startkladde.Container.Laws.{value-insert, value-absent}
use startkladde.Model.Plane.{Plane}
use startkladde.Cache.Objects.{Objects, get_plane, get_object}
use startkladde.Cache.Planes.{
  plane_updated, update_hashes_plane_updated, update_hashes_plane_added,
  update_hashes_plane_deleted,
}
use startkladde.Cache.Planes.Consistency as Planes
use startkladde.Flarm.Algorithms.FlarmIdCheck.{
  Resolution, ResolutionSet, FlarmIdCheck, clear, swap, keep, ignore, cancel,
  get_possible_resolutions, show_choice_dialog, flarm_ids_for, interactive_check, update_other,
  apply_resolution, interactive_apply, started,
}
use startkladde.Flarm.Algorithms.FlarmIdCheck.Update.{User, update_plane, check_and_update}
use startkladde.Flarm.Algorithms.FlarmIdCheck.Conflict.{
  IsUnused, IsConflict, find_conflicting_plane_lem,
}
use startkladde.Flarm.Algorithms.FlarmIdCheck.Uniqueness.{
  PlaneTable, put, IsUnique, IsOwn, IsUnique-put, IsUnique-put_both,
}

-- Looking up an identifier reads the hash, unless the identifier is invalid.
get_object-hash :
    {T : Type 0} (h : Hash ℕ T) (id : ℕ)
    → get_object h id ≡ (if id_invalid id then none else value id h)
unfolding get_object
get_object-hash h id = ground (arith, value-absent id h)

get_object-insert :
    {T : Type 0} (h : Hash ℕ T) (id i : ℕ) (t : T)
    → id_valid id ≡ true
    → get_object (insert id t h) i ≡ (if id == i then some t else get_object h i)
get_object-insert h id i t n =
    ground (arith, get_object-hash (insert id t h) i, get_object-hash h i, value-insert id i t h)

module _ ⦃q : Qt⦄ where
  planes_by_id-updated :
      (p : Plane) (c : Objects) → (plane_updated p c).planes_by_id ≡ insert p.id p c.planes_by_id
  unfolding plane_updated update_hashes_plane_updated update_hashes_plane_added
      update_hashes_plane_deleted
  planes_by_id-updated p c = elim (Option-cases (get_plane c p.id)) [
    | inl e ↦ rw e refl
    | inr (old, e) ↦ rw e refl
  ]

  pub get_plane-updated :
      (p : Plane) (c : Objects) (i : ℕ)
      → id_valid p.id ≡ true
      → get_plane (plane_updated p c) i ≡ put p.id p (get_plane c) i
  get_plane-updated p c i n =
      ap (λ h. get_object h i) (planes_by_id-updated p c)
      ∙ get_object-insert c.planes_by_id p.id i p n

  IsUnique-same : (f g : PlaneTable) → ((i : ℕ) → f i ≡ g i) → IsUnique g → IsUnique f
  IsUnique-same f g same u i j p r at_i at_j e =
      u i j p r (sym (same i) ∙ at_i) (sym (same j) ∙ at_j) e

  -- One plane is updated, or another one first.
  updated_once :
      (c : Objects) (p : Plane)
      → id_valid p.id ≡ true
      → IsUnique (get_plane c)
      → IsOwn (get_plane c) p.flarm_id p.id
      → IsUnique (get_plane (plane_updated p c))
  updated_once c p n u own =
      IsUnique-same _ (put p.id p (get_plane c)) (λ i. get_plane-updated p c i n)
        (IsUnique-put (get_plane c) p.id p u own)

  updated_both :
      (c : Objects) (p o : Plane)
      → id_valid p.id ≡ true
      → id_valid o.id ≡ true
      → IsUnique (put p.id p (put o.id o (get_plane c)))
      → IsUnique (get_plane (plane_updated p (plane_updated o c)))
  updated_both c p o n m u =
      IsUnique-same _ (put p.id p (put o.id o (get_plane c)))
        (λ i.
          get_plane-updated p (plane_updated o c) i n
          ∙ ap (λ x. if p.id == i then some p else x) (get_plane-updated o c i m))
        u

  -- The edited plane is in the cache, whose planes are known under their identifiers, no two of
  -- which share a FLARM identifier.
  pub record IsEdited (c : Objects) (plane : Plane) : Type 0 where
    pub there : get_plane c plane.id ≡ some plane
    pub keyed : (id : ℕ) (p : Plane) → get_plane c id ≡ some p → p.id ≡ id
    pub unique : IsUnique (get_plane c)
    pub empty_is_blank : is_blank "" ≡ true

  get_plane-valid :
      (c : Objects) (id : ℕ) (p : Plane) → get_plane c id ≡ some p → id_valid id ≡ true
  unfolding get_object
  get_plane-valid c id p e = ground arith

  module _ (c : Objects) (plane : Plane) (flarm_id : String) (h : IsEdited c plane)
      (user : User) where
    abbrev updated : Plane
    updated = record plane { flarm_id = flarm_id }

    plane_valid : id_valid plane.id ≡ true
    plane_valid = get_plane-valid c plane.id plane h.there

    module _ (o : Plane) (id : ℕ) (k : IsConflict c flarm_id plane.id id o)
        (text : is_blank flarm_id ≡ false) where
      other_id : o.id ≡ id
      other_id = h.keyed id o k.1

      other_valid : id_valid o.id ≡ true
      other_valid = ap id_valid other_id ∙ get_plane-valid c id o k.1

      apart : (o.id == plane.id) ≡ false
      apart = ap (λ i. i == plane.id) other_id ∙ k.0

      -- Nobody else has the new FLARM identifier.
      mine :
          (j : ℕ) (r : Plane)
          → get_plane c j ≡ some r
          → r.flarm_id ≡ flarm_id
          → (j ≡ plane.id) ⊎ (j ≡ o.id)
      mine j r at_j same = ground (arith, h.unique j id r o at_j k.1 (same ∙ sym k.2), other_id)

      -- The new FLARM identifier is not the plane's old one.
      changes : str_eq flarm_id plane.flarm_id ≡ false
      changes = ground (
        arith,
        h.unique id plane.id o plane k.1 h.there,
        str_eq_iff flarm_id plane.flarm_id,
        ==_iff id plane.id,
      )

      abbrev given : Resolution → FlarmIdCheck
      given resolution = record (started flarm_id plane.id plane.flarm_id) {
        conflicting_plane = some o;
        selected_resolution = resolution;
      }

      abbrev outcome : Resolution → Objects × Bool
      outcome resolution =
          update_plane user.plane_completes plane plane.flarm_id
            (apply_resolution user.other_completes (given resolution) (some o) plane.flarm_id c)

      both_completed :
          (s : String)
          → (is_blank s ≡ true) ⊎ (s ≡ plane.flarm_id)
          → IsUnique
              (get_plane (plane_updated updated (plane_updated (record o { flarm_id = s }) c)))
      both_completed s (inl blank) =
          updated_both c updated (record o { flarm_id = s }) plane_valid other_valid
            (IsUnique-put_both (get_plane c) plane.id o.id updated (record o { flarm_id = s })
              h.unique apart mine (inl blank) (inl blank) text)
      both_completed s (inr old) =
          updated_both c updated (record o { flarm_id = s }) plane_valid other_valid
            (elim (Bool-cases (is_blank s)) [
              | inl blank ↦
                  IsUnique-put_both (get_plane c) plane.id o.id updated (record o { flarm_id = s })
                    h.unique apart mine (inl blank) (inl blank) text
              | inr written ↦
                  IsUnique-put_both (get_plane c) plane.id o.id updated (record o { flarm_id = s })
                    h.unique apart mine
                    (inr
                      (λ j r at_j same. ground (arith, h.unique j plane.id r plane at_j h.there)))
                    (inr (ground (arith, changes, str_eq_iff flarm_id plane.flarm_id))) text
            ])

      -- An answer of true, unless the conflict is ignored, leaves no shared FLARM identifier.
      outcome-IsUnique :
          (resolution : Resolution)
          → resolution ≢ ignore
          → (outcome resolution).1 ≡ true
          → IsUnique (get_plane (outcome resolution).0)
      unfolding update_plane apply_resolution flarm_ids_for update_other
      outcome-IsUnique clear n e = elim (Bool-cases user.other_completes) [
        | inl oc ↦ elim (Bool-cases user.plane_completes) [
          | inl pc ↦ rw (oc, changes, pc) (both_completed "" (inl h.empty_is_blank))
          | inr pc ↦ ground (arith, changes)
        ]
        | inr oc ↦ ground arith
      ]
      outcome-IsUnique swap n e = elim (Bool-cases user.other_completes) [
        | inl oc ↦ elim (Bool-cases user.plane_completes) [
          | inl pc ↦ rw (oc, changes, pc) (both_completed plane.flarm_id (inr refl))
          | inr pc ↦ ground (arith, changes)
        ]
        | inr oc ↦ ground arith
      ]
      outcome-IsUnique keep n e =
          let same : str_eq plane.flarm_id plane.flarm_id ≡ true =
            (str_eq_iff plane.flarm_id plane.flarm_id).1 refl in
          rw same h.unique
      outcome-IsUnique ignore n e = elim (n refl) [ ]
      outcome-IsUnique cancel n e = ground arith

    -- Where no plane is in conflict.
    unopposed :
        (is_blank flarm_id ≡ true) ⊎ IsUnused c flarm_id plane.id
        → IsUnique (
            get_plane
              (update_plane user.plane_completes plane plane.flarm_id (flarm_id, c, true)).0)
    unfolding update_plane
    unopposed own = elim (Bool-cases (str_eq flarm_id plane.flarm_id)) [
      | inl same ↦ rw same h.unique
      | inr other ↦ elim (Bool-cases user.plane_completes) [
        | inl pc ↦ rw (other, pc) (updated_once c updated plane_valid h.unique own)
        | inr pc ↦ rw (other, pc) h.unique
      ]
    ]

    -- The resolution that is selected.
    selected : Plane → Resolution
    selected o =
        show_choice_dialog user.choose (some o)
          (get_possible_resolutions (started flarm_id plane.id plane.flarm_id))

    selected-ne-ignore :
        (o : Plane) → ((s : ResolutionSet) → user.choose s ≢ some ignore) → selected o ≢ ignore
    unfolding selected show_choice_dialog
    selected-ne-ignore o n e =
        elim (Option-cases
          (user.choose (get_possible_resolutions (started flarm_id plane.id plane.flarm_id)))) [
            | inl none_chosen ↦ ground arith
            | inr (r, chosen) ↦
                ground
                  (arith, n (get_possible_resolutions (started flarm_id plane.id plane.flarm_id)))
          ]

    resolved :
        ((s : ResolutionSet) → user.choose s ≢ some ignore)
        → Planes.IsConsistent c
        → (check_and_update user plane flarm_id c).1 ≡ true
        → IsUnique (get_plane (check_and_update user plane flarm_id c).0)
    unfolding check_and_update interactive_check interactive_apply selected apply_resolution
    resolved n v e =
        elim (find_conflicting_plane_lem c (started flarm_id plane.id plane.flarm_id) v) [
          | inl (missing, own) ↦ rw missing (unopposed own)
          | inr (o, found, text, (id, k)) ↦
              rw found
                (outcome-IsUnique o id k text (selected o) (selected-ne-ignore o n) (rw found at e))
        ]

  -- A FLARM identifier that a plane of the cache takes over from a flight, with the checks for
  -- conflicts and the resolutions that the user chooses, is shared by no two planes afterwards, if
  -- it answers true, no two planes shared one before and the user never chooses to ignore a
  -- conflict. Blank identifiers do not count.
  pub check_and_update-IsUnique :
      (user : User) (c : Objects) (plane : Plane) (flarm_id : String)
      → Planes.IsConsistent c
      → IsEdited c plane
      → ((s : ResolutionSet) → user.choose s ≢ some ignore)
      → (check_and_update user plane flarm_id c).1 ≡ true
      → IsUnique (get_plane (check_and_update user plane flarm_id c).0)
  check_and_update-IsUnique user c plane flarm_id v h n e = resolved c plane flarm_id h user n v e
