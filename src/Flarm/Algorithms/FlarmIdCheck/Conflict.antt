-- ===== src/Flarm/Algorithms/FlarmIdCheck/Conflict.antt =====
-- Which plane is found to conflict (src/flarm/algorithms/FlarmIdCheck.cpp, findConflictingPlane).
use startkladde.Prelude.{
  ℕ, ◌==◌, true, false, ◌≡◌, ◌⊎◌, inl, inr, refl, String, [], ◌∷◌, none, some, arith, Bool-cases,
  Option-cases, ==_iff,
}
use startkladde.Qt.{Qt}
use startkladde.Text.{is_blank}
use startkladde.Container.{Hash, nat_eq, string_eq, values, contains_pair}
use startkladde.Model.Plane.{Plane}
use startkladde.Cache.Objects.{Objects, get_plane}
use startkladde.Cache.Planes.Consistency as Planes
use startkladde.Cache.Planes.Consistency.{get_object-value}
use startkladde.Cache.FlarmIds.{get_plane_ids_by_flarm_id, paired_plane}
use startkladde.Flarm.Algorithms.FlarmIdCheck.{FlarmIdCheck, find_other, find_conflicting_plane}

-- A plane other than the edited one that has the key.
module _ (c : Objects) (plane_id : ℕ) (k : String) where
  find_other-some :
      (h : Hash String ℕ) (p : Plane)
      → find_other c plane_id (values k h) ≡ some p
      → (id : ℕ) × ((id == plane_id) ≡ false)
        × (contains_pair k id h ≡ true)
        × (get_plane c id ≡ some p)
  unfolding find_other values contains_pair
  find_other-some [] p e = cc
  find_other-some ((j, id) ∷ h) p e = elim (Bool-cases (string_eq.eq j k)) [
    | inr other ↦
        let (i, ne, there, at_i) = find_other-some h p (ground arith) in (i, ne, ground arith, at_i)
    | inl same ↦ elim (Bool-cases (id == plane_id)) [
      | inl edited ↦
          let (i, ne, there, at_i) = find_other-some h p (ground arith) in
          (i, ne, ground arith, at_i)
      | inr ne ↦ elim (Option-cases (get_plane c id)) [
        | inl missing ↦
            let (i, ne', there, at_i) = find_other-some h p (ground arith) in
            (i, ne', ground arith, at_i)
        | inr (r, at_id) ↦ (id, ne, ground arith, ground arith)
      ]
    ]
  ]

  find_other-none :
      (h : Hash String ℕ) (id : ℕ) (p : Plane)
      → find_other c plane_id (values k h) ≡ none
      → contains_pair k id h ≡ true
      → get_plane c id ≡ some p
      → (id == plane_id) ≡ true
  unfolding find_other values contains_pair
  find_other-none [] id p e there at_id = cc
  find_other-none ((j, i) ∷ h) id p e there at_id =
      ground (arith, find_other-none h id p, ==_iff i id)

module _ ⦃q : Qt⦄ where
  -- No other plane of the cache has the new FLARM identifier.
  abbrev pub IsUnused : Objects → String → ℕ → Type 0
  IsUnused c flarm_id plane_id =
      (id : ℕ) (p : Plane) → get_plane c id ≡ some p → p.flarm_id ≡ flarm_id → id ≡ plane_id

  -- The plane is in conflict: it is in the cache, is not the edited one and has the identifier.
  abbrev pub IsConflict : Objects → String → ℕ → ℕ → Plane → Type 0
  IsConflict c flarm_id plane_id id p =
      ((id == plane_id) ≡ false) × (get_plane c id ≡ some p) × (p.flarm_id ≡ flarm_id)

  -- In a consistent cache, the search for a conflict finds a plane that is in conflict, or there is
  -- none: the new FLARM identifier is blank, or no other plane has it.
  pub find_conflicting_plane_lem :
      (c : Objects) (check : FlarmIdCheck)
      → Planes.IsConsistent c
      → ((find_conflicting_plane c check ≡ none)
          × ((is_blank check.new_flarm_id ≡ true) ⊎ IsUnused c check.new_flarm_id check.plane_id))
        ⊎ ((p : Plane) × (find_conflicting_plane c check ≡ some p)
            × (is_blank check.new_flarm_id ≡ false)
            × ((id : ℕ) × IsConflict c check.new_flarm_id check.plane_id id p))
  unfolding find_conflicting_plane get_plane_ids_by_flarm_id
  find_conflicting_plane_lem c check v = elim (Bool-cases (is_blank check.new_flarm_id)) [
    | inl blank ↦ inl (rw blank refl, inl blank)
    | inr text ↦
        elim (Option-cases
          (find_other c check.plane_id (values check.new_flarm_id c.plane_ids_by_flarm_id))) [
            | inl missing ↦ inl (
              rw (text, missing) refl,
              inr (λ id p at_id same. (==_iff id check.plane_id).0 (
                  find_other-none c check.plane_id check.new_flarm_id c.plane_ids_by_flarm_id id p
                    missing
                    (ground (
                      arith,
                      v.flarm_ids check.new_flarm_id id,
                      get_object-value c.planes_by_id id v.no_invalid,
                      string_eq.eq_iff p.flarm_id check.new_flarm_id,
                    ))
                    at_id)),
            )
            | inr (p, e) ↦
                let (id, ne, there, at_id) =
                  find_other-some c check.plane_id check.new_flarm_id c.plane_ids_by_flarm_id p e in
                let (p', at_id', same) = paired_plane c check.new_flarm_id v id there in
                inr (p, rw (text, e) refl, text, (id, (ne, at_id, ground arith)))
          ]
  ]
