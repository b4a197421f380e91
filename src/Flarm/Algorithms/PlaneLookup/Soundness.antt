-- ===== src/Flarm/Algorithms/PlaneLookup/Soundness.antt =====
-- What a plane lookup (src/flarm/algorithms/PlaneLookup.cpp) promises of its result.
use startkladde.Prelude.{
  ℕ, Bool, true, false, ◌||◌, ◌≡◌, ◌⊎◌, inl, inr, refl, String, Option, none, some, arith,
  Bool-cases, Option-cases, str_eq, str_eq_iff,
}
use startkladde.Qt.{Qt}
use startkladde.DbId.{id_valid}
use startkladde.Container.{Hash, nat_eq, string_eq}
use startkladde.Model.Plane.{Plane}
use startkladde.Model.FlarmNetRecord.{FlarmNetRecord}
use startkladde.Cache.Objects.{get_object, get_plane, get_plane_id_by_registration}
use startkladde.Cache.Planes.Consistency as Planes
use startkladde.Cache.Planes.Lookup.{get_plane_id_by_registration_lem}
use startkladde.Cache.Contents.{Contents}
use startkladde.Cache.FlarmIds.{
  IsFree, get_plane_id_by_flarm_id, get_plane_id_by_flarm_id_lem,
  get_flarm_net_record_id_by_flarm_id,
}
use startkladde.Flarm.Algorithms.PlaneLookup.{
  Result, result, nothing, is_empty, lookup_plane_by_flarm_id, matching, by_record,
  lookup_plane_by_flarm_net_database, lookup_plane, choose, is_some,
}

-- A found object has a valid identifier.
get_object-valid :
    {T : Type 0} (h : Hash ℕ T) (id : ℕ) (t : T) → get_object h id ≡ some t → id_valid id ≡ true
unfolding get_object
get_object-valid h id t e = ground arith

module _ ⦃q : Qt⦄ where
  open q use {to_lower}

  -- The plane of a result by way of a FlarmNet record.
  abbrev pub IsViaNet : Contents → String → Plane → Option FlarmNetRecord → Type 0
  IsViaNet c flarm_id p net =
      (r : FlarmNetRecord) × (net ≡ some r)
      × (get_plane c.objects (get_plane_id_by_registration c.objects r.registration) ≡ some p)
      × (to_lower p.registration ≡ to_lower r.registration)
      × ((p.flarm_id ≡ "") ⊎ (p.flarm_id ≡ flarm_id))

  -- What a result holds.
  abbrev pub IsNetResult : Contents → String → Option Plane → Option FlarmNetRecord → Type 0
  IsNetResult c flarm_id none net = Unit
  IsNetResult c flarm_id (some p) net = IsViaNet c flarm_id p net

  abbrev pub IsNet : Contents → String → Result → Type 0
  IsNet c flarm_id r = IsNetResult c flarm_id r.plane r.flarm_net_record

  module _ (c : Contents) (flarm_id : String) (v : Planes.IsConsistent c.objects) where
    matching-IsNet :
        (r : FlarmNetRecord) (p : Plane)
        → get_plane c.objects (get_plane_id_by_registration c.objects r.registration) ≡ some p
        → to_lower p.registration ≡ to_lower r.registration
        → IsNet c flarm_id (matching flarm_id r p)
    unfolding matching
    matching-IsNet r p e k = elim (Bool-cases (str_eq p.flarm_id "")) [
      | inl empty ↦ rw empty (r, refl, e, k, inl ((str_eq_iff p.flarm_id "").0 empty))
      | inr other ↦ elim (Bool-cases (str_eq p.flarm_id flarm_id)) [
        | inl same ↦ rw (other, same) (r, refl, e, k, inr ((str_eq_iff p.flarm_id flarm_id).0 same))
        | inr different ↦ rw (other, different) tt
      ]
    ]

    by_record-IsNet : (r : FlarmNetRecord) → IsNet c flarm_id (by_record c flarm_id r)
    unfolding by_record
    by_record-IsNet r = elim (Bool-cases (is_empty r.registration)) [
      | inl empty ↦ rw empty tt
      | inr full ↦ elim (get_plane_id_by_registration_lem c.objects r.registration v) [
        | inl (p, (e, k)) ↦
            let valid = get_object-valid c.objects.planes_by_id _ p e in
            rw (full, valid, e) (matching-IsNet r p e k)
        | inr (missing, free) ↦ rw (full, missing) tt
      ]
    ]

    lookup_plane_by_flarm_net_database-IsNet :
        IsNet c flarm_id (lookup_plane_by_flarm_net_database c flarm_id)
    unfolding lookup_plane_by_flarm_net_database
    lookup_plane_by_flarm_net_database-IsNet =
        elim (Bool-cases (id_valid (get_flarm_net_record_id_by_flarm_id c flarm_id))) [
          | inr invalid ↦ rw invalid tt
          | inl valid ↦
              rw valid
                (elim (Option-cases (
                  get_object c.flarm_net_records_by_id
                    (get_flarm_net_record_id_by_flarm_id c flarm_id))) [
                      | inl missing ↦ rw missing tt
                      | inr (r, e) ↦ rw e (by_record-IsNet r)
                    ])
        ]

    -- What the lookup in the planes gives.
    direct-cases :
        ((p : Plane) × (lookup_plane_by_flarm_id c flarm_id ≡ result (some p) none)
          × (get_plane c.objects (get_plane_id_by_flarm_id c.objects flarm_id) ≡ some p)
          × (p.flarm_id ≡ flarm_id))
        ⊎ ((lookup_plane_by_flarm_id c flarm_id ≡ nothing) × IsFree c.objects flarm_id)
    unfolding lookup_plane_by_flarm_id
    direct-cases = elim (get_plane_id_by_flarm_id_lem c.objects flarm_id v) [
      | inl (p, e, k) ↦ inl (p, rw (get_object-valid c.objects.planes_by_id _ p e, e) refl, e, k)
      | inr (missing, free) ↦ inr (rw missing refl, free)
    ]

  choose-some :
      (p : Plane) (flarm_net_enabled : Bool) (n : Result)
      → choose (result (some p) none) flarm_net_enabled n ≡ result (some p) none
  unfolding choose
  choose-some p flarm_net_enabled n = refl

  -- Where nothing was found directly.
  choose-nothing :
      (c : Contents) (flarm_id : String) (flarm_net_enabled : Bool) (n : Result)
      → IsNet c flarm_id n
      → IsNet c flarm_id (choose nothing flarm_net_enabled n)
        × ((flarm_net_enabled ≡ true) ⊎ (choose nothing flarm_net_enabled n ≡ nothing))
  unfolding choose
  choose-nothing c flarm_id false n h = (tt, inr refl)
  choose-nothing c flarm_id true n h = (
    elim (Bool-cases (is_some n.plane || is_some n.flarm_net_record)) [
      | inl something ↦ rw something h
      | inr empty ↦ rw empty tt
    ],
    inl refl,
  )

  -- In a consistent cache, a plane lookup gives a plane of the cache with the FLARM identifier and
  -- no FlarmNet record, or no plane of the cache has the FLARM identifier. In that case a plane that
  -- it gives comes with a FlarmNet record of the plane's registration, and has no FLARM identifier
  -- or the right one; and without FlarmNet it gives nothing at all.
  pub lookup_plane_lem :
      (flarm_net_enabled : Bool) (c : Contents) (flarm_id : String)
      → Planes.IsConsistent c.objects
      → ((p : Plane) × (lookup_plane flarm_net_enabled c flarm_id ≡ result (some p) none)
          × (get_plane c.objects (get_plane_id_by_flarm_id c.objects flarm_id) ≡ some p)
          × (p.flarm_id ≡ flarm_id))
        ⊎ (IsFree c.objects flarm_id
            × IsNet c flarm_id (lookup_plane flarm_net_enabled c flarm_id)
            × ((flarm_net_enabled ≡ true) ⊎ (lookup_plane flarm_net_enabled c flarm_id ≡ nothing)))
  unfolding lookup_plane
  lookup_plane_lem flarm_net_enabled c flarm_id v = elim (direct-cases c flarm_id v) [
    | inl (p, e, at_id, same) ↦ inl (
      p,
      rw e (choose-some p flarm_net_enabled (lookup_plane_by_flarm_net_database c flarm_id)),
      at_id,
      same,
    )
    | inr (e, free) ↦
        let (net, off) =
          choose-nothing c flarm_id flarm_net_enabled
            (lookup_plane_by_flarm_net_database c flarm_id)
            (lookup_plane_by_flarm_net_database-IsNet c flarm_id v) in
        inr (free, rw e net, rw e off)
  ]
