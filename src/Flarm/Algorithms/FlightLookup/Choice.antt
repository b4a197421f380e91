-- ===== src/Flarm/Algorithms/FlightLookup/Choice.antt =====
-- Which candidate a flight lookup (src/flarm/algorithms/FlightLookup.cpp) chooses.
use startkladde.Prelude.{
  ◌==◌, Bool, true, false, ◌≡◌, ◌⊎◌, inl, inr, refl, ap, ◌∙◌, String, [], ◌∷◌, Option, none, some,
  if◌then◌else◌, Bool-cases, str_eq,
}
use startkladde.Prelude.All.{All}
use startkladde.Qt.{Qt}
use startkladde.DbId.{id_valid}
use startkladde.Flight.{Flight}
use startkladde.FlightReference.{reference_to, invalid}
use startkladde.Model.Plane.{Plane}
use startkladde.Model.FlarmNetRecord.{FlarmNetRecord}
use startkladde.Cache.Contents.{Contents}
use startkladde.Flarm.Algorithms.PlaneLookup.{lookup_plane}
use startkladde.Flarm.Algorithms.FlightLookup.{
  Candidates, Result, result, nothing, lookup_flight_by_flarm_id, flight_of_plane, by_plane_result,
  lookup_flight_by_plane, first_valid, lookup_flight,
}

module _ ⦃q : Qt⦄ where
  open q use {DateTime}

  -- The first candidate that passes a test.
  abbrev pub IsFirst : (Flight DateTime → Bool) → Candidates → Flight DateTime → Type 0
  IsFirst test [] f = ⊥
  IsFirst test (g ∷ candidates) f = if test g then f ≡ g else IsFirst test candidates f

  abbrev pub has_flarm_id : String → Flight DateTime → Bool
  has_flarm_id flarm_id f = str_eq f.flarm_id flarm_id

  abbrev pub has_plane : Plane → Flight DateTime → Bool
  has_plane plane f = f.plane_id == plane.id

  abbrev pub IsLacking : (Flight DateTime → Bool) → Candidates → Type 0
  IsLacking test candidates = All (λ f. test f ≡ false) candidates

  direct-cases :
      (candidates : Candidates) (flarm_id : String)
      → ((f : Flight DateTime) × IsFirst (has_flarm_id flarm_id) candidates f
          × (lookup_flight_by_flarm_id candidates flarm_id ≡ result (reference_to f) none none))
        ⊎ (IsLacking (has_flarm_id flarm_id) candidates
            × (lookup_flight_by_flarm_id candidates flarm_id ≡ nothing))
  unfolding lookup_flight_by_flarm_id
  direct-cases [] flarm_id = inr (tt, refl)
  direct-cases (g ∷ gs) flarm_id = elim (Bool-cases (str_eq g.flarm_id flarm_id)) [
    | inl same ↦ inl (g, rw same refl, rw same refl)
    | inr other ↦ elim (direct-cases gs flarm_id) [
      | inl (f, first, e) ↦ inl (f, rw other first, rw other e)
      | inr (lacking, e) ↦ inr ((other, lacking), rw other e)
    ]
  ]

  plane-cases :
      (candidates : Candidates) (plane : Plane) (net : Option FlarmNetRecord)
      → ((f : Flight DateTime) × IsFirst (has_plane plane) candidates f
          × (flight_of_plane candidates plane net ≡ result (reference_to f) (some plane) net))
        ⊎ (IsLacking (has_plane plane) candidates
            × (flight_of_plane candidates plane net ≡ result invalid (some plane) net))
  unfolding flight_of_plane
  plane-cases [] plane net = inr (tt, refl)
  plane-cases (g ∷ gs) plane net = elim (Bool-cases (g.plane_id == plane.id)) [
    | inl same ↦ inl (g, rw same refl, rw same refl)
    | inr other ↦ elim (plane-cases gs plane net) [
      | inl (f, first, e) ↦ inl (f, rw other first, rw other e)
      | inr (lacking, e) ↦ inr ((other, lacking), rw other e)
    ]
  ]

  -- What the second criterion gives, for the result of the plane lookup.
  abbrev pub IsByPlane : Candidates → Option Plane → Option FlarmNetRecord → Result → Type 0
  IsByPlane candidates none net r = r ≡ result invalid none net
  IsByPlane candidates (some plane) net r =
      ((f : Flight DateTime) × IsFirst (has_plane plane) candidates f
        × (r ≡ result (reference_to f) (some plane) net))
      ⊎ (IsLacking (has_plane plane) candidates × (r ≡ result invalid (some plane) net))

  by_plane_result-IsByPlane :
      (candidates : Candidates) (plane : Option Plane) (net : Option FlarmNetRecord)
      → IsByPlane candidates plane net (by_plane_result candidates plane net)
  unfolding by_plane_result
  by_plane_result-IsByPlane candidates none net = refl
  by_plane_result-IsByPlane candidates (some plane) net = plane-cases candidates plane net

  IsFirst-valid :
      (test : Flight DateTime → Bool) (candidates : Candidates) (f : Flight DateTime)
      → All (λ g. id_valid g.id ≡ true) candidates
      → IsFirst test candidates f
      → id_valid f.id ≡ true
  IsFirst-valid test [] f h k = elim k [ ]
  IsFirst-valid test (g ∷ gs) f h k = elim (Bool-cases (test g)) [
    | inl passes ↦ ap (λ (x : Flight DateTime). id_valid x.id) (rw passes at k) ∙ h.0
    | inr fails ↦ IsFirst-valid test gs f h.1 (rw fails at k)
  ]

  -- Where every candidate has a valid identifier, a flight lookup gives the first candidate with the
  -- FLARM identifier, and nothing with it. If there is none, it gives what the plane lookup found
  -- together with the first candidate of the found plane, and no flight if no plane was found or no
  -- candidate has it. So it never gives a flight and a FlarmNet record without a plane.
  pub lookup_flight_lem :
      (flarm_net_enabled : Bool) (c : Contents) (candidates : Candidates) (flarm_id : String)
      → All (λ f. id_valid f.id ≡ true) candidates
      → ((f : Flight DateTime) × IsFirst (has_flarm_id flarm_id) candidates f
          × (lookup_flight flarm_net_enabled c candidates flarm_id
              ≡ result (reference_to f) none none))
        ⊎ (IsLacking (has_flarm_id flarm_id) candidates
            × IsByPlane candidates
                (lookup_plane flarm_net_enabled c flarm_id).plane
                (lookup_plane flarm_net_enabled c flarm_id).flarm_net_record
                (lookup_flight flarm_net_enabled c candidates flarm_id))
  unfolding lookup_flight lookup_flight_by_plane first_valid
  lookup_flight_lem flarm_net_enabled c candidates flarm_id h =
      elim (direct-cases candidates flarm_id) [
        | inl (f, first, e) ↦
            let n = IsFirst-valid (has_flarm_id flarm_id) candidates f h first in
            inl (f, first, rw (e, n) refl)
        | inr (lacking, e) ↦ inr (lacking, rw e (by_plane_result-IsByPlane candidates _ _))
      ]
