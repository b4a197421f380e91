-- ===== src/Flarm/Algorithms/FlightLookup.antt =====
-- src/flarm/algorithms/FlightLookup.cpp: the flight of a FLARM identifier among candidates.
pub mod Choice
use startkladde.Prelude.{
  ℕ, zero, suc, ◌==◌, Bool, true, false, ◌≡◌, ◌≢◌, ◌⊎◌, inl, inr, refl, String, List, [], ◌∷◌,
  Option, none, some, arith, if◌then◌else◌, Bool-cases, Option-cases, str_eq, str_eq_iff,
}
use startkladde.Prelude.All.{All}
use startkladde.Prelude.Lists.{get_elem?}
use startkladde.Qt.{Qt}
use startkladde.DbId.{id_valid}
use startkladde.Flight.{Flight}
use startkladde.FlightReference.{FlightReference, reference_to, is_valid, invalid}
use startkladde.Model.Plane.{Plane}
use startkladde.Model.FlarmNetRecord.{FlarmNetRecord}
use startkladde.Cache.Planes.Consistency as Planes
use startkladde.Cache.Contents.{Contents}
use startkladde.Flarm.Algorithms.PlaneLookup as PlaneLookup
use startkladde.Flarm.Algorithms.PlaneLookup.{lookup_plane}

pub record Result : Type 0 where
  pub flight_reference : FlightReference
  pub plane : Option Plane
  pub flarm_net_record : Option FlarmNetRecord

abbrev pub result : FlightReference → Option Plane → Option FlarmNetRecord → Result
result flight_reference plane flarm_net_record = record {
  flight_reference = flight_reference;
  plane = plane;
  flarm_net_record = flarm_net_record;
}

abbrev pub nothing : Result
nothing = result invalid none none

module _ ⦃q : Qt⦄ where
  open q use {DateTime}

  abbrev pub Candidates : Type 0
  Candidates = List (Flight DateTime)

  unfoldable pub lookup_flight_by_flarm_id : Candidates → String → Result
  lookup_flight_by_flarm_id [] flarm_id = nothing
  lookup_flight_by_flarm_id (flight ∷ candidates) flarm_id =
      let rest = lookup_flight_by_flarm_id candidates flarm_id in
      if str_eq flight.flarm_id flarm_id then result (reference_to flight) none none else rest

  -- The loop over the candidates, for a plane that was found.
  unfoldable pub flight_of_plane : Candidates → Plane → Option FlarmNetRecord → Result
  flight_of_plane [] plane net = result invalid (some plane) net
  flight_of_plane (flight ∷ candidates) plane net =
      let rest = flight_of_plane candidates plane net in
      if flight.plane_id == plane.id then result (reference_to flight) (some plane) net else rest

  unfoldable pub by_plane_result : Candidates → Option Plane → Option FlarmNetRecord → Result
  unfolding flight_of_plane
  by_plane_result candidates none net = result invalid none net
  by_plane_result candidates (some plane) net = flight_of_plane candidates plane net

  unfoldable pub lookup_flight_by_plane : Bool → Contents → Candidates → String → Result
  unfolding by_plane_result lookup_plane
  lookup_flight_by_plane flarm_net_enabled c candidates flarm_id =
      let plane_result = lookup_plane flarm_net_enabled c flarm_id in
      by_plane_result candidates plane_result.plane plane_result.flarm_net_record

  unfoldable pub first_valid : Result → Result → Result
  first_valid a b = if is_valid a.flight_reference then a else b

  unfoldable pub lookup_flight : Bool → Contents → Candidates → String → Result
  unfolding lookup_flight_by_flarm_id lookup_flight_by_plane first_valid
  lookup_flight flarm_net_enabled c candidates flarm_id =
      first_valid (lookup_flight_by_flarm_id candidates flarm_id)
        (lookup_flight_by_plane flarm_net_enabled c candidates flarm_id)
