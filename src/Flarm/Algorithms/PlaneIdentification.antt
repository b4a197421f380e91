-- ===== src/Flarm/Algorithms/PlaneIdentification.antt =====
-- src/flarm/algorithms/PlaneIdentification.cpp: which plane a flight is found to have. The dialogs
-- are parameters; the messages that are shown are part of the result.
use startkladde.Prelude.{
  ℕ, ◌==◌, Bool, true, not, ◌≡◌, ◌≢◌, ◌⊎◌, inl, inr, refl, List, [], ◌∷◌, Option, none, some, arith,
  if◌then◌else◌, Bool-cases,
}
use startkladde.Qt.{Qt}
use startkladde.DbId.{invalid_id}
use startkladde.Text.{is_blank}
use startkladde.Flight.{Flight}
use startkladde.Model.Plane.{Plane}
use startkladde.Model.FlarmNetRecord.{FlarmNetRecord}
use startkladde.Cache.Contents.{Contents}
use startkladde.Flarm.Algorithms.PlaneLookup.{lookup_plane}

pub data Message : Type 0 where
  not_created_automatically_message not_current_message current_message : Message
  identification_failure_message : Message

-- What the user answers to the two questions, and what `interactiveCreatePlane` then gives.
pub record Answers : Type 0 where
  pub use_plane : Plane → Bool
  pub create_plane : FlarmNetRecord → Bool
  pub created : FlarmNetRecord → ℕ

abbrev message_if : Bool → Message → List Message
message_if manual_operation message = if manual_operation then message ∷ [] else []

-- The branches for what the plane lookup gives.
unfoldable pub identify :
    Answers → Bool → ℕ → Option Plane → Option FlarmNetRecord → ℕ × List Message
identify answers manual_operation plane_id (some plane) net =
    if plane.id == plane_id
    then (invalid_id, current_message ∷ [])
    else if answers.use_plane plane
    then (plane.id, [])
    else (invalid_id, [])
identify answers manual_operation plane_id none (some r) =
    if answers.create_plane r then (answers.created r, []) else (invalid_id, [])
identify answers manual_operation plane_id none none =
    (invalid_id, message_if manual_operation identification_failure_message)

module _ ⦃q : Qt⦄ where
  open q use {DateTime}

  -- `current` is what Flight::isCurrent gives.
  unfoldable pub interactive_identify_plane :
      Answers → Bool → Contents → Flight DateTime → Bool → Bool → ℕ × List Message
  unfolding identify lookup_plane
  interactive_identify_plane answers flarm_net_enabled c flight current manual_operation =
      let r = lookup_plane flarm_net_enabled c flight.flarm_id in
      if is_blank flight.flarm_id
      then (invalid_id, message_if manual_operation not_created_automatically_message)
      else if not current
      then (invalid_id, message_if manual_operation not_current_message)
      else identify answers manual_operation flight.plane_id r.plane r.flarm_net_record

  -- What an identified plane is: the one of the plane lookup, or one that was made from its FlarmNet
  -- record; both with the user's consent.
  abbrev pub IsIdentified : Answers → Bool → Contents → Flight DateTime → ℕ → Type 0
  IsIdentified answers flarm_net_enabled c flight id =
      ((p : Plane) × ((lookup_plane flarm_net_enabled c flight.flarm_id).plane ≡ some p)
        × (id ≡ p.id)
        × (answers.use_plane p ≡ true)
        × (id ≢ flight.plane_id))
      ⊎ ((r : FlarmNetRecord) × ((lookup_plane flarm_net_enabled c flight.flarm_id).plane ≡ none)
          × ((lookup_plane flarm_net_enabled c flight.flarm_id).flarm_net_record ≡ some r)
          × (id ≡ answers.created r)
          × (answers.create_plane r ≡ true))

  -- Identifying the plane of a flight gives the invalid identifier, or the identifier of the plane
  -- that the plane lookup finds, which is not the one that the flight has and which the user agrees
  -- to use, or that of a plane which the user agrees to make from the FlarmNet record that the
  -- lookup finds.
  pub interactive_identify_plane_lem :
      (answers : Answers) (flarm_net_enabled : Bool) (c : Contents) (flight : Flight DateTime)
      (current manual_operation : Bool)
      → let (id, messages) =
          interactive_identify_plane answers flarm_net_enabled c flight current manual_operation in
        (id ≡ invalid_id) ⊎ IsIdentified answers flarm_net_enabled c flight id
  unfolding interactive_identify_plane
  interactive_identify_plane_lem answers flarm_net_enabled c flight current manual_operation =
      elim (Bool-cases (is_blank flight.flarm_id)) [
        | inl blank ↦ rw blank (inl refl)
        | inr text ↦ elim (Bool-cases current) [
          | inr past ↦ rw (text, past) (inl refl)
          | inl now ↦ rw (text, now) (cases _ _ refl refl)
        ]
      ]
    where
      cases :
          (plane : Option Plane) (net : Option FlarmNetRecord)
          → (lookup_plane flarm_net_enabled c flight.flarm_id).plane ≡ plane
          → (lookup_plane flarm_net_enabled c flight.flarm_id).flarm_net_record ≡ net
          → ((identify answers manual_operation flight.plane_id plane net).0 ≡ invalid_id)
            ⊎ IsIdentified answers flarm_net_enabled c flight
                (identify answers manual_operation flight.plane_id plane net).0
      cases (some p) net e k = elim (Bool-cases (p.id == flight.plane_id)) [
        | inl same ↦ inl (rw same refl)
        | inr other ↦ elim (Bool-cases (answers.use_plane p)) [
          | inl agrees ↦ rw (other, agrees) (inr (inl (p, e, refl, agrees, ground arith)))
          | inr refuses ↦ inl (rw (other, refuses) refl)
        ]
      ]
      cases none (some r) e k = elim (Bool-cases (answers.create_plane r)) [
        | inl agrees ↦ rw agrees (inr (inr (r, e, k, refl, agrees)))
        | inr refuses ↦ inl (rw refuses refl)
      ]
      cases none none e k = inl refl
