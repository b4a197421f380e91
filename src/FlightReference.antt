-- ===== src/FlightReference.antt =====
-- src/FlightReference.cpp: a reference to a flight or to its towflight.
use startkladde.Prelude.{
  ℕ, ◌+◌, ◌*◌, ◌%◌, ◌^◌, ◌<◌, ◌==◌, Bool, true, false, ◌&&◌, ◌≡◌, ◌↔◌, arith, if◌then◌else◌,
}
use startkladde.DbId.{invalid_id, id_valid}
use startkladde.Flight.{Flight, is_towflight}

pub record FlightReference : Type 0 where
  pub id : ℕ
  pub towflight : Bool

abbrev pub reference : ℕ → Bool → FlightReference
reference id towflight = record { id = id; towflight = towflight }

-- `FlightReference::invalid`
abbrev pub invalid : FlightReference
invalid = reference invalid_id false

-- The constructor from a flight.
abbrev pub reference_to : {D : Type 0} → Flight D → FlightReference
reference_to f = reference f.id (is_towflight f)

abbrev pub is_valid : FlightReference → Bool
is_valid r = id_valid r.id

abbrev same_flag : Bool → Bool → Bool
same_flag a b = if a then b else if b then false else true

pub equals : FlightReference → FlightReference → Bool
equals r other = (other.id == r.id) && same_flag other.towflight r.towflight

-- `uint` arithmetic wraps at 2 ^ 32.
pub q_hash : FlightReference → ℕ
q_hash r = if r.towflight then (2 * r.id + 1) % 2 ^ 32 else (2 * r.id) % 2 ^ 32

pub equals_iff : (r s : FlightReference) → (equals r s ≡ true) ↔ (r ≡ s)
unfolding equals
equals_iff r s = ground arith

-- `operator==` is equality of the references, and for identifiers below 2 ^ 31 two references have
-- one hash value exactly if they are equal.
pub equals-q_hash :
    (r s : FlightReference)
    → r.id < 2 ^ 31
    → s.id < 2 ^ 31
    → ((equals r s ≡ true) ↔ (r ≡ s)) × ((q_hash r ≡ q_hash s) ↔ (equals r s ≡ true))
unfolding equals q_hash
equals-q_hash r s l m = (ground arith, ground arith)
