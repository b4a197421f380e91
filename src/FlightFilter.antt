-- ===== src/FlightFilter.antt =====
-- src/model/flightList/FlightSortFilterProxyModel.cpp: which rows and columns of the list of flights
-- are shown, and in which order. The views' notifications are left out.
use startkladde.Prelude.{
  Bool, true, false, not, ◌&&◌, ◌||◌, ◌≡◌, refl, List, [], ◌∷◌, arith, if◌then◌else◌, Bool-cases,
  inl, inr,
}
use startkladde.Prelude.Int.{ℤ, negsuc, ◌==ℤ◌}
use startkladde.Qt.{Qt}
use startkladde.Flight.{Flight, is_prepared, is_flying, finished, is_external, is_towflight}
use startkladde.Flight.Order.{less_than}
use startkladde.Flight.Errors.{Settings, is_erroneous, is_error}
use startkladde.FlightReference.{FlightReference, equals, reference_to, equals_iff}
use startkladde.Cache.Objects.{Objects}

pub record FlightSortFilterProxyModel : Type 0 where
  pub show_prepared_flights : Bool
  pub hide_finished_flights : Bool
  pub always_show_external_flights : Bool
  pub always_show_erroneous_flights : Bool
  -- a QSet
  pub flights_force_visible : List FlightReference
  pub flarm_id_column : ℤ
  pub id_column : ℤ
  pub vf_id_column : ℤ
  pub accept_debug_columns : Bool
  pub accept_vf_columns : Bool
  pub custom_sorting : Bool

-- The constructor, with the two settings that it reads.
pub new : Bool → Bool → FlightSortFilterProxyModel
new enable_debug vf_upload_enabled = record {
  show_prepared_flights = true;
  hide_finished_flights = false;
  always_show_external_flights = true;
  always_show_erroneous_flights = true;
  flights_force_visible = [];
  flarm_id_column = negsuc 0;
  id_column = negsuc 0;
  vf_id_column = negsuc 0;
  accept_debug_columns = enable_debug;
  accept_vf_columns = vf_upload_enabled;
  custom_sorting = true;
}

-- QSet::contains, insert and remove.
unfoldable pub set_contains : FlightReference → List FlightReference → Bool
set_contains r [] = false
set_contains r (s ∷ set) = equals s r || set_contains r set

unfoldable pub set_remove : FlightReference → List FlightReference → List FlightReference
set_remove r [] = []
set_remove r (s ∷ set) = let rest = set_remove r set in if equals s r then rest else s ∷ rest

unfoldable pub set_insert : FlightReference → List FlightReference → List FlightReference
unfolding set_contains
set_insert r set = if set_contains r set then set else r ∷ set

unfoldable pub set_force_visible :
    FlightReference → Bool → FlightSortFilterProxyModel → FlightSortFilterProxyModel
unfolding set_insert set_remove
set_force_visible flight force_visible m = record m {
  flights_force_visible =
      if force_visible
      then set_insert flight m.flights_force_visible
      else set_remove flight m.flights_force_visible;
}

unfoldable pub filter_accepts_column : FlightSortFilterProxyModel → ℤ → Bool
filter_accepts_column m source_column =
    if (source_column ==ℤ m.flarm_id_column) || (source_column ==ℤ m.id_column)
    then m.accept_debug_columns
    else if source_column ==ℤ m.vf_id_column
    then m.accept_vf_columns
    else true

-- `settingsChanged`, with the settings.
pub settings_changed : Bool → Bool → FlightSortFilterProxyModel → FlightSortFilterProxyModel
settings_changed enable_debug vf_upload_enabled m = record m {
  accept_debug_columns = enable_debug;
  accept_vf_columns = vf_upload_enabled;
}

-- What the set holds after an insertion or a removal.
contains-insert :
    (r s : FlightReference) (set : List FlightReference)
    → set_contains s (set_insert r set) ≡ (if equals r s then true else set_contains s set)
unfolding set_insert set_contains
contains-insert r s set = ground (arith, equals_iff r s)

contains-remove :
    (r s : FlightReference) (set : List FlightReference)
    → set_contains s (set_remove r set) ≡ (if equals r s then false else set_contains s set)
unfolding set_remove set_contains
contains-remove r s [] = ground arith
contains-remove r s (t ∷ set) =
    ground (arith, contains-remove r s set, equals_iff t r, equals_iff t s, equals_iff r s)

module _ ⦃q : Qt⦄ where
  open q use {DateTime}

  -- The source model is a list of flights; `erroneous` is what `isErroneous` gives for the flight.
  unfoldable pub accepts : FlightSortFilterProxyModel → Bool → Flight DateTime → Bool
  unfolding set_contains is_prepared finished
  accepts m erroneous flight =
      if set_contains (reference_to flight) m.flights_force_visible
      then true
      else if is_prepared flight
      then (if not m.show_prepared_flights
          then false
          else if is_towflight flight
          then false
          else true)
      else if finished flight
      then (if not m.hide_finished_flights
          then true
          else if m.always_show_external_flights && is_external flight
          then true
          else if m.always_show_erroneous_flights && erroneous
          then true
          else false)
      else true

  unfoldable pub filter_accepts_row :
      FlightSortFilterProxyModel → Settings → Objects → Flight DateTime → Bool
  unfolding accepts is_erroneous
  filter_accepts_row m settings cache flight =
      accepts m (is_error (is_erroneous settings cache flight).0) flight

  -- `default_less_than` is QSortFilterProxyModel::lessThan.
  pub sorts_before : FlightSortFilterProxyModel → Bool → Flight DateTime → Flight DateTime → Bool
  unfolding less_than
  sorts_before m default_less_than left right =
      if m.custom_sorting then less_than left right else default_less_than

  -- A flight on which nothing is decided yet is forced to be visible exactly if it was told so last.
  contains-set_force_visible :
      (r s : FlightReference) (force_visible : Bool) (m : FlightSortFilterProxyModel)
      → set_contains s (set_force_visible r force_visible m).flights_force_visible
        ≡ (if equals r s then force_visible else set_contains s m.flights_force_visible)
  unfolding set_force_visible
  contains-set_force_visible r s true m = contains-insert r s m.flights_force_visible
  contains-set_force_visible r s false m = contains-remove r s m.flights_force_visible

  -- Forcing a flight to be visible shows it, whatever the options are. No longer forcing it leaves
  -- it to the options, and no other flight is shown or hidden by either.
  pub accepts-set_force_visible :
      (m : FlightSortFilterProxyModel) (r : FlightReference) (force_visible erroneous : Bool)
      (flight : Flight DateTime)
      → accepts (set_force_visible r force_visible m) erroneous flight ≡ (
          if equals r (reference_to flight)
          then force_visible || accepts (record m { flights_force_visible = [] }) erroneous flight
          else accepts m erroneous flight)
  unfolding accepts set_force_visible set_contains
  accepts-set_force_visible m r force_visible erroneous flight =
      let forced = contains-set_force_visible r (reference_to flight) force_visible m in
      elim (Bool-cases (equals r (reference_to flight))) [
        | inl same ↦ rw (forced, same) (by_options force_visible)
        | inr other ↦ rw (forced, other) refl
      ]
    where
      by_options :
          (b : Bool)
          → (if b then true else accepts (record m { flights_force_visible = [] }) erroneous flight)
            ≡ b || accepts (record m { flights_force_visible = [] }) erroneous flight
      by_options true = refl
      by_options false = refl

  -- A flight that is flying and not prepared is shown, whatever the options are.
  pub accepts-is_flying :
      (m : FlightSortFilterProxyModel) (erroneous : Bool) (flight : Flight DateTime)
      → is_flying flight ≡ true
      → is_prepared flight ≡ false
      → is_towflight flight ≡ false
      → accepts m erroneous flight ≡ true
  unfolding accepts finished is_flying
  accepts-is_flying m erroneous flight h n t = ground arith
