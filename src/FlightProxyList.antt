-- ===== src/FlightProxyList.antt =====
-- src/model/flightList/FlightProxyList.cpp: the flights of a source model followed by the towflights
-- of its airtows. An index is an `int`, with -1 for "none". A handler of a signal returns the new
-- state and the calls by which it notifies the views, in order.
pub mod Handlers
pub mod Counts
pub mod Steps
pub mod Sync
pub mod Rows
pub mod Changes
pub mod Indices
use startkladde.Prelude.{
  ℕ, ◌+◌, ◌-◌, Bool, true, false, not, ◌&&◌, List, [], ◌∷◌, ◌++◌, Option, none, some, if◌then◌else◌,
}
use startkladde.Prelude.Int.{ℤ, pos, negsuc, sub_ℕ, ltb_ℤ}
use startkladde.Prelude.Lists.{length, get_elem?}
use startkladde.DbId.{id_valid}
use startkladde.Qt.{Qt}
use startkladde.Model.LaunchMethod.{LaunchMethod, is_airtow}
use startkladde.Cache.EntityList.{find_by_id}
use startkladde.Cache.Objects.{Objects, get_launch_method}
use startkladde.Flight.{Flight}
use startkladde.FlightReference.{FlightReference, invalid, reference_to, is_valid}

pub record FlightProxyList (D : Type 0) : Type 0 where
  -- `_sourceModel`, NULL being `none`
  pub source_model : Option (List (Flight D))
  pub towflights : List (Flight D)

-- A launch method that is an airtow.
abbrev only_airtow : Option LaunchMethod → Option LaunchMethod
only_airtow none = none
only_airtow (some lm) = if is_airtow lm then some lm else none

-- `isAirtow`: the launch method that it stores, if the result is `true`. The source reads the
-- stored launch method only then.
unfoldable pub airtow_launch_method : {D : Type 0} → Objects → Flight D → Option LaunchMethod
airtow_launch_method cache f =
    if not (id_valid f.launch_method_id)
    then none
    else only_airtow (get_launch_method cache f.launch_method_id)

-- index - size, for `index` ≥ 0
abbrev minus_size : ℤ → ℕ → ℤ
minus_size (pos i) n = sub_ℕ i n
minus_size (negsuc i) n = negsuc 0

-- index + size, for `index` ≥ 0
abbrev plus_size : ℤ → ℕ → ℤ
plus_size (pos i) n = pos (i + n)
plus_size (negsuc i) n = negsuc 0

module _ {D : Type 0} where
  abbrev pub source_size : List (Flight D) → ℕ
  source_size flights = length flights

  unfoldable pub find_flight : ℕ → FlightProxyList D → ℤ
  find_flight id p = elim p.source_model [
    | none ↦ negsuc 0
    | some flights ↦ find_by_id (λ f. f.id) id flights
  ]

  unfoldable pub find_towflight : ℕ → FlightProxyList D → ℤ
  find_towflight id p = find_by_id (λ f. f.id) id p.towflights

  unfoldable pub towflight_index_to_model_index : ℤ → FlightProxyList D → ℤ
  towflight_index_to_model_index towflight_index p = elim p.source_model [
    | none ↦ negsuc 0
    | some flights ↦ plus_size towflight_index (length flights)
  ]

  unfoldable pub model_index_to_towflight_index : ℤ → FlightProxyList D → ℤ
  model_index_to_towflight_index model_index p = elim p.source_model [
    | none ↦ negsuc 0
    | some flights ↦ minus_size model_index (length flights)
  ]

  unfoldable pub model_index_is_flight : ℤ → FlightProxyList D → Bool
  model_index_is_flight index p = elim p.source_model [
    | none ↦ false
    | some flights ↦ ltb_ℤ index (pos (length flights))
  ]

  unfoldable pub model_index_is_towflight : ℤ → FlightProxyList D → Bool
  unfolding model_index_to_towflight_index
  model_index_is_towflight index p =
      let towflight_index = model_index_to_towflight_index index p in
      not (ltb_ℤ towflight_index (pos 0)) && ltb_ℤ towflight_index (pos (length p.towflights))

  unfoldable pub size : FlightProxyList D → ℕ
  size p = elim p.source_model [ none ↦ 0 | some flights ↦ length flights + length p.towflights ]

  -- QList::at, which asserts that the index is in the list.
  abbrev list_at : List (Flight D) → ℤ → Option (Flight D)
  list_at flights (pos i) = get_elem? flights i
  list_at flights (negsuc i) = none

  -- `none` is a failed assertion.
  unfoldable pub at : ℤ → FlightProxyList D → Option (Flight D)
  unfolding model_index_to_towflight_index
  at index p = elim p.source_model [
    | none ↦ none
    | some flights ↦
        if ltb_ℤ index (pos (length flights))
        then list_at flights index
        else list_at p.towflights (minus_size index (length flights))
  ]

  unfoldable pub get_list : FlightProxyList D → List (Flight D)
  get_list p = elim p.source_model [ none ↦ [] | some flights ↦ flights ++ p.towflights ]

  -- `findTowref` once the flight at the index is known.
  abbrev towref_of : ℤ → FlightProxyList D → ℕ → ℤ
  towref_of index p id =
      if model_index_is_flight index p
      then (if not (ltb_ℤ (find_towflight id p) (pos 0))
          then towflight_index_to_model_index (find_towflight id p) p
          else negsuc 0)
      else if model_index_is_towflight index p
      then (if not (ltb_ℤ (find_flight id p) (pos 0)) then find_flight id p else negsuc 0)
      else negsuc 0

  -- `none` is the failed assertion of `at`.
  unfoldable pub find_towref : ℤ → FlightProxyList D → Option ℤ
  unfolding at find_flight find_towflight model_index_is_flight model_index_is_towflight
      towflight_index_to_model_index
  find_towref index p = elim (at index p) [ none ↦ none | some f ↦ some (towref_of index p f.id) ]

  unfoldable pub find_model_index : FlightReference → FlightProxyList D → ℤ
  unfolding find_flight find_towflight towflight_index_to_model_index
  find_model_index flight p =
      if not (is_valid flight)
      then negsuc 0
      else if flight.towflight
      then towflight_index_to_model_index (find_towflight flight.id p) p
      else find_flight flight.id p

  -- `none` is the failed assertion of `at`.
  unfoldable pub get_flight_reference : ℤ → FlightProxyList D → Option FlightReference
  unfolding at
  get_flight_reference model_index p =
      if ltb_ℤ model_index (pos 0)
      then some invalid
      else (elim (at model_index p) [ none ↦ none | some f ↦ some (reference_to f) ])
