-- ===== src/FlightProxyList/Handlers.antt =====
-- The handlers of the source model's signals (src/model/flightList/FlightProxyList.cpp).
use startkladde.Prelude.{ℕ, ◌+◌, ◌-◌, List, [], ◌∷◌, ◌++◌, Option, none, some, if◌then◌else◌}
use startkladde.Prelude.Int.{ℤ, pos, negsuc}
use startkladde.Prelude.Lists.{length, set, erase_idx, take, drop}
use startkladde.DbId.{invalid_id}
use startkladde.Qt.{Qt}
use startkladde.Model.LaunchMethod.{LaunchMethod, towplane_known, type_self}
use startkladde.Cache.Objects.{get_launch_method_by_type, get_plane_id_by_registration}
use startkladde.Cache.Flights.{Cache, get_flight}
use startkladde.Flight.{Flight}
use startkladde.Flight.Towflight.{TowflightContext, make_towflight}
use startkladde.FlightProxyList.{
  FlightProxyList, airtow_launch_method, find_towflight, towflight_index_to_model_index,
}

-- The notifications of QAbstractItemModel; the parent index and the columns are left out.
pub data Notification : Type 0 where
  begin_insert_rows begin_remove_rows data_changed : ℤ → ℤ → Notification
  end_insert_rows end_remove_rows begin_reset_model end_reset_model : Notification

-- The rows `start` to `end` of the source model. The signals name rows that are there; outside the
-- list the source fails an assertion.
abbrev pub rows {ℓ} : {A : Type ℓ} → ℕ → ℕ → List A → List A
rows start end flights = take (end + 1 - start) (drop start flights)

module _ ⦃q : Qt⦄ where
  open q use {DateTime}

  abbrev pub Proxy : Type 0
  Proxy = FlightProxyList DateTime

  -- A handler's result: the state and the notifications.
  abbrev pub Reply : Type 0
  Reply = Proxy × List Notification

  -- The identifier of the towplane, as `addTowflightFor` and `updateTowflight` determine it.
  towplane_id_for : Cache → Flight DateTime → LaunchMethod → ℕ
  towplane_id_for c f launch_method =
      if towplane_known launch_method
      then get_plane_id_by_registration c.objects launch_method.towplane_registration
      else f.towplane_id

  unfoldable pub add_towflight_for :
      TowflightContext → Cache → Flight DateTime → LaunchMethod → Proxy → Proxy
  unfolding towplane_id_for
  add_towflight_for context c f launch_method p = record p {
    towflights =
        p.towflights
        ++ make_towflight context f (towplane_id_for c f launch_method) invalid_id ∷ [];
  }

  -- `updateTowflight` once the flight, and its launch method, are looked up.
  unfoldable pub replace_towflight :
      TowflightContext → Cache → Flight DateTime → Option LaunchMethod → ℕ → Proxy → Proxy
  unfolding towplane_id_for
  replace_towflight context c f none towflight_index p = p
  replace_towflight context c f (some launch_method) towflight_index p = record p {
    towflights = set p.towflights towflight_index (
        make_towflight context f (towplane_id_for c f launch_method)
          (get_launch_method_by_type c.objects type_self));
  }

  -- The flight is taken from the cache; NotFoundException does nothing.
  unfoldable pub updated_towflight :
      TowflightContext → Cache → Option (Flight DateTime) → ℕ → Proxy → Proxy
  unfolding replace_towflight
  updated_towflight context c none towflight_index p = p
  updated_towflight context c (some f) towflight_index p =
      replace_towflight context c f (airtow_launch_method c.objects f) towflight_index p

  unfoldable pub update_towflight : TowflightContext → Cache → ℕ → ℕ → Proxy → Proxy
  unfolding updated_towflight
  update_towflight context c id towflight_index p =
      updated_towflight context c (get_flight c id) towflight_index p

  -- What `dataChanged` does with one changed flight, by its launch method and by the index of its
  -- towflight.
  unfoldable pub change_row :
      TowflightContext → Cache → Flight DateTime → Option LaunchMethod → ℤ → Proxy → Reply
  change_row context c f (some launch_method) (pos i) p =
      let model_index = towflight_index_to_model_index (pos i) p in
      (update_towflight context c f.id i p, data_changed model_index model_index ∷ [])
  change_row context c f (some launch_method) (negsuc i) p =
      let model_index = towflight_index_to_model_index (pos (length p.towflights)) p in
      (
        add_towflight_for context c f launch_method p,
        begin_insert_rows model_index model_index ∷ end_insert_rows ∷ [],
      )
  change_row context c f none (pos i) p =
      let model_index = towflight_index_to_model_index (pos i) p in
      (
        record p { towflights = erase_idx p.towflights i },
        begin_remove_rows model_index model_index ∷ end_remove_rows ∷ [],
      )
  change_row context c f none (negsuc i) p = (p, [])

  -- Runs a handler's step on each of the rows.
  abbrev pub for_each : (Flight DateTime → Proxy → Reply) → List (Flight DateTime) → Proxy → Reply
  for_each step [] p = (p, [])
  for_each step (f ∷ flights) p =
      let (p', log) = step f p in let (p'', more) = for_each step flights p' in (p'', log ++ more)

  unfoldable pub change_flight : TowflightContext → Cache → Flight DateTime → Proxy → Reply
  change_flight context c f p =
      change_row context c f (airtow_launch_method c.objects f) (find_towflight f.id p) p

  unfoldable pub source_model_data_changed : TowflightContext → Cache → ℕ → ℕ → Proxy → Reply
  source_model_data_changed context c top bottom p = elim p.source_model [
    | none ↦ (p, [])
    | some flights ↦
        let (p', log) = for_each (change_flight context c) (rows top bottom flights) p in
        (p', data_changed (pos top) (pos bottom) ∷ log)
  ]

  unfoldable pub source_model_model_about_to_be_reset : Proxy → Reply
  source_model_model_about_to_be_reset p = (record p { towflights = [] }, begin_reset_model ∷ [])

  -- `if (isAirtow (flight, &launchMethod)) addTowflightFor (flight, launchMethod);`
  abbrev pub add_if_airtow :
      TowflightContext → Cache → Flight DateTime → Option LaunchMethod → Proxy → Proxy
  add_if_airtow context c f none p = p
  add_if_airtow context c f (some launch_method) p = add_towflight_for context c f launch_method p

  unfoldable pub add_airtows : TowflightContext → Cache → List (Flight DateTime) → Proxy → Proxy
  add_airtows context c [] p = p
  add_airtows context c (f ∷ flights) p =
      add_airtows context c flights (add_if_airtow context c f (airtow_launch_method c.objects f) p)

  unfoldable pub source_model_model_reset : TowflightContext → Cache → Proxy → Reply
  unfolding add_airtows
  source_model_model_reset context c p = elim p.source_model [
    | none ↦ (p, end_reset_model ∷ [])
    | some flights ↦ (add_airtows context c flights p, end_reset_model ∷ [])
  ]

  unfoldable pub source_model_rows_about_to_be_inserted : ℕ → ℕ → Proxy → Reply
  source_model_rows_about_to_be_inserted start end p =
      (p, begin_insert_rows (pos start) (pos end) ∷ [])

  -- The step of `rowsInserted`.
  unfoldable pub insert_row :
      TowflightContext → Cache → Flight DateTime → Option LaunchMethod → Proxy → Reply
  insert_row context c f none p = (p, [])
  insert_row context c f (some launch_method) p =
      let model_index = towflight_index_to_model_index (pos (length p.towflights)) p in
      (
        add_towflight_for context c f launch_method p,
        begin_insert_rows model_index model_index ∷ end_insert_rows ∷ [],
      )

  unfoldable pub source_model_rows_inserted : TowflightContext → Cache → ℕ → ℕ → Proxy → Reply
  source_model_rows_inserted context c start end p = elim p.source_model [
    | none ↦ (p, [])
    | some flights ↦
        let (p', log) =
          for_each (λ f. insert_row context c f (airtow_launch_method c.objects f))
            (rows start end flights) p in
        (p', end_insert_rows ∷ log)
  ]

  -- The step of `rowsAboutToBeRemoved`.
  unfoldable pub remove_row : ℤ → Proxy → Reply
  remove_row (negsuc i) p = (p, [])
  remove_row (pos i) p =
      let model_index = towflight_index_to_model_index (pos i) p in
      (
        record p { towflights = erase_idx p.towflights i },
        begin_remove_rows model_index model_index ∷ end_remove_rows ∷ [],
      )

  unfoldable pub source_model_rows_about_to_be_removed : ℕ → ℕ → Proxy → Reply
  source_model_rows_about_to_be_removed start end p = elim p.source_model [
    | none ↦ (p, [])
    | some flights ↦
        let (p', log) =
          for_each (λ f p. remove_row (find_towflight f.id p) p) (rows start end flights) p in
        (p', log ++ begin_remove_rows (pos start) (pos end) ∷ [])
  ]

  unfoldable pub source_model_rows_removed : Proxy → Reply
  source_model_rows_removed p = (p, end_remove_rows ∷ [])
