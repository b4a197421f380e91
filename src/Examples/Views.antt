-- ===== src/Examples/Views.antt =====
-- The filter of the views, a list that follows the database, and the launch method statistics.
use startkladde.Prelude.{ℕ, true, false, ◌||◌, ◌≡◌, refl, [], ◌∷◌, arith, if◌then◌else◌}
use startkladde.Container.{nat_eq, value, contains}
use startkladde.Model.Plane.{Plane}
use startkladde.FlightReference.{reference, reference_to, equals}
use startkladde.FlightFilter.{
  FlightSortFilterProxyModel, new, accepts, set_force_visible, accepts-set_force_visible,
}
use startkladde.ObjectList.{type_add, type_delete, replay}
use startkladde.ObjectList.Replay.{IsOnce, AllNew, applied_all, replay-applied_all}
use startkladde.Cache.Table.{find}
use startkladde.Cache.Objects.{get_object}
use startkladde.Statistics.LaunchMethods.{create_new}
use startkladde.Statistics.LaunchMethods.Total.{total, num_counted, IsKeyed, total-create_new}
use startkladde.Examples.Setting.{seconds, objects, towplane, glider, prepared, airborne}

-- Prepared flights are not shown, but flight 7 is.
abbrev model : FlightSortFilterProxyModel
model = record (new false false) { show_prepared_flights = false }

accepts-set_force_visible_example :
    accepts (set_force_visible (reference 7 false) true model) false (prepared 7) ≡ (
      if equals (reference 7 false) (reference_to (prepared 7))
      then true || accepts (record model { flights_force_visible = [] }) false (prepared 7)
      else accepts model false (prepared 7))
accepts-set_force_visible_example =
    accepts-set_force_visible model (reference 7 false) true false (prepared 7)

replay-applied_all_example :
    IsOnce
      (λ (p : Plane). p.id)
      (replay (λ p. p.id) (type_add glider ∷ type_delete 5 ∷ []) (towplane ∷ []))
    × ((id : ℕ)
        → find
            (λ p. p.id)
            id
            (replay (λ p. p.id) (type_add glider ∷ type_delete 5 ∷ []) (towplane ∷ []))
          ≡ applied_all
              (λ p. p.id)
              (type_add glider ∷ type_delete 5 ∷ [])
              (λ i. find (λ p. p.id) i (towplane ∷ []))
              id)
unfolding AllNew
replay-applied_all_example =
    replay-applied_all (λ p. p.id) (type_add glider ∷ type_delete 5 ∷ []) (towplane ∷ [])
      (λ id. ground arith) (refl, (tt, tt))

keyed : IsKeyed objects
unfolding get_object value contains
keyed id l e = ground arith

total-create_new_example :
    total (create_new (λ ls. ls) "Towflights" (airborne 8 90000 ∷ airborne 9 91000 ∷ []) objects)
    ≡ num_counted objects (airborne 8 90000 ∷ airborne 9 91000 ∷ [])
total-create_new_example =
    total-create_new (λ ls. ls) "Towflights" (airborne 8 90000 ∷ airborne 9 91000 ∷ []) objects
      (λ num ls. refl) keyed
