-- ===== src/Cache/Refresh/Steps.antt =====
-- One run of refreshFlightsOf (src/db/cache/Cache.cpp): the lists and the hash after it.
use startkladde.Prelude.{ℕ, ◌≤◌, ◌≡◌, refl, ◌∙◌, List, none}
use startkladde.Qt.{Qt}
use startkladde.Container.{nat_eq, value}
use startkladde.Flight.{Flight}
use startkladde.Cache.Flights.{Cache}
use startkladde.Cache.Flights.Invariant.{occurs}
use startkladde.Cache.Refresh.{
  FlightList, list_today, list_other, list_prepared, TargetDate, date_today, date_other, date_none,
  flights_of, replace_list, store_date, remove_flights, add_flights,
}
use startkladde.Cache.Refresh.Hashes.{
  SameLists, remove_flights-SameLists, add_flights-SameLists, remove_flights-absent,
  remove_flights-gone, add_flights-absent,
}

module _ ⦃q : Qt⦄ where
  open q use {DateTime, Date, date_eq}

  SameLists-store_date :
      (slot : TargetDate) (date : Date) (c d : Cache)
      → SameLists c d
      → SameLists (store_date slot date c) (store_date slot date d)
  SameLists-store_date date_today date c d (a, b, e, f, g) = (a, b, e, refl, g)
  SameLists-store_date date_other date c d (a, b, e, f, g) = (a, b, e, f, refl)
  SameLists-store_date date_none date c d h = h

  SameLists-replace_list :
      (target : FlightList) (fs : List (Flight DateTime)) (c d : Cache)
      → SameLists c d
      → SameLists (replace_list target fs c) (replace_list target fs d)
  SameLists-replace_list list_today fs c d (a, b, e, f, g) = (a, refl, e, f, g)
  SameLists-replace_list list_other fs c d (a, b, e, f, g) = (a, b, refl, f, g)
  SameLists-replace_list list_prepared fs c d (a, b, e, f, g) = (refl, b, e, f, g)

  SameLists-trans : (a b c : Cache) → SameLists a b → SameLists b c → SameLists a c
  SameLists-trans a b c (k, l, m, n, o) (r, s, t, u, v) = (r ∙ k, s ∙ l, t ∙ m, u ∙ n, v ∙ o)

  same_hash :
      (target : FlightList) (fs : List (Flight DateTime)) (slot : TargetDate) (date : Date)
      (c : Cache)
      → (replace_list target fs (store_date slot date c)).flights_by_id ≡ c.flights_by_id
  same_hash list_today fs date_today date c = refl
  same_hash list_today fs date_other date c = refl
  same_hash list_today fs date_none date c = refl
  same_hash list_other fs date_today date c = refl
  same_hash list_other fs date_other date c = refl
  same_hash list_other fs date_none date c = refl
  same_hash list_prepared fs date_today date c = refl
  same_hash list_prepared fs date_other date c = refl
  same_hash list_prepared fs date_none date c = refl

  -- One list is read again.
  module _ (target : FlightList) (slot : TargetDate) (date : Date) (fs : List (Flight DateTime))
      (c : Cache) where
    -- Before the new flights are added to the hash.
    abbrev pub replaced : Cache
    replaced =
        replace_list target fs (store_date slot date (remove_flights (flights_of target c) c))

    abbrev pub step : Cache
    step = add_flights fs replaced

    pub step-SameLists : SameLists (replace_list target fs (store_date slot date c)) step
    step-SameLists =
        SameLists-trans (replace_list target fs (store_date slot date c)) replaced step
          (SameLists-replace_list target fs (store_date slot date c)
            (store_date slot date (remove_flights (flights_of target c) c))
            (SameLists-store_date slot date c (remove_flights (flights_of target c) c)
              (remove_flights-SameLists (flights_of target c) c)))
          (add_flights-SameLists fs replaced)

    pub step-absent :
        (id : ℕ)
        → occurs id (flights_of target c) ≡ 0
        → occurs id fs ≡ 0
        → value id step.flights_by_id ≡ value id c.flights_by_id
    step-absent id h k =
        add_flights-absent id fs replaced k
        ∙ rw (same_hash target fs slot date (remove_flights (flights_of target c) c))
            (remove_flights-absent id (flights_of target c) c h)

    pub step-gone :
        (id : ℕ)
        → 1 ≤ occurs id (flights_of target c)
        → occurs id fs ≡ 0
        → value id step.flights_by_id ≡ none
    step-gone id h k =
        add_flights-absent id fs replaced k
        ∙ rw (same_hash target fs slot date (remove_flights (flights_of target c) c))
            (remove_flights-gone id (flights_of target c) c h)
