-- ===== src/Cache/Refresh.antt =====
-- Reading the flights of the cache again from the database: `refreshFlightsOf`, `refreshFlights`
-- and `fetchFlightsOther` of src/db/cache/Cache.cpp. The monitor's messages are left out.
pub mod Hashes
pub mod Steps
pub mod Flights
pub mod Objects
use startkladde.Prelude.{ℕ, Bool, List, [], ◌∷◌, if◌then◌else◌}
use startkladde.Qt.{Qt}
use startkladde.Container.{nat_eq, remove}
use startkladde.Flight.{Flight}
use startkladde.Cache.Flights.{Cache, update_hashes}

module _ ⦃q : Qt⦄ where
  open q use {DateTime, Date}

  -- What the refresh asks of QDate and of the database, at the time when it asks.
  pub record Queries : Type 0 where
    -- QDate ()
    pub null_date : Date
    -- QDate::isNull
    pub is_null : Date → Bool
    -- QDate::currentDate
    pub current_date : Date
    -- db.getPreparedFlights and db.getFlightsDate
    pub prepared : List (Flight DateTime)
    pub of_date : Date → List (Flight DateTime)

  -- The parameter `targetList`.
  pub data FlightList : Type 0 where
    list_today list_other list_prepared : FlightList

  abbrev pub flights_of : FlightList → Cache → List (Flight DateTime)
  flights_of list_today c = c.flights_today
  flights_of list_other c = c.flights_other
  flights_of list_prepared c = c.prepared_flights

  abbrev pub replace_list : FlightList → List (Flight DateTime) → Cache → Cache
  replace_list list_today flights c = record c { flights_today = flights }
  replace_list list_other flights c = record c { flights_other = flights }
  replace_list list_prepared flights c = record c { prepared_flights = flights }

  -- The parameter `targetDate`, which may be NULL.
  pub data TargetDate : Type 0 where
    date_today date_other date_none : TargetDate

  abbrev pub store_date : TargetDate → Date → Cache → Cache
  store_date date_today date c = record c { today_date = date }
  store_date date_other date c = record c { other_date = date }
  store_date date_none date c = c

  unfoldable pub remove_flights : List (Flight DateTime) → Cache → Cache
  remove_flights [] c = c
  remove_flights (f ∷ flights) c =
      remove_flights flights (record c { flights_by_id = remove f.id c.flights_by_id })

  unfoldable pub add_flights : List (Flight DateTime) → Cache → Cache
  unfolding update_hashes
  add_flights [] c = c
  add_flights (f ∷ flights) c = add_flights flights (update_hashes f c)

  unfoldable pub refresh_flights_of : Queries → Date → FlightList → TargetDate → Cache → Cache
  unfolding remove_flights add_flights
  refresh_flights_of db date target target_date c =
      let new_flights = if db.is_null date then db.prepared else db.of_date date in
      add_flights new_flights (
        replace_list target new_flights
          (store_date target_date date (remove_flights (flights_of target c) c)))

  unfoldable pub refresh_flights_today : Queries → Cache → Cache
  unfolding refresh_flights_of
  refresh_flights_today db c = refresh_flights_of db db.current_date list_today date_today c

  unfoldable pub refresh_flights_other : Queries → Cache → Cache
  unfolding refresh_flights_of
  refresh_flights_other db c =
      let refreshed = refresh_flights_of db c.other_date list_other date_none c in
      if db.is_null c.other_date then c else refreshed

  unfoldable pub fetch_flights_other : Queries → Date → Cache → Cache
  unfolding refresh_flights_of
  fetch_flights_other db date c =
      let fetched = refresh_flights_of db date list_other date_other c in
      if db.is_null date then c else fetched

  unfoldable pub refresh_prepared_flights : Queries → Cache → Cache
  unfolding refresh_flights_of
  refresh_prepared_flights db c = refresh_flights_of db db.null_date list_prepared date_none c

  -- `clearHashes<Flight>`
  abbrev pub clear_flight_hashes : Cache → Cache
  clear_flight_hashes c = record c { locations = []; accounting_notes = [] }

  -- With what the database answers to each of the three queries.
  unfoldable pub refresh_flights : Queries → Queries → Queries → Cache → Cache
  unfolding refresh_flights_today refresh_flights_other refresh_prepared_flights
  refresh_flights db db' db'' c =
      refresh_prepared_flights db''
        (refresh_flights_other db' (refresh_flights_today db (clear_flight_hashes c)))
