-- ===== src/Cache/Refresh/Flights.antt =====
-- The cache after its flights are read again (src/db/cache/Cache.cpp, refreshFlights).
use startkladde.Prelude.{
  ℕ, ◌+◌, ◌≤◌, true, false, ◌&&◌, not, ◌≡◌, refl, ap, ◌∙◌, List, none, some, arith,
}
use startkladde.Prelude.All.{All, All-both}
use startkladde.Qt.{Qt}
use startkladde.Container.{nat_eq, value}
use startkladde.Flight.{Flight, is_prepared}
use startkladde.Flight.Order.{eff_datum}
use startkladde.Cache.Objects.{get_object}
use startkladde.Cache.Flights.{Cache, get_flight}
use startkladde.Cache.Flights.Invariant.{occurs, IsConsistent}
use startkladde.Cache.Refresh.{
  Queries, list_today, list_other, list_prepared, date_today, date_none, refresh_flights_of,
  refresh_flights_today, refresh_flights_other, refresh_prepared_flights, clear_flight_hashes,
  refresh_flights,
}
use startkladde.Cache.Refresh.Hashes.{SameLists, add_flights-found, All-occurs}
use startkladde.Cache.Refresh.Steps.{step, replaced, step-SameLists, step-absent, step-gone}

module _ ⦃q : Qt⦄ where
  open q use {DateTime, Date, date_eq}

  abbrev Fs : Type 0
  Fs = List (Flight DateTime)

  module _ (today other prepared : Fs) (date : Date) (c : Cache) where
    abbrev first : Cache
    first = step list_today date_today date today (clear_flight_hashes c)

    abbrev second : Cache
    second = step list_other date_none c.other_date other first

    abbrev third : Cache
    third = step list_prepared date_none date prepared second

    abbrev Lists : Cache → Type 0
    Lists d =
        (d.prepared_flights ≡ prepared)
        × (d.flights_today ≡ today)
        × (d.flights_other ≡ other)
        × (d.today_date ≡ date)
        × (d.other_date ≡ c.other_date)

    first_lists : SameLists (record c { flights_today = today; today_date = date }) first
    first_lists = step-SameLists list_today date_today date today (clear_flight_hashes c)

    second_lists : SameLists (record first { flights_other = other }) second
    second_lists = step-SameLists list_other date_none c.other_date other first

    third-Lists : Lists third
    third-Lists =
        let (a, b, e, f, g) = first_lists in
        let (h, i, j, k, l) = second_lists in
        let (m, n, o, p, r) = step-SameLists list_prepared date_none date prepared second in
        (m, n ∙ i ∙ b, o ∙ j, p ∙ k ∙ f, r ∙ l ∙ g)

    -- No flight has moved to a list that is read again before the one that it was on.
    pub record IsSettled : Type 0 where
      pub today_stay :
          (id : ℕ)
          → 1 ≤ occurs id today
          → (occurs id c.flights_other ≡ 0) × (occurs id c.prepared_flights ≡ 0)
      pub other_stay : (id : ℕ) → 1 ≤ occurs id other → occurs id c.prepared_flights ≡ 0
      pub once : (id : ℕ) → occurs id prepared + (occurs id today + occurs id other) ≤ 1

    -- The lists hold what their queries are for.
    pub record IsSorted : Type 0 where
      pub prepared_kind : All (λ f. is_prepared f ≡ true) prepared
      pub today_kind : All (λ f. (not (is_prepared f) && date_eq (eff_datum f) date) ≡ true) today
      pub other_kind :
          All
            (λ f.
              (not (is_prepared f)
                && (not (date_eq (eff_datum f) date) && date_eq (eff_datum f) c.other_date))
              ≡ true)
            other

    module _ (s : IsSettled) where
      prepared_found : All (λ f. value f.id third.flights_by_id ≡ some f) prepared
      prepared_found =
          add_flights-found prepared (replaced list_prepared date_none date prepared second)
            (λ id. omega (arith, s.once id))

      other_found : All (λ f. value f.id third.flights_by_id ≡ some f) other
      other_found =
          All-both (λ f. value f.id second.flights_by_id ≡ some f) (λ f. 1 ≤ occurs f.id other) _
            other
            (λ f e n.
              step-absent list_prepared date_none date prepared second f.id
                (ap (occurs f.id) (second_lists.0 ∙ first_lists.0) ∙ s.other_stay f.id n)
                (omega (arith, s.once f.id))
              ∙ e)
            (add_flights-found other (replaced list_other date_none c.other_date other first)
              (λ id. omega (arith, s.once id)))
            (All-occurs other)

      today_found : All (λ f. value f.id third.flights_by_id ≡ some f) today
      today_found =
          All-both (λ f. value f.id first.flights_by_id ≡ some f) (λ f. 1 ≤ occurs f.id today) _
            today
            (λ f e n.
              step-absent list_prepared date_none date prepared second f.id
                (ap (occurs f.id) (second_lists.0 ∙ first_lists.0) ∙ (s.today_stay f.id n).1)
                (omega (arith, s.once f.id))
              ∙ step-absent list_other date_none c.other_date other first f.id
                  (ap (occurs f.id) first_lists.2 ∙ (s.today_stay f.id n).0)
                  (omega (arith, s.once f.id))
              ∙ e)
            (add_flights-found today
              (replaced list_today date_today date today (clear_flight_hashes c))
              (λ id. omega (arith, s.once id)))
            (All-occurs today)

      third-IsConsistent : IsSorted → IsConsistent third
      third-IsConsistent k =
          let (a, b, e, f, g) = third-Lists in
          record {
            prepared =
                rw a (All-both _ _ _ prepared (λ x h l. (h, l)) k.prepared_kind prepared_found);
            today = rw (b, f) (All-both _ _ _ today (λ x h l. (h, l)) k.today_kind today_found);
            other = rw (e, f, g) (All-both _ _ _ other (λ x h l. (h, l)) k.other_kind other_found);
            once = λ id. rw (a, b, e) (s.once id);
          }

    -- A flight that has moved from the prepared list to today's is lost.
    third_lost :
        (id : ℕ)
        → 1 ≤ occurs id c.prepared_flights
        → occurs id prepared ≡ 0
        → value id third.flights_by_id ≡ none
    third_lost id h k =
        step-gone list_prepared date_none date prepared second id
          (rw (second_lists.0 ∙ first_lists.0) h) k

  -- The dates that are asked for are dates, and QDate () is none.
  pub record IsAnswered (db db' db'' : Queries) (c : Cache) : Type 0 where
    pub today : db.is_null db.current_date ≡ false
    pub other : db'.is_null c.other_date ≡ false
    pub prepared : db''.is_null db''.null_date ≡ true

  other_step :
      (db : Queries) (d : Cache) (date : Date)
      → d.other_date ≡ date
      → db.is_null date ≡ false
      → refresh_flights_other db d ≡ step list_other date_none date (db.of_date date) d
  unfolding refresh_flights_other refresh_flights_of
  other_step db d date e h = rw (e, h) refl

  module _ (db db' db'' : Queries) (c : Cache) (a : IsAnswered db db' db'' c) where
    refresh_flights-steps :
        refresh_flights db db' db'' c
        ≡ third
            (db.of_date db.current_date)
            (db'.of_date c.other_date)
            db''.prepared
            db.current_date
            c
    unfolding refresh_flights refresh_flights_today refresh_prepared_flights refresh_flights_of
    refresh_flights-steps =
        rw (a.today, a.prepared)
          (ap (λ d. step list_prepared date_none db.current_date db''.prepared d)
            (other_step db' _ c.other_date
              (first_lists (db.of_date db.current_date) (db'.of_date c.other_date) db''.prepared
                db.current_date c).4
              a.other))

  -- Reading the flights again, with a date set for the other flights, leaves the cache consistent,
  -- whatever else it held before, where the database answers each query with flights of its kind, no
  -- identifier twice, and no flight is among the new ones of a list that is read again before the
  -- list that held it. The null date is null, and the current date is not.
  pub refresh_flights-IsConsistent :
      (db db' db'' : Queries) (c : Cache)
      → IsAnswered db db' db'' c
      → IsSorted
          (db.of_date db.current_date)
          (db'.of_date c.other_date)
          db''.prepared
          db.current_date
          c
      → IsSettled
          (db.of_date db.current_date)
          (db'.of_date c.other_date)
          db''.prepared
          db.current_date
          c
      → IsConsistent (refresh_flights db db' db'' c)
  refresh_flights-IsConsistent db db' db'' c a k s = rw (refresh_flights-steps db db' db'' c a) (
      third-IsConsistent (db.of_date db.current_date) (db'.of_date c.other_date) db''.prepared
        db.current_date c s k)

  -- Reading the flights again, with a date set for the other flights, loses a flight that was on the
  -- prepared list of the cache and is among today's flights now, and no longer among the prepared
  -- ones: it is listed as one of today's flights, but looking up its identifier gives nothing. The
  -- null date is null, and the current date is not.
  pub refresh_flights_lost :
      (db db' db'' : Queries) (c : Cache) (f : Flight DateTime)
      → IsAnswered db db' db'' c
      → 1 ≤ occurs f.id c.prepared_flights
      → 1 ≤ occurs f.id (db.of_date db.current_date)
      → occurs f.id db''.prepared ≡ 0
      → (1 ≤ occurs f.id (refresh_flights db db' db'' c).flights_today)
        × (get_flight (refresh_flights db db' db'' c) f.id ≡ none)
  unfolding get_object
  refresh_flights_lost db db' db'' c f a h k n =
      let today : Fs = db.of_date db.current_date in
      let other : Fs = db'.of_date c.other_date in
      let gone : value f.id (third today other db''.prepared db.current_date c).flights_by_id
          ≡ none =
        third_lost today other db''.prepared db.current_date c f.id h n in
      rw (refresh_flights-steps db db' db'' c a)
        (rw ((third-Lists today other db''.prepared db.current_date c).1) k, ground (arith, gone))
