-- ===== src/Cache/Flights/Placement.antt =====
-- Lookups of a flight after it was updated or deleted (src/db/cache/Cache.cpp).
use startkladde.Prelude.{ℕ, true, false, ◌||◌, ◌≡◌, none, some, arith}
use startkladde.DbId.{id_valid}
use startkladde.Qt.{Qt}
use startkladde.Container.{nat_eq, value, insert, contains}
use startkladde.Container.Laws.{value-remove}
use startkladde.Flight.{Flight, is_prepared}
use startkladde.Flight.Order.{eff_datum}
use startkladde.Cache.EntityList.{count_id-remove_by_id}
use startkladde.Cache.Objects.{get_object}
use startkladde.Cache.Flights.{Cache, get_flight, update_hashes, object_deleted, object_updated}
use startkladde.Cache.Flights.Invariant.{occurrences}

module _ ⦃q : Qt⦄ where
  open q use {DateTime, date_eq}

  -- A flight that happened on neither of the two days that the cache keeps.
  abbrev pub IsElsewhere : Cache → Flight DateTime → Type 0
  IsElsewhere c f =
      (is_prepared f ≡ false)
      × (date_eq (eff_datum f) c.today_date ≡ false)
      × (date_eq (eff_datum f) c.other_date ≡ false)

  -- A flight whose update moves it to neither of the two days that the cache keeps is in none of
  -- the three lists afterwards, but looking up its identifier still gives what it gave before the
  -- update.
  pub object_updated_stale :
      (c : Cache) (f : Flight DateTime)
      → IsElsewhere c f
      → (occurrences f.id (object_updated f c) ≡ 0)
        × (get_flight (object_updated f c) f.id ≡ get_flight c f.id)
  unfolding object_updated
  object_updated_stale c f h = (
    ground (
      arith,
      count_id-remove_by_id (λ (g : Flight DateTime). g.id) f.id f.id c.prepared_flights,
      count_id-remove_by_id (λ (g : Flight DateTime). g.id) f.id f.id c.flights_today,
      count_id-remove_by_id (λ (g : Flight DateTime). g.id) f.id f.id c.flights_other,
    ),
    ground arith,
  )

  -- An update to a prepared flight, or to one of a day that the cache keeps, makes the lookup of
  -- its identifier give the updated flight, if the identifier is valid.
  pub object_updated_found :
      (c : Cache) (f : Flight DateTime)
      → id_valid f.id ≡ true
      → (is_prepared f || date_eq (eff_datum f) c.today_date || date_eq (eff_datum f) c.other_date)
        ≡ true
      → get_flight (object_updated f c) f.id ≡ some f
  unfolding object_updated update_hashes get_object insert value contains
  object_updated_found c f n h = ground arith

  -- A deleted flight is in none of the three lists, and looking up its identifier gives nothing.
  pub object_deleted_gone :
      (c : Cache) (id : ℕ)
      → (occurrences id (object_deleted id c) ≡ 0) × (get_flight (object_deleted id c) id ≡ none)
  unfolding object_deleted get_object
  object_deleted_gone c id = (
    ground (
      arith,
      count_id-remove_by_id (λ (g : Flight DateTime). g.id) id id c.prepared_flights,
      count_id-remove_by_id (λ (g : Flight DateTime). g.id) id id c.flights_today,
      count_id-remove_by_id (λ (g : Flight DateTime). g.id) id id c.flights_other,
    ),
    ground (arith, value-remove id id c.flights_by_id),
  )
