-- ===== src/Cache/Clear.antt =====
-- `clear` of src/db/cache/Cache.cpp.
use startkladde.Prelude.{ℕ, ◌≡◌, refl, [], none, arith}
use startkladde.Qt.{Qt}
use startkladde.Container.{nat_eq, value, contains, contains_pair}
use startkladde.Cache.Objects.{get_object, get_plane, get_launch_method}
use startkladde.Cache.Flights.{Cache, get_flight}
use startkladde.Cache.FlarmNet.Consistency as FlarmNetConsistency
use startkladde.Cache.Events.Consistency.{IsConsistent}
use startkladde.Cache.Refresh.Objects.{clear_person_hashes}

module _ ⦃q : Qt⦄ where
  open q use {Date}

  -- `null_date` is QDate (). The FlarmNet records and the two sorted lists stay.
  unfoldable pub clear : Date → Cache → Cache
  clear null_date c = record c {
    contents = record (clear_person_hashes c.contents) {
      objects = record c.contents.objects {
        planes = [];
        planes_by_id = [];
        clubs = [];
        plane_types = [];
        plane_registrations = [];
        plane_ids_by_registration = [];
        plane_ids_by_flarm_id = [];
        launch_methods = [];
        launch_methods_by_id = [];
        launch_method_ids_by_type = [];
      };
      people = [];
      people_by_id = [];
    };
    flights_today = [];
    today_date = null_date;
    flights_other = [];
    other_date = null_date;
    prepared_flights = [];
    flights_by_id = [];
    locations = [];
    accounting_notes = [];
  }

  -- A cleared cache finds no plane, launch method, person or flight by its identifier, and is
  -- consistent if its FlarmNet records, which it keeps, were.
  pub clear-IsConsistent :
      (null_date : Date) (c : Cache)
      → FlarmNetConsistency.IsConsistent c.contents
      → IsConsistent (clear null_date c)
        × ((id : ℕ)
            → (get_plane (clear null_date c).objects id ≡ none)
              × (get_launch_method (clear null_date c).objects id ≡ none)
              × (get_object (clear null_date c).people_by_id id ≡ none)
              × (get_flight (clear null_date c) id ≡ none))
  unfolding clear value contains_pair get_object contains
  clear-IsConsistent null_date c v = (
    record {
      flights = record { prepared = tt; today = tt; other = tt; once = λ id. ground arith };
      planes_table = record { found = λ id. refl; once = λ id. ground arith; no_invalid = refl };
      launch_methods_table = record {
        found = λ id. refl;
        once = λ id. ground arith;
        no_invalid = refl;
      };
      planes = record {
        listed = tt;
        no_invalid = refl;
        registrations = λ k id. refl;
        flarm_ids = λ k id. refl;
      };
      launch_methods = record { no_invalid = refl; types = λ k id. refl };
      people = record {
        table = record { found = λ id. refl; once = λ id. ground arith; no_invalid = refl };
        last_names = λ k id. refl;
        first_names = λ k id. refl;
        names = λ k id. refl;
      };
      flarm_net = record { table = v.table; flarm_ids = v.flarm_ids };
    },
    λ id. (ground arith, ground arith, ground arith, ground arith),
  )
