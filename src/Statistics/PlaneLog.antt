-- ===== src/Statistics/PlaneLog.antt =====
-- src/statistics/PlaneLog.cpp: the entries of the log of one plane and of all planes. An entry is
-- modelled without the pilot's name, the operation time and the comments, which are display texts
-- and sums of durations. std::sort and the order of a QSet's values are not part of the repository,
-- so they are parameters.
pub mod Entries
pub mod Creation
use startkladde.Prelude.{
  ℕ, zero, suc, ◌+◌, ◌==◌, ltb, Bool, true, false, not, ◌&&◌, ◌||◌, String, List, [], ◌∷◌, ◌++◌,
  map, Option, none, some, if◌then◌else◌, str_eq,
}
use startkladde.Prelude.Int.{ℤ, pos, ◌+ℤ◌}
use startkladde.Prelude.Lists.{filter}
use startkladde.Qt.{Qt}
use startkladde.DbId.{id_valid}
use startkladde.Model.Mode.{mode_local, mode_eq}
use startkladde.Model.FlightType.{type_copilot_recorded, type_always_has_copilot}
use startkladde.Model.Plane.{Plane, category_eq, category_glider, category_motorglider}
use startkladde.Cache.Objects.{Objects, get_plane}
use startkladde.Flight.{Flight, finished, is_towflight}
use startkladde.Flight.Errors.{copilot_specified}
use startkladde.Flight.Order.{eff_datum, less_than}

-- What it uses of C++ and Qt: std::sort, and the values of a QSet of identifiers.
pub record Sorting : Type 1 where
  pub std_sort : {A : Type 0} → (A → A → Bool) → List A → List A
  pub set_values : List ℕ → List ℕ

-- A plane that is not in the cache is `none`.
abbrev pub is_glider : Option Plane → Bool
is_glider none = false
is_glider (some p) =
    category_eq p.category category_glider || category_eq p.category category_motorglider

-- The planes of the identifiers, without those that are not in the cache.
abbrev pub cons_found : Option Plane → List Plane → List Plane
cons_found none planes = planes
cons_found (some p) planes = p ∷ planes

unfoldable pub planes_of : Objects → List ℕ → List Plane
planes_of cache [] = []
planes_of cache (id ∷ ids) = cons_found (get_plane cache id) (planes_of cache ids)

module _ ⦃q : Qt⦄ where
  open q use {DateTime, Date, trimmed, to_lower}

  -- Flight.cpp: whether `f` can be merged with the flight before it.
  unfoldable pub collective_log_entry_possible :
      Flight DateTime → Flight DateTime → Option Plane → Bool
  collective_log_entry_possible f prev plane =
      let place : String → String = λ text. to_lower (trimmed text) in
      if not (mode_eq prev.mode mode_local) || not (mode_eq f.mode mode_local)
      then false
      else if not (str_eq (place prev.departure_location) (place prev.landing_location))
      then false
      else if not (str_eq (place prev.landing_location) (place f.departure_location))
      then false
      else if not (str_eq (place f.departure_location) (place f.landing_location))
      then false
      else if is_glider plane
      then true
      else is_towflight prev && is_towflight f

  -- Flight.h
  unfoldable pub has_copilot : Flight DateTime → Bool
  has_copilot f =
      type_always_has_copilot f.type || (type_copilot_recorded f.type && copilot_specified f)

  unfoldable pub num_passengers : Flight DateTime → ℕ
  unfolding has_copilot
  num_passengers f = if has_copilot f then 2 else 1

  pub record Entry : Type 0 where
    pub registration : String
    pub type : String
    pub date : Date
    pub min_passengers : ℕ
    pub max_passengers : ℕ
    pub departure_location : String
    pub landing_location : String
    pub departure_time : DateTime
    pub landing_time : DateTime
    pub num_landings : ℤ
    pub valid : Bool

  -- One round of the loop over the flights of an entry.
  unfoldable pub add_flight : Entry → Flight DateTime → Entry
  unfolding num_passengers
  add_flight entry f =
      let n = num_passengers f in
      record entry {
        min_passengers =
            if (entry.min_passengers == 0) || ltb n entry.min_passengers
            then n
            else entry.min_passengers;
        max_passengers =
            if (entry.max_passengers == 0) || ltb entry.max_passengers n
            then n
            else entry.max_passengers;
        num_landings = entry.num_landings +ℤ f.num_landings;
        valid = if not (finished f) then false else entry.valid;
      }

  unfoldable pub add_flights : Entry → List (Flight DateTime) → Entry
  unfolding add_flight
  add_flights entry [] = entry
  add_flights entry (f ∷ flights) = add_flights (add_flight entry f) flights

  abbrev pub last_of : Flight DateTime → List (Flight DateTime) → Flight DateTime
  last_of f [] = f
  last_of f (g ∷ flights) = last_of g flights

  abbrev plane_text : (Plane → String) → Option Plane → String
  plane_text text none = ""
  plane_text text (some p) = text p

  -- Entry::create of a list; `none` where the assertion that it is not empty fails.
  unfoldable pub create : Objects → List (Flight DateTime) → Option Entry
  unfolding add_flights eff_datum
  create cache [] = none
  create cache (first ∷ flights) =
      let last = last_of first flights in
      let plane = get_plane cache last.plane_id in
      some (
        add_flights
          (record {
            registration = plane_text (λ p. p.registration) plane;
            type = plane_text (λ p. p.type) plane;
            date = eff_datum last;
            min_passengers = 0;
            max_passengers = 0;
            departure_location = trimmed first.departure_location;
            landing_location = trimmed last.landing_location;
            departure_time = first.departure_time;
            landing_time = last.landing_time;
            num_landings = pos 0;
            valid = true;
          })
          (first ∷ flights))

  -- The loop over the sorted flights: the lists that entries are created from, of the flights
  -- gathered so far, the flight before, and the flights to come.
  unfoldable pub entry_flights :
      Option Plane
      → List (Flight DateTime)
      → Option (Flight DateTime)
      → List (Flight DateTime)
      → List (List (Flight DateTime))
  unfolding collective_log_entry_possible
  entry_flights plane gathered previous [] = gathered ∷ []
  entry_flights plane gathered none (f ∷ flights) =
      entry_flights plane (gathered ++ f ∷ []) (some f) flights
  entry_flights plane gathered (some previous) (f ∷ flights) =
      let merged = entry_flights plane (gathered ++ f ∷ []) (some f) flights in
      let apart = entry_flights plane (f ∷ []) (some f) flights in
      if not (collective_log_entry_possible f previous plane) then gathered ∷ apart else merged

  -- The flights that the log of a plane is about.
  unfoldable pub interesting_flights : ℕ → List (Flight DateTime) → List (Flight DateTime)
  interesting_flights plane_id flights =
      filter (λ f. finished f && (f.plane_id == plane_id)) flights

  -- All of the entries, or `none` if one of them cannot be created.
  abbrev pub and_then : {A B : Type 0} → Option A → (A → Option B) → Option B
  and_then none f = none
  and_then (some a) f = f a

  unfoldable pub create_each : Objects → List (List (Flight DateTime)) → Option (List Entry)
  unfolding create
  create_each cache [] = some []
  create_each cache (flights ∷ rest) =
      and_then (create cache flights)
        (λ entry. and_then (create_each cache rest) (λ entries. some (entry ∷ entries)))

  module _ (s : Sorting) where
    unfoldable pub plane_flights : ℕ → List (Flight DateTime) → List (Flight DateTime)
    unfolding interesting_flights
    plane_flights plane_id flights = s.std_sort less_than (interesting_flights plane_id flights)

    -- createNew of one plane
    unfoldable pub create_new : ℕ → List (Flight DateTime) → Objects → Option (List Entry)
    unfolding create_each entry_flights plane_flights
    create_new plane_id flights cache =
        create_each cache
          (entry_flights (get_plane cache plane_id) [] none (plane_flights plane_id flights))

    -- createNew of all planes: the planes of the finished flights that are in the cache, in the
    -- order `plane_less` (Plane::clubAwareLessThan).
    abbrev pub plane_ids : List (Flight DateTime) → List ℕ
    plane_ids flights =
        filter id_valid (s.set_values (map (λ f. f.plane_id) (filter finished flights)))

    unfoldable pub create_planes :
        List Plane → List (Flight DateTime) → Objects → Option (List Entry)
    unfolding create_new
    create_planes [] flights cache = some []
    create_planes (p ∷ planes) flights cache =
        and_then (create_new p.id flights cache) (λ entries.
          and_then (create_planes planes flights cache) (λ more. some (entries ++ more)))

    unfoldable pub create_all :
        (Plane → Plane → Bool) → List (Flight DateTime) → Objects → Option (List Entry)
    unfolding create_planes planes_of
    create_all plane_less flights cache =
        create_planes (s.std_sort plane_less (planes_of cache (plane_ids flights))) flights cache
