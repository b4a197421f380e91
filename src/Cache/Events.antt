-- ===== src/Cache/Events.antt =====
-- The cache as a whole: `dbChanged` of src/db/cache/Cache.cpp, which hands a database event to the
-- handler of its table. That it re-emits the event is left out.
pub mod Listing
pub mod Separation
pub mod Consistency
use mathlib.Core.Path.{subst}
use startkladde.Prelude.{ℕ, ◌≡◌, refl, sym, String, List, Option, none, some, arith, Option-cases}
use startkladde.Prelude.{inl, inr}
use startkladde.Qt.{Qt}
use startkladde.Cache.Objects.{Objects, get_object, get_launch_method, get_plane}
use startkladde.Cache.Planes as Planes
use startkladde.Cache.Planes.Consistency as PlanesConsistency
use startkladde.Cache.LaunchMethods as LaunchMethods
use startkladde.Cache.LaunchMethods.ByType as ByType
use startkladde.Cache.Contents.{Contents}
use startkladde.Cache.People as People
use startkladde.Cache.People.Consistency as PeopleConsistency
use startkladde.Cache.FlarmNet as FlarmNet
use startkladde.Cache.FlarmNet.Consistency as FlarmNetConsistency
use startkladde.Cache.Flights as Flights
use startkladde.Cache.Flights.{Cache}
use startkladde.Cache.Flights.Invariant as Invariant

module _ ⦃q : Qt⦄ where
  -- A DbEvent, by its table.
  pub data DbEvent : Type 0 where
    table_flights : Flights.FlightEvent → DbEvent
    table_launch_methods : LaunchMethods.LaunchMethodEvent → DbEvent
    table_people : People.PersonEvent → DbEvent
    table_planes : Planes.PlaneEvent → DbEvent
    table_flarm_net_records : FlarmNet.FlarmNetEvent → DbEvent

  abbrev pub with_objects : Objects → Cache → Cache
  with_objects objects c = record c { contents = record c.contents { objects = objects } }

  abbrev pub with_contents : Contents → Cache → Cache
  with_contents contents c = record c { contents = contents }

  abbrev pub map_cache : Option Contents → Cache → Option Cache
  map_cache none c = none
  map_cache (some contents) c = some (with_contents contents c)

  -- `none` where the source dereferences NULL.
  unfoldable pub db_changed : DbEvent → Cache → Option Cache
  unfolding Flights.handle_db_changed LaunchMethods.handle_launch_method_changed
      People.handle_person_changed Planes.handle_plane_changed FlarmNet.handle_flarm_net_changed
  db_changed (table_flights e) c = some (Flights.handle_db_changed e c)
  db_changed (table_launch_methods e) c =
      some (with_objects (LaunchMethods.handle_launch_method_changed e c.objects) c)
  db_changed (table_people e) c = some (with_contents (People.handle_person_changed e c.contents) c)
  db_changed (table_planes e) c = some (with_objects (Planes.handle_plane_changed e c.objects) c)
  db_changed (table_flarm_net_records e) c =
      map_cache (FlarmNet.handle_flarm_net_changed e c.contents) c
