-- ===== src/Cache/Events/Consistency.antt =====
-- The agreement of all lists and hashes of the cache (src/db/cache) after a database event.
use startkladde.Prelude.{◌≡◌, Option, some}
use startkladde.Qt.{Qt}
use startkladde.Cache.Objects.{Objects}
use startkladde.Cache.Planes as Planes
use startkladde.Cache.Planes.Consistency as PlanesConsistency
use startkladde.Cache.LaunchMethods as LaunchMethods
use startkladde.Cache.LaunchMethods.ByType as ByType
use startkladde.Cache.Contents.{Contents}
use startkladde.Cache.People as People
use startkladde.Cache.People.Consistency as PeopleConsistency
use startkladde.Cache.FlarmNet as FlarmNet
use startkladde.Cache.FlarmNet.Consistency as FlarmNetConsistency
use startkladde.Cache.Flights as Flights
use startkladde.Cache.Flights.{Cache}
use startkladde.Cache.Flights.Invariant as Invariant
use startkladde.Cache.Events.{
  DbEvent, table_flights, table_launch_methods, table_people, table_planes, table_flarm_net_records,
}
use startkladde.Cache.Table.{IsTable}
use startkladde.Cache.Events.Listing.{
  IsUsed, LaunchMethodsListed, IsListedPlane, IsListedLaunchMethod,
}

module _ ⦃q : Qt⦄ where
  -- Every table of the cache is consistent.
  pub record IsConsistent (c : Cache) : Type 0 where
    pub flights : Invariant.IsConsistent c
    pub planes_table : IsTable (λ p. p.id) c.objects.planes c.objects.planes_by_id
    pub launch_methods_table : LaunchMethodsListed c.objects
    pub planes : PlanesConsistency.IsConsistent c.objects
    pub launch_methods : ByType.IsConsistent c.objects
    pub people : PeopleConsistency.IsConsistent c.contents
    pub flarm_net : FlarmNetConsistency.IsConsistent c.contents

  abbrev pub IsProperEvent : DbEvent → Cache → Type 0
  IsProperEvent (table_flights e) c = Invariant.IsNew e c
  IsProperEvent (table_launch_methods e) c = IsListedLaunchMethod e c.objects
  IsProperEvent (table_people e) c = PeopleConsistency.IsProperEvent e c.contents
  IsProperEvent (table_planes e) c = IsListedPlane e c.objects
  IsProperEvent (table_flarm_net_records e) c = FlarmNetConsistency.IsProperEvent e c.contents

  -- The result is a consistent cache, in particular there is one.
  abbrev pub IsSafe : Option Cache → Type 0
  IsSafe o = (d : Cache) × (o ≡ some d) × IsConsistent d × IsUsed d.objects
