-- ===== src/Cache/Events/Separation.antt =====
-- What the handler of a table (src/db/cache/Cache.cpp) does to the other tables.
use startkladde.Prelude.{◌≡◌, refl, Option, none, some, arith, Option-cases}
use startkladde.Prelude.{inl, inr}
use startkladde.Qt.{Qt}
use startkladde.Cache.Objects.{Objects, get_object, get_launch_method, get_plane}
use startkladde.Cache.Planes as Planes
use startkladde.Cache.Planes.Consistency as PlanesConsistency
use startkladde.Cache.LaunchMethods as LaunchMethods
use startkladde.Cache.LaunchMethods.ByType as ByType
use startkladde.Cache.Contents.{Contents}
use startkladde.Cache.People as People
use startkladde.Cache.People.Consistency as PeopleConsistency
use startkladde.Cache.FlarmNet as FlarmNet
use startkladde.Cache.FlarmNet.Consistency as FlarmNetConsistency
use startkladde.Cache.Flights as Flights
use startkladde.Cache.Flights.{Cache}
use startkladde.Cache.Flights.Invariant as Invariant
use startkladde.Cache.Events.{with_contents}
use startkladde.Cache.Events.Listing.{PlanesListed, LaunchMethodsListed}

module _ ⦃q : Qt⦄ where
  pub flights_keep :
      (e : Flights.FlightEvent) (c : Cache) → (Flights.handle_db_changed e c).contents ≡ c.contents
  unfolding Flights.handle_db_changed Flights.object_added Flights.object_updated
      Flights.object_deleted Flights.update_hashes Flights.update_hashes_object_added
  flights_keep (Flights.type_add f) c = ground arith
  flights_keep (Flights.type_change f) c = ground arith
  flights_keep (Flights.type_delete id) c = refl

  pub flights_moved :
      (contents : Contents) (c : Cache)
      → Invariant.IsConsistent c
      → Invariant.IsConsistent (with_contents contents c)
  flights_moved contents c v = record {
    prepared = v.prepared;
    today = v.today;
    other = v.other;
    once = v.once;
  }

  -- The handlers of planes and of launch methods leave each other's fields alone.
  module _ (c : Objects) where
    abbrev pub SameLaunchMethods : Objects → Type 0
    SameLaunchMethods d =
        (d.launch_methods_by_id ≡ c.launch_methods_by_id)
        × (d.launch_method_ids_by_type ≡ c.launch_method_ids_by_type)
        × (d.launch_methods ≡ c.launch_methods)

    abbrev pub SamePlanes : Objects → Type 0
    SamePlanes d =
        (d.planes ≡ c.planes)
        × (d.planes_by_id ≡ c.planes_by_id)
        × (d.plane_ids_by_registration ≡ c.plane_ids_by_registration)
        × (d.plane_ids_by_flarm_id ≡ c.plane_ids_by_flarm_id)
        × (d.planes_sorted_by_usage ≡ c.planes_sorted_by_usage)

    pub planes_keep : (e : Planes.PlaneEvent) → SameLaunchMethods (Planes.handle_plane_changed e c)
    unfolding Planes.handle_plane_changed Planes.plane_added Planes.plane_updated
        Planes.plane_deleted Planes.update_hashes_plane_updated Planes.update_hashes_plane_added
        Planes.update_hashes_plane_deleted
    planes_keep (Planes.plane_add p) = (refl, refl, refl)
    planes_keep (Planes.plane_change p) = elim (Option-cases (get_plane c p.id)) [
      | inl e ↦ rw e (refl, refl, refl)
      | inr (old, e) ↦ rw e (refl, refl, refl)
    ]
    planes_keep (Planes.plane_delete id) = elim (Option-cases (get_plane c id)) [
      | inl e ↦ rw e (refl, refl, refl)
      | inr (old, e) ↦ rw e (refl, refl, refl)
    ]

    pub launch_methods_keep :
        (e : LaunchMethods.LaunchMethodEvent)
        → SamePlanes (LaunchMethods.handle_launch_method_changed e c)
    unfolding LaunchMethods.handle_launch_method_changed LaunchMethods.launch_method_added
        LaunchMethods.launch_method_updated LaunchMethods.launch_method_deleted
        LaunchMethods.update_hashes_launch_method_updated
        LaunchMethods.update_hashes_launch_method_added
        LaunchMethods.update_hashes_launch_method_deleted
    launch_methods_keep (LaunchMethods.launch_method_add l) = (refl, refl, refl, refl, refl)
    launch_methods_keep (LaunchMethods.launch_method_change l) =
        elim (Option-cases (get_launch_method c l.id)) [
          | inl e ↦ rw e (refl, refl, refl, refl, refl)
          | inr (old, e) ↦ rw e (refl, refl, refl, refl, refl)
        ]
    launch_methods_keep (LaunchMethods.launch_method_delete id) =
        elim (Option-cases (get_launch_method c id)) [
          | inl e ↦ rw e (refl, refl, refl, refl, refl)
          | inr (old, e) ↦ rw e (refl, refl, refl, refl, refl)
        ]

    pub launch_methods_moved :
        (d : Objects) → SameLaunchMethods d → ByType.IsConsistent c → ByType.IsConsistent d
    launch_methods_moved d (a, b, e) v = record {
      no_invalid = rw a v.no_invalid;
      types = rw (a, b) v.types;
    }

    pub planes_moved :
        (d : Objects)
        → SamePlanes d
        → PlanesConsistency.IsConsistent c
        → PlanesConsistency.IsConsistent d
    planes_moved d (a, b, e, f, g) v = record {
      listed = rw (a, b) v.listed;
      no_invalid = rw b v.no_invalid;
      registrations = rw (b, e) v.registrations;
      flarm_ids = rw (b, f) v.flarm_ids;
    }

    pub launch_methods_listed :
        (d : Objects) → SameLaunchMethods d → LaunchMethodsListed c → LaunchMethodsListed d
    launch_methods_listed d (a, b, e) v = rw (a, e) v

    pub planes_listed : (d : Objects) → SamePlanes d → PlanesListed c → PlanesListed d
    planes_listed d (a, b, e, f, g) v = record {
      table = rw (a, b) v.table;
      used = rw (b, g) v.used;
    }

  -- The handler of people leaves all but the clubs of the other tables alone.
  module _ (c : Contents) where
    abbrev pub SameFlarmNet : Contents → Type 0
    SameFlarmNet d =
        (d.flarm_net_records ≡ c.flarm_net_records)
        × (d.flarm_net_records_by_id ≡ c.flarm_net_records_by_id)
        × (d.flarm_net_record_ids_by_flarm_id ≡ c.flarm_net_record_ids_by_flarm_id)

    abbrev pub OnlyPeople : Contents → Type 0
    OnlyPeople d =
        SamePlanes c.objects d.objects × SameLaunchMethods c.objects d.objects × SameFlarmNet d

    all_same : OnlyPeople c
    all_same = ((refl, refl, refl, refl, refl), (refl, refl, refl), (refl, refl, refl))

    pub people_keep : (e : People.PersonEvent) → OnlyPeople (People.handle_person_changed e c)
    unfolding People.handle_person_changed People.person_added People.person_updated
        People.person_deleted People.update_hashes_person_updated People.update_hashes_person_added
        People.update_hashes_person_deleted
    people_keep (People.person_add p) = all_same
    people_keep (People.person_change p) = elim (Option-cases (get_object c.people_by_id p.id)) [
      | inl e ↦ rw e all_same
      | inr (old, e) ↦ rw e all_same
    ]
    people_keep (People.person_delete id) = elim (Option-cases (get_object c.people_by_id id)) [
      | inl e ↦ rw e all_same
      | inr (old, e) ↦ rw e all_same
    ]

    pub flarm_net_moved :
        (d : Contents)
        → SameFlarmNet d
        → FlarmNetConsistency.IsConsistent c
        → FlarmNetConsistency.IsConsistent d
    flarm_net_moved d (a, b, e) v = record {
      table = rw (a, b) v.table;
      flarm_ids = rw (b, e) v.flarm_ids;
    }

    -- The handler of FlarmNet records leaves the other tables alone.
    abbrev pub SamePeople : Contents → Type 0
    SamePeople d =
        (d.people ≡ c.people)
        × (d.people_by_id ≡ c.people_by_id)
        × (d.person_ids_by_last_name ≡ c.person_ids_by_last_name)
        × (d.person_ids_by_first_name ≡ c.person_ids_by_first_name)
        × (d.person_ids_by_name ≡ c.person_ids_by_name)

    abbrev pub OnlyFlarmNet : Option Contents → Type 0
    OnlyFlarmNet none = Unit
    OnlyFlarmNet (some d) = (d.objects ≡ c.objects) × SamePeople d

    pub flarm_net_keep :
        (e : FlarmNet.FlarmNetEvent) → OnlyFlarmNet (FlarmNet.handle_flarm_net_changed e c)
    unfolding FlarmNet.handle_flarm_net_changed FlarmNet.flarm_net_record_added
        FlarmNet.flarm_net_record_updated FlarmNet.flarm_net_record_deleted
        FlarmNet.update_hashes_flarm_net_record_updated
        FlarmNet.update_hashes_flarm_net_record_added
        FlarmNet.update_hashes_flarm_net_record_deleted
    flarm_net_keep (FlarmNet.flarm_net_add r) = (refl, (refl, refl, refl, refl, refl))
    flarm_net_keep (FlarmNet.flarm_net_change r) =
        elim (Option-cases (get_object c.flarm_net_records_by_id r.id)) [
          | inl e ↦ rw e tt
          | inr (old, e) ↦ rw e (refl, (refl, refl, refl, refl, refl))
        ]
    flarm_net_keep (FlarmNet.flarm_net_delete id) =
        elim (Option-cases (get_object c.flarm_net_records_by_id id)) [
          | inl e ↦ rw e tt
          | inr (old, e) ↦ rw e (refl, (refl, refl, refl, refl, refl))
        ]

    pub people_moved :
        (d : Contents)
        → SamePeople d
        → PeopleConsistency.IsConsistent c
        → PeopleConsistency.IsConsistent d
    people_moved d (a, b, e, f, g) v = record {
      table = rw (a, b) v.table;
      last_names = rw (b, e) v.last_names;
      first_names = rw (b, f) v.first_names;
      names = rw (b, g) v.names;
    }
