-- ===== src/Cache/FlarmNet.antt =====
-- The FlarmNet records of the cache: `objectAdded`, `objectDeleted` and `objectUpdated` of
-- src/db/cache/Cache.cpp at FlarmNet records, with the updates of the hash of Cache_hashUpdates.cpp.
pub mod Consistency
use startkladde.Prelude.{ℕ, List, [], ◌∷◌, ◌++◌, Option, none, some, if◌then◌else◌}
use startkladde.Qt.{Qt}
use startkladde.Container.{nat_eq, string_eq, contains, insert, remove, insert_multi, remove_pair}
use startkladde.Model.FlarmNetRecord.{FlarmNetRecord}
use startkladde.Cache.EntityList.{remove_by_id, replace_by_id}
use startkladde.Cache.Objects.{get_object}
use startkladde.Cache.Contents.{Contents}

module _ ⦃q : Qt⦄ where
  unfoldable pub update_hashes_flarm_net_record_added : FlarmNetRecord → Contents → Contents
  update_hashes_flarm_net_record_added r c = record c {
    flarm_net_record_ids_by_flarm_id =
        insert_multi r.flarm_id r.id c.flarm_net_record_ids_by_flarm_id;
  }

  -- `none` where the source dereferences NULL: contrary to the other types, the old record is not
  -- tested.
  unfoldable pub update_hashes_flarm_net_record_deleted :
      ℕ → Option FlarmNetRecord → Contents → Option Contents
  update_hashes_flarm_net_record_deleted id none c = none
  update_hashes_flarm_net_record_deleted id (some old) c = some (record c {
    flarm_net_record_ids_by_flarm_id =
        if contains old.flarm_id c.flarm_net_record_ids_by_flarm_id
        then remove_pair old.flarm_id id c.flarm_net_record_ids_by_flarm_id
        else c.flarm_net_record_ids_by_flarm_id;
  })

  abbrev pub map_contents : (Contents → Contents) → Option Contents → Option Contents
  map_contents f none = none
  map_contents f (some c) = some (f c)

  unfoldable pub update_hashes_flarm_net_record_updated :
      FlarmNetRecord → Option FlarmNetRecord → Contents → Option Contents
  unfolding update_hashes_flarm_net_record_added update_hashes_flarm_net_record_deleted
  update_hashes_flarm_net_record_updated r old c =
      map_contents (update_hashes_flarm_net_record_added r)
        (update_hashes_flarm_net_record_deleted r.id old c)

  unfoldable pub flarm_net_record_added : FlarmNetRecord → Contents → Contents
  unfolding update_hashes_flarm_net_record_added
  flarm_net_record_added r c = update_hashes_flarm_net_record_added r (record c {
    flarm_net_records = c.flarm_net_records ++ r ∷ [];
    flarm_net_records_by_id = insert r.id r c.flarm_net_records_by_id;
  })

  unfoldable pub flarm_net_record_deleted : ℕ → Contents → Option Contents
  unfolding update_hashes_flarm_net_record_deleted get_object
  flarm_net_record_deleted id c =
      let old = get_object c.flarm_net_records_by_id id in
      update_hashes_flarm_net_record_deleted id old (record c {
        flarm_net_records = remove_by_id (λ r. r.id) id c.flarm_net_records;
        flarm_net_records_by_id = remove id c.flarm_net_records_by_id;
      })

  unfoldable pub flarm_net_record_updated : FlarmNetRecord → Contents → Option Contents
  unfolding update_hashes_flarm_net_record_updated get_object
  flarm_net_record_updated r c =
      let old = get_object c.flarm_net_records_by_id r.id in
      update_hashes_flarm_net_record_updated r old (record c {
        flarm_net_records = replace_by_id (λ r. r.id) r.id r c.flarm_net_records;
        flarm_net_records_by_id = insert r.id r c.flarm_net_records_by_id;
      })

  -- A DbEvent on the FlarmNet table, and `handleDbChanged<FlarmNetRecord>`.
  pub data FlarmNetEvent : Type 0 where
    flarm_net_add flarm_net_change : FlarmNetRecord → FlarmNetEvent
    flarm_net_delete : ℕ → FlarmNetEvent

  unfoldable pub handle_flarm_net_changed : FlarmNetEvent → Contents → Option Contents
  unfolding flarm_net_record_added flarm_net_record_updated flarm_net_record_deleted
  handle_flarm_net_changed (flarm_net_add r) c = some (flarm_net_record_added r c)
  handle_flarm_net_changed (flarm_net_change r) c = flarm_net_record_updated r c
  handle_flarm_net_changed (flarm_net_delete id) c = flarm_net_record_deleted id c
