-- ===== src/Cache/FlarmNet/Consistency.antt =====
-- The list and the hashes of FlarmNet records (src/db/cache), and when they agree.
use startkladde.Prelude.{ℕ, true, false, ◌≡◌, refl, ap, ◌∙◌, [], ◌∷◌, Option, none, some, arith}
use startkladde.Prelude.{Bool-cases, inl, inr, String, List}
use startkladde.Qt.{Qt}
use startkladde.DbId.{id_valid}
use startkladde.Container.{Hash, nat_eq, string_eq, value, insert, remove, contains, remove_pair}
use startkladde.Model.FlarmNetRecord.{FlarmNetRecord}
use startkladde.Cache.EntityList.{remove_by_id, replace_by_id}
use startkladde.Cache.Index.Counted.{IsCounted, IsCounted-remove, IsCounted-update}
use startkladde.Cache.Planes.Consistency.{get_object-value}
use startkladde.Cache.Table.{IsTable, IsTable-add, IsTable-delete, IsTable-change}
use startkladde.Cache.Contents.{Contents}
use startkladde.Cache.FlarmNet.{
  FlarmNetEvent, flarm_net_add, flarm_net_change, flarm_net_delete, flarm_net_record_added,
  flarm_net_record_deleted, flarm_net_record_updated, handle_flarm_net_changed,
  update_hashes_flarm_net_record_added, update_hashes_flarm_net_record_deleted,
  update_hashes_flarm_net_record_updated, map_contents,
}

-- Removing a pair whose key is absent changes nothing.
remove_pair-absent :
    (k : String) (id : ℕ) (h : Hash String ℕ) → contains k h ≡ false → remove_pair k id h ≡ h
unfolding contains remove_pair
remove_pair-absent k id [] e = refl
remove_pair-absent k id ((j, i) ∷ h) e = ground (arith, remove_pair-absent k id h)

module _ ⦃q : Qt⦄ where
  pub record IsConsistent (c : Contents) : Type 0 where
    pub table : IsTable (λ r. r.id) c.flarm_net_records c.flarm_net_records_by_id
    pub flarm_ids :
        IsCounted (λ r. r.flarm_id) c.flarm_net_records_by_id c.flarm_net_record_ids_by_flarm_id

  -- The result is a consistent cache, in particular there is one.
  abbrev pub IsSafe : Option Contents → Type 0
  IsSafe o = (c : Contents) × (o ≡ some c) × IsConsistent c

  -- An added record has a new valid identifier, a changed or deleted one is in the cache.
  abbrev pub IsProperEvent : FlarmNetEvent → Contents → Type 0
  IsProperEvent (flarm_net_add r) c =
      (id_valid r.id ≡ true) × (value r.id c.flarm_net_records_by_id ≡ none)
  IsProperEvent (flarm_net_change r) c =
      (id_valid r.id ≡ true)
      × ((old : FlarmNetRecord) × (value r.id c.flarm_net_records_by_id ≡ some old))
  IsProperEvent (flarm_net_delete id) c =
      (old : FlarmNetRecord) × (value id c.flarm_net_records_by_id ≡ some old)

  module _ (c : Contents) (v : IsConsistent c) where
    -- The cache with another list and hash by identifier, and without the old record's pair.
    abbrev unindexed : ℕ → FlarmNetRecord → List FlarmNetRecord → Hash ℕ FlarmNetRecord → Contents
    unindexed id old records by_id = record c {
      flarm_net_records = records;
      flarm_net_records_by_id = by_id;
      flarm_net_record_ids_by_flarm_id =
          remove_pair old.flarm_id id c.flarm_net_record_ids_by_flarm_id;
    }

    -- The test of the source before it removes the pair only saves a search.
    deleted_index :
        (id : ℕ) (old : FlarmNetRecord) (records : List FlarmNetRecord)
        (by_id : Hash ℕ FlarmNetRecord)
        → update_hashes_flarm_net_record_deleted id
            (some old)
            (record c { flarm_net_records = records; flarm_net_records_by_id = by_id })
          ≡ some (unindexed id old records by_id)
    unfolding update_hashes_flarm_net_record_deleted
    deleted_index id old records by_id =
        elim (Bool-cases (contains old.flarm_id c.flarm_net_record_ids_by_flarm_id)) [
          | inl there ↦ rw there refl
          | inr absent ↦ rw (absent, remove_pair-absent old.flarm_id id _ absent) refl
        ]

    deleted-IsSafe :
        (id : ℕ) (old : FlarmNetRecord)
        → value id c.flarm_net_records_by_id ≡ some old
        → IsSafe (flarm_net_record_deleted id c)
    unfolding flarm_net_record_deleted
    deleted-IsSafe id old e = (
      unindexed id old (remove_by_id (λ r. r.id) id c.flarm_net_records)
          (remove id c.flarm_net_records_by_id),
      rw (get_object-value c.flarm_net_records_by_id id v.table.no_invalid ∙ e)
          (deleted_index id old _ _),
      record {
        table = IsTable-delete (λ r. r.id) c.flarm_net_records _ v.table id;
        flarm_ids = IsCounted-remove _ _ _ v.flarm_ids id (some old) e;
      },
    )

    updated-IsSafe :
        (r old : FlarmNetRecord)
        → id_valid r.id ≡ true
        → value r.id c.flarm_net_records_by_id ≡ some old
        → IsSafe (flarm_net_record_updated r c)
    unfolding flarm_net_record_updated update_hashes_flarm_net_record_updated
        update_hashes_flarm_net_record_added
    updated-IsSafe r old n e = (
      update_hashes_flarm_net_record_added r (
          unindexed r.id old (replace_by_id (λ r. r.id) r.id r c.flarm_net_records)
            (insert r.id r c.flarm_net_records_by_id)),
      rw (get_object-value c.flarm_net_records_by_id r.id v.table.no_invalid ∙ e)
          (ap (map_contents (update_hashes_flarm_net_record_added r)) (deleted_index r.id old _ _)),
      record {
        table = IsTable-change (λ r. r.id) c.flarm_net_records _ v.table r old n e;
        flarm_ids = IsCounted-update _ _ _ v.flarm_ids r.id r (some old) e;
      },
    )

  -- Every database event on a FlarmNet record, where an added record has a new valid identifier and
  -- a changed or deleted one is in the cache, is handled without a NULL being dereferenced, and
  -- keeps the FlarmNet records of the cache consistent: the list and the hash by identifier hold
  -- the same records, each once, and the hash by FLARM identifier pairs it once with each record
  -- that has it and with no other.
  pub handle_flarm_net_changed-IsSafe :
      (c : Contents) (event : FlarmNetEvent)
      → IsConsistent c
      → IsProperEvent event c
      → IsSafe (handle_flarm_net_changed event c)
  unfolding handle_flarm_net_changed flarm_net_record_added update_hashes_flarm_net_record_added
  handle_flarm_net_changed-IsSafe c (flarm_net_add r) v (n, absent) = (
    _,
    refl,
    record {
      table = IsTable-add (λ r. r.id) c.flarm_net_records _ v.table r n absent;
      flarm_ids = IsCounted-update _ _ _ v.flarm_ids r.id r none absent;
    },
  )
  handle_flarm_net_changed-IsSafe c (flarm_net_change r) v (n, (old, there)) =
      updated-IsSafe c v r old n there
  handle_flarm_net_changed-IsSafe c (flarm_net_delete id) v (old, there) =
      deleted-IsSafe c v id old there

  -- Deleting or changing a record that the cache does not hold dereferences NULL.
  pub handle_flarm_net_changed_unknown :
      (c : Contents) (r : FlarmNetRecord)
      → IsConsistent c
      → value r.id c.flarm_net_records_by_id ≡ none
      → (handle_flarm_net_changed (flarm_net_delete r.id) c ≡ none)
        × (handle_flarm_net_changed (flarm_net_change r) c ≡ none)
  unfolding handle_flarm_net_changed flarm_net_record_deleted flarm_net_record_updated
      update_hashes_flarm_net_record_updated update_hashes_flarm_net_record_deleted
  handle_flarm_net_changed_unknown c r v missing =
      let e = get_object-value c.flarm_net_records_by_id r.id v.table.no_invalid ∙ missing in
      (rw e refl, rw e refl)
