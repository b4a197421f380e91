-- ===== src/Cache/People/Consistency.antt =====
-- The list and the hashes of people (src/db/cache), and when they agree.
use startkladde.Prelude.{ℕ, true, ◌≡◌, sym, Option, none, some, List}
use startkladde.Qt.{Qt}
use startkladde.DbId.{id_valid}
use startkladde.Container.{nat_eq, string_eq, pair_eq, value, insert, remove}
use startkladde.Model.Person.{Person}
use startkladde.Cache.EntityList.{remove_by_id}
use startkladde.Cache.Index.Counted.{IsCounted, IsCounted-remove, IsCounted-update}
use startkladde.Cache.Objects.{get_object}
use startkladde.Cache.Planes.Consistency.{get_object-value}
use startkladde.Cache.Table.{IsTable, IsTable-add, IsTable-delete, IsTable-change}
use startkladde.Cache.Contents.{Contents}
use startkladde.Cache.People.{
  PersonEvent, person_add, person_change, person_delete, person_added, person_deleted,
  person_updated, handle_person_changed, update_hashes_person_added, update_hashes_person_deleted,
  update_hashes_person_updated, name_of,
}

module _ ⦃q : Qt⦄ where
  open q use {Date, to_lower}

  pub record IsConsistent (c : Contents) : Type 0 where
    pub table : IsTable (λ p. p.id) c.people c.people_by_id
    pub last_names : IsCounted (λ p. to_lower p.last_name) c.people_by_id c.person_ids_by_last_name
    pub first_names :
        IsCounted (λ p. to_lower p.first_name) c.people_by_id c.person_ids_by_first_name
    pub names : IsCounted name_of c.people_by_id c.person_ids_by_name

  -- An added person has a new valid identifier, a changed one is in the cache.
  abbrev pub IsProperEvent : PersonEvent → Contents → Type 0
  IsProperEvent (person_add p) c = (id_valid p.id ≡ true) × (value p.id c.people_by_id ≡ none)
  IsProperEvent (person_change p) c =
      (id_valid p.id ≡ true) × ((old : Person Date) × (value p.id c.people_by_id ≡ some old))
  IsProperEvent (person_delete id) c = Unit {0}

  module _ (c : Contents) (v : IsConsistent c) where
    deleted-IsConsistent :
        (id : ℕ) (old : Option (Person Date))
        → value id c.people_by_id ≡ old
        → IsConsistent (
            update_hashes_person_deleted id old (record c {
              people = remove_by_id (λ p. p.id) id c.people;
              people_by_id = remove id c.people_by_id;
            }))
    unfolding update_hashes_person_deleted
    deleted-IsConsistent id none e = record {
      table = IsTable-delete (λ p. p.id) c.people c.people_by_id v.table id;
      last_names = IsCounted-remove _ c.people_by_id _ v.last_names id none e;
      first_names = IsCounted-remove _ c.people_by_id _ v.first_names id none e;
      names = IsCounted-remove name_of c.people_by_id _ v.names id none e;
    }
    deleted-IsConsistent id (some old) e = record {
      table = IsTable-delete (λ p. p.id) c.people c.people_by_id v.table id;
      last_names = IsCounted-remove _ c.people_by_id _ v.last_names id (some old) e;
      first_names = IsCounted-remove _ c.people_by_id _ v.first_names id (some old) e;
      names = IsCounted-remove name_of c.people_by_id _ v.names id (some old) e;
    }

    -- With the new list's agreement, for a person that is added or changed.
    updated-IsConsistent :
        (p : Person Date) (old : Option (Person Date)) (people : List (Person Date))
        → value p.id c.people_by_id ≡ old
        → IsTable (λ p. p.id) people (insert p.id p c.people_by_id)
        → IsConsistent (
            update_hashes_person_updated p old
              (record c { people = people; people_by_id = insert p.id p c.people_by_id }))
    unfolding update_hashes_person_updated update_hashes_person_added update_hashes_person_deleted
    updated-IsConsistent p none people e t = record {
      table = t;
      last_names = IsCounted-update _ c.people_by_id _ v.last_names p.id p none e;
      first_names = IsCounted-update _ c.people_by_id _ v.first_names p.id p none e;
      names = IsCounted-update name_of c.people_by_id _ v.names p.id p none e;
    }
    updated-IsConsistent p (some old) people e t = record {
      table = t;
      last_names = IsCounted-update _ c.people_by_id _ v.last_names p.id p (some old) e;
      first_names = IsCounted-update _ c.people_by_id _ v.first_names p.id p (some old) e;
      names = IsCounted-update name_of c.people_by_id _ v.names p.id p (some old) e;
    }

  -- Every database event on a person, where an added person has a new valid identifier and a
  -- changed one is in the cache, keeps the people of the cache consistent: the list and the hash by
  -- identifier hold the same people, each once, and the hashes by last name, by first name and by
  -- both, in lower case, pair a name once with the identifier of each person of that name and with
  -- no other.
  pub handle_person_changed-IsConsistent :
      (c : Contents) (event : PersonEvent)
      → IsConsistent c
      → IsProperEvent event c
      → IsConsistent (handle_person_changed event c)
  unfolding handle_person_changed person_added person_deleted person_updated
      update_hashes_person_updated update_hashes_person_deleted
  handle_person_changed-IsConsistent c (person_add p) v (n, absent) =
      updated-IsConsistent c v p none _ absent
        (IsTable-add (λ p. p.id) c.people c.people_by_id v.table p n absent)
  handle_person_changed-IsConsistent c (person_change p) v (n, (old, there)) =
      updated-IsConsistent c v p (get_object c.people_by_id p.id) _
        (sym (get_object-value c.people_by_id p.id v.table.no_invalid))
        (IsTable-change (λ p. p.id) c.people c.people_by_id v.table p old n there)
  handle_person_changed-IsConsistent c (person_delete id) v h =
      deleted-IsConsistent c v id (get_object c.people_by_id id)
        (sym (get_object-value c.people_by_id id v.table.no_invalid))
