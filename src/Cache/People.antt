-- ===== src/Cache/People.antt =====
-- The people of the cache: `objectAdded`, `objectDeleted` and `objectUpdated` of
-- src/db/cache/Cache.cpp at people, with the updates of the hashes of Cache_hashUpdates.cpp.
pub mod Consistency
pub mod Lookup
use startkladde.Prelude.{
  ℕ, ◌==◌, Bool, not, String, List, [], ◌∷◌, ◌++◌, Option, none, some, if◌then◌else◌,
}
use startkladde.Prelude.Int.{ℤ, pos}
use startkladde.Qt.{Qt}
use startkladde.Text.{is_blank}
use startkladde.Container.{
  nat_eq, string_eq, pair_eq, insert, remove, insert_multi, insert_unique, remove_pair, insert_text,
}
use startkladde.Model.Person.{Person}
use startkladde.Cache.EntityList.{remove_by_id, replace_by_id}
use startkladde.Cache.Objects.{get_object}
use startkladde.Cache.Planes.{insert_text_if}
use startkladde.Cache.Contents.{Contents}

module _ ⦃q : Qt⦄ where
  open q use {Date, to_lower}

  -- The key of `personIdsByName`.
  abbrev pub name_of : Person Date → String × String
  name_of p = (to_lower p.last_name, to_lower p.first_name)

  -- The loop over `peopleSortedByFrequency`.
  unfoldable pub remove_frequency : ℕ → List (Person Date × ℤ) → List (Person Date × ℤ)
  remove_frequency id [] = []
  remove_frequency id ((p, key) ∷ ps) =
      let rest = remove_frequency id ps in if p.id == id then rest else (p, key) ∷ rest

  unfoldable pub update_hashes_person_added : Person Date → Contents → Contents
  unfolding insert_text
  update_hashes_person_added p c =
      let last_lower = to_lower p.last_name in
      let first_lower = to_lower p.first_name in
      record c {
        person_last_names = insert_text p.last_name c.person_last_names;
        person_first_names = insert_text p.first_name c.person_first_names;
        last_names_by_first_name =
            (insert_unique first_lower p.last_name c.last_names_by_first_name).1;
        first_names_by_last_name =
            (insert_unique last_lower p.first_name c.first_names_by_last_name).1;
        person_ids_by_last_name = insert_multi last_lower p.id c.person_ids_by_last_name;
        person_ids_by_first_name = insert_multi first_lower p.id c.person_ids_by_first_name;
        person_ids_by_name = insert_multi (last_lower, first_lower) p.id c.person_ids_by_name;
        objects = record c.objects {
          clubs = insert_text_if p.club (not (is_blank p.club)) c.objects.clubs;
        };
        people_sorted_by_frequency = (p, pos 0) ∷ c.people_sorted_by_frequency;
      }

  -- The old person may be NULL.
  unfoldable pub update_hashes_person_deleted : ℕ → Option (Person Date) → Contents → Contents
  unfolding remove_frequency
  update_hashes_person_deleted id none c = c
  update_hashes_person_deleted id (some old) c =
      let last_lower = to_lower old.last_name in
      let first_lower = to_lower old.first_name in
      record c {
        person_ids_by_last_name = remove_pair last_lower id c.person_ids_by_last_name;
        person_ids_by_first_name = remove_pair first_lower id c.person_ids_by_first_name;
        person_ids_by_name = remove_pair (last_lower, first_lower) id c.person_ids_by_name;
        people_sorted_by_frequency = remove_frequency old.id c.people_sorted_by_frequency;
      }

  unfoldable pub update_hashes_person_updated :
      Person Date → Option (Person Date) → Contents → Contents
  unfolding update_hashes_person_added update_hashes_person_deleted
  update_hashes_person_updated p old c =
      update_hashes_person_added p (update_hashes_person_deleted p.id old c)

  unfoldable pub person_added : Person Date → Contents → Contents
  unfolding update_hashes_person_added
  person_added p c =
      update_hashes_person_added p
        (record c { people = c.people ++ p ∷ []; people_by_id = insert p.id p c.people_by_id })

  unfoldable pub person_deleted : ℕ → Contents → Contents
  unfolding update_hashes_person_deleted get_object
  person_deleted id c =
      let old = get_object c.people_by_id id in
      update_hashes_person_deleted id old (record c {
        people = remove_by_id (λ p. p.id) id c.people;
        people_by_id = remove id c.people_by_id;
      })

  unfoldable pub person_updated : Person Date → Contents → Contents
  unfolding update_hashes_person_updated get_object
  person_updated p c =
      let old = get_object c.people_by_id p.id in
      update_hashes_person_updated p old (record c {
        people = replace_by_id (λ p. p.id) p.id p c.people;
        people_by_id = insert p.id p c.people_by_id;
      })

  -- A DbEvent on the people table, and `handleDbChanged<Person>`.
  pub data PersonEvent : Type 0 where
    person_add person_change : Person Date → PersonEvent
    person_delete : ℕ → PersonEvent

  unfoldable pub handle_person_changed : PersonEvent → Contents → Contents
  unfolding person_added person_updated person_deleted
  handle_person_changed (person_add p) c = person_added p c
  handle_person_changed (person_change p) c = person_updated p c
  handle_person_changed (person_delete id) c = person_deleted id c
