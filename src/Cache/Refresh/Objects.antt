-- ===== src/Cache/Refresh/Objects.antt =====
-- Reading the people of the cache again from the database: `refreshObjects`, `refreshPeople` and
-- `clearHashes` of src/db/cache.
pub mod People
use startkladde.Prelude.{ℕ, String, List, [], ◌∷◌, map}
use startkladde.Prelude.Int.{ℤ}
use startkladde.Qt.{Qt}
use startkladde.Container.{nat_eq, insert}
use startkladde.Model.Person.{Person}
use startkladde.Cache.Contents.{Contents}
use startkladde.Cache.People.{update_hashes_person_added}

module _ ⦃q : Qt⦄ where
  open q use {Date}

  -- `clearHashes<Person>`
  abbrev pub clear_person_hashes : Contents → Contents
  clear_person_hashes c = record c {
    person_last_names = [];
    person_first_names = [];
    last_names_by_first_name = [];
    first_names_by_last_name = [];
    person_ids_by_last_name = [];
    person_ids_by_first_name = [];
    person_ids_by_name = [];
  }

  -- The loop of `refreshObjects<Person>`.
  unfoldable pub add_people : List (Person Date) → Contents → Contents
  unfolding update_hashes_person_added
  add_people [] c = c
  add_people (p ∷ ps) c =
      add_people ps
        (update_hashes_person_added p (record c { people_by_id = insert p.id p c.people_by_id }))

  -- With the list that the database gives.
  unfoldable pub refresh_person_objects : List (Person Date) → Contents → Contents
  unfolding add_people
  refresh_person_objects new_objects c =
      add_people new_objects
        (clear_person_hashes (record c { people = new_objects; people_by_id = [] }))

  -- `std_sort` is std::sort by the sort key, `flights` the rough number of flights of a person.
  unfoldable pub refresh_people :
      (List (Person Date × ℤ) → List (Person Date × ℤ))
      → (ℕ → ℤ)
      → List (Person Date)
      → Contents
      → Contents
  unfolding refresh_person_objects
  refresh_people std_sort flights new_objects c =
      let refreshed = refresh_person_objects new_objects c in
      record refreshed {
        people_sorted_by_frequency = std_sort (map (λ p. (p, flights p.id)) refreshed.people);
      }
