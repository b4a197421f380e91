-- ===== src/Cache/Refresh/Objects/People.antt =====
-- The people of the cache after they are read again (src/db/cache/Cache.cpp, refreshPeople).
use mathlib.Core.List.{append_assoc, append-nil}
use startkladde.Prelude.{
  ℕ, ◌+◌, ◌≤◌, true, ◌≡◌, refl, sym, ◌∙◌, List, [], ◌∷◌, ◌++◌, map, none, arith,
}
use startkladde.Prelude.Int.{ℤ}
use startkladde.Prelude.All.{All}
use startkladde.Qt.{Qt}
use startkladde.DbId.{id_valid}
use startkladde.Container.{nat_eq, value, insert}
use startkladde.Model.Person.{Person}
use startkladde.Cache.EntityList.{count_id, count_id-append}
use startkladde.Cache.Table.{find}
use startkladde.Cache.Contents.{Contents}
use startkladde.Cache.People.{
  update_hashes_person_added, person_added, person_add, handle_person_changed,
}
use startkladde.Cache.People.Consistency.{IsConsistent, handle_person_changed-IsConsistent}
use startkladde.Cache.Refresh.Objects.{
  add_people, refresh_person_objects, refresh_people, clear_person_hashes,
}

module _ ⦃q : Qt⦄ where
  open q use {Date}

  abbrev People : Type 0
  People = List (Person Date)

  abbrev occurs : ℕ → People → ℕ
  occurs id ps = count_id (λ p. p.id) id ps

  find-none : (xs : People) (id : ℕ) → occurs id xs ≡ 0 → find (λ p. p.id) id xs ≡ none
  find-none [] id h = refl
  find-none (x ∷ xs) id h = ground (arith, find-none xs id)

  -- A step of the loop does what the handler of an added person does, but for the list.
  added :
      (p : Person Date) (c : Contents) (xs : People)
      → id_valid p.id ≡ true
      → occurs p.id xs ≡ 0
      → IsConsistent (record c { people = xs })
      → IsConsistent
          (record (update_hashes_person_added p
            (record c { people_by_id = insert p.id p c.people_by_id })) { people = xs ++ p ∷ [] })
  unfolding person_added handle_person_changed update_hashes_person_added
  added p c xs n h v =
      handle_person_changed-IsConsistent (record c { people = xs }) (person_add p) v
        (n, v.table.found p.id ∙ find-none xs p.id h)

  -- The list and the hashes agree for the people that the loop has gone through.
  add_people-IsConsistent :
      (ys xs : People) (c : Contents)
      → All (λ p. id_valid p.id ≡ true) ys
      → ((id : ℕ) → occurs id xs + occurs id ys ≤ 1)
      → IsConsistent (record c { people = xs })
      → IsConsistent (record (add_people ys c) { people = xs ++ ys })
  unfolding add_people update_hashes_person_added
  add_people-IsConsistent [] xs c n u v = rw (append-nil xs) v
  add_people-IsConsistent (p ∷ ps) xs c n u v = rw (sym (append_assoc xs (p ∷ []) ps)) (
      add_people-IsConsistent ps (xs ++ p ∷ [])
        (update_hashes_person_added p (record c { people_by_id = insert p.id p c.people_by_id }))
        n.1 (λ id. ground (arith, u id, count_id-append (λ (p : Person Date). p.id) id xs (p ∷ [])))
        (added p c xs n.0 (ground (arith, u p.id)) v))

  add_people-people : (ys : People) (c : Contents) → (add_people ys c).people ≡ c.people
  unfolding add_people update_hashes_person_added
  add_people-people [] c = refl
  add_people-people (p ∷ ps) c =
      add_people-people ps
        (update_hashes_person_added p (record c { people_by_id = insert p.id p c.people_by_id }))

  cleared-IsConsistent :
      (c : Contents)
      → IsConsistent (clear_person_hashes (record c { people = []; people_by_id = [] }))
  unfolding value
  cleared-IsConsistent c = record {
    table = record { found = λ id. refl; once = λ id. ground arith; no_invalid = refl };
    last_names = λ k id. refl;
    first_names = λ k id. refl;
    names = λ k id. refl;
  }

  -- Reading the people again leaves them consistent, whatever the cache held before, where the
  -- database gives people with valid identifiers, none of them twice; the people of the cache are
  -- then those of the database, and the list for the display is their sorted list.
  pub refresh_people-IsConsistent :
      (std_sort : List (Person Date × ℤ) → List (Person Date × ℤ)) (flights : ℕ → ℤ)
      (new_objects : List (Person Date)) (c : Contents)
      → All (λ p. id_valid p.id ≡ true) new_objects
      → ((id : ℕ) → occurs id new_objects ≤ 1)
      → IsConsistent (refresh_people std_sort flights new_objects c)
        × ((refresh_people std_sort flights new_objects c).people ≡ new_objects)
        × ((refresh_people std_sort flights new_objects c).people_sorted_by_frequency
            ≡ std_sort (map (λ p. (p, flights p.id)) new_objects))
  unfolding refresh_people refresh_person_objects
  refresh_people-IsConsistent std_sort flights new_objects c n u =
      let start : Contents =
        clear_person_hashes (record c { people = new_objects; people_by_id = [] }) in
      let listed : (add_people new_objects start).people ≡ new_objects =
        add_people-people new_objects start in
      let v =
        add_people-IsConsistent new_objects [] start n (λ id. omega (arith, u id))
          (cleared-IsConsistent c) in
      (
        record {
          table = rw listed v.table;
          last_names = v.last_names;
          first_names = v.first_names;
          names = v.names;
        },
        listed,
        rw listed refl,
      )
