-- ===== src/ObjectList.antt =====
-- src/model/objectList/AutomaticEntityList.h: a list of objects that follows the events of the
-- database. The signals to the views are left out.
pub mod Replay
use startkladde.Prelude.{ℕ, List, [], ◌∷◌, ◌++◌, if◌then◌else◌}
use startkladde.Prelude.Int.{pos_part}
use startkladde.Prelude.Lists.{set, erase_idx}
use startkladde.Cache.EntityList.{find_by_id, is_index}

-- A DbEvent, by its type, and on the list's own table or on another one.
pub data Event (T : Type 0) : Type 0 where
  type_add type_change : T → Event T
  type_delete : ℕ → Event T
  other_table : Event T

module _ {T : Type 0} (get_id : T → ℕ) where
  -- `removeAt (i)`, `replace (i, value)`
  unfoldable pub db_event : Event T → List T → List T
  unfolding find_by_id
  db_event other_table xs = xs
  db_event (type_add value) xs = xs ++ value ∷ []
  db_event (type_delete id) xs =
      let i = find_by_id get_id id xs in if is_index i then erase_idx xs (pos_part i) else xs
  db_event (type_change value) xs =
      let i = find_by_id get_id (get_id value) xs in
      if is_index i then set xs (pos_part i) value else xs ++ value ∷ []

  -- The events in the order of their arrival.
  unfoldable pub replay : List (Event T) → List T → List T
  unfolding db_event
  replay [] xs = xs
  replay (e ∷ es) xs = replay es (db_event e xs)
