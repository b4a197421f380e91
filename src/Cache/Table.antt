-- ===== src/Cache/Table.antt =====
-- The list of the objects of a type and their hash by identifier (`objectList` and
-- `objectsByIdHash` of src/db/cache/Cache.cpp), and when they hold the same objects.
use startkladde.Prelude.{
  ℕ, ◌≤◌, ◌==◌, true, ◌≡◌, refl, List, [], ◌∷◌, ◌++◌, Option, none, some, arith, if◌then◌else◌,
}
use startkladde.DbId.{invalid_id, id_valid}
use startkladde.Container.{Hash, nat_eq, value, insert, remove}
use startkladde.Container.Laws.{value-insert, value-remove}
use startkladde.Cache.EntityList.{
  remove_by_id, replace_by_id, count_id, count_id-append, count_id-remove_by_id,
  count_id-replace_by_id,
}

module _ {T : Type 0} (get_id : T → ℕ) where
  -- The object of the list with the identifier.
  abbrev pub find : ℕ → List T → Option T
  find id [] = none
  find id (x ∷ xs) = let rest = find id xs in if get_id x == id then some x else rest

  abbrev pub or_else : Option T → Option T → Option T
  or_else none o = o
  or_else (some x) o = some x

  abbrev overwrite : T → Option T → Option T
  overwrite object none = none
  overwrite object (some x) = some object

  pub find-append :
      (id : ℕ) (xs ys : List T) → find id (xs ++ ys) ≡ or_else (find id xs) (find id ys)
  find-append id [] ys = refl
  find-append id (x ∷ xs) ys = ground (arith, find-append id xs ys)

  find-remove_by_id :
      (i id : ℕ) (xs : List T)
      → find i (remove_by_id get_id id xs) ≡ (if id == i then none else find i xs)
  unfolding remove_by_id
  find-remove_by_id i id [] = ground arith
  find-remove_by_id i id (x ∷ xs) = ground (arith, find-remove_by_id i id xs)

  find-replace_by_id :
      (i : ℕ) (object : T) (xs : List T)
      → find i (replace_by_id get_id (get_id object) object xs)
        ≡ (if get_id object == i then overwrite object (find i xs) else find i xs)
  unfolding replace_by_id
  find-replace_by_id i object [] = ground arith
  find-replace_by_id i object (x ∷ xs) = ground (arith, find-replace_by_id i object xs)

  count_id-find : (id : ℕ) (xs : List T) → find id xs ≡ none → count_id get_id id xs ≡ 0
  count_id-find id [] h = refl
  count_id-find id (x ∷ xs) h = ground (arith, count_id-find id xs)

  -- The hash gives for each identifier the object of the list with that identifier, no two objects
  -- of the list share one, and the invalid identifier has no object.
  pub record IsTable (xs : List T) (by_id : Hash ℕ T) : Type 0 where
    pub found : (id : ℕ) → value id by_id ≡ find id xs
    pub once : (id : ℕ) → count_id get_id id xs ≤ 1
    pub no_invalid : value invalid_id by_id ≡ none

  module _ (xs : List T) (by_id : Hash ℕ T) (t : IsTable xs by_id) where
    pub IsTable-add :
        (x : T)
        → id_valid (get_id x) ≡ true
        → value (get_id x) by_id ≡ none
        → IsTable (xs ++ x ∷ []) (insert (get_id x) x by_id)
    IsTable-add x n absent = record {
      found = λ id. ground (
        arith,
        value-insert (get_id x) id x by_id,
        find-append id xs (x ∷ []),
        t.found id,
        t.found (get_id x),
      );
      once = λ id. ground (
        arith,
        count_id-append get_id id xs (x ∷ []),
        count_id-find id xs,
        t.once id,
        t.found id,
      );
      no_invalid = ground (arith, value-insert (get_id x) invalid_id x by_id, t.no_invalid);
    }

    pub IsTable-delete : (id : ℕ) → IsTable (remove_by_id get_id id xs) (remove id by_id)
    IsTable-delete id = record {
      found = λ i. ground (arith, value-remove id i by_id, find-remove_by_id i id xs, t.found i);
      once = λ i. ground (arith, count_id-remove_by_id get_id i id xs, t.once i);
      no_invalid = ground (arith, value-remove id invalid_id by_id, t.no_invalid);
    }

    pub IsTable-change :
        (x old : T)
        → id_valid (get_id x) ≡ true
        → value (get_id x) by_id ≡ some old
        → IsTable (replace_by_id get_id (get_id x) x xs) (insert (get_id x) x by_id)
    IsTable-change x old n there = record {
      found = λ i. ground (
        arith,
        value-insert (get_id x) i x by_id,
        find-replace_by_id i x xs,
        t.found i,
        t.found (get_id x),
      );
      once = λ i. ground (arith, count_id-replace_by_id get_id i x xs, t.once i);
      no_invalid = ground (arith, value-insert (get_id x) invalid_id x by_id, t.no_invalid);
    }
