-- ===== src/ObjectList/Replay.antt =====
-- What a list that follows the events of the database (src/model/objectList/AutomaticEntityList.h)
-- holds, as a table by identifier.
use startkladde.Prelude.{
  ℕ, zero, suc, ◌+◌, ◌≤◌, ◌==◌, ◌≡◌, refl, sym, ◌∙◌, ap, List, [], ◌∷◌, ◌++◌, Option, none, some,
  arith, if◌then◌else◌, Bool-cases, inl, inr, ==_iff,
}
use startkladde.Prelude.Int.{ℤ, pos, negsuc, pos_part}
use startkladde.Prelude.Lists.{set, erase_idx}
use startkladde.Cache.EntityList.{
  find_by_id, find_from, is_index, count_id, count_id-append, is_index-find_from,
}
use startkladde.Cache.Table.{find, find-append}
use startkladde.ObjectList.{
  Event, type_add, type_change, type_delete, other_table, db_event, replay,
}

module _ {T : Type 0} (get_id : T → ℕ) where
  -- The list after the write or the removal at the found index.
  abbrev replace_first : ℕ → T → List T → List T
  replace_first id value [] = []
  replace_first id value (x ∷ xs) =
      let rest = replace_first id value xs in if get_id x == id then value ∷ xs else x ∷ rest

  abbrev remove_first : ℕ → List T → List T
  remove_first id [] = []
  remove_first id (x ∷ xs) =
      let rest = remove_first id xs in if get_id x == id then xs else x ∷ rest

  -- The search goes upwards.
  find_from-le : (k id j : ℕ) (xs : List T) → find_from get_id k id xs ≡ pos j → k ≤ j
  unfolding find_from
  find_from-le k id j [] h = cc
  find_from-le k id j (x ∷ xs) h = ground (arith, find_from-le (suc k) id j xs)

  erase-found :
      (k id j : ℕ) (xs : List T)
      → find_from get_id k id xs ≡ pos (k + j)
      → erase_idx xs j ≡ remove_first id xs
  unfolding find_from
  erase-found k id j [] h = cc
  erase-found k id zero (x ∷ xs) h = ground (arith, find_from-le (suc k) id (k + 0) xs)
  erase-found k id (suc j) (x ∷ xs) h = elim (Bool-cases (get_id x == id)) [
    | inl same ↦ ground arith
    | inr other ↦
        let e : k + suc j ≡ suc k + j = omega arith in
        rw other (ap (λ ys. x ∷ ys) (erase-found (suc k) id j xs (ground arith)))
  ]

  set-found :
      (k id j : ℕ) (value : T) (xs : List T)
      → find_from get_id k id xs ≡ pos (k + j)
      → set xs j value ≡ replace_first id value xs
  unfolding find_from
  set-found k id j value [] h = cc
  set-found k id zero value (x ∷ xs) h = ground (arith, find_from-le (suc k) id (k + 0) xs)
  set-found k id (suc j) value (x ∷ xs) h = elim (Bool-cases (get_id x == id)) [
    | inl same ↦ ground arith
    | inr other ↦
        let e : k + suc j ≡ suc k + j = omega arith in
        rw other (ap (λ ys. x ∷ ys) (set-found (suc k) id j value xs (ground arith)))
  ]

  find-none : (id : ℕ) (xs : List T) → count_id get_id id xs ≡ 0 → find get_id id xs ≡ none
  find-none id [] h = refl
  find-none id (x ∷ xs) h = ground (arith, find-none id xs)

  find-remove_first :
      (i id : ℕ) (xs : List T)
      → count_id get_id id xs ≤ 1
      → find get_id i (remove_first id xs) ≡ (if id == i then none else find get_id i xs)
  find-remove_first i id [] h = ground arith
  find-remove_first i id (x ∷ xs) h =
      ground (arith, find-remove_first i id xs, find-none id xs, ==_iff id i)

  count_id-remove_first :
      (i id : ℕ) (xs : List T) → count_id get_id i (remove_first id xs) ≤ count_id get_id i xs
  count_id-remove_first i id [] = omega arith
  count_id-remove_first i id (x ∷ xs) = ground (arith, count_id-remove_first i id xs)

  find-replace_first :
      (i : ℕ) (value : T) (xs : List T)
      → 1 ≤ count_id get_id (get_id value) xs
      → find get_id i (replace_first (get_id value) value xs)
        ≡ (if get_id value == i then some value else find get_id i xs)
  find-replace_first i value [] h = ground arith
  find-replace_first i value (x ∷ xs) h =
      ground (arith, find-replace_first i value xs, ==_iff (get_id value) i)

  count_id-replace_first :
      (i : ℕ) (value : T) (xs : List T)
      → count_id get_id i (replace_first (get_id value) value xs) ≡ count_id get_id i xs
  count_id-replace_first i value [] = refl
  count_id-replace_first i value (x ∷ xs) = ground (arith, count_id-replace_first i value xs)

  remove_first-absent : (id : ℕ) (xs : List T) → count_id get_id id xs ≡ 0 → remove_first id xs ≡ xs
  remove_first-absent id [] h = refl
  remove_first-absent id (x ∷ xs) h = ground (arith, remove_first-absent id xs)

  -- What the code does at the index that the search gives.
  deleted :
      (id : ℕ) (xs : List T) (i : ℤ)
      → find_from get_id 0 id xs ≡ i
      → (if is_index i then erase_idx xs (pos_part i) else xs) ≡ remove_first id xs
  deleted id xs (pos j) h = erase-found 0 id j xs (h ∙ ap pos (omega arith))
  deleted id xs (negsuc j) h =
      sym (remove_first-absent id xs (ground (arith, is_index-find_from get_id 0 id xs)))

  changed :
      (value : T) (xs : List T) (i : ℤ)
      → find_from get_id 0 (get_id value) xs ≡ i
      → (if is_index i then set xs (pos_part i) value else xs ++ value ∷ []) ≡ (
          if count_id get_id (get_id value) xs == 0
          then xs ++ value ∷ []
          else replace_first (get_id value) value xs)
  changed value xs (pos j) h = ground (
    arith,
    set-found 0 (get_id value) j value xs (h ∙ ap pos (omega arith)),
    is_index-find_from get_id 0 (get_id value) xs,
  )
  changed value xs (negsuc j) h = ground (arith, is_index-find_from get_id 0 (get_id value) xs)

  -- What an event does to a table by identifier.
  abbrev pub applied : Event T → (ℕ → Option T) → ℕ → Option T
  applied other_table table id = table id
  applied (type_add value) table id = if get_id value == id then some value else table id
  applied (type_change value) table id = if get_id value == id then some value else table id
  applied (type_delete deleted) table id = if deleted == id then none else table id

  abbrev pub applied_all : List (Event T) → (ℕ → Option T) → ℕ → Option T
  applied_all [] table = table
  applied_all (e ∷ es) table = applied_all es (applied e table)

  -- An added object is new.
  abbrev pub IsNew : Event T → List T → Type 0
  IsNew (type_add value) xs = count_id get_id (get_id value) xs ≡ 0
  IsNew _ xs = Unit

  abbrev pub IsOnce : List T → Type 0
  IsOnce xs = (id : ℕ) → count_id get_id id xs ≤ 1

  db_event-applied :
      (e : Event T) (xs : List T)
      → IsOnce xs
      → IsNew e xs
      → IsOnce (db_event get_id e xs)
        × ((id : ℕ) → find get_id id (db_event get_id e xs) ≡ applied e (λ i. find get_id i xs) id)
  unfolding db_event find_by_id
  db_event-applied other_table xs u n = (u, λ id. refl)
  db_event-applied (type_add value) xs u n = (
    λ id. ground (arith, u id, count_id-append get_id id xs (value ∷ []), ==_iff (get_id value) id),
    λ id.
        ground
          (arith, find-append get_id id xs (value ∷ []), find-none id xs, ==_iff (get_id value) id),
  )
  db_event-applied (type_delete d) xs u n = rw (deleted d xs (find_from get_id 0 d xs) refl) (
    (λ id. omega (arith, u id, count_id-remove_first id d xs)),
    λ id. find-remove_first id d xs (u d),
  )
  db_event-applied (type_change value) xs u n =
      rw (changed value xs (find_from get_id 0 (get_id value) xs) refl) (
        (λ id. ground (
          arith,
          u id,
          count_id-append get_id id xs (value ∷ []),
          count_id-replace_first id value xs,
          ==_iff (get_id value) id,
        )),
        λ id. ground (
          arith,
          find-append get_id id xs (value ∷ []),
          find-replace_first id value xs,
          find-none id xs,
          ==_iff (get_id value) id,
        ),
      )

  -- Each added object is new to the list when its event arrives.
  unfoldable pub AllNew : List (Event T) → List T → Type 0
  unfolding db_event
  AllNew [] xs = Unit
  AllNew (e ∷ es) xs = IsNew e xs × AllNew es (db_event get_id e xs)

  applied-same :
      (e : Event T) (f g : ℕ → Option T)
      → ((id : ℕ) → f id ≡ g id)
      → (id : ℕ) → applied e f id ≡ applied e g id
  applied-same other_table f g h id = h id
  applied-same (type_add value) f g h id = ground (arith, h id)
  applied-same (type_change value) f g h id = ground (arith, h id)
  applied-same (type_delete d) f g h id = ground (arith, h id)

  applied_all-same :
      (es : List (Event T)) (f g : ℕ → Option T)
      → ((id : ℕ) → f id ≡ g id)
      → (id : ℕ) → applied_all es f id ≡ applied_all es g id
  applied_all-same [] f g h id = h id
  applied_all-same (e ∷ es) f g h id = applied_all-same es _ _ (applied-same e f g h) id

  -- A list that follows the events of the database is a table by identifier, as long as each added
  -- object is new: after any sequence of events it holds no identifier twice, and the object with an
  -- identifier is what the events, applied one after the other to the table, leave there. A change
  -- of an object that the list did not hold adds it.
  pub replay-applied_all :
      (es : List (Event T)) (xs : List T)
      → IsOnce xs
      → AllNew es xs
      → IsOnce (replay get_id es xs)
        × ((id : ℕ)
            → find get_id id (replay get_id es xs) ≡ applied_all es (λ i. find get_id i xs) id)
  unfolding replay AllNew
  replay-applied_all [] xs u n = (u, λ id. refl)
  replay-applied_all (e ∷ es) xs u n =
      let (once, step) = db_event-applied e xs u n.0 in
      let (all_once, rest) = replay-applied_all es (db_event get_id e xs) once n.1 in
      (all_once, λ id. rest id ∙ applied_all-same es _ _ step id)
