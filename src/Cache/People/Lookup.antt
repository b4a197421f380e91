-- ===== src/Cache/People/Lookup.antt =====
-- Lookups of people by name (src/db/cache/Cache_lookup.cpp).
use startkladde.Prelude.{
  ℕ, ◌≤◌, ◌≡◌, ◌≢◌, ◌⊎◌, inl, inr, refl, ◌∙◌, String, List, [], ◌∷◌, some, arith, if◌then◌else◌,
}
use startkladde.Qt.{Qt}
use startkladde.DbId.{invalid_id}
use startkladde.Container.{nat_eq, string_eq, pair_eq, values}
use startkladde.Model.Person.{Person}
use startkladde.Cache.Index.{has_key, has_key-some}
use startkladde.Cache.Index.Counted.{count, count-values}
use startkladde.Cache.Objects.{get_object}
use startkladde.Cache.Planes.Consistency.{get_object-value}
use startkladde.Cache.Contents.{Contents}
use startkladde.Cache.People.{name_of}
use startkladde.Cache.People.Consistency.{IsConsistent}

-- `if (personIds.size ()==1) return personIds.at (0); return invalidId;`
abbrev unique_id : List ℕ → ℕ
unique_id [] = invalid_id
unique_id (id ∷ []) = id
unique_id (id ∷ _ ∷ ids) = invalid_id

module _ ⦃q : Qt⦄ where
  open q use {Date, to_lower}

  unfoldable pub get_person_ids_by_name : Contents → String → String → List ℕ
  get_person_ids_by_name c last_name first_name =
      values (to_lower last_name, to_lower first_name) c.person_ids_by_name

  unfoldable pub get_unique_person_id_by_name : Contents → String → String → ℕ
  unfolding get_person_ids_by_name
  get_unique_person_id_by_name c last_name first_name =
      unique_id (get_person_ids_by_name c last_name first_name)

  unfoldable pub get_person_ids_by_last_name : Contents → String → List ℕ
  get_person_ids_by_last_name c last_name = values (to_lower last_name) c.person_ids_by_last_name

  unfoldable pub get_person_ids_by_first_name : Contents → String → List ℕ
  get_person_ids_by_first_name c first_name =
      values (to_lower first_name) c.person_ids_by_first_name

  -- A person of the cache with the identifier has the name, upper and lower case not being told
  -- apart.
  abbrev pub IsNamed : Contents → String → String → ℕ → Type 0
  IsNamed c last_name first_name id =
      (p : Person Date) × (get_object c.people_by_id id ≡ some p)
      × (name_of p ≡ (to_lower last_name, to_lower first_name))

  module _ (c : Contents) (last_name first_name : String) (v : IsConsistent c) where
    abbrev key : String × String
    key = (to_lower last_name, to_lower first_name)

    -- The found identifiers are those of the people of the name.
    count_ids :
        (id : ℕ)
        → count id (values key c.person_ids_by_name)
          ≡ (if has_key name_of key (get_object c.people_by_id id) then 1 else 0)
    count_ids id = ground (
      arith,
      count-values key id c.person_ids_by_name,
      v.names key id,
      get_object-value c.people_by_id id v.table.no_invalid,
    )

    counted-IsNamed :
        (id : ℕ)
        → 1 ≤ count id (values key c.person_ids_by_name)
        → IsNamed c last_name first_name id
    counted-IsNamed id h =
        has_key-some name_of key (get_object c.people_by_id id) (ground (arith, count_ids id))

    IsNamed-counted :
        (id : ℕ)
        → IsNamed c last_name first_name id
        → count id (values key c.person_ids_by_name) ≡ 1
    IsNamed-counted id (p, at_id, same) =
        count_ids id ∙ rw at_id (ground (arith, pair_eq.eq_iff (name_of p) key))

    -- How often an identifier is found.
    at_most_once : (id : ℕ) → count id (values key c.person_ids_by_name) ≤ 1
    at_most_once id = ground (arith, count_ids id)

  -- What the unique identifier among found ones is.
  unique_cases :
      (c : Contents) (last_name first_name : String) (v : IsConsistent c) (ids : List ℕ)
      → values (to_lower last_name, to_lower first_name) c.person_ids_by_name ≡ ids
      → ((IsNamed c last_name first_name (unique_id ids))
          × ((id : ℕ) → IsNamed c last_name first_name id → id ≡ unique_id ids))
        ⊎ ((unique_id ids ≡ invalid_id)
            × (((id : ℕ) → ¬ (IsNamed c last_name first_name id))
                ⊎ ((i j : ℕ) × (i ≢ j)
                    × IsNamed c last_name first_name i
                    × IsNamed c last_name first_name j)))
  unique_cases c last_name first_name v [] e =
      inr (refl, inl (λ id n. cc (IsNamed-counted c last_name first_name v id n, e)))
  unique_cases c last_name first_name v (id ∷ []) e = inl (
    counted-IsNamed c last_name first_name v id (rw e (ground arith)),
    λ i n. ground (arith, rw e at (IsNamed-counted c last_name first_name v i n)),
  )
  unique_cases c last_name first_name v (i ∷ j ∷ ids) e = inr (
    refl,
    inr (
      i,
      j,
      (λ same. ground (arith, rw e at (at_most_once c last_name first_name v i))),
      counted-IsNamed c last_name first_name v i (rw e (ground arith)),
      counted-IsNamed c last_name first_name v j (rw e (ground arith)),
    ),
  )

  -- In a consistent cache, looking up the unique person of a name gives the identifier of a person
  -- of that name, and then nobody else has it, or it gives the invalid identifier, and then nobody
  -- has the name or two people have it. Upper and lower case are not told apart.
  pub get_unique_person_id_by_name_lem :
      (c : Contents) (last_name first_name : String)
      → IsConsistent c
      → (IsNamed c last_name first_name (get_unique_person_id_by_name c last_name first_name)
          × ((id : ℕ)
              → IsNamed c last_name first_name id
              → id ≡ get_unique_person_id_by_name c last_name first_name))
        ⊎ ((get_unique_person_id_by_name c last_name first_name ≡ invalid_id)
            × (((id : ℕ) → ¬ (IsNamed c last_name first_name id))
                ⊎ ((i j : ℕ) × (i ≢ j)
                    × IsNamed c last_name first_name i
                    × IsNamed c last_name first_name j)))
  unfolding get_unique_person_id_by_name get_person_ids_by_name
  get_unique_person_id_by_name_lem c last_name first_name v =
      unique_cases c last_name first_name v _ refl
