-- ===== src/Cache/LaunchMethods/ByType.antt =====
-- The hash of launch methods by type (src/db/cache) beside the one by identifier, and its lookup.
use startkladde.Prelude.{
  ℕ, true, ◌≡◌, ◌≢◌, ◌⊎◌, refl, sym, ◌∙◌, inl, inr, List, Option, none, some, arith,
}
use startkladde.DbId.{invalid_id, id_valid}
use startkladde.Container.{nat_eq, value, insert, remove}
use startkladde.Container.Laws.{value-insert, value-remove}
use startkladde.Model.LaunchMethod.{LaunchMethod, LaunchMethodType}
use startkladde.Cache.Index.{
  IsIndexed, IsIndexed-remove, IsIndexed-insert, IsIndexed-update, has_key-some, values-cases,
}
use startkladde.Cache.Objects.{
  Objects, get_launch_method, get_launch_method_by_type, launch_method_type_eq, type_eq_iff,
}
use startkladde.Cache.Planes.Consistency.{get_object-value}
use startkladde.Cache.LaunchMethods.{
  LaunchMethodEvent, launch_method_add, launch_method_change, launch_method_delete,
  launch_method_added, launch_method_deleted, launch_method_updated, handle_launch_method_changed,
  update_hashes_launch_method_added, update_hashes_launch_method_deleted,
  update_hashes_launch_method_updated,
}

-- A type is paired with exactly the identifiers of the launch methods of that type.
pub record IsConsistent (c : Objects) : Type 0 where
  pub no_invalid : value invalid_id c.launch_methods_by_id ≡ none
  pub types : IsIndexed (λ l. l.type) c.launch_methods_by_id c.launch_method_ids_by_type

module _ (c : Objects) (v : IsConsistent c) where
  deleted-IsConsistent :
      (id : ℕ) (old : Option LaunchMethod) (ls : List LaunchMethod)
      → value id c.launch_methods_by_id ≡ old
      → IsConsistent (
          update_hashes_launch_method_deleted id old (record c {
            launch_methods = ls;
            launch_methods_by_id = remove id c.launch_methods_by_id;
          }))
  unfolding update_hashes_launch_method_deleted
  deleted-IsConsistent id none ls e = record {
    no_invalid = ground (arith, value-remove id invalid_id c.launch_methods_by_id, v.no_invalid);
    types = IsIndexed-remove (λ l. l.type) c.launch_methods_by_id _ v.types id none e;
  }
  deleted-IsConsistent id (some old) ls e = record {
    no_invalid = ground (arith, value-remove id invalid_id c.launch_methods_by_id, v.no_invalid);
    types = IsIndexed-remove (λ l. l.type) c.launch_methods_by_id _ v.types id (some old) e;
  }

  updated-IsConsistent :
      (l : LaunchMethod) (old : Option LaunchMethod) (ls : List LaunchMethod)
      → id_valid l.id ≡ true
      → value l.id c.launch_methods_by_id ≡ old
      → IsConsistent (
          update_hashes_launch_method_updated l old (record c {
            launch_methods = ls;
            launch_methods_by_id = insert l.id l c.launch_methods_by_id;
          }))
  unfolding update_hashes_launch_method_updated update_hashes_launch_method_added
      update_hashes_launch_method_deleted
  updated-IsConsistent l none ls n e = record {
    no_invalid =
        ground (arith, value-insert l.id invalid_id l c.launch_methods_by_id, v.no_invalid);
    types = IsIndexed-update (λ l. l.type) c.launch_methods_by_id _ v.types l.id l none e;
  }
  updated-IsConsistent l (some old) ls n e = record {
    no_invalid =
        ground (arith, value-insert l.id invalid_id l c.launch_methods_by_id, v.no_invalid);
    types = IsIndexed-update (λ l. l.type) c.launch_methods_by_id _ v.types l.id l (some old) e;
  }

  added-IsConsistent :
      (l : LaunchMethod)
      → id_valid l.id ≡ true
      → value l.id c.launch_methods_by_id ≡ none
      → IsConsistent (launch_method_added l c)
  unfolding launch_method_added update_hashes_launch_method_added
  added-IsConsistent l n absent = record {
    no_invalid =
        ground (arith, value-insert l.id invalid_id l c.launch_methods_by_id, v.no_invalid);
    types = IsIndexed-insert (λ l. l.type) c.launch_methods_by_id _ v.types l.id l absent;
  }

-- An event names a valid identifier, and an added launch method is new.
abbrev pub IsProperEvent : LaunchMethodEvent → Objects → Type 0
IsProperEvent (launch_method_add l) c =
    (id_valid l.id ≡ true) × (value l.id c.launch_methods_by_id ≡ none)
IsProperEvent (launch_method_change l) c = id_valid l.id ≡ true
IsProperEvent (launch_method_delete id) c = Unit {0}

-- Every database event on a launch method, whose identifier is valid and, if it is added, new, keeps
-- the hash by type in agreement with the hash by identifier: a type is paired with exactly the
-- identifiers of the launch methods of that type.
pub handle_launch_method_changed-IsConsistent :
    (c : Objects) (event : LaunchMethodEvent)
    → IsConsistent c
    → IsProperEvent event c
    → IsConsistent (handle_launch_method_changed event c)
unfolding handle_launch_method_changed launch_method_deleted launch_method_updated
handle_launch_method_changed-IsConsistent c (launch_method_add l) v (n, absent) =
    added-IsConsistent c v l n absent
handle_launch_method_changed-IsConsistent c (launch_method_change l) v n =
    updated-IsConsistent c v l (get_launch_method c l.id) _ n
      (sym (get_object-value c.launch_methods_by_id l.id v.no_invalid))
handle_launch_method_changed-IsConsistent c (launch_method_delete id) v n =
    deleted-IsConsistent c v id (get_launch_method c id) _
      (sym (get_object-value c.launch_methods_by_id id v.no_invalid))

-- Looking up a type in a consistent cache gives the identifier of a launch method of that type, or
-- it gives the invalid identifier, and no launch method of the cache has that type.
pub get_launch_method_by_type_lem :
    (c : Objects) (type : LaunchMethodType)
    → IsConsistent c
    → ((l : LaunchMethod) × (get_launch_method c (get_launch_method_by_type c type) ≡ some l)
        × (l.type ≡ type))
      ⊎ ((get_launch_method_by_type c type ≡ invalid_id)
          × ((id : ℕ) (l : LaunchMethod) → get_launch_method c id ≡ some l → l.type ≢ type))
unfolding get_launch_method_by_type
get_launch_method_by_type_lem c type v = elim (values-cases type c.launch_method_ids_by_type) [
  | inl (e, free) ↦ inr (
    rw e refl,
    λ id l at_id same. ground (
      arith,
      v.types type id,
      free id,
      get_object-value c.launch_methods_by_id id v.no_invalid,
      type_eq_iff l.type type,
    ),
  )
  | inr (id, ids, e, there) ↦
      let (l, at_id, same) =
        has_key-some (λ l. l.type) type (value id c.launch_methods_by_id)
          (sym (v.types type id) ∙ there) in
      inl (l, rw e (get_object-value c.launch_methods_by_id id v.no_invalid ∙ at_id), same)
]
