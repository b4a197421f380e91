-- ===== src/Cache/LaunchMethods.antt =====
-- The launch methods of the cache: `objectAdded`, `objectDeleted` and `objectUpdated` of
-- src/db/cache/Cache.cpp at launch methods, with the updates of the hash of Cache_hashUpdates.cpp.
pub mod ByType
use startkladde.Prelude.{ℕ, List, [], ◌∷◌, ◌++◌, Option, none, some}
use startkladde.Container.{nat_eq, insert, remove, insert_multi, remove_pair}
use startkladde.Model.LaunchMethod.{LaunchMethod}
use startkladde.Cache.EntityList.{remove_by_id, replace_by_id}
use startkladde.Cache.Objects.{Objects, get_launch_method, launch_method_type_eq}

unfoldable pub update_hashes_launch_method_added : LaunchMethod → Objects → Objects
update_hashes_launch_method_added l c = record c {
  launch_method_ids_by_type = insert_multi l.type l.id c.launch_method_ids_by_type;
}

-- The old launch method may be NULL.
unfoldable pub update_hashes_launch_method_deleted : ℕ → Option LaunchMethod → Objects → Objects
update_hashes_launch_method_deleted id none c = c
update_hashes_launch_method_deleted id (some old) c = record c {
  launch_method_ids_by_type = remove_pair old.type id c.launch_method_ids_by_type;
}

unfoldable pub update_hashes_launch_method_updated :
    LaunchMethod → Option LaunchMethod → Objects → Objects
unfolding update_hashes_launch_method_added update_hashes_launch_method_deleted
update_hashes_launch_method_updated l old c =
    update_hashes_launch_method_added l (update_hashes_launch_method_deleted l.id old c)

unfoldable pub launch_method_added : LaunchMethod → Objects → Objects
unfolding update_hashes_launch_method_added
launch_method_added l c = update_hashes_launch_method_added l (record c {
  launch_methods = c.launch_methods ++ l ∷ [];
  launch_methods_by_id = insert l.id l c.launch_methods_by_id;
})

unfoldable pub launch_method_deleted : ℕ → Objects → Objects
unfolding update_hashes_launch_method_deleted
launch_method_deleted id c =
    let old = get_launch_method c id in
    update_hashes_launch_method_deleted id old (record c {
      launch_methods = remove_by_id (λ l. l.id) id c.launch_methods;
      launch_methods_by_id = remove id c.launch_methods_by_id;
    })

unfoldable pub launch_method_updated : LaunchMethod → Objects → Objects
unfolding update_hashes_launch_method_updated
launch_method_updated l c =
    let old = get_launch_method c l.id in
    update_hashes_launch_method_updated l old (record c {
      launch_methods = replace_by_id (λ l. l.id) l.id l c.launch_methods;
      launch_methods_by_id = insert l.id l c.launch_methods_by_id;
    })

-- A DbEvent on the launch methods table, and `handleDbChanged<LaunchMethod>`.
pub data LaunchMethodEvent : Type 0 where
  launch_method_add launch_method_change : LaunchMethod → LaunchMethodEvent
  launch_method_delete : ℕ → LaunchMethodEvent

unfoldable pub handle_launch_method_changed : LaunchMethodEvent → Objects → Objects
unfolding launch_method_added launch_method_updated launch_method_deleted
handle_launch_method_changed (launch_method_add l) c = launch_method_added l c
handle_launch_method_changed (launch_method_change l) c = launch_method_updated l c
handle_launch_method_changed (launch_method_delete id) c = launch_method_deleted id c
