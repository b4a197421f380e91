-- ===== src/Database/Objects.antt =====
-- What src/db/Database.cpp reads after it has written.
use startkladde.Prelude.{
  ℕ, Bool, ◌≡◌, ap, ◌∙◌, ◌==◌, ==_iff, Bool-cases, inl, inr, List, ◌∷◌, Option, none, some, map,
  arith, if◌then◌else◌,
}
use startkladde.Qt.{Qt}
use startkladde.Database.Sql.{Values, Connection, IsServer, zip, cell}
use startkladde.Database.{
  Entity, DbEvent, found, not_found, get_object, create_object, update_object, delete_object,
  created, affected, first_of,
}

-- What an entity keeps of an object: `kept` is the object that is read from the row written for it.
pub record IsEntity {q : Qt} {v : Values q} {T : Type 0} (e : Entity q v T) (kept : T → T)
    : Type 0 where
  pub read :
      (id : ℕ) (object : T)
      → e.create_from_result (
          map
            (cell v (("id", v.of_id id) ∷ zip v e.insert_column_list (e.bind_values object)))
            e.select_column_list)
        ≡ kept (e.set_id id object)
  pub get_id-set_id : (id : ℕ) (object : T) → e.get_id (e.set_id id object) ≡ id
  pub set_id-get_id : (object : T) → e.set_id (e.get_id object) object ≡ object

module _ {q : Qt} {v : Values q} (c : Connection q v) (server : IsServer q v c) {T : Type 0}
    (e : Entity q v T) (kept : T → T) (entity : IsEntity e kept) where
  created-some :
      (object : T) (reply : Option (c.Db × ℕ)) (db' : c.Db) (object' : T)
      (events : List (DbEvent T))
      → created c e object reply ≡ some (db', object', events)
      → (id : ℕ) × (reply ≡ some (db', id)) × (object' ≡ e.set_id id object)
  created-some object none db' object' events h = ground arith
  created-some object (some (db, id)) db' object' events h = (id, cc, cc)

  affected-some :
      (event : DbEvent T) (reply : Option (c.Db × ℕ)) (db' : c.Db) (done : Bool)
      (events : List (DbEvent T))
      → affected c e event reply ≡ some (db', done, events)
      → (n : ℕ) × (reply ≡ some (db', n))
  affected-some event none db' done events h = ground arith
  affected-some event (some (db, n)) db' done events h = (n, cc)

  -- An object that has been created is read back, under the identifier that it was given, as what
  -- its row keeps of it.
  pub create_object-get_object :
      (object : T) (db db' : c.Db) (object' : T) (events : List (DbEvent T))
      → create_object c e object db ≡ some (db', object', events)
      → get_object c e (e.get_id object') db' ≡ found (kept object')
  unfolding create_object get_object
  create_object-get_object object db db' object' events h =
      let (id, inserted, same) = created-some object _ db' object' events h in
      rw (same, entity.get_id-set_id id object)
        (ap (first_of c e) (server.inserted _ _ _ db db' id inserted e.select_column_list)
          ∙ ap found (entity.read id object))

  -- After an object has been updated, it is read back as what its row keeps of it, and every other
  -- object as before.
  pub update_object-get_object :
      (object : T) (db db' : c.Db) (done : Bool) (events : List (DbEvent T)) (id : ℕ)
      → update_object c e object db ≡ some (db', done, events)
      → get_object c e id db'
        ≡ (if id == e.get_id object then found (kept object) else get_object c e id db)
  unfolding update_object get_object
  update_object-get_object object db db' done events id h =
      let (n, replaced) = affected-some _ _ db' done events h in
      elim (Bool-cases (id == e.get_id object)) [
        | inl same ↦
            rw (same, (==_iff id (e.get_id object)).0 same)
              (ap (first_of c e) (server.replaced _ _ _ db db' _ n replaced e.select_column_list)
                ∙ ap found
                    (entity.read (e.get_id object) object ∙ ap kept (entity.set_id-get_id object)))
        | inr other ↦ rw other (
            ap (first_of c e) (
              server.replaced_other _ _ _ db db' _ n replaced id e.select_column_list
                (ground arith)))
      ]

  -- After an object has been deleted, it is not found, and every other object is read as before.
  pub delete_object-get_object :
      (id : ℕ) (db db' : c.Db) (done : Bool) (events : List (DbEvent T)) (other : ℕ)
      → delete_object c e id db ≡ some (db', done, events)
      → get_object c e other db' ≡ (if other == id then not_found else get_object c e other db)
  unfolding delete_object get_object
  delete_object-get_object id db db' done events other h =
      let (n, gone) = affected-some _ _ db' done events h in
      elim (Bool-cases (other == id)) [
        | inl same ↦
            rw (same, (==_iff other id).0 same)
              (ap (first_of c e) (server.deleted _ db db' id n gone e.select_column_list))
        | inr different ↦ rw different (
            ap (first_of c e)
              (server.deleted_other _ db db' id n gone other e.select_column_list (ground arith)))
      ]
