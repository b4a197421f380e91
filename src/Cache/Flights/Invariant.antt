-- ===== src/Cache/Flights/Invariant.antt =====
-- The invariant of the flight lists and the hash by identifier (src/db/cache/Cache.cpp).
use startkladde.Prelude.{
  ℕ, ◌+◌, ◌≤◌, ◌==◌, Bool, true, false, not, ◌&&◌, ◌≡◌, List, [], ◌∷◌, ◌++◌, some, arith,
  Bool-cases, inl, inr,
}
use startkladde.Prelude.All.{All, All-append}
use startkladde.Qt.{Qt}
use startkladde.Container.{nat_eq, value, insert, remove}
use startkladde.Container.Laws.{value-insert, value-remove}
use startkladde.Flight.{Flight, is_prepared}
use startkladde.Flight.Order.{eff_datum}
use startkladde.Cache.EntityList.{
  remove_by_id, replace_or_add, count_id, count_id-append, count_id-remove_by_id,
  count_id-replace_or_add, All-remove_by_id, All-absent, All-replace_or_add,
}
use startkladde.Cache.Flights.{
  Cache, FlightEvent, type_add, type_change, type_delete, update_hashes, object_added,
  object_deleted, object_updated, handle_db_changed,
}

module _ ⦃q : Qt⦄ where
  open q use {DateTime, Date, date_eq}

  abbrev pub occurs : ℕ → List (Flight DateTime) → ℕ
  occurs id xs = count_id (λ g. g.id) id xs

  abbrev pub occurrences : ℕ → Cache → ℕ
  occurrences id c =
      occurs id c.prepared_flights + (occurs id c.flights_today + occurs id c.flights_other)

  -- A flight of a list that belongs there and that the hash has under its id.
  abbrev pub Belongs : (Flight DateTime → Bool) → Cache → Flight DateTime → Type 0
  Belongs p c g = (p g ≡ true) × (value g.id c.flights_by_id ≡ some g)

  abbrev pub is_today : Cache → Flight DateTime → Bool
  is_today c g = not (is_prepared g) && date_eq (eff_datum g) c.today_date

  abbrev pub is_other : Cache → Flight DateTime → Bool
  is_other c g =
      not (is_prepared g)
      && (not (date_eq (eff_datum g) c.today_date) && date_eq (eff_datum g) c.other_date)

  pub record IsConsistent (c : Cache) : Type 0 where
    pub prepared : All (Belongs is_prepared c) c.prepared_flights
    pub today : All (Belongs (is_today c) c) c.flights_today
    pub other : All (Belongs (is_other c) c) c.flights_other
    pub once : (id : ℕ) → occurrences id c ≤ 1

  -- Objects with another identifier keep their place in the hash when one is inserted or removed.
  module _ (c : Cache) (p : Flight DateTime → Bool) where
    keep_insert :
        (f x : Flight DateTime)
        → Belongs p c x
        → (x.id == f.id) ≡ false
        → (p x ≡ true) × (value x.id (insert f.id f c.flights_by_id) ≡ some x)
    keep_insert f x h ne = ground (arith, value-insert f.id x.id f c.flights_by_id)

    keep_remove :
        (id : ℕ) (x : Flight DateTime)
        → Belongs p c x
        → (x.id == id) ≡ false
        → (p x ≡ true) × (value x.id (remove id c.flights_by_id) ≡ some x)
    keep_remove id x h ne = ground (arith, value-remove id x.id c.flights_by_id)

    inserted :
        (f : Flight DateTime)
        → p f ≡ true
        → (p f ≡ true) × (value f.id (insert f.id f c.flights_by_id) ≡ some f)
    inserted f h = ground (arith, value-insert f.id f.id f c.flights_by_id)

  module _ (c : Cache) (v : IsConsistent c) where
    object_deleted-IsConsistent : (id : ℕ) → IsConsistent (object_deleted id c)
    unfolding object_deleted
    object_deleted-IsConsistent id = record {
      prepared =
          All-remove_by_id (λ g. g.id) _ _ id (keep_remove c is_prepared id) c.prepared_flights
            v.prepared;
      today =
          All-remove_by_id (λ g. g.id) _ _ id (keep_remove c (is_today c) id) c.flights_today
            v.today;
      other =
          All-remove_by_id (λ g. g.id) _ _ id (keep_remove c (is_other c) id) c.flights_other
            v.other;
      once = λ i. ground (
        arith,
        v.once i,
        count_id-remove_by_id (λ (g : Flight DateTime). g.id) i id c.prepared_flights,
        count_id-remove_by_id (λ (g : Flight DateTime). g.id) i id c.flights_today,
        count_id-remove_by_id (λ (g : Flight DateTime). g.id) i id c.flights_other,
      );
    }

    -- The bound on occurrences after one list has taken the flight and the others have not.
    once_updated :
        (f : Flight DateTime) (i : ℕ) (a b d : List (Flight DateTime))
        → occurs i a + (occurs i b + occurs i d) ≤ 1
        → occurs i (replace_or_add (λ g. g.id) f.id f a)
            + (occurs i (remove_by_id (λ g. g.id) f.id b)
                + occurs i (remove_by_id (λ g. g.id) f.id d))
          ≤ 1
    once_updated f i a b d h = ground (
      arith,
      count_id-replace_or_add (λ (g : Flight DateTime). g.id) i f a,
      count_id-remove_by_id (λ (g : Flight DateTime). g.id) i f.id b,
      count_id-remove_by_id (λ (g : Flight DateTime). g.id) i f.id d,
    )

    kept :
        (p : Flight DateTime → Bool) (f : Flight DateTime) (xs : List (Flight DateTime))
        → All (Belongs p c) xs
        → All
            (λ x. (p x ≡ true) × (value x.id (insert f.id f c.flights_by_id) ≡ some x))
            (remove_by_id (λ g. g.id) f.id xs)
    kept p f xs h = All-remove_by_id (λ g. g.id) _ _ f.id (keep_insert c p f) xs h

    taken :
        (p : Flight DateTime → Bool) (f : Flight DateTime) (xs : List (Flight DateTime))
        → p f ≡ true
        → All (Belongs p c) xs
        → All
            (λ x. (p x ≡ true) × (value x.id (insert f.id f c.flights_by_id) ≡ some x))
            (replace_or_add (λ g. g.id) f.id f xs)
    taken p f xs e h =
        All-replace_or_add (λ g. g.id) _ _ f.id (keep_insert c p f) f (inserted c p f e) xs h

    dropped :
        (p : Flight DateTime → Bool) (f : Flight DateTime) (xs : List (Flight DateTime))
        → All (Belongs p c) xs
        → All (Belongs p c) (remove_by_id (λ g. g.id) f.id xs)
    dropped p f xs h = All-remove_by_id (λ g. g.id) _ _ f.id (λ x b ne. b) xs h

    once_dropped :
        (f : Flight DateTime) (i : ℕ) (a b d : List (Flight DateTime))
        → occurs i a + (occurs i b + occurs i d) ≤ 1
        → occurs i (remove_by_id (λ g. g.id) f.id a)
            + (occurs i (remove_by_id (λ g. g.id) f.id b)
                + occurs i (remove_by_id (λ g. g.id) f.id d))
          ≤ 1
    once_dropped f i a b d h = ground (
      arith,
      count_id-remove_by_id (λ (g : Flight DateTime). g.id) i f.id a,
      count_id-remove_by_id (λ (g : Flight DateTime). g.id) i f.id b,
      count_id-remove_by_id (λ (g : Flight DateTime). g.id) i f.id d,
    )

    -- The three lists after an update, by the list that takes the flight.
    object_updated-IsConsistent : (f : Flight DateTime) → IsConsistent (object_updated f c)
    unfolding object_updated update_hashes
    object_updated-IsConsistent f = elim (Bool-cases (is_prepared f)) [
      | inl e ↦ rw e (record {
        prepared = taken is_prepared f c.prepared_flights e v.prepared;
        today = kept (is_today c) f c.flights_today v.today;
        other = kept (is_other c) f c.flights_other v.other;
        once = λ i. once_updated f i _ _ _ (v.once i);
      })
      | inr e ↦ rw e (elim (Bool-cases (date_eq (eff_datum f) c.today_date)) [
        | inl e' ↦ rw e' (record {
          prepared = kept is_prepared f c.prepared_flights v.prepared;
          today = taken (is_today c) f c.flights_today (ground arith) v.today;
          other = kept (is_other c) f c.flights_other v.other;
          once = λ i. omega (
            arith,
            once_updated f i c.flights_today c.prepared_flights c.flights_other
                (omega (arith, v.once i)),
          );
        })
        | inr e' ↦ rw e' (elim (Bool-cases (date_eq (eff_datum f) c.other_date)) [
          | inl e'' ↦ rw e'' (record {
            prepared = kept is_prepared f c.prepared_flights v.prepared;
            today = kept (is_today c) f c.flights_today v.today;
            other = taken (is_other c) f c.flights_other (ground arith) v.other;
            once = λ i. omega (
              arith,
              once_updated f i c.flights_other c.prepared_flights c.flights_today
                  (omega (arith, v.once i)),
            );
          })
          | inr e'' ↦ rw e'' (record {
            prepared = dropped is_prepared f c.prepared_flights v.prepared;
            today = dropped (is_today c) f c.flights_today v.today;
            other = dropped (is_other c) f c.flights_other v.other;
            once = λ i. once_dropped f i _ _ _ (v.once i);
          })
        ])
      ])
    ]

    -- Where no list has the identifier, every flight stays and the new one is appended.
    stays :
        (p : Flight DateTime → Bool) (f : Flight DateTime) (xs : List (Flight DateTime))
        → occurs f.id xs ≡ 0
        → All (Belongs p c) xs
        → All (λ x. (p x ≡ true) × (value x.id (insert f.id f c.flights_by_id) ≡ some x)) xs
    stays p f xs n h = All-absent (λ g. g.id) _ _ f.id (keep_insert c p f) xs n h

    joined :
        (p : Flight DateTime → Bool) (f : Flight DateTime) (xs : List (Flight DateTime))
        → p f ≡ true
        → occurs f.id xs ≡ 0
        → All (Belongs p c) xs
        → All
            (λ x. (p x ≡ true) × (value x.id (insert f.id f c.flights_by_id) ≡ some x))
            (xs ++ f ∷ [])
    joined p f xs e n h = All-append _ xs (f ∷ []) (stays p f xs n h) (inserted c p f e, tt)

    once_joined :
        (f : Flight DateTime) (i : ℕ) (a b d : List (Flight DateTime))
        → occurs i a + (occurs i b + occurs i d) ≤ 1
        → occurs f.id a + (occurs f.id b + occurs f.id d) ≡ 0
        → occurs i (a ++ f ∷ []) + (occurs i b + occurs i d) ≤ 1
    once_joined f i a b d h z = elim (Bool-cases (i == f.id)) [
      | inl same ↦
          let e : i ≡ f.id = ground arith in
          rw e (ground (arith, count_id-append (λ (g : Flight DateTime). g.id) f.id a (f ∷ [])))
      | inr other ↦ ground (arith, count_id-append (λ (g : Flight DateTime). g.id) i a (f ∷ []))
    ]

    object_added-IsConsistent :
        (f : Flight DateTime) → occurrences f.id c ≡ 0 → IsConsistent (object_added f c)
    unfolding object_added update_hashes
    object_added-IsConsistent f z = elim (Bool-cases (is_prepared f)) [
      | inl e ↦ rw e (record {
        prepared = joined is_prepared f c.prepared_flights e (omega arith) v.prepared;
        today = stays (is_today c) f c.flights_today (omega arith) v.today;
        other = stays (is_other c) f c.flights_other (omega arith) v.other;
        once = λ i. once_joined f i _ _ _ (v.once i) z;
      })
      | inr e ↦ rw e (elim (Bool-cases (date_eq (eff_datum f) c.today_date)) [
        | inl e' ↦ rw e' (record {
          prepared = stays is_prepared f c.prepared_flights (omega arith) v.prepared;
          today = joined (is_today c) f c.flights_today (ground arith) (omega arith) v.today;
          other = stays (is_other c) f c.flights_other (omega arith) v.other;
          once = λ i. omega (
            arith,
            once_joined f i c.flights_today c.prepared_flights c.flights_other
                (omega (arith, v.once i)) (omega arith),
          );
        })
        | inr e' ↦ rw e' (elim (Bool-cases (date_eq (eff_datum f) c.other_date)) [
          | inl e'' ↦ rw e'' (record {
            prepared = stays is_prepared f c.prepared_flights (omega arith) v.prepared;
            today = stays (is_today c) f c.flights_today (omega arith) v.today;
            other = joined (is_other c) f c.flights_other (ground arith) (omega arith) v.other;
            once = λ i. omega (
              arith,
              once_joined f i c.flights_other c.prepared_flights c.flights_today
                  (omega (arith, v.once i)) (omega arith),
            );
          })
          | inr e'' ↦ rw e'' v
        ])
      ])
    ]

  -- An added flight is new to the lists.
  abbrev pub IsNew : FlightEvent → Cache → Type 0
  IsNew (type_add f) c = occurrences f.id c ≡ 0
  IsNew (type_change f) c = Unit {0}
  IsNew (type_delete id) c = Unit {0}

  -- Every database event on a flight keeps the cache consistent, an added flight being new to its
  -- lists: the prepared list holds prepared flights, today's and the other day's list flights that
  -- happened on that day, no identifier stands twice in the three lists, and the hash gives for
  -- the identifier of each listed flight that flight as it is listed.
  pub handle_db_changed-IsConsistent :
      (c : Cache) (event : FlightEvent)
      → IsConsistent c
      → IsNew event c
      → IsConsistent (handle_db_changed event c)
  unfolding handle_db_changed
  handle_db_changed-IsConsistent c (type_add f) v n = object_added-IsConsistent c v f n
  handle_db_changed-IsConsistent c (type_change f) v n = object_updated-IsConsistent c v f
  handle_db_changed-IsConsistent c (type_delete id) v n = object_deleted-IsConsistent c v id
