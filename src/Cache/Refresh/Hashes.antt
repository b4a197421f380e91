-- ===== src/Cache/Refresh/Hashes.antt =====
-- The hash by identifier after flights are removed from it and added to it
-- (src/db/cache/Cache.cpp, refreshFlightsOf).
use startkladde.Prelude.{ℕ, ◌≤◌, ◌≡◌, refl, ◌∙◌, List, [], ◌∷◌, none, some, arith}
use startkladde.Prelude.All.{All, All-map}
use startkladde.Qt.{Qt}
use startkladde.Container.{nat_eq, value, remove}
use startkladde.Container.Laws.{value-insert, value-remove}
use startkladde.Flight.{Flight}
use startkladde.Cache.Flights.{Cache, update_hashes, update_hashes_object_added}
use startkladde.Cache.Flights.Invariant.{occurs}
use startkladde.Cache.Refresh.{remove_flights, add_flights}

module _ ⦃q : Qt⦄ where
  open q use {DateTime}

  -- Two caches with the same lists and dates.
  abbrev pub SameLists : Cache → Cache → Type 0
  SameLists c d =
      (d.prepared_flights ≡ c.prepared_flights)
      × (d.flights_today ≡ c.flights_today)
      × (d.flights_other ≡ c.flights_other)
      × (d.today_date ≡ c.today_date)
      × (d.other_date ≡ c.other_date)

  pub remove_flights-SameLists :
      (fs : List (Flight DateTime)) (c : Cache) → SameLists c (remove_flights fs c)
  unfolding remove_flights
  remove_flights-SameLists [] c = (refl, refl, refl, refl, refl)
  remove_flights-SameLists (f ∷ fs) c =
      remove_flights-SameLists fs (record c { flights_by_id = remove f.id c.flights_by_id })

  pub add_flights-SameLists :
      (fs : List (Flight DateTime)) (c : Cache) → SameLists c (add_flights fs c)
  unfolding add_flights update_hashes update_hashes_object_added
  add_flights-SameLists [] c = (refl, refl, refl, refl, refl)
  add_flights-SameLists (f ∷ fs) c = add_flights-SameLists fs (update_hashes f c)

  pub remove_flights-absent :
      (id : ℕ) (fs : List (Flight DateTime)) (c : Cache)
      → occurs id fs ≡ 0
      → value id (remove_flights fs c).flights_by_id ≡ value id c.flights_by_id
  unfolding remove_flights
  remove_flights-absent id [] c h = refl
  remove_flights-absent id (f ∷ fs) c h =
      remove_flights-absent id fs (record c { flights_by_id = remove f.id c.flights_by_id })
        (ground arith)
      ∙ ground (arith, value-remove f.id id c.flights_by_id)

  -- What is removed stays removed.
  remove_flights-none :
      (id : ℕ) (fs : List (Flight DateTime)) (c : Cache)
      → value id c.flights_by_id ≡ none
      → value id (remove_flights fs c).flights_by_id ≡ none
  unfolding remove_flights
  remove_flights-none id [] c h = h
  remove_flights-none id (f ∷ fs) c h =
      remove_flights-none id fs (record c { flights_by_id = remove f.id c.flights_by_id })
        (ground (arith, value-remove f.id id c.flights_by_id))

  pub remove_flights-gone :
      (id : ℕ) (fs : List (Flight DateTime)) (c : Cache)
      → 1 ≤ occurs id fs
      → value id (remove_flights fs c).flights_by_id ≡ none
  unfolding remove_flights
  remove_flights-gone id [] c h = ground arith
  remove_flights-gone id (f ∷ fs) c h = ground (
    arith,
    remove_flights-gone id fs (record c { flights_by_id = remove f.id c.flights_by_id }),
    remove_flights-none id fs (record c { flights_by_id = remove f.id c.flights_by_id }),
    value-remove f.id id c.flights_by_id,
  )

  pub add_flights-absent :
      (id : ℕ) (fs : List (Flight DateTime)) (c : Cache)
      → occurs id fs ≡ 0
      → value id (add_flights fs c).flights_by_id ≡ value id c.flights_by_id
  unfolding add_flights update_hashes update_hashes_object_added
  add_flights-absent id [] c h = refl
  add_flights-absent id (f ∷ fs) c h =
      add_flights-absent id fs (update_hashes f c) (ground arith)
      ∙ ground (arith, value-insert f.id id f c.flights_by_id)

  -- Where no identifier stands twice, each added flight is found.
  pub add_flights-found :
      (fs : List (Flight DateTime)) (c : Cache)
      → ((id : ℕ) → occurs id fs ≤ 1)
      → All (λ f. value f.id (add_flights fs c).flights_by_id ≡ some f) fs
  unfolding add_flights update_hashes update_hashes_object_added
  add_flights-found [] c h = tt
  add_flights-found (f ∷ fs) c h = (
    add_flights-absent f.id fs (update_hashes f c) (ground (arith, h f.id))
        ∙ ground (arith, value-insert f.id f.id f c.flights_by_id),
    add_flights-found fs (update_hashes f c) (λ id. ground (arith, h id)),
  )

  -- The flights of a list occur in it.
  pub All-occurs : (fs : List (Flight DateTime)) → All (λ f. 1 ≤ occurs f.id fs) fs
  All-occurs [] = tt
  All-occurs (f ∷ fs) =
      (ground arith, All-map (λ g. 1 ≤ occurs g.id fs) _ fs (λ g h. ground arith) (All-occurs fs))
