-- ===== src/Statistics/PlaneLog/Creation.antt =====
-- That every log entry of src/statistics/PlaneLog.cpp is created from at least one flight.
use startkladde.Prelude.{
  ℕ, ◌==◌, ==-refl, Bool, ◌&&◌, ◌≡◌, refl, sym, List, [], ◌∷◌, map, Option, none, some, Bool-cases,
  inl, inr,
}
use mathlib.Core.List.{Permᴰ}
use mathlib.Core.Path.{subst}
use startkladde.Prelude.All.{All, All-map}
use startkladde.DbId.{id_valid}
use startkladde.Prelude.Lists.{filter}
use startkladde.Qt.{Qt}
use startkladde.Model.Plane.{Plane}
use startkladde.Cache.Objects.{Objects, get_plane}
use startkladde.Flight.{Flight, finished}
use startkladde.Flight.Order.{less_than}
use startkladde.Statistics.PlaneLog.{
  Sorting, Entry, create, create_each, entry_flights, interesting_flights, plane_flights,
  create_new, cons_found, planes_of, create_planes, create_all, and_then,
}
use startkladde.Statistics.PlaneLog.Entries.{IsEntry, entry_flights_lem}

-- std::sort permutes, and the values of a QSet are among those that were inserted.
pub record IsSorting (s : Sorting) : Type 1 where
  pub permutes : {A : Type 0} (less : A → A → Bool) (xs : List A) → Permᴰ xs (s.std_sort less xs)
  pub inserted : (P : ℕ → Type 0) (ids : List ℕ) → All P ids → All P (s.set_values ids)

IsNonempty : {A : Type 0} → List A → Type 0
IsNonempty [] = ⊥
IsNonempty (x ∷ xs) = Unit

All-Permᴰ : {A : Type 0} (P : A → Type 0) {xs ys : List A} → Permᴰ xs ys → All P xs → All P ys
All-Permᴰ P Permᴰ.nil h = tt
All-Permᴰ P (Permᴰ.cons e d) h = (subst P e h.0, All-Permᴰ P d h.1)
All-Permᴰ P (Permᴰ.swap e e') h = (subst P e' h.1.0, (subst P e h.0, h.1.1))
All-Permᴰ P (Permᴰ.trans d d') h = All-Permᴰ P d' (All-Permᴰ P d h)

IsNonempty-Permᴰ : {A : Type 0} {xs ys : List A} → Permᴰ xs ys → IsNonempty xs → IsNonempty ys
unfolding IsNonempty
IsNonempty-Permᴰ Permᴰ.nil h = h
IsNonempty-Permᴰ (Permᴰ.cons e d) h = tt
IsNonempty-Permᴰ (Permᴰ.swap e e') h = tt
IsNonempty-Permᴰ (Permᴰ.trans d d') h = IsNonempty-Permᴰ d' (IsNonempty-Permᴰ d h)

All-filter :
    {A : Type 0} (P : A → Type 0) (test : A → Bool) (xs : List A)
    → All P xs
    → All P (filter test xs)
All-filter P test [] h = tt
All-filter P test (x ∷ xs) h = elim (Bool-cases (test x)) [
  | inl e ↦ rw e (h.0, All-filter P test xs h.1)
  | inr e ↦ rw e (All-filter P test xs h.1)
]

All-cons_found :
    (P : Plane → Type 0) (found : Option Plane) (planes : List Plane)
    → ((p : Plane) → found ≡ some p → P p)
    → All P planes
    → All P (cons_found found planes)
All-cons_found P none planes h k = k
All-cons_found P (some p) planes h k = (h p refl, k)

module _ ⦃q : Qt⦄ where
  open q use {DateTime}

  abbrev IsCreated : {A : Type 0} → Option A → Type 0
  IsCreated none = ⊥
  IsCreated (some a) = Unit

  IsCreated-some : {A : Type 0} (o : Option A) → IsCreated o → (a : A) × (o ≡ some a)
  IsCreated-some none h = elim h [ ]
  IsCreated-some (some a) h = (a, refl)

  and_then-IsCreated :
      {A B : Type 0} (o : Option A) (f : A → Option B)
      → IsCreated o
      → ((a : A) → IsCreated (f a))
      → IsCreated (and_then o f)
  and_then-IsCreated none f h k = h
  and_then-IsCreated (some a) f h k = k a

  create_each-IsCreated :
      (plane : Option Plane) (cache : Objects) (groups : List (List (Flight DateTime)))
      → All (IsEntry plane) groups
      → IsCreated (create_each cache groups)
  unfolding create_each create
  create_each-IsCreated plane cache [] h = tt
  create_each-IsCreated plane cache ([] ∷ groups) h = elim h.0 [ ]
  create_each-IsCreated plane cache ((f ∷ flights) ∷ groups) h =
      and_then-IsCreated (create_each cache groups) _ (create_each-IsCreated plane cache groups h.1)
        (λ entries. tt)

  -- Some finished flight is of the plane.
  abbrev IsUsed : List (Flight DateTime) → ℕ → Type 0
  IsUsed flights id = IsNonempty (interesting_flights id flights)

  -- A flight more.
  IsUsed-cons :
      (f : Flight DateTime) (flights : List (Flight DateTime)) (id : ℕ)
      → IsUsed flights id
      → IsUsed (f ∷ flights) id
  unfolding interesting_flights IsNonempty
  IsUsed-cons f flights id h = elim (Bool-cases (finished f && (f.plane_id == id))) [
    | inl e ↦ rw e tt
    | inr e ↦ rw e h
  ]

  finished-IsUsed :
      (flights : List (Flight DateTime))
      → All (IsUsed flights) (map (λ f. f.plane_id) (filter finished flights))
  unfolding interesting_flights IsNonempty
  finished-IsUsed [] = tt
  finished-IsUsed (f ∷ flights) =
      let rest =
        All-map (IsUsed flights) (IsUsed (f ∷ flights))
          (map (λ g. g.plane_id) (filter finished flights)) (IsUsed-cons f flights)
          (finished-IsUsed flights) in
      elim (Bool-cases (finished f)) [
        | inl e ↦ rw e (rw (e, ==-refl f.plane_id) tt, rest)
        | inr e ↦ rw e rest
      ]

  create_entries-IsCreated :
      (plane : Option Plane) (cache : Objects) (flights : List (Flight DateTime))
      → IsNonempty flights
      → IsCreated (create_each cache (entry_flights plane [] none flights))
  unfolding IsNonempty
  create_entries-IsCreated plane cache [] h = elim h [ ]
  create_entries-IsCreated plane cache (f ∷ flights) h =
      create_each-IsCreated plane cache (entry_flights plane [] none (f ∷ flights))
        (entry_flights_lem plane f flights).1.0

  create_new-IsCreated :
      (s : Sorting)
      → IsSorting s
      → (flights : List (Flight DateTime)) (cache : Objects) (id : ℕ) → IsUsed flights id
      → IsCreated (create_new s id flights cache)
  unfolding create_new plane_flights
  create_new-IsCreated s h flights cache id used =
      create_entries-IsCreated (get_plane cache id) cache (plane_flights s id flights)
        (IsNonempty-Permᴰ (h.permutes less_than (interesting_flights id flights)) used)

  -- A plane of the cache has the identifier under which it is found.
  abbrev pub IsKeyed : Objects → Type 0
  IsKeyed cache = (id : ℕ) (p : Plane) → get_plane cache id ≡ some p → p.id ≡ id

  planes_of-IsUsed :
      (cache : Objects)
      → IsKeyed cache
      → (flights : List (Flight DateTime)) (ids : List ℕ) → All (IsUsed flights) ids
      → All (λ p. IsUsed flights p.id) (planes_of cache ids)
  unfolding planes_of
  planes_of-IsUsed cache keyed flights [] h = tt
  planes_of-IsUsed cache keyed flights (id ∷ ids) h =
      All-cons_found (λ p. IsUsed flights p.id) (get_plane cache id) (planes_of cache ids)
        (λ p e. subst (IsUsed flights) (sym (keyed id p e)) h.0)
        (planes_of-IsUsed cache keyed flights ids h.1)

  create_planes-IsCreated :
      (s : Sorting)
      → IsSorting s
      → (cache : Objects) (planes : List Plane) (flights : List (Flight DateTime))
      → All (λ p. IsUsed flights p.id) planes
      → IsCreated (create_planes s planes flights cache)
  unfolding create_planes
  create_planes-IsCreated s h cache [] flights used = tt
  create_planes-IsCreated s h cache (p ∷ planes) flights used =
      and_then-IsCreated (create_new s p.id flights cache) _
        (create_new-IsCreated s h flights cache p.id used.0)
        (λ entries.
          and_then-IsCreated (create_planes s planes flights cache) _
            (create_planes-IsCreated s h cache planes flights used.1) (λ more. tt))

  -- For a sort that permutes, and a set that holds only what was inserted: the log of all planes is
  -- created, for any flights and for a cache in which planes have the identifiers that they are
  -- found under. So the assertion that an entry has flights does not fail.
  pub create_all-IsCreated :
      (s : Sorting)
      → IsSorting s
      → (plane_less : Plane → Plane → Bool) (flights : List (Flight DateTime)) (cache : Objects)
      → IsKeyed cache
      → (entries : List Entry) × (create_all s plane_less flights cache ≡ some entries)
  unfolding create_all
  create_all-IsCreated s h plane_less flights cache keyed =
      let ids = s.set_values (map (λ f. f.plane_id) (filter finished flights)) in
      let used =
        All-filter (IsUsed flights) id_valid ids
          (h.inserted (IsUsed flights) _ (finished-IsUsed flights)) in
      let planes = planes_of cache (filter id_valid ids) in
      IsCreated-some (create_planes s (s.std_sort plane_less planes) flights cache) (
        create_planes-IsCreated s h cache (s.std_sort plane_less planes) flights (
          All-Permᴰ (λ p. IsUsed flights p.id) (h.permutes plane_less planes)
            (planes_of-IsUsed cache keyed flights (filter id_valid ids) used)))
