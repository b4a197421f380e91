-- ===== src/Examples/Statistics.antt =====
-- The log of the planes of two flights of the glider.
use startkladde.Prelude.{
  ℕ, ◌+◌, ◌==◌, ◌||◌, Bool, true, false, ◌≡◌, refl, List, [], ◌∷◌, some, none, if◌then◌else◌,
  Bool-cases, inl, inr, arith, ltb,
}
use startkladde.Prelude.Int.{pos}
use mathlib.Core.List.{Permᴰ}
use mathlib.Core.List.Permᴰ
use startkladde.Prelude.All.{All}
use startkladde.Prelude.Lists.{concat}
use startkladde.Container.{nat_eq, value, contains}
use startkladde.Cache.Objects.{get_object}
use startkladde.Flight.{Flight}
use startkladde.Statistics.PlaneLog.{Sorting, Entry, entry_flights, create_all}
use startkladde.Statistics.PlaneLog.Entries.{IsEntry, IsSplit, entry_flights_lem}
use startkladde.Statistics.PlaneLog.Creation.{IsSorting, IsKeyed, create_all-IsCreated}
use startkladde.Examples.Setting.{seconds, objects, glider, airborne}

insert_sorted : {A : Type 0} → (A → A → Bool) → A → List A → List A
insert_sorted less x [] = x ∷ []
insert_sorted less x (y ∷ ys) =
    let rest = insert_sorted less x ys in if less y x then y ∷ rest else x ∷ y ∷ ys

insertion_sort : {A : Type 0} → (A → A → Bool) → List A → List A
insertion_sort less [] = []
insertion_sort less (x ∷ xs) = insert_sorted less x (insertion_sort less xs)

insert_sorted-Permᴰ :
    {A : Type 0} (less : A → A → Bool) (x : A) (ys : List A)
    → Permᴰ (x ∷ ys) (insert_sorted less x ys)
unfolding insert_sorted
insert_sorted-Permᴰ less x [] = Permᴰ.cons refl Permᴰ.nil
insert_sorted-Permᴰ less x (y ∷ ys) = elim (Bool-cases (less y x)) [
  | inl e ↦
      rw e (Permᴰ.trans (Permᴰ.swap refl refl) (Permᴰ.cons refl (insert_sorted-Permᴰ less x ys)))
  | inr e ↦ rw e (Permᴰ.refl (x ∷ y ∷ ys))
]

insertion_sort-Permᴰ :
    {A : Type 0} (less : A → A → Bool) (xs : List A) → Permᴰ xs (insertion_sort less xs)
unfolding insertion_sort
insertion_sort-Permᴰ less [] = Permᴰ.nil
insertion_sort-Permᴰ less (x ∷ xs) =
    Permᴰ.trans (Permᴰ.cons refl (insertion_sort-Permᴰ less xs))
      (insert_sorted-Permᴰ less x (insertion_sort less xs))

among : ℕ → List ℕ → Bool
among x [] = false
among x (y ∷ ys) = x == y || among x ys

without_duplicates : List ℕ → List ℕ
without_duplicates [] = []
without_duplicates (x ∷ xs) =
    let rest = without_duplicates xs in if among x xs then rest else x ∷ rest

All-without_duplicates : (P : ℕ → Type 0) (xs : List ℕ) → All P xs → All P (without_duplicates xs)
unfolding without_duplicates
All-without_duplicates P [] h = tt
All-without_duplicates P (x ∷ xs) h = elim (Bool-cases (among x xs)) [
  | inl e ↦ rw e (All-without_duplicates P xs h.1)
  | inr e ↦ rw e (h.0, All-without_duplicates P xs h.1)
]

abbrev sorting : Sorting
sorting = record { std_sort = insertion_sort; set_values = without_duplicates }

sorting-IsSorting : IsSorting sorting
sorting-IsSorting = record { permutes = insertion_sort-Permᴰ; inserted = All-without_duplicates }

-- A local flight of the glider.
abbrev landed_at : ℕ → ℕ → Flight ℕ
landed_at id t = record (airborne id t) {
  landed = true;
  landing_time = t + 600;
  num_landings = pos 1;
}

entry_flights_lem_example :
    (concat (entry_flights (some glider) [] none (landed_at 1 1000 ∷ landed_at 2 5000 ∷ []))
      ≡ landed_at 1 1000 ∷ landed_at 2 5000 ∷ [])
    × (All
          (IsEntry (some glider))
          (entry_flights (some glider) [] none (landed_at 1 1000 ∷ landed_at 2 5000 ∷ []))
        × IsSplit
            (some glider)
            (entry_flights (some glider) [] none (landed_at 1 1000 ∷ landed_at 2 5000 ∷ [])))
entry_flights_lem_example =
    entry_flights_lem (some glider) (landed_at 1 1000) (landed_at 2 5000 ∷ [])

objects-IsKeyed : IsKeyed objects
unfolding get_object contains value
objects-IsKeyed id p h = ground arith

create_all-IsCreated_example :
    (entries : List Entry) × (create_all sorting
        (λ p p'. ltb p.id p'.id)
        (landed_at 1 1000 ∷ landed_at 2 5000 ∷ [])
        objects
      ≡ some entries)
create_all-IsCreated_example =
    create_all-IsCreated sorting sorting-IsSorting (λ p p'. ltb p.id p'.id)
      (landed_at 1 1000 ∷ landed_at 2 5000 ∷ []) objects objects-IsKeyed
