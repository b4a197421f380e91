-- ===== src/Statistics/LaunchMethods/Total.antt =====
-- The sum over the launch method statistics (src/statistics/LaunchMethodStatistics.cpp).
use startkladde.Prelude.{
  ℕ, suc, ◌+◌, ◌<◌, ltb, Bool, true, false, ◌&&◌, ◌||◌, ◌≡◌, refl, String, List, [], ◌∷◌, ◌++◌,
  Option, none, some, map, arith, if◌then◌else◌, Option-cases, inl, inr, ==_iff,
}
use startkladde.Prelude.All.{All, All-map, All-both}
use startkladde.Flight.{Flight, happened, is_towflight}
use startkladde.Model.LaunchMethod.{LaunchMethod}
use startkladde.Cache.Objects.{Objects, get_launch_method}
use startkladde.Statistics.LaunchMethods.{
  Entry, Counts, increment, count_of, found_launch_methods, count_flights, create_new,
}

abbrev pub is_known : Option LaunchMethod → Bool
is_known none = false
is_known (some l) = true

abbrev pub sum_of : {A : Type 0} → (A → ℕ) → List A → ℕ
sum_of f [] = 0
sum_of f (x ∷ xs) = f x + sum_of f xs

-- The sum of the entries' numbers.
abbrev pub total : List Entry → ℕ
total [] = 0
total (e ∷ es) = e.num + total es

total-append : (es fs : List Entry) → total (es ++ fs) ≡ total es + total fs
total-append [] fs = omega arith
total-append (e ∷ es) fs = omega (arith, total-append es fs)

-- The keys of a QMap ascend.
abbrev IsAscending : Counts → Type 0
IsAscending [] = Unit
IsAscending ((k, n) ∷ m) = All (λ e. k < e.0) m × IsAscending m

increment-above :
    (j id : ℕ) (m : Counts) → j < id → All (λ e. j < e.0) m → All (λ e. j < e.0) (increment id m)
unfolding increment
increment-above j id [] h k = (h, tt)
increment-above j id ((i, n) ∷ m) h k = ground (arith, increment-above j id m h k.1)

increment-IsAscending : (id : ℕ) (m : Counts) → IsAscending m → IsAscending (increment id m)
unfolding increment
increment-IsAscending id [] h = (tt, tt)
increment-IsAscending id ((k, n) ∷ m) h = ground (
  arith,
  increment-IsAscending id m h.1,
  increment-above k id m,
  All-map (λ (e : ℕ × ℕ). k < e.0) (λ (e : ℕ × ℕ). id < e.0) m,
)

-- Each entry of the map is what is read at its key.
count_of-entries : (m : Counts) → IsAscending m → All (λ e. count_of e.0 m ≡ e.1) m
unfolding count_of
count_of-entries [] h = tt
count_of-entries ((k, n) ∷ m) h = (
  ground (arith, ==_iff k k),
  All-both (λ e. count_of e.0 m ≡ e.1) (λ e. k < e.0) _ m (λ e same above. ground arith)
      (count_of-entries m h.1) h.0,
)

module _ (c : Objects) where
  abbrev known : ℕ → Bool
  known id = is_known (get_launch_method c id)

  -- The counts of the launch methods of the cache.
  abbrev weight : Counts → ℕ
  weight [] = 0
  weight ((k, n) ∷ m) = (if known k then n else 0) + weight m

  weight-increment :
      (id : ℕ) (m : Counts) → weight (increment id m) ≡ weight m + (if known id then 1 else 0)
  unfolding increment
  weight-increment id [] = ground arith
  weight-increment id ((k, n) ∷ m) = ground (arith, weight-increment id m, ==_iff k id)

  -- A flight that the statistics count: it happened, and it is a towflight or its launch method is
  -- in the cache.
  abbrev pub is_counted : {D : Type 0} → Flight D → Bool
  is_counted f = happened f && (is_towflight f || known f.launch_method_id)

  abbrev pub num_counted : {D : Type 0} → List (Flight D) → ℕ
  num_counted [] = 0
  num_counted (f ∷ fs) = (if is_counted f then 1 else 0) + num_counted fs

  count_flights-weight :
      {D : Type 0} (fs : List (Flight D)) (m : Counts) (t : ℕ)
      → weight (count_flights fs (m, t)).0 + (count_flights fs (m, t)).1
        ≡ weight m + t + num_counted fs
  unfolding count_flights
  count_flights-weight [] m t = omega arith
  count_flights-weight (f ∷ fs) m t = ground (
    arith,
    count_flights-weight fs m t,
    count_flights-weight fs m (suc t),
    count_flights-weight fs (increment f.launch_method_id m) t,
    weight-increment f.launch_method_id m,
  )

  -- The launch methods are known under their identifiers.
  abbrev pub IsKeyed : Type 0
  IsKeyed = (id : ℕ) (l : LaunchMethod) → get_launch_method c id ≡ some l → l.id ≡ id

  found-weight :
      (h : IsKeyed) (all m : Counts)
      → All (λ e. count_of e.0 all ≡ e.1) m
      → sum_of (λ l. count_of l.id all) (found_launch_methods c m) ≡ weight m
  unfolding found_launch_methods
  found-weight h all [] same = refl
  found-weight h all ((k, n) ∷ m) same = elim (Option-cases (get_launch_method c k)) [
    | inl missing ↦ rw missing (omega (arith, found-weight h all m same.1))
    | inr (l, e) ↦
        let at_k : l.id ≡ k = h k l e in
        rw (e, at_k) (omega (arith, same.0, found-weight h all m same.1))
  ]

count_flights-IsAscending :
    {D : Type 0} (fs : List (Flight D)) (m : Counts) (t : ℕ)
    → IsAscending m
    → IsAscending (count_flights fs (m, t)).0
unfolding count_flights
count_flights-IsAscending [] m t h = h
count_flights-IsAscending (f ∷ fs) m t h = ground (
  arith,
  count_flights-IsAscending fs m t,
  count_flights-IsAscending fs m (suc t),
  count_flights-IsAscending fs (increment f.launch_method_id m) t,
  increment-IsAscending f.launch_method_id m,
)

-- The text of an entry does not count.
total-map :
    (num : LaunchMethod → ℕ) (ls : List LaunchMethod)
    → total (map (λ l. record { name = l.name; num = num l }) ls) ≡ sum_of num ls
total-map num [] = refl
total-map num (l ∷ ls) = omega (arith, total-map num ls)

-- The numbers of the launch method statistics add up to the flights that they count: those that
-- happened and that are towflights or have a launch method of the cache. No launch is lost or counted
-- twice. The cache has to know launch methods under their identifiers, and std::sort has to keep
-- the elements of a list, so that sums over it stay the same.
pub total-create_new :
    {D : Type 0} (std_sort : List LaunchMethod → List LaunchMethod) (towflights_name : String)
    (flights : List (Flight D)) (c : Objects)
    → ((num : LaunchMethod → ℕ) (ls : List LaunchMethod) → sum_of num (std_sort ls) ≡ sum_of num ls)
    → IsKeyed c
    → total (create_new std_sort towflights_name flights c) ≡ num_counted c flights
unfolding create_new
total-create_new std_sort towflights_name flights c sorts h =
    let m : Counts = (count_flights flights ([], 0)).0 in
    let entries = count_of-entries m (count_flights-IsAscending flights [] 0 tt) in
    ground (
      arith,
      total-append
          (map (λ l. record { name = l.name; num = count_of l.id m })
            (std_sort (found_launch_methods c m)))
          (if ltb 0 (count_flights flights ([], 0)).1
            then record { name = towflights_name; num = (count_flights flights ([], 0)).1 } ∷ []
            else []),
      total-map (λ l. count_of l.id m) (std_sort (found_launch_methods c m)),
      sorts (λ l. count_of l.id m) (found_launch_methods c m),
      found-weight c h m m entries,
      count_flights-weight c flights [] 0,
    )
