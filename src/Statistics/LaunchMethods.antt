-- ===== src/Statistics/LaunchMethods.antt =====
-- src/statistics/LaunchMethodStatistics.cpp: how many flights used each launch method.
pub mod Total
use startkladde.Prelude.{
  ℕ, suc, ◌+◌, ◌==◌, ltb, Bool, true, not, ◌&&◌, String, List, [], ◌∷◌, ◌++◌, Option, none, some,
  map, if◌then◌else◌,
}
use startkladde.Flight.{Flight, happened, is_towflight}
use startkladde.Model.LaunchMethod.{LaunchMethod}
use startkladde.Cache.Objects.{Objects, get_launch_method}

pub record Entry : Type 0 where
  pub name : String
  pub num : ℕ

-- A QMap<dbId, int>: its entries in the order of the keys.
abbrev pub Counts : Type 0
Counts = List (ℕ × ℕ)

-- `++map[id]`
unfoldable pub increment : ℕ → Counts → Counts
increment id [] = (id, 1) ∷ []
increment id ((k, n) ∷ m) =
    let rest = increment id m in
    if k == id then (k, suc n) ∷ m else if ltb id k then (id, 1) ∷ (k, n) ∷ m else (k, n) ∷ rest

-- `map[id]`
unfoldable pub count_of : ℕ → Counts → ℕ
count_of id [] = 0
count_of id ((k, n) ∷ m) = if k == id then n else count_of id m

-- `cache.getObjects<LaunchMethod> (map.keys (), true)`: identifiers that are not found are left out.
abbrev pub cons_launch_method : Option LaunchMethod → List LaunchMethod → List LaunchMethod
cons_launch_method none ls = ls
cons_launch_method (some l) ls = l ∷ ls

unfoldable pub found_launch_methods : Objects → Counts → List LaunchMethod
found_launch_methods c [] = []
found_launch_methods c ((k, n) ∷ m) =
    cons_launch_method (get_launch_method c k) (found_launch_methods c m)

module _ {D : Type 0} where
  -- The loop over the flights: the map and the number of towflights.
  unfoldable pub count_flights : List (Flight D) → Counts × ℕ → Counts × ℕ
  unfolding increment happened
  count_flights [] s = s
  count_flights (flight ∷ flights) (m, towflights) = count_flights flights (
      if happened flight
      then (if is_towflight flight
          then (m, suc towflights)
          else (increment flight.launch_method_id m, towflights))
      else (m, towflights))

  -- `std_sort` is std::sort by LaunchMethod::nameLessThan, `towflights_name` the translated text.
  unfoldable pub create_new :
      (List LaunchMethod → List LaunchMethod) → String → List (Flight D) → Objects → List Entry
  unfolding count_flights count_of found_launch_methods
  create_new std_sort towflights_name flights c =
      let (m, towflights) = count_flights flights ([], 0) in
      map (λ l. record { name = l.name; num = count_of l.id m })
        (std_sort (found_launch_methods c m))
      ++ (if ltb 0 towflights then record { name = towflights_name; num = towflights } ∷ [] else [])
