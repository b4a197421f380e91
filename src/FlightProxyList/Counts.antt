-- ===== src/FlightProxyList/Counts.antt =====
-- How often an identifier stands in a list of towflights after its first one is erased or replaced,
-- and what the search for it says.
use startkladde.Prelude.{
  ℕ, suc, ◌+◌, ◌-◌, ◌≤◌, ◌==◌, ◌≡◌, refl, List, [], ◌∷◌, arith, if◌then◌else◌, Bool-cases, inl, inr,
}
use startkladde.Prelude.Int.{pos, negsuc}
use startkladde.Prelude.Lists.{set, erase_idx}
use startkladde.Cache.EntityList.{find_from, find_by_id, count_id}

module _ {T : Type 0} (get_id : T → ℕ) where
  find_from-le : (k id j : ℕ) (xs : List T) → find_from get_id k id xs ≡ pos j → k ≤ j
  unfolding find_from
  find_from-le k id j [] h = ground arith
  find_from-le k id j (x ∷ xs) h = ground (arith, find_from-le (suc k) id j xs)

  -- Not found means that the identifier is not there.
  count_id-missing :
      (k id n : ℕ) (xs : List T) → find_from get_id k id xs ≡ negsuc n → count_id get_id id xs ≡ 0
  unfolding find_from
  count_id-missing k id n [] h = refl
  count_id-missing k id n (x ∷ xs) h = ground (arith, count_id-missing (suc k) id n xs)

  count_id-erase_from :
      (k id j a : ℕ) (xs : List T)
      → find_from get_id k id xs ≡ pos j
      → count_id get_id a (erase_idx xs (j - k)) + (if a == id then 1 else 0) ≡ count_id get_id a xs
  unfolding find_from
  count_id-erase_from k id j a [] h = ground arith
  count_id-erase_from k id j a (x ∷ xs) h = elim (Bool-cases (get_id x == id)) [
    | inl same ↦ let e : j - k ≡ 0 = ground arith in rw e (ground arith)
    | inr other ↦
        let e : j - k ≡ suc (j - suc k) = ground (arith, find_from-le (suc k) id j xs) in
        rw e (ground (arith, count_id-erase_from (suc k) id j a xs))
  ]

  count_id-set_from :
      (k id j a : ℕ) (new : T) (xs : List T)
      → find_from get_id k id xs ≡ pos j
      → get_id new ≡ id
      → count_id get_id a (set xs (j - k) new) ≡ count_id get_id a xs
  unfolding find_from
  count_id-set_from k id j a new [] h n = ground arith
  count_id-set_from k id j a new (x ∷ xs) h n = elim (Bool-cases (get_id x == id)) [
    | inl same ↦ let e : j - k ≡ 0 = ground arith in rw e (ground arith)
    | inr other ↦
        let e : j - k ≡ suc (j - suc k) = ground (arith, find_from-le (suc k) id j xs) in
        rw e (ground (arith, count_id-set_from (suc k) id j a new xs))
  ]

  found_counts :
      (k id j : ℕ) (xs : List T) → find_from get_id k id xs ≡ pos j → 1 ≤ count_id get_id id xs
  unfolding find_from
  found_counts k id j [] h = ground arith
  found_counts k id j (x ∷ xs) h = ground (arith, found_counts (suc k) id j xs)

  -- The same for the search from the front.
  pub count_id-not_found :
      (id n : ℕ) (xs : List T) → find_by_id get_id id xs ≡ negsuc n → count_id get_id id xs ≡ 0
  unfolding find_by_id
  count_id-not_found id n xs h = count_id-missing 0 id n xs h

  pub count_id-found :
      (id j : ℕ) (xs : List T) → find_by_id get_id id xs ≡ pos j → 1 ≤ count_id get_id id xs
  unfolding find_by_id
  count_id-found id j xs h = found_counts 0 id j xs h

  pub count_id-erase_idx :
      (id j a : ℕ) (xs : List T)
      → find_by_id get_id id xs ≡ pos j
      → count_id get_id a (erase_idx xs j) + (if a == id then 1 else 0) ≡ count_id get_id a xs
  unfolding find_by_id
  count_id-erase_idx id j a xs h =
      let e : j - 0 ≡ j = omega arith in rw e at (count_id-erase_from 0 id j a xs h)

  pub count_id-set :
      (id j a : ℕ) (new : T) (xs : List T)
      → find_by_id get_id id xs ≡ pos j
      → get_id new ≡ id
      → count_id get_id a (set xs j new) ≡ count_id get_id a xs
  unfolding find_by_id
  count_id-set id j a new xs h n =
      let e : j - 0 ≡ j = omega arith in rw e at (count_id-set_from 0 id j a new xs h n)
