-- ===== src/Cache/EntityList/Search.antt =====
-- The search by identifier and the places in a list.
use mathlib.Core.Path.{subst}
use startkladde.Prelude.{
  ℕ, zero, suc, ◌+◌, ◌-◌, ◌≤◌, ◌<◌, ◌==◌, ◌≡◌, ◌∙◌, ap, List, [], ◌∷◌, some, arith, Bool-cases, inl,
  inr,
}
use startkladde.Prelude.All.{All}
use startkladde.Prelude.Int.{pos}
use startkladde.Prelude.Lists.{length, get_elem?}
use startkladde.Cache.EntityList.{find_from, find_by_id, count_id}

module _ {T : Type 0} (get_id : T → ℕ) where
  count_id-get_elem? :
      (xs : List T) (i : ℕ) (x : T) → get_elem? xs i ≡ some x → 1 ≤ count_id get_id (get_id x) xs
  count_id-get_elem? [] i x h = cc
  count_id-get_elem? (y ∷ ys) zero x h = ground arith
  count_id-get_elem? (y ∷ ys) (suc i) x h = ground (arith, count_id-get_elem? ys i x)

  -- Where identifiers are unique, the search finds the index of each element.
  find_from-get_elem? :
      (k : ℕ) (xs : List T) (i : ℕ) (x : T)
      → get_elem? xs i ≡ some x
      → count_id get_id (get_id x) xs ≤ 1
      → find_from get_id k (get_id x) xs ≡ pos (k + i)
  unfolding find_from
  find_from-get_elem? k [] i x h u = cc
  find_from-get_elem? k (y ∷ ys) zero x h u = ground arith
  find_from-get_elem? k (y ∷ ys) (suc i) x h u =
      ground (arith, count_id-get_elem? ys i x h, find_from-get_elem? (suc k) ys i x h)

  -- What the search finds is at its index.
  get_elem?-find_from :
      (k id j : ℕ) (xs : List T)
      → find_from get_id k id xs ≡ pos j
      → (k ≤ j) × ((x : T) × (get_elem? xs (j - k) ≡ some x) × (get_id x ≡ id))
  unfolding find_from
  get_elem?-find_from k id j [] h = ground arith
  get_elem?-find_from k id j (y ∷ ys) h = elim (Bool-cases (get_id y == id)) [
    | inl same ↦ let e : j - k ≡ 0 = ground arith in (ground arith, (y, rw e, ground arith))
    | inr other ↦
        let (le, (x, at_x, id_x)) = get_elem?-find_from (suc k) id j ys (ground arith) in
        let e : j - k ≡ suc (j - suc k) = omega arith in (omega arith, (x, rw e at_x, id_x))
  ]

  pub find_by_id-get_elem? :
      (xs : List T) (i : ℕ) (x : T)
      → get_elem? xs i ≡ some x
      → count_id get_id (get_id x) xs ≤ 1
      → find_by_id get_id (get_id x) xs ≡ pos i
  unfolding find_by_id
  find_by_id-get_elem? xs i x h u = find_from-get_elem? 0 xs i x h u ∙ ap pos (omega arith)

  pub get_elem?-find_by_id :
      (id j : ℕ) (xs : List T)
      → find_by_id get_id id xs ≡ pos j
      → (x : T) × (get_elem? xs j ≡ some x) × (get_id x ≡ id)
  unfolding find_by_id
  get_elem?-find_by_id id j xs h =
      let (le, (x, at_x, id_x)) = get_elem?-find_from 0 id j xs h in
      let e : j - 0 ≡ j = omega arith in (x, rw e at at_x, id_x)

pub lt-get_elem? :
    {T : Type 0} (xs : List T) (i : ℕ) (x : T) → get_elem? xs i ≡ some x → i < length xs
lt-get_elem? [] i x h = cc
lt-get_elem? (y ∷ ys) zero x h = omega arith
lt-get_elem? (y ∷ ys) (suc i) x h = omega (arith, lt-get_elem? ys i x h)

pub All-get_elem? :
    {T : Type 0} (P : T → Type 0) (xs : List T) (i : ℕ) (x : T)
    → All P xs
    → get_elem? xs i ≡ some x
    → P x
All-get_elem? P [] i x h e = cc
All-get_elem? P (y ∷ ys) zero x h e = subst P (cc) h.0
All-get_elem? P (y ∷ ys) (suc i) x h e = All-get_elem? P ys i x h.1 e
