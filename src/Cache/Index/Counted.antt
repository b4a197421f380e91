-- ===== src/Cache/Index/Counted.antt =====
-- A multi-hash by a property in which no pair stands twice, and what its `values` then are.
use startkladde.Prelude.{
  ℕ, ◌+◌, ◌==◌, Bool, ◌&&◌, ◌≡◌, refl, List, [], ◌∷◌, Option, none, some, arith, if◌then◌else◌,
}
use startkladde.Container.{
  Eq, Hash, nat_eq, value, values, insert, remove, insert_multi, remove_pair,
}
use startkladde.Container.Laws.{value-insert, value-remove}
use startkladde.Cache.Index.{has_key, unindex}

-- How often a number is in a list.
abbrev pub count : ℕ → List ℕ → ℕ
count id [] = 0
count id (i ∷ ids) = (if i == id then 1 else 0) + count id ids

module _ {K : Type 0} ⦃k_eq : Eq K⦄ where
  -- How often a key is paired with a value.
  abbrev pub count_pair : K → ℕ → Hash K ℕ → ℕ
  count_pair k id [] = 0
  count_pair k id ((j, i) ∷ h) = (if k_eq.eq j k && (i == id) then 1 else 0) + count_pair k id h

  pub count-values : (k : K) (id : ℕ) (h : Hash K ℕ) → count id (values k h) ≡ count_pair k id h
  unfolding values
  count-values k id [] = refl
  count-values k id ((j, i) ∷ h) = ground (arith, count-values k id h)

  count_pair-remove_pair :
      (k j : K) (id i : ℕ) (h : Hash K ℕ)
      → count_pair j i (remove_pair k id h)
        ≡ (if k_eq.eq k j && (id == i) then 0 else count_pair j i h)
  unfolding remove_pair
  count_pair-remove_pair k j id i [] = ground arith
  count_pair-remove_pair k j id i ((l, u) ∷ h) =
      ground (
        arith,
        count_pair-remove_pair k j id i h,
        k_eq.eq_iff l k,
        k_eq.eq_iff l j,
        k_eq.eq_iff k j,
      )

abbrev one_if : Bool → ℕ
one_if b = if b then 1 else 0

module _ {K T : Type 0} ⦃k_eq : Eq K⦄ (key : T → K) where
  -- A key is paired once with the identifier of each object that has the key, and with no other.
  abbrev pub IsCounted : Hash ℕ T → Hash K ℕ → Type 0
  IsCounted objects index =
      (k : K) (id : ℕ) → count_pair k id index ≡ one_if (has_key key k (value id objects))

  module _ (objects : Hash ℕ T) (index : Hash K ℕ) (h : IsCounted objects index) where
    count_pair-unindex :
        (id : ℕ) (old : Option T)
        → value id objects ≡ old
        → (k : K) (j : ℕ)
        → count_pair k j (unindex key id old index) ≡ (if id == j then 0 else count_pair k j index)
    count_pair-unindex id none e k j = ground (arith, h k j, h k id)
    count_pair-unindex id (some old) e k j =
        ground (arith, count_pair-remove_pair (key old) k id j index, h k j, h k id)

    pub IsCounted-remove :
        (id : ℕ) (old : Option T)
        → value id objects ≡ old
        → IsCounted (remove id objects) (unindex key id old index)
    IsCounted-remove id old e k j =
        ground (arith, value-remove id j objects, count_pair-unindex id old e k j, h k j)

    pub IsCounted-update :
        (id : ℕ) (t : T) (old : Option T)
        → value id objects ≡ old
        → IsCounted (insert id t objects) (insert_multi (key t) id (unindex key id old index))
    IsCounted-update id t old e k j =
        ground (arith, value-insert id j t objects, count_pair-unindex id old e k j, h k j)
