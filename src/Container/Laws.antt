-- ===== src/Container/Laws.antt =====
-- Lookups after insertions and removals.
use startkladde.Prelude.{true, refl, false, ◌&&◌, ◌≡◌, [], ◌∷◌, none, some, arith, if◌then◌else◌}
use startkladde.Container.{Eq, Hash, value, contains, remove, insert, remove_pair, contains_pair}

module _ {K V : Type 0} ⦃k_eq : Eq K⦄ where
  pub value-absent : (k : K) (h : Hash K V) → contains k h ≡ false → value k h ≡ none
  unfolding value contains
  value-absent k [] e = refl
  value-absent k ((j, v) ∷ h) e = ground (arith, value-absent k h)

  pub value-contains : (k : K) (v : V) (h : Hash K V) → value k h ≡ some v → contains k h ≡ true
  value-contains k v h e = ground (arith, value-absent k h)

  pub value-remove :
      (k j : K) (h : Hash K V) → value j (remove k h) ≡ (if k_eq.eq k j then none else value j h)
  unfolding value remove
  value-remove k j [] = ground arith
  value-remove k j ((i, v) ∷ h) =
      ground (arith, value-remove k j h, k_eq.eq_iff i k, k_eq.eq_iff i j, k_eq.eq_iff k j)

  pub value-insert :
      (k j : K) (v : V) (h : Hash K V)
      → value j (insert k v h) ≡ (if k_eq.eq k j then some v else value j h)
  unfolding value insert
  value-insert k j v h = ground (arith, value-remove k j h)

module _ {K V : Type 0} ⦃k_eq : Eq K⦄ ⦃v_eq : Eq V⦄ where
  pub contains_pair-remove_pair :
      (k j : K) (v w : V) (h : Hash K V)
      → contains_pair j w (remove_pair k v h)
        ≡ (if k_eq.eq k j && v_eq.eq v w then false else contains_pair j w h)
  unfolding contains_pair remove_pair
  contains_pair-remove_pair k j v w [] = ground arith
  contains_pair-remove_pair k j v w ((i, u) ∷ h) = ground (
    arith,
    contains_pair-remove_pair k j v w h,
    k_eq.eq_iff i k,
    k_eq.eq_iff i j,
    k_eq.eq_iff k j,
    v_eq.eq_iff u v,
    v_eq.eq_iff u w,
    v_eq.eq_iff v w,
  )
