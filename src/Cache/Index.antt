-- ===== src/Cache/Index.antt =====
-- A hash by a property beside the hash by identifier, as in src/db/cache/Cache_hashUpdates.cpp.
pub mod Counted
use startkladde.Prelude.{
  ℕ, ◌==◌, Bool, true, false, ◌≡◌, refl, List, [], ◌∷◌, Option, none, some, arith, if◌then◌else◌,
  Bool-cases, inl, inr, ◌⊎◌,
}
use startkladde.Container.{
  Eq, Hash, nat_eq, value, values, contains, insert, remove, insert_multi, remove_pair,
  contains_pair,
}
use startkladde.Container.Laws.{value-insert, value-remove, contains_pair-remove_pair}

module _ {K T : Type 0} ⦃k_eq : Eq K⦄ (key : T → K) where
  -- The object, if there is one, has the key.
  abbrev pub has_key : K → Option T → Bool
  has_key k none = false
  has_key k (some t) = k_eq.eq (key t) k

  pub has_key-some :
      (k : K) (o : Option T) → has_key k o ≡ true → (t : T) × (o ≡ some t) × (key t ≡ k)
  has_key-some k none h = cc
  has_key-some k (some t) h = (t, refl, (k_eq.eq_iff (key t) k).0 h)

  -- A key is paired with an identifier exactly if the object of that identifier has the key.
  abbrev pub IsIndexed : Hash ℕ T → Hash K ℕ → Type 0
  IsIndexed objects index =
      (k : K) (id : ℕ) → contains_pair k id index ≡ has_key k (value id objects)

  -- The index without the old object of an identifier.
  abbrev pub unindex : ℕ → Option T → Hash K ℕ → Hash K ℕ
  unindex id none index = index
  unindex id (some old) index = remove_pair (key old) id index

  module _ (objects : Hash ℕ T) (index : Hash K ℕ) (h : IsIndexed objects index) where
    -- Without the old object, no key is paired with the identifier.
    contains_pair-unindex :
        (id : ℕ) (old : Option T)
        → value id objects ≡ old
        → (k : K) (j : ℕ)
        → contains_pair k j (unindex id old index)
          ≡ (if id == j then false else contains_pair k j index)
    contains_pair-unindex id none e k j = ground (arith, h k j, h k id)
    contains_pair-unindex id (some old) e k j =
        ground (arith, contains_pair-remove_pair (key old) k id j index, h k j, h k id)

    pub IsIndexed-remove :
        (id : ℕ) (old : Option T)
        → value id objects ≡ old
        → IsIndexed (remove id objects) (unindex id old index)
    IsIndexed-remove id old e k j =
        ground (arith, value-remove id j objects, contains_pair-unindex id old e k j, h k j)

    pub IsIndexed-update :
        (id : ℕ) (t : T) (old : Option T)
        → value id objects ≡ old
        → IsIndexed (insert id t objects) (insert_multi (key t) id (unindex id old index))
    unfolding contains_pair
    IsIndexed-update id t old e k j =
        ground (arith, value-insert id j t objects, contains_pair-unindex id old e k j, h k j)

    pub IsIndexed-insert :
        (id : ℕ) (t : T)
        → value id objects ≡ none
        → IsIndexed (insert id t objects) (insert_multi (key t) id index)
    IsIndexed-insert id t absent = IsIndexed-update id t none absent

module _ {K V : Type 0} ⦃k_eq : Eq K⦄ ⦃v_eq : Eq V⦄ where
  -- What a key's newest value is paired with.
  pub contains_pair-value :
      (k : K) (v : V) (h : Hash K V) → value k h ≡ some v → contains_pair k v h ≡ true
  unfolding value contains_pair
  contains_pair-value k v [] e = cc
  contains_pair-value k v ((j, w) ∷ h) e =
      ground (arith, contains_pair-value k v h, v_eq.eq_iff w v)

  -- A key with a value has a newest value.
  pub value-contains_pair :
      (k : K) (v : V) (h : Hash K V)
      → contains_pair k v h ≡ true
      → (contains k h ≡ true) × ((w : V) × (value k h ≡ some w))
  unfolding value contains contains_pair
  value-contains_pair k v [] e = cc
  value-contains_pair k v ((j, w) ∷ h) e = elim (Bool-cases (k_eq.eq j k)) [
    | inl same ↦ (ground arith, (w, ground arith))
    | inr other ↦
        let rest = value-contains_pair k v h (ground arith) in
        (ground (arith, rest.0), (rest.1.0, ground (arith, rest.1.1)))
  ]

  -- The values of a key are what it is paired with.
  pub values-cases :
      (k : K) (h : Hash K V)
      → ((values k h ≡ []) × ((v : V) → contains_pair k v h ≡ false))
        ⊎ ((w : V) × (vs : List V) × (values k h ≡ w ∷ vs) × (contains_pair k w h ≡ true))
  unfolding values contains_pair
  values-cases k [] = inl (refl, λ v. refl)
  values-cases k ((j, w) ∷ h) = elim (Bool-cases (k_eq.eq j k)) [
    | inl same ↦ inr (w, values k h, ground arith, ground (arith, v_eq.eq_iff w w))
    | inr other ↦ elim (values-cases k h) [
      | inl (e, free) ↦ inl (ground arith, λ v. ground (arith, free v))
      | inr (w', vs, e, there) ↦ inr (w', vs, ground arith, ground arith)
    ]
  ]
