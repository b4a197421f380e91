-- ===== src/Container.antt =====
-- Qt's QHash and QMultiHash, by their documented behaviour, as lists of entries with the newest
-- first: `insert` of a QHash replaces, `insert` of a QMultiHash adds, `values` lists the newest
-- first and `value` is the newest. `SkMultiHash` is src/container/SkMultiHash.h.
pub mod Laws
use startkladde.Prelude.{
  ℕ, ◌==◌, Bool, true, false, not, ◌&&◌, ◌||◌, String, ◌≡◌, ◌↔◌, List, [], ◌∷◌, Option, none, some,
  if◌then◌else◌, str_eq, str_eq_iff, ==_iff, inl, inr, arith,
}

-- Keys and values are compared by `operator==`.
pub record Eq {ℓ} (A : Type ℓ) : Type ℓ where
  pub eq : A → A → Bool
  pub eq_iff : (a b : A) → (eq a b ≡ true) ↔ (a ≡ b)

instance abbrev pub nat_eq : Eq ℕ
nat_eq = record { eq = ◌==◌; eq_iff = ==_iff }

instance abbrev pub string_eq : Eq String
string_eq = record { eq = str_eq; eq_iff = str_eq_iff }

-- QPair's `operator==`.
abbrev same_pair : String × String → String × String → Bool
same_pair a b = str_eq a.0 b.0 && str_eq a.1 b.1

pub same_pair_iff : (a b : String × String) → (same_pair a b ≡ true) ↔ (a ≡ b)
same_pair_iff a b = ground (arith, str_eq_iff a.0 b.0, str_eq_iff a.1 b.1)

instance abbrev pub pair_eq : Eq (String × String)
pair_eq = record { eq = same_pair; eq_iff = same_pair_iff }

abbrev pub Hash : Type 0 → Type 0 → Type 0
Hash K V = List (K × V)

-- A SortedSet of texts (src/container/SortedSet_impl.h): inserting a text that is there changes
-- nothing. The sorting is for display and not modelled.
abbrev contains_text : String → List String → Bool
contains_text s [] = false
contains_text s (t ∷ set) = str_eq t s || contains_text s set

unfoldable pub insert_text : String → List String → List String
insert_text s set = if contains_text s set then set else s ∷ set

unfoldable pub remove_text : String → List String → List String
remove_text s [] = []
remove_text s (t ∷ set) = let rest = remove_text s set in if str_eq t s then rest else t ∷ rest

module _ {K V : Type 0} ⦃k_eq : Eq K⦄ where
  unfoldable pub value : K → Hash K V → Option V
  value k [] = none
  value k ((j, v) ∷ h) = if k_eq.eq j k then some v else value k h

  unfoldable pub contains : K → Hash K V → Bool
  contains k [] = false
  contains k ((j, v) ∷ h) = k_eq.eq j k || contains k h

  -- QMultiHash::values
  unfoldable pub values : K → Hash K V → List V
  values k [] = []
  values k ((j, v) ∷ h) = let rest = values k h in if k_eq.eq j k then v ∷ rest else rest

  -- QHash::remove
  unfoldable pub remove : K → Hash K V → Hash K V
  remove k [] = []
  remove k ((j, v) ∷ h) = let rest = remove k h in if k_eq.eq j k then rest else (j, v) ∷ rest

  -- QHash::insert
  unfoldable pub insert : K → V → Hash K V → Hash K V
  unfolding remove
  insert k v h = (k, v) ∷ remove k h

  -- QMultiHash::insert
  abbrev pub insert_multi : K → V → Hash K V → Hash K V
  insert_multi k v h = (k, v) ∷ h

module _ {K V : Type 0} ⦃k_eq : Eq K⦄ ⦃v_eq : Eq V⦄ where
  -- QMultiHash::remove with a key and a value
  unfoldable pub remove_pair : K → V → Hash K V → Hash K V
  remove_pair k v [] = []
  remove_pair k v ((j, w) ∷ h) =
      let rest = remove_pair k v h in if k_eq.eq j k && v_eq.eq w v then rest else (j, w) ∷ rest

  -- QMultiHash::contains with a key and a value
  unfoldable pub contains_pair : K → V → Hash K V → Bool
  contains_pair k v [] = false
  contains_pair k v ((j, w) ∷ h) = (k_eq.eq j k && v_eq.eq w v) || contains_pair k v h

  -- SkMultiHash::insertUnique, which answers whether it inserted
  pub insert_unique : K → V → Hash K V → Bool × Hash K V
  unfolding contains_pair
  insert_unique k v h = if contains_pair k v h then (false, h) else (true, insert_multi k v h)
