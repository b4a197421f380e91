-- ===== src/Cache/EntityList.antt =====
-- src/model/objectList/EntityList.h over MutableObjectList.h: a list of objects by identifier. The
-- signals to the views are left out.
pub mod Search
use startkladde.Prelude.{
  ℕ, suc, ◌+◌, ◌==◌, Bool, true, false, ◌&&◌, ◌≡◌, refl, List, [], ◌∷◌, ◌++◌, arith, if◌then◌else◌,
  Bool-cases, inl, inr,
}
use startkladde.Prelude.Int.{ℤ, pos, negsuc}
use startkladde.Prelude.All.{All, All-append}

-- `index>=0`
abbrev pub is_index : ℤ → Bool
is_index (pos i) = true
is_index (negsuc i) = false

module _ {T : Type 0} (get_id : T → ℕ) where
  -- The loop of `findById` from index `i`; -1 if there is no such object.
  unfoldable pub find_from : ℕ → ℕ → List T → ℤ
  find_from i id [] = negsuc 0
  find_from i id (x ∷ xs) =
      let rest = find_from (suc i) id xs in if get_id x == id then pos i else rest

  unfoldable pub find_by_id : ℕ → List T → ℤ
  unfolding find_from
  find_by_id id xs = find_from 0 id xs

  unfoldable pub remove_by_id : ℕ → List T → List T
  remove_by_id id [] = []
  remove_by_id id (x ∷ xs) =
      let rest = remove_by_id id xs in if get_id x == id then rest else x ∷ rest

  unfoldable pub replace_by_id : ℕ → T → List T → List T
  replace_by_id id object [] = []
  replace_by_id id object (x ∷ xs) =
      (if get_id x == id then object else x) ∷ replace_by_id id object xs

  unfoldable pub replace_or_add : ℕ → T → List T → List T
  unfolding find_by_id replace_by_id
  replace_or_add id object xs =
      if is_index (find_by_id id xs) then replace_by_id id object xs else xs ++ object ∷ []

  -- How many objects of the list have the identifier.
  abbrev pub count_id : ℕ → List T → ℕ
  count_id id [] = 0
  count_id id (x ∷ xs) = (if get_id x == id then 1 else 0) + count_id id xs

  pub count_id-append :
      (id : ℕ) (xs ys : List T) → count_id id (xs ++ ys) ≡ count_id id xs + count_id id ys
  count_id-append id [] ys = omega arith
  count_id-append id (x ∷ xs) ys = omega (arith, count_id-append id xs ys)

  pub count_id-remove_by_id :
      (i id : ℕ) (xs : List T)
      → count_id i (remove_by_id id xs) ≡ (if i == id then 0 else count_id i xs)
  unfolding remove_by_id
  count_id-remove_by_id i id [] = ground arith
  count_id-remove_by_id i id (x ∷ xs) = ground (arith, count_id-remove_by_id i id xs)

  pub count_id-replace_by_id :
      (i : ℕ) (object : T) (xs : List T)
      → count_id i (replace_by_id (get_id object) object xs) ≡ count_id i xs
  unfolding replace_by_id
  count_id-replace_by_id i object [] = refl
  count_id-replace_by_id i object (x ∷ xs) = ground (arith, count_id-replace_by_id i object xs)

  pub is_index-find_from :
      (i id : ℕ) (xs : List T)
      → is_index (find_from i id xs) ≡ (if count_id id xs == 0 then false else true)
  unfolding find_from
  is_index-find_from i id [] = refl
  is_index-find_from i id (x ∷ xs) = ground (arith, is_index-find_from (suc i) id xs)

  -- After `replaceOrAdd` there is an object with the identifier, and as many as before if there
  -- was one; other identifiers are untouched.
  pub count_id-replace_or_add :
      (i : ℕ) (object : T) (xs : List T)
      → count_id i (replace_or_add (get_id object) object xs)
        ≡ (if (i == get_id object) && (count_id i xs == 0) then 1 else count_id i xs)
  unfolding replace_or_add
  count_id-replace_or_add i object xs = ground (
    arith,
    is_index-find_from 0 (get_id object) xs,
    count_id-replace_by_id i object xs,
    count_id-append i xs (object ∷ []),
  )

-- A predicate on every object, after each operation: what the others keep is known to have another
-- identifier.
module _ {T : Type 0} (get_id : T → ℕ) (P Q : T → Type 0) (id : ℕ) where
  abbrev Moves : Type 0
  Moves = (x : T) → P x → (get_id x == id) ≡ false → Q x

  pub All-remove_by_id : Moves → (xs : List T) → All P xs → All Q (remove_by_id get_id id xs)
  unfolding remove_by_id
  All-remove_by_id f [] h = tt
  All-remove_by_id f (x ∷ xs) h = elim (Bool-cases (get_id x == id)) [
    | inl same ↦ rw same (All-remove_by_id f xs h.1)
    | inr other ↦ rw other (f x h.0 other, All-remove_by_id f xs h.1)
  ]

  pub All-replace_by_id :
      Moves
      → (object : T) → Q object
      → (xs : List T) → All P xs
      → All Q (replace_by_id get_id id object xs)
  unfolding replace_by_id
  All-replace_by_id f object q [] h = tt
  All-replace_by_id f object q (x ∷ xs) h = elim (Bool-cases (get_id x == id)) [
    | inl same ↦ rw same (q, All-replace_by_id f object q xs h.1)
    | inr other ↦ rw other (f x h.0 other, All-replace_by_id f object q xs h.1)
  ]

  -- Where no object has the identifier, every object moves.
  pub All-absent : Moves → (xs : List T) → count_id get_id id xs ≡ 0 → All P xs → All Q xs
  All-absent f [] c h = tt
  All-absent f (x ∷ xs) c h = (f x h.0 (ground arith), All-absent f xs (ground arith) h.1)

  pub All-replace_or_add :
      Moves
      → (object : T) → Q object
      → (xs : List T) → All P xs
      → All Q (replace_or_add get_id id object xs)
  unfolding replace_or_add
  All-replace_or_add f object q xs h = elim (Bool-cases (is_index (find_from get_id 0 id xs))) [
    | inl there ↦ rw there (All-replace_by_id f object q xs h)
    | inr missing ↦ rw missing (
        All-append Q xs (object ∷ [])
          (All-absent f xs (ground (arith, is_index-find_from get_id 0 id xs)) h) (q, tt))
  ]
