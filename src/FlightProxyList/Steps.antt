-- ===== src/FlightProxyList/Steps.antt =====
-- What one step of each handler does to the number of towflights of an identifier.
use startkladde.Prelude.{
  ℕ, ◌+◌, ◌-◌, ◌==◌, Bool, true, false, ◌&&◌, ◌≡◌, refl, ◌∙◌, List, [], ◌∷◌, ◌++◌, Option, none,
  some, arith, if◌then◌else◌, Bool-cases, inl, inr,
}
use startkladde.Prelude.Int.{ℤ, pos, negsuc}
use startkladde.Prelude.Lists.{erase_idx}
use startkladde.Qt.{Qt}
use startkladde.Model.LaunchMethod.{LaunchMethod}
use startkladde.Cache.EntityList.{count_id, count_id-append}
use startkladde.Cache.Objects.{Objects}
use startkladde.Cache.Flights.{Cache, get_flight}
use startkladde.Flight.{Flight}
use startkladde.Flight.Towflight.{TowflightContext, make_towflight}
use startkladde.FlightProxyList.{airtow_launch_method, find_towflight}
use startkladde.FlightProxyList.Handlers.{
  Proxy, add_towflight_for, replace_towflight, updated_towflight, update_towflight, change_row,
  remove_row,
}
use startkladde.FlightProxyList.Counts.{
  count_id-not_found, count_id-found, count_id-erase_idx, count_id-set,
}

abbrev pub is_some : {A : Type 0} → Option A → Bool
is_some none = false
is_some (some a) = true

-- The number of towflights of an identifier after one changed flight.
abbrev pub changed_count : Bool → Bool → ℕ → ℕ
changed_count is_airtow same n =
    if same then (if is_airtow then (if n == 0 then 1 else n) else n - 1) else n

module _ ⦃q : Qt⦄ where
  open q use {DateTime}

  abbrev pub occurs : ℕ → List (Flight DateTime) → ℕ
  occurs a flights = count_id (λ f. f.id) a flights

  -- `isAirtow` of the list
  abbrev pub proxied : Objects → Flight DateTime → Bool
  proxied cache f = is_some (airtow_launch_method cache f)

  -- How many of the flights are airtows with the identifier.
  abbrev pub airtow_count : Objects → ℕ → List (Flight DateTime) → ℕ
  airtow_count cache a [] = 0
  airtow_count cache a (f ∷ flights) =
      (if proxied cache f && (a == f.id) then 1 else 0) + airtow_count cache a flights

  -- The cache's flight under an identifier has that identifier.
  abbrev pub IsKeyed : Cache → Type 0
  IsKeyed c = (id : ℕ) (f : Flight DateTime) → get_flight c id ≡ some f → f.id ≡ id

  occurs-snoc :
      (a : ℕ) (xs : List (Flight DateTime)) (t : Flight DateTime)
      → occurs a (xs ++ t ∷ []) ≡ (if a == t.id then 1 else 0) + occurs a xs
  occurs-snoc a xs t = ground (arith, count_id-append (λ (g : Flight DateTime). g.id) a xs (t ∷ []))

  remove_found :
      (f : Flight DateTime) (p : Proxy) (a i : ℕ)
      → find_towflight f.id p ≡ pos i
      → occurs a (erase_idx p.towflights i) ≡ occurs a p.towflights - (if a == f.id then 1 else 0)
  unfolding find_towflight
  remove_found f p a i e =
      ground (arith, count_id-erase_idx (λ (g : Flight DateTime). g.id) f.id i a p.towflights e)

  remove_missing :
      (f : Flight DateTime) (p : Proxy) (a i : ℕ)
      → find_towflight f.id p ≡ negsuc i
      → occurs a p.towflights ≡ occurs a p.towflights - (if a == f.id then 1 else 0)
  unfolding find_towflight
  remove_missing f p a i e = elim (Bool-cases (a == f.id)) [
    | inl same ↦
        let e' : a ≡ f.id = ground arith in
        rw e'
          (ground (arith, count_id-not_found (λ (g : Flight DateTime). g.id) f.id i p.towflights e))
    | inr other ↦ ground arith
  ]

  pub occurs-remove_row :
      (f : Flight DateTime) (p : Proxy) (a : ℕ)
      → occurs a (remove_row (find_towflight f.id p) p).0.towflights
        ≡ occurs a p.towflights - (if a == f.id then 1 else 0)
  unfolding remove_row
  occurs-remove_row f p a = by_index (find_towflight f.id p) refl
    where
      by_index :
          (z : ℤ)
          → find_towflight f.id p ≡ z
          → occurs a (remove_row z p).0.towflights
            ≡ occurs a p.towflights - (if a == f.id then 1 else 0)
      by_index (pos i) e = remove_found f p a i e
      by_index (negsuc i) e = remove_missing f p a i e

  -- A found identifier is there, and a missing one is not.
  found :
      (f : Flight DateTime) (i : ℕ) (p : Proxy) (a : ℕ)
      → find_towflight f.id p ≡ pos i
      → occurs a p.towflights ≡ (
          if a == f.id
          then (if occurs a p.towflights == 0 then 1 else occurs a p.towflights)
          else occurs a p.towflights)
  unfolding find_towflight
  found f i p a e = elim (Bool-cases (a == f.id)) [
    | inl same ↦
        let e' : a ≡ f.id = ground arith in
        rw e' (ground (arith, count_id-found (λ (g : Flight DateTime). g.id) f.id i p.towflights e))
    | inr other ↦ ground arith
  ]

  absent :
      (f : Flight DateTime) (i : ℕ) (p : Proxy) (a : ℕ)
      → find_towflight f.id p ≡ negsuc i
      → (if a == f.id then 1 else 0) + occurs a p.towflights ≡ (
          if a == f.id
          then (if occurs a p.towflights == 0 then 1 else occurs a p.towflights)
          else occurs a p.towflights)
  unfolding find_towflight
  absent f i p a e = elim (Bool-cases (a == f.id)) [
    | inl same ↦
        let e' : a ≡ f.id = ground arith in
        rw e'
          (ground (arith, count_id-not_found (λ (g : Flight DateTime). g.id) f.id i p.towflights e))
    | inr other ↦ ground arith
  ]

  module _ (context : TowflightContext) (c : Cache) where
    pub occurs-add_towflight_for :
        (f : Flight DateTime) (l : LaunchMethod) (p : Proxy) (a : ℕ)
        → occurs a (add_towflight_for context c f l p).towflights
          ≡ (if a == f.id then 1 else 0) + occurs a p.towflights
    unfolding add_towflight_for make_towflight
    occurs-add_towflight_for f l p a = occurs-snoc a p.towflights _

    occurs-replace_towflight :
        (g : Flight DateTime) (l : Option LaunchMethod) (id j a : ℕ) (p : Proxy)
        → g.id ≡ id
        → find_towflight id p ≡ pos j
        → occurs a (replace_towflight context c g l j p).towflights ≡ occurs a p.towflights
    unfolding replace_towflight find_towflight make_towflight
    occurs-replace_towflight g none id j a p k h = refl
    occurs-replace_towflight g (some l) id j a p k h =
        count_id-set (λ f. f.id) id j a _ p.towflights h k

    occurs-updated_towflight :
        (o : Option (Flight DateTime)) (id j a : ℕ) (p : Proxy)
        → ((g : Flight DateTime) → o ≡ some g → g.id ≡ id)
        → find_towflight id p ≡ pos j
        → occurs a (updated_towflight context c o j p).towflights ≡ occurs a p.towflights
    unfolding updated_towflight
    occurs-updated_towflight none id j a p k h = refl
    occurs-updated_towflight (some g) id j a p k h =
        occurs-replace_towflight g (airtow_launch_method c.objects g) id j a p (k g refl) h

    pub occurs-change_row :
        IsKeyed c
        → (f : Flight DateTime) (l : Option LaunchMethod) (z : ℤ) (p : Proxy) (a : ℕ)
        → find_towflight f.id p ≡ z
        → occurs a (change_row context c f l z p).0.towflights
          ≡ changed_count (is_some l) (a == f.id) (occurs a p.towflights)
    unfolding change_row update_towflight
    occurs-change_row k f (some l) (pos i) p a e =
        occurs-updated_towflight (get_flight c f.id) f.id i a p (k f.id) e ∙ found f i p a e
    occurs-change_row k f (some l) (negsuc i) p a e =
        occurs-add_towflight_for f l p a ∙ absent f i p a e
    occurs-change_row k f none (pos i) p a e = remove_found f p a i e ∙ ground arith
    occurs-change_row k f none (negsuc i) p a e = remove_missing f p a i e ∙ ground arith
