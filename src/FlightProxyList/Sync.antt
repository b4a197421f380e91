-- ===== src/FlightProxyList/Sync.antt =====
-- What the handlers' loops do to the number of towflights of an identifier.
use startkladde.Prelude.{
  ℕ, ◌+◌, ◌-◌, ◌≤◌, ◌==◌, Bool, true, false, ◌&&◌, ◌≡◌, refl, List, [], ◌∷◌, ◌++◌, Option, none,
  some, arith, if◌then◌else◌, ==-comm,
}
use startkladde.Prelude.Lists.{length, drop-append, take-append}
use startkladde.Qt.{Qt}
use startkladde.Model.LaunchMethod.{LaunchMethod}
use startkladde.Cache.EntityList.{count_id-append}
use startkladde.Cache.Objects.{Objects}
use startkladde.Cache.Flights.{Cache}
use startkladde.Flight.{Flight}
use startkladde.Flight.Towflight.{TowflightContext}
use startkladde.FlightProxyList.{airtow_launch_method, find_towflight}
use startkladde.FlightProxyList.Handlers.{
  Proxy, Reply, rows, for_each, insert_row, remove_row, change_flight, add_if_airtow, add_airtows,
}
use startkladde.FlightProxyList.Steps.{
  is_some, occurs, proxied, airtow_count, IsKeyed, occurs-remove_row, occurs-add_towflight_for,
  occurs-change_row, changed_count,
}

-- The rows from `length pre` on are those that stand behind `pre`.
pub rows-append {ℓ} :
    {A : Type ℓ} (pre : List A) (x : A) (xs post : List A)
    → rows (length pre) (length pre + length xs) (pre ++ ((x ∷ xs) ++ post)) ≡ x ∷ xs
rows-append pre x xs post =
    let e : length pre + length xs + 1 - length pre ≡ length (x ∷ xs) = omega arith in
    rw (drop-append pre ((x ∷ xs) ++ post), e) (take-append (x ∷ xs) post)

module _ ⦃q : Qt⦄ where
  open q use {DateTime}

  pub airtow_count-append :
      (cache : Objects) (a : ℕ) (xs ys : List (Flight DateTime))
      → airtow_count cache a (xs ++ ys) ≡ airtow_count cache a xs + airtow_count cache a ys
  airtow_count-append cache a [] ys = omega arith
  airtow_count-append cache a (x ∷ xs) ys = omega (arith, airtow_count-append cache a xs ys)

  pub airtow_count-le :
      (cache : Objects) (a : ℕ) (xs : List (Flight DateTime))
      → airtow_count cache a xs ≤ occurs a xs
  airtow_count-le cache a [] = omega arith
  airtow_count-le cache a (x ∷ xs) = ground (arith, airtow_count-le cache a xs)

  pub occurs-append :
      (a : ℕ) (xs ys : List (Flight DateTime)) → occurs a (xs ++ ys) ≡ occurs a xs + occurs a ys
  occurs-append a xs ys = count_id-append (λ f. f.id) a xs ys

  -- The handlers' loops.
  pub occurs-remove_rows :
      (rs : List (Flight DateTime)) (p : Proxy) (a : ℕ)
      → occurs a (for_each (λ f p. remove_row (find_towflight f.id p) p) rs p).0.towflights
        ≡ occurs a p.towflights - occurs a rs
  occurs-remove_rows [] p a = omega arith
  occurs-remove_rows (f ∷ rs) p a = ground (
    arith,
    occurs-remove_rows rs (remove_row (find_towflight f.id p) p).0 a,
    occurs-remove_row f p a,
  )

  -- The arithmetic of one changed row before the others: `n` towflights before it, `step` after it
  -- and `result` in the end, with `rest` flights and `ac` airtows of the identifier to come.
  changed_arith :
      (is_airtow same : Bool) (n rest ac step result : ℕ)
      → n ≤ 1
      → (if same then 1 else 0) + rest ≤ 1
      → ac ≤ rest
      → step ≡ changed_count is_airtow same n
      → result ≡ (if rest == 0 then step else ac)
      → result ≡ (
          if (if same then 1 else 0) + rest == 0
          then n
          else (if is_airtow && same then 1 else 0) + ac)
  changed_arith true true n rest ac step result h u l e r = ground arith
  changed_arith true false n rest ac step result h u l e r = ground arith
  changed_arith false true n rest ac step result h u l e r = ground arith
  changed_arith false false n rest ac step result h u l e r = ground arith

  changed_le :
      (is_airtow same : Bool) (n step : ℕ)
      → n ≤ 1
      → step ≡ changed_count is_airtow same n
      → step ≤ 1
  changed_le is_airtow same n step h e = ground arith

  module _ (context : TowflightContext) (c : Cache) where
    occurs-insert_row :
        (f : Flight DateTime) (l : Option LaunchMethod) (p : Proxy) (a : ℕ)
        → occurs a (insert_row context c f l p).0.towflights
          ≡ (if is_some l && (a == f.id) then 1 else 0) + occurs a p.towflights
    unfolding insert_row
    occurs-insert_row f none p a = omega arith
    occurs-insert_row f (some l) p a = occurs-add_towflight_for context c f l p a

    abbrev pub insert_step : Flight DateTime → Proxy → Reply
    insert_step f = insert_row context c f (airtow_launch_method c.objects f)

    pub occurs-insert_rows :
        (rs : List (Flight DateTime)) (p : Proxy) (a : ℕ)
        → occurs a (for_each insert_step rs p).0.towflights
          ≡ airtow_count c.objects a rs + occurs a p.towflights
    occurs-insert_rows [] p a = omega arith
    occurs-insert_rows (f ∷ rs) p a = ground (
      arith,
      occurs-insert_rows rs (insert_row context c f (airtow_launch_method c.objects f) p).0 a,
      occurs-insert_row f (airtow_launch_method c.objects f) p a,
    )

    occurs-add_if_airtow :
        (f : Flight DateTime) (l : Option LaunchMethod) (p : Proxy) (a : ℕ)
        → occurs a (add_if_airtow context c f l p).towflights
          ≡ (if is_some l && (a == f.id) then 1 else 0) + occurs a p.towflights
    occurs-add_if_airtow f none p a = omega arith
    occurs-add_if_airtow f (some l) p a = occurs-add_towflight_for context c f l p a

    pub occurs-add_airtows :
        (rs : List (Flight DateTime)) (p : Proxy) (a : ℕ)
        → occurs a (add_airtows context c rs p).towflights
          ≡ airtow_count c.objects a rs + occurs a p.towflights
    unfolding add_airtows
    occurs-add_airtows [] p a = omega arith
    occurs-add_airtows (f ∷ rs) p a = ground (
      arith,
      occurs-add_airtows rs (add_if_airtow context c f (airtow_launch_method c.objects f) p) a,
      occurs-add_if_airtow f (airtow_launch_method c.objects f) p a,
    )

    occurs-change_flight :
        IsKeyed c
        → (f : Flight DateTime) (p : Proxy) (a : ℕ)
        → occurs a (change_flight context c f p).0.towflights
          ≡ changed_count (proxied c.objects f) (a == f.id) (occurs a p.towflights)
    unfolding change_flight
    occurs-change_flight k f p a = occurs-change_row context c k f _ _ p a refl

    -- Changed rows, each identifier standing once in them and at most once in the towflights.
    pub occurs-change_rows :
        IsKeyed c
        → (rs : List (Flight DateTime)) (p : Proxy) (a : ℕ) → occurs a rs ≤ 1
        → occurs a p.towflights ≤ 1
        → occurs a (for_each (change_flight context c) rs p).0.towflights
          ≡ (if occurs a rs == 0 then occurs a p.towflights else airtow_count c.objects a rs)
    occurs-change_rows k [] p a u n = refl
    occurs-change_rows k (f ∷ rs) p a u n =
        let u' : (if a == f.id then 1 else 0) + occurs a rs ≤ 1 = rw (==-comm a f.id) u in
        let step = occurs-change_flight k f p a in
        rw (==-comm f.id a) (
          changed_arith (proxied c.objects f) (a == f.id) (occurs a p.towflights) (occurs a rs)
            (airtow_count c.objects a rs) _ _ n u' (airtow_count-le c.objects a rs) step
            (occurs-change_rows k rs (change_flight context c f p).0 a (omega (arith, u'))
              (changed_le (proxied c.objects f) (a == f.id) (occurs a p.towflights) _ n step)))
