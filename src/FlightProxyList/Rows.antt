-- ===== src/FlightProxyList/Rows.antt =====
-- The towflights after a handler has run over rows of the source model, counted.
use startkladde.Prelude.{
  ℕ, ◌+◌, ◌-◌, ◌≤◌, ◌==◌, ◌≡◌, ◌∙◌, List, [], ◌∷◌, ◌++◌, arith, ap, some, if◌then◌else◌,
}
use startkladde.Prelude.Lists.{length}
use startkladde.Qt.{Qt}
use startkladde.Cache.Objects.{Objects}
use startkladde.Cache.Flights.{Cache}
use startkladde.Flight.{Flight}
use startkladde.Flight.Towflight.{TowflightContext}
use startkladde.FlightProxyList.{find_towflight}
use startkladde.FlightProxyList.Handlers.{
  Proxy, for_each, change_flight, remove_row, source_model_data_changed, source_model_model_reset,
  source_model_rows_inserted, source_model_rows_about_to_be_removed,
}
use startkladde.FlightProxyList.Steps.{occurs, airtow_count, IsKeyed}
use startkladde.FlightProxyList.Sync.{
  rows-append, airtow_count-append, occurs-append, occurs-remove_rows, insert_step,
  occurs-insert_rows, occurs-add_airtows, occurs-change_rows,
}

module _ ⦃q : Qt⦄ where
  open q use {DateTime}

  abbrev pub proxy_of : List (Flight DateTime) → List (Flight DateTime) → Proxy
  proxy_of flights towflights = record { source_model = some flights; towflights = towflights }

  -- The parts of a list of flights, counted.
  pub occurs_parts :
      (a : ℕ) (pre mid post : List (Flight DateTime))
      → occurs a (pre ++ (mid ++ post)) ≡ occurs a pre + (occurs a mid + occurs a post)
  occurs_parts a pre mid post =
      omega (arith, occurs-append a pre (mid ++ post), occurs-append a mid post)

  pub airtow_parts :
      (cache : Objects) (a : ℕ) (pre mid post : List (Flight DateTime))
      → airtow_count cache a (pre ++ (mid ++ post))
        ≡ airtow_count cache a pre + (airtow_count cache a mid + airtow_count cache a post)
  airtow_parts cache a pre mid post =
      omega
        (arith, airtow_count-append cache a pre (mid ++ post), airtow_count-append cache a mid post)

  module _ (context : TowflightContext) where
    module _ (a : ℕ) (tows : List (Flight DateTime)) where
      pub after_reset :
          (c : Cache) (flights : List (Flight DateTime))
          → occurs a (source_model_model_reset context c (proxy_of flights [])).0.towflights
            ≡ airtow_count c.objects a flights
      unfolding source_model_model_reset
      after_reset c flights =
          omega (arith, occurs-add_airtows context c flights (proxy_of flights []) a)

      module _ (pre : List (Flight DateTime)) (x : Flight DateTime)
          (xs post : List (Flight DateTime)) where
        abbrev proxy : Proxy
        proxy = proxy_of (pre ++ ((x ∷ xs) ++ post)) tows

        pub after_insert :
            (c : Cache)
            → occurs a
                (source_model_rows_inserted context c
                  (length pre)
                  (length pre + length xs)
                  proxy).0.towflights
              ≡ airtow_count c.objects a (x ∷ xs) + occurs a tows
        unfolding source_model_rows_inserted
        after_insert c =
            ap (λ rs. occurs a (for_each (insert_step context c) rs proxy).0.towflights)
              (rows-append pre x xs post)
            ∙ occurs-insert_rows context c (x ∷ xs) proxy a

        pub after_remove :
            occurs a
              (source_model_rows_about_to_be_removed
                (length pre)
                (length pre + length xs)
                proxy).0.towflights
            ≡ occurs a tows - occurs a (x ∷ xs)
        unfolding source_model_rows_about_to_be_removed
        after_remove =
            ap
              (λ rs.
                occurs a
                  (for_each (λ f p. remove_row (find_towflight f.id p) p) rs proxy).0.towflights)
              (rows-append pre x xs post)
            ∙ occurs-remove_rows (x ∷ xs) proxy a

        pub after_change :
            (c : Cache)
            → IsKeyed c
            → occurs a (x ∷ xs) ≤ 1
            → occurs a tows ≤ 1
            → occurs a
                (source_model_data_changed context c
                  (length pre)
                  (length pre + length xs)
                  proxy).0.towflights
              ≡ (if occurs a (x ∷ xs) == 0
                  then occurs a tows
                  else airtow_count c.objects a (x ∷ xs))
        unfolding source_model_data_changed
        after_change c k u n =
            ap (λ rs. occurs a (for_each (change_flight context c) rs proxy).0.towflights)
              (rows-append pre x xs post)
            ∙ occurs-change_rows context c k (x ∷ xs) proxy a u n
