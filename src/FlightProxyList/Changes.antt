-- ===== src/FlightProxyList/Changes.antt =====
-- The changes of the source model of src/model/flightList/FlightProxyList.cpp, as steps.
use startkladde.Prelude.{
  ℕ, ◌+◌, ◌-◌, ◌≤◌, ◌==◌, ◌≡◌, sym, ◌∙◌, List, [], ◌∷◌, ◌++◌, arith, ap, if◌then◌else◌,
}
use startkladde.Prelude.Lists.{length}
use startkladde.Qt.{Qt}
use startkladde.Cache.Objects.{Objects}
use startkladde.Cache.Flights.{Cache}
use startkladde.Flight.{Flight}
use startkladde.Flight.Towflight.{TowflightContext}
use startkladde.FlightProxyList.Handlers.{
  source_model_data_changed, source_model_model_about_to_be_reset, source_model_model_reset,
  source_model_rows_inserted, source_model_rows_about_to_be_removed,
}
use startkladde.FlightProxyList.Steps.{occurs, airtow_count, IsKeyed}
use startkladde.FlightProxyList.Sync.{airtow_count-append, airtow_count-le, occurs-append}
use startkladde.FlightProxyList.Rows.{
  proxy_of, occurs_parts, airtow_parts, after_reset, after_insert, after_remove, after_change,
}

module _ ⦃q : Qt⦄ where
  open q use {DateTime}

  -- The flights of the source model and the towflights.
  pub record Situation : Type 0 where
    pub flights : List (Flight DateTime)
    pub towflights : List (Flight DateTime)

  -- No identifier stands twice in the source model.
  abbrev pub IsUnique : List (Flight DateTime) → Type 0
  IsUnique flights = (a : ℕ) → occurs a flights ≤ 1

  -- The identifiers of the towflights are those of the airtows, each as often.
  pub record IsInSync (cache : Objects) (s : Situation) : Type 0 where
    pub unique : IsUnique s.flights
    pub counts : (a : ℕ) → occurs a s.towflights ≡ airtow_count cache a s.flights

  module _ (context : TowflightContext) where
    -- One change of the source model with the signals around it. The launch methods and planes of
    -- the cache stay; its flights may be any, keyed by their identifiers.
    pub data SourceStep (cache : Objects) (s : Situation) : Situation → Type 0 where
      reset :
          (c : Cache)
          → c.objects ≡ cache
          → (flights : List (Flight DateTime)) → IsUnique flights
          → (t : Situation)
          → t ≡ record {
            flights = flights;
            towflights =
                (source_model_model_reset context c (
                  proxy_of flights
                    (source_model_model_about_to_be_reset
                      (proxy_of s.flights s.towflights)).0.towflights)).0.towflights;
          }
          → SourceStep cache s t
      insert :
          (c : Cache)
          → c.objects ≡ cache
          → (pre : List (Flight DateTime)) (x : Flight DateTime) (xs post : List (Flight DateTime))
          → s.flights ≡ pre ++ post
          → IsUnique (pre ++ ((x ∷ xs) ++ post))
          → (t : Situation)
          → t ≡ record {
            flights = pre ++ ((x ∷ xs) ++ post);
            towflights =
                (source_model_rows_inserted context c
                  (length pre)
                  (length pre + length xs)
                  (proxy_of (pre ++ ((x ∷ xs) ++ post)) s.towflights)).0.towflights;
          }
          → SourceStep cache s t
      remove :
          (pre : List (Flight DateTime)) (x : Flight DateTime) (xs post : List (Flight DateTime))
          → s.flights ≡ pre ++ ((x ∷ xs) ++ post)
          → (t : Situation)
          → t ≡ record {
            flights = pre ++ post;
            towflights =
                (source_model_rows_about_to_be_removed
                  (length pre)
                  (length pre + length xs)
                  (proxy_of (pre ++ ((x ∷ xs) ++ post)) s.towflights)).0.towflights;
          }
          → SourceStep cache s t
      change :
          (c : Cache)
          → c.objects ≡ cache
          → IsKeyed c
          → (pre old : List (Flight DateTime)) (x : Flight DateTime)
            (xs post : List (Flight DateTime))
          → s.flights ≡ pre ++ (old ++ post)
          → ((a : ℕ) → occurs a old ≡ occurs a (x ∷ xs))
          → (t : Situation)
          → t ≡ record {
            flights = pre ++ ((x ∷ xs) ++ post);
            towflights =
                (source_model_data_changed context c
                  (length pre)
                  (length pre + length xs)
                  (proxy_of (pre ++ ((x ∷ xs) ++ post)) s.towflights)).0.towflights;
          }
          → SourceStep cache s t

    -- The arithmetic of the three changes, with the counts of an identifier before, in and behind
    -- the rows that change.
    insert_arith : (pre mid post tows : ℕ) → tows ≡ pre + post → mid + tows ≡ pre + (mid + post)
    insert_arith pre mid post tows h = omega arith

    remove_arith :
        (pre mid post apre amid apost tows : ℕ)
        → pre + (mid + post) ≤ 1
        → apre ≤ pre
        → amid ≤ mid
        → apost ≤ post
        → tows ≡ apre + (amid + apost)
        → tows - mid ≡ apre + apost
    remove_arith pre mid post apre amid apost tows u l m n h = omega arith

    change_arith :
        (pre mid post apre aold anew apost tows : ℕ)
        → pre + (mid + post) ≤ 1
        → apre ≤ pre
        → aold ≤ mid
        → anew ≤ mid
        → apost ≤ post
        → tows ≡ apre + (aold + apost)
        → (if mid == 0 then tows else anew) ≡ apre + (anew + apost)
    change_arith pre mid post apre aold anew apost tows u l m m' n h = ground arith

    module _ (cache : Objects) (s : Situation) (h : IsInSync cache s) where
      -- What is known before the change, at the parts of the source model.
      counts_before :
          (c : Cache) (a : ℕ) {flights : List (Flight DateTime)}
          → c.objects ≡ cache
          → s.flights ≡ flights
          → occurs a s.towflights ≡ airtow_count c.objects a flights
      counts_before c a o f =
          h.counts a
          ∙ (ap (λ k. airtow_count k a s.flights) (sym o) ∙ ap (λ l. airtow_count c.objects a l) f)

      unique_before :
          (a : ℕ) (pre mid post : List (Flight DateTime))
          → s.flights ≡ pre ++ (mid ++ post)
          → occurs a pre + (occurs a mid + occurs a post) ≤ 1
      unique_before a pre mid post f =
          omega (arith, h.unique a, ap (λ l. occurs a l) f, occurs_parts a pre mid post)

      insert_counts :
          (c : Cache) (pre : List (Flight DateTime)) (x : Flight DateTime)
          (xs post : List (Flight DateTime)) (a : ℕ)
          → c.objects ≡ cache
          → s.flights ≡ pre ++ post
          → occurs a
              (source_model_rows_inserted context c
                (length pre)
                (length pre + length xs)
                (proxy_of (pre ++ ((x ∷ xs) ++ post)) s.towflights)).0.towflights
            ≡ airtow_count c.objects a (pre ++ ((x ∷ xs) ++ post))
      insert_counts c pre x xs post a o f = omega (
        arith,
        after_insert context a s.towflights pre x xs post c,
        airtow_parts c.objects a pre (x ∷ xs) post,
        counts_before c a o f,
        airtow_count-append c.objects a pre post,
      )

      remove_counts :
          (pre : List (Flight DateTime)) (x : Flight DateTime) (xs post : List (Flight DateTime))
          (a : ℕ)
          → s.flights ≡ pre ++ ((x ∷ xs) ++ post)
          → occurs a
              (source_model_rows_about_to_be_removed
                (length pre)
                (length pre + length xs)
                (proxy_of (pre ++ ((x ∷ xs) ++ post)) s.towflights)).0.towflights
            ≡ airtow_count cache a (pre ++ post)
      remove_counts pre x xs post a f =
          after_remove context a s.towflights pre x xs post
          ∙ (remove_arith (occurs a pre) (occurs a (x ∷ xs)) (occurs a post)
                (airtow_count cache a pre) (airtow_count cache a (x ∷ xs))
                (airtow_count cache a post) (occurs a s.towflights)
                (unique_before a pre (x ∷ xs) post f) (airtow_count-le cache a pre)
                (airtow_count-le cache a (x ∷ xs)) (airtow_count-le cache a post)
                (h.counts a
                  ∙ (ap (λ l. airtow_count cache a l) f ∙ airtow_parts cache a pre (x ∷ xs) post))
              ∙ sym (airtow_count-append cache a pre post))

      change_counts :
          (c : Cache) (pre old : List (Flight DateTime)) (x : Flight DateTime)
          (xs post : List (Flight DateTime)) (a : ℕ)
          → c.objects ≡ cache
          → IsKeyed c
          → s.flights ≡ pre ++ (old ++ post)
          → occurs a old ≡ occurs a (x ∷ xs)
          → occurs a
              (source_model_data_changed context c
                (length pre)
                (length pre + length xs)
                (proxy_of (pre ++ ((x ∷ xs) ++ post)) s.towflights)).0.towflights
            ≡ airtow_count c.objects a (pre ++ ((x ∷ xs) ++ post))
      change_counts c pre old x xs post a o k f n =
          let ac = airtow_count c.objects a in
          let u : occurs a pre + (occurs a (x ∷ xs) + occurs a post) ≤ 1 =
            omega (arith, unique_before a pre old post f) in
          let before : occurs a s.towflights ≡ ac pre + (ac old + ac post) =
            counts_before c a o f ∙ airtow_parts c.objects a pre old post in
          let old_le : ac old ≤ occurs a (x ∷ xs) =
            omega (arith, airtow_count-le c.objects a old) in
          let few : occurs a s.towflights ≤ 1 =
            omega (arith, airtow_count-le c.objects a pre, airtow_count-le c.objects a post) in
          after_change context a s.towflights pre x xs post c k (omega arith) few
          ∙ (change_arith (occurs a pre) (occurs a (x ∷ xs)) (occurs a post) (ac pre) (ac old)
                (ac (x ∷ xs)) (ac post) (occurs a s.towflights) u (airtow_count-le c.objects a pre)
                old_le (airtow_count-le c.objects a (x ∷ xs)) (airtow_count-le c.objects a post)
                before
              ∙ sym (airtow_parts c.objects a pre (x ∷ xs) post))

    -- The towflights stay in step with the source model through each of its changes: a reset, an
    -- insertion, a removal or a change of rows. That is, after the handlers have run, each
    -- identifier stands among the towflights as often as it does among the airtows of the source
    -- model, if it did so before, and if no identifier stands twice in the source model, the
    -- launch methods and planes of the cache do not change meanwhile, and the flights that the cache
    -- gives for an identifier have it.
    pub SourceStep-IsInSync :
        (cache : Objects) (s t : Situation)
        → SourceStep cache s t
        → IsInSync cache s
        → IsInSync cache t
    unfolding source_model_model_about_to_be_reset
    SourceStep-IsInSync cache s t (reset c o flights u t' e) h =
        rw (e, ← o) (record { unique = u; counts = λ a. after_reset context a [] c flights })
    SourceStep-IsInSync cache s t (insert c o pre x xs post f u t' e) h =
        rw (e, ← o)
          (record { unique = u; counts = λ a. insert_counts cache s h c pre x xs post a o f })
    SourceStep-IsInSync cache s t (remove pre x xs post f t' e) h = rw e (record {
      unique = λ a.
          omega (arith, unique_before cache s h a pre (x ∷ xs) post f, occurs-append a pre post);
      counts = λ a. remove_counts cache s h pre x xs post a f;
    })
    SourceStep-IsInSync cache s t (change c o k pre old x xs post f n t' e) h =
        rw (e, ← o)
          (record {
            unique = λ a. omega (
              arith,
              unique_before cache s h a pre old post f,
              occurs_parts a pre (x ∷ xs) post,
              n a,
            );
            counts = λ a. change_counts cache s h c pre old x xs post a o k f (n a);
          })
