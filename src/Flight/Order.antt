-- ===== src/Flight/Order.antt =====
-- `effectiveTime`, `sort` and `operator<` of src/model/Flight.cpp, by which lists of flights are
-- sorted.
use startkladde.Prelude.{Bool, true, false, not, ◌&&◌, ◌≡◌, ◌⊎◌, sym, ◌∙◌, arith, if◌then◌else◌}
use startkladde.Prelude.Int.{ℤ, pos, negsuc, ltb_ℤ}
use startkladde.Qt.{Qt, IsTimeOrder}
use startkladde.Flight.{Flight, departs_here, lands_here, is_prepared}

module _ ⦃q : Qt⦄ where
  open q use {DateTime, Date, before, null_date_time, date, to_time_zone, utc}

  unfoldable pub effective_time : Flight DateTime → DateTime
  effective_time f =
      if departs_here f && f.departed
      then f.departure_time
      else if lands_here f && f.landed
      then f.landing_time
      else null_date_time

  -- `effdatum` with its default time zone.
  unfoldable pub eff_datum : Flight DateTime → Date
  eff_datum f = date (to_time_zone (effective_time f) utc)

  -- The comparison behind the two prepared cases.
  abbrev compare_times : DateTime → DateTime → ℤ
  compare_times t1 t2 = if before t2 t1 then pos 1 else if before t1 t2 then negsuc 0 else pos 0

  unfoldable pub sort : Flight DateTime → Flight DateTime → ℤ
  unfolding is_prepared
  sort f other =
      if is_prepared f && is_prepared other
      then (if departs_here f && not (departs_here other)
          then pos 1
          else if not (departs_here f) && departs_here other
          then negsuc 0
          else pos 0)
      else if is_prepared f
      then pos 1
      else if is_prepared other
      then negsuc 0
      else compare_times (effective_time f) (effective_time other)

  unfoldable pub less_than : Flight DateTime → Flight DateTime → Bool
  unfolding sort
  less_than f o = ltb_ℤ (sort f o) (pos 0)

  -- What `std::sort` asks of its comparison.
  pub record IsStrictWeakOrder : Type 0 where
    pub irrefl : (f : Flight DateTime) → less_than f f ≡ false
    pub transitive :
        (f g h : Flight DateTime)
        → less_than f g ≡ true
        → less_than g h ≡ true
        → less_than f h ≡ true
    pub weak :
        (f g h : Flight DateTime)
        → less_than f h ≡ true
        → (less_than f g ≡ true) ⊎ (less_than g h ≡ true)

  -- What a flight sorts by: whether it is prepared, whether it departs here, its effective time.
  record Rank : Type 0 where
    prepared : Bool
    departs : Bool
    at : DateTime

  abbrev rank : Flight DateTime → Rank
  rank f = record { prepared = is_prepared f; departs = departs_here f; at = effective_time f }

  abbrev rank_less : Rank → Rank → Bool
  rank_less a b =
      if a.prepared
      then b.prepared && not a.departs && b.departs
      else if b.prepared
      then true
      else if before b.at a.at
      then false
      else before a.at b.at

  less_than-rank_less : (f g : Flight DateTime) → less_than f g ≡ rank_less (rank f) (rank g)
  unfolding less_than
  less_than-rank_less f g = ground arith

  module _ (laws : IsTimeOrder q) where
    asymmetric : (s t : DateTime) → before s t ≡ true → before t s ≡ false
    asymmetric s t h = ground (arith, laws.transitive s t s, laws.irrefl s)

    rank_irrefl : (a : Rank) → rank_less a a ≡ false
    rank_irrefl a = ground (arith, laws.irrefl a.at)

    rank_transitive :
        (a b c : Rank) → rank_less a b ≡ true → rank_less b c ≡ true → rank_less a c ≡ true
    rank_transitive a b c h k = ground (arith, laws.transitive a.at b.at c.at, asymmetric a.at c.at)

    rank_weak :
        (a b c : Rank) → rank_less a c ≡ true → (rank_less a b ≡ true) ⊎ (rank_less b c ≡ true)
    rank_weak a b c h =
        ground (arith, laws.weak a.at b.at c.at, asymmetric a.at b.at, asymmetric b.at c.at)

    -- `operator<` on flights is a strict weak order, if QDateTime's is one: it is irreflexive and
    -- transitive, and of two flights in order every third one is after the first or before the
    -- second. This is what sorting a list of flights relies on.
    pub less_than-IsStrictWeakOrder : IsStrictWeakOrder
    less_than-IsStrictWeakOrder = record {
      irrefl = λ f. less_than-rank_less f f ∙ rank_irrefl (rank f);
      transitive = λ f g h l m.
          less_than-rank_less f h
          ∙ rank_transitive (rank f) (rank g) (rank h) (sym (less_than-rank_less f g) ∙ l)
              (sym (less_than-rank_less g h) ∙ m);
      weak = λ f g h l.
          rw (less_than-rank_less f g, less_than-rank_less g h)
            (rank_weak (rank f) (rank g) (rank h) (sym (less_than-rank_less f h) ∙ l));
    }
