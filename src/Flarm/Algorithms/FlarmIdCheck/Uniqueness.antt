-- ===== src/Flarm/Algorithms/FlarmIdCheck/Uniqueness.antt =====
-- Tables of planes in which no two share a FLARM identifier, and writes that keep them so
-- (src/flarm/algorithms/FlarmIdCheck.cpp).
use startkladde.Prelude.{
  ℕ, ◌==◌, true, false, ◌≡◌, ◌≢◌, ◌⊎◌, inl, inr, String, Option, some, arith, if◌then◌else◌, ==_iff,
}
use startkladde.Qt.{Qt}
use startkladde.Text.{is_blank}
use startkladde.Model.Plane.{Plane}

module _ ⦃q : Qt⦄ where
  -- The planes by identifier.
  abbrev pub PlaneTable : Type 0
  PlaneTable = ℕ → Option Plane

  abbrev pub put : ℕ → Plane → PlaneTable → PlaneTable
  put id p f i = if id == i then some p else f i

  -- No two planes have the same FLARM identifier, unless it is blank.
  abbrev pub IsUnique : PlaneTable → Type 0
  IsUnique f =
      (i j : ℕ) (p r : Plane)
      → f i ≡ some p
      → f j ≡ some r
      → p.flarm_id ≡ r.flarm_id
      → (i ≡ j) ⊎ (is_blank p.flarm_id ≡ true)

  -- Only the plane with the identifier, or nobody, has the FLARM identifier.
  abbrev pub IsOwn : PlaneTable → String → ℕ → Type 0
  IsOwn f flarm_id id =
      (is_blank flarm_id ≡ true)
      ⊎ ((j : ℕ) (r : Plane) → f j ≡ some r → r.flarm_id ≡ flarm_id → j ≡ id)

  pub IsUnique-put :
      (f : PlaneTable) (id : ℕ) (p : Plane)
      → IsUnique f
      → IsOwn f p.flarm_id id
      → IsUnique (put id p f)
  IsUnique-put f id p u (inl blank) i j s r at_i at_j same =
      ground (arith, u i j s r, ==_iff id i, ==_iff id j)
  IsUnique-put f id p u (inr own) i j s r at_i at_j same =
      ground (arith, u i j s r, own i s, own j r, ==_iff id i, ==_iff id j)

  -- Another plane takes a FLARM identifier that is blank or only the plane's.
  pub IsUnique-put_both :
      (f : PlaneTable) (id other : ℕ) (p o : Plane)
      → IsUnique f
      → (other == id) ≡ false
      → ((j : ℕ) (r : Plane) → f j ≡ some r → r.flarm_id ≡ p.flarm_id → (j ≡ id) ⊎ (j ≡ other))
      → IsOwn f o.flarm_id id
      → (is_blank o.flarm_id ≡ true) ⊎ (o.flarm_id ≢ p.flarm_id)
      → is_blank p.flarm_id ≡ false
      → IsUnique (put id p (put other o f))
  IsUnique-put_both f id other p o u ne mine (inl blank) apart text i j s r at_i at_j same =
      ground (
        arith,
        u i j s r,
        mine i s,
        mine j r,
        ==_iff id i,
        ==_iff id j,
        ==_iff other i,
        ==_iff other j,
      )
  IsUnique-put_both f id other p o u ne mine (inr own) apart text i j s r at_i at_j same = ground (
    arith,
    u i j s r,
    mine i s,
    mine j r,
    own i s,
    own j r,
    ==_iff id i,
    ==_iff id j,
    ==_iff other i,
    ==_iff other j,
  )
