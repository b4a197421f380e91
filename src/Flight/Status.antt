-- ===== src/Flight/Status.antt =====
-- How the status functions of a flight relate.
use startkladde.Prelude.{ℕ, ◌+◌, Bool, true, false, ◌≡◌, arith, if◌then◌else◌}
use startkladde.Model.Mode.{mode_local}
use startkladde.Flight.{Flight, is_towflight, happened, finished, is_flying, is_prepared}

-- The number of statuses that hold.
abbrev tally : Bool → ℕ
tally b = if b then 1 else 0

-- A flight that is no towflight is never finished without having happened, and never finished and
-- flying at once.
pub finished_excludes :
    {D : Type 0} (f : Flight D)
    → is_towflight f ≡ false
    → finished f ≡ true
    → (happened f ≡ true) × (is_flying f ≡ false)
unfolding finished happened is_flying
finished_excludes f n h = ground arith

-- A local flight that is no towflight and has not landed without departing has exactly one of the
-- statuses prepared, flying and finished.
pub local_status :
    {D : Type 0} (f : Flight D)
    → f.mode ≡ mode_local
    → is_towflight f ≡ false
    → (f.landed ≡ true → f.departed ≡ true)
    → tally (is_prepared f) + tally (is_flying f) + tally (finished f) ≡ 1
unfolding is_prepared finished is_flying
local_status f m n h = ground arith
