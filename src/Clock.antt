-- ===== src/Clock.antt =====
-- src/util/time.cpp: a date and time with the seconds set to 0.
use startkladde.Prelude.{if◌then◌else◌}
use startkladde.Qt.{Qt}

module _ ⦃q : Qt⦄ where
  open q use {
    DateTime, null_date_time, is_valid, date, time, time_zone, date_time, hour, minute, clock_time,
  }

  unfoldable pub null_seconds : DateTime → DateTime
  null_seconds t =
      if is_valid t
      then date_time (date t) (clock_time (hour (time t)) (minute (time t)) 0) (time_zone t)
      else null_date_time
