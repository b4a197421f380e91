-- ===== src/Qt.antt =====
-- What the program uses of Qt, which is not part of the repository: date and time values and the
-- text functions are parameters, and the laws that a theorem needs are records of hypotheses.
use startkladde.Prelude.{ℕ, ◌≡◌, ◌⊎◌, Bool, true, false, String}

pub record Qt : Type 1 where
  -- QDateTime, QDate, QTime and QTimeZone
  pub DateTime : Type 0
  pub Date : Type 0
  pub Time : Type 0
  pub Zone : Type 0
  -- QDateTime ()
  pub null_date_time : DateTime
  -- QDateTime::isValid
  pub is_valid : DateTime → Bool
  -- operator<; `a > b` is `before b a`
  pub before : DateTime → DateTime → Bool
  pub date : DateTime → Date
  pub time : DateTime → Time
  pub time_zone : DateTime → Zone
  pub date_time : Date → Time → Zone → DateTime
  -- QDateTime::toTimeZone and QTimeZone::utc
  pub to_time_zone : DateTime → Zone → DateTime
  pub utc : Zone
  -- operator== of QDate
  pub date_eq : Date → Date → Bool
  pub hour : Time → ℕ
  pub minute : Time → ℕ
  -- QTime (h, m, s)
  pub clock_time : ℕ → ℕ → ℕ → Time
  -- QString::trimmed and QString::toLower
  pub trimmed : String → String
  pub to_lower : String → String

-- QDateTime's `operator<` compares instants: a strict order in which "neither is before the
-- other" is transitive.
pub record IsTimeOrder (q : Qt) : Type 0 where
  pub irrefl : (a : q.DateTime) → q.before a a ≡ false
  pub transitive :
      (a b c : q.DateTime) → q.before a b ≡ true → q.before b c ≡ true → q.before a c ≡ true
  pub weak :
      (a b c : q.DateTime) → q.before a c ≡ true → (q.before a b ≡ true) ⊎ (q.before b c ≡ true)
