-- ===== src/Platform.antt =====
-- What the operator takes from outside the repository: chrono's dates, a draw of rand, and
-- `Duration::mul_f64`.
-- An instant is a number of nanoseconds from the earliest date that chrono represents, and a
-- `std::time::Duration` a number of nanoseconds.
use restate_operator.Base.{
  ℕ, ◌+◌, ◌-◌, ◌*◌, ◌/◌, ◌^◌, ℤ, pos, max_zero, ◌≤◌, ◌<◌, ◌≡◌, String, Option, none, some,
}

abbrev pub secs : ℕ → ℕ
secs n = n * 1_000_000_000

pub record Chrono : Type 0 where
  -- `(now - then).to_std().ok()`
  pub since : ℕ → ℕ → Option ℕ
  -- `date.checked_add_signed(TimeDelta::seconds(n))` for an `n` that is not negative
  pub add_seconds : ℕ → ℕ → Option ℕ
  -- `DateTime::parse_from_rfc3339(text).ok()` in UTC, and `to_rfc3339`
  pub parse_rfc3339 : String → Option ℕ
  pub to_rfc3339 : ℕ → String
  -- `(due - now).num_seconds()`
  pub seconds_until : ℕ → ℕ → ℤ
  -- `to_std` refuses a negative span, and only that
  pub since_ok : (now then' : ℕ) → then' ≤ now → since now then' ≡ some (now - then')
  pub since_negative : (now then' : ℕ) → now < then' → since now then' ≡ none
  -- `num_seconds` counts the whole seconds, and none to a time that is past
  pub seconds_ahead : (due now : ℕ) → now ≤ due → seconds_until due now ≡ pos ((due - now) / secs 1)
  pub seconds_past : (due now : ℕ) → due < now → max_zero (seconds_until due now) ≡ 0
  -- an addition that stays within the dates is exact
  pub add_exact : (t n : ℕ) {u : ℕ} → add_seconds t n ≡ some u → u ≡ t + secs n
  -- a printed date parses back
  pub parse-to : (t : ℕ) → parse_rfc3339 (to_rfc3339 t) ≡ some t

-- The f64 numbers from 1 to 2 are the multiples of 2^-52, and are counted in these.
abbrev pub one_f64 : ℕ
one_f64 = 2 ^ 52

-- A draw of `rand::random_range(0.0..0.2)` and `Duration::mul_f64`.
pub record Random : Type 0 where
  -- what `1.0 + rand::random_range(0.0..0.2)` adds to 1
  pub draw : ℕ
  pub draw_range : 5 * draw ≤ one_f64
  pub mul_f64 : ℕ → ℕ → ℕ
  -- one is neutral for the intervals of at most 5 minutes, whose nanoseconds an f64 of seconds
  -- tells apart
  pub mul_one : (d : ℕ) → d ≤ secs 300 → mul_f64 d one_f64 ≡ d
  -- a rounded product does not shrink as the factor grows
  pub mul_monotone : (d f g : ℕ) → f ≤ g → mul_f64 d f ≤ mul_f64 d g
  -- and is off by at most a nanosecond
  pub mul_above :
      (d f : ℕ) → d ≤ secs 300 → f ≤ 2 * one_f64 → one_f64 * mul_f64 d f ≤ d * f + one_f64
  pub mul_below :
      (d f : ℕ) → d ≤ secs 300 → f ≤ 2 * one_f64 → d * f ≤ one_f64 * mul_f64 d f + one_f64
