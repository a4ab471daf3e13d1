-- ===== src/Retry.antt =====
-- src/controllers/restatedeployment/retry.rs: how often a RestateDeployment goes back to the
-- Restate admin API.
pub mod Bounds
use restate_operator.Base.{
  ℕ, ◌+◌, ◌/◌, min, Bool, true, false, ◌||◌, String, Option, none, some, ltb, if◌then◌else◌, str_eq,
  is_some_and, filter_option, and_then, unwrap_or,
}
use restate_operator.Platform.{secs, Chrono, Random, one_f64}
use restate_operator.Resources.{Condition}

-- `ADMIN_FAILURE_REASONS.contains`
abbrev pub is_admin_failure_reason : String → Bool
is_admin_failure_reason reason =
    str_eq reason "AdminCallFailed" || str_eq reason "AdminCallRejected"

abbrev pub healthy_poll : ℕ
healthy_poll = secs 300

-- `Ord::clamp`
abbrev pub clamp : ℕ → ℕ → ℕ → ℕ
clamp x lo hi = if ltb x lo then lo else if ltb hi x then hi else x

unfoldable pub backoff : ℕ → ℕ
backoff waited = clamp (waited / 4) (secs 30) healthy_poll

-- A random 0 to 20 % longer.
unfoldable pub jitter : Random → ℕ → ℕ
jitter random interval = random.mul_f64 interval (one_f64 + random.draw)

module _ (random : Random) where
  unfoldable pub admin_retry_after : ℕ → ℕ
  admin_retry_after failing_for = jitter random (backoff failing_for)

  unfoldable pub other_failure_retry_after : ℕ
  other_failure_retry_after = jitter random (backoff 0)

module _ (chrono : Chrono) where
  -- How long the calls have been failing: the chain of `admin_failure_retry_after`.
  unfoldable pub failing_for : Option Condition → ℕ → ℕ
  failing_for ready now =
      unwrap_or
        (and_then
          (and_then
            (filter_option (λ (c : Condition). is_some_and c.reason is_admin_failure_reason) ready)
            (λ c. c.last_transition_time))
          (λ since. chrono.since now since))
        0

  unfoldable pub admin_failure_retry_after : Random → Option Condition → ℕ → ℕ
  unfolding failing_for
  admin_failure_retry_after random ready now = admin_retry_after random (failing_for ready now)

  unfoldable pub healthy_requeue_after : Random → Option ℕ → ℕ → ℕ
  healthy_requeue_after random none now = jitter random healthy_poll
  healthy_requeue_after random (some due) now =
      min (unwrap_or (chrono.since due now) 0) (jitter random healthy_poll)
