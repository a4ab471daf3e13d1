-- ===== src/ErrorPolicy.antt =====
-- src/controllers/restatedeployment/controller.rs: `error_policy`, how long a RestateDeployment
-- waits after a failed reconcile.
pub mod Pacing
use restate_operator.Base.{
  ℕ, Option, none, some, List, and_then, find, str_eq, is_some, if◌then◌else◌,
}
use restate_operator.Errors.{
  Error, deployment_draining, deployment_in_use, deletion_drain_overdue, admin_call_failed,
  admin_call_rejected, root_cause,
}
use restate_operator.Platform.{Chrono, Random}
use restate_operator.Resources.{RestateDeployment, Condition}
use restate_operator.Retry.{admin_retry_after, admin_failure_retry_after, other_failure_retry_after}
use restate_operator.Deletion.Report.{blocked_for}
use restate_operator.Deletion.Finalizer.{Action, requeue}

unfoldable pub ready_condition : RestateDeployment → Option Condition
ready_condition rsd =
    and_then (and_then rsd.status (λ s. s.conditions))
      (λ conditions. find (λ cond. str_eq cond.type "Ready") conditions)

-- `now` is the time when the error policy reads the clock.
module _ (chrono : Chrono) (random : Random) (rsd : RestateDeployment) (now : ℕ) where
  abbrev retry_after_admin_failure : ℕ
  retry_after_admin_failure =
      if is_some rsd.deletion_timestamp
      then admin_retry_after random (blocked_for chrono rsd now)
      else admin_failure_retry_after chrono random (ready_condition rsd) now

  abbrev retry_after_cause : Error → ℕ
  retry_after_cause (deployment_draining (some requeue_after)) = requeue_after
  retry_after_cause (deployment_in_use _ (some requeue_after)) = requeue_after
  retry_after_cause (deletion_drain_overdue _ _ (some requeue_after)) = requeue_after
  retry_after_cause (admin_call_failed _) = retry_after_admin_failure
  retry_after_cause (admin_call_rejected _ _ _) = retry_after_admin_failure
  retry_after_cause _ = other_failure_retry_after random

  unfoldable pub retry_after_error : Error → ℕ
  retry_after_error err = retry_after_cause (root_cause err)

  unfoldable pub error_policy : Error → Action
  error_policy err = requeue (retry_after_error err)
