-- ===== src/Deletion/Finalizer.antt =====
-- `RestateDeployment::cleanup` and `list_deployments` of
-- src/controllers/restatedeployment/controller.rs: one pass over a deleted RestateDeployment.
-- What tears the versions down, in ReplicaSet or in Knative mode, is an argument.
use restate_operator.Base.{
  ℕ, min, max, max_zero, Bool, true, false, not, ◌&&◌, String, Option, none, some, List, [], ◌∷◌,
  is_empty, if◌then◌else◌, concat, decimal,
}
use restate_operator.Errors.{
  Error, admin_call_failed, invalid_restate_config, deployment_in_use, deletion_drain_overdue,
  deployment_draining,
}
use restate_operator.Platform.{secs, Chrono}
use restate_operator.Resources.{
  RestateDeployment, Condition, DeletionPhase, draining, overdue, forcing, drain_timeout_seconds,
}
use restate_operator.Effects.{Run, Result, ok, err, panicked, pure, fail, ◌>>=◌, ◌>>◌}
use restate_operator.Calls.{
  Call, query_usage, publish, get_cluster, clear_suspension, report_deletion, AdminReply, unsent,
  response, ClusterLookup, found, missing, failed, World, kube_call, best_effort,
  check_admin_response,
}
use restate_operator.Cleanup.{
  CleanupMode, force_deleting, DeploymentUsageMap, DeploymentUsageRow, BlockingVersion,
  CleanupOutcome, for_rsd, into_map, blocked_deletion_requeue, describe_blocking_versions,
}
use restate_operator.Deletion.Report.{
  deletion_status, drain_overdue, blocked_for, until_drain_deadline, wakes_at_deadline,
  suspension_to_clear,
}

pub data Action : Type 0 where
  requeue : ℕ → Action
  await_change : Action

-- `Utc::now()` each time that the pass reads it.
pub record DeletionClock : Type 0 where
  pub before_query : ℕ
  pub after_query : ℕ
  pub at_overdue : ℕ
  pub at_blocked : ℕ
  pub at_deadline : ℕ
  pub at_removal : ℕ

abbrev pub is_forced : CleanupMode → Bool
is_forced force_deleting = true
is_forced _ = false

module _ (w : World) where
  abbrev read_rows : Option (List DeploymentUsageRow) → Result DeploymentUsageMap
  read_rows none = err (admin_call_failed "error decoding response body")
  read_rows (some rows) = ok (into_map rows)

  abbrev read_body : Result String → Result DeploymentUsageMap
  read_body (ok body) = read_rows (w.decode_rows body)
  read_body (err e) = err e
  read_body panicked = panicked

  abbrev read_usage : AdminReply → Result DeploymentUsageMap
  read_usage (unsent e) = err (admin_call_failed e)
  read_usage (response status url body) = read_body (check_admin_response status url body)

  abbrev send_query : Option Error → CleanupMode → Run Call DeploymentUsageMap
  send_query (some e) mode = fail e
  send_query none mode = record {
    calls = query_usage mode ∷ [];
    result = read_usage (w.admin (query_usage mode));
  }

  unfoldable pub list_deployments : CleanupMode → Run Call DeploymentUsageMap
  unfolding check_admin_response
  list_deployments mode = send_query (w.unbuildable (query_usage mode)) mode

  abbrev pub clear_stale : Option (List Condition) → Run Call (Unit {0})
  clear_stale none = pure tt
  clear_stale (some conditions) = best_effort w (clear_suspension conditions)

  abbrev of_lookup : String → ClusterLookup → Run Call Bool
  of_lookup name found = record { calls = get_cluster name ∷ []; result = ok false }
  of_lookup name missing = record { calls = get_cluster name ∷ []; result = ok true }
  of_lookup name (failed e) = record {
    calls = get_cluster name ∷ [];
    result = err (
        invalid_restate_config
          (concat ("Referenced Restate cluster '" ∷ name ∷ "' not found: " ∷ e ∷ [])));
  }

  -- Whether the RestateCluster that the deployment is registered against is gone.
  unfoldable pub cluster_gone : Option String → Run Call Bool
  cluster_gone none = pure false
  cluster_gone (some name) = of_lookup name (w.cluster_lookup name)

  module _ (chrono : Chrono) (clock : DeletionClock) (rsd : RestateDeployment) where
    abbrev report : DeletionPhase → String → List BlockingVersion → Run Call (Unit {0})
    report phase message blocking =
        best_effort w (report_deletion (deletion_status chrono rsd phase message blocking))

    abbrev report_forcing_if : Bool → Run Call (Unit {0})
    report_forcing_if forced =
        if forced
        then report forcing "Deregistering from Restate without waiting for in-flight invocations"
            []
        else pure tt

    -- The branch for versions that Restate still needs: an error, with the interval of the retry.
    abbrev report_blocked : Bool → String → List BlockingVersion → Option ℕ → Run Call Action
    report_blocked true blocked_by blocking requeue_after = do
      report overdue
          (concat (
            "Still waiting on "
            ∷ blocked_by
            ∷ " after the "
            ∷ decimal (drain_timeout_seconds rsd.restate)
            ∷ "s drain timeout"
            ∷ []))
          blocking
      fail (deletion_drain_overdue blocked_by (drain_timeout_seconds rsd.restate) requeue_after)
    report_blocked false blocked_by blocking requeue_after = do
      report draining (concat ("Waiting for in-flight invocations against " ∷ blocked_by ∷ []))
          blocking
      fail (deployment_in_use blocked_by requeue_after)

    abbrev pub blocked_requeue : ℕ
    blocked_requeue =
        blocked_deletion_requeue (blocked_for chrono rsd clock.at_blocked)
          (until_drain_deadline chrono rsd clock.at_deadline)

    abbrev cap_by_deadline : ℕ → Option ℕ → ℕ
    cap_by_deadline requeue_after none = requeue_after
    cap_by_deadline requeue_after (some until_deadline) =
        min requeue_after (max until_deadline (secs 1))

    -- How long to wait for the next removal, and no longer than for a deadline that forces.
    abbrev pub draining_requeue : ℕ → ℕ
    draining_requeue next_removal =
        let requeue_after =
          secs (max (max_zero (chrono.seconds_until next_removal clock.at_removal)) 1) in
        if wakes_at_deadline chrono rsd
        then cap_by_deadline requeue_after (until_drain_deadline chrono rsd clock.at_deadline)
        else requeue_after

    abbrev report_draining : Option ℕ → Run Call Action
    report_draining none = pure await_change
    report_draining (some next_removal) = do
      report draining "Drained; waiting out the drain delay before removing old versions" []
      fail (deployment_draining (some (draining_requeue next_removal)))

    unfoldable pub conclude : CleanupOutcome → Run Call Action
    conclude outcome =
        if is_empty outcome.blocking
        then report_draining outcome.next_removal
        else report_blocked (drain_overdue chrono rsd clock.at_overdue)
            (describe_blocking_versions outcome.blocking) outcome.blocking (some blocked_requeue)

    module _ (teardown : CleanupMode → DeploymentUsageMap → Run Call CleanupOutcome) where
      unfoldable pub drain_versions : Run Call Action
      drain_versions = do
        let query_mode = for_rsd chrono rsd clock.before_query
        let mode = for_rsd chrono rsd clock.after_query
        report_forcing_if (is_forced query_mode)
        deployments ← list_deployments query_mode
        report_forcing_if (is_forced mode && not (is_forced query_mode))
        outcome ← teardown mode deployments
        (if is_empty outcome.abandoned then pure tt else best_effort w (publish "ForcedDeletion"))
        conclude outcome

      unfoldable pub cleanup : Run Call Action
      cleanup = do
        clear_stale (suspension_to_clear rsd)
        kube_call w (publish "DeleteRequested")
        gone ← cluster_gone rsd.restate.register.cluster
        if gone then pure await_change else drain_versions
