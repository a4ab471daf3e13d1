-- ===== src/Status.antt =====
-- The status of a RestateDeployment: `reconcile_status`, `reconcile_suspended` and
-- `status_from_replica_set` of src/controllers/restatedeployment/controller.rs, and the suspension
-- in src/controllers/mod.rs. What reconciles the versions, in ReplicaSet or in Knative mode, is an
-- argument.
pub mod Suspension
pub mod Resuming
pub mod Ready
pub mod Collisions
use restate_operator.Versions.{deployment_id_annotation}
use restate_operator.Base.{
  ℕ, ℤ, pos, negsuc, sub_i32, max_zero, Bool, true, false, not, ◌&&◌, ◌||◌, String, Option, none,
  some, List, [], ◌∷◌, ◌++◌, filter, find, lookup, str_eq, is_some, is_some_and, if◌then◌else◌,
  unwrap_or, and_then, concat, suc_i32,
}
use restate_operator.Errors.{
  Error, ReplicaSetStatus, deployment_not_ready, hash_collision, deployment_not_latest,
  admin_call_failed, admin_call_rejected, invalid_restate_config, route_not_ready,
  configuration_not_ready,
}
use restate_operator.Platform.{secs, Chrono, Random}
use restate_operator.Resources.{
  RestateDeployment, RestateDeploymentStatus, ReplicaSet, Condition, ReconciliationState, as_str,
  is_in_process_tunnel,
}
use restate_operator.Effects.{Run, Result, ok, err, panicked, pure, fail, ◌>>=◌, ◌>>◌}
use restate_operator.Calls.{Call, report_status, publish, World, kube_call}
use restate_operator.Retry.{admin_failure_retry_after, healthy_requeue_after}
use restate_operator.Deletion.Report.{reconciling_condition, is_suspension}
use restate_operator.Deletion.Finalizer.{Action, requeue, await_change}
use restate_operator.ErrorPolicy.{ready_condition}

-- `reconciliation_suspended`
unfoldable pub reconciliation_suspended : RestateDeployment → Bool
reconciliation_suspended rsd =
    not (is_some rsd.deletion_timestamp)
    && is_some_and (lookup "restate.dev/reconcile" rsd.annotations)
        (λ value. str_eq value "disabled")

-- `state_after_reconcile`
unfoldable pub state_after_reconcile : Option ReconciliationState → String → ReconciliationState
state_after_reconcile (some ReconciliationState.disabled) ready_status =
    if str_eq ready_status "True"
    then ReconciliationState.reconciling
    else ReconciliationState.resuming_reconciliation
state_after_reconcile (some ReconciliationState.resuming_reconciliation) ready_status =
    if str_eq ready_status "True"
    then ReconciliationState.reconciling
    else ReconciliationState.resuming_reconciliation
state_after_reconcile previous ready_status = ReconciliationState.reconciling

-- `RestateDeploymentStatus::default`
abbrev pub default_status : RestateDeploymentStatus
default_status = record {
  knative = none;
  deployment_id = none;
  reconciliation = none;
  replicas = pos 0;
  desired_replicas = none;
  ready_replicas = none;
  available_replicas = none;
  unavailable_replicas = none;
  collision_count = none;
  observed_generation = none;
  conditions = none;
  label_selector = none;
}

abbrev pub status_of : RestateDeployment → RestateDeploymentStatus
status_of rsd = unwrap_or rsd.status default_status

abbrev since_of : Option Condition → ℕ → ℕ
since_of none now = now
since_of (some cond) now =
    if str_eq cond.status "False" then unwrap_or cond.last_transition_time now else now

-- The `Reconciling` condition of a suspended resource, from the one that it has. Only the start of
-- the suspension is a transition.
abbrev pub suspension_mark : Option Condition → ℕ → Condition
suspension_mark existing now = record {
  last_transition_time = some (since_of existing now);
  message = some "Reconciliation is suspended by the restate.dev/reconcile=disabled annotation.";
  reason = some (as_str ReconciliationState.disabled);
  status = "False";
  type = reconciling_condition;
}

-- The other conditions are left alone.
unfoldable pub marked : List Condition → ℕ → List Condition
marked conditions now =
    filter (λ cond. not (is_suspension cond)) conditions
    ++ suspension_mark (find is_suspension conditions) now ∷ []

-- The status that `reconcile_suspended` writes.
unfoldable pub suspended_status : RestateDeploymentStatus → ℕ → RestateDeploymentStatus
suspended_status s now = record s {
  conditions = some (marked (unwrap_or s.conditions []) now);
  reconciliation = some ReconciliationState.disabled;
}

unfoldable pub reconcile_suspended : World → RestateDeployment → ℕ → Run Call Action
reconcile_suspended w rsd now = do
  kube_call w (report_status (suspended_status (status_of rsd) now))
  pure await_change

unfoldable pub status_from_replica_set :
    ℤ → RestateDeploymentStatus → Option ReplicaSetStatus → RestateDeploymentStatus
status_from_replica_set expected s rs =
    let available = unwrap_or (and_then rs (λ r. r.available_replicas)) (pos 0) in
    record s {
      replicas = elim rs [ none ↦ pos 0 | some r ↦ r.replicas ];
      desired_replicas = some expected;
      ready_replicas = some (unwrap_or (and_then rs (λ r. r.ready_replicas)) (pos 0));
      available_replicas = some available;
      unavailable_replicas = some (pos (max_zero (sub_i32 expected available)));
    }

-- The tuple `(result, message, reason, status)`, and the status so far.
pub record Verdict : Type 0 where
  pub result : Result Action
  pub message : String
  pub reason : String
  pub ready : String
  pub so_far : RestateDeploymentStatus

-- An error that is reported as not ready, with the time of the retry.
abbrev pub not_ready_yet : RestateDeploymentStatus → ℕ → String → String → Verdict
not_ready_yet s requeue_after message reason = record {
  result = ok (requeue requeue_after);
  message = message;
  reason = reason;
  ready = "False";
  so_far = s;
}

abbrev count_collision : RestateDeploymentStatus → RestateDeploymentStatus
count_collision s = record s {
  collision_count = some (suc_i32 (unwrap_or s.collision_count (pos 0)));
}

abbrev record_deployment_id : ReplicaSet → RestateDeploymentStatus → RestateDeploymentStatus
record_deployment_id rs s = elim (lookup deployment_id_annotation rs.metadata.annotations) [
  | none ↦ s
  | some id ↦ record s { deployment_id = some id }
]

-- How an error is displayed, which the attributes of `Error` in src/lib.rs generate, and a
-- `StatusCode` of the crate `http`.
pub record Displays : Type 0 where
  pub error : Error → String
  pub status_code : ℕ → String

-- The time of the pass and the `Ready` condition before it.
module _ (chrono : Chrono) (random : Random) (display : Displays) (now : ℕ)
    (existing_ready : Option Condition) where
  abbrev deployed : RestateDeploymentStatus → Option ℕ → Verdict
  deployed s next_removal = record {
    result = ok (requeue (healthy_requeue_after chrono random next_removal now));
    message = "RestateDeployment is deployed";
    reason = "Deployed";
    ready = "True";
    so_far = s;
  }

  abbrev admin_failure : RestateDeploymentStatus → String → String → Verdict
  admin_failure s = not_ready_yet s (admin_failure_retry_after chrono random existing_ready now)

  -- The arms that both modes have.
  abbrev of_shared_error : RestateDeploymentStatus → Error → Verdict
  of_shared_error s hash_collision =
      not_ready_yet (count_collision s) 0
        "Encountered a hash collision, will retry with a new template hash" "HashCollision"
  of_shared_error s (deployment_not_latest message reason requeue_after) =
      not_ready_yet s (unwrap_or requeue_after (secs 30)) message reason
  of_shared_error s (admin_call_failed e) =
      admin_failure s (concat ("Failed to make Restate admin API call: " ∷ e ∷ []))
        "AdminCallFailed"
  of_shared_error s (admin_call_rejected status url body) =
      admin_failure s
        (concat
          ("Restate admin API call failed (" ∷ display.status_code status ∷ "): " ∷ body ∷ []))
        "AdminCallRejected"
  of_shared_error s e = record {
    result = err e;
    message = display.error e;
    reason = "FailedReconcile";
    ready = "Unknown";
    so_far = s;
  }

  unfoldable pub of_error : ℤ → RestateDeploymentStatus → Error → Verdict
  unfolding status_from_replica_set
  of_error expected s (deployment_not_ready message reason requeue_after replica_set_status) =
      not_ready_yet (status_from_replica_set expected s replica_set_status)
        (unwrap_or requeue_after (secs 60)) message reason
  of_error expected s e = of_shared_error s e

  -- The verdict on a reconcile in ReplicaSet mode; a panic has none.
  unfoldable pub replicaset_verdict :
      ℤ → RestateDeploymentStatus → Result (ReplicaSet × Option ℕ) → Option Verdict
  unfolding status_from_replica_set of_error
  replicaset_verdict expected s (ok (rs, next_removal)) = some (
      deployed (record_deployment_id rs (status_from_replica_set expected s rs.status))
        next_removal)
  replicaset_verdict expected s (err e) = some (of_error expected s e)
  replicaset_verdict expected s panicked = none

  unfoldable pub of_knative_error : RestateDeploymentStatus → Error → Verdict
  of_knative_error s (route_not_ready message reason requeue_after) =
      not_ready_yet s (unwrap_or requeue_after (secs 10)) message "RouteNotReady"
  of_knative_error s (configuration_not_ready message reason requeue_after) =
      not_ready_yet s (unwrap_or requeue_after (secs 10)) message "ConfigurationNotReady"
  of_knative_error s e = of_shared_error s e

  -- In Knative mode, with the status as the reconcile left it.
  unfoldable pub knative_verdict : RestateDeploymentStatus → Result (Option ℕ) → Option Verdict
  unfolding of_knative_error
  knative_verdict s (ok next_removal) = some (deployed s next_removal)
  knative_verdict s (err e) = some (of_knative_error s e)
  knative_verdict s panicked = none

  abbrev pub since_transition : String → ℕ
  since_transition ready = elim existing_ready [
    | none ↦ now
    | some cond ↦ if str_eq cond.status ready then unwrap_or cond.last_transition_time now else now
  ]

  -- The status that a verdict leads to. `selector` is none if the one before is kept.
  unfoldable pub concluded_status :
      RestateDeployment → Option (Option String) → Verdict → RestateDeploymentStatus
  concluded_status rsd selector v = record v.so_far {
    conditions = some (
        record {
          last_transition_time = some (since_transition v.ready);
          message = some v.message;
          reason = some v.reason;
          status = v.ready;
          type = "Ready";
        }
        ∷ []);
    reconciliation =
        some (state_after_reconcile (and_then rsd.status (λ s. s.reconciliation)) v.ready);
    label_selector = unwrap_or selector v.so_far.label_selector;
    observed_generation = rsd.generation;
  }

  abbrev warn_of_admin_failure : World → String → Run Call (Unit {0})
  warn_of_admin_failure w reason =
      if str_eq reason "AdminCallFailed" || str_eq reason "AdminCallRejected"
      then kube_call w (publish reason)
      else pure tt

  abbrev settled : Result Action → Run Call Action
  settled r = record { calls = []; result = r }

  -- From the verdict on: the event, the status, and the result.
  unfoldable pub report_verdict :
      World → RestateDeployment → Option (Option String) → Option Verdict → Run Call Action
  report_verdict w rsd selector none = settled panicked
  report_verdict w rsd selector (some v) = do
    warn_of_admin_failure w v.reason
    kube_call w (report_status (concluded_status rsd selector v))
    settled v.result

  abbrev pub observe : {A : Type 0} → Run Call A → Run Call (Result A)
  observe r = record { calls = r.calls; result = ok r.result }

  -- `reconcile_status`
  module _ (w : World) (rsd : RestateDeployment) where
    unfoldable pub reconcile_replicaset_status :
        Option (Option String) → Run Call (ReplicaSet × Option ℕ) → Run Call Action
    reconcile_replicaset_status selector reconcile = do
      outcome ← observe reconcile
      report_verdict w rsd selector (replicaset_verdict rsd.replicas (status_of rsd) outcome)

    -- An in-process tunnel is refused before anything is reconciled.
    unfoldable pub knative_outcome :
        (RestateDeploymentStatus → Run Call (Option ℕ) × RestateDeploymentStatus)
        → Run Call (Option ℕ) × RestateDeploymentStatus
    knative_outcome reconcile =
        if is_in_process_tunnel rsd.restate
        then (
          fail (invalid_restate_config "tunnelMode: in-process is not supported in Knative mode"),
          status_of rsd,
        )
        else reconcile (status_of rsd)

    unfoldable pub reconcile_knative_status :
        (RestateDeploymentStatus → Run Call (Option ℕ) × RestateDeploymentStatus) → Run Call Action
    unfolding knative_outcome
    reconcile_knative_status reconcile = do
      outcome ← observe (knative_outcome reconcile).0
      report_verdict w rsd none (knative_verdict (knative_outcome reconcile).1 outcome)
