-- ===== src/Clusters/Status.antt =====
-- `reconcile`, `reconcile_suspended`, `reconcile_status` and `error_policy` of
-- src/controllers/restatecluster/controller.rs.
use restate_operator.Base.{
  ℕ, Bool, true, false, String, Option, none, some, List, [], ◌∷◌, find, str_eq, unwrap_or,
  and_then, if◌then◌else◌, concat,
}
use restate_operator.Platform.{secs}
use restate_operator.Errors.{
  Error, not_ready, provisioned, provisioning_failed, invalid_signing_key_error,
}
use restate_operator.Resources.{Condition, ReconciliationState}
use restate_operator.Effects.{Run, Result, ok, err, panicked, pure, answered, given, ◌>>=◌, ◌>>◌}
use restate_operator.Deletion.Finalizer.{Action, requeue, await_change}
use restate_operator.Status.{state_after_reconcile, marked}
use restate_operator.StatefulSets.{StrategyJson, RestateClusterStorage, ClusterCache}
use restate_operator.StatefulSets.Volumes.{PodVolumes}
use restate_operator.Clusters.{
  RestateClusterStatus, ClusterCall, get_namespace, apply_namespace, reconcile_network_policies,
  reconcile_signing_key, report_cluster_status, ClusterWorld, ClusterOptions, RestateClusterSpec,
  call_kube,
}
use restate_operator.Clusters.Provisioning.{TomlParser}
use restate_operator.Clusters.Compute.{reconcile_compute}

-- `error_policy`
abbrev pub cluster_error_policy : Error → Action
cluster_error_policy e = requeue (secs 30)

-- The tuple `(result, message, reason, status)`, and `set_provisioned`.
pub record ClusterVerdict : Type 0 where
  pub result : Result Action
  pub message : String
  pub reason : String
  pub ready : String
  pub set_provisioned : Bool

abbrev pub not_yet : ℕ → String → String → Bool → ClusterVerdict
not_yet requeue_after message reason set_provisioned = record {
  result = ok (requeue requeue_after);
  message = message;
  reason = reason;
  ready = "False";
  set_provisioned = set_provisioned;
}

-- `display` is how an error is displayed.
unfoldable pub cluster_verdict_on_error : (Error → String) → Error → ClusterVerdict
cluster_verdict_on_error display provisioned =
    not_yet 0 "Cluster provisioned, continuing reconciliation" "Provisioned" true
cluster_verdict_on_error display (not_ready message reason requeue_after) =
    not_yet (unwrap_or requeue_after (secs 60)) message reason false
cluster_verdict_on_error display (provisioning_failed message) =
    not_yet (secs 5) (concat ("Provisioning failed: " ∷ message ∷ [])) "ProvisioningFailed" false
cluster_verdict_on_error display e = record {
  result = err e;
  message = display e;
  reason = "FailedReconcile";
  ready = "Unknown";
  set_provisioned = false;
}

abbrev pub reconciled : ClusterVerdict
reconciled = record {
  result = ok (requeue (secs 300));
  message = "Restate Cluster reconciled successfully";
  reason = "Reconciled";
  ready = "True";
  set_provisioned = false;
}

-- A panic has none.
unfoldable pub cluster_verdict : (Error → String) → Result (Unit {0}) → Option ClusterVerdict
cluster_verdict display (ok _) = some reconciled
cluster_verdict display (err e) = some (cluster_verdict_on_error display e)
cluster_verdict display panicked = none

abbrev since_ready : Option Condition → String → ℕ → Option ℕ
since_ready none ready now = some now
since_ready (some cond) ready now =
    if str_eq cond.status ready then some (unwrap_or cond.last_transition_time now) else some now

abbrev pub ready_before : Option RestateClusterStatus → Option Condition
ready_before status =
    and_then (and_then status (λ s. s.conditions)) (λ cs. find (λ c. str_eq c.type "Ready") cs)

abbrev pub provisioned_before : Option RestateClusterStatus → Option Bool
provisioned_before status = and_then status (λ s. s.provisioned)

-- The only condition is `Ready`, which clears the one of a suspension.
unfoldable pub concluded_cluster_status :
    Option RestateClusterStatus → ℕ → ClusterVerdict → RestateClusterStatus
concluded_cluster_status previous now v = record {
  conditions = some (
      record {
        last_transition_time = since_ready (ready_before previous) v.ready now;
        message = some v.message;
        reason = some v.reason;
        status = v.ready;
        type = "Ready";
      }
      ∷ []);
  reconciliation = some (state_after_reconcile (and_then previous (λ s. s.reconciliation)) v.ready);
  provisioned = if v.set_provisioned then some true else provisioned_before previous;
}

-- What is written on a suspension.
unfoldable pub suspended_cluster_status : Option RestateClusterStatus → ℕ → RestateClusterStatus
suspended_cluster_status previous now = record {
  conditions = some (marked (unwrap_or (and_then previous (λ s. s.conditions)) []) now);
  reconciliation = some ReconciliationState.disabled;
  provisioned = provisioned_before previous;
}

abbrev pub observed : {C A : Type 0} → Run C A → Run C (Result A)
observed r = record { calls = r.calls; result = ok r.result }

module _ {Strategy : Type 0} (w : ClusterWorld Strategy) where
  unfoldable pub reconcile_suspended_cluster :
      Option RestateClusterStatus → ℕ → Run (ClusterCall Strategy) Action
  reconcile_suspended_cluster previous now = do
    call_kube w (report_cluster_status (suspended_cluster_status previous now))
    pure await_change

  -- A namespace of someone else is used as it is.
  abbrev pub claim_namespace : Option Bool → Run (ClusterCall Strategy) (Unit {0})
  claim_namespace (some false) = pure tt
  claim_namespace _ = call_kube w apply_namespace

  abbrev pub sign : Option String → Run (ClusterCall Strategy) (Unit {0})
  sign none = call_kube w reconcile_signing_key
  sign (some e) = answered reconcile_signing_key (some (invalid_signing_key_error e))

  module _ (options : ClusterOptions) (spec : RestateClusterSpec) (toml : TomlParser)
      (namespace : String) (json : StrategyJson Strategy) (storage : RestateClusterStorage)
      (cache : ClusterCache Strategy) (labels : List (String × String)) (debug : String → String)
      (volumes : PodVolumes) (previous : Option RestateClusterStatus) where
    unfoldable pub reconcile_cluster : Run (ClusterCall Strategy) (Unit {0})
    reconcile_cluster = do
      call_kube w get_namespace
      claim_namespace w.namespace_is_owned
      call_kube w reconcile_network_policies
      sign w.invalid_signing_key
      reconcile_compute w options spec toml namespace json storage cache labels debug volumes
          (provisioned_before previous)

    abbrev pub report_cluster_verdict :
        ℕ → Option ClusterVerdict → Run (ClusterCall Strategy) Action
    report_cluster_verdict now none = given panicked
    report_cluster_verdict now (some v) = do
      call_kube w (report_cluster_status (concluded_cluster_status previous now v))
      given v.result

    unfoldable pub reconcile_cluster_status :
        (Error → String) → ℕ → Run (ClusterCall Strategy) Action
    reconcile_cluster_status display now = do
      outcome ← observed reconcile_cluster
      report_cluster_verdict now (cluster_verdict display outcome)
