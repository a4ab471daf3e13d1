-- ===== src/Clusters/Compute.antt =====
-- `reconcile_compute` of src/controllers/restatecluster/reconcilers/compute.rs. The Kubernetes
-- objects that it composes, with the annotations of the pods, are not part of the calls; the names
-- that `validate_pod_volumes` reads are an argument.
use restate_operator.Base.{
  ◌==◌, ℤ, pos, eqb_ℤ, Bool, true, false, not, String, Option, none, some, List, [], ◌∷◌, is_empty,
  unwrap_or, is_some_and, and_then, if◌then◌else◌, concat, decimal_ℤ,
}
use restate_operator.Platform.{secs}
use restate_operator.Errors.{
  Error, KubeError, api, kube_error, not_ready, invalid_restate_config, provisioned,
}
use restate_operator.Effects.{Run, Result, ok, err, pure, fail, given, answered, ◌>>=◌, ◌>>◌}
use restate_operator.StatefulSets.{
  StrategyJson, RestateClusterStorage, ClusterCache, reconcile_stateful_set,
}
use restate_operator.StatefulSets.Volumes.{PodVolumes, validate_pod_volumes}
use restate_operator.Clusters.{
  ClusterCall, apply_service_account, apply_config_map, apply_association, delete_association,
  delete_job, apply_security_group_policy, delete_security_group_policy, apply_policy_member,
  delete_policy_member, apply_service, apply_disruption_budget, ClusterWorld, ClusterOptions,
  RestateClusterSpec, StatefulSetStatus, call_kube, delete_kube, with_storage,
}
use restate_operator.Clusters.Texts.{second_part, strip_suffix}
use restate_operator.Clusters.Canary.{
  pia_canary, workload_canary, is_pod_identity_association_synced, is_iam_policy_member_ready,
  check_pia, check_workload_identity,
}
use restate_operator.Clusters.Provisioning.{
  TomlParser, validate_config_for_provisioning, is_pod_running, run_provisioning,
}

unfoldable pub parse_gcp_project_from_sa_email : String → Option String
unfolding second_part strip_suffix
parse_gcp_project_from_sa_email email =
    and_then (second_part email) (λ domain. strip_suffix ".iam.gserviceaccount.com" domain)

abbrev pub waiting : String → String → Error
waiting message reason = not_ready message reason none

-- The reason and the message are in each other's place where there is no status, as in the code.
unfoldable pub validate_stateful_set_status : Option StatefulSetStatus → ℤ → Result (Unit {0})
validate_stateful_set_status none expected =
    err
      (waiting "StatefulSetNoStatus" "StatefulSet has no status set; it may have just been created")
validate_stateful_set_status (some status) expected =
    let ready_replicas = unwrap_or status.ready_replicas (pos 0) in
    if not (eqb_ℤ status.replicas expected)
    then err (
        waiting
          (concat (
            "StatefulSet has "
            ∷ decimal_ℤ status.replicas
            ∷ " replicas instead of the expected "
            ∷ decimal_ℤ expected
            ∷ "; it may be scaling up or down"
            ∷ []))
          "StatefulSetScaling")
    else if not (eqb_ℤ ready_replicas expected)
    then err (
        waiting
          (concat (
            "StatefulSet has "
            ∷ decimal_ℤ ready_replicas
            ∷ " ready replicas instead of the expected "
            ∷ decimal_ℤ expected
            ∷ "; a pod may not be ready"
            ∷ []))
          "StatefulSetPodNotReady")
    else ok tt

abbrev pub unless : {C : Type 0} → Bool → Error → Run C (Unit {0})
unless true e = pure tt
unless false e = fail e

module _ {Strategy : Type 0} (w : ClusterWorld Strategy) (options : ClusterOptions)
    (spec : RestateClusterSpec) where
  -- By the EKS cluster and the role.
  unfoldable pub reconcile_association :
      Option String → Option String → Run (ClusterCall Strategy) (Unit {0})
  reconcile_association (some cluster) (some role_arn) = do
    call_kube w apply_association
    unless (is_pod_identity_association_synced w.association) (
        waiting
          "Waiting for the AWS ACK controller to provision the Pod Identity Association with IAM"
          "PodIdentityAssociationNotSynced")
    check_pia w
  reconcile_association (some cluster) none = do
    delete_kube w delete_association
    delete_kube w (delete_job pia_canary.name)
  reconcile_association none role_arn = pure tt

  abbrev wants_groups : Bool
  wants_groups = is_some_and spec.security_groups (λ groups. not (is_empty groups))

  unfoldable pub reconcile_security_groups : Run (ClusterCall Strategy) (Unit {0})
  reconcile_security_groups =
      if options.security_group_policy_installed
      then (if wants_groups
          then call_kube w apply_security_group_policy
          else delete_kube w delete_security_group_policy)
      else pure tt

  -- A 404 is a kind that the API server does not have.
  abbrev pub member_error : KubeError → Error
  member_error (api code reason message) =
      if code == 404
      then not_ready "IAMPolicyMember CRD not found - is Config Connector installed?"
          "IAMPolicyMemberCRDNotFound" (some (secs 60))
      else kube_error (api code reason message)
  member_error e = kube_error e

  abbrev pub member_answer : Option KubeError → Option Error
  member_answer none = none
  member_answer (some e) = some (member_error e)

  unfoldable pub grant_workload_identity :
      String → Option String → Run (ClusterCall Strategy) (Unit {0})
  grant_workload_identity email none = fail (
      invalid_restate_config (
        concat (
          "Cannot parse GCP project from service account email '" ∷ email
          ∷ "'; expected format: name@PROJECT.iam.gserviceaccount.com" ∷ [])))
  grant_workload_identity email (some project) = do
    answered (apply_policy_member project email)
        (member_answer (w.kube (apply_policy_member project email)))
    unless (is_iam_policy_member_ready w.policy_member) (
        waiting "Waiting for Config Connector to provision the IAM policy member binding"
          "IAMPolicyMemberNotReady")
    check_workload_identity w

  -- By the flag and the service account.
  unfoldable pub reconcile_workload_identity :
      Bool → Option String → Run (ClusterCall Strategy) (Unit {0})
  reconcile_workload_identity true (some email) =
      grant_workload_identity email (parse_gcp_project_from_sa_email email)
  reconcile_workload_identity true none = do
    delete_kube w delete_policy_member
    delete_kube w (delete_job workload_canary.name)
  reconcile_workload_identity false email = pure tt

  module _ (toml : TomlParser) (namespace : String) where
    -- It ends with an error, which has the status written and the pass repeated.
    unfoldable pub provision : Run (ClusterCall Strategy) (Unit {0})
    provision = do
      given (validate_config_for_provisioning toml spec.config spec.env)
      running ← is_pod_running w "restate-0"
      unless running (
          not_ready "Waiting for restate-0 pod to be Running before provisioning"
            "ProvisioningPodNotRunning" (some (secs 5)))
      run_provisioning w namespace options.cluster_dns
      fail provisioned

    -- By `cluster.autoProvision` and the status.
    unfoldable pub ensure_provisioned :
        Option Bool → Option Bool → Run (ClusterCall Strategy) (Unit {0})
    ensure_provisioned (some true) (some true) = pure tt
    ensure_provisioned (some true) _ = provision
    ensure_provisioned _ before = pure tt

    module _ (json : StrategyJson Strategy) (storage : RestateClusterStorage)
        (cache : ClusterCache Strategy) (labels : List (String × String)) (debug : String → String)
        (volumes : PodVolumes) where
      -- `before` is whether the status has the cluster provisioned.
      unfoldable pub reconcile_compute : Option Bool → Run (ClusterCall Strategy) (Unit {0})
      reconcile_compute before = do
        call_kube w apply_service_account
        call_kube w apply_config_map
        reconcile_association options.association_cluster spec.role_arn
        reconcile_security_groups
        reconcile_workload_identity options.gcp_workload_identity spec.gcp_service_account
        call_kube w (apply_service "restate")
        call_kube w (apply_service "restate-cluster")
        call_kube w apply_disruption_budget
        with_storage (
            reconcile_stateful_set json w.storage storage cache labels
              (validate_pod_volumes debug volumes))
        ensure_provisioned spec.auto_provision before
        given (validate_stateful_set_status w.stateful_set (unwrap_or spec.replicas (pos 1)))
