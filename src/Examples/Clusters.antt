-- ===== src/Examples/Clusters.antt =====
-- A RestateCluster with credentials of both clouds, at the pass that provisions it: tests of the
-- texts and the canaries, and the theorems on the passes.
use restate_operator.Base.{
  inl, ◌≡◌, refl, pos, Bool, true, false, String, none, some, [], ◌∷◌, str_eq, lookup,
  if◌then◌else◌,
}
use restate_operator.Errors.{api}
use restate_operator.Effects.{ok, ◌>>=◌}
use restate_operator.Fallible
use restate_operator.Deletion.Finalizer.{requeue}
use restate_operator.StatefulSets.{
  reconcile_stateful_set, change_statefulset_storage, apply_claims, replace_stateful_set,
  remembered_text, parse_strategy, apply_remembered,
}
use restate_operator.StatefulSets.Volumes.{PodVolumes, first_duplicate, validate_pod_volumes}
use restate_operator.StatefulSets.History.{AllSince}
use restate_operator.Clusters.{
  Job, ClusterWorld, accepted, with_storage, ClusterOptions, RestateClusterSpec,
}
use restate_operator.Clusters.Texts.{
  contains, before_at, second_part, strip_suffix, eq_ignore_ascii_case,
}
use restate_operator.Clusters.Canary.{
  failed, first_terminal, is_immutable, check_pia, run_canary_job, judge_canary, check_pods,
  pia_canary_pods_verdict, check_workload_identity,
}
use restate_operator.Clusters.Provisioning.{
  boolean, missing, TomlParser, env_value, IsJudged, IsDisabled, check_config, is_pod_running,
  run_provisioning, validate_config_for_provisioning, validate_config_for_provisioning-IsJudged,
}
use restate_operator.Clusters.Compute.{
  reconcile_association, reconcile_security_groups, reconcile_workload_identity,
  grant_workload_identity, ensure_provisioned, provision, parse_gcp_project_from_sa_email,
  reconcile_compute,
}
use restate_operator.Clusters.Guards.{Guards}
use restate_operator.Clusters.Status.{
  cluster_verdict, cluster_verdict_on_error, concluded_cluster_status, reconcile_cluster,
  reconcile_cluster_status,
}
use restate_operator.Clusters.Truth.{Truthful, reconcile_cluster_status-TellsTruth}
use restate_operator.Clusters.Progress.{Recorded, reconcile_cluster_status-Recorded}
use restate_operator.Examples.StatefulSets.{json, answers, grown, after, labels}

project_of_email :
    parse_gcp_project_from_sa_email "restate@my-project.iam.gserviceaccount.com" ≡ some "my-project"
unfolding parse_gcp_project_from_sa_email second_part before_at strip_suffix
project_of_email = refl

no_project : parse_gcp_project_from_sa_email "sa@project.example.com" ≡ none
unfolding parse_gcp_project_from_sa_email second_part before_at strip_suffix
no_project = refl

no_domain : parse_gcp_project_from_sa_email "not-an-email" ≡ none
unfolding parse_gcp_project_from_sa_email second_part before_at strip_suffix
no_domain = refl

any_case : eq_ignore_ascii_case "False" "false" ≡ true
unfolding eq_ignore_ascii_case
any_case = refl

immutable_template :
    is_immutable (api 422 "Invalid" "spec.template: field is immutable, sorry") ≡ true
unfolding is_immutable contains
immutable_template = refl

-- A condition that is not true does not count, and the first that is decides.
first_decides :
    first_terminal (
      record { type = "Complete"; status = "False" }
      ∷ record { type = "Failed"; status = "True" }
      ∷ record { type = "Complete"; status = "True" }
      ∷ [])
    ≡ failed
unfolding first_terminal
first_decides = refl

abbrev toml : TomlParser
toml = record {
  auto_provision =
      λ text. if str_eq text "auto-provision = false" then some (boolean false) else some missing;
  error = λ text. "expected a value";
}

abbrev options : ClusterOptions
options = record {
  association_cluster = some "eks";
  security_group_policy_installed = true;
  gcp_workload_identity = true;
  cluster_dns = "cluster.local";
}

abbrev spec : RestateClusterSpec
spec = record {
  role_arn = some "arn:aws:iam::1:role/restate";
  security_groups = some ("sg-1" ∷ []);
  gcp_service_account = some "restate@my-project.iam.gserviceaccount.com";
  config = some "auto-provision = false";
  env = some (record { name = "RESTATE_AUTO_PROVISION"; value = none } ∷ []);
  replicas = none;
  auto_provision = some true;
}

abbrev job_of : String → Job
job_of name =
    if str_eq name "restate-wi-canary"
    then record {
      uid = some "j2";
      conditions = some (record { type = "Complete"; status = "True" } ∷ []);
    }
    else record { uid = some "j1"; conditions = none }

abbrev world : ClusterWorld Bool
world = record {
  kube = λ c. none;
  namespace_is_owned = none;
  invalid_signing_key = none;
  association = some (record { type = "ACK.ResourceSynced"; status = "True" } ∷ []);
  job = job_of;
  pods = λ name uid. some ("eks-pod-identity-token" ∷ []) ∷ [];
  policy_member = some (record { type = "Ready"; status = "True" } ∷ []);
  storage = answers none;
  stateful_set = some (record { replicas = pos 1; ready_replicas = none });
  pod_phase = λ name. some (some "Running");
  provision = accepted;
}

abbrev volumes : PodVolumes
volumes = record {
  claim_templates = "storage" ∷ [];
  volumes = "tmp" ∷ [];
  mount_paths = "/tmp" ∷ [];
}

validate_config_for_provisioning-IsJudged_example :
    IsJudged toml spec.config
      (env_value spec.env)
      (validate_config_for_provisioning toml spec.config spec.env)
validate_config_for_provisioning-IsJudged_example =
    validate_config_for_provisioning-IsJudged toml spec.config spec.env

reconcile_cluster_status-TellsTruth_example :
    AllSince
      (Truthful world options spec toml "ns" none)
      []
      (reconcile_cluster_status world options spec toml "ns" json grown after labels
        (λ s. s)
        volumes
        none
        (λ e. "error")
        7).calls
reconcile_cluster_status-TellsTruth_example =
    reconcile_cluster_status-TellsTruth world options spec toml "ns" none (λ e. "error") json grown
      after labels (λ s. s) volumes 7

-- The first pass provisions the cluster and is repeated at once.
provisions :
    (reconcile_cluster_status world options spec toml "ns" json grown after labels
      (λ s. s)
      volumes
      none
      (λ e. "error")
      7).result
    ≡ ok (requeue 0)
unfolding reconcile_cluster_status reconcile_cluster reconcile_compute ◌>>=◌ lookup
    reconcile_association check_pia run_canary_job judge_canary first_terminal check_pods
    pia_canary_pods_verdict reconcile_security_groups reconcile_workload_identity
    grant_workload_identity parse_gcp_project_from_sa_email second_part before_at strip_suffix
    check_workload_identity with_storage reconcile_stateful_set change_statefulset_storage
    apply_claims replace_stateful_set remembered_text parse_strategy apply_remembered
    validate_pod_volumes first_duplicate Fallible.◌>>=◌ ensure_provisioned provision
    validate_config_for_provisioning env_value check_config is_pod_running run_provisioning
    cluster_verdict cluster_verdict_on_error concluded_cluster_status
provisions = refl

associated :
    (reconcile_association world options spec options.association_cluster spec.role_arn).result
    ≡ ok tt
unfolding reconcile_association check_pia run_canary_job judge_canary first_terminal check_pods
    pia_canary_pods_verdict ◌>>=◌
associated = refl

bound :
    (reconcile_workload_identity world options spec options.gcp_workload_identity
      spec.gcp_service_account).result
    ≡ ok tt
unfolding reconcile_workload_identity grant_workload_identity parse_gcp_project_from_sa_email
    second_part before_at strip_suffix check_workload_identity run_canary_job judge_canary
    first_terminal ◌>>=◌
bound = refl

stored :
    (reconcile_stateful_set json
      (answers none)
      grown
      after
      labels
      (validate_pod_volumes (λ s. s) volumes)).result
    ≡ ok tt
unfolding reconcile_stateful_set change_statefulset_storage apply_claims replace_stateful_set
    remembered_text parse_strategy apply_remembered validate_pod_volumes first_duplicate lookup
    Fallible.◌>>=◌ ◌>>=◌
stored = refl

disabled : IsDisabled toml spec.config (env_value spec.env)
unfolding env_value
disabled = refl

reconcile_cluster_status-Recorded_example : Recorded (
    reconcile_cluster_status world options spec toml "ns" json grown after labels
      (λ s. s)
      volumes
      none
      (λ e. "error")
      7)
reconcile_cluster_status-Recorded_example =
    reconcile_cluster_status-Recorded world options spec toml "ns" (λ c. refl) disabled refl
      (inl refl) json grown after labels (λ s. s) volumes none refl (λ e. cc) associated bound
      stored (λ e. "error") 7 refl
