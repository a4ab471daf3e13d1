-- ===== src/Clusters.antt =====
-- The RestateCluster controller: `reconcile_compute` of
-- src/controllers/restatecluster/reconcilers/compute.rs, provisioning.rs beside it, and `reconcile`
-- and `reconcile_status` of src/controllers/restatecluster/controller.rs. This file has the calls, what
-- they are answered with, and what the controller reads of the resource.
pub mod Texts
pub mod Canary
pub mod Provisioning
pub mod Compute
pub mod Guards
pub mod Guarded
pub mod Up
pub mod Quiet
pub mod Signals
pub mod Status
pub mod Explained
pub mod Truth
pub mod Progress
use restate_operator.Base.{ℕ, ◌==◌, ℤ, Bool, String, Option, none, some, List, map, if◌then◌else◌}
use restate_operator.Errors.{Error, KubeError, api, kube_error}
use restate_operator.Effects.{Run, Result, answered, pure, fail}
use restate_operator.Resources.{Condition, ReconciliationState}
use restate_operator.StatefulSets.{StorageCall, StorageWorld}

pub record RestateClusterStatus : Type 0 where
  pub conditions : Option (List Condition)
  pub reconciliation : Option ReconciliationState
  pub provisioned : Option Bool

-- The network policies and the signing key are reconciled by modules of their own; each is one call
-- here.
pub data ClusterCall (Strategy : Type 0) : Type 0 where
  get_namespace apply_namespace : ClusterCall Strategy
  reconcile_network_policies reconcile_signing_key : ClusterCall Strategy
  apply_service_account apply_config_map : ClusterCall Strategy
  apply_association delete_association : ClusterCall Strategy
  apply_job delete_job : String → ClusterCall Strategy
  -- of the Job with this name and uid
  list_pods : String → String → ClusterCall Strategy
  apply_security_group_policy delete_security_group_policy : ClusterCall Strategy
  -- of a GCP project, for a service account
  apply_policy_member : String → String → ClusterCall Strategy
  delete_policy_member : ClusterCall Strategy
  apply_service : String → ClusterCall Strategy
  apply_disruption_budget : ClusterCall Strategy
  on_storage : StorageCall Strategy → ClusterCall Strategy
  get_pod : String → ClusterCall Strategy
  -- at an endpoint
  provision_cluster : String → ClusterCall Strategy
  report_cluster_status : RestateClusterStatus → ClusterCall Strategy

-- A condition of a Job, a PodIdentityAssociation or an IAMPolicyMember.
pub record ForeignCondition : Type 0 where
  pub type : String
  pub status : String

pub record Job : Type 0 where
  pub uid : Option String
  pub conditions : Option (List ForeignCondition)

-- k8s-openapi's StatefulSetStatus, the fields that are read.
pub record StatefulSetStatus : Type 0 where
  pub replicas : ℤ
  pub ready_replicas : Option ℤ

-- tonic's answers; a refusal has a message and a code.
pub data ProvisionAnswer : Type 0 where
  accepted already_exists : ProvisionAnswer
  invalid_endpoint no_connection : String → ProvisionAnswer
  refused : String → String → ProvisionAnswer

-- What the servers answer: an error, or what was applied or read. The volumes of each pod are their
-- names. The namespace is there or not, and where it is, its owner references have that of the
-- RestateCluster or not.
pub record ClusterWorld (Strategy : Type 0) : Type 0 where
  pub kube : ClusterCall Strategy → Option KubeError
  pub namespace_is_owned : Option Bool
  pub invalid_signing_key : Option String
  pub association : Option (List ForeignCondition)
  pub job : String → Job
  pub pods : String → String → List (Option (List String))
  pub policy_member : Option (List ForeignCondition)
  pub storage : StorageWorld Strategy
  pub stateful_set : Option StatefulSetStatus
  pub pod_phase : String → Option (Option String)
  pub provision : ProvisionAnswer

-- Of the operator's options, those that the controller reads.
pub record ClusterOptions : Type 0 where
  pub association_cluster : Option String
  pub security_group_policy_installed : Bool
  pub gcp_workload_identity : Bool
  pub cluster_dns : String

pub record EnvVar : Type 0 where
  pub name : String
  pub value : Option String

pub record RestateClusterSpec : Type 0 where
  pub role_arn : Option String
  pub security_groups : Option (List String)
  -- the annotation `iam.gke.io/gcp-service-account` of the service account
  pub gcp_service_account : Option String
  pub config : Option String
  pub env : Option (List EnvVar)
  pub replicas : Option ℤ
  -- `cluster.autoProvision`
  pub auto_provision : Option Bool

abbrev error_of : Option KubeError → Option Error
error_of none = none
error_of (some e) = some (kube_error e)

-- A deletion: what is not there needs none.
abbrev tolerated : Option KubeError → Option Error
tolerated none = none
tolerated (some (api code reason message)) =
    if code == 404 then none else some (kube_error (api code reason message))
tolerated (some e) = some (kube_error e)

module _ {Strategy : Type 0} where
  abbrev pub call_kube :
      ClusterWorld Strategy → ClusterCall Strategy → Run (ClusterCall Strategy) (Unit {0})
  call_kube w c = answered c (error_of (w.kube c))

  abbrev pub delete_kube :
      ClusterWorld Strategy → ClusterCall Strategy → Run (ClusterCall Strategy) (Unit {0})
  delete_kube w c = answered c (tolerated (w.kube c))

  -- The calls that change the storage, among the others.
  unfoldable pub with_storage :
      {A : Type 0} → Run (StorageCall Strategy) A → Run (ClusterCall Strategy) A
  with_storage r = record { calls = map on_storage r.calls; result = r.result }
