-- ===== src/Resources.antt =====
-- The RestateDeployment resource: src/resources/restatedeployments.rs and src/resources/mod.rs.
-- The fields that the modelled reconcilers read; i32 and i64 are integers, a pod template or an
-- HPA template is its JSON text.
use restate_operator.Base.{
  ℕ, ℤ, Bool, true, false, String, Option, some, List, max_zero, pos, unwrap_or, and_then,
}
use restate_operator.Errors.{ReplicaSetStatus}

pub data DeploymentMode : Type 0 where
  replicaset knative : DeploymentMode

-- `matches!(mode, Some(DeploymentMode::Knative))`
abbrev pub is_knative : Option DeploymentMode → Bool
is_knative (some DeploymentMode.knative) = true
is_knative _ = false

pub data TunnelMode : Type 0 where
  external in_process : TunnelMode

pub data DeletePolicy : Type 0 where
  drain force : DeletePolicy

pub data OnTimeout : Type 0 where
  hold force : OnTimeout

pub data ReconciliationState : Type 0 where
  reconciling disabled resuming_reconciliation : ReconciliationState

pub data DeletionPhase : Type 0 where
  draining overdue forcing : DeletionPhase

-- `ReconciliationState::as_str`
abbrev pub as_str : ReconciliationState → String
as_str ReconciliationState.reconciling = "Reconciling"
as_str ReconciliationState.disabled = "Disabled"
as_str ReconciliationState.resuming_reconciliation = "ResumingReconciliation"

pub record DrainSpec : Type 0 where
  pub timeout_seconds : Option ℤ
  pub on_timeout : Option OnTimeout

pub record ServiceReference : Type 0 where
  pub name : String
  pub namespace : String
  pub path : Option String
  pub port : Option ℤ

pub record RestateAdminEndpoint : Type 0 where
  pub cluster : Option String
  pub cloud : Option String
  pub service : Option ServiceReference
  pub url : Option String

pub record RestateSpec : Type 0 where
  pub register : RestateAdminEndpoint
  pub service_path : Option String
  pub use_http11 : Option Bool
  pub drain_delay_seconds : Option ℤ
  pub tunnel_mode : Option TunnelMode
  pub delete_policy : Option DeletePolicy
  pub drain : Option DrainSpec

-- A negative value, which the CRD does not forbid, counts as 0.
abbrev pub drain_delay_seconds : RestateSpec → ℕ
drain_delay_seconds s = max_zero (unwrap_or s.drain_delay_seconds (pos 300))

abbrev pub is_in_process_mode : Option TunnelMode → Bool
is_in_process_mode (some TunnelMode.in_process) = true
is_in_process_mode _ = false

abbrev pub is_in_process_tunnel : RestateSpec → Bool
is_in_process_tunnel s = is_in_process_mode s.tunnel_mode

abbrev pub delete_policy : RestateSpec → DeletePolicy
delete_policy s = unwrap_or s.delete_policy DeletePolicy.drain

abbrev pub drain_timeout_seconds : RestateSpec → ℕ
drain_timeout_seconds s =
    max_zero (unwrap_or (and_then s.drain (λ d. d.timeout_seconds)) (pos 3600))

abbrev pub drain_on_timeout : RestateSpec → OnTimeout
drain_on_timeout s = unwrap_or (and_then s.drain (λ d. d.on_timeout)) OnTimeout.hold

pub record Condition : Type 0 where
  pub last_transition_time : Option ℕ
  pub message : Option String
  pub reason : Option String
  pub status : String
  pub type : String

pub record PendingInvocations : Type 0 where
  pub version : String
  pub deployment_id : Option String
  pub pinned : ℤ
  pub unpinned : ℤ

pub record DeletionStatus : Type 0 where
  pub policy : DeletePolicy
  pub phase : DeletionPhase
  pub started_at : Option ℕ
  pub deadline : Option ℕ
  pub on_timeout : Option OnTimeout
  pub message : Option String
  pub total_pending_invocations : ℤ
  pub pending_invocations : List PendingInvocations

pub record KnativeDeploymentStatus : Type 0 where
  pub configuration_name : Option String
  pub route_name : Option String
  pub url : Option String
  pub latest_revision : Option String

pub record RestateDeploymentStatus : Type 0 where
  pub knative : Option KnativeDeploymentStatus
  pub deployment_id : Option String
  pub reconciliation : Option ReconciliationState
  pub replicas : ℤ
  pub desired_replicas : Option ℤ
  pub ready_replicas : Option ℤ
  pub available_replicas : Option ℤ
  pub unavailable_replicas : Option ℤ
  pub collision_count : Option ℤ
  pub observed_generation : Option ℤ
  pub conditions : Option (List Condition)
  pub label_selector : Option String

pub record KnativeDeploymentSpec : Type 0 where
  pub tag : Option String
  pub min_scale : Option ℤ
  pub max_scale : Option ℤ
  pub target : Option ℤ

pub record RestateDeployment : Type 0 where
  pub name : String
  pub uid : String
  pub generation : Option ℤ
  pub annotations : List (String × String)
  pub deletion_timestamp : Option ℕ
  pub replicas : ℤ
  pub revision_history_limit : ℤ
  pub deployment_mode : Option DeploymentMode
  pub knative : Option KnativeDeploymentSpec
  pub autoscaling : Option String
  pub restate : RestateSpec
  pub status : Option RestateDeploymentStatus

-- Kubernetes' metadata of an object, and the ReplicaSet.
pub record OwnerReference : Type 0 where
  pub uid : String
  pub kind : String

pub record ObjectMeta : Type 0 where
  pub name : String
  pub namespace : Option String
  pub generation : Option ℤ
  pub creation_timestamp : Option ℕ
  pub deletion_timestamp : Option ℕ
  pub owner_references : List OwnerReference
  pub annotations : List (String × String)

pub record ReplicaSet : Type 0 where
  pub metadata : ObjectMeta
  pub replicas : Option ℤ
  pub status : Option ReplicaSetStatus
