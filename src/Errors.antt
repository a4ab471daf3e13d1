-- ===== src/Errors.antt =====
-- src/lib.rs: the operator's error type, its metric label, and the unwrapping of the finalizer's
-- wrapper by `root_cause` of src/controllers/restatedeployment/controller.rs.
-- An error of a third-party library is the text that it displays, and `kube::Error` the variants
-- and the response fields that the code matches on.
use restate_operator.Base.{ℕ, ℤ, String, Option}

pub data KubeError : Type 0 where
  api : ℕ → String → String → KubeError
  service hyper_error other : String → KubeError

-- k8s-openapi's ReplicaSetStatus, the fields that are read.
pub record ReplicaSetStatus : Type 0 where
  pub replicas : ℤ
  pub ready_replicas : Option ℤ
  pub available_replicas : Option ℤ

-- Durations are nanoseconds.
mutual
  pub data Error : Type 0 where
    serialization_error : String → Error
    kube_error : KubeError → Error
    finalizer_error : FinalizerError → Error
    not_ready : String → String → Option ℕ → Error
    deployment_not_ready : String → String → Option ℕ → Option ReplicaSetStatus → Error
    invalid_restate_config : String → Error
    provisioning_failed : String → Error
    provisioned : Error
    restate_cloud_environment_not_found : String → Error
    secret_not_found : String → Error
    secret_key_not_found : String → String → Error
    invalid_bearer_token : Error
    invalid_signing_key_error : String → Error
    admin_call_failed : String → Error
    admin_call_rejected : ℕ → String → String → Error
    hash_collision : Error
    deployment_not_latest : String → String → Option ℕ → Error
    deployment_in_use : String → Option ℕ → Error
    deletion_drain_overdue : String → ℕ → Option ℕ → Error
    deployment_draining : Option ℕ → Error
    configuration_not_ready : String → String → Option ℕ → Error
    route_not_ready : String → String → Option ℕ → Error
    invalid_url : String → Error

  pub data FinalizerError : Type 0 where
    apply_failed : Error → FinalizerError
    cleanup_failed : Error → FinalizerError
    finalizer_step : String → FinalizerError

unfoldable pub metric_label : Error → String
metric_label (serialization_error _) = "SerializationError"
metric_label (kube_error _) = "KubeError"
metric_label (finalizer_error _) = "FinalizerError"
metric_label (not_ready _ _ _) = "NotReady"
metric_label (deployment_not_ready _ _ _ _) = "ServiceNotReady"
metric_label (invalid_restate_config _) = "InvalidRestateConfig"
metric_label (restate_cloud_environment_not_found _) = "RestateCloudEnvironmentNotFound"
metric_label (secret_not_found _) = "SecretNotFound"
metric_label (secret_key_not_found _ _) = "SecretKeyNotFound"
metric_label invalid_bearer_token = "InvalidBearerToken"
metric_label (invalid_signing_key_error _) = "InvalidSigningKeyError"
metric_label (admin_call_failed _) = "AdminCallFailed"
metric_label (admin_call_rejected _ _ _) = "AdminCallRejected"
metric_label hash_collision = "HashCollision"
metric_label (deployment_not_latest _ _ _) = "DeploymentNotLatest"
metric_label (deployment_in_use _ _) = "DeploymentInUse"
metric_label (deletion_drain_overdue _ _ _) = "DeletionDrainOverdue"
metric_label (deployment_draining _) = "DeploymentDraining"
metric_label (configuration_not_ready _ _ _) = "ConfigurationNotReady"
metric_label (route_not_ready _ _ _) = "RouteNotReady"
metric_label (invalid_url _) = "InvalidUrl"
metric_label (provisioning_failed _) = "ProvisioningFailed"
metric_label provisioned = "Provisioned"

-- `root_cause`: look through the wrapper that `reconcile` puts on every error.
unfoldable mutual
  pub root_cause : Error → Error
  root_cause (finalizer_error inner) = unwrap_finalizer inner
  root_cause err = err

  pub unwrap_finalizer : FinalizerError → Error
  unwrap_finalizer (apply_failed err) = root_cause err
  unwrap_finalizer (cleanup_failed err) = root_cause err
  unwrap_finalizer inner = finalizer_error inner
