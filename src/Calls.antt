-- ===== src/Calls.antt =====
-- The calls that the RestateDeployment controller makes, and what it is told: the answers of the
-- API server and of the Restate admin API, the cached objects, and the clock each time it is read.
-- `check_admin_response` of src/controllers/restatedeployment/controller.rs reads an admin answer.
use restate_operator.Base.{
  ℕ, ℤ, Bool, ◌&&◌, String, Option, none, some, List, leb, ltb, if◌then◌else◌,
}
use restate_operator.Errors.{Error, KubeError, kube_error, admin_call_rejected}
use restate_operator.Resources.{Condition, DeletionStatus, RestateDeploymentStatus}
use restate_operator.Effects.{Run, Result, ok, err, answered}
use restate_operator.Cleanup.{CleanupMode, DeploymentUsageRow}

-- `GET /services` is read to see whether the recorded version is latest, and to confirm a
-- registration.
pub data Reading : Type 0 where
  shortcut confirmation : Reading

pub data Call : Type 0 where
  -- on the objects of a version, by its name
  apply_hpa delete_hpa unschedule delete_replicaset delete_configuration : String → Call
  scale : String → ℤ → Call
  schedule : String → ℕ → Call
  -- on the admin API: `DELETE /deployments/{id}?force=true`, and the usage query of a mode
  deregister : String → Call
  query_usage : CleanupMode → Call
  -- `POST /deployments` of an endpoint, with `use_http_11` and `force`, and `GET /services`
  register_endpoint : String → Option Bool → Bool → Call
  list_services : Reading → Call
  -- the id annotation of a version's ReplicaSet and of its Service
  annotate_replicaset annotate_service : String → String → Call
  -- on the RestateDeployment: an event with its reason, and its status
  publish : String → Call
  get_cluster : String → Call
  clear_suspension : List Condition → Call
  report_deletion : DeletionStatus → Call
  report_status : RestateDeploymentStatus → Call
  -- on the current version: its ReplicaSet, its Service, and what is propagated to an old one
  create_replicaset get_replicaset propagate_annotations apply_service : String → Call
  propagate_replicas : String → ℤ → Call
  -- on the current version in Knative mode: its Configuration and its Route
  apply_configuration apply_route : String → Call
  annotate_configuration : String → String → Call

-- An admin request got no response, or one with a status, a url and a body.
pub data AdminReply : Type 0 where
  unsent : String → AdminReply
  response : ℕ → String → String → AdminReply

-- `Api::get_opt` of a RestateCluster.
pub data ClusterLookup : Type 0 where
  found missing : ClusterLookup
  failed : String → ClusterLookup

pub record World : Type 0 where
  -- the error that the API server answers a call with, if any
  pub kube : Call → Option KubeError
  -- why `Context::request` cannot build a request, if it cannot
  pub unbuildable : Call → Option Error
  pub admin : Call → AdminReply
  -- the rows in the JSON body of a usage query's response, or why they cannot be read
  pub decode_rows : String → Option (List DeploymentUsageRow)
  pub cluster_lookup : String → ClusterLookup
  -- whether the cache of the operator's own HorizontalPodAutoscalers holds one of this name
  pub hpa_cached : String → Bool
  -- `Utc::now()` when cleanup begins, when it stamps a version, and when it ends
  pub now : ℕ
  pub stamped_at : String → ℕ
  pub ended_at : ℕ

abbrev of_kube : Option KubeError → Option Error
of_kube none = none
of_kube (some e) = some (kube_error e)

module _ (w : World) where
  -- An API server call with `?`.
  abbrev pub kube_call : Call → Run Call (Unit {0})
  kube_call c = answered c (of_kube (w.kube c))

  -- A call whose error is logged and dropped.
  abbrev pub best_effort : Call → Run Call (Unit {0})
  best_effort c = answered c none

-- `StatusCode::is_success`
abbrev pub is_success : ℕ → Bool
is_success status = leb 200 status && ltb status 300

-- `check_admin_response`: the body of a successful response.
unfoldable pub check_admin_response : ℕ → String → String → Result String
check_admin_response status url body =
    if is_success status then ok body else err (admin_call_rejected status url body)
