-- ===== src/Rollout/Flow.antt =====
-- The registration flow of `RestateDeployment::reconcile` in
-- src/controllers/restatedeployment/controller.rs, from the id that was recorded for the current
-- version to the cleanup of the old ones, with the requests of
-- src/controllers/restatedeployment/registration.rs.
use restate_operator.Versions.{deployment_id_of}
use restate_operator.Base.{
  map, ℕ, Bool, true, false, String, Option, none, some, List, [], ◌∷◌, any, str_eq, is_empty,
  is_some_and, if◌then◌else◌, insert, concat, unwrap_or,
}
use restate_operator.Errors.{
  Error, KubeError, api, kube_error, admin_call_failed, invalid_restate_config,
  deployment_not_ready, deployment_not_latest,
}
use restate_operator.Platform.{secs, Chrono}
use restate_operator.Resources.{RestateDeployment, ReplicaSet, Condition}
use restate_operator.Effects.{Run, Result, ok, err, panicked, pure, fail, ◌>>=◌, ◌>>◌}
use restate_operator.Calls.{
  Call, register_endpoint, list_services, annotate_replicaset, annotate_service, publish,
  get_cluster, Reading, shortcut, confirmation, AdminReply, unsent, response, World, kube_call,
  check_admin_response,
}
use restate_operator.Cleanup.{CleanupOutcome, rollout, DeploymentUsageMap}
use restate_operator.ReplicaSets.Pass.{cleanup_old_replicasets}
use restate_operator.Deletion.Finalizer.{list_deployments}
use restate_operator.Registration.{
  RegistrationAction, promote, already_latest, conflict, RegisteredDeployment, force, overwrite,
  plan_registration, owned_deployment_ids, has_other_owned, latest_deployment_by_service,
  judge_latest,
}
use restate_operator.Rollout.Readiness.{validate_replica_set_status, is_cluster_ready}

-- `Api::get` of a RestateCluster: the conditions of its status, or an error.
pub data ClusterReply : Type 0 where
  conditions : List Condition → ClusterReply
  refused : KubeError → ClusterReply

-- What a rollout is told besides `World`: the RestateCluster, and what the JSON bodies of the
-- responses decode to.
pub record RolloutWorld : Type 0 where
  pub world : World
  pub cluster : String → ClusterReply
  pub decode_registered : String → Option RegisteredDeployment
  pub decode_services : String → Option (List (String × String))

-- The current version: its name, the URL to register, and its ReplicaSet as just reconciled.
pub record Version : Type 0 where
  pub name : String
  pub endpoint : String
  pub use_http11 : Option Bool
  pub replicaset : ReplicaSet

module _ {A : Type 0} (w : World) (decode : String → Option A) where
  abbrev read_json : Option A → Result A
  read_json none = err (admin_call_failed "error decoding response body")
  read_json (some a) = ok a

  abbrev read_body : Result String → Result A
  read_body (ok body) = read_json (decode body)
  read_body (err e) = err e
  read_body panicked = panicked

  abbrev read_reply : AdminReply → Result A
  read_reply (unsent e) = err (admin_call_failed e)
  read_reply (response status url body) = read_body (check_admin_response status url body)

  abbrev send : Option Error → Call → Run Call A
  send (some e) c = fail e
  send none c = record { calls = c ∷ []; result = read_reply (w.admin c) }

  -- A request to the admin API, with `?`, and the JSON of its response.
  unfoldable pub admin_json : Call → Run Call A
  unfolding check_admin_response
  admin_json c = send (w.unbuildable c) c

-- A result that is already there.
abbrev pub settle : Result (Unit {0}) → Run Call (Unit {0})
settle r = record { calls = []; result = r }

-- `match f().await { Ok(_) => .., Err(e) => log }`
module _ {A : Type 0} where
  abbrev dropped : Result A → Result (Unit {0})
  dropped panicked = panicked
  dropped _ = ok tt

  abbrev pub attempt : Run Call A → Run Call (Unit {0})
  attempt r = record { calls = r.calls; result = dropped r.result }

abbrev pub is_known : Option String → String → Bool
is_known recorded id = is_some_and recorded (λ other. str_eq other id)

module _ (w : RolloutWorld) (chrono : Chrono) (rsd : RestateDeployment) where
  unfoldable pub latest_services : Reading → Run Call (List (String × String))
  latest_services reading = do
    services ← admin_json w.world w.decode_services (list_services reading)
    pure (latest_deployment_by_service services)

  unfoldable pub register_deployment : String → Option Bool → Bool → Run Call RegisteredDeployment
  register_deployment endpoint use_http11 forced =
      admin_json w.world w.decode_registered (register_endpoint endpoint use_http11 forced)

  -- `confirm_latest`
  unfoldable pub confirm_latest : RegisteredDeployment → Run Call (Unit {0})
  confirm_latest registered =
      if is_empty registered.services
      then pure tt
      else (latest_services confirmation >>= λ latest. settle (judge_latest latest registered))

  abbrev cluster_result : String → ClusterReply → Result (Unit {0})
  cluster_result name (conditions cs) =
      if is_cluster_ready cs
      then ok tt
      else err (
          deployment_not_ready
            (concat ("Referenced Restate cluster '" ∷ name ∷ "' is not ready" ∷ []))
            "ClusterNotReady" (some (secs 30)) none)
  cluster_result name (refused (api code reason message)) =
      if str_eq reason "NotFound"
      then err (
          invalid_restate_config
            (concat ("Referenced Restate cluster '" ∷ name ∷ "' not found" ∷ [])))
      else err (kube_error (api code reason message))
  cluster_result name (refused e) = err (kube_error e)

  unfoldable pub validate_cluster_status : Option String → Run Call (Unit {0})
  validate_cluster_status none = pure tt
  validate_cluster_status (some name) = record {
    calls = get_cluster name ∷ [];
    result = cluster_result name (w.cluster name);
  }

  -- The `valid` block: the cluster first, then the ReplicaSet.
  unfoldable pub validate : Version → Run Call (Unit {0})
  validate v = do
    validate_cluster_status rsd.restate.register.cluster
    settle (validate_replica_set_status v.replicaset.status rsd.replicas)

  unfoldable pub record_id : Version → String → Run Call (Unit {0})
  record_id v id = if is_known (deployment_id_of v.replicaset.metadata) id then pure tt else (do
    kube_call w.world (annotate_replicaset v.name id)
    kube_call w.world (annotate_service v.name id))

  abbrev pub announce : RegistrationAction → Run Call (Unit {0})
  announce (promote superseded_by) = kube_call w.world (publish "Promoted")
  announce _ = pure tt

  -- From the registration to the confirmation of the routing.
  unfoldable pub register_and_confirm :
      Version → RegistrationAction → DeploymentUsageMap → Run Call DeploymentUsageMap
  register_and_confirm v action deployments = do
    registered ← register_deployment v.endpoint v.use_http11 (force (overwrite action))
    record_id v registered.id
    confirm_latest registered
    announce action
    pure (
        insert registered.id
          (record { latest_for_service = true; pinned_invocations = 0; unpinned_invocations = 0 })
          deployments)

  module _ (namespace rsd_uid : String) (store : List ReplicaSet) (v : Version) where
    unfoldable pub cleanup_others : DeploymentUsageMap → Run Call CleanupOutcome
    cleanup_others deployments =
        cleanup_old_replicasets w.world chrono namespace rsd_uid rsd rollout deployments
          (some v.name) store

    -- Old versions are removed even while the new one is not ready, since it may be waiting for
    -- their capacity; the error stays that it is not ready.
    abbrev pub free_capacity : Error → DeploymentUsageMap → Run Call (Unit {0})
    free_capacity (deployment_not_ready message reason requeue_after status) deployments = do
      attempt (cleanup_others deployments)
      fail (deployment_not_ready message reason requeue_after status)
    free_capacity e deployments = fail e

    abbrev pub on_valid : Result (Unit {0}) → DeploymentUsageMap → Run Call (Unit {0})
    on_valid (ok u) deployments = pure tt
    on_valid (err e) deployments = free_capacity e deployments
    on_valid panicked deployments = settle panicked

    unfoldable pub await_ready : DeploymentUsageMap → Run Call (Unit {0})
    await_ready deployments = do
      valid ← record { calls = (validate v).calls; result = ok (validate v).result }
      on_valid valid deployments

    unfoldable pub carry_out_plan :
        RegistrationAction → DeploymentUsageMap → Run Call DeploymentUsageMap
    carry_out_plan conflict deployments = fail (
        deployment_not_latest
          (concat (
            "Deployment "
            ∷ unwrap_or (deployment_id_of v.replicaset.metadata) "<unknown>"
            ∷ " is registered but superseded, and no version of this RestateDeployment is serving its services. Something outside this RestateDeployment has registered them; check `GET /services` against the Restate admin API. The operator will not force a promotion here."
            ∷ []))
          "ForeignDeployment" none)
    carry_out_plan (already_latest id) deployments = pure deployments
    carry_out_plan action deployments = do
      await_ready deployments
      register_and_confirm v action deployments

    -- The registration plan for the usage that Restate reported.
    abbrev pub planned : DeploymentUsageMap → RegistrationAction
    planned deployments =
        plan_registration (deployment_id_of v.replicaset.metadata) deployments
          (owned_deployment_ids (map (λ rs. rs.metadata) store) namespace rsd_uid)

    unfoldable pub full_pass : Run Call (Option ℕ)
    full_pass = do
      queried ← list_deployments w.world rollout
      deployments ← carry_out_plan (planned queried) queried
      outcome ← cleanup_others deployments
      pure outcome.next_removal

    abbrev pub routes_any : List (String × String) → String → Bool
    routes_any latest id = any (λ entry. str_eq entry.1 id) latest

    abbrev pub after_shortcut : String → List (String × String) → Run Call (Option ℕ)
    after_shortcut id latest = if routes_any latest id then pure none else full_pass

    abbrev pub try_shortcut : Bool → Option String → Run Call (Option ℕ)
    try_shortcut true recorded = full_pass
    try_shortcut false none = full_pass
    try_shortcut false (some id) = latest_services shortcut >>= after_shortcut id

    -- The time of the next removal, if one is due.
    unfoldable pub roll_out : Run Call (Option ℕ)
    roll_out =
        try_shortcut (has_other_owned store namespace rsd_uid v.name)
          (deployment_id_of v.replicaset.metadata)
