-- ===== src/Knative/Reconcile.antt =====
-- `reconcile_knative` of src/controllers/restatedeployment/reconcilers/knative.rs: the Configuration
-- and the Route of the current tag, their readiness, the registration, and the cleanup of old tags.
use restate_operator.Base.{
  ℕ, pos, ◌&&◌, String, Option, none, some, [], ◌∷◌, find, str_eq, is_some_and, if◌then◌else◌,
  and_then, concat,
}
use restate_operator.Errors.{configuration_not_ready}
use restate_operator.Platform.{secs, Chrono}
use restate_operator.Resources.{RestateDeployment, RestateDeploymentStatus}
use restate_operator.Effects.{Result, given}
use restate_operator.Stateful.{Stateful, return, run, update, ◌>>=◌, ◌>>◌}
use restate_operator.Fallible.{ok_or}
use restate_operator.Calls.{Call}
use restate_operator.Cleanup.{rollout}
use restate_operator.Deletion.Finalizer.{list_deployments}
use restate_operator.Knative.{Configuration, Revision, Route}
use restate_operator.Knative.Ready.{
  check_generation, latest_created_revision, count_replicas, check_revision_ready,
  check_route_ready,
}
use restate_operator.Knative.Apply.{
  KnativeSurroundings, in_namespace, tag, tagged_name, check_collision, reconcile_configuration,
  reconcile_route,
}
use restate_operator.Knative.Register.{register_or_promote_deployment}
use restate_operator.Knative.Cleanup.{cleanup_old_configurations}

module _ (s : KnativeSurroundings) (chrono : Chrono) (rsd : RestateDeployment) where
  -- A status with another Configuration is of another version.
  unfoldable pub start_version : RestateDeploymentStatus → RestateDeploymentStatus
  start_version status =
      if is_some_and (and_then status.knative (λ k. k.configuration_name))
        (λ current. str_eq current (tagged_name s chrono rsd))
      then status
      else record status {
        knative = some (record {
          configuration_name = some (tagged_name s chrono rsd);
          route_name = some (tagged_name s chrono rsd);
          latest_revision = none;
          url = none;
        });
        deployment_id = none;
        replicas = pos 0;
        desired_replicas = some (pos 0);
        ready_replicas = some (pos 0);
        available_replicas = some (pos 0);
        unavailable_replicas = some (pos 0);
      }

  unfoldable pub find_revision : String → Result Revision
  find_revision name =
      ok_or
        (find (λ r. str_eq r.metadata.name name && in_namespace s.namespace r.metadata.namespace)
          s.revisions)
        (configuration_not_ready (concat ("Revision " ∷ name ∷ " is not yet found" ∷ []))
          "RevisionNotFound" (some (secs 1)))

  unfoldable pub set_latest_revision : String → RestateDeploymentStatus → RestateDeploymentStatus
  set_latest_revision name status = record status {
    knative = and_then status.knative (λ k. some (record k { latest_revision = some name }));
  }

  unfoldable pub set_url : Route → RestateDeploymentStatus → RestateDeploymentStatus
  set_url route status = record status {
    knative =
        and_then status.knative (λ k. some (record k { url = and_then route.status (λ r. r.url) }));
  }

  abbrev pub Pass : Type 0 → Type 0
  Pass A = Stateful Call RestateDeploymentStatus A

  -- The registration and the cleanup.
  unfoldable pub register_and_clean_up : Configuration → Route → Pass (Option ℕ)
  register_and_clean_up config route = do
    deployments ← run (list_deployments s.told.world rollout)
    deployment_id ← run (
        register_or_promote_deployment s.told chrono s.url s.cluster_dns s.clouds rsd s.namespace
          s.configurations config route deployments)
    update (λ status. record status { deployment_id = some deployment_id })
    outcome ← run (
        cleanup_old_configurations s.told.world chrono s.namespace rsd.uid rsd rollout deployments
          (some (tag s chrono rsd)) s.configurations)
    return outcome.next_removal

  -- From the Revision and the Route on.
  unfoldable pub serve : Configuration → Route → String → Pass (Option ℕ)
  unfolding find_revision
  serve config route latest_revision = do
    revision ← run (given (find_revision latest_revision))
    update (count_replicas config revision)
    run (given (check_revision_ready revision))
    run (given (check_route_ready route latest_revision))
    update (set_url route)
    register_and_clean_up config route

  unfoldable pub reconcile_knative : Pass (Option ℕ)
  unfolding check_collision reconcile_configuration reconcile_route
  reconcile_knative = do
    update start_version
    run (given (check_collision s chrono rsd))
    config ← run (reconcile_configuration s chrono rsd)
    route ← run (reconcile_route s chrono rsd)
    run (given (check_generation config))
    latest_revision ← run (given (latest_created_revision config))
    update (set_latest_revision latest_revision)
    serve config route latest_revision
