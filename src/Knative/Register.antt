-- ===== src/Knative/Register.antt =====
-- The registration of a Knative version: `register_or_promote_deployment` and
-- `annotate_configuration` of src/controllers/restatedeployment/reconcilers/knative.rs.
use restate_operator.Base.{String, none, List, [], ◌∷◌, map, if◌then◌else◌, unwrap_or, concat}
use restate_operator.Errors.{deployment_not_latest}
use restate_operator.Platform.{Chrono}
use restate_operator.Resources.{RestateDeployment}
use restate_operator.Effects.{Run, pure, fail, given, ◌>>=◌, ◌>>◌}
use restate_operator.Calls.{Call, annotate_configuration, kube_call}
use restate_operator.Cleanup.{DeploymentUsageMap}
use restate_operator.Cloud.{UrlLibrary}
use restate_operator.Endpoints.{CloudStore}
use restate_operator.Registration.{
  RegistrationAction, already_latest, conflict, force, overwrite, plan_registration,
  owned_deployment_ids,
}
use restate_operator.Rollout.Flow.{
  RolloutWorld, register_deployment, confirm_latest, announce, is_known,
}
use restate_operator.Versions.{deployment_id_of}
use restate_operator.Knative.{Configuration, Route}
use restate_operator.Knative.Endpoint.{endpoint_of_route}

-- What a pass in Knative mode is given besides the RestateDeployment, for its registration.
module _ (w : RolloutWorld) (chrono : Chrono) (url : UrlLibrary) (cluster_dns : String)
    (clouds : CloudStore) (rsd : RestateDeployment) where
  -- The id annotation, unless it is there already.
  unfoldable pub annotate : Configuration → String → Run Call (Unit {0})
  annotate config id =
      if is_known (deployment_id_of config.metadata) id
      then pure tt
      else kube_call w.world (annotate_configuration config.metadata.name id)

  unfoldable pub register_configuration :
      Configuration → Route → RegistrationAction → Run Call String
  unfolding annotate
  register_configuration config route action = do
    endpoint ← given (endpoint_of_route url cluster_dns clouds rsd route)
    registered ←
        register_deployment w chrono rsd endpoint rsd.restate.use_http11 (force (overwrite action))
    annotate config registered.id
    confirm_latest w chrono rsd registered
    announce w chrono rsd action
    pure registered.id

  unfoldable pub carry_out_action : Configuration → Route → RegistrationAction → Run Call String
  unfolding annotate
  carry_out_action config route (already_latest id) = do annotate config id; pure id
  carry_out_action config route conflict = fail (
      deployment_not_latest
        (concat (
          "Deployment "
          ∷ unwrap_or (deployment_id_of config.metadata) "<unknown>"
          ∷ " is registered but superseded, and no Configuration of this RestateDeployment is serving its services. Something outside this RestateDeployment has registered them; check `GET /services` against the Restate admin API. The operator will not force a promotion here."
          ∷ []))
        "ForeignDeployment" none)
  carry_out_action config route action = register_configuration config route action

  -- The plan for the id that is recorded on the Configuration.
  abbrev pub planned_action :
      String → List Configuration → Configuration → DeploymentUsageMap → RegistrationAction
  planned_action namespace store config deployments =
      plan_registration (deployment_id_of config.metadata) deployments
        (owned_deployment_ids (map (λ c. c.metadata) store) namespace rsd.uid)

  unfoldable pub register_or_promote_deployment :
      String → List Configuration → Configuration → Route → DeploymentUsageMap → Run Call String
  register_or_promote_deployment namespace store config route deployments =
      carry_out_action config route (planned_action namespace store config deployments)
