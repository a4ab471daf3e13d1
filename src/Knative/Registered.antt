-- ===== src/Knative/Registered.antt =====
-- When a pass in Knative mode registers a version, and what it deletes.
use restate_operator.Base.{
  ◌≡◌, refl, ◌⊎◌, inl, inr, Bool, true, false, String, Option, some, List, map, Memᴰ, All,
  All-map_of, arith,
}
use restate_operator.Platform.{Chrono}
use restate_operator.Resources.{RestateDeployment, RestateDeploymentStatus}
use restate_operator.Effects
use restate_operator.Effects.{ok, ◌>>=◌, >>=-eq-ok}
use restate_operator.Stateful
use restate_operator.Calls.{Call, register_endpoint, delete_configuration}
use restate_operator.Cleanup.{rollout, DeploymentUsageMap}
use restate_operator.Deletion.Finalizer.{list_deployments}
use restate_operator.Registration.{
  RegistrationAction, register, promote, already_latest, conflict, RegisteredDeployment, force,
  overwrite, owned_deployment_ids,
}
use restate_operator.Registration.Plan.{IsJustified, plan_registration-IsJustified}
use restate_operator.Rollout.Flow.{
  admin_json, latest_services, register_deployment, confirm_latest, announce,
}
use restate_operator.Versions.{deployment_id_of, unschedule_version_removal}
use restate_operator.Versions.Spared.{Permits}
use restate_operator.Knative.{Configuration, Revision, Route, is_old_configuration}
use restate_operator.Knative.Ready.{
  check_generation, latest_created_revision, check_revision_ready, check_route_ready,
  IsRevisionReady, check_revision_ready-IsRevisionReady, routes_traffic, check_route_ready-routes,
}
use restate_operator.Knative.Apply.{
  KnativeSurroundings, applied, tag, tagged_name, reconcile_configuration, reconcile_route,
}
use restate_operator.Knative.Register.{
  annotate, register_configuration, carry_out_action, register_or_promote_deployment,
}
use restate_operator.Knative.Cleanup.{cleanup_old_configurations}
use restate_operator.Knative.Removed.{cleanup_old_configurations-Permits}
use restate_operator.Knative.Reconcile.{
  find_revision, serve, register_and_clean_up, reconcile_knative,
}

module _ (s : KnativeSurroundings) (chrono : Chrono) (rsd : RestateDeployment) where
  -- The Configuration of the tag is up to date, the revision that it has created last is ready, and
  -- its Route sends traffic to that revision.
  abbrev pub IsServed : Configuration → Route → Type 0
  IsServed config route =
      (s.apply_configuration (tagged_name s chrono rsd) ≡ applied config)
      × (s.apply_route (tagged_name s chrono rsd) ≡ applied route)
      × (check_generation config ≡ ok tt)
      × (name : String) × (latest_created_revision config ≡ ok name)
      × (revision : Revision) × (find_revision s chrono rsd name ≡ ok revision)
      × IsRevisionReady revision
      × (routes_traffic route name ≡ true)

  abbrev pub owned_ids : List String
  owned_ids = owned_deployment_ids (map (λ c. c.metadata) s.configurations) s.namespace rsd.uid

  -- The usage query has answered that another version of the RestateDeployment is latest in the
  -- place of this one.
  abbrev pub IsSuperseded : Configuration → Type 0
  IsSuperseded config =
      (deployments : DeploymentUsageMap) × ((list_deployments s.told.world rollout).result
        ≡ ok deployments)
      × (other : String) × IsJustified (deployment_id_of config.metadata) deployments owned_ids
          (promote other)

  -- A registration wants the version served, and a forced one a rollback; a Configuration that is
  -- deleted is an old one of the RestateDeployment, with another tag.
  abbrev pub GuardsVersion : Call → Type 0
  GuardsVersion (register_endpoint uri use_http11 forced) =
      (config : Configuration) × (route : Route) × IsServed config route
      × ((forced ≡ false) ⊎ IsSuperseded config)
  GuardsVersion (delete_configuration name) =
      (config : Configuration) × Memᴰ config s.configurations
      × (name ≡ config.metadata.name)
      × (is_old_configuration s.namespace rsd.uid (some (tag s chrono rsd)) config ≡ true)
  GuardsVersion _ = Unit

  latest_services-GuardsVersion :
      (reading : _) → All GuardsVersion (latest_services s.told chrono rsd reading).calls
  unfolding latest_services admin_json ◌>>=◌
  latest_services-GuardsVersion reading = ground arith

  confirm_latest-GuardsVersion :
      (registered : RegisteredDeployment)
      → All GuardsVersion (confirm_latest s.told chrono rsd registered).calls
  unfolding confirm_latest latest_services admin_json ◌>>=◌
  confirm_latest-GuardsVersion registered = ground arith

  annotate-GuardsVersion :
      (config : Configuration) (id : String)
      → All GuardsVersion (annotate s.told chrono s.url s.cluster_dns s.clouds rsd config id).calls
  unfolding annotate
  annotate-GuardsVersion config id = ground arith

  register_deployment-GuardsVersion :
      (endpoint : String) (use_http11 : Option Bool) (forced : Bool)
      → GuardsVersion (register_endpoint endpoint use_http11 forced)
      → All GuardsVersion (register_deployment s.told chrono rsd endpoint use_http11 forced).calls
  unfolding register_deployment admin_json
  register_deployment-GuardsVersion endpoint use_http11 forced h = ground arith

  module _ (config : Configuration) (route : Route) (served : IsServed config route) where
    register_configuration-GuardsVersion :
        (action : RegistrationAction)
        → (force (overwrite action) ≡ false) ⊎ IsSuperseded config
        → All GuardsVersion
            (register_configuration s.told chrono s.url s.cluster_dns s.clouds rsd config route
              action).calls
    unfolding register_configuration
    register_configuration-GuardsVersion action justified = Effects.All-bind _ _ _ tt λ endpoint _.
        Effects.All-bind _ _ _
          (register_deployment-GuardsVersion endpoint rsd.restate.use_http11 _
            (config, route, served, justified))
          λ registered _.
            Effects.All-bind _ _ _ (annotate-GuardsVersion config registered.id) λ _ _.
              Effects.All-bind _ _ _ (confirm_latest-GuardsVersion registered)
                λ _ _. Effects.All-bind _ _ _ (announced action) (λ _ _. tt)
      where
        announced :
            (a : RegistrationAction) → All GuardsVersion (announce s.told chrono rsd a).calls
        announced (promote other) = ground arith
        announced register = tt
        announced (already_latest id) = tt
        announced conflict = tt

    carry_out_action-GuardsVersion :
        (action : RegistrationAction) (deployments : DeploymentUsageMap)
        → (list_deployments s.told.world rollout).result ≡ ok deployments
        → IsJustified (deployment_id_of config.metadata) deployments owned_ids action
        → All GuardsVersion
            (carry_out_action s.told chrono s.url s.cluster_dns s.clouds rsd config route
              action).calls
    unfolding carry_out_action
    carry_out_action-GuardsVersion register deployments q j =
        register_configuration-GuardsVersion register (inl refl)
    carry_out_action-GuardsVersion (promote other) deployments q j =
        register_configuration-GuardsVersion (promote other) (inr (deployments, q, other, j))
    carry_out_action-GuardsVersion (already_latest id) deployments q j =
        Effects.All-bind _ _ _ (annotate-GuardsVersion config id) (λ _ _. tt)
    carry_out_action-GuardsVersion conflict deployments q j = tt

  Permits-GuardsVersion :
      (deployments : DeploymentUsageMap) (c : Call) (config : Configuration)
      → Memᴰ config s.configurations
      → is_old_configuration s.namespace rsd.uid (some (tag s chrono rsd)) config ≡ true
      → Permits s.told.world rsd rollout deployments config.metadata c
      → GuardsVersion c
  Permits-GuardsVersion deployments (register_endpoint uri use_http11 forced) config m old k =
      absurd k
  Permits-GuardsVersion deployments (delete_configuration name) config m old k =
      (config, m, k.0, old)
  Permits-GuardsVersion deployments _ config m old k = tt

  cleanup-GuardsVersion :
      (deployments : DeploymentUsageMap)
      → All GuardsVersion
          (cleanup_old_configurations s.told.world chrono s.namespace rsd.uid rsd rollout
            deployments
            (some (tag s chrono rsd))
            s.configurations).calls
  cleanup-GuardsVersion deployments =
      All-map_of _ _ _ (λ c k. Permits-GuardsVersion deployments c k.0 k.1 k.2 k.3)
        (cleanup_old_configurations-Permits s.told.world chrono rsd rollout deployments s.namespace
          rsd.uid (some (tag s chrono rsd)) s.configurations)

  serve-GuardsVersion :
      (config : Configuration) (route : Route) (name : String) (status : RestateDeploymentStatus)
      → s.apply_configuration (tagged_name s chrono rsd) ≡ applied config
      → s.apply_route (tagged_name s chrono rsd) ≡ applied route
      → check_generation config ≡ ok tt
      → latest_created_revision config ≡ ok name
      → All GuardsVersion (serve s chrono rsd config route name status).0.calls
  unfolding serve register_and_clean_up list_deployments register_or_promote_deployment
  serve-GuardsVersion config route name status c r g n =
      Stateful.All-bind P _ _ _ tt λ revision found. Stateful.All-bind P _ _ _ tt λ _ _.
        Stateful.All-bind P _ _ _ tt λ _ ready. Stateful.All-bind P _ _ _ tt λ _ traffic.
          Stateful.All-bind P _ _ _ tt λ _ _.
            Stateful.All-bind P _ _ _ list_deployments-GuardsVersion λ deployments q.
              Stateful.All-bind P _ _ _ (registered deployments q revision found ready traffic)
                λ id _.
                  Stateful.All-bind P _ _ _ tt
                    λ _ _. Stateful.All-bind P _ _ _ (cleanup-GuardsVersion deployments) (λ _ _. tt)
    where
      P : Call → Type 0
      P = GuardsVersion

      list_deployments-GuardsVersion : All P (list_deployments s.told.world rollout).calls
      list_deployments-GuardsVersion = ground arith

      registered :
          (deployments : DeploymentUsageMap)
          → (list_deployments s.told.world rollout).result ≡ ok deployments
          → (revision : Revision) → find_revision s chrono rsd name ≡ ok revision
          → check_revision_ready revision ≡ ok tt
          → check_route_ready route name ≡ ok tt
          → All P
              (register_or_promote_deployment s.told chrono s.url s.cluster_dns s.clouds rsd
                s.namespace s.configurations config route deployments).calls
      registered deployments q revision found ready traffic =
          carry_out_action-GuardsVersion config route
            (
              c,
              r,
              g,
              name,
              n,
              revision,
              found,
              (check_revision_ready-IsRevisionReady revision).0 ready,
              check_route_ready-routes route name traffic,
            )
            _ deployments q
            (plan_registration-IsJustified (deployment_id_of config.metadata) deployments
              owned_ids).0

  pub reconcile_configuration-applied :
      (config : Configuration)
      → (reconcile_configuration s chrono rsd).result ≡ ok config
      → s.apply_configuration (tagged_name s chrono rsd) ≡ applied config
  unfolding reconcile_configuration ◌>>=◌
  reconcile_configuration-applied config h = ground arith

  reconcile_configuration-GuardsVersion :
      All GuardsVersion (reconcile_configuration s chrono rsd).calls
  unfolding reconcile_configuration unschedule_version_removal ◌>>=◌
  reconcile_configuration-GuardsVersion = ground arith

  pub reconcile_route-applied :
      (route : Route)
      → (reconcile_route s chrono rsd).result ≡ ok route
      → s.apply_route (tagged_name s chrono rsd) ≡ applied route
  unfolding reconcile_route
  reconcile_route-applied route h = ground arith

  -- Whatever the servers answer, a pass in Knative mode registers its version only when the status
  -- of its Configuration is up to date, the latest revision of it is ready and its Route sends
  -- traffic to that revision; it forces the registration only if Restate has just answered that
  -- another version of the same RestateDeployment is latest in its place; and a Configuration that
  -- it deletes is one of the RestateDeployment with another tag.
  pub reconcile_knative-GuardsVersion :
      (status : RestateDeploymentStatus)
      → All GuardsVersion (reconcile_knative s chrono rsd status).0.calls
  unfolding reconcile_knative reconcile_route
  reconcile_knative-GuardsVersion status = Stateful.All-bind P _ _ _ tt λ _ _.
      Stateful.All-bind P _ _ _ tt λ _ _.
        Stateful.All-bind P _ _ _ reconcile_configuration-GuardsVersion λ config c.
          Stateful.All-bind P _ _ _ (tt, tt)
            λ route r. Stateful.All-bind P _ _ _ tt λ _ g. Stateful.All-bind P _ _ _ tt λ name n.
              Stateful.All-bind P _ _ _ tt λ _ _.
                serve-GuardsVersion config route name _ (reconcile_configuration-applied config c)
                  (reconcile_route-applied route r) g n
    where
      P : Call → Type 0
      P = GuardsVersion
