-- ===== src/Knative/Live.antt =====
-- What a pass in Knative mode that succeeds has been told by Restate.
use restate_operator.Base.{◌≡◌, ◌∙◌, ap, ◌⊎◌, inl, inr, true, String, some, Bool}
use restate_operator.Platform.{Chrono}
use restate_operator.Resources.{RestateDeployment, RestateDeploymentStatus}
use restate_operator.Effects.{ok, >>=-eq-ok}
use restate_operator.Stateful
use restate_operator.Cleanup.{rollout, DeploymentUsageMap}
use restate_operator.Deletion.Finalizer.{list_deployments}
use restate_operator.Registration.{
  RegistrationAction, register, promote, already_latest, conflict, RegisteredDeployment, is_latest,
  force, overwrite,
}
use restate_operator.Registration.Plan.{IsJustified, plan_registration-IsJustified}
use restate_operator.Rollout.Flow.{register_deployment}
use restate_operator.Rollout.Confirmed.{IsRouted, confirm_latest-IsRouted}
use restate_operator.Versions.{deployment_id_of}
use restate_operator.Knative.{Configuration, Route}
use restate_operator.Knative.Ready.{check_revision_ready-IsRevisionReady, check_route_ready-routes}
use restate_operator.Knative.Apply.{KnativeSurroundings}
use restate_operator.Knative.Endpoint.{endpoint_of_route}
use restate_operator.Knative.Register.{
  register_configuration, carry_out_action, register_or_promote_deployment,
}
use restate_operator.Knative.Registered.{
  IsServed, owned_ids, reconcile_configuration-applied, reconcile_route-applied,
}
use restate_operator.Knative.Reconcile.{serve, register_and_clean_up, reconcile_knative}

module _ (s : KnativeSurroundings) (chrono : Chrono) (rsd : RestateDeployment) where
  -- The id is recorded on the Configuration, and Restate has answered that this deployment is latest;
  -- or Restate has registered the URL of the Route under that id and routes to it.
  abbrev pub IsLatest : Configuration → Route → String → Type 0
  IsLatest config route id =
      ((deployments : DeploymentUsageMap) × (deployment_id_of config.metadata ≡ some id)
        × ((list_deployments s.told.world rollout).result ≡ ok deployments)
        × (is_latest deployments id ≡ true))
      ⊎ ((registered : RegisteredDeployment) × (endpoint : String) × (forced : Bool)
          × (endpoint_of_route s.url s.cluster_dns s.clouds rsd route ≡ ok endpoint)
          × ((register_deployment s.told chrono rsd endpoint rsd.restate.use_http11 forced).result
              ≡ ok registered)
          × (id ≡ registered.id)
          × IsRouted s.told chrono rsd registered)

  register_configuration-IsLatest :
      (config : Configuration) (route : Route) (action : RegistrationAction) (id : String)
      → (register_configuration s.told chrono s.url s.cluster_dns s.clouds rsd config route
          action).result
        ≡ ok id
      → IsLatest config route id
  unfolding register_configuration
  register_configuration-IsLatest config route action id h =
      let (endpoint, e, h1, _) = >>=-eq-ok _ _ h in
      let (registered, r, h2, _) = >>=-eq-ok _ _ h1 in
      let (_, _, h3, _) = >>=-eq-ok _ _ h2 in
      let (_, c, h4, _) = >>=-eq-ok _ _ h3 in
      let (_, _, h5, _) = >>=-eq-ok _ _ h4 in
      inr (
        registered,
        endpoint,
        force (overwrite action),
        e,
        r,
        cc,
        confirm_latest-IsRouted s.told chrono rsd registered c,
      )

  carry_out_action-IsLatest :
      (config : Configuration) (route : Route) (action : RegistrationAction) (id : String)
      (deployments : DeploymentUsageMap)
      → (list_deployments s.told.world rollout).result ≡ ok deployments
      → IsJustified (deployment_id_of config.metadata) deployments (owned_ids s chrono rsd) action
      → (carry_out_action s.told chrono s.url s.cluster_dns s.clouds rsd config route action).result
        ≡ ok id
      → IsLatest config route id
  unfolding carry_out_action
  carry_out_action-IsLatest config route register id deployments q j h =
      register_configuration-IsLatest config route register id h
  carry_out_action-IsLatest config route (promote other) id deployments q j h =
      register_configuration-IsLatest config route (promote other) id h
  carry_out_action-IsLatest config route (already_latest recorded) id deployments q j h =
      let (_, _, k, _) = >>=-eq-ok _ _ h in
      let same : recorded ≡ id = cc in inl (deployments, rw same at j.0, q, rw same at j.1)
  carry_out_action-IsLatest config route conflict id deployments q j h = cc

  -- The version of a pass that succeeds: it is served, and Restate routes to the deployment in the
  -- status.
  abbrev pub HasServed : RestateDeploymentStatus → Type 0
  HasServed status =
      (config : Configuration) × (route : Route) × (id : String) × IsServed s chrono rsd config
        route
      × (status.deployment_id ≡ some id)
      × IsLatest config route id

  -- A pass in Knative mode that succeeds has a version that is served, with its Configuration up to
  -- date, its latest revision ready and traffic sent to it; and the status has a deployment id that
  -- is the one recorded on this Configuration, and Restate has answered that this deployment is
  -- latest, or the one under which Restate has registered the URL of its Route, and Restate routes
  -- to it.
  pub reconcile_knative-HasServed :
      (before : RestateDeploymentStatus) (next_removal : _)
      → (reconcile_knative s chrono rsd before).0.result ≡ ok next_removal
      → HasServed (reconcile_knative s chrono rsd before).1
  unfolding reconcile_knative serve register_and_clean_up register_or_promote_deployment
  reconcile_knative-HasServed before next_removal h =
      let (_, _, h1, q1) = Stateful.>>=-eq-ok _ _ _ h in
      let (_, _, h2, q2) = Stateful.>>=-eq-ok _ _ _ h1 in
      let (config, c, h3, q3) = Stateful.>>=-eq-ok _ _ _ h2 in
      let (route, r, h4, q4) = Stateful.>>=-eq-ok _ _ _ h3 in
      let (_, g, h5, q5) = Stateful.>>=-eq-ok _ _ _ h4 in
      let (name, n, h6, q6) = Stateful.>>=-eq-ok _ _ _ h5 in
      let (_, _, h7, q7) = Stateful.>>=-eq-ok _ _ _ h6 in
      let (revision, f, h8, q8) = Stateful.>>=-eq-ok _ _ _ h7 in
      let (_, _, h9, q9) = Stateful.>>=-eq-ok _ _ _ h8 in
      let (_, ready, h10, q10) = Stateful.>>=-eq-ok _ _ _ h9 in
      let (_, traffic, h11, q11) = Stateful.>>=-eq-ok _ _ _ h10 in
      let (_, _, h12, q12) = Stateful.>>=-eq-ok _ _ _ h11 in
      let (deployments, d, h13, q13) = Stateful.>>=-eq-ok _ _ _ h12 in
      let (id, i, h14, q14) = Stateful.>>=-eq-ok _ _ _ h13 in
      let (_, _, h15, q15) = Stateful.>>=-eq-ok _ _ _ h14 in
      let (_, _, h16, q16) = Stateful.>>=-eq-ok _ _ _ h15 in
      (
        config,
        route,
        id,
        (
          reconcile_configuration-applied s chrono rsd config c,
          reconcile_route-applied s chrono rsd route r,
          g,
          name,
          n,
          revision,
          f,
          (check_revision_ready-IsRevisionReady revision).0 ready,
          check_route_ready-routes route name traffic,
        ),
        ap (λ (t : RestateDeploymentStatus). t.deployment_id)
            (q1 ∙ q2 ∙ q3 ∙ q4 ∙ q5 ∙ q6 ∙ q7 ∙ q8 ∙ q9 ∙ q10 ∙ q11 ∙ q12 ∙ q13 ∙ q14 ∙ q15 ∙ q16),
        carry_out_action-IsLatest config route _ id deployments d
            (plan_registration-IsJustified (deployment_id_of config.metadata) deployments
              (owned_ids s chrono rsd)).0
            i,
      )
