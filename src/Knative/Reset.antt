-- ===== src/Knative/Reset.antt =====
-- What the status says of the version in Knative mode, wherever a pass of `reconcile_knative` of
-- src/controllers/restatedeployment/reconcilers/knative.rs stops.
use restate_operator.Base.{
  ◌≡◌, refl, ◌⊎◌, inl, inr, true, String, Option, none, some, arith, and_then, is_some_and, str_eq,
  eq_iff, Bool-cases,
}
use restate_operator.Platform.{Chrono}
use restate_operator.Resources.{RestateDeployment, RestateDeploymentStatus, KnativeDeploymentStatus}
use restate_operator.Effects.{ok}
use restate_operator.Stateful.{holds-bind}
use restate_operator.Cleanup.{rollout, DeploymentUsageMap}
use restate_operator.Knative.{Configuration, Revision, Route}
use restate_operator.Knative.Ready.{
  check_generation, latest_created_revision, count_replicas, check_revision_ready-IsRevisionReady,
  check_route_ready-routes,
}
use restate_operator.Knative.Registered.{
  IsServed, reconcile_configuration-applied, reconcile_route-applied,
}
use restate_operator.Deletion.Finalizer.{list_deployments}
use restate_operator.Knative.Register.{register_or_promote_deployment}
use restate_operator.Knative.Apply.{KnativeSurroundings, applied, tagged_name}
use restate_operator.Knative.Reconcile.{
  start_version, set_latest_revision, set_url, serve, register_and_clean_up, reconcile_knative,
}

module _ (s : KnativeSurroundings) (chrono : Chrono) (rsd : RestateDeployment) where
  -- The status names the Configuration of the tag.
  abbrev pub NamesVersion : RestateDeploymentStatus → Type 0
  NamesVersion status =
      (k : KnativeDeploymentStatus) × (status.knative ≡ some k)
      × (k.configuration_name ≡ some (tagged_name s chrono rsd))

  -- The id that the registration of this pass has returned, for the Configuration and the Route
  -- that were applied, which are served, and the answer to its usage query.
  abbrev pub IsReturned : String → Type 0
  IsReturned id =
      (config : Configuration) × (route : Route) × IsServed s chrono rsd config route
      × (deployments : DeploymentUsageMap) × ((list_deployments s.told.world rollout).result
          ≡ ok deployments)
      × ((register_or_promote_deployment s.told chrono s.url s.cluster_dns s.clouds rsd s.namespace
            s.configurations config route deployments).result
          ≡ ok id)

  -- The deployment id is none, or that of before if it was of the same Configuration, or it has been
  -- returned in this pass.
  abbrev pub TracksId : RestateDeploymentStatus → Option String → Type 0
  TracksId before id =
      (id ≡ none)
      ⊎ (NamesVersion before × (id ≡ before.deployment_id))
      ⊎ ((returned : String) × (id ≡ some returned) × IsReturned returned)

  abbrev pub TracksVersion : RestateDeploymentStatus → RestateDeploymentStatus → Type 0
  TracksVersion before status = NamesVersion status × TracksId before status.deployment_id

  start_version-TracksVersion :
      (before : RestateDeploymentStatus) → TracksVersion before (start_version s chrono rsd before)
  unfolding start_version
  start_version-TracksVersion before =
      elim (Bool-cases (
        is_some_and (and_then before.knative (λ k. k.configuration_name))
          (λ current. str_eq current (tagged_name s chrono rsd)))) [
            | inl e ↦ rw e (named before.knative e, inr (inl (named before.knative e, refl)))
            | inr e ↦ rw e ((_, refl, refl), inl refl)
          ]
    where
      named :
          (knative : Option KnativeDeploymentStatus)
          → is_some_and
              (and_then knative (λ k. k.configuration_name))
              (λ current. str_eq current (tagged_name s chrono rsd))
            ≡ true
          → (k : KnativeDeploymentStatus) × (knative ≡ some k)
            × (k.configuration_name ≡ some (tagged_name s chrono rsd))
      named none e = cc
      named (some k) e = (k, refl, same k.configuration_name e)
        where
          same :
              (name : Option String)
              → is_some_and name (λ current. str_eq current (tagged_name s chrono rsd)) ≡ true
              → name ≡ some (tagged_name s chrono rsd)
          same none e = cc
          same (some current) e = rw ((eq_iff current (tagged_name s chrono rsd)).0 e)

  set_latest_revision-TracksVersion :
      (before status : RestateDeploymentStatus) (name : String)
      → TracksVersion before status
      → TracksVersion before (set_latest_revision s chrono rsd name status)
  unfolding set_latest_revision
  set_latest_revision-TracksVersion before status name ((k, e, n), t) = (rw e (_, refl, n), t)

  set_url-TracksVersion :
      (before status : RestateDeploymentStatus) (route : Route)
      → TracksVersion before status
      → TracksVersion before (set_url s chrono rsd route status)
  unfolding set_url
  set_url-TracksVersion before status route ((k, e, n), t) = (rw e (_, refl, n), t)

  count_replicas-TracksVersion :
      (before status : RestateDeploymentStatus) (config : Configuration) (revision : Revision)
      → TracksVersion before status
      → TracksVersion before (count_replicas config revision status)
  unfolding count_replicas
  count_replicas-TracksVersion before status config revision h = ground arith

  returned-TracksVersion :
      (before status : RestateDeploymentStatus) (id : String)
      → TracksVersion before status
      → IsReturned id
      → TracksVersion before (record status { deployment_id = some id })
  returned-TracksVersion before status id h returned = (h.0, inr (inr (id, refl, returned)))

  register_and_clean_up-TracksVersion :
      (before status : RestateDeploymentStatus) (config : Configuration) (route : Route)
      → IsServed s chrono rsd config route
      → TracksVersion before status
      → TracksVersion before (register_and_clean_up s chrono rsd config route status).1
  unfolding register_and_clean_up
  register_and_clean_up-TracksVersion before status config route served h =
      holds-bind I _ _ _ h λ deployments queried. holds-bind I _ _ _ h λ id returned.
        let identified =
          returned-TracksVersion before status id h
            (config, route, served, deployments, queried, returned) in
        holds-bind I _ _ _ identified λ _ _. holds-bind I _ _ _ identified (λ _ _. identified)
    where
      I : RestateDeploymentStatus → Type 0
      I = TracksVersion before

  serve-TracksVersion :
      (before status : RestateDeploymentStatus) (config : Configuration) (route : Route)
      (name : String)
      → s.apply_configuration (tagged_name s chrono rsd) ≡ applied config
      → s.apply_route (tagged_name s chrono rsd) ≡ applied route
      → check_generation config ≡ ok tt
      → latest_created_revision config ≡ ok name
      → TracksVersion before status
      → TracksVersion before (serve s chrono rsd config route name status).1
  unfolding serve
  serve-TracksVersion before status config route name c r g n h =
      holds-bind I _ _ _ h λ revision found.
        let counted = count_replicas-TracksVersion before status config revision h in
        holds-bind I _ _ _ counted λ _ _. holds-bind I _ _ _ counted λ _ ready.
          holds-bind I _ _ _ counted λ _ traffic.
            let located =
              set_url-TracksVersion before (count_replicas config revision status) route counted in
            holds-bind I _ _ _ located λ _ _.
              register_and_clean_up-TracksVersion before
                (set_url s chrono rsd route (count_replicas config revision status)) config route
                (
                  c,
                  r,
                  g,
                  name,
                  n,
                  revision,
                  found,
                  (check_revision_ready-IsRevisionReady revision).0 ready,
                  check_route_ready-routes route name traffic,
                )
                located
    where
      I : RestateDeploymentStatus → Type 0
      I = TracksVersion before

  -- Wherever a pass in Knative mode stops, the status names the Configuration of the current tag,
  -- and the deployment id in it is none, or is that of before, where the status named the same
  -- Configuration, or is the one that the registration of this pass has returned for the applied
  -- Configuration and Route, once these are served.
  pub reconcile_knative-TracksVersion :
      (before : RestateDeploymentStatus)
      → TracksVersion before (reconcile_knative s chrono rsd before).1
  unfolding reconcile_knative
  reconcile_knative-TracksVersion before =
      let started = start_version-TracksVersion before in
      holds-bind I _ _ _ started λ _ _. holds-bind I _ _ _ started λ _ _.
        holds-bind I _ _ _ started λ config c. holds-bind I _ _ _ started λ route r.
          holds-bind I _ _ _ started λ _ g. holds-bind I _ _ _ started λ name n.
            let known =
              set_latest_revision-TracksVersion before (start_version s chrono rsd before) name
                started in
            holds-bind I _ _ _ known (λ _ _.
              serve-TracksVersion before
                (set_latest_revision s chrono rsd name (start_version s chrono rsd before)) config
                route name (reconcile_configuration-applied s chrono rsd config c)
                (reconcile_route-applied s chrono rsd route r) g n known)
    where
      I : RestateDeploymentStatus → Type 0
      I = TracksVersion before
