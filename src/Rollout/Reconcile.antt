-- ===== src/Rollout/Reconcile.antt =====
-- The whole of `RestateDeployment::reconcile` in
-- src/controllers/restatedeployment/controller.rs: the tunnel, the ReplicaSet, its leftover HPA,
-- the Service, the URL to register, and the registration flow.
use restate_operator.Base.{
  subst, ℕ, ◌≡◌, ap, String, Option, none, some, List, lookup, unwrap_or, if◌then◌else◌,
}
use restate_operator.Platform.{Chrono}
use restate_operator.Resources.{RestateDeployment, ReplicaSet}
use restate_operator.Effects.{Run, Result, ok, pure, given, ◌>>=◌, ◌>>◌, >>=-eq-ok, >>=-Made}
use restate_operator.Calls.{Call, apply_service, kube_call}
use restate_operator.ReplicaSets.Visit.{delete_version_hpa}
use restate_operator.Cloud.{UrlLibrary}
use restate_operator.Cloud.InProcess
use restate_operator.Cloud.InProcess.{InProcessTunnelParams}
use restate_operator.Endpoints.{CloudStore, service_url, in_process_tunnel_params}
use restate_operator.Naming.{Hashing, versioned_name}
use restate_operator.Fallible.{ok-injective}
use restate_operator.Rollout.Inject.{Value, template_spec}
use restate_operator.Rollout.Adopt.{ReplicaSetWorld, ensure_replicaset}
use restate_operator.Rollout.Adopted.{Stays, Stays-later, ensure_replicaset-Stays}
use restate_operator.Rollout.Flow.{RolloutWorld, Version, roll_out}
use restate_operator.Rollout.Confirmed.{IsLive, roll_out-IsLive}

-- What a reconcile is given besides the RestateDeployment. `template` is its pod template as JSON,
-- and `pod_spec` the pod spec in it.
pub record Surroundings : Type 0 where
  pub told : RolloutWorld
  pub versions : ReplicaSetWorld
  pub url : UrlLibrary
  pub cluster_dns : String
  pub clouds : CloudStore
  pub hashing : Hashing
  pub namespace : String
  pub store : List ReplicaSet
  pub template : String
  pub pod_spec : Option Value

abbrev pub tunnel_name_annotation : String
tunnel_name_annotation = "restate.dev/tunnel-name"

module _ (s : Surroundings) (chrono : Chrono) (rsd : RestateDeployment) where
  abbrev pub tunnel : Result (Option InProcessTunnelParams)
  tunnel = in_process_tunnel_params s.url s.cluster_dns s.clouds rsd.restate

  abbrev pub name_of : Option InProcessTunnelParams → String
  name_of params = versioned_name s.hashing rsd s.template params

  -- The pods hold the tunnels of an in-process version, under the name that they were created with.
  unfoldable pub endpoint_of : Option InProcessTunnelParams → ReplicaSet → String → Result String
  endpoint_of (some params) rs name =
      InProcess.tunnel_url s.url params
        (unwrap_or (lookup tunnel_name_annotation rs.metadata.annotations) name)
        rsd.restate.service_path
  endpoint_of none rs name =
      service_url s.url s.cluster_dns s.clouds rsd.restate.register name s.namespace
        rsd.restate.service_path

  -- The latest version is never scaled by an HPA of its own.
  abbrev delete_leftover_hpa : String → Run Call (Unit {0})
  delete_leftover_hpa name =
      if s.told.world.hpa_cached name then delete_version_hpa s.told.world name else pure tt

  abbrev pub version_of : String → ReplicaSet → String → Version
  version_of name rs endpoint = record {
    name = name;
    endpoint = endpoint;
    use_http11 = rsd.restate.use_http11;
    replicaset = rs;
  }

  unfoldable pub reconcile : Run Call (ReplicaSet × Option ℕ)
  reconcile = do
    params ← given tunnel
    let name = name_of params
    rs ←
        ensure_replicaset s.told.world s.versions rsd name s.template
          (template_spec s.pod_spec name params)
    delete_leftover_hpa name
    kube_call s.told.world (apply_service name)
    endpoint ← given (endpoint_of params rs name)
    next_removal ←
        roll_out s.told chrono rsd s.namespace rsd.uid s.store (version_of name rs endpoint)
    pure (rs, next_removal)

  -- The version of a reconcile that succeeded.
  abbrev pub HasRolledOut : List Call → ReplicaSet → Type 0
  HasRolledOut calls rs =
      (params : Option InProcessTunnelParams) × (endpoint : String) × (tunnel ≡ ok params)
      × Stays s.told.world s.versions rsd (name_of params) s.template calls rs
      × (endpoint_of params rs (name_of params) ≡ ok endpoint)
      × IsLive s.told chrono rsd s.namespace rsd.uid s.store
          (version_of (name_of params) rs endpoint)

  taken_eq : {x y : ReplicaSet × Option ℕ} → ok x ≡ ok y → x.0 ≡ y.0
  taken_eq e = ap (λ p. p.0) (ok-injective e)

  -- A reconcile that succeeds has one version: it is named by the hash of the template and of the
  -- tunnel, its ReplicaSet was created or adopted in this pass, with no removal scheduled any more,
  -- it has the URL of the tunnel or of its Service, and Restate has answered that it routes to it.
  pub reconcile-HasRolledOut :
      (rs : ReplicaSet) (next : Option ℕ)
      → reconcile.result ≡ ok (rs, next)
      → HasRolledOut reconcile.calls rs
  unfolding reconcile
  reconcile-HasRolledOut rs next h =
      let (params, tunnelled, h1, _, later1) = >>=-Made _ _ h in
      let (taken, ensured, h2, first, _) = >>=-Made _ _ h1 in
      let (_, _, h3, _) = >>=-eq-ok _ _ h2 in
      let (_, _, h4, _) = >>=-eq-ok _ _ h3 in
      let (endpoint, reached, h5, _) = >>=-eq-ok _ _ h4 in
      let (due, rolled, done, _) = >>=-eq-ok _ _ h5 in
      subst (HasRolledOut _) (taken_eq done) (
        params,
        endpoint,
        tunnelled,
        Stays-later s.told.world s.versions rsd (name_of params) s.template _ _ taken
            (λ c m. later1 c (first c m))
            (ensure_replicaset-Stays s.told.world s.versions rsd (name_of params) s.template _ taken
              ensured),
        reached,
        roll_out-IsLive s.told chrono rsd s.namespace rsd.uid s.store
            (version_of (name_of params) taken endpoint) due rolled,
      )
