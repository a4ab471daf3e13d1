-- ===== src/Endpoints.antt =====
-- Where a RestateDeployment is registered: `RestateAdminEndpoint` of
-- src/resources/restatedeployments.rs, `service_url` of src/controllers/mod.rs, and
-- `Context::request` and `in_process_tunnel_params` of
-- src/controllers/restatedeployment/controller.rs.
pub mod Tokens
use restate_operator.Base.{
  ℤ, pos, Bool, not, ◌+◌, ◌==◌, ℕ, String, Option, none, some, [], ◌∷◌, is_some, if◌then◌else◌,
  unwrap_or, concat, decimal_ℤ,
}
use restate_operator.Errors.{Error, invalid_restate_config, restate_cloud_environment_not_found}
use restate_operator.Resources.{
  RestateAdminEndpoint, ServiceReference, RestateSpec, is_in_process_tunnel,
}
use restate_operator.Effects.{Result, ok, err}
use restate_operator.Fallible.{◌>>=◌, ok_or, require}
use restate_operator.Cloud
use restate_operator.Cloud.{UrlLibrary, RestateCloudEnvironment, SecretStore, url_result}
use restate_operator.Cloud.InProcess.{InProcessTunnelParams, from_rce}

-- The RestateCloudEnvironments in the cache, by name.
abbrev pub CloudStore : Type 0
CloudStore = String → Option RestateCloudEnvironment

abbrev not_exactly_one : Error
not_exactly_one =
    invalid_restate_config
      "Exactly one of `cluster`, `cloud`, `service` or `url` must be specified in spec.restate"

abbrev with_path : UrlLibrary → Option String → String → String
with_path url none base = base
with_path url (some path) base = url.set_path base path

-- The URL of a Service inside the Kubernetes cluster.
unfoldable pub cluster_service_url :
    UrlLibrary → String → String → String → ℤ → Option String → Result String
cluster_service_url url cluster_dns name namespace port path = do
  base ← url_result (
      url.parse (
        concat
          ("http://" ∷ name ∷ "." ∷ namespace ∷ ".svc." ∷ cluster_dns ∷ ":" ∷ decimal_ℤ port ∷ [])))
  ok (with_path url path base)

unfoldable pub find_cloud : CloudStore → String → Result RestateCloudEnvironment
find_cloud store cloud = ok_or (store cloud) (restate_cloud_environment_not_found cloud)

module _ (url : UrlLibrary) (cluster_dns : String) (clouds : CloudStore) where
  -- `RestateAdminEndpoint::admin_url`, on the four fields.
  unfoldable pub admin_url_of :
      Option String → Option String → Option ServiceReference → Option String → Result String
  admin_url_of (some cluster) none none none =
      cluster_service_url url cluster_dns "restate" cluster (pos 9070) none
  admin_url_of none (some cloud) none none = do
    rce ← find_cloud clouds cloud
    Cloud.admin_url url rce
  admin_url_of none none (some service) none =
      cluster_service_url url cluster_dns service.name service.namespace
        (unwrap_or service.port (pos 9070)) service.path
  admin_url_of none none none (some u) = ok u
  admin_url_of _ _ _ _ = err not_exactly_one

  unfoldable pub admin_url : RestateAdminEndpoint → Result String
  unfolding admin_url_of
  admin_url e = admin_url_of e.cluster e.cloud e.service e.url

  abbrev one : Bool → ℕ
  one set = if set then 1 else 0

  unfoldable pub validate_exactly_one_set : RestateAdminEndpoint → Result (Unit {0})
  validate_exactly_one_set e =
      require
        (one (is_some e.cluster)
            + one (is_some e.cloud)
            + one (is_some e.service)
            + one (is_some e.url)
          == 1)
        not_exactly_one

  -- `maybe_tunnel_url`, on the field `cloud`.
  unfoldable pub maybe_tunnel_url : Option String → String → Result String
  maybe_tunnel_url none u = ok u
  maybe_tunnel_url (some cloud) u = do rce ← find_cloud clouds cloud; Cloud.tunnel_url url rce u

  -- The URL under which a version with a Service of its own is registered.
  unfoldable pub service_url :
      RestateAdminEndpoint → String → String → Option String → Result String
  service_url e name namespace service_path = do
    _ ← validate_exactly_one_set e
    u ← cluster_service_url url cluster_dns name namespace (pos 9080) service_path
    maybe_tunnel_url e.cloud u

  -- `RestateAdminEndpoint::bearer_token`, on the field `cloud`.
  unfoldable pub bearer_token : SecretStore → Option String → Result (Option String)
  bearer_token secrets none = ok none
  bearer_token secrets (some cloud) = do
    rce ← find_cloud clouds cloud
    token ← Cloud.bearer_token secrets rce
    ok (some token)

-- The parts of a `reqwest::RequestBuilder` that the endpoint decides.
pub record AdminRequest : Type 0 where
  pub url : String
  pub bearer_token : Option String

module _ (url : UrlLibrary) (cluster_dns : String) (clouds : CloudStore) where
  -- `Context::request`
  unfoldable pub request : SecretStore → RestateAdminEndpoint → String → Result AdminRequest
  request secrets e path = do
    token ← bearer_token url cluster_dns clouds secrets e.cloud
    base ← admin_url url cluster_dns clouds e
    joined ← url_result (url.join base path)
    ok (record { url = joined; bearer_token = token })

  abbrev params_if : Bool → Option String → Result (Option InProcessTunnelParams)
  params_if in_process cloud =
      if in_process
      then (do
        name ← ok_or cloud (
            invalid_restate_config
              "tunnelMode: in-process requires registering against a RestateCloudEnvironment (spec.restate.register.cloud)")
        rce ← find_cloud clouds name
        params ← from_rce url rce
        ok (some params))
      else ok none

  unfoldable pub in_process_tunnel_params : RestateSpec → Result (Option InProcessTunnelParams)
  in_process_tunnel_params spec = params_if (is_in_process_tunnel spec) spec.register.cloud
