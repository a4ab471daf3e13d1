-- ===== src/Knative/Endpoint.antt =====
-- The URL under which a Knative version is registered, in `register_or_promote_deployment` of
-- src/controllers/restatedeployment/reconcilers/knative.rs.
use restate_operator.Base.{String, some, [], ◌∷◌, and_then, concat}
use restate_operator.Errors.{route_not_ready}
use restate_operator.Platform.{secs}
use restate_operator.Resources.{RestateDeployment}
use restate_operator.Effects.{Result}
use restate_operator.Fallible.{◌>>=◌, ok_or}
use restate_operator.Cloud.{UrlLibrary, url_result}
use restate_operator.Endpoints.{CloudStore, maybe_tunnel_url}
use restate_operator.Knative.{Route}

module _ (url : UrlLibrary) (cluster_dns : String) (clouds : CloudStore)
    (rsd : RestateDeployment) where
  -- The URL that the Route has been assigned, through the tunnel of a Restate Cloud environment.
  unfoldable pub endpoint_of_route : Route → Result String
  endpoint_of_route route = do
    url_str ← ok_or (and_then route.status (λ s. s.url)) (
        route_not_ready
          (concat ("Route " ∷ route.metadata.name ∷ " is waiting for URL assignment" ∷ []))
          "RouteURLNotReady" (some (secs 5)))
    parsed ← url_result (url.parse url_str)
    maybe_tunnel_url url cluster_dns clouds rsd.restate.register.cloud parsed
