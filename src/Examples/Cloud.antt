-- ===== src/Examples/Cloud.antt =====
-- The theorems on a Restate Cloud environment, at a concrete one.
use restate_operator.Base.{
  ◌≡◌, ◌↔◌, refl, none, some, [], ◌∷◌, str_eq, if◌then◌else◌, concat, lookup,
}
use restate_operator.Resources.{RestateAdminEndpoint}
use restate_operator.Effects.{ok}
use restate_operator.Fallible.{◌>>=◌, ok_or}
use restate_operator.Cloud
use restate_operator.Cloud.{
  UrlLibrary, RestateCloudEnvironment, SecretStore, parsed, codes, region_ok, strip_prefix,
  unprefixed_environment_id, proxy_origin, ends_with_dot, has_double_dot,
}
use restate_operator.Cloud.InProcess.{from_rce}
use restate_operator.Cloud.Accepted.{IsTunnelReady, params_of, from_rce-accepts}
use restate_operator.Endpoints.{
  CloudStore, AdminRequest, request, find_cloud, admin_url_of, admin_url, bearer_token,
}
use restate_operator.Endpoints.Tokens.{GoesHome, request-GoesHome}

-- Every text is a URL, on the host `host`, and a path is put behind it.
abbrev pub plain_url : UrlLibrary
plain_url = record {
  parse = parsed;
  join = λ base path. parsed (concat (base ∷ path ∷ []));
  set_path = λ base path. concat (base ∷ path ∷ []);
  set_query_of = λ u from. u;
  scheme = λ u. "http";
  host_str = λ u. some "host";
  port = λ u. none;
  port_or_known_default = λ u. some 80;
  path = λ u. "/";
  debug = λ s. s;
}

abbrev pub prod : RestateCloudEnvironment
prod = record {
  name = some "prod";
  uid = some "u7";
  environment_id = "env_201k";
  region = "us.restate";
  signing_public_key = "publickeyv1_x";
  authentication = record { name = "prod-token"; key = "token" };
  proxy_base_url = some "http://host";
}

abbrev pub clouds : CloudStore
clouds name = if str_eq name "prod" then some prod else none

abbrev secrets : SecretStore
secrets name =
    if str_eq name "prod-token"
    then some (record { contents = ("token", some "key_1") ∷ [] })
    else none

abbrev cloud_endpoint : RestateAdminEndpoint
cloud_endpoint = record { cluster = none; cloud = some "prod"; service = none; url = none }

abbrev sent : AdminRequest
sent = record {
  url = "https://201k.env.us.restate.restate.cloud:9070/deployments";
  bearer_token = some "key_1";
}

sent_ok : request plain_url "cluster.local" clouds secrets cloud_endpoint "/deployments" ≡ ok sent
unfolding request bearer_token admin_url admin_url_of find_cloud Cloud.bearer_token Cloud.admin_url
    unprefixed_environment_id strip_prefix concat lookup ◌>>=◌ ok_or
sent_ok = refl

request-GoesHome_example :
    GoesHome plain_url "cluster.local" clouds secrets cloud_endpoint "/deployments" sent.url
      sent.bearer_token
request-GoesHome_example =
    request-GoesHome plain_url "cluster.local" clouds secrets cloud_endpoint "/deployments" sent
      sent_ok

from_rce-accepts_example :
    ((from_rce plain_url prod ≡ ok (params_of plain_url prod))
      ↔ (IsTunnelReady plain_url prod × (params_of plain_url prod ≡ params_of plain_url prod)))
    × (unprefixed_environment_id (params_of plain_url prod).environment_id
        ≡ unprefixed_environment_id "env_201k")
from_rce-accepts_example = from_rce-accepts plain_url prod (params_of plain_url prod)
