-- ===== src/Cloud/InProcess.antt =====
-- `InProcessTunnelParams` of src/resources/restatecloudenvironments.rs: what the pods of a version
-- need to hold their own tunnels.
use restate_operator.Base.{
  String, Option, none, some, [], ◌∷◌, not, ◌&&◌, is_empty, unwrap_or, concat,
}
use restate_operator.Errors.{Error, invalid_restate_config}
use restate_operator.Effects.{Result, ok, err}
use restate_operator.Fallible.{◌>>=◌, require}
use restate_operator.Cloud.{
  UrlLibrary, Parsed, parsed, parse_error, url_result, RestateCloudEnvironment,
  unprefixed_environment_id, codes, all, is_id_char, region_ok, starts_with, trim_slashes,
  proxy_origin,
}

pub record InProcessTunnelParams : Type 0 where
  pub environment_id : String
  pub region : String
  pub signing_public_key : String
  pub proxy_base_url : Option String

abbrev invalid_environment : RestateCloudEnvironment → String → String → Error
invalid_environment rce wanted got = invalid_restate_config (
    concat (
      "tunnelMode: in-process requires RestateCloudEnvironment '"
      ∷ unwrap_or rce.name "<unnamed>"
      ∷ "' to have "
      ∷ wanted
      ∷ ", got "
      ∷ got
      ∷ []))

abbrev pub check_parsed : UrlLibrary → RestateCloudEnvironment → String → Parsed → Result (Unit {0})
check_parsed url rce base (parsed origin) = ok tt
check_parsed url rce base (parse_error e) = err (
    invalid_restate_config (
      concat (
        "RestateCloudEnvironment '"
        ∷ unwrap_or rce.name "<unnamed>"
        ∷ "' has an invalid proxyBaseUrl "
        ∷ url.debug base
        ∷ ": "
        ∷ e
        ∷ [])))

module _ (url : UrlLibrary) where
  abbrev pub check_origin : RestateCloudEnvironment → Option String → Result (Unit {0})
  check_origin rce none = ok tt
  check_origin rce (some base) = check_parsed url rce base (proxy_origin url rce.region (some base))

  -- `InProcessTunnelParams::from_rce`
  unfoldable pub from_rce : RestateCloudEnvironment → Result InProcessTunnelParams
  from_rce rce = do
    let unprefixed = unprefixed_environment_id rce.environment_id
    _ ← require (not (is_empty (codes unprefixed)) && all is_id_char (codes unprefixed)) (
        invalid_environment rce "an environmentId of the form env_<alphanumerics>"
          (url.debug rce.environment_id))
    _ ← require (region_ok (codes rce.region)) (
        invalid_environment rce "a lowercase DNS-style region (letters, digits, '-', '.')"
          (url.debug rce.region))
    _ ← require (starts_with rce.signing_public_key "publickeyv1_") (
        invalid_environment rce "a signingPublicKey starting with publickeyv1_"
          (url.debug rce.signing_public_key))
    _ ← check_origin rce rce.proxy_base_url
    ok (record {
      environment_id = concat ("env_" ∷ unprefixed ∷ []);
      region = rce.region;
      signing_public_key = rce.signing_public_key;
      proxy_base_url = rce.proxy_base_url;
    })

  abbrev append_path : String → Option String → Result String
  append_path base none = ok base
  append_path base (some path) = do
    joined ← url_result (url.join base (trim_slashes path))
    _ ← require (starts_with joined base) (
        invalid_restate_config (
          concat (
            "spec.restate.servicePath "
            ∷ url.debug path
            ∷ " escapes the tunnel URL; it must be a plain path to append"
            ∷ [])))
    ok joined

  -- The URL under which a version is registered whose pods hold their own tunnels.
  unfoldable pub tunnel_url : InProcessTunnelParams → String → Option String → Result String
  tunnel_url params tunnel_name service_path = do
    origin ← url_result (proxy_origin url params.region params.proxy_base_url)
    base ← url_result (
        url.parse (
          concat (
            origin
            ∷ "/"
            ∷ unprefixed_environment_id params.environment_id
            ∷ "/"
            ∷ tunnel_name
            ∷ "/http/in-process/9080/"
            ∷ [])))
    append_path base service_path
