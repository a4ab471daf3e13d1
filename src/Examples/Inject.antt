-- ===== src/Examples/Inject.antt =====
-- The theorem on the environment of a tunnel, at a pod spec with one container.
use restate_operator.Base.{◌≡◌, ◌⊎◌, refl, String, none}
use restate_operator.Effects.{ok}
use restate_operator.Fallible.{◌>>=◌}
use restate_operator.Cloud.InProcess.{InProcessTunnelParams}
use restate_operator.Rollout.Inject.{
  Value, text, array, object, nil, cons, Fields, no_field, field, get, set, get_of, declares,
  env_entry, tunnel_vars, add_vars, inject_container, inject_containers, inject_field,
  inject_in_process_tunnel_env,
}
use restate_operator.Rollout.Injected.{
  AreInjected, containers_of, inject_in_process_tunnel_env-AreInjected,
}

abbrev params : InProcessTunnelParams
params = record {
  environment_id = "env_1";
  region = "us";
  signing_public_key = "publickeyv1_x";
  proxy_base_url = none;
}

abbrev spec_with_env : Fields → Value
spec_with_env env = object (
    field "serviceAccountName" (text "greeter")
      (field "containers" (array (cons (object (field "name" (text "app") env)) nil)) no_field))

abbrev bare : Value
bare = spec_with_env no_field

abbrev dressed : Value
dressed = spec_with_env (
    field "env"
      (array (
        cons (env_entry "RESTATE_INPROC_TUNNEL_NAME" "t1") (
          cons (env_entry "RESTATE_INPROC_ENVIRONMENT_ID" "env_1") (
            cons (env_entry "RESTATE_INPROC_CLOUD_REGION" "us")
              (cons (env_entry "RESTATE_INPROC_SIGNING_PUBLIC_KEY" "publickeyv1_x") nil)))))
      no_field)

abbrev account : String
account = "serviceAccountName"

injected : inject_in_process_tunnel_env bare "t1" params ≡ ok dressed
unfolding inject_in_process_tunnel_env inject_field inject_containers inject_container add_vars
    declares get set ◌>>=◌
injected = refl

inject_in_process_tunnel_env-AreInjected_example :
    AreInjected
      (tunnel_vars "t1" params)
      (containers_of "containers" bare)
      (containers_of "containers" dressed)
    × AreInjected
        (tunnel_vars "t1" params)
        (containers_of "initContainers" bare)
        (containers_of "initContainers" dressed)
    × ((account ≡ "containers")
        ⊎ (account ≡ "initContainers")
        ⊎ (get_of account dressed ≡ get_of account bare))
inject_in_process_tunnel_env-AreInjected_example =
    inject_in_process_tunnel_env-AreInjected bare dressed "t1" params account injected
