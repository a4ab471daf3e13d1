-- ===== src/Rollout/Inject.antt =====
-- `inject_in_process_tunnel_env` of src/controllers/restatedeployment/reconcilers/replicaset.rs: the
-- environment variables of a tunnel, put into every container of a pod template that is JSON.
use restate_operator.Base.{
  Bool, false, ◌||◌, String, Option, none, some, List, [], ◌∷◌, str_eq, is_some_and, and_then,
  if◌then◌else◌, unwrap_or, concat,
}
use restate_operator.Errors.{Error, invalid_restate_config}
use restate_operator.Effects.{Result, ok, err}
use restate_operator.Fallible.{◌>>=◌}
use restate_operator.Cloud.InProcess.{InProcessTunnelParams}

-- `serde_json::Value`; a number is its text.
mutual
  pub data Value : Type 0 where
    null : Value
    boolean : Bool → Value
    number text : String → Value
    array : Values → Value
    object : Fields → Value

  pub data Values : Type 0 where
    nil : Values
    cons : Value → Values → Values

  pub data Fields : Type 0 where
    no_field : Fields
    field : String → Value → Fields → Fields

unfoldable pub get : String → Fields → Option Value
get key no_field = none
get key (field k v fields) = let rest = get key fields in if str_eq k key then some v else rest

-- The value of a key, which is put at the end if it is new.
unfoldable pub set : String → Value → Fields → Fields
set key value no_field = field key value no_field
set key value (field k v fields) =
    let rest = set key value fields in if str_eq k key then field k value fields else field k v rest

abbrev pub as_str : Value → Option String
as_str (text s) = some s
as_str _ = none

abbrev pub as_array : Value → Option Values
as_array (array vs) = some vs
as_array _ = none

abbrev pub get_of : String → Value → Option Value
get_of key (object fields) = get key fields
get_of key _ = none

unfoldable pub declares : String → Values → Bool
declares var nil = false
declares var (cons entry env) =
    is_some_and (and_then (get_of "name" entry) as_str) (λ name. str_eq name var)
    || declares var env

abbrev pub push : Values → Value → Values
push nil v = cons v nil
push (cons x vs) v = cons x (push vs v)

abbrev pub env_entry : String → String → Value
env_entry var value = object (field "name" (text var) (field "value" (text value) no_field))

-- The names and the values of what is injected.
abbrev pub tunnel_vars : String → InProcessTunnelParams → List (String × String)
tunnel_vars tunnel_name params =
    ("RESTATE_INPROC_TUNNEL_NAME", tunnel_name)
    ∷ ("RESTATE_INPROC_ENVIRONMENT_ID", params.environment_id)
    ∷ ("RESTATE_INPROC_CLOUD_REGION", params.region)
    ∷ ("RESTATE_INPROC_SIGNING_PUBLIC_KEY", params.signing_public_key)
    ∷ []

abbrev already_declared : String → String → Error
already_declared var container = invalid_restate_config (
    concat (
      "tunnelMode: in-process injects the environment variable `" ∷ var ∷ "`, but container '"
      ∷ container ∷ "' already declares it; remove it from the pod template" ∷ []))

unfoldable pub add_vars : String → List (String × String) → Values → Result Values
add_vars container [] env = ok env
add_vars container ((var, value) ∷ vars) env =
    let rest = add_vars container vars (push env (env_entry var value)) in
    if declares var env then err (already_declared var container) else rest

module _ (vars : List (String × String)) where
  abbrev pub with_env : String → Fields → Value → Result Value
  with_env container fields (array env) =
      add_vars container vars env >>= λ added. ok (object (set "env" (array added) fields))
  with_env container fields _ = err (
      invalid_restate_config
        (concat ("container '" ∷ container ∷ "' has a non-array `env` field" ∷ [])))

  abbrev pub env_of : Fields → Value
  env_of fields = unwrap_or (get "env" fields) (array nil)

  unfoldable pub inject_container : Value → Result Value
  inject_container (object fields) =
      with_env (unwrap_or (and_then (get "name" fields) as_str) "<unnamed>") fields (env_of fields)
  inject_container other = ok other

  unfoldable pub inject_containers : Values → Result Values
  inject_containers nil = ok nil
  inject_containers (cons container rest) = inject_container container >>= λ injected.
      inject_containers rest >>= λ others. ok (cons injected others)

  abbrev pub inject_into : String → Fields → Option Values → Result Value
  inject_into key fields none = ok (object fields)
  inject_into key fields (some containers) =
      inject_containers containers >>= λ injected. ok (object (set key (array injected) fields))

  -- The containers below a key; a pod spec without them is left to the API server.
  unfoldable pub inject_field : String → Value → Result Value
  inject_field key (object fields) = inject_into key fields (and_then (get key fields) as_array)
  inject_field key other = ok other

unfoldable pub inject_in_process_tunnel_env : Value → String → InProcessTunnelParams → Result Value
inject_in_process_tunnel_env spec tunnel_name params =
    inject_field (tunnel_vars tunnel_name params) "containers" spec
    >>= inject_field (tunnel_vars tunnel_name params) "initContainers"

-- The pod spec of a version; without a tunnel it is that of the RestateDeployment.
unfoldable pub template_spec :
    Option Value → String → Option InProcessTunnelParams → Result (Option Value)
template_spec (some spec) tunnel_name (some params) =
    inject_in_process_tunnel_env spec tunnel_name params >>= λ injected. ok (some injected)
template_spec spec tunnel_name _ = ok spec
