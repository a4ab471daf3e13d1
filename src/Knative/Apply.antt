-- ===== src/Knative/Apply.antt =====
-- The Configuration and the Route of the current tag, in `reconcile_knative`,
-- `reconcile_configuration` and `reconcile_route` of
-- src/controllers/restatedeployment/reconcilers/knative.rs.
use restate_operator.Base.{
  Bool, not, ◌&&◌, String, Option, List, [], ◌∷◌, find, str_eq, is_some, is_some_and, if◌then◌else◌,
  and_then, concat, lookup,
}
use restate_operator.Errors.{KubeError, kube_error, hash_collision, invalid_restate_config}
use restate_operator.Platform.{Chrono}
use restate_operator.Resources.{RestateDeployment}
use restate_operator.Effects.{Run, Result, ok, err, panicked, pure, given, ◌>>=◌, ◌>>◌}
use restate_operator.Calls.{Call}
use restate_operator.Cloud.{UrlLibrary}
use restate_operator.Endpoints.{CloudStore}
use restate_operator.Naming.{Hashing}
use restate_operator.Rollout.Flow.{RolloutWorld}
use restate_operator.Versions.{unschedule_version_removal}
use restate_operator.Knative.{Configuration, Revision, Route, Container}
use restate_operator.Knative.Template.{determine_tag, validate_knative_containers}

-- What `Api::patch` of a Configuration and of a Route answers.
pub data Applied (A : Type 0) : Type 0 where
  applied : A → Applied A
  refused : KubeError → Applied A

-- What a pass is given besides the RestateDeployment. `template` is its pod template as JSON, and
-- `containers` those of its pod spec, or why it cannot be read as that of a Configuration.
pub record KnativeSurroundings : Type 0 where
  pub told : RolloutWorld
  pub apply_configuration : String → Applied Configuration
  pub apply_route : String → Applied Route
  pub url : UrlLibrary
  pub cluster_dns : String
  pub clouds : CloudStore
  pub hashing : Hashing
  pub namespace : String
  pub configurations : List Configuration
  pub revisions : List Revision
  pub template : String
  pub containers : Result (List Container)

abbrev pub apply_result : {A : Type 0} → Applied A → Result A
apply_result (applied a) = ok a
apply_result (refused e) = err (kube_error e)

-- `Store::get` of an `ObjectRef` within a namespace.
abbrev pub in_namespace : String → Option String → Bool
in_namespace namespace o = is_some_and o (λ ns. str_eq ns namespace)

module _ (s : KnativeSurroundings) (chrono : Chrono) (rsd : RestateDeployment) where
  abbrev pub tag : String
  tag = determine_tag s.hashing rsd s.template

  -- The Configuration and the Route have the same name.
  abbrev pub tagged_name : String
  tagged_name = concat (rsd.name ∷ "-" ∷ tag ∷ [])

  abbrev pub has_own_tag : Bool
  has_own_tag = is_some (and_then rsd.knative (λ k. k.tag))

  unfoldable pub find_configuration : Option Configuration
  find_configuration =
      find
        (λ c. str_eq c.metadata.name tagged_name && in_namespace s.namespace c.metadata.namespace)
        s.configurations

  abbrev collides : Option Configuration → Bool
  collides existing = is_some_and existing (λ c. not (
      is_some_and (lookup "restate.dev/pod-template" c.metadata.annotations)
        (λ t. str_eq t s.template)))

  -- A generated tag that is taken by another template.
  unfoldable pub check_collision : Result (Unit {0})
  unfolding find_configuration
  check_collision =
      if not has_own_tag && collides find_configuration then err hash_collision else ok tt

  abbrev validate_containers : Result (List Container) → Result (Unit {0})
  validate_containers (ok containers) = validate_knative_containers containers
  validate_containers (err e) = err e
  validate_containers panicked = panicked

  -- The errors of `build_configuration_spec`.
  unfoldable pub build_configuration : Result (Unit {0})
  build_configuration =
      if is_some rsd.knative
      then validate_containers s.containers
      else err (invalid_restate_config "Missing knative spec")

  abbrev apply_configuration_call : Run Call Configuration
  apply_configuration_call = record {
    calls = Call.apply_configuration tagged_name ∷ [];
    result = apply_result (s.apply_configuration tagged_name);
  }

  -- A Configuration that is wanted again is no longer due for removal.
  unfoldable pub reconcile_configuration : Run Call Configuration
  reconcile_configuration = do
    given build_configuration
    config ← apply_configuration_call
    unschedule_version_removal s.told.world config.metadata
    pure config

  unfoldable pub reconcile_route : Run Call Route
  reconcile_route = record {
    calls = Call.apply_route tagged_name ∷ [];
    result = apply_result (s.apply_route tagged_name);
  }
