-- ===== src/Knative/Template.antt =====
-- What `build_configuration_spec` and `build_route_spec` of
-- src/controllers/restatedeployment/reconcilers/knative.rs put on the Configuration, its pods and the
-- Route, as maps of annotations and labels; the containers that they accept; and the tag.
-- `owned_annotations` is in src/controllers/mod.rs and `propagated_labels` in
-- src/controllers/restatedeployment/controller.rs.
use restate_operator.Base.{
  Bool, not, ◌||◌, String, Option, none, some, List, [], ◌∷◌, filter, any, is_empty, is_some_and,
  unwrap_or, insert, remove, or_insert, concat, decimal_ℤ, and_then, if◌then◌else◌,
}
use restate_operator.Errors.{invalid_restate_config}
use restate_operator.Resources.{RestateDeployment, KnativeDeploymentSpec}
use restate_operator.Effects.{Result, ok, err}
use restate_operator.Cloud.{starts_with}
use restate_operator.Naming.{Hashing, generate_pod_template_hash}
use restate_operator.Versions.{remove_version_at_annotation}
use restate_operator.Knative.{Container, tag_annotation}

abbrev pub Texts : Type 0
Texts = List (String × String)

-- The operator's own annotations stay behind.
unfoldable pub owned_annotations : Texts → Texts
owned_annotations annotations =
    remove "restate.dev/recreate-update-strategy" (remove "restate.dev/reconcile" annotations)

unfoldable pub propagated_labels : Texts → Texts
propagated_labels labels =
    filter (λ entry. not (starts_with entry.0 "applyset.kubernetes.io/")) labels

abbrev insert_some : String → Option String → Texts → Texts
insert_some key none entries = entries
insert_some key (some value) entries = insert key value entries

-- The annotations of the Configuration.
unfoldable pub config_annotations : RestateDeployment → String → Option String → Texts
unfolding owned_annotations
config_annotations rsd tag pod_template = insert_some "restate.dev/pod-template" pod_template (
    insert tag_annotation tag (
      insert "restate.dev/deployment" rsd.name (
        remove remove_version_at_annotation (
          remove "serving.knative.dev/rollout-duration" (
            remove "kubectl.kubernetes.io/last-applied-configuration"
              (owned_annotations rsd.annotations))))))

-- The annotations of the Route.
unfoldable pub route_annotations : RestateDeployment → Texts
unfolding owned_annotations
route_annotations rsd =
    insert "restate.dev/deployment" rsd.name (
      remove "kubectl.kubernetes.io/last-applied-configuration" (owned_annotations rsd.annotations))

unfoldable pub config_labels : Texts → Texts
unfolding propagated_labels
config_labels labels =
    insert "app.kubernetes.io/managed-by" "restate-operator" (propagated_labels labels)

unfoldable pub route_labels : Texts → Texts
unfolding config_labels
route_labels labels =
    insert "networking.knative.dev/visibility" "cluster-local" (config_labels labels)

-- The labels of the pods.
unfoldable pub template_labels : Option String → Option Texts → Texts
template_labels none user =
    insert "app.kubernetes.io/managed-by" "restate-operator" (unwrap_or user [])
template_labels (some cluster) user =
    insert (concat ("allow.restate.dev/" ∷ cluster ∷ [])) "true"
      (insert "app.kubernetes.io/managed-by" "restate-operator" (unwrap_or user []))

abbrev pub or_insert_some : String → Option String → Texts → Texts
or_insert_some key none entries = entries
or_insert_some key (some value) entries = or_insert key value entries

-- The annotations of the pods: the user's before the defaults of the spec.
unfoldable pub template_annotations :
    RestateDeployment → KnativeDeploymentSpec → Option Texts → Texts
template_annotations rsd knative user = insert "restate.dev/deployment" rsd.name (
    or_insert_some "autoscaling.knative.dev/target"
      (and_then knative.target (λ n. some (decimal_ℤ n)))
      (or_insert_some "autoscaling.knative.dev/max-scale"
        (and_then knative.max_scale (λ n. some (decimal_ℤ n)))
        (or_insert "autoscaling.knative.dev/min-scale"
          (unwrap_or (and_then knative.min_scale (λ n. some (decimal_ℤ n))) "0")
          (unwrap_or user []))))

abbrev pub has_ports : Container → Bool
has_ports c = is_some_and c.ports (λ ports. not (is_empty ports))

-- A port whose name hints at a protocol that Knative accepts.
abbrev pub is_hinted : Option String → Bool
is_hinted name = is_some_and name (λ n. starts_with n "h2c" || starts_with n "http1")

abbrev validate_ports : List Container → Result (Unit {0})
validate_ports [] = err (
    invalid_restate_config
      "No container defines ports. Restate requires an explicit traffic port definition with a valid Knative protocol hint prefix ('h2c...' or 'http1...').")
validate_ports (c ∷ []) =
    if any is_hinted (unwrap_or c.ports [])
    then ok tt
    else err (
        invalid_restate_config (
          concat (
            "Container '"
            ∷ unwrap_or c.name "unknown"
            ∷ "' defines ports but none have a valid Knative protocol hint prefix ('h2c...' or 'http1...'). Restate requires an explicit traffic port definition."
            ∷ [])))
validate_ports (c ∷ d ∷ cs) =
    err (invalid_restate_config "Only one container is allowed to define ports when using Knative.")

unfoldable pub validate_knative_containers : List Container → Result (Unit {0})
validate_knative_containers containers = validate_ports (filter has_ports containers)

-- The tag that the user has given, or the hash of the template.
unfoldable pub determine_tag : Hashing → RestateDeployment → String → String
determine_tag hashing rsd template =
    unwrap_or (and_then rsd.knative (λ k. k.tag))
      (generate_pod_template_hash hashing rsd template none)
