-- ===== src/Knative/Annotated.antt =====
-- What the annotations of a Configuration and of its pods say, and which containers are accepted.
use restate_operator.Base.{
  ◌≡◌, ◌⊎◌, ap, ◌∙◌, refl, Bool, true, String, Option, none, some, List, [], ◌∷◌, arith, lookup,
  or_insert, lookup-insert, lookup-remove, lookup-or_insert, if◌then◌else◌, unwrap_or, and_then,
  decimal_ℤ, any, str_eq, eq_iff,
}
use restate_operator.Resources.{RestateDeployment, KnativeDeploymentSpec}
use restate_operator.Knative.Template.{
  Texts, or_insert_some, owned_annotations, config_annotations, template_annotations,
}

-- A user's annotation, and else the one that the spec asks for.
abbrev pub or_default : Option String → Option String → Option String
or_default (some value) default = some value
or_default none default = default

abbrev pub managed_keys : List String
managed_keys =
    "autoscaling.knative.dev/min-scale" ∷ "autoscaling.knative.dev/max-scale"
    ∷ "autoscaling.knative.dev/target" ∷ "restate.dev/deployment" ∷ []

abbrev pub is_managed : String → Bool
is_managed key = any (λ k. str_eq k key) managed_keys

or_default-some : (o : Option String) (v : String) → some (unwrap_or o v) ≡ or_default o (some v)
or_default-some none v = refl
or_default-some (some u) v = refl

lookup-or_insert_some :
    (key other : String) (value : Option String) (entries : Texts)
    → lookup other (or_insert_some key value entries)
      ≡ (if str_eq key other then or_default (lookup key entries) value else lookup other entries)
lookup-or_insert_some key other none entries = ground (arith, eq_iff key other)
lookup-or_insert_some key other (some value) entries =
    ground (arith, lookup-or_insert key other value entries)

-- The annotations of the pods give each scaling bound as the user annotated it, and else as the spec
-- says, with a lower bound of 0 where neither does; they name the RestateDeployment; and any other
-- annotation is the user's.
pub template_annotations-lookup :
    (rsd : RestateDeployment) (knative : KnativeDeploymentSpec) (user : Option Texts) (key : String)
    → (lookup "autoscaling.knative.dev/min-scale" (template_annotations rsd knative user)
        ≡ or_default
            (lookup "autoscaling.knative.dev/min-scale" (unwrap_or user []))
            (some (unwrap_or (and_then knative.min_scale (λ n. some (decimal_ℤ n))) "0")))
      × (lookup "autoscaling.knative.dev/max-scale" (template_annotations rsd knative user)
          ≡ or_default
              (lookup "autoscaling.knative.dev/max-scale" (unwrap_or user []))
              (and_then knative.max_scale (λ n. some (decimal_ℤ n))))
      × (lookup "autoscaling.knative.dev/target" (template_annotations rsd knative user)
          ≡ or_default
              (lookup "autoscaling.knative.dev/target" (unwrap_or user []))
              (and_then knative.target (λ n. some (decimal_ℤ n))))
      × (lookup "restate.dev/deployment" (template_annotations rsd knative user) ≡ some rsd.name)
      × ((is_managed key ≡ true)
          ⊎ (lookup key (template_annotations rsd knative user) ≡ lookup key (unwrap_or user [])))
unfolding template_annotations
template_annotations-lookup rsd knative user key = (
  top "autoscaling.knative.dev/min-scale"
      ∙ target "autoscaling.knative.dev/min-scale"
      ∙ max "autoscaling.knative.dev/min-scale"
      ∙ min "autoscaling.knative.dev/min-scale"
      ∙ or_default-some (lookup "autoscaling.knative.dev/min-scale" given) lower,
  top "autoscaling.knative.dev/max-scale"
      ∙ target "autoscaling.knative.dev/max-scale"
      ∙ max "autoscaling.knative.dev/max-scale"
      ∙ ap (λ o. or_default o upper) (min "autoscaling.knative.dev/max-scale"),
  top "autoscaling.knative.dev/target"
      ∙ target "autoscaling.knative.dev/target"
      ∙ ap (λ o. or_default o load)
          (max "autoscaling.knative.dev/target" ∙ min "autoscaling.knative.dev/target"),
  top "restate.dev/deployment",
  others,
)
  where
    given : Texts
    given = unwrap_or user []

    lower : String
    lower = unwrap_or (and_then knative.min_scale (λ n. some (decimal_ℤ n))) "0"

    upper : Option String
    upper = and_then knative.max_scale (λ n. some (decimal_ℤ n))

    load : Option String
    load = and_then knative.target (λ n. some (decimal_ℤ n))

    bounded : Texts
    bounded = or_insert "autoscaling.knative.dev/min-scale" lower given

    capped : Texts
    capped = or_insert_some "autoscaling.knative.dev/max-scale" upper bounded

    loaded : Texts
    loaded = or_insert_some "autoscaling.knative.dev/target" load capped

    top :
        (k : String)
        → lookup k (template_annotations rsd knative user)
          ≡ (if str_eq "restate.dev/deployment" k then some rsd.name else lookup k loaded)
    top k = lookup-insert "restate.dev/deployment" k rsd.name loaded

    target :
        (k : String)
        → lookup k loaded ≡ (
            if str_eq "autoscaling.knative.dev/target" k
            then or_default (lookup "autoscaling.knative.dev/target" capped) load
            else lookup k capped)
    target k = lookup-or_insert_some "autoscaling.knative.dev/target" k load capped

    max :
        (k : String)
        → lookup k capped ≡ (
            if str_eq "autoscaling.knative.dev/max-scale" k
            then or_default (lookup "autoscaling.knative.dev/max-scale" bounded) upper
            else lookup k bounded)
    max k = lookup-or_insert_some "autoscaling.knative.dev/max-scale" k upper bounded

    min :
        (k : String)
        → lookup k bounded ≡ (
            if str_eq "autoscaling.knative.dev/min-scale" k
            then some (unwrap_or (lookup "autoscaling.knative.dev/min-scale" given) lower)
            else lookup k given)
    min k = lookup-or_insert "autoscaling.knative.dev/min-scale" k lower given

    others :
        (is_managed key ≡ true)
        ⊎ (lookup key (template_annotations rsd knative user) ≡ lookup key given)
    others = ground (arith, top key, target key, max key, min key)

-- The annotations of a Configuration give its tag and its RestateDeployment, and leave behind the
-- deadline of a removal, the two switches of the operator, and the annotations that are `kubectl`'s
-- and the Route's; the pod template is recorded if there is one to record.
pub config_annotations-lookup :
    (rsd : RestateDeployment) (tag : String) (pod_template : Option String)
    → (lookup "restate.dev/tag" (config_annotations rsd tag pod_template) ≡ some tag)
      × (lookup "restate.dev/deployment" (config_annotations rsd tag pod_template) ≡ some rsd.name)
      × (lookup "restate.dev/remove-version-at" (config_annotations rsd tag pod_template) ≡ none)
      × (lookup "restate.dev/reconcile" (config_annotations rsd tag pod_template) ≡ none)
      × (lookup "restate.dev/recreate-update-strategy" (config_annotations rsd tag pod_template)
          ≡ none)
      × (lookup "serving.knative.dev/rollout-duration" (config_annotations rsd tag pod_template)
          ≡ none)
      × (lookup "kubectl.kubernetes.io/last-applied-configuration"
            (config_annotations rsd tag pod_template)
          ≡ none)
      × (lookup "restate.dev/pod-template" (config_annotations rsd tag pod_template)
          ≡ or_default pod_template (lookup "restate.dev/pod-template" rsd.annotations))
unfolding config_annotations owned_annotations
config_annotations-lookup rsd tag none =
    simp (lookup-insert, lookup-remove) (refl, refl, refl, refl, refl, refl, refl, refl)
config_annotations-lookup rsd tag (some template) =
    simp (lookup-insert, lookup-remove) (refl, refl, refl, refl, refl, refl, refl, refl)
