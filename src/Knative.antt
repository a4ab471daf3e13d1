-- ===== src/Knative.antt =====
-- Knative mode: src/controllers/restatedeployment/reconcilers/knative.rs, and the fields of the
-- Configurations, Revisions and Routes of src/resources/knative/ that it reads.
pub mod Cleanup
pub mod Removed
pub mod Template
pub mod Annotated
pub mod Ready
pub mod Endpoint
pub mod Register
pub mod Apply
pub mod Reconcile
pub mod Registered
pub mod Reset
pub mod Live
use restate_operator.Base.{
  ℤ, pos, Bool, true, false, not, ◌&&◌, String, Option, none, some, List, str_eq, is_some,
  is_some_and, any, filter, lookup, unwrap_or, and_then,
}
use restate_operator.Resources.{ObjectMeta}
use restate_operator.Versions.{namespace_of, is_owner, sort_by_creation}

-- A port of a container, by its name, and a container.
pub record Container : Type 0 where
  pub name : Option String
  pub ports : Option (List (Option String))

pub record ConfigurationStatus : Type 0 where
  pub observed_generation : Option ℤ
  pub latest_created_revision_name : Option String

-- `template_annotations` are those of `spec.template.metadata`, if it has any.
pub record Configuration : Type 0 where
  pub metadata : ObjectMeta
  pub template_annotations : Option (List (String × String))
  pub status : Option ConfigurationStatus

-- Kubernetes' own condition, the fields that are read.
pub record ObjectCondition : Type 0 where
  pub type : String
  pub status : String
  pub reason : String
  pub message : String

pub record RevisionStatus : Type 0 where
  pub conditions : Option (List ObjectCondition)
  pub desired_replicas : Option ℤ
  pub actual_replicas : Option ℤ

pub record Revision : Type 0 where
  pub metadata : ObjectMeta
  pub status : Option RevisionStatus

-- `traffic` is the name of the revision of each target.
pub record RouteStatus : Type 0 where
  pub conditions : Option (List ObjectCondition)
  pub traffic : Option (List (Option String))
  pub url : Option String

pub record Route : Type 0 where
  pub metadata : ObjectMeta
  pub status : Option RouteStatus

abbrev pub tag_annotation : String
tag_annotation = "restate.dev/tag"

unfoldable pub get_configuration_tag : Configuration → Option String
get_configuration_tag config = lookup tag_annotation config.metadata.annotations

-- The test of the closure that is given to `configuration_store.find`.
unfoldable pub is_old_configuration : String → String → Option String → Configuration → Bool
unfolding get_configuration_tag
is_old_configuration namespace rsd_uid active_tag config =
    str_eq (namespace_of config.metadata.namespace) namespace
    && is_some_and (get_configuration_tag config)
        (λ tag. not (is_some_and active_tag (λ active. str_eq tag active)))
    && not (is_some config.metadata.deletion_timestamp)
    && any (is_owner rsd_uid) config.metadata.owner_references

-- The Configurations in the order in which the loop visits them.
unfoldable pub old_configurations :
    String → String → Option String → List Configuration → List Configuration
old_configurations namespace rsd_uid active_tag store =
    sort_by_creation (λ config. config.metadata)
      (filter (is_old_configuration namespace rsd_uid active_tag) store)
