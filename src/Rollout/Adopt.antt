-- ===== src/Rollout/Adopt.antt =====
-- The first part of `RestateDeployment::reconcile` in
-- src/controllers/restatedeployment/controller.rs: the ReplicaSet of the current version is
-- created, or an existing one is adopted.
use restate_operator.Versions.{unschedule_version_removal}
use restate_operator.Base.{
  Bool, ◌&&◌, String, Option, none, some, List, [], ◌∷◌, str_eq, is_some_and, if◌then◌else◌, lookup,
}
use restate_operator.Errors.{KubeError, api, kube_error, hash_collision}
use restate_operator.Resources.{RestateDeployment, ReplicaSet, OwnerReference}
use restate_operator.Effects.{Run, Result, ok, err, panicked, pure, fail, ◌>>=◌, ◌>>◌}
use restate_operator.Calls.{
  Call, create_replicaset, get_replicaset, propagate_replicas, propagate_annotations, World,
  kube_call,
}
use restate_operator.Rollout.Inject.{Value}

-- What `Api::create` and `Api::get` of a ReplicaSet answer.
pub data ReplicaSetReply : Type 0 where
  found : ReplicaSet → ReplicaSetReply
  refused : KubeError → ReplicaSetReply

pub record ReplicaSetWorld : Type 0 where
  pub create : String → ReplicaSetReply
  pub get : String → ReplicaSetReply

abbrev pub pod_template_annotation : String
pod_template_annotation = "restate.dev/pod-template"

abbrev pub first_owner : List OwnerReference → Option OwnerReference
first_owner [] = none
first_owner (r ∷ rs) = some r

-- A ReplicaSet that this RestateDeployment controls and that was made from the same template.
unfoldable pub is_ours : RestateDeployment → String → ReplicaSet → Bool
is_ours rsd template rs =
    is_some_and (first_owner rs.metadata.owner_references) (λ owner. str_eq owner.uid rsd.uid)
    && is_some_and (lookup pod_template_annotation rs.metadata.annotations) (λ t. str_eq t template)

abbrev pub reply_result : ReplicaSetReply → Result ReplicaSet
reply_result (found rs) = ok rs
reply_result (refused e) = err (kube_error e)

module _ (w : World) (versions : ReplicaSetWorld) (rsd : RestateDeployment)
    (name template : String) where
  abbrev pub get_existing : Run Call ReplicaSet
  get_existing = record {
    calls = get_replicaset name ∷ [];
    result = reply_result (versions.get name);
  }

  -- Scaled and annotated as the RestateDeployment is, and staying.
  unfoldable pub adopt : ReplicaSet → Run Call ReplicaSet
  adopt existing =
      if is_ours rsd template existing
      then (do
        kube_call w (propagate_replicas name rsd.replicas)
        kube_call w (propagate_annotations name)
        unschedule_version_removal w existing.metadata
        pure existing)
      else fail hash_collision

  unfoldable pub after_create : Result ReplicaSet → Run Call ReplicaSet
  after_create (ok rs) = pure rs
  after_create (err (kube_error (api code reason message))) =
      if str_eq reason "AlreadyExists"
      then get_existing >>= adopt
      else fail (kube_error (api code reason message))
  after_create (err e) = fail e
  after_create panicked = record { calls = []; result = panicked }

  -- The pod spec may fail to take the environment of the tunnel.
  unfoldable pub ensure_replicaset : Result (Option Value) → Run Call ReplicaSet
  ensure_replicaset (ok pod_spec) = do
    created ← record {
      calls = create_replicaset name ∷ [];
      result = ok (reply_result (versions.create name));
    }
    after_create created
  ensure_replicaset (err e) = fail e
  ensure_replicaset panicked = record { calls = []; result = panicked }
