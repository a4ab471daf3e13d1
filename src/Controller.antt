-- ===== src/Controller.antt =====
-- `RestateDeployment::reconcile_status` of src/controllers/restatedeployment/controller.rs, with the
-- reconcile of the mode in it, and `latest_version_label_selector`.
pub mod Entry
use restate_operator.Base.{
  Bool-cases, ℕ, Bool, true, false, String, Option, none, some, [], ◌∷◌, ◌≡◌, ◌⊎◌, inl, inr, refl,
  if◌then◌else◌,
}
use restate_operator.Platform.{Chrono, Random}
use restate_operator.Resources.{
  RestateDeployment, RestateDeploymentStatus, ReplicaSet, Condition, is_knative,
  is_in_process_tunnel,
}
use restate_operator.Effects.{Run, Result, ok, err, panicked, Made}
use restate_operator.Calls.{Call, report_status}
use restate_operator.Deletion.Finalizer.{Action}
use restate_operator.ErrorPolicy.{ready_condition}
use restate_operator.Cloud.InProcess.{InProcessTunnelParams}
use restate_operator.Naming.{generate_pod_template_hash}
use restate_operator.Rollout.Reconcile.{
  Surroundings, tunnel, reconcile, HasRolledOut, reconcile-HasRolledOut,
}
use restate_operator.Knative.Apply.{KnativeSurroundings}
use restate_operator.Knative.Live.{HasServed, reconcile_knative-HasServed}
use restate_operator.Knative.Reconcile.{reconcile_knative}
use restate_operator.Status.{
  knative_outcome, status_of, Displays, reconcile_replicaset_status, reconcile_knative_status,
}
use restate_operator.Status.Ready.{
  reconcile_knative_status-HasReported, Succeeded, Failed, HasReported,
  reconcile_replicaset_status-HasReported,
}

-- `print_selector` is the label selector of the spec with this `pod-template-hash` in it, if it can
-- be printed, and `now` the time of the pass.
module _ (s : Surroundings) (chrono : Chrono) (random : Random) (display : Displays)
    (print_selector : String → Option String) (rsd : RestateDeployment) (now : ℕ) where
  unfoldable pub latest_version_label_selector : Option InProcessTunnelParams → Option String
  latest_version_label_selector params =
      print_selector (generate_pod_template_hash s.hashing rsd s.template params)

  -- None where the selector stays the one before.
  abbrev selector_of : Result (Option InProcessTunnelParams) → Option (Option String)
  selector_of (ok params) = some (latest_version_label_selector params)
  selector_of _ = none

  unfoldable pub reconcile_status : KnativeSurroundings → Run Call Action
  reconcile_status k =
      if is_knative rsd.deployment_mode
      then reconcile_knative_status chrono random display now (ready_condition rsd) s.told.world rsd
          (reconcile_knative k chrono rsd)
      else reconcile_replicaset_status chrono random display now (ready_condition rsd) s.told.world
          rsd (selector_of (tunnel s chrono rsd)) (reconcile s chrono rsd)

  module _ (k : KnativeSurroundings) where
    -- The outcome of the reconcile in Knative mode, and the status that it leaves.
    abbrev pub knative_pass : Run Call (Option ℕ) × RestateDeploymentStatus
    knative_pass =
        knative_outcome chrono random display now (ready_condition rsd) s.told.world rsd
          (reconcile_knative k chrono rsd)

    -- The version of the pass has rolled out or, in Knative mode, is served.
    abbrev pub HasDelivered : Type 0
    HasDelivered =
        if is_knative rsd.deployment_mode
        then HasServed k chrono rsd knative_pass.1
        else ((rs : ReplicaSet) × HasRolledOut s chrono rsd (reconcile s chrono rsd).calls rs)

    -- The reconcile of the mode has failed.
    abbrev pub HasFailed : Type 0
    HasFailed =
        if is_knative rsd.deployment_mode
        then Failed knative_pass.0.result
        else Failed (reconcile s chrono rsd).result

    -- A status with one condition: ready, of a version that is delivered, or not ready, of a
    -- reconcile that failed.
    abbrev pub TellsTruth : RestateDeploymentStatus → Type 0
    TellsTruth status =
        (c : Condition) × (status.conditions ≡ some (c ∷ []))
        × (c.type ≡ "Ready")
        × (((c.status ≡ "True") × HasDelivered) ⊎ ((c.status ≡ "False") × HasFailed))

    Succeeded-HasRolledOut :
        (outcome : Result (ReplicaSet × Option ℕ))
        → (reconcile s chrono rsd).result ≡ outcome
        → Succeeded outcome
        → (rs : ReplicaSet) × HasRolledOut s chrono rsd (reconcile s chrono rsd).calls rs
    Succeeded-HasRolledOut (ok a) e h = (a.0, reconcile-HasRolledOut s chrono rsd a.0 a.1 e)
    Succeeded-HasRolledOut (err e) k h = absurd h
    Succeeded-HasRolledOut panicked e h = absurd h

    Succeeded-HasServed :
        (outcome : Result (Option ℕ))
        → knative_pass.0.result ≡ outcome
        → Succeeded outcome
        → HasServed k chrono rsd knative_pass.1
    unfolding knative_outcome
    Succeeded-HasServed (ok next_removal) e h =
        elim (Bool-cases (is_in_process_tunnel rsd.restate)) [
          | inl refused ↦ cc
          | inr allowed ↦ rw allowed (
              reconcile_knative-HasServed k chrono rsd (status_of rsd) next_removal
                (rw allowed at e))
        ]
    Succeeded-HasServed (err e) q h = absurd h
    Succeeded-HasServed panicked e h = absurd h

    -- A pass over a RestateDeployment that succeeds has written a status whose one condition is
    -- `Ready`. If it is `True`, the version of this pass is delivered: in ReplicaSet mode it has
    -- rolled out, with its ReplicaSet created or adopted, the URL of its tunnel or Service, and the
    -- answer of Restate that it routes to it; in Knative mode its Configuration is up to date, its
    -- latest revision is ready and gets traffic, and Restate has answered that the deployment
    -- recorded on it is latest, or has registered the URL of its Route and routes to it. Otherwise it is `False` and the reconcile has failed.
    pub reconcile_status-TellsTruth :
        (a : Action)
        → (reconcile_status k).result ≡ ok a
        → (status : RestateDeploymentStatus) × Made
            (report_status status)
            (reconcile_status k).calls
          × TellsTruth status
    unfolding reconcile_status
    reconcile_status-TellsTruth a h = elim (Bool-cases (is_knative rsd.deployment_mode)) [
      | inl mode ↦
          let (status, made, (c, is, type, told, keeps)) =
            reconcile_knative_status-HasReported chrono random display now (ready_condition rsd)
              s.told.world rsd (reconcile_knative k chrono rsd) a (rw mode at h) in
          (
            status,
            rw mode made,
            (
              c,
              is,
              type,
              rw mode (elim told [
                | inl (ready, succeeded) ↦ inl (ready, Succeeded-HasServed _ refl succeeded)
                | inr (unready, failed) ↦ inr (unready, failed)
              ]),
            ),
          )
      | inr mode ↦
          let (status, made, (c, is, type, told, keeps)) =
            reconcile_replicaset_status-HasReported chrono random display now (ready_condition rsd)
              s.told.world rsd (selector_of (tunnel s chrono rsd)) (reconcile s chrono rsd) a
              (rw mode at h) in
          (
            status,
            rw mode made,
            (
              c,
              is,
              type,
              rw mode (elim told [
                | inl (ready, succeeded) ↦ inl (ready, Succeeded-HasRolledOut _ refl succeeded)
                | inr (unready, failed) ↦ inr (unready, failed)
              ]),
            ),
          )
    ]
