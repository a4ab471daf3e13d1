-- ===== src/Versions.antt =====
-- What the cleanup of old ReplicaSets and that of old Knative Configurations have in common: both
-- are a loop over the versions of a RestateDeployment, newest first, which share the decisions of
-- src/controllers/restatedeployment/cleanup.rs. `cleanup_old_replicasets` is in
-- src/controllers/restatedeployment/reconcilers/replicaset.rs and `cleanup_old_configurations` in
-- knative.rs beside it. A version is known by the metadata of its object.
pub mod Order
pub mod Outcome
pub mod Spared
use restate_operator.Base.{
  ℕ, Bool, true, false, not, ◌&&◌, ◌||◌, ◌++◌, ◌==◌, String, Option, none, some, List, [], ◌∷◌, ltb,
  if◌then◌else◌, and_then, is_some, is_some_and, is_empty, lookup, str_eq,
}
use restate_operator.Errors.{Error, admin_call_failed}
use restate_operator.Platform.{Chrono}
use restate_operator.Resources.{RestateDeployment, ObjectMeta, OwnerReference, drain_delay_seconds}
use restate_operator.Effects.{Run, Result, err, pure, fail, panic, answered, ◌>>=◌, ◌>>◌}
use restate_operator.Calls.{
  Call, unschedule, schedule, deregister, AdminReply, unsent, response, World, kube_call,
  check_admin_response,
}
use restate_operator.Cleanup.{
  CleanupMode, DeploymentUsage, DeploymentUsageMap, BlockingVersion, CleanupOutcome,
  skips_drain_delay, in_flight_invocations,
}

abbrev pub deployment_id_annotation : String
deployment_id_annotation = "restate.dev/deployment-id"

abbrev pub remove_version_at_annotation : String
remove_version_at_annotation = "restate.dev/remove-version-at"

-- An object with no namespace, or an empty one, is in `default`.
abbrev pub namespace_of : Option String → String
namespace_of none = "default"
namespace_of (some ns) = if str_eq ns "" then "default" else ns

abbrev pub is_owner : String → OwnerReference → Bool
is_owner rsd_uid reference =
    str_eq reference.uid rsd_uid && str_eq reference.kind "RestateDeployment"

-- `b.creation_timestamp > a.creation_timestamp`; an object without one is the oldest.
abbrev pub is_newer : Option ℕ → Option ℕ → Bool
is_newer none a = false
is_newer (some b) none = true
is_newer (some b) (some a) = ltb a b

module _ {K : Type 0} (metadata_of : K → ObjectMeta) where
  -- A stable sort, newest first: a version goes behind those that are as new.
  unfoldable pub insert_by_creation : K → List K → List K
  insert_by_creation k [] = k ∷ []
  insert_by_creation k (x ∷ xs) =
      if is_newer (metadata_of x).creation_timestamp (metadata_of k).creation_timestamp
      then x ∷ insert_by_creation k xs
      else k ∷ x ∷ xs

  unfoldable pub sort_by_creation : List K → List K
  unfolding insert_by_creation
  sort_by_creation [] = []
  sort_by_creation (k ∷ rest) = insert_by_creation k (sort_by_creation rest)

-- What the loop keeps track of.
pub record Progress : Type 0 where
  pub blocking : List BlockingVersion
  pub abandoned : List BlockingVersion
  pub historic_count : ℕ
  pub next_removal : Option ℕ

abbrev pub first_progress : Progress
first_progress = record { blocking = []; abandoned = []; historic_count = 0; next_removal = none }

abbrev pub sooner : Option ℕ → ℕ → ℕ
sooner none remove_at = remove_at
sooner (some next_removal) remove_at =
    if ltb remove_at next_removal then remove_at else next_removal

abbrev pub deployment_id_of : ObjectMeta → Option String
deployment_id_of m = lookup deployment_id_annotation m.annotations

-- What Restate believes of a version, if it knows it.
abbrev pub usage_of : DeploymentUsageMap → ObjectMeta → Option DeploymentUsage
usage_of deployments m = and_then (deployment_id_of m) (λ id. lookup id deployments)

abbrev pub blocking_version : ObjectMeta → DeploymentUsage → BlockingVersion
blocking_version m usage = record {
  name = m.name;
  deployment_id = deployment_id_of m;
  usage = usage;
}

abbrev pub error_of {ℓ} : {A : Type ℓ} → Result A → Option Error
error_of (err e) = some e
error_of _ = none

abbrev pub record_abandoned :
    ObjectMeta → Option DeploymentUsage → List BlockingVersion → List BlockingVersion
record_abandoned m none abandoned = abandoned
record_abandoned m (some usage) abandoned =
    if ltb 0 (in_flight_invocations usage)
    then abandoned ++ blocking_version m usage ∷ []
    else abandoned

abbrev pub retain_or_remove : Bool → Run Call Progress → Run Call Progress → Run Call Progress
retain_or_remove retain keep remove = if retain then keep else remove

module _ (w : World) where
  unfoldable pub unschedule_version_removal : ObjectMeta → Run Call (Unit {0})
  unschedule_version_removal m =
      if is_some (lookup remove_version_at_annotation m.annotations)
      then kube_call w (unschedule m.name)
      else pure tt

  -- Deregistration is idempotent: a 404 is success.
  abbrev pub deregistration_error : AdminReply → Option Error
  deregistration_error (unsent e) = some (admin_call_failed e)
  deregistration_error (response status url body) =
      if status == 404 then none else error_of (check_admin_response status url body)

  abbrev send_deregister : Option Error → String → Run Call (Unit {0})
  send_deregister (some e) id = fail e
  send_deregister none id =
      answered (deregister id) (deregistration_error (w.admin (deregister id)))

  -- `if deployment_exists { ... }`
  abbrev pub deregister_if_known : Option DeploymentUsage → Option String → Run Call (Unit {0})
  deregister_if_known (some usage) (some id) = send_deregister (w.unbuildable (deregister id)) id
  deregister_if_known _ _ = pure tt

  module _ (chrono : Chrono) where
    abbrev stamp : String → Option ℕ → Run Call ℕ
    stamp name none = panic
    stamp name (some remove_at) = do kube_call w (schedule name remove_at); pure remove_at

    -- `schedule_version_removal`; a date out of range is a failed `expect`.
    unfoldable pub schedule_version_removal : String → ℕ → Run Call ℕ
    schedule_version_removal name drain_delay =
        stamp name (chrono.add_seconds (w.stamped_at name) drain_delay)

    -- A version that Restate knows and that is not due: its deadline is kept, or set.
    unfoldable pub wait_out :
        RestateDeployment → ObjectMeta → Option ℕ → Progress → Run Call Progress
    unfolding schedule_version_removal
    wait_out rsd m (some remove_at) p =
        pure (record p { next_removal = some (sooner p.next_removal remove_at) })
    wait_out rsd m none p = do
      remove_at ← schedule_version_removal m.name (drain_delay_seconds rsd.restate)
      pure (record p { next_removal = some (sooner p.next_removal remove_at) })

    abbrev pub remove_at_of : ObjectMeta → Option ℕ
    remove_at_of m =
        and_then (lookup remove_version_at_annotation m.annotations) chrono.parse_rfc3339

    -- Whether the first arm of the loop's match is taken.
    abbrev pub is_due : CleanupMode → ObjectMeta → Option DeploymentUsage → Bool
    is_due mode m deployment =
        is_some_and (remove_at_of m) (λ t. ltb t w.now)
        || skips_drain_delay mode
        || not (is_some deployment)

    abbrev pub outcome_of : Progress → Option ℕ → CleanupOutcome
    outcome_of p next = record {
      blocking = p.blocking;
      next_removal = next;
      abandoned = p.abandoned;
    }

    abbrev poll_again : Progress → Option ℕ → Run Call CleanupOutcome
    poll_again p none = panic
    poll_again p (some t) = pure (outcome_of p (some t))

    -- With versions still in use and no removal scheduled, look again in 10 seconds.
    abbrev poll_if_blocked : Progress → Bool → Option ℕ → Run Call CleanupOutcome
    poll_if_blocked p false none = poll_again p (chrono.add_seconds w.ended_at 10)
    poll_if_blocked p _ next = pure (outcome_of p next)

    unfoldable pub finish : Progress → Run Call CleanupOutcome
    finish p = poll_if_blocked p (is_empty p.blocking) p.next_removal

-- The loop, for what is done with one version.
unfoldable pub visit_each :
    {K : Type 0} → (K → Progress → Run Call Progress) → List K → Progress → Run Call Progress
visit_each visit [] p = pure p
visit_each visit (k ∷ rest) p = do p' ← visit k p; visit_each visit rest p'

-- The loop and what follows it.
unfoldable pub visit_and_finish :
    {K : Type 0}
    → World
    → Chrono
    → (K → Progress → Run Call Progress)
    → List K
    → Run Call CleanupOutcome
unfolding visit_each
visit_and_finish w chrono visit versions = do
  p ← visit_each visit versions first_progress
  finish w chrono p
