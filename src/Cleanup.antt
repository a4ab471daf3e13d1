-- ===== src/Cleanup.antt =====
-- src/controllers/restatedeployment/cleanup.rs: the policy decisions that the ReplicaSet and the
-- Knative cleanup share. The SQL texts of `deployment_usage_query` are not modelled, only which
-- of the two is asked for.
pub mod Usage
pub mod Modes
use restate_operator.Base.{
  ℕ, ℤ, ◌+◌, ◌%◌, ◌^◌, min, max, Bool, true, false, ◌||◌, ◌&&◌, not, String, Option, none, some,
  List, [], ◌∷◌, map, ltb, leb, ltb_ℤ, pos, max_zero, if◌then◌else◌, and_then, lookup, insert,
  concat, join, decimal,
}
use restate_operator.Platform.{secs, Chrono}
use restate_operator.Resources.{
  RestateDeployment, DeletePolicy, OnTimeout, delete_policy, drain_on_timeout,
  drain_timeout_seconds,
}
use restate_operator.Retry.{backoff}

pub data CleanupMode : Type 0 where
  rollout deleting force_deleting : CleanupMode

module _ (chrono : Chrono) where
  unfoldable pub drain_deadline : RestateDeployment → Option ℕ
  drain_deadline rsd =
      and_then rsd.deletion_timestamp
        (λ deleted_at. chrono.add_seconds deleted_at (drain_timeout_seconds rsd.restate))

  -- `deadline <= Utc::now()` of a deadline that there may not be
  abbrev pub is_reached : Option ℕ → ℕ → Bool
  is_reached none now = false
  is_reached (some deadline) now = leb deadline now

  abbrev mode_on_timeout : OnTimeout → Bool → CleanupMode
  mode_on_timeout OnTimeout.hold reached = deleting
  mode_on_timeout OnTimeout.force reached = if reached then force_deleting else deleting

  abbrev mode_by_policy : DeletePolicy → OnTimeout → Bool → CleanupMode
  mode_by_policy DeletePolicy.force on_timeout reached = force_deleting
  mode_by_policy DeletePolicy.drain on_timeout reached = mode_on_timeout on_timeout reached

  abbrev mode_if_deleted : Option ℕ → CleanupMode → CleanupMode
  mode_if_deleted none mode = rollout
  mode_if_deleted (some deleted_at) mode = mode

  -- `CleanupMode::for_rsd` at the time `now`
  unfoldable pub for_rsd : RestateDeployment → ℕ → CleanupMode
  for_rsd rsd now = mode_if_deleted rsd.deletion_timestamp (
      mode_by_policy (delete_policy rsd.restate) (drain_on_timeout rsd.restate)
        (is_reached (drain_deadline rsd) now))

abbrev pub is_deleting : CleanupMode → Bool
is_deleting rollout = false
is_deleting _ = true

abbrev pub skips_drain_delay : CleanupMode → Bool
skips_drain_delay force_deleting = true
skips_drain_delay _ = false

abbrev pub needs_unpinned_count : CleanupMode → Bool
needs_unpinned_count deleting = true
needs_unpinned_count _ = false

-- The counts are u64.
pub record DeploymentUsage : Type 0 where
  pub latest_for_service : Bool
  pub pinned_invocations : ℕ
  pub unpinned_invocations : ℕ

abbrev pub DeploymentUsageMap : Type 0
DeploymentUsageMap = List (String × DeploymentUsage)

-- `existing.merge(usage)`
unfoldable pub merge : DeploymentUsage → DeploymentUsage → DeploymentUsage
merge u v = record {
  latest_for_service = u.latest_for_service || v.latest_for_service;
  pinned_invocations = max u.pinned_invocations v.pinned_invocations;
  unpinned_invocations = max u.unpinned_invocations v.unpinned_invocations;
}

-- The addition of two u64 wraps in a release build.
unfoldable pub in_flight_invocations : DeploymentUsage → ℕ
in_flight_invocations u = (u.pinned_invocations + u.unpinned_invocations) % 2 ^ 64

unfoldable pub is_active : DeploymentUsage → CleanupMode → Bool
is_active u force_deleting = false
is_active u deleting = ltb 0 (in_flight_invocations u)
is_active u rollout = u.latest_for_service || ltb 0 (in_flight_invocations u)

pub record DeploymentUsageRow : Type 0 where
  pub deployment_id : String
  pub latest_for_service : Bool
  pub pinned_invocations : ℤ
  pub unpinned_invocations : ℤ

abbrev pub usage_of_row : DeploymentUsageRow → DeploymentUsage
usage_of_row row = record {
  latest_for_service = row.latest_for_service;
  pinned_invocations = max_zero row.pinned_invocations;
  unpinned_invocations = max_zero row.unpinned_invocations;
}

-- `and_modify(merge).or_insert(usage)`
abbrev pub merge_into : Option DeploymentUsage → DeploymentUsage → DeploymentUsage
merge_into none usage = usage
merge_into (some existing) usage = merge existing usage

unfoldable pub absorb : DeploymentUsageMap → List DeploymentUsageRow → DeploymentUsageMap
absorb usage_by_deployment [] = usage_by_deployment
absorb usage_by_deployment (row ∷ rows) =
    absorb
      (insert row.deployment_id
        (merge_into (lookup row.deployment_id usage_by_deployment) (usage_of_row row))
        usage_by_deployment)
      rows

-- `DeploymentUsageRows::into_map`
unfoldable pub into_map : List DeploymentUsageRow → DeploymentUsageMap
unfolding absorb
into_map rows = absorb [] rows

unfoldable pub blocked_deletion_requeue : ℕ → Option ℕ → ℕ
blocked_deletion_requeue blocked_for none = backoff blocked_for
blocked_deletion_requeue blocked_for (some until_deadline) =
    min (backoff blocked_for) (max until_deadline (secs 1))

pub record BlockingVersion : Type 0 where
  pub name : String
  pub deployment_id : Option String
  pub usage : DeploymentUsage

pub record CleanupOutcome : Type 0 where
  pub blocking : List BlockingVersion
  pub next_removal : Option ℕ
  pub abandoned : List BlockingVersion

abbrev describe_both : BlockingVersion → String
describe_both v = concat (
    v.name
    ∷ " ("
    ∷ decimal v.usage.pinned_invocations
    ∷ " pinned, "
    ∷ decimal v.usage.unpinned_invocations
    ∷ " unpinned invocations)"
    ∷ [])

unfoldable pub describe_blocking_versions : List BlockingVersion → String
describe_blocking_versions blocking = join ", " (map describe_both blocking)

unfoldable pub describe_abandoned_versions : List BlockingVersion → String
describe_abandoned_versions abandoned = join ", " (
    map
      (λ v.
        if ltb 0 v.usage.unpinned_invocations
        then describe_both v
        else concat
            (v.name ∷ " (" ∷ decimal v.usage.pinned_invocations ∷ " pinned invocations)" ∷ []))
      abandoned)

-- `historic_count` is a count of versions, `revision_history_limit` an i32.
unfoldable pub retain_for_rollback : CleanupMode → ℕ → ℤ → Bool
retain_for_rollback mode historic_count revision_history_limit =
    not (is_deleting mode) && ltb_ℤ (pos historic_count) revision_history_limit
