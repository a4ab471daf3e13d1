-- ===== src/Deletion/Report.antt =====
-- What a deletion reports: `deletion_status`, `drain_overdue`, `suspension_to_clear`,
-- `blocked_for` and `until_drain_deadline` of src/controllers/restatedeployment/controller.rs.
use restate_operator.Base.{
  ℕ, ◌+◌, ◌-◌, ◌%◌, ◌^◌, ℤ, pos, negsuc, Bool, true, false, ◌&&◌, ◌||◌, not, String, Option, none,
  some, List, [], ◌∷◌, map, filter, any, ltb, if◌then◌else◌, str_eq, and_then, is_some_and,
  unwrap_or,
}
use restate_operator.Platform.{Chrono}
use restate_operator.Resources.{
  RestateDeployment, RestateDeploymentStatus, Condition, DeletePolicy, OnTimeout, DeletionPhase,
  DeletionStatus, PendingInvocations, ReconciliationState, delete_policy, drain_on_timeout,
}
use restate_operator.Cleanup.{BlockingVersion, drain_deadline, is_reached, in_flight_invocations}

abbrev pub reconciling_condition : String
reconciling_condition = "Reconciling"

abbrev pub is_drain : DeletePolicy → Bool
is_drain DeletePolicy.drain = true
is_drain DeletePolicy.force = false

abbrev pub is_hold : OnTimeout → Bool
is_hold OnTimeout.hold = true
is_hold OnTimeout.force = false

-- `u64 as i64`
abbrev pub as_i64 : ℕ → ℤ
as_i64 n = if ltb n (2 ^ 63) then pos n else negsuc (2 ^ 64 - 1 - n)

-- A sum of i64 wraps in a release build, so the u64 counts may be added first.
abbrev pub total_in_flight : List BlockingVersion → ℕ
total_in_flight [] = 0
total_in_flight (v ∷ rest) = (in_flight_invocations v.usage + total_in_flight rest) % 2 ^ 64

abbrev pub pending_of : BlockingVersion → PendingInvocations
pending_of v = record {
  version = v.name;
  deployment_id = v.deployment_id;
  pinned = as_i64 v.usage.pinned_invocations;
  unpinned = as_i64 v.usage.unpinned_invocations;
}

module _ (chrono : Chrono) where
  unfoldable pub drain_overdue : RestateDeployment → ℕ → Bool
  drain_overdue rsd now =
      is_drain (delete_policy rsd.restate)
      && is_hold (drain_on_timeout rsd.restate)
      && is_reached chrono (drain_deadline chrono rsd) now

  unfoldable pub deletion_status :
      RestateDeployment → DeletionPhase → String → List BlockingVersion → DeletionStatus
  deletion_status rsd phase message blocking = record {
    policy = delete_policy rsd.restate;
    phase = phase;
    started_at = rsd.deletion_timestamp;
    deadline = if is_drain (delete_policy rsd.restate) then drain_deadline chrono rsd else none;
    on_timeout =
        if is_drain (delete_policy rsd.restate) then some (drain_on_timeout rsd.restate) else none;
    message = some message;
    total_pending_invocations = as_i64 (total_in_flight blocking);
    pending_invocations = map pending_of blocking;
  }

  unfoldable pub blocked_for : RestateDeployment → ℕ → ℕ
  blocked_for rsd now =
      unwrap_or (and_then rsd.deletion_timestamp (λ deleted_at. chrono.since now deleted_at)) 0

  abbrev until : Option ℕ → Bool → Option ℕ
  until (some remaining) wakes = some remaining
  until none wakes = if wakes then some 0 else none

  -- A drain with `onTimeout: force` that is past its deadline wants another pass at once.
  abbrev pub wakes_at_deadline : RestateDeployment → Bool
  wakes_at_deadline rsd =
      is_drain (delete_policy rsd.restate) && not (is_hold (drain_on_timeout rsd.restate))

  unfoldable pub until_drain_deadline : RestateDeployment → ℕ → Option ℕ
  until_drain_deadline rsd now =
      and_then (drain_deadline chrono rsd)
        (λ deadline. until (chrono.since deadline now) (wakes_at_deadline rsd))

abbrev pub conditions_of : Option RestateDeploymentStatus → List Condition
conditions_of status = unwrap_or (and_then status (λ s. s.conditions)) []

abbrev pub is_suspension : Condition → Bool
is_suspension cond = str_eq cond.type reconciling_condition

abbrev pub is_stale : ReconciliationState → Bool
is_stale ReconciliationState.reconciling = false
is_stale _ = true

-- The conditions to keep, or `none` when there is no suspension mark to clear.
unfoldable pub suspension_to_clear : RestateDeployment → Option (List Condition)
suspension_to_clear rsd =
    if is_some_and (and_then rsd.status (λ s. s.reconciliation)) is_stale
      || any is_suspension (conditions_of rsd.status)
    then some (filter (λ cond. not (is_suspension cond)) (conditions_of rsd.status))
    else none
