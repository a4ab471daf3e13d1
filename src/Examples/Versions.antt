-- ===== src/Examples/Versions.antt =====
-- The theorems on the cleanup of versions, at concrete passes.
use restate_operator.Versions.{
  sort_by_creation, insert_by_creation, wait_out, schedule_version_removal,
  unschedule_version_removal, visit_each, visit_and_finish, finish,
}
use restate_operator.ReplicaSets.Select.{candidates}
use restate_operator.Versions.Spared.{Permits}
use restate_operator.Versions.Outcome.{blocked_in}
use restate_operator.Base.{refl, ◌≡◌, ◌⊎◌, none, some, All, Memᴰ, [], ◌∷◌, false, true, lookup}
use restate_operator.Resources.{ReplicaSet}
use restate_operator.Effects.{ok, ◌>>=◌}
use restate_operator.Calls.{check_admin_response}
use restate_operator.Autoscaling.{plan_active_version_hpa}
use restate_operator.Cleanup.{
  CleanupOutcome, deleting, force_deleting, DeploymentUsageMap, is_active, in_flight_invocations,
  retain_for_rollback,
}
use restate_operator.ReplicaSets.Select.{is_candidate}
use restate_operator.ReplicaSets.Visit.{visit, visit_inactive, retire, remove_version, keep_active}
use restate_operator.ReplicaSets.Pass.{cleanup_old_replicasets}
use restate_operator.ReplicaSets.Spares.{cleanup_old_replicasets-Permits}
use restate_operator.ReplicaSets.Outcome.{
  candidates_metadata, IsCleared, cleanup_old_replicasets-IsCleared,
  cleanup_old_replicasets-blocking,
}
use restate_operator.ReplicaSets.Forced.{cleanup_old_replicasets-forced}
use restate_operator.Examples.Data.{
  exact_chrono, greeter_holding, greeter_forced, store, world, busy_rows,
}

-- Restate knows both versions, and the new one has invocations.
abbrev busy : DeploymentUsageMap
busy =
    (
      "dp_1",
      record { latest_for_service = false; pinned_invocations = 0; unpinned_invocations = 0 },
    )
    ∷ (
      "dp_2",
      record { latest_for_service = false; pinned_invocations = 4; unpinned_invocations = 0 },
    )
    ∷ []

cleanup_old_replicasets-Permits_example :
    All
      (λ c.
        (rs : ReplicaSet) × Memᴰ rs store
        × (is_candidate "apps" "u1" none rs ≡ true)
        × Permits (world busy_rows) greeter_holding deleting busy rs.metadata c)
      (cleanup_old_replicasets
        (world busy_rows)
        exact_chrono
        "apps"
        "u1"
        greeter_holding
        deleting
        busy
        none
        store).calls
cleanup_old_replicasets-Permits_example =
    cleanup_old_replicasets-Permits (world busy_rows) exact_chrono greeter_holding deleting busy
      "apps" "u1" none store

-- The new version blocks the deletion, which is looked at again in 10 seconds.
abbrev held_back : CleanupOutcome
held_back = record {
  blocking =
      record {
        name = "greeter-new";
        deployment_id = some "dp_2";
        usage = record {
          latest_for_service = false;
          pinned_invocations = 4;
          unpinned_invocations = 0;
        };
      }
      ∷ [];
  next_removal = some 10_000_000_012;
  abandoned = [];
}

held_back_ok :
    (cleanup_old_replicasets
      (world busy_rows)
      exact_chrono
      "apps"
      "u1"
      greeter_holding
      deleting
      busy
      none
      store).result
    ≡ ok held_back
unfolding cleanup_old_replicasets ◌>>=◌ visit_each visit_and_finish visit visit_inactive retire
    remove_version keep_active wait_out schedule_version_removal plan_active_version_hpa
    unschedule_version_removal finish candidates is_candidate sort_by_creation insert_by_creation
    lookup is_active in_flight_invocations retain_for_rollback check_admin_response
held_back_ok = refl

cleanup_old_replicasets-blocking_example :
    (held_back.blocking ≡ blocked_in deleting busy (candidates_metadata "apps" "u1" none store))
    × ((deleting ≡ force_deleting) ⊎ (held_back.abandoned ≡ []))
cleanup_old_replicasets-blocking_example =
    cleanup_old_replicasets-blocking (world busy_rows) exact_chrono greeter_holding deleting busy
      "apps" "u1" none store held_back held_back_ok

abbrev done : CleanupOutcome
done = record { blocking = []; next_removal = none; abandoned = [] }

-- Restate has forgotten both versions.
done_ok :
    (cleanup_old_replicasets
      (world [])
      exact_chrono
      "apps"
      "u1"
      greeter_holding
      deleting
      []
      none
      store).result
    ≡ ok done
unfolding cleanup_old_replicasets ◌>>=◌ visit_each visit_and_finish visit visit_inactive retire
    remove_version keep_active wait_out schedule_version_removal plan_active_version_hpa
    unschedule_version_removal finish candidates is_candidate sort_by_creation insert_by_creation
    lookup is_active in_flight_invocations retain_for_rollback check_admin_response
done_ok = refl

cleanup_old_replicasets-IsCleared_example :
    (done.blocking ≡ [])
    × IsCleared "apps" "u1" none store
        (cleanup_old_replicasets
          (world [])
          exact_chrono
          "apps"
          "u1"
          greeter_holding
          deleting
          []
          none
          store).calls
cleanup_old_replicasets-IsCleared_example =
    cleanup_old_replicasets-IsCleared (world []) exact_chrono greeter_holding deleting [] "apps"
      "u1" none store done done_ok refl refl

abbrev abandoning : CleanupOutcome
abandoning = record { blocking = []; next_removal = none; abandoned = held_back.blocking }

abandoning_ok :
    (cleanup_old_replicasets
      (world busy_rows)
      exact_chrono
      "apps"
      "u1"
      greeter_forced
      force_deleting
      busy
      none
      store).result
    ≡ ok abandoning
unfolding cleanup_old_replicasets ◌>>=◌ visit_each visit_and_finish visit visit_inactive retire
    remove_version keep_active wait_out schedule_version_removal plan_active_version_hpa
    unschedule_version_removal finish candidates is_candidate sort_by_creation insert_by_creation
    lookup is_active in_flight_invocations retain_for_rollback check_admin_response
abandoning_ok = refl

cleanup_old_replicasets-forced_example :
    (abandoning.blocking ≡ [])
    × (abandoning.next_removal ≡ none)
    × IsCleared "apps" "u1" none store
        (cleanup_old_replicasets
          (world busy_rows)
          exact_chrono
          "apps"
          "u1"
          greeter_forced
          force_deleting
          busy
          none
          store).calls
cleanup_old_replicasets-forced_example =
    cleanup_old_replicasets-forced (world busy_rows) exact_chrono greeter_forced busy "apps" "u1"
      none store abandoning abandoning_ok
