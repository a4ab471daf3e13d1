-- ===== src/Examples/Deletion.antt =====
-- The theorems on deletion, at concrete passes.
use restate_operator.Base.{refl, ◌≡◌, none, some, All, [], ◌∷◌, false, ◌≤◌, max, ◌-◌}
use restate_operator.Platform.{secs}
use restate_operator.Deletion.Report.{drain_overdue}
use restate_operator.Errors.{Error, deployment_in_use, finalizer_error, cleanup_failed}
use restate_operator.Effects.{err, ◌>>=◌}
use restate_operator.Cleanup.{CleanupOutcome, describe_blocking_versions, drain_deadline}
use restate_operator.Deletion.Teardown.{Stores, teardown}
use restate_operator.Deletion.Finalizer.{DeletionClock, cleanup, conclude, blocked_requeue}
use restate_operator.Deletion.Hold.{StrandsNothing, cleanup-StrandsNothing}
use restate_operator.ErrorPolicy.{retry_after_error}
use restate_operator.ErrorPolicy.Pacing.{conclude-wakes_at_deadline}
use restate_operator.Examples.Data.{
  exact_chrono, no_jitter, greeter_holding, greeter_timed, store, world, busy_rows,
}

abbrev stores : Stores
stores = record { replicasets = store; configurations = [] }

abbrev clock : DeletionClock
clock = record {
  before_query = 5;
  after_query = 6;
  at_overdue = 7;
  at_blocked = 8;
  at_deadline = 9;
  at_removal = 10;
}

cleanup-StrandsNothing_example :
    All
      (StrandsNothing (world busy_rows) exact_chrono clock greeter_holding stores)
      (cleanup
        (world busy_rows)
        exact_chrono
        clock
        greeter_holding
        (teardown (world busy_rows) exact_chrono greeter_holding "apps" stores)).calls
cleanup-StrandsNothing_example =
    cleanup-StrandsNothing (world busy_rows) exact_chrono clock greeter_holding "apps" stores refl
      refl refl

-- A version with invocations, at a drain that waits.
abbrev waiting : CleanupOutcome
waiting = record {
  blocking =
      record {
        name = "greeter-new";
        deployment_id = some "dp_2";
        usage = record {
          latest_for_service = false;
          pinned_invocations = 4;
          unpinned_invocations = 0;
        };
      }
      ∷ [];
  next_removal = none;
  abandoned = [];
}

abbrev waiting_error : Error
waiting_error =
    deployment_in_use (describe_blocking_versions waiting.blocking)
      (some (blocked_requeue (world busy_rows) exact_chrono clock greeter_timed))

waiting_fails :
    (conclude (world busy_rows) exact_chrono clock greeter_timed waiting).result ≡ err waiting_error
unfolding conclude ◌>>=◌ drain_overdue
waiting_fails = refl

timed_deadline : drain_deadline exact_chrono greeter_timed ≡ some 2_000_000_000
unfolding drain_deadline
timed_deadline = refl

conclude-wakes_at_deadline_example :
    retry_after_error exact_chrono no_jitter greeter_timed clock.at_removal
      (finalizer_error (cleanup_failed waiting_error))
    ≤ max (2_000_000_000 - clock.at_deadline) (secs 1)
conclude-wakes_at_deadline_example =
    conclude-wakes_at_deadline (world busy_rows) exact_chrono no_jitter clock greeter_timed waiting
      waiting_error 2_000_000_000 waiting_fails refl timed_deadline
