-- ===== src/Examples/Status.antt =====
-- The theorems on the status, at concrete passes.
use restate_operator.Base.{
  ◌≡◌, ◌≢◌, ◌↔◌, refl, String, Option, none, some, List, [], ◌∷◌, pos, ℕ, ◌-◌, ◌^◌, negsuc, lookup,
  sub_i32,
}
use restate_operator.Errors.{route_not_ready, hash_collision}
use restate_operator.Resources.{
  RestateDeployment, RestateDeploymentStatus, Condition, ReconciliationState,
}
use restate_operator.Effects.{Run, ok, pure, fail, ◌>>=◌}
use restate_operator.Calls.{Call}
use restate_operator.Deletion.Finalizer.{requeue}
use restate_operator.Deletion.Report.{suspension_to_clear}
use restate_operator.Naming.{hash_input}
use restate_operator.Retry.{jitter, healthy_requeue_after}
use restate_operator.Status.{
  Displays, default_status, suspended_status, reconcile_replicaset_status, reconcile_knative_status,
  knative_outcome, status_from_replica_set, replicaset_verdict, knative_verdict, of_knative_error,
  report_verdict, concluded_status, of_error, Verdict,
}
use restate_operator.Status.Suspension.{kept, IsMarked, suspended_status-marks}
use restate_operator.Status.Resuming.{
  Pass, suspended, reconciled, state, AreSince, written-resuming,
}
use restate_operator.Status.Collisions.{of_error-rehashes}
use restate_operator.Examples.Data.{exact_chrono, no_jitter, new_version}
use restate_operator.Examples.Rollout.{live, told}
use restate_operator.Examples.Naming.{counting}

abbrev plain : Displays
plain = record { error = λ e. "error"; status_code = λ code. "code" }

abbrev was_ready : Condition
was_ready = record {
  last_transition_time = some 4;
  message = none;
  reason = none;
  status = "True";
  type = "Ready";
}

abbrev ready_status : RestateDeploymentStatus
ready_status = record default_status { conditions = some (was_ready ∷ []) }

suspended_status-marks_example :
    (suspended_status (suspended_status ready_status 5) 9 ≡ suspended_status ready_status 5)
    × (kept (suspended_status ready_status 5) ≡ kept ready_status)
    × (record (suspended_status ready_status 5) {
      conditions = ready_status.conditions;
      reconciliation = ready_status.reconciliation;
    }
        ≡ ready_status)
    × (suspension_to_clear (record live { status = some (suspended_status ready_status 5) })
        ≡ some (kept ready_status))
    × IsMarked (suspended_status ready_status 5) (was_ready ∷ []) 5
suspended_status-marks_example = suspended_status-marks live ready_status 5 9

abbrev verdict : String → Verdict
verdict ready = record {
  result = ok (requeue 0);
  message = "message";
  reason = "Reason";
  ready = ready;
  so_far = default_status;
}

abbrev history : List Pass
history =
    reconciled 9 none (verdict "False") ∷ suspended 8 ∷ reconciled 7 none (verdict "True") ∷ []

abbrev fresh : RestateDeployment
fresh = record live { status = none }

written-resuming_example :
    ((state exact_chrono no_jitter plain fresh history
        ≡ some ReconciliationState.resuming_reconciliation)
      ↔ ((pass : Pass) × (since : List Pass) × AreSince exact_chrono no_jitter plain fresh history
            (pass ∷ since)))
    × ((state exact_chrono no_jitter plain fresh history ≡ some ReconciliationState.disabled)
        ↔ ((now : ℕ) × (before : List Pass) × (history ≡ suspended now ∷ before)))
written-resuming_example = written-resuming exact_chrono no_jitter plain fresh refl history

reported :
    (reconcile_replicaset_status exact_chrono no_jitter plain 10
      (some was_ready)
      told.world
      live
      none
      (pure (new_version, none))).result
    ≡ ok (requeue 300000000000)
unfolding reconcile_replicaset_status replicaset_verdict status_from_replica_set report_verdict
    concluded_status ◌>>=◌ lookup healthy_requeue_after jitter sub_i32
reported = refl

abbrev waiting : RestateDeploymentStatus → Run Call (Option ℕ) × RestateDeploymentStatus
waiting s = (fail (route_not_ready "no URL yet" "Pending" none), s)

unready :
    (reconcile_knative_status exact_chrono no_jitter plain 10
      (some was_ready)
      told.world
      live
      waiting).result
    ≡ ok (requeue 10000000000)
unfolding reconcile_knative_status knative_outcome knative_verdict of_knative_error report_verdict
    concluded_status ◌>>=◌
unready = refl

abbrev collided : Verdict
collided = of_error exact_chrono no_jitter plain 10 none (pos 3) default_status hash_collision

of_error-rehashes_example :
    (collided.result ≡ ok (requeue 0))
    × (hash_input counting
          (record live {
            status =
                some (concluded_status exact_chrono no_jitter plain 10 none live none collided);
          })
          "{}"
          none
        ≢ hash_input counting live "{}" none)
of_error-rehashes_example =
    of_error-rehashes counting exact_chrono no_jitter plain 10 none live none "{}" none tt

wraps_below : sub_i32 (negsuc (2 ^ 31 - 1)) (pos 1) ≡ pos (2 ^ 31 - 1)
unfolding sub_i32
wraps_below = refl

stays_exact : sub_i32 (pos 3) (pos 5) ≡ negsuc 1
unfolding sub_i32
stays_exact = refl
