-- ===== src/Examples/Policy.antt =====
-- The theorems on the cleanup policy and the intervals, at concrete inputs.
use restate_operator.Base.{
  refl, ◌≡◌, ◌↔◌, ◌⊎◌, ◌≤◌, ◌+◌, ◌-◌, ◌*◌, ◌/◌, ℕ, max, min, none, some, All, Memᴰ, List, ◌∷◌, true,
  lookup, arith, is_some,
}
use restate_operator.Platform.{secs}
use restate_operator.Resources.{Condition, DeletePolicy, OnTimeout, delete_policy, drain_on_timeout}
use restate_operator.Retry.{admin_failure_retry_after, healthy_requeue_after}
use restate_operator.Retry.Bounds.{
  IsFailingFor, admin_failure_retry_after-band, healthy_requeue_after-removal,
}
use restate_operator.Cleanup.{
  usage_of_row, rollout, deleting, force_deleting, for_rsd, drain_deadline, is_reached, into_map,
  is_active, in_flight_invocations, DeploymentUsage, DeploymentUsageRow,
}
use restate_operator.Cleanup.Modes.{for_rsd-modes}
use restate_operator.Cleanup.Usage.{FitsRow, into_map-active}
use restate_operator.Examples.Data.{exact_chrono, no_jitter, greeter_timed, row, busy_rows}

for_rsd-modes_example :
    ((for_rsd exact_chrono greeter_timed 3 ≡ rollout) ↔ (greeter_timed.deletion_timestamp ≡ none))
    × ((for_rsd exact_chrono greeter_timed 3 ≡ force_deleting) ↔ (
        (is_some greeter_timed.deletion_timestamp ≡ true)
        × ((delete_policy greeter_timed.restate ≡ DeletePolicy.force)
            ⊎ ((drain_on_timeout greeter_timed.restate ≡ OnTimeout.force)
                × (is_reached exact_chrono (drain_deadline exact_chrono greeter_timed) 3 ≡ true)))))
for_rsd-modes_example = for_rsd-modes exact_chrono greeter_timed 3

timed_out : for_rsd exact_chrono greeter_timed 2_000_000_000 ≡ force_deleting
unfolding for_rsd drain_deadline
timed_out = refl

-- The second version, of which another row knows nothing.
abbrev rows : List DeploymentUsageRow
rows = row "dp_2" 0 ∷ busy_rows

rows_fit : All FitsRow rows
rows_fit =
    ((omega arith, omega arith), ((omega arith, omega arith), ((omega arith, omega arith), tt)))

row_active : is_active (usage_of_row (row "dp_2" 4)) deleting ≡ true
unfolding is_active in_flight_invocations
row_active = refl

into_map-active_example :
    (u : DeploymentUsage) × (lookup "dp_2" (into_map rows) ≡ some u)
    × (is_active u deleting ≡ true)
    × (in_flight_invocations u ≡ u.pinned_invocations + u.unpinned_invocations)
into_map-active_example =
    into_map-active deleting rows (row "dp_2" 4) rows_fit (Memᴰ.tail (Memᴰ.tail (Memᴰ.head refl)))
      row_active

abbrev condition : Condition
condition = record {
  last_transition_time = some (secs 100);
  message = none;
  reason = some "AdminCallFailed";
  status = "Unknown";
  type = "Ready";
}

admin_failure_retry_after-band_example :
    (t : ℕ) × IsFailingFor exact_chrono (some condition) (secs 700) t
    × (max (secs 30) (min (secs 300) (t / 4))
        ≤ admin_failure_retry_after exact_chrono no_jitter (some condition) (secs 700))
    × (5 * admin_failure_retry_after exact_chrono no_jitter (some condition) (secs 700)
        ≤ 6 * max (secs 30) (min (secs 300) (t / 4)) + 5)
admin_failure_retry_after-band_example =
    admin_failure_retry_after-band exact_chrono no_jitter (some condition) (secs 700)

healthy_requeue_after-removal_example :
    (healthy_requeue_after exact_chrono no_jitter (some (secs 700)) (secs 600)
      ≤ secs 700 - secs 600)
    × (healthy_requeue_after exact_chrono no_jitter (some (secs 700)) (secs 600) ≤ secs 360 + 1)
    × (min (secs 700 - secs 600) (secs 300)
        ≤ healthy_requeue_after exact_chrono no_jitter (some (secs 700)) (secs 600))
    × (healthy_requeue_after exact_chrono no_jitter none (secs 600) ≤ secs 360 + 1)
healthy_requeue_after-removal_example =
    healthy_requeue_after-removal exact_chrono no_jitter (secs 700) (secs 600)
