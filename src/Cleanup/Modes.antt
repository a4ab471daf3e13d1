-- ===== src/Cleanup/Modes.antt =====
-- When src/controllers/restatedeployment/cleanup.rs forces a deletion, and how it paces one.
use restate_operator.Base.{ℕ, ◌≤◌, ◌≡◌, ◌↔◌, ◌⊎◌, true, none, some, Option, max, arith, is_some}
use restate_operator.Platform.{secs, Chrono}
use restate_operator.Resources.{
  RestateDeployment, DeletePolicy, OnTimeout, delete_policy, drain_on_timeout,
}
use restate_operator.Retry.Bounds.{backoff-bounds}
use restate_operator.Cleanup.{
  rollout, force_deleting, drain_deadline, is_reached, for_rsd, blocked_deletion_requeue,
}

module _ (chrono : Chrono) where
  -- The mode is `rollout` exactly if the resource is not deleted, and `force_deleting` exactly if
  -- it is deleted and either its policy is `force` or its drain has `onTimeout: force` and its
  -- deadline is reached.
  pub for_rsd-modes :
      (rsd : RestateDeployment) (now : ℕ)
      → ((for_rsd chrono rsd now ≡ rollout) ↔ (rsd.deletion_timestamp ≡ none))
        × ((for_rsd chrono rsd now ≡ force_deleting) ↔ (
            (is_some rsd.deletion_timestamp ≡ true)
            × ((delete_policy rsd.restate ≡ DeletePolicy.force)
                ⊎ ((drain_on_timeout rsd.restate ≡ OnTimeout.force)
                    × (is_reached chrono (drain_deadline chrono rsd) now ≡ true)))))
  unfolding for_rsd
  for_rsd-modes rsd now =
      ((λ h. ground arith, λ h. ground arith), (λ h. ground arith, λ h. ground arith))

  -- A deletion that is forced at one time is forced at every later time.
  pub for_rsd-forced_later :
      (rsd : RestateDeployment) (now later : ℕ)
      → now ≤ later
      → for_rsd chrono rsd now ≡ force_deleting
      → for_rsd chrono rsd later ≡ force_deleting
  unfolding for_rsd
  for_rsd-forced_later rsd now later h e = ground arith

-- A blocked deletion is looked at again after at least a second and at most 5 minutes, and never
-- later than its deadline, or a second from now where that is nearer.
pub blocked_deletion_requeue-bounds :
    (blocked_for : ℕ) (until : Option ℕ)
    → (secs 1 ≤ blocked_deletion_requeue blocked_for until)
      × (blocked_deletion_requeue blocked_for until ≤ secs 300)
      × ((d : ℕ) → until ≡ some d → blocked_deletion_requeue blocked_for until ≤ max d (secs 1))
unfolding blocked_deletion_requeue
blocked_deletion_requeue-bounds b none =
    let k = backoff-bounds b b in (omega arith, omega arith, λ d e. cc)
blocked_deletion_requeue-bounds b (some u) =
    let k = backoff-bounds b b in (omega arith, omega arith, λ d e. ground arith)
