-- ===== src/ErrorPolicy/Pacing.antt =====
-- How the waits of a blocked deletion are paced, from the error of the pass to the requeue.
use restate_operator.Base.{
  ℕ, ◌-◌, ◌≤◌, ◌≡◌, ◌⊎◌, refl, true, some, max, arith, Option-cases, Bool-cases, is_empty, inl, inr,
}
use native.Mathlib.Decide.{dec_le}
use restate_operator.Errors.{Error, finalizer_error, apply_failed, cleanup_failed, root_cause}
use restate_operator.Platform.{secs, Chrono, Random}
use restate_operator.Resources.{RestateDeployment}
use restate_operator.Effects.{err, ◌>>=◌}
use restate_operator.Calls.{World}
use restate_operator.Cleanup.{CleanupOutcome, drain_deadline}
use restate_operator.Cleanup.Modes.{blocked_deletion_requeue-bounds}
use restate_operator.Deletion.Report.{until_drain_deadline, wakes_at_deadline, blocked_for}
use restate_operator.Deletion.Finalizer.{DeletionClock, conclude, blocked_requeue, draining_requeue}
use restate_operator.ErrorPolicy.{retry_after_error}

module _ (chrono : Chrono) (random : Random) (rsd : RestateDeployment) (now : ℕ) where
  -- The wrapper that the finalizer puts on an error does not change the interval of the retry.
  pub retry_after_error-unwraps :
      (e : Error)
      → (retry_after_error chrono random rsd now (finalizer_error (cleanup_failed e))
          ≡ retry_after_error chrono random rsd now e)
        × (retry_after_error chrono random rsd now (finalizer_error (apply_failed e))
            ≡ retry_after_error chrono random rsd now e)
  unfolding retry_after_error root_cause
  retry_after_error-unwraps e = (refl, refl)

module _ (w : World) (chrono : Chrono) (random : Random) (clock : DeletionClock)
    (rsd : RestateDeployment) where
  until-drain_deadline :
      (now d : ℕ)
      → wakes_at_deadline chrono rsd ≡ true
      → drain_deadline chrono rsd ≡ some d
      → until_drain_deadline chrono rsd now ≡ some (d - now)
  unfolding until_drain_deadline
  until-drain_deadline now d wakes e = elim (dec_le now d) [
    | yes h ↦ rw e (rw (chrono.since_ok d now h) refl)
    | no h ↦ rw e (ground (arith, chrono.since_negative d now))
  ]

  -- The error of a pass that has to wait.
  conclude_waits :
      (o : CleanupOutcome) (e : Error)
      → (conclude w chrono clock rsd o).result ≡ err e
      → (retry_after_error chrono random rsd clock.at_removal e
          ≡ blocked_requeue w chrono clock rsd)
        ⊎ ((t : ℕ) × (o.next_removal ≡ some t)
            × (retry_after_error chrono random rsd clock.at_removal e
                ≡ draining_requeue w chrono clock rsd t))
  unfolding conclude ◌>>=◌ retry_after_error root_cause
  conclude_waits o e h = elim (Bool-cases (is_empty o.blocking)) [
    | inl b ↦ elim (Option-cases o.next_removal) [
      | inl n ↦ absurd (ground arith)
      | inr (t, n) ↦ inr (t, n, ground arith)
    ]
    | inr b ↦ inl (ground arith)
  ]

  blocked_paced :
      (secs 1 ≤ blocked_requeue w chrono clock rsd)
      × ((d : ℕ)
          → wakes_at_deadline chrono rsd ≡ true
          → drain_deadline chrono rsd ≡ some d
          → blocked_requeue w chrono clock rsd ≤ max (d - clock.at_deadline) (secs 1))
  blocked_paced =
      let b =
        blocked_deletion_requeue-bounds (blocked_for chrono rsd clock.at_blocked)
          (until_drain_deadline chrono rsd clock.at_deadline) in
      (
        b.0,
        λ d wakes k. b.2 (d - clock.at_deadline) (until-drain_deadline clock.at_deadline d wakes k),
      )

  draining_paced :
      (t : ℕ)
      → (secs 1 ≤ draining_requeue w chrono clock rsd t)
        × ((d : ℕ)
            → wakes_at_deadline chrono rsd ≡ true
            → drain_deadline chrono rsd ≡ some d
            → draining_requeue w chrono clock rsd t ≤ max (d - clock.at_deadline) (secs 1))
  draining_paced t = (
    ground arith,
    λ d wakes k. rw (wakes, until-drain_deadline clock.at_deadline d wakes k) (omega arith),
  )

  conclude-bounds :
      (o : CleanupOutcome) (e : Error)
      → (conclude w chrono clock rsd o).result ≡ err e
      → (secs 1
          ≤ retry_after_error chrono random rsd clock.at_removal
              (finalizer_error (cleanup_failed e)))
        × ((d : ℕ)
            → wakes_at_deadline chrono rsd ≡ true
            → drain_deadline chrono rsd ≡ some d
            → retry_after_error chrono random rsd clock.at_removal
                (finalizer_error (cleanup_failed e))
              ≤ max (d - clock.at_deadline) (secs 1))
  conclude-bounds o e h =
      rw ((retry_after_error-unwraps chrono random rsd clock.at_removal e).0)
        (elim (conclude_waits o e h) [
          | inl b ↦ rw b (blocked_paced)
          | inr (t, n, k) ↦ rw k (draining_paced t)
        ])

  -- The error of a pass of a deletion that has to wait makes the controller requeue after at least
  -- a second.
  pub conclude-paced :
      (o : CleanupOutcome) (e : Error)
      → (conclude w chrono clock rsd o).result ≡ err e
      → secs 1
        ≤ retry_after_error chrono random rsd clock.at_removal (finalizer_error (cleanup_failed e))
  conclude-paced o e h = (conclude-bounds o e h).0

  -- The error of a pass of a drain with `onTimeout: force` that has to wait makes the controller
  -- requeue no later than the drain deadline, or a second from now where that is later.
  pub conclude-wakes_at_deadline :
      (o : CleanupOutcome) (e : Error) (d : ℕ)
      → (conclude w chrono clock rsd o).result ≡ err e
      → wakes_at_deadline chrono rsd ≡ true
      → drain_deadline chrono rsd ≡ some d
      → retry_after_error chrono random rsd clock.at_removal (finalizer_error (cleanup_failed e))
        ≤ max (d - clock.at_deadline) (secs 1)
  conclude-wakes_at_deadline o e d h wakes deadline = (conclude-bounds o e h).1 d wakes deadline
