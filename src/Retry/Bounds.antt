-- ===== src/Retry/Bounds.antt =====
-- The intervals of src/controllers/restatedeployment/retry.rs, and their bounds.
use restate_operator.Base.{
  ℕ, ◌+◌, ◌-◌, ◌*◌, min, max, ◌⊎◌, inl, inr, refl, Option, eq_iff, Bool-cases, Option-cases, false,
  ◌/◌, ◌≤◌, ◌≡◌, true, String, none, some, arith, unwrap_or,
}
use native.Mathlib.Decide.{dec_le}
use restate_operator.Platform.{secs, Chrono, Random, one_f64}
use restate_operator.Resources.{Condition}
use restate_operator.Retry.{
  backoff, jitter, admin_retry_after, failing_for, admin_failure_retry_after, healthy_requeue_after,
  is_admin_failure_reason,
}

-- The interval is between 30 seconds and 5 minutes, and never shrinks as the wait grows. Between
-- a wait of 2 minutes and one of 20 it is a quarter of the wait.
pub backoff-bounds :
    (w v : ℕ)
    → (secs 30 ≤ backoff w)
      × (backoff w ≤ secs 300)
      × (w ≤ v → backoff w ≤ backoff v)
      × (secs 120 ≤ w → w ≤ secs 1200 → backoff w ≡ w / 4)
unfolding backoff
backoff-bounds w v = (ground arith, ground arith, λ h. ground arith, λ h k. ground arith)

backoff-clamps : (w : ℕ) → backoff w ≡ max (secs 30) (min (secs 300) (w / 4))
unfolding backoff
backoff-clamps w = ground arith

module _ (random : Random) where
  -- A jittered interval lies between the interval and six fifths of it, up to a nanosecond.
  jitter-band : (d : ℕ) → d ≤ secs 300 → (d ≤ jitter random d) × (5 * jitter random d ≤ 6 * d + 5)
  unfolding jitter
  jitter-band d h =
      let factor = one_f64 + random.draw in
      let grown = random.mul_monotone d one_f64 factor (omega arith) in
      let above = random.mul_above d factor h (omega (arith, random.draw_range)) in
      (
        omega (arith, grown, random.mul_one d h),
        fifth (random.mul_f64 d factor) (scaled d random.draw random.draw_range) above,
      )
    where
      widened : (d f g : ℕ) → f ≤ g → d * f ≤ d * g
      widened d f g h = grind arith

      scaled : (d draw : ℕ) → 5 * draw ≤ one_f64 → 5 * (d * draw) ≤ d * one_f64
      scaled d draw h = let product = widened d (5 * draw) one_f64 h in grind arith

      fifth :
          (m : ℕ)
          → 5 * (d * random.draw) ≤ d * one_f64
          → one_f64 * m ≤ d * (one_f64 + random.draw) + one_f64
          → 5 * m ≤ 6 * d + 5
      fifth m h k = grind arith

module _ (chrono : Chrono) where
  -- The condition is a failure of the admin API since this time.
  abbrev pub FailsSince : Option Condition → ℕ → Type 0
  FailsSince none since = ⊥
  FailsSince (some c) since =
      ((c.reason ≡ some "AdminCallFailed") ⊎ (c.reason ≡ some "AdminCallRejected"))
      × (c.last_transition_time ≡ some since)

  -- The calls have been failing for `t`, or a pass before has not failed for the admin API and `t`
  -- is 0; a time that is not past counts as 0.
  abbrev pub IsFailingFor : Option Condition → ℕ → ℕ → Type 0
  IsFailingFor ready now t =
      ((since : ℕ) × FailsSince ready since × (t ≡ now - since))
      ⊎ ((¬ ((since : ℕ) × FailsSince ready since)) × (t ≡ 0))

  since-truncated : (due now : ℕ) → unwrap_or (chrono.since due now) 0 ≡ due - now
  since-truncated due now = elim (dec_le now due) [
    | yes h ↦ rw (chrono.since_ok due now h)
    | no h ↦ rw (chrono.since_negative due now (omega arith)) (omega arith)
  ]

  is_reason :
      (reason : String)
      → is_admin_failure_reason reason ≡ true
      → (some reason ≡ some "AdminCallFailed") ⊎ (some reason ≡ some "AdminCallRejected")
  is_reason reason h =
      ground (arith, eq_iff reason "AdminCallFailed", eq_iff reason "AdminCallRejected")

  failing_for-IsFailingFor :
      (ready : Option Condition) (now : ℕ) → IsFailingFor ready now (failing_for chrono ready now)
  unfolding failing_for
  failing_for-IsFailingFor none now = inr (λ h. h.1, refl)
  failing_for-IsFailingFor (some c) now = elim (Option-cases c.reason) [
    | inl e ↦ rw e (inr (λ h. no_reason refl h.1.0, refl))
    | inr (reason, e) ↦ elim (Bool-cases (is_admin_failure_reason reason)) [
      | inl admin ↦ elim (Option-cases c.last_transition_time) [
        | inl none_yet ↦ rw (e, admin, none_yet) (inr (λ h. cc (h.1.1), refl))
        | inr (since, at') ↦
            rw (e, admin, at')
              (inl (since, (is_reason reason admin, refl), since-truncated now since))
      ]
      | inr foreign ↦ rw (e, foreign) (inr (λ h. foreign_reason reason foreign h.1.0, refl))
    ]
  ]
    where
      no_reason :
          {r : Option String}
          → r ≡ none
          → ¬ ((r ≡ some "AdminCallFailed") ⊎ (r ≡ some "AdminCallRejected"))
      no_reason e (inl h) = cc
      no_reason e (inr h) = cc

      foreign_reason :
          (reason : String)
          → is_admin_failure_reason reason ≡ false
          → ¬ ((some reason ≡ some "AdminCallFailed") ⊎ (some reason ≡ some "AdminCallRejected"))
      foreign_reason reason e h =
          ground (arith, eq_iff reason "AdminCallFailed", eq_iff reason "AdminCallRejected")

module _ (chrono : Chrono) (random : Random) where
  -- The retry of a failed call of the admin API is a quarter of the time for which the calls have
  -- been failing, but at least 30 seconds and at most 5 minutes, lengthened by at most a fifth, up
  -- to a nanosecond. The calls have been failing since the last transition of the `Ready` condition,
  -- if its reason is an admin failure and it has such a time, and otherwise since now.
  pub admin_failure_retry_after-band :
      (ready : Option Condition) (now : ℕ)
      → (t : ℕ) × IsFailingFor chrono ready now t
        × (max (secs 30) (min (secs 300) (t / 4))
            ≤ admin_failure_retry_after chrono random ready now)
        × (5 * admin_failure_retry_after chrono random ready now
            ≤ 6 * max (secs 30) (min (secs 300) (t / 4)) + 5)
  unfolding admin_failure_retry_after admin_retry_after
  admin_failure_retry_after-band ready now =
      let t = failing_for chrono ready now in
      let (above, below) = jitter-band random (backoff t) (backoff-bounds t t).1 in
      (
        t,
        failing_for-IsFailingFor chrono ready now,
        omega (arith, above, backoff-clamps t),
        omega (arith, below, backoff-clamps t),
      )

  -- A healthy deployment is looked at again no later than its next removal is due and within 6
  -- minutes and a nanosecond, and no sooner than in 5 minutes or, where that is sooner, when the
  -- removal is due; with no removal, within 6 minutes and a nanosecond.
  pub healthy_requeue_after-removal :
      (due now : ℕ)
      → (healthy_requeue_after chrono random (some due) now ≤ due - now)
        × (healthy_requeue_after chrono random (some due) now ≤ secs 360 + 1)
        × (min (due - now) (secs 300) ≤ healthy_requeue_after chrono random (some due) now)
        × (healthy_requeue_after chrono random none now ≤ secs 360 + 1)
  unfolding healthy_requeue_after
  healthy_requeue_after-removal due now =
      let (lo, hi) = jitter-band random (secs 300) (omega arith) in
      rw (since-truncated chrono due now) (omega arith, omega arith, omega arith, omega arith)
