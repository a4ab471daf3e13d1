-- ===== src/Status/Ready.antt =====
-- What a pass over a RestateDeployment reports of its readiness.
use restate_operator.Base.{
  subst, ℕ, ℤ, ◌≡◌, ◌≢◌, ◌⊎◌, inl, inr, refl, sym, ◌∙◌, String, Option, none, some, [], ◌∷◌, str_eq,
  eq_iff, Bool-cases, unwrap_or,
}
use restate_operator.Errors.{
  Error, deployment_not_ready, hash_collision, deployment_not_latest, admin_call_failed,
  admin_call_rejected, route_not_ready, configuration_not_ready,
}
use restate_operator.Platform.{Chrono, Random}
use restate_operator.Resources.{RestateDeployment, RestateDeploymentStatus, ReplicaSet, Condition}
use restate_operator.Effects.{Run, Result, ok, err, panicked, answered-Made, >>=-Made, Made}
use restate_operator.Calls.{Call, report_status, World}
use restate_operator.Deletion.Finalizer.{Action, requeue}
use restate_operator.Status.{
  Displays, Verdict, status_of, of_shared_error, of_error, replicaset_verdict, of_knative_error,
  knative_verdict, since_transition, observe, concluded_status, report_verdict,
  reconcile_replicaset_status, reconcile_knative_status, knative_outcome,
}

-- A success is reported as ready; an error either as not ready, with a retry, or as unknown, and
-- then it is the error of the pass.
abbrev pub ReportsError : Error → Verdict → Type 0
ReportsError e v =
    ((v.ready ≡ "False") × (d : ℕ) × (v.result ≡ ok (requeue d)))
    ⊎ ((v.ready ≡ "Unknown") × (v.result ≡ err e))

abbrev pub Reports : {A : Type 0} → Result A → Verdict → Type 0
Reports (ok a) v = (v.ready ≡ "True") × (d : ℕ) × (v.result ≡ ok (requeue d))
Reports (err e) v = ReportsError e v
Reports panicked v = ⊥

-- What a pass that succeeds has reported: ready if its reconcile succeeded, and not ready if it
-- failed; the time of the transition is kept exactly as long as the status of the condition is.
abbrev pub Succeeded : {A : Type 0} → Result A → Type 0
Succeeded (ok a) = Unit
Succeeded _ = ⊥

abbrev pub Failed : {A : Type 0} → Result A → Type 0
Failed (err e) = Unit
Failed _ = ⊥

abbrev pub KeepsTransition : Option Condition → Condition → ℕ → Type 0
KeepsTransition none c now = c.last_transition_time ≡ some now
KeepsTransition (some old) c now =
    ((old.status ≡ c.status)
      × (c.last_transition_time ≡ some (unwrap_or old.last_transition_time now)))
    ⊎ ((old.status ≢ c.status) × (c.last_transition_time ≡ some now))

abbrev pub HasReported :
    {A : Type 0} → Result A → Option Condition → ℕ → RestateDeploymentStatus → Type 0
HasReported outcome existing_ready now s =
    (c : Condition) × (s.conditions ≡ some (c ∷ []))
    × (c.type ≡ "Ready")
    × (((c.status ≡ "True") × Succeeded outcome) ⊎ ((c.status ≡ "False") × Failed outcome))
    × KeepsTransition existing_ready c now

some_eq : {v u : Verdict} → some v ≡ some u → v ≡ u
some_eq h = cc

ok_eq : {A : Type 0} {a b : A} → ok a ≡ ok b → a ≡ b
ok_eq h = cc

ready_or_not :
    {A : Type 0} (outcome : Result A) (v : Verdict) {a : Action}
    → Reports outcome v
    → v.result ≡ ok a
    → ((v.ready ≡ "True") × Succeeded outcome) ⊎ ((v.ready ≡ "False") × Failed outcome)
ready_or_not (ok x) v r h = inl (r.0, tt)
ready_or_not (err e) v (inl r) h = inr (r.0, tt)
ready_or_not (err e) v (inr r) h = cc (sym r.1 ∙ h)
ready_or_not panicked v r h = absurd r

module _ (chrono : Chrono) (random : Random) (display : Displays) (now : ℕ)
    (existing_ready : Option Condition) where
  of_shared_error-Reports :
      (s : RestateDeploymentStatus) (e : Error)
      → ReportsError e (of_shared_error chrono random display now existing_ready s e)
  of_shared_error-Reports s hash_collision = inl (refl, _, refl)
  of_shared_error-Reports s (deployment_not_latest message reason requeue_after) =
      inl (refl, _, refl)
  of_shared_error-Reports s (admin_call_failed e) = inl (refl, _, refl)
  of_shared_error-Reports s (admin_call_rejected status url body) = inl (refl, _, refl)
  of_shared_error-Reports s e = inr (refl, refl)

  of_error-Reports :
      (expected : ℤ) (s : RestateDeploymentStatus) (e : Error)
      → ReportsError e (of_error chrono random display now existing_ready expected s e)
  unfolding of_error
  of_error-Reports expected s (deployment_not_ready message reason requeue_after status) =
      inl (refl, _, refl)
  of_error-Reports expected s e = of_shared_error-Reports s e

  of_knative_error-Reports :
      (s : RestateDeploymentStatus) (e : Error)
      → ReportsError e (of_knative_error chrono random display now existing_ready s e)
  unfolding of_knative_error
  of_knative_error-Reports s (route_not_ready message reason requeue_after) = inl (refl, _, refl)
  of_knative_error-Reports s (configuration_not_ready message reason requeue_after) =
      inl (refl, _, refl)
  of_knative_error-Reports s e = of_shared_error-Reports s e

  replicaset_verdict-Reports :
      (expected : ℤ) (s : RestateDeploymentStatus) (outcome : Result (ReplicaSet × Option ℕ))
      (v : Verdict)
      → replicaset_verdict chrono random display now existing_ready expected s outcome ≡ some v
      → Reports outcome v
  unfolding replicaset_verdict
  replicaset_verdict-Reports expected s (ok a) v h =
      subst (Reports (ok a)) (some_eq h) (refl, _, refl)
  replicaset_verdict-Reports expected s (err e) v h =
      subst (ReportsError e) (some_eq h) (of_error-Reports expected s e)
  replicaset_verdict-Reports expected s panicked v h = cc

  knative_verdict-Reports :
      (s : RestateDeploymentStatus) (outcome : Result (Option ℕ)) (v : Verdict)
      → knative_verdict chrono random display now existing_ready s outcome ≡ some v
      → Reports outcome v
  unfolding knative_verdict
  knative_verdict-Reports s (ok a) v h = subst (Reports (ok a)) (some_eq h) (refl, _, refl)
  knative_verdict-Reports s (err e) v h =
      subst (ReportsError e) (some_eq h) (of_knative_error-Reports s e)
  knative_verdict-Reports s panicked v h = cc

  module _ (w : World) (rsd : RestateDeployment) where
    keeps_transition :
        (existing : Option Condition) (v : Verdict) (message reason : Option String)
        → KeepsTransition existing
            (record {
              last_transition_time =
                  some (since_transition chrono random display now existing v.ready);
              message = message;
              reason = reason;
              status = v.ready;
              type = "Ready";
            })
            now
    keeps_transition none v message reason = refl
    keeps_transition (some old) v message reason = elim (Bool-cases (str_eq old.status v.ready)) [
      | inl same ↦ inl ((eq_iff old.status v.ready).0 same, rw same refl)
      | inr differs ↦ inr (λ e. cc (sym differs ∙ (eq_iff old.status v.ready).1 e), rw differs refl)
    ]

    concluded-HasReported :
        {A : Type 0} (outcome : Result A) (selector : Option (Option String)) (v : Verdict)
        {a : Action}
        → Reports outcome v
        → v.result ≡ ok a
        → HasReported outcome existing_ready now
            (concluded_status chrono random display now existing_ready rsd selector v)
    unfolding concluded_status
    concluded-HasReported outcome selector v r h =
        (_, refl, refl, ready_or_not outcome v r h, keeps_transition existing_ready v _ _)

    report_verdict-Made :
        (selector : Option (Option String)) (v : Verdict) {a : Action}
        → (report_verdict chrono random display now existing_ready w rsd selector (some v)).result
          ≡ ok a
        → (v.result ≡ ok a)
          × Made
              (report_status
                (concluded_status chrono random display now existing_ready rsd selector v))
              (report_verdict chrono random display now existing_ready w rsd selector
                (some v)).calls
    unfolding report_verdict
    report_verdict-Made selector v h =
        let (_, _, h1, _, later) = >>=-Made _ _ h in
        let (_, _, done, reported, _) = >>=-Made _ _ h1 in
        (done, later _ (reported _ (answered-Made _ _)))

    verdict-HasReported :
        {A : Type 0} (outcome : Result A) (selector : Option (Option String)) (v : Option Verdict)
        (a : Action)
        → ((u : Verdict) → v ≡ some u → Reports outcome u)
        → (report_verdict chrono random display now existing_ready w rsd selector v).result ≡ ok a
        → (s : RestateDeploymentStatus) × Made
            (report_status s)
            (report_verdict chrono random display now existing_ready w rsd selector v).calls
          × HasReported outcome existing_ready now s
    unfolding report_verdict
    verdict-HasReported outcome selector none a r h = cc
    verdict-HasReported outcome selector (some v) a r h =
        let (done, made) = report_verdict-Made selector v h in
        (_, made, concluded-HasReported outcome selector v (r v refl) done)

    -- A pass in ReplicaSet mode that succeeds has written a status whose one condition is `Ready`:
    -- `True` if the reconcile succeeded and `False` if it failed; the time of the transition is that
    -- of the condition before, if it has one and the status is the same, and otherwise the time of
    -- the pass.
    pub reconcile_replicaset_status-HasReported :
        (selector : Option (Option String)) (reconcile : Run Call (ReplicaSet × Option ℕ))
        (a : Action)
        → (reconcile_replicaset_status chrono random display now existing_ready w rsd selector
            reconcile).result
          ≡ ok a
        → (s : RestateDeploymentStatus) × Made
            (report_status s)
            (reconcile_replicaset_status chrono random display now existing_ready w rsd selector
              reconcile).calls
          × HasReported reconcile.result existing_ready now s
    unfolding reconcile_replicaset_status
    reconcile_replicaset_status-HasReported selector reconcile a h =
        let (outcome, observed, h1, _, later) =
          >>=-Made (observe chrono random display now existing_ready reconcile) _ h in
        let (s, made, reported) =
          verdict-HasReported outcome selector _ a
            (replicaset_verdict-Reports rsd.replicas (status_of rsd) outcome) h1 in
        (
          s,
          later _ made,
          subst (λ o. HasReported o existing_ready now s) (sym (ok_eq observed)) reported,
        )

    -- A pass in Knative mode that succeeds has written a status whose one condition is `Ready`: `True`
    -- if the reconcile of that mode succeeded and `False` if it failed; the time of the transition is
    -- that of the condition before, if it has one and the status is the same, and otherwise the time
    -- of the pass.
    pub reconcile_knative_status-HasReported :
        (reconcile : RestateDeploymentStatus → Run Call (Option ℕ) × RestateDeploymentStatus)
        (a : Action)
        → (reconcile_knative_status chrono random display now existing_ready w rsd reconcile).result
          ≡ ok a
        → (s : RestateDeploymentStatus) × Made
            (report_status s)
            (reconcile_knative_status chrono random display now existing_ready w rsd
              reconcile).calls
          × HasReported
              (knative_outcome chrono random display now existing_ready w rsd reconcile).0.result
              existing_ready
              now
              s
    unfolding reconcile_knative_status
    reconcile_knative_status-HasReported reconcile a h =
        let (outcome, observed, h1, _, later) =
          >>=-Made
            (observe chrono random display now existing_ready
              (knative_outcome chrono random display now existing_ready w rsd reconcile).0)
            _ h in
        let (s, made, reported) =
          verdict-HasReported outcome none _ a
            (knative_verdict-Reports
              (knative_outcome chrono random display now existing_ready w rsd reconcile).1 outcome)
            h1 in
        (
          s,
          later _ made,
          subst (λ o. HasReported o existing_ready now s) (sym (ok_eq observed)) reported,
        )
