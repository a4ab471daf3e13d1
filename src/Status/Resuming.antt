-- ===== src/Status/Resuming.antt =====
-- The state of a RestateDeployment over a history of status writes, by `reconcile_suspended` and
-- `reconcile_status` of src/controllers/restatedeployment/controller.rs, each of which starts from
-- what the one before has written.
use restate_operator.Base.{
  ℕ, ◌≡◌, ◌≢◌, ◌↔◌, ◌⊎◌, inl, inr, refl, ◌∙◌, ap, String, Option, none, some, List, [], ◌∷◌, ◌++◌,
  All, and_then, eq_iff, arith,
}
use restate_operator.Platform.{Chrono, Random}
use restate_operator.Resources.{RestateDeployment, ReconciliationState}
use restate_operator.ErrorPolicy.{ready_condition}
use restate_operator.Status.{
  Displays, Verdict, status_of, suspended_status, concluded_status, state_after_reconcile,
}

abbrev IsPaused : Option ReconciliationState → Type 0
IsPaused s =
    (s ≡ some ReconciliationState.disabled) ⊎ (s ≡ some ReconciliationState.resuming_reconciliation)

after-unready :
    (s : Option ReconciliationState) (ready : String)
    → IsPaused s
    → ready ≢ "True"
    → state_after_reconcile s ready ≡ ReconciliationState.resuming_reconciliation
unfolding state_after_reconcile
after-unready s ready (inl e) h = rw e (ground (arith, eq_iff ready "True"))
after-unready s ready (inr e) h = rw e (ground (arith, eq_iff ready "True"))

resuming-inverted :
    (s : Option ReconciliationState) (ready : String)
    → state_after_reconcile s ready ≡ ReconciliationState.resuming_reconciliation
    → IsPaused s × (ready ≢ "True")
unfolding state_after_reconcile
resuming-inverted none ready h = cc
resuming-inverted (some ReconciliationState.reconciling) ready h = cc
resuming-inverted (some ReconciliationState.disabled) ready h =
    (inl refl, λ e. ground (arith, eq_iff ready "True"))
resuming-inverted (some ReconciliationState.resuming_reconciliation) ready h =
    (inr refl, λ e. ground (arith, eq_iff ready "True"))

never-disabled :
    (s : Option ReconciliationState) (ready : String)
    → state_after_reconcile s ready ≢ ReconciliationState.disabled
unfolding state_after_reconcile
never-disabled none ready h = cc
never-disabled (some ReconciliationState.reconciling) ready h = cc
never-disabled (some ReconciliationState.disabled) ready h = ground arith
never-disabled (some ReconciliationState.resuming_reconciliation) ready h = ground arith

some-eq : {a b : ReconciliationState} → some a ≡ some b → a ≡ b
some-eq h = cc

-- A pass that wrote the status: of a suspended resource, or after a reconcile with this verdict,
-- where the label selector is kept or is another.
pub data Pass : Type 0 where
  suspended : ℕ → Pass
  reconciled : ℕ → Option (Option String) → Verdict → Pass

module _ (chrono : Chrono) (random : Random) (display : Displays) (rsd : RestateDeployment) where
  -- The resource after the passes, the latest first.
  unfoldable pub written : List Pass → RestateDeployment
  written [] = rsd
  written (suspended now ∷ before) = record (written before) {
    status = some (suspended_status (status_of (written before)) now);
  }
  written (reconciled now selector v ∷ before) = record (written before) {
    status = some (
        concluded_status chrono random display now (ready_condition (written before))
          (written before) selector v);
  }

  abbrev pub state : List Pass → Option ReconciliationState
  state passes = and_then (written passes).status (λ s. s.reconciliation)

  abbrev pub IsUnready : Pass → Type 0
  IsUnready (suspended now) = ⊥
  IsUnready (reconciled now selector v) = v.ready ≢ "True"

  -- The passes since the last suspension, none of which was ready.
  abbrev pub AreSince : List Pass → List Pass → Type 0
  AreSince passes since =
      (now : ℕ) × (before : List Pass) × (passes ≡ since ++ suspended now ∷ before)
      × All IsUnready since

  state-suspended :
      (now : ℕ) (before : List Pass)
      → state (suspended now ∷ before) ≡ some ReconciliationState.disabled
  unfolding written suspended_status
  state-suspended now before = refl

  state-reconciled :
      (now : ℕ) (selector : Option (Option String)) (v : Verdict) (before : List Pass)
      → state (reconciled now selector v ∷ before)
        ≡ some (state_after_reconcile (state before) v.ready)
  unfolding written concluded_status
  state-reconciled now selector v before = refl

  module _ (fresh : and_then rsd.status (λ s. s.reconciliation) ≡ none) where
    paused-AreSince :
        (passes : List Pass) → IsPaused (state passes) → (since : List Pass) × AreSince passes since
    unfolding written
    paused-AreSince [] (inl e) = cc
    paused-AreSince [] (inr e) = cc
    paused-AreSince (suspended now ∷ before) p = ([], (now, before, refl, tt))
    paused-AreSince (reconciled now selector v ∷ before) (inl e) =
        absurd (never-disabled (state before) v.ready (some-eq (rw state-reconciled at e)))
    paused-AreSince (reconciled now selector v ∷ before) (inr e) =
        let (paused, unready) =
          resuming-inverted (state before) v.ready (some-eq (rw state-reconciled at e)) in
        let (since, (at', earlier, is, all)) = paused-AreSince before paused in
        (
          reconciled now selector v ∷ since,
          (at', earlier, ap (λ ps. reconciled now selector v ∷ ps) is, (unready, all)),
        )

    since-resuming :
        (pass : Pass) (since before : List Pass) (now : ℕ)
        → All IsUnready (pass ∷ since)
        → state (pass ∷ since ++ suspended now ∷ before)
          ≡ some ReconciliationState.resuming_reconciliation
    since-resuming (suspended t) since before now h = absurd h.0
    since-resuming (reconciled t selector v) [] before now h =
        state-reconciled t selector v (suspended now ∷ before)
        ∙ ap some (after-unready _ v.ready (inl (state-suspended now before)) h.0)
    since-resuming (reconciled t selector v) (p ∷ since) before now h =
        state-reconciled t selector v (p ∷ since ++ suspended now ∷ before)
        ∙ ap some (after-unready _ v.ready (inr (since-resuming p since before now h.1)) h.0)

    split_latest :
        (passes : List Pass)
        → state passes ≡ some ReconciliationState.resuming_reconciliation
        → (since : List Pass) × AreSince passes since
        → (pass : Pass) × (since : List Pass) × AreSince passes (pass ∷ since)
    split_latest passes e ([], (now, before, is, all)) =
        cc (state-suspended now before, ap state is)
    split_latest passes e (pass ∷ since, rest) = (pass, since, rest)

    disabled-latest :
        (passes : List Pass)
        → state passes ≡ some ReconciliationState.disabled
        → (now : ℕ) × (before : List Pass) × (passes ≡ suspended now ∷ before)
    unfolding written
    disabled-latest [] e = cc
    disabled-latest (suspended now ∷ before) e = (now, before, refl)
    disabled-latest (reconciled now selector v ∷ before) e =
        absurd (never-disabled (state before) v.ready (some-eq (rw state-reconciled at e)))

    -- After passes of `reconcile_suspended` and of `reconcile_status` that each wrote the status of a
    -- RestateDeployment, which had no state before them, the status says that it is resuming exactly
    -- if one of them found it suspended, it has been reconciled since, and none of the reconciles
    -- since left it ready; and that it is disabled exactly if the latest pass found it suspended.
    pub written-resuming :
        (passes : List Pass)
        → ((state passes ≡ some ReconciliationState.resuming_reconciliation)
            ↔ ((pass : Pass) × (since : List Pass) × AreSince passes (pass ∷ since)))
          × ((state passes ≡ some ReconciliationState.disabled)
              ↔ ((now : ℕ) × (before : List Pass) × (passes ≡ suspended now ∷ before)))
    written-resuming passes = (
      (
        λ e. split_latest passes e (paused-AreSince passes (inr e)),
        λ h. ap state h.2.2 ∙ since-resuming h.0 h.1 h.2.1 h.2.0 h.2.3,
      ),
      (disabled-latest passes, λ h. ap state h.2 ∙ state-suspended h.0 h.1),
    )
