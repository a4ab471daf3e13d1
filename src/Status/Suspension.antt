-- ===== src/Status/Suspension.antt =====
-- What a suspension leaves in the status, and what clears it.
use mathlib.Core.List.{append-nil}
use restate_operator.Base.{
  ℕ, ◌≡◌, refl, ◌∙◌, ap, true, not, some, List, [], ◌∷◌, ◌++◌, filter, filter-append, find,
  Bool-cases, inl, inr, unwrap_or, Option, none, false, ◌≢◌, ◌⊎◌, str_eq, eq_iff, arith,
}
use restate_operator.Resources.{
  RestateDeployment, RestateDeploymentStatus, Condition, ReconciliationState,
}
use restate_operator.Deletion.Report.{is_suspension, suspension_to_clear}
use restate_operator.Status.{since_of, suspension_mark, marked, suspended_status}

abbrev pub others : List Condition → List Condition
others = filter (λ cond. not (is_suspension cond))

-- The conditions of a status but for the suspension mark.
abbrev pub kept : RestateDeploymentStatus → List Condition
kept s = others (unwrap_or s.conditions [])

others-others : (conditions : List Condition) → others (others conditions) ≡ others conditions
others-others [] = refl
others-others (c ∷ cs) = elim (Bool-cases (is_suspension c)) [
  | inl e ↦ rw e (others-others cs)
  | inr e ↦ rw (e, e) (ap (λ rest. c ∷ rest) (others-others cs))
]

find-others :
    (conditions : List Condition) (mark : Condition)
    → is_suspension mark ≡ true
    → find is_suspension (others conditions ++ mark ∷ []) ≡ some mark
find-others [] mark h = rw h
find-others (c ∷ cs) mark h = elim (Bool-cases (is_suspension c)) [
  | inl e ↦ rw e (find-others cs mark h)
  | inr e ↦ rw (e, e) (find-others cs mark h)
]

others-marked :
    (conditions : List Condition) (now : ℕ) → others (marked conditions now) ≡ others conditions
unfolding marked
others-marked conditions now =
    filter-append (λ cond. not (is_suspension cond)) (others conditions)
      (suspension_mark (find is_suspension conditions) now ∷ [])
    ∙ ap (λ cs. cs ++ []) (others-others conditions)
    ∙ append-nil (others conditions)

marked-marked :
    (conditions : List Condition) (began later : ℕ)
    → marked (marked conditions began) later ≡ marked conditions began
unfolding marked
marked-marked conditions began later =
    rw (find-others conditions (suspension_mark (find is_suspension conditions) began) refl) (
      ap (λ cs. cs ++ suspension_mark (find is_suspension conditions) began ∷ [])
        (others-marked conditions began))

-- When the suspension began, seen by a pass at `now`: at the transition of a suspension mark that is
-- `False`, if it has a time, and now otherwise.
abbrev pub BeganAt : Option Condition → ℕ → ℕ → Type 0
BeganAt none now t = t ≡ now
BeganAt (some c) now t =
    ((c.status ≡ "False") × (t ≡ unwrap_or c.last_transition_time now))
    ⊎ ((c.status ≢ "False") × (t ≡ now))

since_of-BeganAt :
    (existing : Option Condition) (now : ℕ) → BeganAt existing now (since_of existing now)
since_of-BeganAt none now = refl
since_of-BeganAt (some c) now = elim (Bool-cases (str_eq c.status "False")) [
  | inl e ↦ rw e (inl ((eq_iff c.status "False").0 e, refl))
  | inr e ↦ rw e (inr (λ h. differs e h, refl))
]
  where
    differs : str_eq c.status "False" ≡ false → c.status ≢ "False"
    differs e h = ground (arith, eq_iff c.status "False")

-- The status has the mark of a suspension, with the time when it began by the conditions before.
abbrev pub IsMarked : RestateDeploymentStatus → List Condition → ℕ → Type 0
IsMarked status before now =
    (mark : Condition) × (find is_suspension (unwrap_or status.conditions []) ≡ some mark)
    × (mark.status ≡ "False")
    × (t : ℕ) × (mark.last_transition_time ≡ some t)
    × BeganAt (find is_suspension before) now t

-- A resource that stays suspended keeps the status that the first suspended pass wrote. That status
-- has the suspension mark, with the time of a mark that was `False` already, if it had one, and
-- otherwise the time of the pass; the pass leaves the other conditions as they are, and all else
-- but the state; and a deletion gives exactly those other conditions back.
pub suspended_status-marks :
    (rsd : RestateDeployment) (s : RestateDeploymentStatus) (began later : ℕ)
    → (suspended_status (suspended_status s began) later ≡ suspended_status s began)
      × (kept (suspended_status s began) ≡ kept s)
      × (record (suspended_status s began) {
        conditions = s.conditions;
        reconciliation = s.reconciliation;
      }
          ≡ s)
      × (suspension_to_clear (record rsd { status = some (suspended_status s began) })
          ≡ some (kept s))
      × IsMarked (suspended_status s began) (unwrap_or s.conditions []) began
unfolding suspended_status suspension_to_clear marked
suspended_status-marks rsd s began later =
    let conditions = unwrap_or s.conditions [] in
    (
      ap
          (λ cs. record s {
            conditions = some cs;
            reconciliation = some ReconciliationState.disabled;
          })
          (marked-marked conditions began later),
      others-marked conditions began,
      refl,
      ap some (others-marked conditions began),
      (
        suspension_mark (find is_suspension conditions) began,
        find-others conditions (suspension_mark (find is_suspension conditions) began) refl,
        refl,
        since_of (find is_suspension conditions) began,
        refl,
        since_of-BeganAt (find is_suspension conditions) began,
      ),
    )
