-- ===== src/Examples/Registration.antt =====
-- The theorems on registration, at concrete deployments.
use restate_operator.ReplicaSets.Select.{candidates}
use restate_operator.Base.{◌≡◌, ◌↔◌, ◌⊎◌, String, some, All, [], ◌∷◌, true, false, lookup}
use restate_operator.Effects.{ok}
use restate_operator.Cleanup.{DeploymentUsageMap}
use restate_operator.Registration.{
  promote, RegisteredDeployment, plan_registration, overwrite, keep, judge_latest, has_other_owned,
}
use restate_operator.Registration.Plan.{IsJustified, plan_registration-IsJustified}
use restate_operator.Registration.Owned.{has_other_owned-candidates}
use restate_operator.Registration.Confirm.{judge_latest-confirms}
use restate_operator.Examples.Data.{store}

-- The old version still holds latest.
abbrev deployments : DeploymentUsageMap
deployments =
    ("dp_1", record { latest_for_service = true; pinned_invocations = 0; unpinned_invocations = 2 })
    ∷ (
      "dp_2",
      record { latest_for_service = false; pinned_invocations = 0; unpinned_invocations = 0 },
    )
    ∷ []

plan_registration-IsJustified_example :
    IsJustified
      (some "dp_2")
      deployments
      ("dp_1" ∷ "dp_2" ∷ [])
      (plan_registration (some "dp_2") deployments ("dp_1" ∷ "dp_2" ∷ []))
    × ((overwrite (plan_registration (some "dp_2") deployments ("dp_1" ∷ "dp_2" ∷ [])) ≡ keep)
        ⊎ ((other : String) × (plan_registration (some "dp_2") deployments ("dp_1" ∷ "dp_2" ∷ [])
              ≡ promote other)))
plan_registration-IsJustified_example =
    plan_registration-IsJustified (some "dp_2") deployments ("dp_1" ∷ "dp_2" ∷ [])

has_other_owned-candidates_example :
    (has_other_owned store "apps" "u1" "greeter-new" ≡ false)
    ↔ (candidates "apps" "u1" (some "greeter-new") store ≡ [])
has_other_owned-candidates_example = has_other_owned-candidates store "apps" "u1" "greeter-new"

abbrev registered : RegisteredDeployment
registered = record { id = "dp_2"; services = "greeter" ∷ "counter" ∷ [] }

judge_latest-confirms_example :
    (judge_latest (("greeter", "dp_2") ∷ ("counter", "dp_1") ∷ []) registered ≡ ok tt)
    ↔ All
        (λ service.
          lookup service (("greeter", "dp_2") ∷ ("counter", "dp_1") ∷ []) ≡ some registered.id)
        registered.services
judge_latest-confirms_example =
    judge_latest-confirms (("greeter", "dp_2") ∷ ("counter", "dp_1") ∷ []) registered
