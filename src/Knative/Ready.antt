-- ===== src/Knative/Ready.antt =====
-- The readiness checks of src/controllers/restatedeployment/reconcilers/knative.rs, and the replica
-- counts that it reads off a Revision.
use Prim.Native.Char.{code}
use restate_operator.Base.{
  ℕ, ℤ, pos, negsuc, ◌+◌, ◌-◌, ◌*◌, ◌^◌, ◌==◌, leb, ltb, Bool, true, String, Option, none, some,
  List, [], ◌∷◌, str_eq, is_some_and, any, find, if◌then◌else◌, unwrap_or, and_then, lookup, concat,
  eqb_ℤ, sub_i32, max_zero, ◌≡◌, ◌↔◌, arith,
}
use restate_operator.Errors.{configuration_not_ready, route_not_ready}
use restate_operator.Platform.{secs}
use restate_operator.Resources.{RestateDeploymentStatus}
use restate_operator.Effects.{Result, ok, err}
use restate_operator.Fallible.{ok_or, require}
use restate_operator.Cloud.{is_digit}
use restate_operator.Knative.{ObjectCondition, Configuration, Revision, Route, RevisionStatus}

abbrev pub millis : ℕ → ℕ
millis n = n * 1_000_000

-- `str::parse::<i32>().ok()`: a sign, and then digits that make a number in range.
unfoldable pub parse_digits : ℕ → String → Option ℕ
parse_digits acc String.[] = some acc
parse_digits acc (String.◌∷◌ c s) =
    let rest = parse_digits (acc * 10 + (code c - b'0')) s in
    if is_digit (code c) then rest else none

unfoldable pub parse_magnitude : String → Option ℕ
unfolding parse_digits
parse_magnitude String.[] = none
parse_magnitude (String.◌∷◌ c s) = parse_digits 0 (String.◌∷◌ c s)

abbrev below : ℕ → Option ℕ → Option ℤ
below bound none = none
below bound (some n) = if ltb n bound then some (pos n) else none

abbrev negated : Option ℕ → Option ℤ
negated none = none
negated (some n) =
    if n == 0 then some (pos 0) else if leb n (2 ^ 31) then some (negsuc (n - 1)) else none

unfoldable pub parse_i32 : String → Option ℤ
unfolding parse_magnitude
parse_i32 String.[] = none
parse_i32 (String.◌∷◌ c s) =
    if code c == b'+'
    then below (2 ^ 31) (parse_magnitude s)
    else if code c == b'-'
    then negated (parse_magnitude s)
    else below (2 ^ 31) (parse_digits 0 (String.◌∷◌ c s))

unfoldable pub get_initial_scale : Configuration → ℤ
unfolding parse_i32
get_initial_scale config =
    unwrap_or
      (and_then
        (and_then config.template_annotations
          (λ a. lookup "autoscaling.knative.dev/initial-scale" a))
        parse_i32)
      (pos 1)

abbrev ready_condition : Option (List ObjectCondition) → Option ObjectCondition
ready_condition conditions = and_then conditions (λ cs. find (λ c. str_eq c.type "Ready") cs)

abbrev check_ready_condition : String → Option ObjectCondition → Result (Unit {0})
check_ready_condition name (some c) =
    if str_eq c.status "True"
    then ok tt
    else err (
        configuration_not_ready (concat ("Revision " ∷ name ∷ " is not ready: " ∷ c.message ∷ []))
          c.reason (some (secs 5)))
check_ready_condition name none = err (
    configuration_not_ready
      (concat ("Revision " ∷ name ∷ " has out-of-date status information" ∷ [])) "NoConditions"
      (some (secs 5)))

unfoldable pub check_revision_ready : Revision → Result (Unit {0})
check_revision_ready revision =
    check_ready_condition revision.metadata.name
      (ready_condition (and_then revision.status (λ s. s.conditions)))

-- The Route sends traffic to the revision.
abbrev pub routes_traffic : Route → String → Bool
routes_traffic route expected_revision =
    is_some_and (and_then route.status (λ s. s.traffic))
      (λ traffic. any (λ t. is_some_and t (λ name. str_eq name expected_revision)) traffic)

abbrev check_traffic : Route → String → Result (Unit {0})
check_traffic route expected_revision =
    if routes_traffic route expected_revision
    then ok tt
    else err (
        route_not_ready
          (concat (
            "Route " ∷ route.metadata.name ∷ " is not routing traffic to revision "
            ∷ expected_revision ∷ []))
          "TrafficNotRolledOut" (some (secs 2)))

abbrev check_route_condition : Route → String → Option ObjectCondition → Result (Unit {0})
check_route_condition route expected_revision none = check_traffic route expected_revision
check_route_condition route expected_revision (some c) =
    if str_eq c.status "True"
    then check_traffic route expected_revision
    else err (
        route_not_ready
          (concat ("Route " ∷ route.metadata.name ∷ " is not ready: " ∷ c.message ∷ [])) c.reason
          (some (secs 5)))

-- A Route without a `Ready` condition passes if it sends traffic to the revision.
unfoldable pub check_route_ready : Route → String → Result (Unit {0})
check_route_ready route expected_revision =
    check_route_condition route expected_revision
      (ready_condition (and_then route.status (λ s. s.conditions)))

-- The status of the Configuration is that of its latest spec.
unfoldable pub check_generation : Configuration → Result (Unit {0})
check_generation config =
    require
      (eqb_ℤ (unwrap_or config.metadata.generation (pos 0))
        (unwrap_or (and_then config.status (λ s. s.observed_generation)) (pos 0)))
      (configuration_not_ready
        (concat
          ("Configuration " ∷ config.metadata.name ∷ " has out-of-date status information" ∷ []))
        "ObservedGenerationMismatch" (some (millis 500)))

unfoldable pub latest_created_revision : Configuration → Result String
latest_created_revision config =
    ok_or (and_then config.status (λ s. s.latest_created_revision_name)) (
      configuration_not_ready
        (concat
          ("Configuration " ∷ config.metadata.name ∷ " is waiting for initial deployment" ∷ []))
        "RevisionNotCreated" (some (secs 5)))

abbrev counted : RestateDeploymentStatus → ℤ → ℤ → RestateDeploymentStatus
counted s desired actual = record s {
  replicas = actual;
  desired_replicas = some desired;
  ready_replicas = some actual;
  available_replicas = some actual;
  unavailable_replicas = some (pos (max_zero (sub_i32 desired actual)));
}

abbrev counts_of : RestateDeploymentStatus → ℤ → Option RevisionStatus → RestateDeploymentStatus
counts_of s initial_scale (some r) =
    counted s (unwrap_or r.desired_replicas initial_scale) (unwrap_or r.actual_replicas (pos 0))
counts_of s initial_scale none = record s {
  replicas = pos 0;
  desired_replicas = some initial_scale;
  ready_replicas = some (pos 0);
  available_replicas = some (pos 0);
  unavailable_replicas = some initial_scale;
}

-- The replica counts of the status, from the Revision.
unfoldable pub count_replicas :
    Configuration → Revision → RestateDeploymentStatus → RestateDeploymentStatus
unfolding get_initial_scale
count_replicas config revision s = counts_of s (get_initial_scale config) revision.status

-- The Revision has a `Ready` condition that is `True`.
abbrev pub IsRevisionReady : Revision → Type 0
IsRevisionReady revision =
    (cs : List ObjectCondition) × (c : ObjectCondition) × (and_then revision.status
        (λ s. s.conditions)
      ≡ some cs)
    × (find (λ c. str_eq c.type "Ready") cs ≡ some c)
    × (str_eq c.status "True" ≡ true)

pub check_revision_ready-IsRevisionReady :
    (revision : Revision) → (check_revision_ready revision ≡ ok tt) ↔ IsRevisionReady revision
unfolding check_revision_ready
check_revision_ready-IsRevisionReady revision = (λ h. ground arith, λ h. ground arith)

pub check_route_ready-routes :
    (route : Route) (expected_revision : String)
    → check_route_ready route expected_revision ≡ ok tt
    → routes_traffic route expected_revision ≡ true
unfolding check_route_ready
check_route_ready-routes route expected_revision h = ground arith
