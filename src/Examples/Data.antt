-- ===== src/Examples/Data.antt =====
-- A platform, two versions of a RestateDeployment and the answers of the servers, for the tests.
use restate_operator.Base.{
  ℕ, zero, suc, ◌+◌, ◌-◌, ◌*◌, ◌/◌, ◌≤◌, ◌<◌, ◌≡◌, refl, ap, String, Option, none, some, List, [],
  ◌∷◌, arith, ℤ, pos, negsuc, max_zero, leb, if◌then◌else◌, true, false,
}
use restate_operator.Platform.{secs, Chrono, Random, one_f64}
use restate_operator.Resources.{
  RestateDeployment, RestateSpec, RestateAdminEndpoint, DeletePolicy, OnTimeout, ReplicaSet,
  ObjectMeta,
}
use restate_operator.Cleanup.{DeploymentUsageRow}
use restate_operator.Calls.{World, response, found}

abbrev pub exact_since : ℕ → ℕ → Option ℕ
exact_since now then' = if leb then' now then some (now - then') else none

abbrev pub exact_seconds : ℕ → ℕ → ℤ
exact_seconds due now =
    if leb now due then pos ((due - now) / secs 1) else negsuc ((now - due) / secs 1)

-- A date is printed as a mark for each nanosecond.
abbrev pub tally : ℕ → String
tally zero = ""
tally (suc n) = String.◌∷◌ "|" (tally n)

abbrev pub tallied : String → ℕ
tallied String.[] = 0
tallied (String.◌∷◌ c s) = suc (tallied s)

pub tallied-tally : (n : ℕ) → tallied (tally n) ≡ n
tallied-tally zero = refl
tallied-tally (suc n) = ap suc (tallied-tally n)

pub exact_since_ok : (now then' : ℕ) → then' ≤ now → exact_since now then' ≡ some (now - then')
exact_since_ok now then' h = ground arith

pub exact_since_negative : (now then' : ℕ) → now < then' → exact_since now then' ≡ none
exact_since_negative now then' h = ground arith

pub exact_seconds_ahead :
    (due now : ℕ) → now ≤ due → exact_seconds due now ≡ pos ((due - now) / secs 1)
exact_seconds_ahead due now h = ground arith

pub exact_seconds_past : (due now : ℕ) → due < now → max_zero (exact_seconds due now) ≡ 0
exact_seconds_past due now h = ground arith

pub exact_add : (t n : ℕ) {u : ℕ} → some (t + secs n) ≡ some u → u ≡ t + secs n
exact_add t n h = ground arith

abbrev pub exact_chrono : Chrono
exact_chrono = record {
  since = exact_since;
  add_seconds = λ t n. some (t + secs n);
  parse_rfc3339 = λ s. some (tallied s);
  to_rfc3339 = tally;
  seconds_until = exact_seconds;
  since_ok = exact_since_ok;
  since_negative = exact_since_negative;
  seconds_ahead = exact_seconds_ahead;
  seconds_past = exact_seconds_past;
  add_exact = exact_add;
  parse-to = λ t. ap some (tallied-tally t);
}

-- The exact product, rounded down.
abbrev pub mul_exact : ℕ → ℕ → ℕ
mul_exact d f = d * f / one_f64

pub exact_one : (d : ℕ) → mul_exact d one_f64 ≡ d
exact_one d = omega arith

pub exact_monotone : (d f g : ℕ) → f ≤ g → mul_exact d f ≤ mul_exact d g
exact_monotone d f g h = let product : d * f ≤ d * g = grind arith in omega arith

pub exact_above : (x : ℕ) → one_f64 * (x / one_f64) ≤ x + one_f64
exact_above x = omega arith

pub exact_below : (x : ℕ) → x ≤ one_f64 * (x / one_f64) + one_f64
exact_below x = omega arith

-- Every draw is 0.
abbrev pub no_jitter : Random
no_jitter = record {
  draw = 0;
  draw_range = omega arith;
  mul_f64 = mul_exact;
  mul_one = λ d h. exact_one d;
  mul_monotone = exact_monotone;
  mul_above = λ d f h k. exact_above (d * f);
  mul_below = λ d f h k. exact_below (d * f);
}

abbrev pub endpoint : RestateAdminEndpoint
endpoint = record { cluster = some "restate"; cloud = none; service = none; url = none }

abbrev pub spec_with : DeletePolicy → OnTimeout → RestateSpec
spec_with policy on_timeout = record {
  register = endpoint;
  service_path = none;
  use_http11 = none;
  drain_delay_seconds = some (pos 1);
  tunnel_mode = none;
  delete_policy = some policy;
  drain = some (record { timeout_seconds = some (pos 2); on_timeout = some on_timeout });
}

-- `greeter`, deleted at time 0.
abbrev pub greeter_with : RestateSpec → RestateDeployment
greeter_with spec = record {
  name = "greeter";
  uid = "u1";
  generation = some (pos 1);
  annotations = [];
  deletion_timestamp = some 0;
  replicas = pos 3;
  revision_history_limit = pos 1;
  deployment_mode = none;
  knative = none;
  autoscaling = none;
  restate = spec;
  status = none;
}

abbrev pub greeter_holding : RestateDeployment
greeter_holding = greeter_with (spec_with DeletePolicy.drain OnTimeout.hold)

abbrev pub greeter_timed : RestateDeployment
greeter_timed = greeter_with (spec_with DeletePolicy.drain OnTimeout.force)

abbrev pub greeter_forced : RestateDeployment
greeter_forced = greeter_with (spec_with DeletePolicy.force OnTimeout.hold)

-- The metadata of an object of `greeter`.
abbrev pub metadata_of : String → ℕ → List (String × String) → ObjectMeta
metadata_of name created annotations = record {
  name = name;
  namespace = some "apps";
  generation = some (pos 1);
  creation_timestamp = some created;
  deletion_timestamp = none;
  owner_references = record { uid = "u1"; kind = "RestateDeployment" } ∷ [];
  annotations = annotations;
}

-- A version that is due for removal, and one that is registered and has no deadline yet.
abbrev pub version : String → ℕ → String → List (String × String) → ReplicaSet
version name created id others = record {
  metadata = metadata_of name created (("restate.dev/deployment-id", id) ∷ others);
  replicas = some (pos 3);
  status = none;
}

abbrev pub old_version : ReplicaSet
old_version = version "greeter-old" 1 "dp_1" (("restate.dev/remove-version-at", "||") ∷ [])

abbrev pub new_version : ReplicaSet
new_version = version "greeter-new" 2 "dp_2" []

abbrev pub store : List ReplicaSet
store = old_version ∷ new_version ∷ []

abbrev pub row : String → ℕ → DeploymentUsageRow
row id pinned = record {
  deployment_id = id;
  latest_for_service = false;
  pinned_invocations = pos pinned;
  unpinned_invocations = negsuc 0;
}

abbrev pub world : List DeploymentUsageRow → World
world rows = record {
  kube = λ _. none;
  unbuildable = λ _. none;
  admin = λ _. response 200 "http://restate:9070" "[]";
  decode_rows = λ _. some rows;
  cluster_lookup = λ _. found;
  hpa_cached = λ _. true;
  now = 10;
  stamped_at = λ _. 11;
  ended_at = 12;
}

-- The old version is idle, and the new one has an invocation pinned to it.
abbrev pub busy_rows : List DeploymentUsageRow
busy_rows = row "dp_1" 0 ∷ row "dp_2" 4 ∷ []

abbrev pub idle_rows : List DeploymentUsageRow
idle_rows = row "dp_1" 0 ∷ row "dp_3" 4 ∷ []
