-- ===== src/Examples/StatefulSets.antt =====
-- The theorems on a change of storage, at a pass that deletes the StatefulSet and one that recreates
-- it.
use restate_operator.Base.{
  ◌≡◌, refl, inl, inr, pos, Bool, true, false, String, Option, none, some, List, [], ◌∷◌, str_eq,
  if◌then◌else◌, lookup,
}
use restate_operator.Effects.{Result, ok, Made, ◌>>=◌}
use restate_operator.Fallible
use restate_operator.StatefulSets.{
  remember, StrategyJson, StorageWorld, RestateClusterStorage, CachedStatefulSet, ClusterCache,
  reconcile_stateful_set, change_statefulset_storage, apply_claims, replace_stateful_set,
  has_storage, recreate_stateful_set, remembered_text, parse_strategy, apply_remembered,
}
use restate_operator.StatefulSets.Volumes.{validate_pod_volumes, first_duplicate}
use restate_operator.StatefulSets.Recreated.{IsRestored, reconcile_stateful_set-IsRestored}

-- Whether the update strategy is `OnDelete`.
abbrev written : Bool → String
written true = "OnDelete"
written false = "RollingUpdate"

abbrev read_back : String → Option Bool
read_back s =
    if str_eq s "OnDelete" then some true else if str_eq s "RollingUpdate" then some false else none

pub read_back-written : (s : Bool) → read_back (written s) ≡ some s
read_back-written true = refl
read_back-written false = refl

abbrev pub json : StrategyJson Bool
json = record {
  encode = written;
  decode = read_back;
  decode_error = λ s. "unknown";
  default_strategy = false;
  decode-encode = read_back-written;
}

abbrev pub answers : Option String → StorageWorld Bool
answers annotation = record {
  kube = λ c. none;
  pvc_phase = λ name. some "Bound";
  annotation = annotation;
}

abbrev pub grown : RestateClusterStorage
grown = record { storage_request_bytes = pos 2048; volume_attributes_class_name = none }

abbrev small : CachedStatefulSet Bool
small = record {
  uid = some "u3";
  deleting = false;
  storage_request = some (some (pos 1024));
  volume_attributes_class_name = none;
  update_strategy = some true;
}

abbrev before : ClusterCache Bool
before = record {
  claims = record { name = "storage-restate-0"; labels = ("app", "restate") ∷ [] } ∷ [];
  stateful_set = some small;
  annotation = none;
}

abbrev pub after : ClusterCache Bool
after = record before { stateful_set = none }

abbrev pub labels : List (String × String)
labels = ("app", "restate") ∷ []

abbrev valid : Result (Unit {0})
valid =
    validate_pod_volumes (λ s. s)
      (record { claim_templates = "storage" ∷ []; volumes = "tmp" ∷ []; mount_paths = "/tmp" ∷ [] })

written_down :
    Made
      (remember "OnDelete")
      (reconcile_stateful_set json (answers none) grown before labels valid).calls
unfolding reconcile_stateful_set change_statefulset_storage apply_claims replace_stateful_set
    has_storage ◌>>=◌ lookup
written_down = inr (inl refl)

recreated :
    (reconcile_stateful_set json (answers (some "OnDelete")) grown after labels valid).result
    ≡ ok tt
unfolding reconcile_stateful_set change_statefulset_storage apply_claims replace_stateful_set
    remembered_text parse_strategy apply_remembered recreate_stateful_set ◌>>=◌ lookup
    validate_pod_volumes first_duplicate Fallible.◌>>=◌
recreated = refl

reconcile_stateful_set-IsRestored_example :
    IsRestored json
      (answers (some "OnDelete"))
      grown
      after
      true
      (reconcile_stateful_set json (answers (some "OnDelete")) grown after labels valid).calls
reconcile_stateful_set-IsRestored_example =
    reconcile_stateful_set-IsRestored json grown labels (answers none) (answers (some "OnDelete"))
      before after valid valid small "OnDelete" refl written_down refl refl recreated
