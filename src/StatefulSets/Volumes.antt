-- ===== src/StatefulSets/Volumes.antt =====
-- `validate_pod_volumes` of src/controllers/restatecluster/reconcilers/compute.rs.
use restate_operator.Base.{
  String, Option, none, some, List, [], ◌∷◌, any, str_eq, if◌then◌else◌, concat,
}
use restate_operator.Errors.{invalid_restate_config}
use restate_operator.Effects.{Result, ok, err}
use restate_operator.Fallible.{◌>>=◌}

-- The names and paths of a StatefulSet: of its claim templates that have a name, of the volumes of
-- its pods, and of what the first container mounts. `debug` is the format `{:?}` of a text.
pub record PodVolumes : Type 0 where
  pub claim_templates : List String
  pub volumes : List String
  pub mount_paths : List String

-- Of `HashSet::insert` in a loop: the first text that was there before.
unfoldable pub first_duplicate : List String → List String → Option String
first_duplicate seen [] = none
first_duplicate seen (s ∷ rest) =
    let later = first_duplicate (s ∷ seen) rest in
    if any (λ t. str_eq t s) seen then some s else later

abbrev pub reject : (String → String) → Option String → Result (Unit {0})
reject message none = ok tt
reject message (some s) = err (invalid_restate_config (message s))

unfoldable pub validate_pod_volumes : (String → String) → PodVolumes → Result (Unit {0})
validate_pod_volumes debug p = do
  _ ←
      reject
        (λ name. concat (
          "duplicate pod volume name "
          ∷ debug name
          ∷ ": spec.compute.extraVolumes must not reuse a name already used by another volume (operator-managed names include \"storage\", \"tmp\", \"config\", \"combined-ca-certs\", \"trusted-ca-<n>\", and \"request-signing-private-key-secret\"/\"-provider\")"
          ∷ []))
        (first_duplicate p.claim_templates p.volumes)
  reject
      (λ path. concat (
        "duplicate volume mountPath "
        ∷ debug path
        ∷ " on the Restate container: spec.compute.extraVolumeMounts must not reuse a path the operator already mounts (e.g. /restate-data, /tmp, /config)"
        ∷ []))
      (first_duplicate [] p.mount_paths)
