-- ===== src/Registration.antt =====
-- src/controllers/restatedeployment/registration.rs: what to tell Restate about the endpoint of
-- the current version, from what Restate and the cache say.
pub mod Plan
pub mod Owned
pub mod Confirm
use Prim.Native.Nat.{Ordering}
use Prim.Native.String.{compare}
use restate_operator.Versions.{namespace_of, is_owner, deployment_id_of}
use restate_operator.Base.{
  Bool, true, false, not, ◌&&◌, String, Option, none, some, List, [], ◌∷◌, map, filter, find, any,
  is_empty, str_eq, if◌then◌else◌, is_some_and, lookup, insert, concat, join,
}
use restate_operator.Errors.{Error, deployment_not_latest}
use restate_operator.Resources.{ReplicaSet, ObjectMeta}
use restate_operator.Effects.{Result, ok, err}
use restate_operator.Cleanup.{DeploymentUsage, DeploymentUsageMap}

pub data Overwrite : Type 0 where
  keep replace : Overwrite

-- `Overwrite::force`; `keep` is the source's `No` and `replace` its `Yes`.
abbrev pub force : Overwrite → Bool
force keep = false
force replace = true

pub data RegistrationAction : Type 0 where
  register : RegistrationAction
  promote : String → RegistrationAction
  already_latest : String → RegistrationAction
  conflict : RegistrationAction

abbrev pub overwrite : RegistrationAction → Overwrite
overwrite (promote superseded_by) = replace
overwrite _ = keep

abbrev pub is_latest : DeploymentUsageMap → String → Bool
is_latest deployments id = is_some_and (lookup id deployments) (λ usage. usage.latest_for_service)

abbrev pub promote_or_conflict : Option String → RegistrationAction
promote_or_conflict (some superseded_by) = promote superseded_by
promote_or_conflict none = conflict

abbrev pub plan_known :
    String → DeploymentUsageMap → List String → Option DeploymentUsage → RegistrationAction
plan_known recorded_id deployments owned_ids none = register
plan_known recorded_id deployments owned_ids (some usage) =
    if usage.latest_for_service
    then already_latest recorded_id
    else promote_or_conflict
        (find (is_latest deployments) (filter (λ id. not (str_eq id recorded_id)) owned_ids))

-- `owned_ids` in the ascending order of a BTreeSet.
unfoldable pub plan_registration :
    Option String → DeploymentUsageMap → List String → RegistrationAction
plan_registration none deployments owned_ids = register
plan_registration (some recorded_id) deployments owned_ids =
    plan_known recorded_id deployments owned_ids (lookup recorded_id deployments)

abbrev pub is_owned : String → String → ObjectMeta → Bool
is_owned namespace rsd_uid m =
    str_eq (namespace_of m.namespace) namespace && any (is_owner rsd_uid) m.owner_references

-- `BTreeSet::insert`: ascending, without a second copy.
unfoldable pub insert_id : String → List String → List String
insert_id id [] = id ∷ []
insert_id id (x ∷ xs) =
    let rest = insert_id id xs in
    elim (compare id x) [
      | Ordering.lt ↦ id ∷ x ∷ xs
      | Ordering.eq ↦ x ∷ xs
      | Ordering.gt ↦ x ∷ rest
    ]

abbrev insert_if_recorded : Option String → List String → List String
insert_if_recorded none ids = ids
insert_if_recorded (some id) ids = insert_id id ids

unfoldable pub collect_ids : List ObjectMeta → List String
unfolding insert_id
collect_ids [] = []
collect_ids (m ∷ rest) = insert_if_recorded (deployment_id_of m) (collect_ids rest)

-- The objects of either mode, by their metadata.
unfoldable pub owned_deployment_ids : List ObjectMeta → String → String → List String
unfolding collect_ids
owned_deployment_ids store namespace rsd_uid =
    collect_ids (filter (is_owned namespace rsd_uid) store)

unfoldable pub has_other_owned : List ReplicaSet → String → String → String → Bool
has_other_owned store namespace rsd_uid except_name =
    any
      (λ rs.
        str_eq (namespace_of rs.metadata.namespace) namespace
        && not (str_eq rs.metadata.name except_name)
        && any (is_owner rsd_uid) rs.metadata.owner_references)
      store

pub record RegisteredDeployment : Type 0 where
  pub id : String
  pub services : List String

-- The services of a response, collected into a map: of two entries for a service the later wins.
unfoldable pub collect_services :
    List (String × String) → List (String × String) → List (String × String)
collect_services latest [] = latest
collect_services latest ((service, deployment_id) ∷ rest) =
    collect_services (insert service deployment_id latest) rest

unfoldable pub latest_deployment_by_service : List (String × String) → List (String × String)
unfolding collect_services
latest_deployment_by_service services = collect_services [] services

abbrev pub routes_to : List (String × String) → String → String → Bool
routes_to latest id service = is_some_and (lookup service latest) (λ other. str_eq other id)

abbrev describe_route : String → Option String → String
describe_route service (some other) = concat (service ∷ " -> " ∷ other ∷ [])
describe_route service none = concat (service ∷ " -> (unregistered)" ∷ [])

unfoldable pub superseded : List (String × String) → RegisteredDeployment → List String
superseded latest registered =
    filter (λ service. not (routes_to latest registered.id service)) registered.services

-- `confirm_latest` once the services are known.
unfoldable pub judge_latest : List (String × String) → RegisteredDeployment → Result (Unit {0})
unfolding superseded
judge_latest latest registered =
    if is_empty (superseded latest registered)
    then ok tt
    else err (
        deployment_not_latest
          (concat (
            "Restate registered deployment "
            ∷ registered.id
            ∷ " but still routes new invocations elsewhere: "
            ∷ join ", " (
                map (λ service. describe_route service (lookup service latest))
                  (superseded latest registered))
            ∷ []))
          "NotLatest" none)
