-- ===== src/ReplicaSets/Select.antt =====
-- The ReplicaSets that one cleanup pass looks at: the first part of `cleanup_old_replicasets` in
-- src/controllers/restatedeployment/reconcilers/replicaset.rs.
use restate_operator.Base.{Bool, not, ◌&&◌, String, Option, List, str_eq, is_some_and, any, filter}
use restate_operator.Resources.{ReplicaSet}
use restate_operator.Versions.{namespace_of, is_owner, sort_by_creation}

-- The test of the closure that is given to `replicasets_store.find`.
unfoldable pub is_candidate : String → String → Option String → ReplicaSet → Bool
is_candidate namespace rsd_uid except_rs rs =
    str_eq (namespace_of rs.metadata.namespace) namespace
    && not (is_some_and except_rs (λ except. str_eq rs.metadata.name except))
    && any (is_owner rsd_uid) rs.metadata.owner_references

-- The versions in the order in which the loop visits them.
unfoldable pub candidates : String → String → Option String → List ReplicaSet → List ReplicaSet
candidates namespace rsd_uid except_rs store =
    sort_by_creation (λ rs. rs.metadata) (filter (is_candidate namespace rsd_uid except_rs) store)
