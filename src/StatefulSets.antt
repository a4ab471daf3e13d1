-- ===== src/StatefulSets.antt =====
-- How src/controllers/restatecluster/reconcilers/compute.rs changes the storage of a RestateCluster:
-- `change_statefulset_storage`, `remember_update_strategy`, `recreate_stateful_set` and the part of
-- `reconcile_compute` that calls them. A StatefulSet's claim templates cannot be changed, so it is
-- deleted without its pods, and a later pass creates it again with the update strategy that it had.
pub mod Volumes
pub mod History
pub mod Reasons
pub mod Strategy
pub mod Recreated
use restate_operator.Base.{
  ℕ, ℤ, Bool, true, false, not, ◌&&◌, ◌≡◌, String, Option, none, some, List, [], ◌∷◌, lookup,
  str_eq, is_some, is_some_and, if◌then◌else◌, unwrap_or, concat, eqb_ℤ,
}
use restate_operator.Errors.{Error, KubeError, kube_error, not_ready, serialization_error}
use restate_operator.Platform.{secs}
use restate_operator.Effects.{Run, Result, ok, err, panicked, pure, fail, answered, ◌>>=◌, ◌>>◌}

-- `Strategy` stands for k8s-openapi's StatefulSetUpdateStrategy.
pub data StorageCall (Strategy : Type 0) : Type 0 where
  apply_pvc : String → StorageCall Strategy
  -- the annotation of the RestateCluster
  remember : String → StorageCall Strategy
  forget get_cluster : StorageCall Strategy
  -- by uid, with the propagation policy `Orphan`
  delete_orphaning : Option String → StorageCall Strategy
  apply_stateful_set : Option Strategy → StorageCall Strategy
  -- by the second field manager
  own_strategy : Strategy → StorageCall Strategy

-- How a strategy is written as JSON, and read back, and the default one.
pub record StrategyJson (Strategy : Type 0) : Type 0 where
  pub encode : Strategy → String
  pub decode : String → Option Strategy
  pub decode_error : String → String
  pub default_strategy : Strategy
  pub decode-encode : (s : Strategy) → decode (encode s) ≡ some s

-- What the API server answers: an error, the phase of an applied claim, and the annotation that the
-- RestateCluster has there.
pub record StorageWorld (Strategy : Type 0) : Type 0 where
  pub kube : StorageCall Strategy → Option KubeError
  pub pvc_phase : String → Option String
  pub annotation : Option String

pub record RestateClusterStorage : Type 0 where
  pub storage_request_bytes : ℤ
  pub volume_attributes_class_name : Option String

pub record PersistentVolumeClaim : Type 0 where
  pub name : String
  pub labels : List (String × String)

-- The cached StatefulSet. `storage_request` is that of its first claim template, as `to_bytes` reads
-- it.
pub record CachedStatefulSet (Strategy : Type 0) : Type 0 where
  pub uid : Option String
  pub deleting : Bool
  pub storage_request : Option (Option ℤ)
  pub volume_attributes_class_name : Option String
  pub update_strategy : Option Strategy

-- The caches of the operator: the claims, the StatefulSet, and the annotation of the RestateCluster.
pub record ClusterCache (Strategy : Type 0) : Type 0 where
  pub claims : List PersistentVolumeClaim
  pub stateful_set : Option (CachedStatefulSet Strategy)
  pub annotation : Option String

abbrev pub has_labels : List (String × String) → PersistentVolumeClaim → Bool
has_labels [] pvc = true
has_labels ((k, v) ∷ labels) pvc =
    is_some_and (lookup k pvc.labels) (λ value. str_eq value v) && has_labels labels pvc

abbrev pub same_text : Option String → Option String → Bool
same_text none none = true
same_text (some s) (some t) = str_eq s t
same_text _ _ = false

abbrev pub requests : Option (Option ℤ) → ℤ → Bool
requests (some (some bytes)) wanted = eqb_ℤ bytes wanted
requests _ wanted = false

module _ {Strategy : Type 0} (json : StrategyJson Strategy) (w : StorageWorld Strategy)
    (storage : RestateClusterStorage) (cache : ClusterCache Strategy) where
  abbrev pub error_of : Option KubeError → Option Error
  error_of none = none
  error_of (some e) = some (kube_error e)

  abbrev pub storage_call : StorageCall Strategy → Run (StorageCall Strategy) (Unit {0})
  storage_call c = answered c (error_of (w.kube c))

  abbrev pub await_bound : String → Run (StorageCall Strategy) (Unit {0})
  await_bound name =
      if is_some_and (w.pvc_phase name) (λ phase. str_eq phase "Bound")
      then pure tt
      else fail (
          not_ready
            (concat ("PersistentVolumeClaim " ∷ name ∷ " is not yet bound to a volume" ∷ []))
            "PersistentVolumeClaimNotBound" none)

  -- The claims with the labels of the cluster.
  unfoldable pub apply_claims :
      List (String × String) → List PersistentVolumeClaim → Run (StorageCall Strategy) (Unit {0})
  apply_claims labels [] = pure tt
  apply_claims labels (pvc ∷ pvcs) =
      let rest = apply_claims labels pvcs in
      if has_labels labels pvc
      then (do storage_call (apply_pvc pvc.name); await_bound pvc.name; rest)
      else rest

  unfoldable pub has_storage : CachedStatefulSet Strategy → Bool
  has_storage existing =
      requests existing.storage_request storage.storage_request_bytes
      && same_text existing.volume_attributes_class_name storage.volume_attributes_class_name

  abbrev pub strategy_of : CachedStatefulSet Strategy → Strategy
  strategy_of existing = unwrap_or existing.update_strategy json.default_strategy

  -- Whether the StatefulSet is on its way out.
  unfoldable pub replace_stateful_set :
      Option (CachedStatefulSet Strategy) → Run (StorageCall Strategy) Bool
  unfolding has_storage
  replace_stateful_set none = pure false
  replace_stateful_set (some existing) =
      if existing.deleting then pure true else if has_storage existing then pure false else (do
        storage_call (remember (json.encode (strategy_of existing)))
        storage_call (delete_orphaning existing.uid)
        pure true)

  unfoldable pub change_statefulset_storage :
      List (String × String) → Run (StorageCall Strategy) Bool
  change_statefulset_storage labels = do
    apply_claims labels cache.claims
    replace_stateful_set cache.stateful_set

  unfoldable pub recreate_stateful_set : Strategy → Run (StorageCall Strategy) (Unit {0})
  recreate_stateful_set strategy = do
    storage_call (apply_stateful_set (some strategy))
    storage_call (own_strategy strategy)

  -- The cache of the RestateCluster may lag behind a delete, so a recreation asks the API server.
  unfoldable pub remembered_text :
      Option (CachedStatefulSet Strategy) → Run (StorageCall Strategy) (Option String)
  remembered_text (some existing) = pure cache.annotation
  remembered_text none = do storage_call get_cluster; pure w.annotation

  abbrev pub of_decoded : String → Option Strategy → Result (Option Strategy)
  of_decoded text none = err (serialization_error (json.decode_error text))
  of_decoded text (some strategy) = ok (some strategy)

  unfoldable pub parse_strategy : Option String → Result (Option Strategy)
  parse_strategy none = ok none
  parse_strategy (some text) = of_decoded text (json.decode text)

  abbrev pub apply_or_recreate :
      Option (CachedStatefulSet Strategy) → Strategy → Run (StorageCall Strategy) (Unit {0})
  apply_or_recreate (some existing) strategy = storage_call (apply_stateful_set none)
  apply_or_recreate none strategy = recreate_stateful_set strategy

  unfoldable pub apply_remembered : Option Strategy → Run (StorageCall Strategy) (Unit {0})
  apply_remembered none = storage_call (apply_stateful_set none)
  apply_remembered (some strategy) = do
    apply_or_recreate cache.stateful_set strategy
    storage_call forget

  abbrev pub already : {A : Type 0} → Result A → Run (StorageCall Strategy) A
  already r = record { calls = []; result = r }

  abbrev pub unless_recreating : Bool → Run (StorageCall Strategy) (Unit {0})
  unless_recreating true = fail (
      not_ready
        "Waiting for StatefulSet restate to be deleted before recreating it with the new storage"
        "StatefulSetRecreating" (some (secs 5)))
  unless_recreating false = pure tt

  -- `valid` is what `validate_pod_volumes` says of the StatefulSet that is applied.
  unfoldable pub reconcile_stateful_set :
      List (String × String) → Result (Unit {0}) → Run (StorageCall Strategy) (Unit {0})
  reconcile_stateful_set labels valid = do
    recreating ← change_statefulset_storage labels
    unless_recreating recreating
    text ← remembered_text cache.stateful_set
    strategy ← already (parse_strategy text)
    already valid
    apply_remembered strategy
