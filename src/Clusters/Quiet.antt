-- ===== src/Clusters/Quiet.antt =====
-- Lemmas on `Error::Provisioned`, and the change of the storage of a RestateCluster.
use restate_operator.Base.{
  arith, ◌≡◌, ◌≢◌, inl, inr, Bool, true, false, String, Option, none, some, List, [], ◌∷◌,
  Bool-cases,
}
use restate_operator.Errors.{Error, KubeError, provisioned}
use restate_operator.Effects.{Run, Result, ok, err, panicked, answered, ◌>>=◌, continue}
use restate_operator.Fallible
use restate_operator.StatefulSets.{
  StorageCall, StrategyJson, StorageWorld, RestateClusterStorage, PersistentVolumeClaim,
  CachedStatefulSet, ClusterCache, has_labels, has_storage, await_bound, apply_claims,
  replace_stateful_set, change_statefulset_storage, recreate_stateful_set, remembered_text,
  parse_strategy, apply_or_recreate, apply_remembered, unless_recreating, reconcile_stateful_set,
  storage_call, error_of, of_decoded,
}
use restate_operator.StatefulSets.Volumes.{PodVolumes, reject, validate_pod_volumes}

module _ {A B : Type 0} where
  pub err_eq :
      {d e : Error} → ◌≡◌ {A = Result B} (err d) (err e) → ◌≡◌ {A = Result A} (err d) (err e)
  err_eq x = cc

module _ {C : Type 0} where
  abbrev pub Quiet : {A : Type 0} → Run C A → Type 0
  Quiet r = r.result ≢ err provisioned

  module _ {A B : Type 0} where
    pub Quiet-bind :
        (m : Run C A) (f : A → Run C B) → Quiet m → ((a : A) → Quiet (f a)) → Quiet (m >>= f)
    unfolding ◌>>=◌
    Quiet-bind m f h k = go m.calls m.result h
      where
        go : (cs : List C) (r : Result A) → (r ≢ err provisioned) → Quiet (continue cs r f)
        go cs (ok a) h = k a
        go cs (err e) h = λ x. h (err_eq x)
        go cs panicked h = λ x. cc

  pub answered-Quiet : (c : C) (o : Option Error) → (o ≢ some provisioned) → Quiet (answered c o)
  answered-Quiet c none h = λ x. cc
  answered-Quiet c (some e) h = λ x. h cc

module _ {Strategy : Type 0} (json : StrategyJson Strategy) (w : StorageWorld Strategy)
    (storage : RestateClusterStorage) (cache : ClusterCache Strategy) where
  storage_call-Quiet : (c : StorageCall Strategy) → Quiet (storage_call json w storage cache c)
  storage_call-Quiet c = answered-Quiet c _ (kube_errors (w.kube c))
    where
      kube_errors : (o : Option KubeError) → error_of json w storage cache o ≢ some provisioned
      kube_errors none = λ x. cc
      kube_errors (some e) = λ x. cc

  bound-Quiet : (name : String) → Quiet (await_bound json w storage cache name)
  bound-Quiet name = λ x. ground arith

  apply_claims-Quiet :
      (labels : List (String × String)) (pvcs : List PersistentVolumeClaim)
      → Quiet (apply_claims json w storage cache labels pvcs)
  unfolding apply_claims
  apply_claims-Quiet labels [] = λ x. cc
  apply_claims-Quiet labels (pvc ∷ pvcs) = elim (Bool-cases (has_labels labels pvc)) [
    | inl ours ↦ rw ours (
        Quiet-bind _ _ (storage_call-Quiet (StorageCall.apply_pvc pvc.name))
          λ _. Quiet-bind _ _ (bound-Quiet pvc.name) λ _. apply_claims-Quiet labels pvcs)
    | inr foreign ↦ rw foreign (apply_claims-Quiet labels pvcs)
  ]

  replace-Quiet :
      (cached : Option (CachedStatefulSet Strategy))
      → Quiet (replace_stateful_set json w storage cache cached)
  unfolding replace_stateful_set
  replace-Quiet none = λ x. cc
  replace-Quiet (some existing) = elim (Bool-cases existing.deleting) [
    | inl leaving ↦ rw leaving (λ x. cc)
    | inr stays ↦ elim (Bool-cases (has_storage json w storage cache existing)) [
      | inl same ↦ rw (stays, same) (λ x. cc)
      | inr differs ↦
          rw (stays, differs)
            (Quiet-bind _ _ (storage_call-Quiet _)
              λ _. Quiet-bind _ _ (storage_call-Quiet _) λ _. λ x. cc)
    ]
  ]

  recreating-Quiet : (b : Bool) → Quiet (unless_recreating json w storage cache b)
  recreating-Quiet true = λ x. cc
  recreating-Quiet false = λ x. cc

  remembered-Quiet :
      (cached : Option (CachedStatefulSet Strategy))
      → Quiet (remembered_text json w storage cache cached)
  unfolding remembered_text
  remembered-Quiet (some existing) = λ x. cc
  remembered-Quiet none = Quiet-bind _ _ (storage_call-Quiet _) λ _. λ x. cc

  parse-quiet : (text : Option String) → parse_strategy json w storage cache text ≢ err provisioned
  unfolding parse_strategy
  parse-quiet none = λ x. cc
  parse-quiet (some text) = decoded (json.decode text)
    where
      decoded : (o : Option Strategy) → of_decoded json w storage cache text o ≢ err provisioned
      decoded none = λ x. cc
      decoded (some s) = λ x. cc

  recreated-Quiet :
      (cached : Option (CachedStatefulSet Strategy)) (strategy : Strategy)
      → Quiet (apply_or_recreate json w storage cache cached strategy)
  unfolding recreate_stateful_set
  recreated-Quiet (some existing) strategy = storage_call-Quiet _
  recreated-Quiet none strategy = Quiet-bind _ _ (storage_call-Quiet _) λ _. storage_call-Quiet _

  applied-Quiet :
      (strategy : Option Strategy) → Quiet (apply_remembered json w storage cache strategy)
  unfolding apply_remembered
  applied-Quiet none = storage_call-Quiet _
  applied-Quiet (some strategy) =
      Quiet-bind _ _ (recreated-Quiet cache.stateful_set strategy) λ _. storage_call-Quiet _

  pub reconcile_stateful_set-Quiet :
      (labels : List (String × String)) (valid : Result (Unit {0}))
      → (valid ≢ err provisioned)
      → Quiet (reconcile_stateful_set json w storage cache labels valid)
  unfolding reconcile_stateful_set change_statefulset_storage
  reconcile_stateful_set-Quiet labels valid h =
      Quiet-bind _ _ (Quiet-bind _ _ (apply_claims-Quiet labels cache.claims) λ _. replace-Quiet _)
        λ recreating. Quiet-bind _ _ (recreating-Quiet recreating) λ _.
          Quiet-bind _ _ (remembered-Quiet cache.stateful_set) λ text.
            Quiet-bind _ _ (parse-quiet text)
              λ strategy. Quiet-bind _ _ h λ _. applied-Quiet strategy

result-quiet :
    (m : Result (Unit {0})) (f : Unit {0} → Result (Unit {0}))
    → (m ≢ err provisioned)
    → ((a : Unit {0}) → f a ≢ err provisioned)
    → Fallible.◌>>=◌ m f ≢ err provisioned
unfolding Fallible.◌>>=◌
result-quiet (ok a) f h k = k a
result-quiet (err e) f h k = h
result-quiet panicked f h k = h

reject-quiet : (message : String → String) (o : Option String) → reject message o ≢ err provisioned
reject-quiet message none = λ x. cc
reject-quiet message (some s) = λ x. cc

pub validate_pod_volumes-quiet :
    (debug : String → String) (p : PodVolumes) → validate_pod_volumes debug p ≢ err provisioned
unfolding validate_pod_volumes
validate_pod_volumes-quiet debug p = result-quiet _ _ (reject-quiet _ _) λ _. reject-quiet _ _
