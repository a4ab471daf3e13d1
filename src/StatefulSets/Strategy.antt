-- ===== src/StatefulSets/Strategy.antt =====
-- The update strategy of a StatefulSet over its deletion and recreation.
use restate_operator.Base.{
  Bool, true, false, ◌≡◌, refl, ◌∙◌, inl, inr, String, Option, none, some, List, [], ◌++◌, All,
  Bool-cases,
}
use restate_operator.Errors.{Error}
use restate_operator.Effects.{
  Result, ok, >>=-eq-ok, >>=-Made, Made, answered, answered-Made, Made-append_right,
}
use restate_operator.Fallible.{ok-injective}
use restate_operator.StatefulSets.{
  StorageCall, remember, forget, get_cluster, delete_orphaning, apply_stateful_set, own_strategy,
  StrategyJson, StorageWorld, RestateClusterStorage, CachedStatefulSet, ClusterCache, has_storage,
  strategy_of, replace_stateful_set, change_statefulset_storage, recreate_stateful_set,
  remembered_text, apply_or_recreate, parse_strategy, of_decoded, apply_remembered,
  unless_recreating, reconcile_stateful_set,
}
use restate_operator.StatefulSets.History.{AllSince, AllSince-bind, All-AllSince}
use restate_operator.StatefulSets.Reasons.{
  IsSettled, IsReplaced, Justified, IsPlain, plain-Justified, apply_claims-IsPlain,
  apply_claims-IsSettled, other_storage,
}

module _ {Strategy : Type 0} (json : StrategyJson Strategy) (w : StorageWorld Strategy)
    (storage : RestateClusterStorage) (cache : ClusterCache Strategy)
    (labels : List (String × String)) where
  abbrev Since : List (StorageCall Strategy) → List (StorageCall Strategy) → Type 0
  Since = AllSince (Justified json w storage cache labels)

  plain-Since :
      (before calls : List (StorageCall Strategy))
      → All (IsPlain json w storage cache labels) calls
      → Since before calls
  plain-Since =
      All-AllSince (Justified json w storage cache labels) (IsPlain json w storage cache labels)
        (plain-Justified json w storage cache labels)

  answered-Since :
      (before : List (StorageCall Strategy)) (c : StorageCall Strategy) (e : Option Error)
      → Justified json w storage cache labels before c
      → Since before (answered c e).calls
  answered-Since before c none h = (h, tt)
  answered-Since before c (some e) h = (h, tt)

  replace-Since :
      (before : List (StorageCall Strategy)) (cached : Option (CachedStatefulSet Strategy))
      → cache.stateful_set ≡ cached
      → All (IsSettled json w storage cache labels) cache.claims
      → Since before (replace_stateful_set json w storage cache cached).calls
  unfolding replace_stateful_set
  replace-Since before none e settled = tt
  replace-Since before (some existing) e settled = elim (Bool-cases existing.deleting) [
    | inl leaving ↦ rw leaving tt
    | inr stays ↦ elim (Bool-cases (has_storage json w storage cache existing)) [
      | inl same ↦ rw (stays, same) tt
      | inr other ↦
          let replaced : IsReplaced json w storage cache labels existing =
            (e, stays, other_storage json w storage cache labels existing other) in
          rw (stays, other)
            (AllSince-bind (Justified json w storage cache labels) before _ _
              (answered-Since before
                (remember (json.encode (strategy_of json w storage cache existing))) _
                (existing, replaced, refl))
              λ _ _.
                AllSince-bind (Justified json w storage cache labels) _ _ _
                  (answered-Since _ (delete_orphaning existing.uid) _ (
                    settled,
                    existing,
                    replaced,
                    refl,
                    Made-append_right _ before _ (answered-Made _ _),
                  ))
                  λ _ _. tt)
    ]
  ]

  change-Since : Since [] (change_statefulset_storage json w storage cache labels).calls
  unfolding change_statefulset_storage
  change-Since =
      AllSince-bind (Justified json w storage cache labels) [] _ _
        (plain-Since [] _ (apply_claims-IsPlain json w storage cache labels cache.claims))
        λ _ settled.
          replace-Since _ cache.stateful_set refl
            (apply_claims-IsSettled json w storage cache labels cache.claims settled)

  pub recreated-Made :
      (strategy : Strategy)
      → (recreate_stateful_set json w storage cache strategy).result ≡ ok tt
      → Made
          (apply_stateful_set (some strategy))
          (recreate_stateful_set json w storage cache strategy).calls
        × Made (own_strategy strategy) (recreate_stateful_set json w storage cache strategy).calls
  unfolding recreate_stateful_set
  recreated-Made strategy h =
      let (_, _, _, first, second) = >>=-Made _ _ h in
      (first _ (answered-Made _ _), second _ (answered-Made _ _))

  recreate-Since :
      (before : List (StorageCall Strategy)) (strategy : Strategy)
      → Since before (recreate_stateful_set json w storage cache strategy).calls
  unfolding recreate_stateful_set
  recreate-Since before strategy =
      AllSince-bind (Justified json w storage cache labels) before _ _
        (answered-Since before (apply_stateful_set (some strategy)) _ tt)
        λ _ _. answered-Since _ (own_strategy strategy) _ tt

  -- Where the StatefulSet is gone, the strategy is what the API server has of it.
  abbrev IsRead : Option (CachedStatefulSet Strategy) → Strategy → Type 0
  IsRead (some existing) strategy = Unit
  IsRead none strategy =
      (text : String) × (w.annotation ≡ some text) × (json.decode text ≡ some strategy)

  forget-Since :
      (before : List (StorageCall Strategy)) (cached : Option (CachedStatefulSet Strategy))
      (strategy : Strategy) (e : Option Error)
      → cache.stateful_set ≡ cached
      → IsRead cached strategy
      → (apply_or_recreate json w storage cache cached strategy).result ≡ ok tt
      → Since
          (before ++ (apply_or_recreate json w storage cache cached strategy).calls)
          (answered forget e).calls
  forget-Since before (some existing) strategy e is read h =
      answered-Since _ forget e
        (inl (existing, is, Made-append_right _ before _ (answered-Made _ _)))
  forget-Since before none strategy e is (text, there, decoded) h =
      let (applied, owned) = recreated-Made strategy h in
      answered-Since _ forget e (
        inr (
          text,
          strategy,
          is,
          there,
          decoded,
          Made-append_right _ before _ applied,
          Made-append_right _ before _ owned,
        ))

  apply_or_recreate-Since :
      (before : List (StorageCall Strategy)) (cached : Option (CachedStatefulSet Strategy))
      (strategy : Strategy)
      → Since before (apply_or_recreate json w storage cache cached strategy).calls
  apply_or_recreate-Since before (some existing) strategy =
      answered-Since before (apply_stateful_set none) _ tt
  apply_or_recreate-Since before none strategy = recreate-Since before strategy

  abbrev AreRead : Option Strategy → Type 0
  AreRead none = Unit
  AreRead (some strategy) = IsRead cache.stateful_set strategy

  of_decoded-some :
      (text : String) (o : Option Strategy) (strategy : Strategy)
      → of_decoded json w storage cache text o ≡ ok (some strategy)
      → o ≡ some strategy
  of_decoded-some text none strategy h = cc
  of_decoded-some text (some s) strategy h = ok-injective h

  parse_strategy-some :
      (text : Option String) (strategy : Strategy)
      → parse_strategy json w storage cache text ≡ ok (some strategy)
      → (t : String) × (text ≡ some t) × (json.decode t ≡ some strategy)
  unfolding parse_strategy
  parse_strategy-some none strategy h = cc
  parse_strategy-some (some t) strategy h = (t, refl, of_decoded-some t (json.decode t) strategy h)

  read_back :
      (cached : Option (CachedStatefulSet Strategy)) (text : Option String) (strategy : Strategy)
      → (remembered_text json w storage cache cached).result ≡ ok text
      → parse_strategy json w storage cache text ≡ ok (some strategy)
      → IsRead cached strategy
  unfolding remembered_text
  read_back (some existing) text strategy asked parsed = tt
  read_back none text strategy asked parsed =
      let (_, _, there, _) = >>=-eq-ok _ _ asked in
      let (t, is, decoded) = parse_strategy-some text strategy parsed in
      (t, ok-injective there ∙ is, decoded)

  apply_remembered-Since :
      (before : List (StorageCall Strategy)) (strategy : Option Strategy)
      → AreRead strategy
      → Since before (apply_remembered json w storage cache strategy).calls
  unfolding apply_remembered
  apply_remembered-Since before none read = answered-Since before (apply_stateful_set none) _ tt
  apply_remembered-Since before (some strategy) read =
      AllSince-bind (Justified json w storage cache labels) before _ _
        (apply_or_recreate-Since before cache.stateful_set strategy)
        λ _ h. forget-Since before cache.stateful_set strategy _ refl read h

  unless_recreating-Since :
      (before : List (StorageCall Strategy)) (b : Bool)
      → Since before (unless_recreating json w storage cache b).calls
  unless_recreating-Since before true = tt
  unless_recreating-Since before false = tt

  remembered_text-Since :
      (before : List (StorageCall Strategy)) (cached : Option (CachedStatefulSet Strategy))
      → Since before (remembered_text json w storage cache cached).calls
  unfolding remembered_text
  remembered_text-Since before (some existing) = tt
  remembered_text-Since before none =
      AllSince-bind (Justified json w storage cache labels) before _ _
        (answered-Since before get_cluster _ tt) λ _ _. tt

  pub reconcile_stateful_set-Justified :
      (valid : Result (Unit {0}))
      → AllSince
          (Justified json w storage cache labels)
          []
          (reconcile_stateful_set json w storage cache labels valid).calls
  unfolding reconcile_stateful_set
  reconcile_stateful_set-Justified valid =
      AllSince-bind (Justified json w storage cache labels) [] _ _ change-Since λ recreating _.
        AllSince-bind (Justified json w storage cache labels) _ _ _
          (unless_recreating-Since _ recreating)
          λ _ _.
            AllSince-bind (Justified json w storage cache labels) _ _ _
              (remembered_text-Since _ cache.stateful_set)
              λ text asked.
                AllSince-bind (Justified json w storage cache labels) _ _ _ tt λ strategy parsed.
                  AllSince-bind (Justified json w storage cache labels) _ _ _ tt
                    λ _ _. apply_remembered-Since _ strategy (read text strategy asked parsed)
    where
      read :
          (text : Option String) (strategy : Option Strategy)
          → (remembered_text json w storage cache cache.stateful_set).result ≡ ok text
          → parse_strategy json w storage cache text ≡ ok strategy
          → AreRead strategy
      read text none asked parsed = tt
      read text (some strategy) asked parsed =
          read_back cache.stateful_set text strategy asked parsed
