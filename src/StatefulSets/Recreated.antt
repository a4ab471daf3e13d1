-- ===== src/StatefulSets/Recreated.antt =====
-- A pass that deletes a StatefulSet for its storage and a later one that recreates it, in
-- `reconcile_compute` of src/controllers/restatecluster/reconcilers/compute.rs.
use restate_operator.Base.{
  ◌≡◌, sym, ◌∙◌, ap, subst, String, Option, none, some, List, [], unwrap_or,
}
use restate_operator.Effects.{Result, ok, >>=-Made, Made, answered-Made}
use restate_operator.Fallible.{ok-injective}
use restate_operator.StatefulSets.{
  StorageCall, remember, forget, apply_stateful_set, own_strategy, StrategyJson, StorageWorld,
  RestateClusterStorage, CachedStatefulSet, ClusterCache, remembered_text, parse_strategy,
  apply_or_recreate, apply_remembered, reconcile_stateful_set,
}
use restate_operator.StatefulSets.History.{Made-AllSince}
use restate_operator.StatefulSets.Reasons.{Justified}
use restate_operator.StatefulSets.Strategy.{recreated-Made, reconcile_stateful_set-Justified}

module _ {Strategy : Type 0} (json : StrategyJson Strategy) (w : StorageWorld Strategy)
    (storage : RestateClusterStorage) (cache : ClusterCache Strategy) where
  -- The StatefulSet is applied with this strategy, the strategy has an owner, and what was written
  -- down of it is dropped.
  abbrev pub IsRestored : Strategy → List (StorageCall Strategy) → Type 0
  IsRestored strategy calls =
      Made (apply_stateful_set (some strategy)) calls
      × Made (own_strategy strategy) calls
      × Made forget calls

  remembered_text-annotation :
      (cached : Option (CachedStatefulSet Strategy)) (text : Option String)
      → cached ≡ none
      → (remembered_text json w storage cache cached).result ≡ ok text
      → w.annotation ≡ text
  unfolding remembered_text
  remembered_text-annotation none text e h =
      let (_, _, read, _, _) = >>=-Made _ _ h in ok-injective read
  remembered_text-annotation (some existing) text e h = cc

  parse_strategy-encode :
      (s : Strategy) (text : Option String) (read : Option Strategy)
      → text ≡ some (json.encode s)
      → parse_strategy json w storage cache text ≡ ok read
      → some s ≡ read
  unfolding parse_strategy
  parse_strategy-encode s text read e h = ok-injective (rw json.decode-encode at rw e at h)

  apply_or_recreate-Made :
      (cached : Option (CachedStatefulSet Strategy)) (s : Strategy)
      → cached ≡ none
      → (apply_or_recreate json w storage cache cached s).result ≡ ok tt
      → Made (apply_stateful_set (some s)) (apply_or_recreate json w storage cache cached s).calls
        × Made (own_strategy s) (apply_or_recreate json w storage cache cached s).calls
  apply_or_recreate-Made none s e h = recreated-Made json w storage cache [] s h
  apply_or_recreate-Made (some existing) s e h = cc

  apply_remembered-IsRestored :
      (s : Strategy)
      → cache.stateful_set ≡ none
      → (apply_remembered json w storage cache (some s)).result ≡ ok tt
      → IsRestored s (apply_remembered json w storage cache (some s)).calls
  unfolding apply_remembered
  apply_remembered-IsRestored s gone h =
      let (_, recreated, _, first, last) = >>=-Made _ _ h in
      let (applied, owned) = apply_or_recreate-Made cache.stateful_set s gone recreated in
      (first _ applied, first _ owned, last _ (answered-Made _ _))

  some_eq : {s t : Strategy} → some s ≡ some t → s ≡ t
  some_eq h = cc

  IsRestored-later :
      (s : Strategy) (read : Option Strategy) (calls : List (StorageCall Strategy))
      → some s ≡ read
      → cache.stateful_set ≡ none
      → (apply_remembered json w storage cache read).result ≡ ok tt
      → ((c : StorageCall Strategy)
          → Made c (apply_remembered json w storage cache read).calls
          → Made c calls)
      → IsRestored s calls
  IsRestored-later s none calls same gone h later = cc
  IsRestored-later s (some t) calls same gone h later =
      let (applied, owned, dropped) = apply_remembered-IsRestored t gone h in
      subst (λ x. IsRestored x calls) (sym (some_eq same))
        (later _ applied, later _ owned, later _ dropped)

  pass-IsRestored :
      (labels : List (String × String)) (valid : Result (Unit {0})) (s : Strategy)
      → cache.stateful_set ≡ none
      → w.annotation ≡ some (json.encode s)
      → (reconcile_stateful_set json w storage cache labels valid).result ≡ ok tt
      → IsRestored s (reconcile_stateful_set json w storage cache labels valid).calls
  unfolding reconcile_stateful_set
  pass-IsRestored labels valid s gone written h =
      let (recreating, _, h1, _, later1) = >>=-Made _ _ h in
      let (_, _, h2, _, later2) = >>=-Made _ _ h1 in
      let (text, asked, h3, _, later3) = >>=-Made _ _ h2 in
      let (read, parsed, h4, _, later4) = >>=-Made _ _ h3 in
      let (_, _, h5, _, later5) = >>=-Made _ _ h4 in
      let is = remembered_text-annotation cache.stateful_set text gone asked in
      let same = parse_strategy-encode s text read (sym is ∙ written) parsed in
      IsRestored-later s read _ same gone h5
        (λ c made. later1 c (later2 c (later3 c (later4 c (later5 c made)))))

module _ {Strategy : Type 0} (json : StrategyJson Strategy) (storage : RestateClusterStorage)
    (labels : List (String × String)) where
  -- If a pass writes a strategy down for a StatefulSet, and a later pass finds the StatefulSet gone
  -- from the cache and this text on the RestateCluster, and succeeds, then the later pass has
  -- applied the StatefulSet with the update strategy that it had in the first pass, or the default
  -- one where it had none, has given the strategy an owner, and has dropped the text.
  pub reconcile_stateful_set-IsRestored :
      (w later : StorageWorld Strategy) (cache gone : ClusterCache Strategy)
      (valid valid' : Result (Unit {0})) (existing : CachedStatefulSet Strategy) (text : String)
      → cache.stateful_set ≡ some existing
      → Made (remember text) (reconcile_stateful_set json w storage cache labels valid).calls
      → gone.stateful_set ≡ none
      → later.annotation ≡ some text
      → (reconcile_stateful_set json later storage gone labels valid').result ≡ ok tt
      → IsRestored json later storage gone
          (unwrap_or existing.update_strategy json.default_strategy)
          (reconcile_stateful_set json later storage gone labels valid').calls
  reconcile_stateful_set-IsRestored w later cache gone valid valid' existing text cached made absent
        read h =
      let (_, reason) =
        Made-AllSince (Justified json w storage cache labels) (remember text) [] _ made
          (reconcile_stateful_set-Justified json w storage cache labels valid) in
      let (_, replaced, is) = reason in
      let same = existing_eq (sym replaced.0 ∙ cached) in
      pass-IsRestored json later storage gone labels valid' _ absent
        (read
          ∙ ap some is
          ∙ ap
              (λ (e : CachedStatefulSet Strategy).
                some (json.encode (unwrap_or e.update_strategy json.default_strategy)))
              same)
        h
    where
      existing_eq : {x y : CachedStatefulSet Strategy} → some x ≡ some y → x ≡ y
      existing_eq e = cc
