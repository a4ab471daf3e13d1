-- ===== src/Rollout/Injected.antt =====
-- What the pods of a version find in their environment.
use restate_operator.Base.{
  false, ◌≡◌, refl, sym, ◌∙◌, ap, subst, String, Option, none, some, List, [], ◌∷◌, str_eq, eq_iff,
  Bool-cases, ◌⊎◌, inl, inr, and_then,
}
use restate_operator.Effects.{ok}
use restate_operator.Fallible.{>>=-eq-ok, ok-injective}
use restate_operator.Cloud.InProcess.{InProcessTunnelParams}
use restate_operator.Rollout.Inject.{
  Value, null, boolean, number, text, array, object, Values, nil, cons, Fields, no_field, field,
  get, set, as_array, get_of, declares, push, env_entry, tunnel_vars, add_vars, with_env, env_of,
  inject_container, inject_containers, inject_into, inject_field, inject_in_process_tunnel_env,
}

-- The environment with the variables behind it.
abbrev pub extended : Values → List (String × String) → Values
extended env [] = env
extended env ((var, value) ∷ vars) = extended (push env (env_entry var value)) vars

-- No variable is declared before it is added.
abbrev pub AreNew : Values → List (String × String) → Type 0
AreNew env [] = Unit
AreNew env ((var, value) ∷ vars) =
    (declares var env ≡ false) × AreNew (push env (env_entry var value)) vars

add_vars-extended :
    (container : String) (vars : List (String × String)) (env added : Values)
    → add_vars container vars env ≡ ok added
    → (added ≡ extended env vars) × AreNew env vars
unfolding add_vars
add_vars-extended container [] env added h = (sym (ok-injective h), tt)
add_vars-extended container ((var, value) ∷ vars) env added h =
    elim (Bool-cases (declares var env)) [
      | inl e ↦ cc (rw e at h)
      | inr e ↦
          let (is, new) =
            add_vars-extended container vars (push env (env_entry var value)) added (rw e at h) in
          (is, (e, new))
    ]

module _ (vars : List (String × String)) where
  -- A container has its own environment with the variables behind it, which it did not declare, and
  -- is else as it was; what is not an object stays.
  abbrev pub HasVars : Value → Value → Type 0
  HasVars (object fields) new =
      (env : Values) × (env_of vars fields ≡ array env)
      × (new ≡ object (set "env" (array (extended env vars)) fields))
      × AreNew env vars
  HasVars other new = new ≡ other

  abbrev pub AllHaveVars : Values → Values → Type 0
  AllHaveVars nil new = new ≡ nil
  AllHaveVars (cons container rest) new =
      (first : Value) × (others : Values) × (new ≡ cons first others)
      × HasVars container first
      × AllHaveVars rest others

  with_env-HasVars :
      (container : String) (fields : Fields) (env : Value) (new : Value)
      → env_of vars fields ≡ env
      → with_env vars container fields env ≡ ok new
      → HasVars (object fields) new
  with_env-HasVars container fields (array env) new is h =
      let (added, adds, done) = >>=-eq-ok _ _ h in
      let (same, fresh) = add_vars-extended container vars env added adds in
      (
        env,
        is,
        sym (ok-injective done) ∙ ap (λ vs. object (set "env" (array vs) fields)) same,
        fresh,
      )
  with_env-HasVars container fields null new is h = cc
  with_env-HasVars container fields (boolean b) new is h = cc
  with_env-HasVars container fields (number n) new is h = cc
  with_env-HasVars container fields (text s) new is h = cc
  with_env-HasVars container fields (object o) new is h = cc

  inject_container-HasVars :
      (container new : Value) → inject_container vars container ≡ ok new → HasVars container new
  unfolding inject_container
  inject_container-HasVars (object fields) new h =
      with_env-HasVars _ fields (env_of vars fields) new refl h
  inject_container-HasVars (array env) new h = sym (ok-injective h)
  inject_container-HasVars null new h = sym (ok-injective h)
  inject_container-HasVars (boolean b) new h = sym (ok-injective h)
  inject_container-HasVars (number n) new h = sym (ok-injective h)
  inject_container-HasVars (text s) new h = sym (ok-injective h)

  inject_containers-AllHaveVars :
      (containers new : Values)
      → inject_containers vars containers ≡ ok new
      → AllHaveVars containers new
  unfolding inject_containers
  inject_containers-AllHaveVars nil new h = sym (ok-injective h)
  inject_containers-AllHaveVars (cons container rest) new h =
      let (first, one, h1) = >>=-eq-ok _ _ h in
      let (others, all, done) = >>=-eq-ok _ _ h1 in
      (
        first,
        others,
        sym (ok-injective done),
        inject_container-HasVars container first one,
        inject_containers-AllHaveVars rest others all,
      )

get-set :
    (key : String) (value : Value) (fields : Fields) → get key (set key value fields) ≡ some value
unfolding get set
get-set key value no_field = rw (eq_iff key key).1 refl
get-set key value (field k v fields) = elim (Bool-cases (str_eq k key)) [
  | inl e ↦ rw (e, e)
  | inr e ↦ rw (e, e) (get-set key value fields)
]

get-set_other :
    (key other : String) (value : Value) (fields : Fields)
    → str_eq key other ≡ false
    → get other (set key value fields) ≡ get other fields
unfolding get set
get-set_other key other value no_field h = rw h
get-set_other key other value (field k v fields) h = elim (Bool-cases (str_eq k key)) [
  | inl e ↦ let same = (eq_iff k key).0 e in rw (e, same, h)
  | inr e ↦ rw e (elim (Bool-cases (str_eq k other)) [
    | inl o ↦ rw o refl
    | inr o ↦ rw o (get-set_other key other value fields h)
  ])
]

-- The array below a key of an object.
abbrev pub containers_of : String → Value → Option Values
containers_of key spec = and_then (get_of key spec) as_array

module _ (vars : List (String × String)) where
  abbrev pub AreInjected : Option Values → Option Values → Type 0
  AreInjected none new = new ≡ none
  AreInjected (some containers) new =
      (injected : Values) × (new ≡ some injected) × AllHaveVars vars containers injected

  inject_into-AreInjected :
      (key : String) (fields : Fields) (containers : Option Values) (new : Value)
      → and_then (get key fields) as_array ≡ containers
      → inject_into vars key fields containers ≡ ok new
      → AreInjected containers (containers_of key new)
  inject_into-AreInjected key fields none new is h =
      ap (containers_of key) (sym (ok-injective h)) ∙ is
  inject_into-AreInjected key fields (some containers) new is h =
      let (injected, all, done) = >>=-eq-ok _ _ h in
      (
        injected,
        ap (containers_of key) (sym (ok-injective done))
            ∙ ap (λ v. and_then v as_array) (get-set key (array injected) fields),
        inject_containers-AllHaveVars vars containers injected all,
      )

  inject_field-AreInjected :
      (key : String) (spec new : Value)
      → inject_field vars key spec ≡ ok new
      → AreInjected (containers_of key spec) (containers_of key new)
  unfolding inject_field
  inject_field-AreInjected key (object fields) new h =
      inject_into-AreInjected key fields (and_then (get key fields) as_array) new refl h
  inject_field-AreInjected key (array vs) new h = ap (containers_of key) (sym (ok-injective h))
  inject_field-AreInjected key null new h = ap (containers_of key) (sym (ok-injective h))
  inject_field-AreInjected key (boolean b) new h = ap (containers_of key) (sym (ok-injective h))
  inject_field-AreInjected key (number n) new h = ap (containers_of key) (sym (ok-injective h))
  inject_field-AreInjected key (text s) new h = ap (containers_of key) (sym (ok-injective h))

  inject_into-get :
      (key other : String) (fields : Fields) (containers : Option Values) (new : Value)
      → str_eq key other ≡ false
      → inject_into vars key fields containers ≡ ok new
      → get_of other new ≡ get other fields
  inject_into-get key other fields none new differs h = ap (get_of other) (sym (ok-injective h))
  inject_into-get key other fields (some containers) new differs h =
      let (injected, _, done) = >>=-eq-ok _ _ h in
      ap (get_of other) (sym (ok-injective done))
      ∙ get-set_other key other (array injected) fields differs

  inject_field-get :
      (key other : String) (spec new : Value)
      → str_eq key other ≡ false
      → inject_field vars key spec ≡ ok new
      → get_of other new ≡ get_of other spec
  unfolding inject_field
  inject_field-get key other (object fields) new differs h =
      inject_into-get key other fields _ new differs h
  inject_field-get key other (array vs) new differs h = ap (get_of other) (sym (ok-injective h))
  inject_field-get key other null new differs h = ap (get_of other) (sym (ok-injective h))
  inject_field-get key other (boolean b) new differs h = ap (get_of other) (sym (ok-injective h))
  inject_field-get key other (number n) new differs h = ap (get_of other) (sym (ok-injective h))
  inject_field-get key other (text s) new differs h = ap (get_of other) (sym (ok-injective h))

-- If the variables of a tunnel can be put into a pod spec, then every container and every init
-- container that is an object has its own environment with the four variables behind it, none of
-- which it declared, and is else as it was; and every other field of the pod spec is as it was.
pub inject_in_process_tunnel_env-AreInjected :
    (spec new : Value) (tunnel_name : String) (params : InProcessTunnelParams) (key : String)
    → inject_in_process_tunnel_env spec tunnel_name params ≡ ok new
    → AreInjected
        (tunnel_vars tunnel_name params)
        (containers_of "containers" spec)
        (containers_of "containers" new)
      × AreInjected
          (tunnel_vars tunnel_name params)
          (containers_of "initContainers" spec)
          (containers_of "initContainers" new)
      × ((key ≡ "containers") ⊎ (key ≡ "initContainers") ⊎ (get_of key new ≡ get_of key spec))
unfolding inject_in_process_tunnel_env
inject_in_process_tunnel_env-AreInjected spec new tunnel_name params key h =
    let vars = tunnel_vars tunnel_name params in
    let (between, first, second) = >>=-eq-ok _ _ h in
    (
      subst (AreInjected vars (containers_of "containers" spec))
          (ap (λ v. and_then v as_array)
            (sym (inject_field-get vars "initContainers" "containers" between new refl second)))
          (inject_field-AreInjected vars "containers" spec between first),
      subst (λ c. AreInjected vars c (containers_of "initContainers" new))
          (ap (λ v. and_then v as_array)
            (inject_field-get vars "containers" "initContainers" spec between refl first))
          (inject_field-AreInjected vars "initContainers" between new second),
      elim (Bool-cases (str_eq "containers" key)) [
        | inl e ↦ inl (sym ((eq_iff "containers" key).0 e))
        | inr c ↦ elim (Bool-cases (str_eq "initContainers" key)) [
          | inl e ↦ inr (inl (sym ((eq_iff "initContainers" key).0 e)))
          | inr i ↦ inr (
              inr (
                inject_field-get vars "initContainers" key between new i second
                ∙ inject_field-get vars "containers" key spec between c first))
        ]
      ],
    )
