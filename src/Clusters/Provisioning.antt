-- ===== src/Clusters/Provisioning.antt =====
-- src/controllers/restatecluster/reconcilers/provisioning.rs: the validation of the
-- configuration, and the provisioning. The parser is that of the crate `toml`.
use restate_operator.Base.{
  Bool, true, false, ◌≡◌, refl, ◌⊎◌, inl, inr, String, Option, none, some, List, [], ◌∷◌, str_eq,
  Bool-cases, find, is_some_and, and_then, if◌then◌else◌, concat,
}
use restate_operator.Errors.{Error, invalid_restate_config, provisioning_failed}
use restate_operator.Effects.{Run, Result, ok, err, pure, answered, ◌>>◌}
use restate_operator.Clusters.{
  ClusterCall, get_pod, provision_cluster, ProvisionAnswer, accepted, already_exists,
  invalid_endpoint, no_connection, refused, ClusterWorld, EnvVar, call_kube,
}
use restate_operator.Clusters.Texts.{eq_ignore_ascii_case}

-- What `auto-provision` is at the top level: nothing, a Boolean, or something else.
pub data AutoProvision : Type 0 where
  missing other : AutoProvision
  boolean : Bool → AutoProvision

pub record TomlParser : Type 0 where
  pub auto_provision : String → Option AutoProvision
  pub error : String → String

abbrev not_disabled : Error
not_disabled =
    invalid_restate_config
      "Cannot use cluster.autoProvision without auto-provision = false in config or RESTATE_AUTO_PROVISION=false env var. Disable cluster auto-provisioning by setting auto-provision = false in config or RESTATE_AUTO_PROVISION=false when using operator-managed provisioning."

abbrev enabled_by_env : Error
enabled_by_env =
    invalid_restate_config
      "Cannot use cluster.autoProvision with RESTATE_AUTO_PROVISION != false. Disable cluster auto-provisioning by setting RESTATE_AUTO_PROVISION=false or removing the env var and setting auto-provision = false in config."

-- The value of the variable, if it has one in place.
unfoldable pub env_value : Option (List EnvVar) → Option String
env_value env =
    and_then (and_then env (λ vars. find (λ v. str_eq v.name "RESTATE_AUTO_PROVISION") vars))
      (λ v. v.value)

module _ (toml : TomlParser) where
  abbrev pub check_parsed : String → Option AutoProvision → Result (Unit {0})
  check_parsed text none =
      err (invalid_restate_config (concat ("Failed to parse config TOML: " ∷ toml.error text ∷ [])))
  check_parsed text (some (boolean false)) = ok tt
  check_parsed text (some _) = err not_disabled

  unfoldable pub check_config : Option String → Result (Unit {0})
  check_config none = err not_disabled
  check_config (some text) = check_parsed text (toml.auto_provision text)

  abbrev pub check_value : Option String → Option String → Result (Unit {0})
  check_value config none = check_config config
  check_value config (some value) =
      if eq_ignore_ascii_case value "false" then ok tt else err enabled_by_env

  unfoldable pub validate_config_for_provisioning :
      Option String → Option (List EnvVar) → Result (Unit {0})
  validate_config_for_provisioning config env = check_value config (env_value env)

  -- The nodes are told not to provision the cluster: by the variable, or where it has no value in
  -- place, by the configuration.
  abbrev pub IsDisabled : Option String → Option String → Type 0
  IsDisabled config (some value) = eq_ignore_ascii_case value "false" ≡ true
  IsDisabled none none = ⊥
  IsDisabled (some text) none = toml.auto_provision text ≡ some (boolean false)

  -- What the validation comes to.
  abbrev pub IsJudged : Option String → Option String → Result (Unit {0}) → Type 0
  IsJudged config value r =
      ((r ≡ ok tt) × IsDisabled config value)
      ⊎ ((message : String) × (r ≡ err (invalid_restate_config message))
          × (¬ IsDisabled config value))

  parsed-IsJudged :
      (text : String) (p : Option AutoProvision)
      → toml.auto_provision text ≡ p
      → IsJudged (some text) none (check_parsed text p)
  parsed-IsJudged text none e = inr (_, refl, λ d. cc)
  parsed-IsJudged text (some missing) e = inr (_, refl, λ d. cc)
  parsed-IsJudged text (some other) e = inr (_, refl, λ d. cc)
  parsed-IsJudged text (some (boolean false)) e = inl (refl, e)
  parsed-IsJudged text (some (boolean true)) e = inr (_, refl, λ d. cc)

  value-IsJudged : (config value : Option String) → IsJudged config value (check_value config value)
  unfolding check_config
  value-IsJudged config (some value) = elim (Bool-cases (eq_ignore_ascii_case value "false")) [
    | inl e ↦ rw e (inl (refl, refl))
    | inr e ↦ rw e (inr (_, refl, λ d. cc))
  ]
  value-IsJudged none none = inr (_, refl, λ d. d)
  value-IsJudged (some text) none = parsed-IsJudged text (toml.auto_provision text) refl

  -- The validation passes where the variable is `false` in any case, or where it has no value in
  -- place and the configuration parses and has `auto-provision = false`; in every other case it
  -- fails with an invalid configuration.
  pub validate_config_for_provisioning-IsJudged :
      (config : Option String) (env : Option (List EnvVar))
      → IsJudged config (env_value env) (validate_config_for_provisioning config env)
  unfolding validate_config_for_provisioning
  validate_config_for_provisioning-IsJudged config env = value-IsJudged config (env_value env)

module _ {Strategy : Type 0} (w : ClusterWorld Strategy) where
  unfoldable pub is_pod_running : String → Run (ClusterCall Strategy) Bool
  is_pod_running pod = do
    call_kube w (get_pod pod)
    pure (is_some_and (w.pod_phase pod) (λ phase. is_some_and phase (λ p. str_eq p "Running")))

  abbrev pub provision_error : String → ProvisionAnswer → Option Error
  provision_error endpoint accepted = none
  provision_error endpoint already_exists = none
  provision_error endpoint (invalid_endpoint e) =
      some (provisioning_failed (concat ("Invalid endpoint URL: " ∷ e ∷ [])))
  provision_error endpoint (no_connection e) =
      some (provisioning_failed (concat ("Failed to connect to " ∷ endpoint ∷ ": " ∷ e ∷ [])))
  provision_error endpoint (refused message code) = some (
      provisioning_failed
        (concat ("ProvisionCluster RPC failed: " ∷ message ∷ " (" ∷ code ∷ ")" ∷ [])))

  -- The first pod, by the headless service.
  abbrev pub provision_endpoint : String → String → String
  provision_endpoint namespace cluster_dns =
      concat
        ("http://restate-0.restate-cluster." ∷ namespace ∷ ".svc." ∷ cluster_dns ∷ ":5122" ∷ [])

  unfoldable pub run_provisioning : String → String → Run (ClusterCall Strategy) (Unit {0})
  run_provisioning namespace cluster_dns =
      let endpoint = provision_endpoint namespace cluster_dns in
      answered (provision_cluster endpoint) (provision_error endpoint w.provision)
