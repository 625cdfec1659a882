-- ===== src/Config/Build.antt =====
-- `BuildAzureConfig` and `validate` of azure_config.go.
use cluster_autoscaler_provi.Base.Int.{ℤ, pos, ltb_ℤ, eqb_ℤ}
use cluster_autoscaler_provi.Base.Text.{Text, codes, text_eq, to_lower}
use cluster_autoscaler_provi.Base.{
  Bool, true, false, not, ◌&&◌, ◌||◌, Option, none, some, if◌then◌else◌, is_empty,
}
use cluster_autoscaler_provi.Config.Table.{
  text_assignments, flag_assignments, backoff_assignments, last_assignments,
}
use cluster_autoscaler_provi.Config.{Config, Library, apply_all}
use cluster_autoscaler_provi.Errors.{
  config, config_malformed, ttl_too_large, resource_group_missing, deployment_missing,
  deployment_parameters_missing, subscription_missing, identities_combined, tenant_missing,
  client_id_missing, auth_method_unsupported, retries_missing, vm_type_unsupported, Outcome, ok,
  err, ◌>>=◌,
}

-- A check, and the error of one that fails.
abbrev pub require : Bool → Outcome (Unit {0}) → Outcome (Unit {0})
require true e = ok tt
require false e = e

-- `defaultMaxDeploymentsCount`.
abbrev pub default_max_deployments_count : ℤ
default_max_deployments_count = pos 10

-- `int64(^uint32(0))`.
abbrev pub max_ttl : ℤ
max_ttl = pos 4294967295

module _ {F : Type 0} (lib : Library F) where
  abbrev pub is_standard : Config F → Bool
  is_standard c = text_eq c.vm_type lib.vm_type_standard

  -- `validate`, in the order of its tests.
  unfoldable pub validate_standard : Config F → Outcome (Unit {0})
  validate_standard c =
      if is_standard c
      then require (not (is_empty c.deployment)) (err (config deployment_missing)) >>= (λ _.
        require (not (is_empty c.deployment_parameters))
          (err (config deployment_parameters_missing)))
      else ok tt

  -- Without an identity: a tenant, and a client but for the command line's method.
  unfoldable pub validate_credentials : Config F → Outcome (Unit {0})
  validate_credentials c =
      if c.use_managed_identity_extension || c.use_federated_workload_identity_extension
      then ok tt
      else require (not (is_empty c.tenant_id)) (err (config tenant_missing)) >>= (λ _.
        if is_empty c.auth_method || text_eq c.auth_method (codes "principal")
        then require (not (is_empty c.aad_client_id)) (err (config client_id_missing))
        else require (text_eq c.auth_method (codes "cli"))
            (err (config (auth_method_unsupported c.auth_method))))

  unfoldable pub validate : Config F → Outcome (Unit {0})
  unfolding validate_standard validate_credentials text_eq
  validate c =
      require (not (is_empty c.resource_group)) (err (config resource_group_missing)) >>= (λ _.
        validate_standard c >>= (λ _.
          require (not (is_empty c.subscription_id)) (err (config subscription_missing)) >>= (λ _.
            require
              (not
                (c.use_managed_identity_extension && c.use_federated_workload_identity_extension))
              (err (config identities_combined))
            >>= (λ _.
                require (is_standard c || text_eq c.vm_type lib.vm_type_vmss)
                  (err (vm_type_unsupported c.vm_type))
                >>= (λ _. validate_credentials c >>= (λ _.
                    require
                      (not (
                        c.cloud_provider_backoff && eqb_ℤ c.cloud_provider_backoff_retries (pos 0)))
                      (err (config retries_missing))))))))

  -- The static defaults.
  unfoldable pub with_defaults : Config F → Config F
  with_defaults c = record c {
    enable_dynamic_instance_list = false;
    enable_vmss_flex_nodes = false;
    enable_vms_agent_pool = false;
    cloud_provider_backoff_retries = lib.backoff_retries_default;
    cloud_provider_backoff_exponent = lib.backoff_exponent_default;
    cloud_provider_backoff_duration = lib.backoff_duration_default;
    cloud_provider_backoff_jitter = lib.backoff_jitter_default;
    vm_type = lib.vm_type_vmss;
    max_deployments_count = default_max_deployments_count;
    strict_cache_updates = false;
    enable_label_predictions_on_template = true;
    enable_vmss_etag = false;
  }

  -- The config file; a reader may be nil, and may fail, which is a none inside.
  unfoldable pub read_file : Option (Option Text) → Config F → Outcome (Config F)
  read_file none c = ok c
  read_file (some none) c = err (config config_malformed)
  read_file (some (some body)) c = elim (lib.unmarshal body c) [
    | none ↦ err (config config_malformed)
    | some c' ↦ ok c'
  ]

  -- The legacy fields take precedence, in their order.
  unfoldable pub legacy_identity : Config F → Config F
  legacy_identity c = elim c.use_workload_identity_extension [
    | none ↦ c
    | some b ↦ record c { use_federated_workload_identity_extension = b }
  ]

  unfoldable pub legacy_cache_ttl : Config F → Outcome (Config F)
  legacy_cache_ttl c = elim c.vmss_cache_ttl [
    | none ↦ ok c
    | some n ↦
        if ltb_ℤ max_ttl n
        then err (config (ttl_too_large n))
        else ok (record c { vmss_cache_ttl_in_seconds = n })
  ]

  unfoldable pub legacy_vms_cache_ttl : Config F → Outcome (Config F)
  legacy_vms_cache_ttl c = elim c.vmss_vms_cache_ttl [
    | none ↦ ok c
    | some n ↦
        if ltb_ℤ max_ttl n
        then err (config (ttl_too_large n))
        else ok (record c { vmss_virtual_machines_cache_ttl_in_seconds = n })
  ]

  unfoldable pub legacy_flex : Config F → Config F
  legacy_flex c = elim c.enable_vmss_flex [
    | none ↦ c
    | some b ↦ record c { enable_vmss_flex_nodes = b }
  ]

  unfoldable pub apply_legacy : Config F → Outcome (Config F)
  unfolding legacy_identity legacy_cache_ttl legacy_vms_cache_ttl legacy_flex
  apply_legacy c =
      legacy_cache_ttl (legacy_identity c)
      >>= (λ c₁. legacy_vms_cache_ttl c₁ >>= (λ c₂. ok (legacy_flex c₂)))

  -- The environment. The variables of the backoff count only where it is enabled by then.
  unfoldable pub apply_environment : Config F → Outcome (Config F)
  unfolding apply_all
  apply_environment c = apply_all lib text_assignments c >>= (λ c₁.
      apply_all lib flag_assignments c₁ >>= (λ c₂.
        (if c₂.cloud_provider_backoff then apply_all lib backoff_assignments c₂ else ok c₂)
        >>= (λ c₃. apply_all lib last_assignments c₃)))

  -- The nonstatic defaults.
  unfoldable pub default_deployments : Config F → Config F
  default_deployments c =
      let c' = record c { vm_type = to_lower c.vm_type } in
      if eqb_ℤ c.max_deployments_count (pos 0)
      then record c' { max_deployments_count = default_max_deployments_count }
      else c'

  unfoldable pub default_subscription : Config F → Outcome (Config F)
  default_subscription c =
      if is_empty c.subscription_id
      then lib.metadata_subscription >>= (λ id. ok (record c { subscription_id = id }))
      else ok c

  unfoldable pub default_parameters : Config F → Outcome (Config F)
  default_parameters c =
      if is_standard c && is_empty c.deployment_parameters
      then lib.read_deployment_parameters >>= (λ ps. ok (record c { deployment_parameters = ps }))
      else ok c

  unfoldable pub apply_defaults : Config F → Outcome (Config F)
  unfolding default_deployments default_subscription default_parameters text_eq
  apply_defaults c = default_subscription (default_deployments c) >>= default_parameters

  unfoldable pub build_azure_config : Option (Option Text) → Outcome (Config F)
  unfolding with_defaults read_file apply_legacy apply_environment apply_defaults validate
  build_azure_config reader = read_file reader (with_defaults lib.zero) >>= (λ c₁.
      apply_legacy c₁ >>= (λ c₂.
        apply_environment c₂
        >>= (λ c₃. apply_defaults c₃ >>= (λ c₄. validate c₄ >>= (λ _. ok c₄)))))
