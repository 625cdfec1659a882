-- ===== src/Config/Valid.antt =====
-- `validate` of azure_config.go, and the configuration that `BuildAzureConfig` returns.
use cluster_autoscaler_provi.Base.Int.{ℤ, pos, eqb_ℤ}
use cluster_autoscaler_provi.Base.Text.{Text, codes, text_eq}
use cluster_autoscaler_provi.Base.{
  ◌≡◌, refl, sym, ap, ◌∙◌, List, true, false, not, ◌&&◌, ◌||◌, Option, arith, is_empty, inl, inr,
  if◌then◌else◌, Bool-cases,
}
use cluster_autoscaler_provi.Config.Build.{
  is_standard, default_deployments, default_subscription, default_parameters, apply_defaults,
  validate_standard, validate_credentials, validate, read_file, with_defaults, apply_legacy,
  apply_environment, build_azure_config,
}
use cluster_autoscaler_provi.Config.{Config, Library}
use cluster_autoscaler_provi.Errors.{bind_ok, ok_inj, ok}

module _ {F : Type 0} (lib : Library F) where
  -- A configuration that the rest of the provider can work with.
  pub record IsValid (c : Config F) : Type 0 where
    pub has_group : is_empty c.resource_group ≡ false
    pub has_subscription : is_empty c.subscription_id ≡ false
    pub one_identity :
        (c.use_managed_identity_extension && c.use_federated_workload_identity_extension) ≡ false
    pub known_type : (is_standard lib c || text_eq c.vm_type lib.vm_type_vmss) ≡ true
    pub standard :
        (is_standard lib c && (is_empty c.deployment || is_empty c.deployment_parameters)) ≡ false
    pub credentials :
        (c.use_managed_identity_extension
          || c.use_federated_workload_identity_extension
          || not (is_empty c.tenant_id)
            && (if is_empty c.auth_method || text_eq c.auth_method (codes "principal")
                then not (is_empty c.aad_client_id)
                else text_eq c.auth_method (codes "cli")))
        ≡ true
    pub retries :
        (c.cloud_provider_backoff && eqb_ℤ c.cloud_provider_backoff_retries (pos 0)) ≡ false

  validate-IsValid : (c : Config F) → validate lib c ≡ ok tt → IsValid c
  unfolding validate validate_standard validate_credentials
  validate-IsValid c h = ground (arith, h)

  default_deployments_count :
      (c : Config F) → eqb_ℤ (default_deployments lib c).max_deployments_count (pos 0) ≡ false
  unfolding default_deployments
  default_deployments_count c = ground arith

  -- The defaults set the subscription and the parameters, and nothing else.
  pub default_subscription_keeps :
      {A : Type 0} (get : Config F → A) (c c' : Config F)
      → ((id : Text) → get (record c { subscription_id = id }) ≡ get c)
      → default_subscription lib c ≡ ok c'
      → get c' ≡ get c
  unfolding default_subscription
  default_subscription_keeps get c c' k h = elim (Bool-cases (is_empty c.subscription_id)) [
    | inl e ↦
        (let (id, known, set) =
            bind_ok lib.metadata_subscription (λ id. ok (record c { subscription_id = id })) c'
              (rw (e, default_subscription) at h) in
          ap get (sym (ok_inj set)) ∙ k id)
    | inr e ↦ ap get (sym (ok_inj (rw (e, default_subscription) at h)))
  ]

  pub default_parameters_keeps :
      {A : Type 0} (get : Config F → A) (c c' : Config F)
      → ((ps : List Text) → get (record c { deployment_parameters = ps }) ≡ get c)
      → default_parameters lib c ≡ ok c'
      → get c' ≡ get c
  unfolding default_parameters
  default_parameters_keeps get c c' k h =
      elim (Bool-cases (is_standard lib c && is_empty c.deployment_parameters)) [
        | inl e ↦
            (let (ps, known, set) =
                bind_ok lib.read_deployment_parameters
                  (λ ps. ok (record c { deployment_parameters = ps })) c'
                  (rw (e, default_parameters) at h) in
              ap get (sym (ok_inj set)) ∙ k ps)
        | inr e ↦ ap get (sym (ok_inj (rw (e, default_parameters) at h)))
      ]

  apply_defaults_count :
      (c c' : Config F)
      → apply_defaults lib c ≡ ok c'
      → eqb_ℤ c'.max_deployments_count (pos 0) ≡ false
  unfolding apply_defaults
  apply_defaults_count c c' h =
      let (d, first, second) =
        bind_ok (default_subscription lib (default_deployments lib c)) _ c' h in
      let count : Config F → ℤ = λ e. e.max_deployments_count in
      rw
        (
          default_parameters_keeps count d c' (λ ps. refl) second,
          default_subscription_keeps count (default_deployments lib c) d (λ id. refl) first,
        )
        (default_deployments_count c)

  -- A configuration that BuildAzureConfig returns has passed every test of validate on the fields as
  -- they are returned: a resource group and a subscription, at most one of the two identities, a
  -- VM type that is supported, for the standard type a deployment with parameters, credentials where
  -- there is no identity, and retries where the backoff is enabled; and its number of deployments to
  -- keep is not 0.
  pub build_azure_config-IsValid :
      (reader : Option (Option Text)) (c : Config F)
      → build_azure_config lib reader ≡ ok c
      → IsValid c × (eqb_ℤ c.max_deployments_count (pos 0) ≡ false)
  unfolding build_azure_config
  build_azure_config-IsValid reader c h =
      let (c₁, _, h₁) = bind_ok (read_file lib reader (with_defaults lib lib.zero)) _ c h in
      let (c₂, _, h₂) = bind_ok (apply_legacy lib c₁) _ c h₁ in
      let (c₃, _, h₃) = bind_ok (apply_environment lib c₂) _ c h₂ in
      let (c₄, defaulted, h₄) = bind_ok (apply_defaults lib c₃) _ c h₃ in
      let (u, valid, h₅) = bind_ok (validate lib c₄) _ c h₄ in
      rw (← ok_inj h₅) (validate-IsValid c₄ valid, apply_defaults_count c₃ c₄ defaulted)
