-- ===== src/Config/Precedence.antt =====
-- The precedence of the environment variables in `BuildAzureConfig` of azure_config.go.
use cluster_autoscaler_provi.Base.Text.{Text, codes}
use cluster_autoscaler_provi.Base.{◌≡◌, refl, sym, ap, ◌∙◌, Option, some, inl, inr, arith}
use cluster_autoscaler_provi.Config.Build.{
  default_deployments, default_subscription, default_parameters, apply_defaults, validate,
  read_file, with_defaults, apply_legacy, apply_environment, build_azure_config,
}
use cluster_autoscaler_provi.Config.Table.{text_assignments}
use cluster_autoscaler_provi.Config.Valid.{default_subscription_keeps, default_parameters_keeps}
use cluster_autoscaler_provi.Config.{Config, Library, env_value}
use cluster_autoscaler_provi.Errors.{bind_ok, ok_inj, ok}
use cluster_autoscaler_provi.ResourceId.{trim_space}
use cluster_autoscaler_provi.Config.Kept.{Wins, apply_environment-Wins}

module _ {F : Type 0} (lib : Library F) where
  abbrev tenant : Config F → Text
  tenant c = c.tenant_id

  apply_defaults_tenant :
      (c c' : Config F) → apply_defaults lib c ≡ ok c' → c'.tenant_id ≡ c.tenant_id
  unfolding apply_defaults default_deployments default_subscription default_parameters
  apply_defaults_tenant c c' h =
      let d = default_deployments lib c in
      let (c₁, h₁, r₁) = bind_ok (default_subscription lib d) _ c' h in
      default_parameters_keeps lib tenant c₁ c' (λ ps. refl) r₁
      ∙ default_subscription_keeps lib tenant d c₁ (λ id. refl) h₁
      ∙ deployments
    where
      deployments : (default_deployments lib c).tenant_id ≡ c.tenant_id
      deployments = ground arith

  tenant-Wins :
      (v : Text)
      → env_value lib (codes "AZURE_TENANT_ID") ≡ some v
      → Wins tenant lib (trim_space v) v text_assignments
  tenant-Wins v e = inr (
      inr (
        inr (
          inr (
            inr (
              inr (
                inr (
                  inl (
                    (
                      (e, (λ c. refl)),
                      (
                        (λ v c. refl),
                        (
                          (λ v c. refl),
                          (
                            (λ v c. refl),
                            (
                              (λ v c. refl),
                              (
                                (λ v c. refl),
                                (
                                  (λ v c. refl),
                                  (
                                    (λ v c. refl),
                                    (
                                      (λ v c. refl),
                                      (
                                        (λ v c. refl),
                                        ((λ v c. refl), ((λ v c. refl), ((λ v c. refl), tt))),
                                      ),
                                    ),
                                  ),
                                ),
                              ),
                            ),
                          ),
                        ),
                      ),
                    )))))))))

  -- Where the environment has AZURE_TENANT_ID, and it is not blank, the tenant of a configuration that
  -- BuildAzureConfig returns is its value without the white space around it, whatever the config
  -- file and ARM_TENANT_ID say.
  pub build_azure_config-tenant :
      (reader : Option (Option Text)) (v : Text) (c : Config F)
      → env_value lib (codes "AZURE_TENANT_ID") ≡ some v
      → build_azure_config lib reader ≡ ok c
      → c.tenant_id ≡ trim_space v
  unfolding build_azure_config
  build_azure_config-tenant reader v c e h =
      let (c₁, _, h₁) = bind_ok (read_file lib reader (with_defaults lib lib.zero)) _ c h in
      let (c₂, _, h₂) = bind_ok (apply_legacy lib c₁) _ c h₁ in
      let (c₃, assigned, h₃) = bind_ok (apply_environment lib c₂) _ c h₂ in
      let (c₄, defaulted, h₄) = bind_ok (apply_defaults lib c₃) _ c h₃ in
      let (u, _, h₅) = bind_ok (validate lib c₄) _ c h₄ in
      ap tenant (sym (ok_inj h₅))
      ∙ apply_defaults_tenant c₃ c₄ defaulted
      ∙ apply_environment-Wins tenant lib (trim_space v) v c₂ c₃ (tenant-Wins v e)
          (
            (λ v c. refl),
            (
              (λ v c. refl),
              (
                (λ v c. refl),
                (
                  (λ v c. refl),
                  (
                    (λ v c. refl),
                    (
                      (λ v c. refl),
                      (
                        (λ v c. refl),
                        (
                          (λ v c. refl),
                          (
                            (λ v c. refl),
                            (
                              (λ v c. refl),
                              (
                                (λ v c. refl),
                                (
                                  (λ v c. refl),
                                  (
                                    (λ v c. refl),
                                    (
                                      (λ v c. refl),
                                      (
                                        (λ v c. refl),
                                        (
                                          (λ v c. refl),
                                          (
                                            (λ v c. refl),
                                            ((λ v c. refl), ((λ v c. refl), ((λ v c. refl), tt))),
                                          ),
                                        ),
                                      ),
                                    ),
                                  ),
                                ),
                              ),
                            ),
                          ),
                        ),
                      ),
                    ),
                  ),
                ),
              ),
            ),
          )
          ((λ v c. refl), ((λ v c. refl), ((λ v c. refl), ((λ v c. refl), tt))))
          (
            (λ v c. refl),
            (
              (λ v c. refl),
              (
                (λ v c. refl),
                ((λ v c. refl), ((λ v c. refl), ((λ v c. refl), ((λ v c. refl), tt)))),
              ),
            ),
          )
          assigned
