-- ===== src/Config.antt =====
-- pkg/cloudprovider/azure/azure_config.go: the configuration, from its defaults, a JSON file and the
-- environment, and its validation.
pub mod Table
pub mod Build
pub mod Valid
pub mod Kept
pub mod Precedence
use cluster_autoscaler_provi.Base.Atoi.{atoi}
use cluster_autoscaler_provi.Base.Int.{ℤ, pos, negsuc, ltb_ℤ, leb_ℤ}
use cluster_autoscaler_provi.Base.Text.{Text, codes, text_eq}
use cluster_autoscaler_provi.Base.{
  ℕ, ◌-◌, ◌^◌, Bool, true, false, ◌&&◌, ◌||◌, Option, none, some, List, [], ◌∷◌, if◌then◌else◌, any,
  is_empty,
}
use cluster_autoscaler_provi.Errors.{config, env_invalid, Outcome, ok, err, panic, ◌>>=◌}
use cluster_autoscaler_provi.ResourceId.{trim_space}

-- `Config` with the fields that it embeds, as far as this file sets or reads them; of the deployment
-- parameters their names. F stands for the floating-point numbers.
pub record Config (F : Type 0) : Type 0 where
  pub cluster_name : Text
  pub cluster_resource_group : Text
  pub arm_base_url_for_ap_client : Text
  pub cloud : Text
  pub location : Text
  pub resource_group : Text
  pub tenant_id : Text
  pub aad_client_id : Text
  pub aad_federated_token_file : Text
  pub aad_client_secret : Text
  pub vm_type : Text
  pub aad_client_cert_path : Text
  pub aad_client_cert_password : Text
  pub deployment : Text
  pub deployment_parameters : List Text
  pub subscription_id : Text
  pub hosted_resource_proxy_url : Text
  pub hosted_subscription_id : Text
  pub hosted_resource_group : Text
  pub user_assigned_identity_id : Text
  pub auth_method : Text
  pub use_managed_identity_extension : Bool
  pub use_federated_workload_identity_extension : Bool
  pub cloud_provider_backoff : Bool
  pub enable_force_delete : Bool
  pub strict_cache_updates : Bool
  pub enable_vms_agent_pool : Bool
  pub enable_vmss_etag : Bool
  pub enable_dynamic_instance_list : Bool
  pub enable_detailed_cse_message : Bool
  pub enable_vmss_flex_nodes : Bool
  pub cloud_provider_rate_limit : Bool
  pub enable_fast_delete_on_failed_provisioning : Bool
  pub enable_label_predictions_on_template : Bool
  pub vmss_cache_ttl_in_seconds : ℤ
  pub vmss_virtual_machines_cache_ttl_in_seconds : ℤ
  pub vmss_vms_cache_jitter : ℤ
  pub get_vmss_size_refresh_period : ℤ
  pub max_deployments_count : ℤ
  pub cloud_provider_backoff_retries : ℤ
  pub cloud_provider_backoff_duration : ℤ
  pub cloud_provider_backoff_exponent : F
  pub cloud_provider_backoff_jitter : F
  pub cloud_provider_rate_limit_bucket : ℤ
  pub cloud_provider_rate_limit_bucket_write : ℤ
  pub cloud_provider_rate_limit_qps : F
  pub cloud_provider_rate_limit_qps_write : F
  pub use_workload_identity_extension : Option Bool
  pub vmss_cache_ttl : Option ℤ
  pub vmss_vms_cache_ttl : Option ℤ
  pub enable_vmss_flex : Option Bool

-- What is not part of the repository: `os.LookupEnv`, `strconv.ParseFloat` at 32 or 64 bits, the
-- zero configuration, `json.Unmarshal` onto a configuration, the constants of cloud-provider-azure
-- (the VM types, and the backoff's retries, exponent, duration and jitter), and the reads of the
-- instance metadata service and of the file of deployment parameters.
pub record Library (F : Type 0) : Type 0 where
  pub lookup_env : Text → Option Text
  pub parse_float : ℕ → Text → Option F
  pub zero : Config F
  pub unmarshal : Text → Config F → Option (Config F)
  pub vm_type_vmss : Text
  pub vm_type_standard : Text
  pub backoff_retries_default : ℤ
  pub backoff_exponent_default : F
  pub backoff_duration_default : ℤ
  pub backoff_jitter_default : F
  pub metadata_subscription : Outcome Text
  pub read_deployment_parameters : Outcome (List Text)

-- `strconv.ParseBool`.
unfoldable pub parse_bool : Text → Option Bool
unfolding text_eq
parse_bool s =
    if any (text_eq s)
      (codes "1" ∷ codes "t" ∷ codes "T" ∷ codes "TRUE" ∷ codes "true" ∷ codes "True" ∷ [])
    then some true
    else if any (text_eq s)
        (codes "0" ∷ codes "f" ∷ codes "F" ∷ codes "FALSE" ∷ codes "false" ∷ codes "False" ∷ [])
    then some false
    else none

abbrev in_int32 : ℤ → Bool
in_int32 n = leb_ℤ (negsuc (2 ^ 31 - 1)) n && ltb_ℤ n (pos (2 ^ 31))

-- `parseInt32` at base 10; `atoi` is `strconv.ParseInt` at base 10 and the size of `int`.
unfoldable pub parse_int32 : Text → Option ℤ
unfolding atoi
parse_int32 s = elim (atoi s) [ none ↦ none | some n ↦ if in_int32 n then some n else none ]

-- A call of one of the `assign…FromEnvIfExists` functions: the name of the variable, and what is
-- done with its value.
pub data Assignment (F : Type 0) : Type 0 where
  assign : Text → (Text → Config F → Config F) → Assignment F
  assign_bool : Text → (Bool → Config F → Config F) → Assignment F
  assign_int : Text → (ℤ → Config F → Config F) → Assignment F
  assign_int64 : Text → (ℤ → Config F → Config F) → Assignment F
  assign_float : ℕ → Text → (F → Config F → Config F) → Assignment F

module _ {F : Type 0} (lib : Library F) where
  -- The value of a variable that is set and not blank.
  unfoldable pub env_value : Text → Option Text
  unfolding trim_space
  env_value name = elim (lib.lookup_env name) [
    | none ↦ none
    | some value ↦ if is_empty (trim_space value) then none else some value
  ]

  -- A value that has to be assign_parsed, or nothing to assign.
  unfoldable pub assign_parsed :
      {A : Type 0}
      → Text
      → Option Text
      → (Text → Option A)
      → (A → Config F → Config F)
      → Config F
      → Outcome (Config F)
  assign_parsed name none parse set c = ok c
  assign_parsed name (some value) parse set c = elim (parse value) [
    | none ↦ err (config (env_invalid name value))
    | some a ↦ ok (set a c)
  ]

  unfoldable pub apply : Assignment F → Config F → Outcome (Config F)
  unfolding assign_parsed parse_bool parse_int32 atoi
  apply (assign name set) c = elim (env_value name) [
    | none ↦ ok c
    | some value ↦ ok (set (trim_space value) c)
  ]
  apply (assign_bool name set) c = assign_parsed name (env_value name) parse_bool set c
  apply (assign_int name set) c = assign_parsed name (env_value name) parse_int32 set c
  apply (assign_int64 name set) c = assign_parsed name (env_value name) atoi set c
  apply (assign_float bits name set) c =
      assign_parsed name (env_value name) (lib.parse_float bits) set c

  unfoldable pub apply_all : List (Assignment F) → Config F → Outcome (Config F)
  unfolding apply
  apply_all [] c = ok c
  apply_all (a ∷ rest) c = apply a c >>= (λ c'. apply_all rest c')
