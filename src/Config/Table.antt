-- ===== src/Config/Table.antt =====
-- The environment variables that `BuildAzureConfig` of azure_config.go reads, in its order.
use cluster_autoscaler_provi.Base.Text.{codes}
use cluster_autoscaler_provi.Base.{List, [], ◌∷◌}
use cluster_autoscaler_provi.Config.{
  Assignment, assign, assign_bool, assign_int, assign_int64, assign_float,
}

module _ {F : Type 0} where
  -- The names, credentials and groups.
  abbrev pub text_assignments : List (Assignment F)
  text_assignments =
      assign (codes "CLUSTER_NAME") (λ v c. record c { cluster_name = v })
      ∷ assign (codes "ARM_CLUSTER_RESOURCE_GROUP") (λ v c. record c { cluster_resource_group = v })
      ∷ assign (codes "ARM_BASE_URL_FOR_AP_CLIENT")
          (λ v c. record c { arm_base_url_for_ap_client = v })
      ∷ assign (codes "ARM_CLOUD") (λ v c. record c { cloud = v })
      ∷ assign (codes "LOCATION") (λ v c. record c { location = v })
      ∷ assign (codes "ARM_RESOURCE_GROUP") (λ v c. record c { resource_group = v })
      ∷ assign (codes "ARM_TENANT_ID") (λ v c. record c { tenant_id = v })
      ∷ assign (codes "AZURE_TENANT_ID") (λ v c. record c { tenant_id = v })
      ∷ assign (codes "ARM_CLIENT_ID") (λ v c. record c { aad_client_id = v })
      ∷ assign (codes "AZURE_CLIENT_ID") (λ v c. record c { aad_client_id = v })
      ∷ assign (codes "AZURE_FEDERATED_TOKEN_FILE")
          (λ v c. record c { aad_federated_token_file = v })
      ∷ assign (codes "ARM_CLIENT_SECRET") (λ v c. record c { aad_client_secret = v })
      ∷ assign (codes "ARM_VM_TYPE") (λ v c. record c { vm_type = v })
      ∷ assign (codes "ARM_CLIENT_CERT_PATH") (λ v c. record c { aad_client_cert_path = v })
      ∷ assign (codes "ARM_CLIENT_CERT_PASSWORD") (λ v c. record c { aad_client_cert_password = v })
      ∷ assign (codes "ARM_DEPLOYMENT") (λ v c. record c { deployment = v })
      ∷ assign (codes "ARM_SUBSCRIPTION_ID") (λ v c. record c { subscription_id = v })
      ∷ assign (codes "HOSTED_RESOURCE_PROXY_URL")
          (λ v c. record c { hosted_resource_proxy_url = v })
      ∷ assign (codes "HOSTED_SUBSCRIPTION_ID") (λ v c. record c { hosted_subscription_id = v })
      ∷ assign (codes "HOSTED_RESOURCE_GROUP") (λ v c. record c { hosted_resource_group = v })
      ∷ []

  -- The identity, the cache periods and the flags.
  abbrev pub flag_assignments : List (Assignment F)
  flag_assignments =
      assign_bool (codes "ARM_USE_MANAGED_IDENTITY_EXTENSION")
        (λ v c. record c { use_managed_identity_extension = v })
      ∷ assign_bool (codes "ARM_USE_FEDERATED_WORKLOAD_IDENTITY_EXTENSION")
          (λ v c. record c { use_federated_workload_identity_extension = v })
      ∷ assign_bool (codes "ARM_USE_WORKLOAD_IDENTITY_EXTENSION")
          (λ v c. record c { use_federated_workload_identity_extension = v })
      ∷ assign (codes "ARM_USER_ASSIGNED_IDENTITY_ID")
          (λ v c. record c { user_assigned_identity_id = v })
      ∷ assign_int (codes "AZURE_VMSS_CACHE_TTL_IN_SECONDS")
          (λ v c. record c { vmss_cache_ttl_in_seconds = v })
      ∷ assign_int (codes "AZURE_VMSS_CACHE_TTL")
          (λ v c. record c { vmss_cache_ttl_in_seconds = v })
      ∷ assign_int (codes "AZURE_VMSS_VMS_CACHE_TTL_IN_SECONDS")
          (λ v c. record c { vmss_virtual_machines_cache_ttl_in_seconds = v })
      ∷ assign_int (codes "AZURE_VMSS_VMS_CACHE_TTL")
          (λ v c. record c { vmss_virtual_machines_cache_ttl_in_seconds = v })
      ∷ assign_int (codes "AZURE_VMSS_VMS_CACHE_JITTER")
          (λ v c. record c { vmss_vms_cache_jitter = v })
      ∷ assign_int (codes "AZURE_GET_VMSS_SIZE_REFRESH_PERIOD")
          (λ v c. record c { get_vmss_size_refresh_period = v })
      ∷ assign_int64 (codes "AZURE_MAX_DEPLOYMENT_COUNT")
          (λ v c. record c { max_deployments_count = v })
      ∷ assign_bool (codes "ENABLE_BACKOFF") (λ v c. record c { cloud_provider_backoff = v })
      ∷ assign_bool (codes "AZURE_ENABLE_FORCE_DELETE")
          (λ v c. record c { enable_force_delete = v })
      ∷ assign_bool (codes "AZURE_STRICT_CACHE_UPDATES")
          (λ v c. record c { strict_cache_updates = v })
      ∷ assign_bool (codes "AZURE_ENABLE_VMS_AGENT_POOLS")
          (λ v c. record c { enable_vms_agent_pool = v })
      ∷ assign_bool (codes "AZURE_ENABLE_VMSS_ETAG") (λ v c. record c { enable_vmss_etag = v })
      ∷ assign_bool (codes "AZURE_ENABLE_DYNAMIC_INSTANCE_LIST")
          (λ v c. record c { enable_dynamic_instance_list = v })
      ∷ assign_bool (codes "AZURE_ENABLE_DETAILED_CSE_MESSAGE")
          (λ v c. record c { enable_detailed_cse_message = v })
      ∷ assign_bool (codes "AZURE_ENABLE_VMSS_FLEX_NODES")
          (λ v c. record c { enable_vmss_flex_nodes = v })
      ∷ assign_bool (codes "AZURE_ENABLE_VMSS_FLEX")
          (λ v c. record c { enable_vmss_flex_nodes = v })
      ∷ []

  -- The backoff, if it is enabled.
  abbrev pub backoff_assignments : List (Assignment F)
  backoff_assignments =
      assign_int (codes "BACKOFF_RETRIES") (λ v c. record c { cloud_provider_backoff_retries = v })
      ∷ assign_float 64 (codes "BACKOFF_EXPONENT")
          (λ v c. record c { cloud_provider_backoff_exponent = v })
      ∷ assign_int (codes "BACKOFF_DURATION")
          (λ v c. record c { cloud_provider_backoff_duration = v })
      ∷ assign_float 64 (codes "BACKOFF_JITTER")
          (λ v c. record c { cloud_provider_backoff_jitter = v })
      ∷ []

  -- The rate limits and the last flags.
  abbrev pub last_assignments : List (Assignment F)
  last_assignments =
      assign_bool (codes "CLOUD_PROVIDER_RATE_LIMIT")
        (λ v c. record c { cloud_provider_rate_limit = v })
      ∷ assign_float 32 (codes "RATE_LIMIT_READ_QPS")
          (λ v c. record c { cloud_provider_rate_limit_qps = v })
      ∷ assign_int (codes "RATE_LIMIT_READ_BUCKETS")
          (λ v c. record c { cloud_provider_rate_limit_bucket = v })
      ∷ assign_float 32 (codes "RATE_LIMIT_WRITE_QPS")
          (λ v c. record c { cloud_provider_rate_limit_qps_write = v })
      ∷ assign_int (codes "RATE_LIMIT_WRITE_BUCKETS")
          (λ v c. record c { cloud_provider_rate_limit_bucket_write = v })
      ∷ assign_bool (codes "AZURE_ENABLE_FAST_DELETE_ON_FAILED_PROVISIONING")
          (λ v c. record c { enable_fast_delete_on_failed_provisioning = v })
      ∷ assign_bool (codes "AZURE_ENABLE_LABEL_PREDICTIONS_ON_TEMPLATE")
          (λ v c. record c { enable_label_predictions_on_template = v })
      ∷ []
