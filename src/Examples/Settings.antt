-- ===== src/Examples/Settings.antt =====
-- Runs of the configuration, of the node templates and of the provider's questions about nodes.
use cluster_autoscaler_provi.Base.Int.{pos, eqb_ℤ}
use cluster_autoscaler_provi.Base.Text.{
  Text, codes, lower, text_eq, eq_fold, has_prefix, strip_prefix, replace_first, greedy,
  greedy_capture, greedy_capture_some, literal, search_match,
}
use cluster_autoscaler_provi.Base.{
  ◌≡◌, refl, true, false, not, none, some, [], ◌∷◌, ◌++◌, if◌then◌else◌,
}
use cluster_autoscaler_provi.Config.Build.{
  validate_standard, validate_credentials, validate, with_defaults, read_file, legacy_identity,
  legacy_cache_ttl, legacy_vms_cache_ttl, legacy_flex, apply_legacy, apply_environment,
  default_deployments, default_subscription, default_parameters, apply_defaults, build_azure_config,
}
use cluster_autoscaler_provi.Config.Precedence.{build_azure_config-tenant}
use cluster_autoscaler_provi.Config.Valid.{IsValid, build_azure_config-IsValid}
use cluster_autoscaler_provi.Config.{Config, Library, env_value, assign_parsed, apply, apply_all}
use cluster_autoscaler_provi.Cache.{
  find_entry, get_instance_from_cache, is_omitted, find_for_instance,
}
use mathlib.Core.List.{Memᴰ}
use cluster_autoscaler_provi.Base.Maps.{member, lookup}
use cluster_autoscaler_provi.Errors.{ok, err, config, config_malformed}
use cluster_autoscaler_provi.Examples.Data.{id_a, group_a, cache_a}
use cluster_autoscaler_provi.Facade.Agreed.{
  is_marked_deleting, node_has_instance-node_group_for_node,
}
use cluster_autoscaler_provi.Facade.{Node, node_group_for_node, node_has_instance}
use cluster_autoscaler_provi.Manager.{Manager, get_node_group_for_instance}
use cluster_autoscaler_provi.ResourceId.{
  azure_prefix, resource_group_re, convert_resource_group_name_to_lower, trim_left, trim_right,
  trim_space,
}
use cluster_autoscaler_provi.Template.Labels.{escape, unescape-escape}
use cluster_autoscaler_provi.Template.Taints.{print_taint, no_schedule, construct_taint-print_taint}
use cluster_autoscaler_provi.Template.{Taint, unescape, construct_taint_from_string}
use cluster_autoscaler_provi.Types.{other_vm_type}

program : Unit {0}
unfolding lower text_eq trim_left trim_right trim_space validate_standard validate_credentials
    validate with_defaults read_file legacy_identity legacy_cache_ttl legacy_vms_cache_ttl
    legacy_flex apply_legacy apply_environment default_deployments default_subscription
    default_parameters apply_defaults build_azure_config env_value assign_parsed apply apply_all
program = tt

-- A principal's configuration, and an environment that names its tenant.
abbrev zero_config : Config (Unit {0})
zero_config = record {
  cluster_name = [];
  cluster_resource_group = [];
  arm_base_url_for_ap_client = [];
  cloud = [];
  location = [];
  resource_group = codes "g";
  tenant_id = [];
  aad_client_id = codes "c";
  aad_federated_token_file = [];
  aad_client_secret = [];
  vm_type = [];
  aad_client_cert_path = [];
  aad_client_cert_password = [];
  deployment = [];
  deployment_parameters = [];
  subscription_id = codes "s";
  hosted_resource_proxy_url = [];
  hosted_subscription_id = [];
  hosted_resource_group = [];
  user_assigned_identity_id = [];
  auth_method = [];
  use_managed_identity_extension = false;
  use_federated_workload_identity_extension = false;
  cloud_provider_backoff = false;
  enable_force_delete = false;
  strict_cache_updates = false;
  enable_vms_agent_pool = false;
  enable_vmss_etag = false;
  enable_dynamic_instance_list = false;
  enable_detailed_cse_message = false;
  enable_vmss_flex_nodes = false;
  cloud_provider_rate_limit = false;
  enable_fast_delete_on_failed_provisioning = false;
  enable_label_predictions_on_template = false;
  vmss_cache_ttl_in_seconds = pos 0;
  vmss_virtual_machines_cache_ttl_in_seconds = pos 0;
  vmss_vms_cache_jitter = pos 0;
  get_vmss_size_refresh_period = pos 0;
  max_deployments_count = pos 0;
  cloud_provider_backoff_retries = pos 0;
  cloud_provider_backoff_duration = pos 0;
  cloud_provider_backoff_exponent = tt;
  cloud_provider_backoff_jitter = tt;
  cloud_provider_rate_limit_bucket = pos 0;
  cloud_provider_rate_limit_bucket_write = pos 0;
  cloud_provider_rate_limit_qps = tt;
  cloud_provider_rate_limit_qps_write = tt;
  use_workload_identity_extension = none;
  vmss_cache_ttl = none;
  vmss_vms_cache_ttl = none;
  enable_vmss_flex = none;
}

abbrev library : Library (Unit {0})
library = record {
  lookup_env = λ name. if text_eq name (codes "AZURE_TENANT_ID") then some (codes " t") else none;
  parse_float = λ bits s. none;
  zero = zero_config;
  unmarshal = λ s c. some c;
  vm_type_vmss = codes "vmss";
  vm_type_standard = codes "standard";
  backoff_retries_default = pos 6;
  backoff_exponent_default = tt;
  backoff_duration_default = pos 5;
  backoff_jitter_default = tt;
  metadata_subscription = err (config config_malformed);
  read_deployment_parameters = err (config config_malformed);
}

abbrev built_config : Config (Unit {0})
built_config = record zero_config {
  tenant_id = codes "t";
  vm_type = codes "vmss";
  max_deployments_count = pos 10;
  cloud_provider_backoff_retries = pos 6;
  cloud_provider_backoff_duration = pos 5;
  enable_label_predictions_on_template = true;
}

built : build_azure_config library none ≡ ok built_config
unfolding program
built = refl

build_azure_config-IsValid_example :
    IsValid library built_config × (eqb_ℤ built_config.max_deployments_count (pos 0) ≡ false)
build_azure_config-IsValid_example = build_azure_config-IsValid library none built_config built

named : env_value library (codes "AZURE_TENANT_ID") ≡ some (codes " t")
unfolding program
named = refl

build_azure_config-tenant_example : built_config.tenant_id ≡ trim_space (codes " t")
build_azure_config-tenant_example =
    build_azure_config-tenant library none (codes " t") built_config named built

unescape-escape_example : unescape (escape (codes "a_b/c")) ≡ codes "a_b/c"
unescape-escape_example = unescape-escape (codes "a_b/c") (refl, (refl, (refl, (refl, (refl, tt)))))

abbrev taint_a : Taint
taint_a = record { key = codes "k"; value = codes "v"; effect = codes "NoSchedule" }

construct_taint-print_taint_example :
    construct_taint_from_string (print_taint taint_a) ≡ some taint_a
construct_taint-print_taint_example =
    construct_taint-print_taint taint_a (refl, tt) (refl, tt) (refl, tt) no_schedule

abbrev provider_id_a : Text
provider_id_a = azure_prefix ++ id_a

abbrev node_a : Node
node_a = record { name = codes "n"; provider_id = provider_id_a }

abbrev manager_a : Manager
manager_a = record {
  vm_type = other_vm_type [];
  cache = record cache_a { instance_to_node_group = (provider_id_a, group_a) ∷ [] };
  last_refresh = pos 0;
  auto_discovery_specs = [];
  explicitly_configured = [];
}

grouped : (node_group_for_node node_a manager_a).0 ≡ ok (some group_a)
unfolding lower text_eq eq_fold member has_prefix strip_prefix replace_first greedy greedy_capture
    greedy_capture_some literal search_match resource_group_re convert_resource_group_name_to_lower
    find_entry get_instance_from_cache is_omitted find_for_instance get_node_group_for_instance
    node_group_for_node
grouped = refl

node_has_instance-node_group_for_node_example :
    (key : Text) × Memᴰ (key, group_a) manager_a.cache.instance_to_node_group
    × (eq_fold key node_a.provider_id ≡ true)
    × (node_has_instance node_a manager_a
        ≡ ok (not (is_marked_deleting (lookup key manager_a.cache.instance_states))))
node_has_instance-node_group_for_node_example =
    node_has_instance-node_group_for_node node_a manager_a group_a grouped
