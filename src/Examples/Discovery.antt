-- ===== src/Examples/Discovery.antt =====
-- Runs of the discovery of node groups, of the manager and of the reported statuses.
use cluster_autoscaler_provi.Autodiscovery.Matched.{
  selects, mins, maxes, IsGreatest, IsLeastOrNone, match_discovery_config-selects,
  match_discovery_config-sizes,
}
use cluster_autoscaler_provi.Autodiscovery.Parsed.{
  IsParsed, IsOrdered, parse_label_auto_discovery_spec-IsParsed,
}
use cluster_autoscaler_provi.Autodiscovery.{
  LabelAutoDiscoveryConfig, AutoDiscoveryConfigSizes, parse_size, set_pair, parse_pair, parse_pairs,
  check_sizes, parse_tokens, parse_label_auto_discovery_spec, matches_pair, matches_selector,
  match_configs, match_discovery_config,
}
use cluster_autoscaler_provi.Base.Atoi.{digits_value, unsigned, atoi}
use cluster_autoscaler_provi.Base.Int.{pos, negsuc, ltb_ℤ, ◌+ℤ◌}
use cluster_autoscaler_provi.Base.Maps.{lookup, insert, member}
use cluster_autoscaler_provi.Base.Text.{Text, codes, text_eq, split, lower, eq_fold}
use cluster_autoscaler_provi.Base.{
  ◌≡◌, refl, ◌&&◌, true, false, not, none, some, List, [], ◌∷◌, is_some, is_empty, all, All, arith,
}
use cluster_autoscaler_provi.Cache.Fetch.{
  Listing, store_scale_sets, group_virtual_machines, fetch_pools_into, fetch_azure_resources,
}
use cluster_autoscaler_provi.Cache.Regenerate.{
  before, option_name, extract_autoscaling_options_from_scale_set_tags, add_state, add_instances,
  collect_instances, collect_options, replace_maps, regenerate,
}
use cluster_autoscaler_provi.Cache.Registration.{IsDistinct}
use cluster_autoscaler_provi.Cache.{
  update, set_scale_set, register_groups, register, unregister_groups, unregister,
  invalidate_unowned_instance_cache,
}
use cluster_autoscaler_provi.Errors.{Outcome, ok}
use cluster_autoscaler_provi.Examples.Data.{pool_a, vmss_a, group_a, cache_a}
use cluster_autoscaler_provi.Manager.Discovered.{Selected, get_filtered_scale_sets-Selected}
use cluster_autoscaler_provi.Manager.Pruned.{fetch_auto_node_groups-stays}
use cluster_autoscaler_provi.Manager.Refreshing.{fetch_auto_node_groups-IsDistinct}
use cluster_autoscaler_provi.Manager.{
  Manager, tag_size, min_size_of, max_size_of, new_scale_set, filter_scale_set,
  get_filtered_scale_sets, get_filtered_node_groups, ids, stays, register_all, unregister_others,
  invalidate, apply_auto_node_groups, fetch_auto_node_groups, finish_refresh, force_refresh,
  refresh,
}
use cluster_autoscaler_provi.Status.Reported.{instance_status_from_vm-agrees}
use cluster_autoscaler_provi.Status.{
  ScaleSetVm, ScaleSetVmProperties, instance_status_from_vm,
  instance_status_from_provisioning_state_and_power_state, power_state_of_view,
}
use cluster_autoscaler_provi.Types.{Instance, NodeGroup, vmss_type}

program : Unit {0}
unfolding text_eq split digits_value unsigned atoi lookup insert member parse_size set_pair
    parse_pair parse_pairs check_sizes parse_tokens parse_label_auto_discovery_spec matches_pair
    matches_selector match_configs match_discovery_config
program = tt

abbrev config_a : LabelAutoDiscoveryConfig
config_a = record {
  selector = (codes "k", codes "v") ∷ [];
  min_size = some (pos 1);
  max_size = some (pos 5);
}

abbrev spec_a : Text
spec_a = codes "label:k=v,min=1,max=5"

parsed : parse_label_auto_discovery_spec spec_a ≡ ok config_a
unfolding program
parsed = refl

parse_label_auto_discovery_spec-IsParsed_example :
    IsParsed config_a × IsOrdered config_a.min_size config_a.max_size
parse_label_auto_discovery_spec-IsParsed_example =
    parse_label_auto_discovery_spec-IsParsed spec_a config_a parsed

match_discovery_config-selects_example :
    is_some (match_discovery_config vmss_a.tags (config_a ∷ []))
    ≡ (not (is_empty (config_a ∷ [])) && all (selects vmss_a.tags) (config_a ∷ []))
match_discovery_config-selects_example = match_discovery_config-selects vmss_a.tags (config_a ∷ [])

abbrev sizes_a : AutoDiscoveryConfigSizes
sizes_a = record { min = pos 1; max = pos 5 }

matched : match_discovery_config vmss_a.tags (config_a ∷ []) ≡ some sizes_a
unfolding program
matched = refl

match_discovery_config-sizes_example :
    IsGreatest (negsuc 0) sizes_a.min (mins (config_a ∷ []))
    × IsLeastOrNone sizes_a.max (maxes (config_a ∷ []))
match_discovery_config-sizes_example =
    match_discovery_config-sizes vmss_a.tags (config_a ∷ []) sizes_a (omega arith, tt) matched

manager_program : Unit {0}
unfolding program lower eq_fold tag_size min_size_of max_size_of new_scale_set filter_scale_set
    get_filtered_scale_sets get_filtered_node_groups register_groups register unregister_groups
    unregister invalidate_unowned_instance_cache register_all unregister_others invalidate
    apply_auto_node_groups fetch_auto_node_groups finish_refresh force_refresh refresh update
    set_scale_set store_scale_sets group_virtual_machines fetch_pools_into fetch_azure_resources
    add_state add_instances collect_instances collect_options
    extract_autoscaling_options_from_scale_set_tags option_name before replace_maps regenerate
manager_program = tt

abbrev manager_a : Manager
manager_a = record {
  vm_type = vmss_type;
  cache = cache_a;
  last_refresh = pos 0;
  auto_discovery_specs = config_a ∷ [];
  explicitly_configured = [];
}

discovered :
    get_filtered_scale_sets (config_a ∷ []) (λ p. vmss_a) ((pool_a, 0) ∷ []) ≡ ok (group_a ∷ [])
unfolding manager_program
discovered = refl

get_filtered_scale_sets-Selected_example :
    All (λ g. Selected (config_a ∷ []) (λ p. vmss_a) g ((pool_a, 0) ∷ [])) (group_a ∷ [])
get_filtered_scale_sets-Selected_example =
    get_filtered_scale_sets-Selected config_a [] (λ p. vmss_a) ((pool_a, 0) ∷ []) (group_a ∷ [])
      discovered

found : get_filtered_node_groups manager_a.auto_discovery_specs manager_a ≡ ok (group_a ∷ [])
unfolding manager_program
found = refl

fetch_auto_node_groups-stays_example :
    All
      (λ g. stays (ids (group_a ∷ [])) [] g ≡ true)
      (fetch_auto_node_groups (pos 100) manager_a).1.cache.registered_node_groups
fetch_auto_node_groups-stays_example =
    fetch_auto_node_groups-stays (pos 100) manager_a (group_a ∷ []) found

fetch_auto_node_groups-IsDistinct_example :
    IsDistinct (fetch_auto_node_groups (pos 100) manager_a).1.cache.registered_node_groups
fetch_auto_node_groups-IsDistinct_example =
    fetch_auto_node_groups-IsDistinct (pos 100) manager_a (tt, tt)

abbrev listing : Listing
listing = record {
  vmss_list = ok (vmss_a ∷ []);
  vm_list = ok [];
  has_agent_pool_client = false;
  agent_pools = ok [];
}

abbrev no_nodes : NodeGroup → Outcome (List Instance)
no_nodes g = ok []

stale : ltb_ℤ (pos 100) (manager_a.last_refresh +ℤ manager_a.cache.refresh_interval) ≡ false
stale = refl

refreshed : (refresh (pos 100) listing no_nodes manager_a).0 ≡ ok tt
unfolding manager_program
refreshed = refl

refresh_interval : (refresh (pos 100) listing no_nodes manager_a).1.cache.refresh_interval ≡ pos 60
unfolding manager_program
refresh_interval = refl

abbrev props_a : ScaleSetVmProperties
props_a = record { provisioning_state = some (codes "Succeeded"); instance_view = none }

abbrev vm_a : ScaleSetVm
vm_a = record { id = codes "id"; name = none; properties = some props_a }

settled : text_eq (codes "Succeeded") (codes "Updating") ≡ false
unfolding program
settled = refl

instance_status_from_vm-agrees_example :
    instance_status_from_vm true false [] vm_a
    ≡ instance_status_from_provisioning_state_and_power_state
        (some (codes "Succeeded"))
        (power_state_of_view none)
        true
instance_status_from_vm-agrees_example =
    instance_status_from_vm-agrees true [] vm_a props_a (codes "Succeeded") refl refl settled
