-- ===== src/Examples/Caches.antt =====
-- Runs of the cache.
use mathlib.Core.List.{Permᴰ, Memᴰ}
use cluster_autoscaler_provi.Base.Int.{pos}
use cluster_autoscaler_provi.Base.Maps.{lookup, insert, member}
use cluster_autoscaler_provi.Base.Text.{
  Text, codes, text_eq, lower, eq_fold, strip_prefix, replace_first, greedy, greedy_capture,
  greedy_capture_some, literal, search_match,
}
use cluster_autoscaler_provi.Base.{
  ◌≡◌, refl, true, false, not, if◌then◌else◌, none, some, List, [], ◌∷◌, ◌++◌, arith,
}
use cluster_autoscaler_provi.Cache.Fetch.{
  Listing, store_scale_sets, group_virtual_machines, fetch_pools_into, fetch_azure_resources,
}
use cluster_autoscaler_provi.Cache.Lookup.{has_instance-set_instance_state, find_for_instance_sound}
use cluster_autoscaler_provi.Cache.Order.{get_instance_from_cache-perm}
use cluster_autoscaler_provi.Cache.Refreshed.{SameMaps, owner, regenerate_failed, regenerate-owner}
use cluster_autoscaler_provi.Cache.Regenerate.{
  before, option_name, extract_autoscaling_options_from_scale_set_tags, add_state, add_instances,
  collect_instances, collect_options, replace_maps, regenerate,
}
use cluster_autoscaler_provi.Cache.Registration.{
  find_group, registered_as, is_unchanged, find_group-register,
}
use cluster_autoscaler_provi.Cache.Store.{
  read, latest, pool_vms, tagged_vms, read-store_scale_sets, pool_vms-group_virtual_machines,
}
use cluster_autoscaler_provi.Cache.{
  update, set_scale_set, register, find_entry, get_instance_from_cache, has_instance,
  set_instance_state_by_provider_id, is_omitted, find_for_instance,
}
use cluster_autoscaler_provi.Errors.{Outcome, ok, err, client_missing, is_ok}
use cluster_autoscaler_provi.Examples.Data.{pool_a, vmss_a, group_a, id_a, cache_a}
use cluster_autoscaler_provi.ResourceId.{resource_group_re, convert_resource_group_name_to_lower}
use cluster_autoscaler_provi.Types.{Vmss, Vm, Instance, NodeGroup, other_vm_type, deleting}

program : Unit {0}
unfolding lookup insert member text_eq lower eq_fold strip_prefix replace_first greedy
    greedy_capture greedy_capture_some literal search_match resource_group_re
    convert_resource_group_name_to_lower find_entry get_instance_from_cache find_for_instance
program = tt

converted : convert_resource_group_name_to_lower id_a ≡ ok id_a
unfolding program
converted = refl

known : find_entry id_a cache_a.instance_to_node_group ≡ some (id_a, group_a)
unfolding program
known = refl

has_instance-set_instance_state_example :
    has_instance id_a (set_instance_state_by_provider_id id_a deleting cache_a)
    ≡ (if text_eq id_a id_a then ok (not true) else has_instance id_a cache_a)
has_instance-set_instance_state_example =
    has_instance-set_instance_state id_a id_a id_a id_a deleting cache_a (id_a, group_a)
      (id_a, group_a) converted known converted known

found : (find_for_instance id_a (other_vm_type []) cache_a).0 ≡ ok (some group_a)
unfolding program
found = refl

find_for_instance_sound_example :
    (id : Text) × (convert_resource_group_name_to_lower id_a ≡ ok id)
    × (member id cache_a.unowned_instances ≡ false)
    × (is_omitted (other_vm_type []) id cache_a ≡ false)
    × ((key : Text) × Memᴰ (key, group_a) cache_a.instance_to_node_group
        × (eq_fold key id_a ≡ true))
find_for_instance_sound_example =
    find_for_instance_sound id_a (other_vm_type []) cache_a group_a found

abbrev other_entry : Text × NodeGroup
other_entry = (codes "x", group_a)

distinct : eq_fold (codes "x") id_a ≡ false
unfolding program
distinct = refl

get_instance_from_cache-perm_example :
    get_instance_from_cache id_a ((id_a, group_a) ∷ other_entry ∷ [])
    ≡ get_instance_from_cache id_a (other_entry ∷ (id_a, group_a) ∷ [])
get_instance_from_cache-perm_example =
    get_instance_from_cache-perm id_a
      (Permᴰ.swap {a = (id_a, group_a)} {b = other_entry} {l = []} refl refl)
      ((distinct, tt), (tt, tt))

find_group-register_example :
    let old = find_group pool_a cache_a.registered_node_groups in
    let g = record group_a { max_size = pos 9 } in
    (find_group pool_a (register g cache_a).0.registered_node_groups
      ≡ (if eq_fold pool_a pool_a then some (registered_as g old) else old))
    × ((register g cache_a).1 ≡ (if is_unchanged g old then false else true))
    × ((register g cache_a).0 ≡ (
        if is_unchanged g old then cache_a else record cache_a {
          registered_node_groups = (register g cache_a).0.registered_node_groups;
          unowned_instances = [];
        }))
find_group-register_example =
    find_group-register pool_a (record group_a { max_size = pos 9 }) cache_a

abbrev bigger : Vmss
bigger = record vmss_a { sku = none }

read-store_scale_sets_example :
    let c = store_scale_sets (vmss_a ∷ bigger ∷ []) cache_a in
    read pool_a c.heap c.scale_sets
    ≡ latest pool_a (vmss_a ∷ bigger ∷ []) (read pool_a cache_a.heap cache_a.scale_sets)
read-store_scale_sets_example =
    read-store_scale_sets pool_a (vmss_a ∷ bigger ∷ []) cache_a (omega arith, tt)

abbrev vm_a : Vm
vm_a = record {
  name = codes "vm";
  id = some id_a;
  tags = some ((codes "poolName", some pool_a) ∷ []);
  properties = none;
}

pool_vms-group_virtual_machines_example :
    pool_vms pool_a (group_virtual_machines (vm_a ∷ []) [])
    ≡ pool_vms pool_a [] ++ tagged_vms pool_a (vm_a ∷ [])
pool_vms-group_virtual_machines_example = pool_vms-group_virtual_machines pool_a (vm_a ∷ []) []

abbrev listing : Listing
listing = record {
  vmss_list = ok (vmss_a ∷ []);
  vm_list = ok [];
  has_agent_pool_client = false;
  agent_pools = ok [];
}

abbrev one_node : NodeGroup → Outcome (List Instance)
one_node g = ok (record { id = id_a; status = none } ∷ [])

abbrev no_nodes : NodeGroup → Outcome (List Instance)
no_nodes g = err client_missing

refresh_program : Unit {0}
unfolding program set_scale_set update store_scale_sets group_virtual_machines fetch_pools_into
    fetch_azure_resources add_state add_instances collect_instances collect_options
    extract_autoscaling_options_from_scale_set_tags option_name before replace_maps regenerate
refresh_program = tt

failed : is_ok (regenerate listing no_nodes cache_a).0 ≡ false
unfolding refresh_program
failed = refl

regenerate_failed_example : SameMaps cache_a (regenerate listing no_nodes cache_a).1
regenerate_failed_example = regenerate_failed listing no_nodes cache_a failed

succeeded : (regenerate listing one_node cache_a).0 ≡ ok tt
unfolding refresh_program
succeeded = refl

regenerate-owner_example :
    let c = (regenerate listing one_node cache_a).1 in
    (lookup id_a c.instance_to_node_group ≡ owner id_a one_node cache_a.registered_node_groups none)
    × (c.unowned_instances ≡ [])
    × (c.registered_node_groups ≡ cache_a.registered_node_groups)
regenerate-owner_example = regenerate-owner id_a listing one_node cache_a succeeded
