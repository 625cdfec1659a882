-- ===== src/Examples/Pools.antt =====
-- Runs of an agent pool and of a VMPool.
use mathlib.Core.List.Permᴰ
use cluster_autoscaler_provi.AgentPool
use cluster_autoscaler_provi.AgentPool.Bounds.{decrease_target_size_ok}
use cluster_autoscaler_provi.AgentPool.Cleanup.{Deleted, delete_outdated-IsOwn}
use cluster_autoscaler_provi.AgentPool.Growing.{
  highest_index, count_for_template, scale_parameters, decrease_target_size, publish, deploy, grow,
  after_cleanup,
}
use cluster_autoscaler_provi.AgentPool.Growing
use cluster_autoscaler_provi.AgentPool.Increased.{Grown, increase_size-Grown}
use cluster_autoscaler_provi.AgentPool.Deletion.Planned.{Carried, delete_virtual_machine-Carried}
use cluster_autoscaler_provi.AgentPool.Deletion.{
  MachineClient, nic_name, nic_of, check_disk, delete_virtual_machine,
}
use cluster_autoscaler_provi.AgentPool.{
  get_machine, delete_machine, delete_interface, delete_disk, machine_call, Deployment, Client,
  World, delete_outdated, insert_sorted, sort_ints, os_disk_of, lower_id, collect_indexes,
  get_vms_from_cache, get_vm_indexes, settled_deployments, own_deployments, drop, call_list,
  call_delete, get_all_succeeded_and_failed_deployments, delete_deployments,
  delete_outdated_deployments,
}
use cluster_autoscaler_provi.Base.Atoi.{digits_value, unsigned, atoi}
use cluster_autoscaler_provi.Base.Int.{ℤ, pos, ◌≤ℤ◌, add64}
use cluster_autoscaler_provi.Base.Maps.{lookup, insert}
use cluster_autoscaler_provi.Base.Text.{
  Text, codes, text_eq, eq_fold, has_prefix, split, strip_prefix, replace_first, greedy,
  greedy_capture, greedy_capture_some, literal, search_match,
}
use cluster_autoscaler_provi.Base.{◌≡◌, refl, true, false, none, some, List, [], ◌∷◌, length}
use cluster_autoscaler_provi.Errors.{answer, ok}
use cluster_autoscaler_provi.Examples.Data.{pool_a, cache_a, id_a}
use cluster_autoscaler_provi.ResourceId.{
  resource_name, resource_group_re, convert_resource_group_name_to_lower,
}
use cluster_autoscaler_provi.Types.{Vm, OsDisk, other_vm_type}
use cluster_autoscaler_provi.VmName.{get_vm_name_index}

program : Unit {0}
unfolding digits_value unsigned atoi lookup insert text_eq eq_fold has_prefix strip_prefix
    replace_first greedy greedy_capture greedy_capture_some literal search_match resource_group_re
    convert_resource_group_name_to_lower get_vm_name_index insert_sorted sort_ints os_disk_of
    lower_id collect_indexes get_vms_from_cache get_vm_indexes settled_deployments own_deployments
    drop call_list call_delete get_all_succeeded_and_failed_deployments delete_deployments
    delete_outdated delete_outdated_deployments count_for_template scale_parameters
    decrease_target_size publish deploy grow after_cleanup AgentPool.call_put
    AgentPool.invalidate_cache Growing.increase_size
program = tt

-- A VM whose operating system is not known has the index 0.
abbrev vm_a : Vm
vm_a = record {
  name = codes "vm";
  id = some id_a;
  tags = none;
  properties = some (record {
    provisioning_state = none;
    vm_size = some (codes "s");
    os_disk = some (record { os_type = none; vhd = none; managed_disk = true; disk_name = none });
    statuses = none;
    first_nic = none;
  });
}

abbrev azure : Client (Unit {0})
azure = record {
  now = λ c. pos 1000;
  random_name = λ c. codes "1";
  list = λ c. (answer [], c);
  delete = λ name c. (answer tt, c);
  create_or_update = λ name parameters c. (answer tt, c);
  sort_slice = λ less ds. ds;
}

abbrev world_a : World (Unit {0})
world_a = record {
  cloud = tt;
  sent = [];
  cache = record cache_a { virtual_machines = (pool_a, vm_a ∷ []) ∷ [] };
  manager_last_refresh = pos 0;
  max_deployments_count = pos 1;
  strict_cache_updates = false;
  vm_type = other_vm_type [];
  pool = record {
    name = pool_a;
    min_size = pos 1;
    max_size = pos 5;
    parameters = [];
    last_refresh = pos 0;
    cur_size = pos 3;
  };
}

grown : (Growing.increase_size azure (pos 2) world_a).0 ≡ ok tt
unfolding program
grown = refl

increase_size-Grown_example : Grown (pos 2) world_a (Growing.increase_size azure (pos 2) world_a).1
increase_size-Grown_example = increase_size-Grown azure (pos 2) world_a grown

decreased : (decrease_target_size azure (pos 0) world_a).0 ≡ ok tt
unfolding program
decreased = refl

decrease_target_size_ok_example :
    let n = (decrease_target_size azure (pos 0) world_a).1.pool.cur_size in
    (n ≡ add64 (pos 3) (pos 0))
    × ((vms : List Vm) × (get_vms_from_cache world_a ≡ ok vms) × (pos (length vms) ≤ℤ n))
decrease_target_size_ok_example = decrease_target_size_ok azure (pos 0) world_a decreased

highest : highest_index (sort_ints (pos 3 ∷ pos 7 ∷ pos 1 ∷ [])) ≡ some (pos 7)
unfolding program
highest = refl

abbrev own : Text → ℤ → Deployment
own name time = record { name = some name; state = some (codes "Failed"); timestamp = some time }

abbrev deployments : List Deployment
deployments =
    own (codes "cluster-autoscaler-2") (pos 2)
    ∷ own (codes "other") (pos 9)
    ∷ own (codes "cluster-autoscaler-1") (pos 1)
    ∷ []

delete_outdated-IsOwn_example :
    Deleted world_a.sent (delete_outdated azure deployments world_a).1.sent
delete_outdated-IsOwn_example = delete_outdated-IsOwn azure Permᴰ.refl deployments world_a

-- An Azure that has the VM, whose managed disk has a name and whose interface has an identifier.
abbrev disk_b : OsDisk
disk_b = record { os_type = none; vhd = none; managed_disk = true; disk_name = some (codes "d") }

abbrev vm_b : Vm
vm_b = record vm_a {
  properties = some (record {
    provisioning_state = none;
    vm_size = none;
    os_disk = some disk_b;
    statuses = none;
    first_nic = some (some (codes "/nics/n"));
  });
}

abbrev machines : MachineClient (Unit {0})
machines = record {
  get = λ name c. (answer vm_b, c);
  delete = λ call c. (answer tt, c);
  is_not_found = λ e. false;
  parse_url = λ s. none;
}

nic_found : nic_name (nic_of vm_b) ≡ ok (codes "n")
unfolding program nic_name split resource_name
nic_found = refl

disk_found : check_disk (os_disk_of vm_b) ≡ ok disk_b
unfolding program check_disk
disk_found = refl

delete_virtual_machine-Carried_example :
    Carried
      (delete_machine (codes "vm") ∷ delete_interface (codes "n") ∷ delete_disk (codes "d") ∷ [])
      (machine_call (get_machine (codes "vm")) ∷ [])
      (delete_virtual_machine azure machines (codes "vm") world_a)
delete_virtual_machine-Carried_example =
    delete_virtual_machine-Carried azure machines (codes "vm") (codes "n") vm_b disk_b
      (delete_disk (codes "d") ∷ []) tt world_a refl disk_found nic_found refl
