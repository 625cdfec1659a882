-- ===== src/Examples/Growing.antt =====
-- A run of a VMPool that grows.
use cluster_autoscaler_provi.Base.Int.{pos}
use cluster_autoscaler_provi.Base.Maps.{lookup}
use cluster_autoscaler_provi.Base.Text.{codes, text_eq, eq_fold, lower}
use cluster_autoscaler_provi.Base.{◌≡◌, refl, arith, false, none, some, [], ◌∷◌}
use cluster_autoscaler_provi.Errors.{answer, ok}
use cluster_autoscaler_provi.Examples.Data.{pool_a, cache_a}
use cluster_autoscaler_provi.Types.{AksPool, AgentPoolProperties, other_vm_type}
use cluster_autoscaler_provi.VmPool.Asked.{puts, put_for, increase_size-puts}
use cluster_autoscaler_provi.VmPool.Requests.{increase_size}
use cluster_autoscaler_provi.VmPool.{
  Client, World, is_spot_agent_pool, get_vms_from_cache, get_agentpool_from_cache, filter_vms,
}

-- The pool's properties: one manual profile, of another size.
abbrev props_m : AgentPoolProperties
props_m = record {
  pool_type = none;
  mode = none;
  scale_set_priority = none;
  manual =
      some (record { size = some (codes "t"); count = some (pos 1) })
      ∷ some (record { size = some (codes "s"); count = some (pos 0) })
      ∷ [];
  autoscale = false;
  nodes_status = [];
  node_labels = none;
  node_taints = [];
  availability_zones = [];
  os_type = none;
  os_disk_type = none;
}

abbrev pool_m : AksPool
pool_m = record { name = some pool_a; properties = some props_m }

abbrev azure : Client (Unit {0})
azure = record {
  now = λ c. pos 1000;
  get = λ name c. (answer pool_m, c);
  begin_create_or_update = λ name body headers c. (answer 7, c);
  begin_delete_machines = λ name ids c. (answer 8, c);
  poll_until_done = λ poller c. (answer tt, c);
}

abbrev world_m : World (Unit {0})
world_m = record {
  cloud = tt;
  sent = [];
  cache = record cache_a { vms_pool_map = (pool_a, pool_m) ∷ []; virtual_machines = [] };
  manager_last_refresh = pos 0;
  vm_type = other_vm_type [];
  strict_cache_updates = false;
  pool = record {
    name = codes "a/s";
    agent_pool_name = pool_a;
    sku = codes "s";
    min_size = pos 0;
    max_size = pos 5;
  };
}

program : Unit {0}
unfolding lookup text_eq eq_fold lower is_spot_agent_pool get_vms_from_cache
    get_agentpool_from_cache filter_vms
program = tt

cached_m : get_agentpool_from_cache world_m ≡ ok pool_m
unfolding program
cached_m = refl

increase_size-puts_example :
    puts (increase_size azure (pos 2) world_m).1.sent ≡ put_for props_m (pos 2) (codes "s") ∷ []
unfolding program
increase_size-puts_example =
    increase_size-puts azure 1 5 pool_m props_m world_m cached_m refl refl refl (omega arith)
      (omega arith) (omega arith)
