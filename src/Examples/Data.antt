-- ===== src/Examples/Data.antt =====
-- The inputs of the runs: one scale set, its node group, a cache that holds them, and an Azure that
-- accepts what it is asked.
use cluster_autoscaler_provi.Base.Int.{pos}
use cluster_autoscaler_provi.Base.Text.{Text, codes}
use cluster_autoscaler_provi.Base.{false, none, some, [], ◌∷◌}
use cluster_autoscaler_provi.Cache.{AzureCache}
use cluster_autoscaler_provi.Types.{Vmss, uniform, NodeGroup, scale_set, running}

abbrev pub pool_a : Text
pool_a = codes "a"

abbrev pub vmss_a : Vmss
vmss_a = record {
  name = pool_a;
  id = some (codes "id");
  location = some (codes "east");
  extended_location = none;
  tags = (codes "k", some (codes "v")) ∷ [];
  sku = some (record { sku_name = none; tier = none; capacity = some (pos 2) });
  orchestration_mode = some uniform;
  priority = none;
  host_group = none;
  etag = some (codes "e");
  zones = [];
  windows_configuration = false;
  template_disk = none;
}

abbrev pub group_a : NodeGroup
group_a = record {
  kind = scale_set;
  id = pool_a;
  min_size = pos 1;
  max_size = pos 5;
  cur_size = pos 2;
  dedicated_host = false;
}

-- A short resource identifier, in the form that the cache keeps.
abbrev pub id_a : Text
id_a = codes "/subscriptions//resourceGroups/g/providers/"

abbrev pub cache_a : AzureCache
cache_a = record {
  refresh_interval = pos 60;
  enable_vms_agent_pool = false;
  heap = λ p. vmss_a;
  next = 1;
  scale_sets = (pool_a, 0) ∷ [];
  virtual_machines = [];
  vms_pool_map = [];
  registered_node_groups = group_a ∷ [];
  instance_to_node_group = (id_a, group_a) ∷ [];
  instance_states = (id_a, running) ∷ [];
  unowned_instances = [];
  autoscaling_options = [];
}
