-- ===== src/Cache/Fetch.antt =====
-- How azure_cache.go turns what the Azure clients list into its maps: `fetchScaleSets`,
-- `fetchVirtualMachines`, `fetchVMsPools` and `fetchAzureResources`.
use cluster_autoscaler_provi.Base.{
  Bool, true, false, Option, none, some, List, [], ◌∷◌, ◌++◌, if◌then◌else◌,
}
use cluster_autoscaler_provi.Base.Maps.{lookup, insert}
use cluster_autoscaler_provi.Base.Text.{Text, codes}
use cluster_autoscaler_provi.Cache.{AzureCache, set_scale_set}
use cluster_autoscaler_provi.Errors.{Outcome, ok, err, panic, client_missing}
use cluster_autoscaler_provi.Types.{
  Tags, Vmss, Vm, AksPool, AgentPoolType, virtual_machines, other_type,
}

-- What the clients answer in one refresh: VMSS.List, VirtualMachines.List, whether there is an
-- agent pool client, and the pages of its pager, the elements of which may be nil.
pub record Listing : Type 0 where
  pub vmss_list : Outcome (List Vmss)
  pub vm_list : Outcome (List Vm)
  pub has_agent_pool_client : Bool
  pub agent_pools : Outcome (List (Option AksPool))

-- The loop of `fetchScaleSets` over a map of its own: each object gets an address.
unfoldable pub store_scale_sets : List Vmss → AzureCache → AzureCache
unfolding set_scale_set
store_scale_sets [] c = c
store_scale_sets (v ∷ vs) c = store_scale_sets vs (set_scale_set v.name v c)

-- `tags[key]`: nil for a key that is missing, too.
abbrev pub tag : Text → Tags → Option Text
tag key tags = elim (lookup key tags) [ none ↦ none | some v ↦ v ]

-- The pool that a VM's tags name, by the new tag or the legacy one.
unfoldable pub vm_pool_name : Vm → Option Text
unfolding lookup
vm_pool_name vm = elim vm.tags [
  | none ↦ none
  | some tags ↦ elim (tag (codes "aks-managed-poolName") tags) [
    | some name ↦ some name
    | none ↦ tag (codes "poolName") tags
  ]
]

-- `instances[pool] = append(instances[pool], instance)`.
unfoldable pub append_vm : Text → Vm → List (Text × List Vm) → List (Text × List Vm)
unfolding lookup insert
append_vm pool vm m = elim (lookup pool m) [
  | none ↦ insert pool (vm ∷ []) m
  | some vms ↦ insert pool (vms ++ vm ∷ []) m
]

-- One round of the loop of `fetchVirtualMachines`.
unfoldable pub file_vm : Vm → List (Text × List Vm) → List (Text × List Vm)
file_vm vm m = elim (vm_pool_name vm) [ none ↦ m | some pool ↦ append_vm pool vm m ]

-- The loop of `fetchVirtualMachines`.
unfoldable pub group_virtual_machines : List Vm → List (Text × List Vm) → List (Text × List Vm)
group_virtual_machines [] m = m
group_virtual_machines (vm ∷ vms) m = group_virtual_machines vms (file_vm vm m)

abbrev pub is_virtual_machines : Option AgentPoolType → Bool
is_virtual_machines none = false
is_virtual_machines (some virtual_machines) = true
is_virtual_machines (some other_type) = false

-- The name of a VMs pool; none for a nil element, and for one with no name or of another type.
unfoldable pub vms_pool_name : Option AksPool → Option (Text × AksPool)
vms_pool_name none = none
vms_pool_name (some ap) = elim ap.name [
  | none ↦ none
  | some name ↦ elim ap.properties [
    | none ↦ none
    | some p ↦ if is_virtual_machines p.pool_type then some (name, ap) else none
  ]
]

-- The second loop of `fetchVMsPools`.
unfoldable pub collect_vms_pools :
    List (Option AksPool) → List (Text × AksPool) → List (Text × AksPool)
unfolding vms_pool_name insert
collect_vms_pools [] m = m
collect_vms_pools (ap ∷ aps) m =
    collect_vms_pools aps
      (elim (vms_pool_name ap) [ none ↦ m | some (name, pool) ↦ insert name pool m ])

unfoldable pub fetch_vms_pools : Listing → Outcome (List (Text × AksPool))
unfolding collect_vms_pools
fetch_vms_pools l =
    if l.has_agent_pool_client
    then elim l.agent_pools [
      | ok aps ↦ ok (collect_vms_pools aps [])
      | err e ↦ err e
      | panic ↦ panic
    ]
    else err client_missing

-- The last part of `fetchAzureResources`, the pools, where they are enabled.
unfoldable pub fetch_pools_into : Listing → AzureCache → Outcome (Unit {0}) × AzureCache
unfolding fetch_vms_pools
fetch_pools_into l c =
    if c.enable_vms_agent_pool
    then elim (fetch_vms_pools l) [
      | ok m ↦ (ok tt, record c { vms_pool_map = m })
      | err e ↦ (err e, c)
      | panic ↦ (panic, c)
    ]
    else (ok tt, c)

-- Each map is replaced as soon as it is fetched, so an error leaves the earlier ones new.
unfoldable pub fetch_azure_resources : Listing → AzureCache → Outcome (Unit {0}) × AzureCache
unfolding store_scale_sets group_virtual_machines fetch_pools_into
fetch_azure_resources l c = elim l.vmss_list [
  | err e ↦ (err e, c)
  | panic ↦ (panic, c)
  | ok sets ↦
      let c₁ = store_scale_sets sets (record c { scale_sets = [] }) in
      elim l.vm_list [
        | err e ↦ (err e, c₁)
        | panic ↦ (panic, c₁)
        | ok vms ↦
            fetch_pools_into l (record c₁ { virtual_machines = group_virtual_machines vms [] })
      ]
]
