-- ===== src/Cache.antt =====
-- pkg/cloudprovider/azure/azure_cache.go: the cache of resources, node groups and instances. A
-- method returns the cache that it leaves; the mutex makes each method one step.
pub mod Fetch
pub mod Store
pub mod Regenerate
pub mod Refreshed
pub mod Registration
pub mod Lookup
pub mod Order
use cluster_autoscaler_provi.Base.{
  ℕ, suc, Bool, true, false, not, ◌&&◌, ◌||◌, Option, none, some, List, [], ◌∷◌, if◌then◌else◌,
  ◌==◌, is_empty,
}
use cluster_autoscaler_provi.Base.Int.{ℤ, eqb_ℤ}
use cluster_autoscaler_provi.Base.Maps.{lookup, insert, member}
use cluster_autoscaler_provi.Base.Text.{Text, eq_fold}
use cluster_autoscaler_provi.Errors.{Outcome, ok, err, panic, instance_not_implemented}
use cluster_autoscaler_provi.ResourceId.{convert_resource_group_name_to_lower, virtual_machine_re}
use cluster_autoscaler_provi.Types.{
  Vmss, Vm, AksPool, InstanceState, is_deleting, OrchestrationMode, uniform, flexible, NodeGroup,
  VmType, vmss_type, standard_type, other_vm_type,
}

-- The VMSS objects live in a store, since the cache and its callers share and mutate them:
-- `scale_sets` maps a name to an address.
pub record AzureCache : Type 0 where
  pub refresh_interval : ℤ
  pub enable_vms_agent_pool : Bool
  pub heap : ℕ → Vmss
  pub next : ℕ
  pub scale_sets : List (Text × ℕ)
  pub virtual_machines : List (Text × List Vm)
  pub vms_pool_map : List (Text × AksPool)
  pub registered_node_groups : List NodeGroup
  pub instance_to_node_group : List (Text × NodeGroup)
  pub instance_states : List (Text × InstanceState)
  pub unowned_instances : List Text
  pub autoscaling_options : List (Text × List (Text × Text))

-- A write to the store.
unfoldable pub update : (ℕ → Vmss) → ℕ → Vmss → ℕ → Vmss
update h p v q = if q == p then v else h q

-- `setScaleSet`: the pointer of a fresh object takes the name's entry.
unfoldable pub set_scale_set : Text → Vmss → AzureCache → AzureCache
unfolding update
set_scale_set name vmss c = record c {
  heap = update c.heap c.next vmss;
  next = suc c.next;
  scale_sets = insert name c.next c.scale_sets;
}

-- The loop of `Register`: the groups, and whether they changed.
unfoldable pub register_groups : NodeGroup → List NodeGroup → List NodeGroup × Bool
register_groups g [] = (g ∷ [], true)
register_groups g (e ∷ es) =
    let rest = register_groups g es in
    if eq_fold e.id g.id
    then (if eqb_ℤ e.min_size g.min_size && eqb_ℤ e.max_size g.max_size
        then (e ∷ es, false)
        else (g ∷ es, true))
    else (e ∷ rest.0, rest.1)

unfoldable pub invalidate_unowned_instance_cache : AzureCache → AzureCache
invalidate_unowned_instance_cache c = record c { unowned_instances = [] }

unfoldable pub register : NodeGroup → AzureCache → AzureCache × Bool
unfolding register_groups invalidate_unowned_instance_cache
register g c =
    let result = register_groups g c.registered_node_groups in
    if result.1
    then (invalidate_unowned_instance_cache (record c { registered_node_groups = result.0 }), true)
    else (c, false)

-- The loop of `Unregister`: the groups that stay, and whether one went.
unfoldable pub unregister_groups : NodeGroup → List NodeGroup → List NodeGroup × Bool
unregister_groups g [] = ([], false)
unregister_groups g (e ∷ es) =
    let rest = unregister_groups g es in
    if eq_fold e.id g.id then (rest.0, true) else (e ∷ rest.0, rest.1)

unfoldable pub unregister : NodeGroup → AzureCache → AzureCache × Bool
unfolding unregister_groups
unregister g c =
    let result = unregister_groups g c.registered_node_groups in
    (record c { registered_node_groups = result.0 }, result.1)

-- The loop that looks for the first entry whose key folds to the identifier.
module _ {ℓ} {V : Type ℓ} where
  unfoldable pub find_entry : Text → List (Text × V) → Option (Text × V)
  find_entry id [] = none
  find_entry id ((key, v) ∷ m) = if eq_fold key id then some (key, v) else find_entry id m

unfoldable pub get_instance_from_cache : Text → List (Text × NodeGroup) → Option NodeGroup
unfolding find_entry
get_instance_from_cache provider_id m = elim (find_entry provider_id m) [
  | none ↦ none
  | some entry ↦ some entry.1
]

-- What `HasInstance` answers of an entry: an instance in deletion is reported as gone.
abbrev pub present_unless_deleting : Option InstanceState → Bool
present_unless_deleting none = true
present_unless_deleting (some s) = not (is_deleting s)

unfoldable pub has_instance : Text → AzureCache → Outcome Bool
unfolding find_entry
has_instance provider_id c = elim (convert_resource_group_name_to_lower provider_id) [
  | err e ↦ err e
  | panic ↦ panic
  | ok resource_id ↦ elim (find_entry resource_id c.instance_to_node_group) [
    | none ↦ err instance_not_implemented
    | some entry ↦ ok (present_unless_deleting (lookup entry.0 c.instance_states))
  ]
]

unfoldable pub set_instance_state_by_provider_id : Text → InstanceState → AzureCache → AzureCache
unfolding find_entry
set_instance_state_by_provider_id provider_id state c =
    elim (convert_resource_group_name_to_lower provider_id) [
      | err e ↦ c
      | panic ↦ c
      | ok resource_id ↦ elim (find_entry resource_id c.instance_to_node_group) [
        | none ↦ c
        | some entry ↦ record c { instance_states = insert entry.0 state c.instance_states }
      ]
    ]

abbrev pub is_flexible : Option OrchestrationMode → Bool
is_flexible none = false
is_flexible (some uniform) = false
is_flexible (some flexible) = true

unfoldable pub are_all_scale_sets_uniform : (ℕ → Vmss) → List (Text × ℕ) → Bool
are_all_scale_sets_uniform h [] = true
are_all_scale_sets_uniform h ((name, p) ∷ m) =
    not (is_flexible (h p).orchestration_mode) && are_all_scale_sets_uniform h m

-- The two tests of `FindForInstance` that tell that the autoscaler does not manage an instance.
unfoldable pub is_omitted : VmType → Text → AzureCache → Bool
unfolding are_all_scale_sets_uniform
is_omitted vmss_type id c =
    is_empty c.vms_pool_map
    && are_all_scale_sets_uniform c.heap c.scale_sets
    && virtual_machine_re id
is_omitted standard_type id c = not (virtual_machine_re id)
is_omitted (other_vm_type t) id c = false

unfoldable pub find_for_instance :
    Text → VmType → AzureCache → Outcome (Option NodeGroup) × AzureCache
unfolding is_omitted get_instance_from_cache
find_for_instance name vm_type c = elim (convert_resource_group_name_to_lower name) [
  | err e ↦ (err e, c)
  | panic ↦ (panic, c)
  | ok id ↦
      if member id c.unowned_instances
      then (ok none, c)
      else if is_omitted vm_type id c
      then (ok none, record c { unowned_instances = id ∷ c.unowned_instances })
      else (ok (get_instance_from_cache id c.instance_to_node_group), c)
]
