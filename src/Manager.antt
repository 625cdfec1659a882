-- ===== src/Manager.antt =====
-- pkg/cloudprovider/azure/azure_manager.go: the manager finds the node groups by the tags of the
-- scale sets, registers and unregisters them, and refreshes the cache.
pub mod Discovered
pub mod Pruned
pub mod Refreshing
pub mod Explicit
pub mod Configured
use cluster_autoscaler_provi.Autodiscovery.{
  LabelAutoDiscoveryConfig, AutoDiscoveryConfigSizes, match_discovery_config,
}
use cluster_autoscaler_provi.Base.Atoi.{atoi}
use cluster_autoscaler_provi.Base.Int.{ℤ, pos, negsuc, ltb_ℤ, leb_ℤ, ◌+ℤ◌, ◌-ℤ◌}
use cluster_autoscaler_provi.Base.Maps.{lookup, member}
use cluster_autoscaler_provi.Base.Text.{Text, codes, split}
use cluster_autoscaler_provi.Base.{
  ℕ, ◌-◌, ◌*◌, ◌<◌, Bool, true, false, not, ◌&&◌, ◌||◌, Option, none, some, List, [], ◌∷◌,
  if◌then◌else◌, is_empty, is_some, leb, ltb, ◌==◌,
}
use cluster_autoscaler_provi.Cache.Fetch.{Listing}
use cluster_autoscaler_provi.Cache.Regenerate.{regenerate}
use cluster_autoscaler_provi.Cache.{AzureCache, register, unregister, find_for_instance}
use cluster_autoscaler_provi.Errors.{
  ApiError, response, other_error, Error, Outcome, ok, err, panic, ◌>>=◌, autodiscovery_unsupported,
  autodiscovery_failed,
}
use cluster_autoscaler_provi.Types.{
  Vmss, Sku, Tags, Instance, NodeGroup, scale_set, VmType, vmss_type, standard_type, other_vm_type,
}

-- `AzureManager`; `explicitly_configured` holds the Ids that the map has as true.
pub record Manager : Type 0 where
  pub vm_type : VmType
  pub cache : AzureCache
  pub last_refresh : ℤ
  pub auto_discovery_specs : List LabelAutoDiscoveryConfig
  pub explicitly_configured : List Text

-- `isErrorRetriable`: status 429 or 5xx.
unfoldable pub is_error_retriable : Option ApiError → Bool
is_error_retriable none = false
is_error_retriable (some (response status code retry_after)) =
    status == 429 || leb 500 status && ltb status 600
is_error_retriable (some (other_error message)) = false

-- `parseSKUAndVMsAgentpoolNameFromSpecName`: the agent pool and the SKU of a VMs pool's name.
unfoldable pub parse_sku_and_vms_agentpool_name : List Text → AzureCache → Option (Text × Text)
parse_sku_and_vms_agentpool_name (agent_pool_name ∷ sku ∷ []) c =
    if is_some (lookup agent_pool_name c.vms_pool_map) then some (agent_pool_name, sku) else none
parse_sku_and_vms_agentpool_name parts c = none

-- A size: that of the tag, if there is one, or else that of the matched configurations, where a
-- negative one is none. The tag's value may be nil, which panics, and none is a scale set to ignore.
unfoldable pub tag_size : Option (Option Text) → Option ℤ → Outcome (Option ℤ)
unfolding atoi
tag_size none none = panic
tag_size none (some n) = if leb_ℤ (pos 0) n then ok (some n) else ok none
tag_size (some none) cfg = panic
tag_size (some (some value)) cfg = ok (atoi value)

abbrev pub min_of : Option AutoDiscoveryConfigSizes → Option ℤ
min_of none = none
min_of (some sizes) = some sizes.min

abbrev pub max_of : Option AutoDiscoveryConfigSizes → Option ℤ
max_of none = none
max_of (some sizes) = some sizes.max

-- `*scaleSet.SKU.Capacity`, or -1.
abbrev pub initial_size : Option Sku → ℤ
initial_size none = negsuc 0
initial_size (some s) = elim s.capacity [ none ↦ negsuc 0 | some n ↦ n ]

-- The sizes of a scale set with these tags, in the order of the tests; none where it is ignored.
unfoldable pub min_size_of : Tags → Option AutoDiscoveryConfigSizes → Outcome (Option ℤ)
unfolding tag_size lookup
min_size_of tags sizes = tag_size (lookup (codes "min") tags) (min_of sizes) >>= (λ found.
    elim found [ none ↦ ok none | some lo ↦ if ltb_ℤ lo (pos 0) then ok none else ok (some lo) ])

unfoldable pub max_size_of : ℤ → Tags → Option AutoDiscoveryConfigSizes → Outcome (Option ℤ)
unfolding tag_size lookup
max_size_of lo tags sizes = tag_size (lookup (codes "max") tags) (max_of sizes) >>= (λ found.
    elim found [ none ↦ ok none | some hi ↦ if ltb_ℤ hi lo then ok none else ok (some hi) ])

-- The node group of a scale set whose tags matched: `NewScaleSet`, which never fails.
unfoldable pub new_scale_set : Vmss → Option AutoDiscoveryConfigSizes → Outcome (Option NodeGroup)
unfolding min_size_of max_size_of
new_scale_set v sizes = min_size_of v.tags sizes >>= (λ found. elim found [
  | none ↦ ok none
  | some lo ↦ max_size_of lo v.tags sizes >>= (λ found'. elim found' [
    | none ↦ ok none
    | some hi ↦ ok (
        some (record {
          kind = scale_set;
          id = v.name;
          min_size = lo;
          max_size = hi;
          cur_size = initial_size v.sku;
          dedicated_host = is_some v.host_group;
        }))
  ])
])

-- One round of the loop of `getFilteredScaleSets`.
unfoldable pub filter_scale_set : List LabelAutoDiscoveryConfig → Vmss → Outcome (Option NodeGroup)
unfolding new_scale_set
filter_scale_set [] v = new_scale_set v none
filter_scale_set (c ∷ cs) v =
    if is_empty v.tags then ok none else elim (match_discovery_config v.tags (c ∷ cs)) [
      | none ↦ ok none
      | some sizes ↦ new_scale_set v (some sizes)
    ]

abbrev pub push : Option NodeGroup → List NodeGroup → List NodeGroup
push none gs = gs
push (some g) gs = g ∷ gs

unfoldable pub get_filtered_scale_sets :
    List LabelAutoDiscoveryConfig → (ℕ → Vmss) → List (Text × ℕ) → Outcome (List NodeGroup)
unfolding filter_scale_set
get_filtered_scale_sets filter heap [] = ok []
get_filtered_scale_sets filter heap ((name, p) ∷ m) =
    filter_scale_set filter (heap p)
    >>= (λ g. get_filtered_scale_sets filter heap m >>= (λ gs. ok (push g gs)))

abbrev pub is_vmss : VmType → Bool
is_vmss vmss_type = true
is_vmss standard_type = false
is_vmss (other_vm_type t) = false

unfoldable pub get_filtered_node_groups :
    List LabelAutoDiscoveryConfig → Manager → Outcome (List NodeGroup)
unfolding get_filtered_scale_sets
get_filtered_node_groups filter m =
    if is_empty filter
    then ok []
    else if is_vmss m.vm_type
    then get_filtered_scale_sets filter m.cache.heap m.cache.scale_sets
    else err autodiscovery_unsupported

-- The first loop of `fetchAutoNodeGroups`, over the discovered groups: the cache, and whether a
-- group changed.
unfoldable pub register_all : List Text → List NodeGroup → AzureCache → AzureCache × Bool
unfolding register
register_all explicit [] c = (c, false)
register_all explicit (g ∷ gs) c =
    let r = if member g.id explicit then (c, false) else register g c in
    let rest = register_all explicit gs r.0 in (rest.0, r.1 || rest.1)

abbrev pub ids : List NodeGroup → List Text
ids [] = []
ids (g ∷ gs) = g.id ∷ ids gs

-- Whether a registered group stays: it was discovered, or configured.
abbrev pub stays : List Text → List Text → NodeGroup → Bool
stays exists explicit g = member g.id exists || member g.id explicit

-- The second loop, over the groups as they were registered before it.
unfoldable pub unregister_others :
    List Text → List Text → List NodeGroup → AzureCache → AzureCache × Bool
unfolding unregister member
unregister_others exists explicit [] c = (c, false)
unregister_others exists explicit (g ∷ gs) c =
    let r : AzureCache × Bool =
      if stays exists explicit g then (c, false) else ((unregister g c).0, true) in
    let rest = unregister_others exists explicit gs r.0 in (rest.0, r.1 || rest.1)

-- `invalidateCache`.
unfoldable pub invalidate : ℤ → Manager → Manager
invalidate now m = record m { last_refresh = now -ℤ m.cache.refresh_interval }

-- Both loops of `fetchAutoNodeGroups`, and the end of it.
unfoldable pub apply_auto_node_groups : ℤ → List NodeGroup → Manager → Manager
unfolding register_all unregister_others invalidate
apply_auto_node_groups now groups m =
    let r = register_all m.explicitly_configured groups m.cache in
    let s = unregister_others (ids groups) m.explicitly_configured r.0.registered_node_groups r.0 in
    let m' = record m { cache = s.0 } in if r.1 || s.1 then invalidate now m' else m'

unfoldable pub fetch_auto_node_groups : ℤ → Manager → Outcome (Unit {0}) × Manager
unfolding get_filtered_node_groups apply_auto_node_groups
fetch_auto_node_groups now m = elim (get_filtered_node_groups m.auto_discovery_specs m) [
  | err e ↦ (err autodiscovery_failed, m)
  | panic ↦ (panic, m)
  | ok groups ↦ (ok tt, apply_auto_node_groups now groups m)
]

-- The end of `forceRefresh`, on the results of `regenerate`.
unfoldable pub finish_refresh :
    ℤ → Manager → Outcome (Unit {0}) × AzureCache → Outcome (Unit {0}) × Manager
finish_refresh now m (ok u, c) = (ok tt, record m { cache = c; last_refresh = now })
finish_refresh now m (err e, c) = (err e, record m { cache = c })
finish_refresh now m (panic, c) = (panic, record m { cache = c })

-- `forceRefresh`: an error of the discovery is only logged.
unfoldable pub force_refresh :
    ℤ → Listing → (NodeGroup → Outcome (List Instance)) → Manager → Outcome (Unit {0}) × Manager
unfolding finish_refresh fetch_auto_node_groups
force_refresh now l nodes m = elim (fetch_auto_node_groups now m).0 [
  | panic ↦ (panic, m)
  | ok u ↦
      (let m' = (fetch_auto_node_groups now m).1 in
        finish_refresh now m' (regenerate l nodes m'.cache))
  | err e ↦
      (let m' = (fetch_auto_node_groups now m).1 in
        finish_refresh now m' (regenerate l nodes m'.cache))
]

-- `Refresh`: nothing to do while the last refresh is fresh.
unfoldable pub refresh :
    ℤ → Listing → (NodeGroup → Outcome (List Instance)) → Manager → Outcome (Unit {0}) × Manager
refresh now l nodes m =
    if ltb_ℤ now (m.last_refresh +ℤ m.cache.refresh_interval)
    then (ok tt, m)
    else force_refresh now l nodes m

-- `GetNodeGroupForInstance`.
unfoldable pub get_node_group_for_instance : Text → Manager → Outcome (Option NodeGroup) × Manager
get_node_group_for_instance name m =
    let r = find_for_instance name m.vm_type m.cache in (r.0, record m { cache = r.1 })
