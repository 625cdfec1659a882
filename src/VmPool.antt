-- ===== src/VmPool.antt =====
-- pkg/cloudprovider/azure/azure_vms_pool.go: a VMPool, the VMs of one SKU in an AKS agent pool of
-- type VirtualMachines, which grows by a PUT of the agent pool.
pub mod Requests
pub mod Bounds
pub mod Asked
use cluster_autoscaler_provi.Base.Int.{ℤ, pos, negsuc, ◌-ℤ◌, ltb_ℤ, leb_ℤ, add64, int32}
use cluster_autoscaler_provi.Base.Maps.{lookup}
use cluster_autoscaler_provi.Base.Text.{Text, codes, eq_fold, text_eq, contains}
use cluster_autoscaler_provi.Base.{
  ℕ, Bool, true, false, not, ◌&&◌, ◌||◌, Option, none, some, List, [], ◌∷◌, ◌++◌, if◌then◌else◌,
  length, is_empty, deref,
}
use cluster_autoscaler_provi.Cache.{AzureCache}
use cluster_autoscaler_provi.Errors.{
  ApiError, Error, api, Reply, answer, failure, on_reply, Outcome, ok, err, panic, ◌>>=◌, then_run,
  pool_not_found, spot_size_missing,
}
use cluster_autoscaler_provi.ResourceId.{convert_resource_group_name_to_lower}
use cluster_autoscaler_provi.Status.{
  instance_status_from_provisioning_state_and_power_state, vm_power_state_running,
}
use cluster_autoscaler_provi.Types.{
  Vm, VmProperties, Instance, AksPool, AgentPoolProperties, AgentPoolType, SizeCount, VmType,
}

pub record VmPool : Type 0 where
  pub name : Text
  pub agent_pool_name : Text
  pub sku : Text
  pub min_size : ℤ
  pub max_size : ℤ

-- `skipOption`.
pub record SkipOption : Type 0 where
  pub skip_deleting : Bool
  pub skip_failed : Bool

-- The body of a PUT: none of its properties, or the pool's type, whether the mode is System, and the
-- manual scale profiles, if they are set.
pub record Body : Type 0 where
  pub pool_type : Option AgentPoolType
  pub system_mode : Bool
  pub manual : Option (List (Option SizeCount))

-- The headers Target-Count and SKU.
pub record Headers : Type 0 where
  pub target_count : ℤ
  pub header_sku : Text

-- A call that the code sends to Azure.
pub data Call : Type 0 where
  get_pool : Call
  put_pool : Option Body → Option Headers → Call
  poll_pool : ℕ → Call
  delete_machines : List Text → Call

-- The AKS agent pool client and the clock, which are not part of the repository, over a state of their own.
pub record Client (C : Type 0) : Type 0 where
  pub now : C → ℤ
  pub get : Text → C → Reply AksPool × C
  pub begin_create_or_update : Text → Option Body → Option Headers → C → Reply ℕ × C
  pub begin_delete_machines : Text → List Text → C → Reply ℕ × C
  pub poll_until_done : ℕ → C → Reply (Unit {0}) × C

pub record World (C : Type 0) : Type 0 where
  pub cloud : C
  pub sent : List Call
  pub cache : AzureCache
  pub manager_last_refresh : ℤ
  pub vm_type : VmType
  pub strict_cache_updates : Bool
  pub pool : VmPool

-- `isSpotAgentPool`.
unfoldable pub is_spot_agent_pool : AksPool → Bool
is_spot_agent_pool ap = elim ap.properties [
  | none ↦ false
  | some props ↦ elim props.scale_set_priority [
    | none ↦ false
    | some priority ↦ eq_fold priority (codes "Spot")
  ]
]

-- Whether a VM of the SKU is left out by the options.
abbrev pub is_skipped : SkipOption → Option Text → Bool
is_skipped op state =
    op.skip_deleting && contains (deref state []) (codes "Deleting")
    || op.skip_failed && contains (deref state []) (codes "Failed")

abbrev pub has_sku : Text → VmProperties → Bool
has_sku sku props = elim props.vm_size [ none ↦ false | some size ↦ eq_fold size sku ]

-- The loop of `getVMsFromCache`.
unfoldable pub filter_vms : SkipOption → Text → List Vm → List Vm
filter_vms op sku [] = []
filter_vms op sku (vm ∷ vms) =
    let rest = filter_vms op sku vms in
    elim vm.properties [
      | none ↦ rest
      | some props ↦
          if has_sku sku props && not (is_skipped op props.provisioning_state)
          then vm ∷ rest
          else rest
    ]

abbrev pub vms_of : Option (List Vm) → List Vm
vms_of none = []
vms_of (some vms) = vms

-- The loop of `getSpotPoolSize`: the first status of the SKU.
unfoldable pub size_in_status : Text → List (Option SizeCount) → Option ℤ
size_in_status sku [] = none
size_in_status sku (none ∷ ss) = size_in_status sku ss
size_in_status sku (some s ∷ ss) =
    let rest = size_in_status sku ss in
    if eq_fold (deref s.size []) sku then some (deref s.count (pos 0)) else rest

-- The loop of `buildRequestBodyForScaleUp`: the profiles with the count of the first of the SKU, or
-- none where no profile has it.
unfoldable pub set_count : Text → ℤ → List (Option SizeCount) → Option (List (Option SizeCount))
set_count sku count [] = none
set_count sku count (none ∷ ps) = elim (set_count sku count ps) [
  | none ↦ none
  | some rest ↦ some (none ∷ rest)
]
set_count sku count (some p ∷ ps) =
    let rest = set_count sku count ps in
    if (elim p.size [ none ↦ false | some size ↦ eq_fold size sku ])
    then some (some (record p { count = some count }) ∷ ps)
    else elim rest [ none ↦ none | some qs ↦ some (some p ∷ qs) ]

abbrev pub is_system : Option Text → Bool
is_system none = false
is_system (some mode) = text_eq mode (codes "System")

abbrev pub is_hosted_system : Option Text → Bool
is_hosted_system none = false
is_hosted_system (some mode) = eq_fold mode (codes "HostedSystem")

unfoldable pub build_request_body_for_scale_up : AgentPoolProperties → ℤ → Text → Body
unfolding set_count
build_request_body_for_scale_up props count sku = record {
  pool_type = props.pool_type;
  system_mode = is_system props.mode;
  manual = set_count sku count props.manual;
}

abbrev pub state_of : Option VmProperties → Option Text
state_of none = none
state_of (some props) = props.provisioning_state

-- The loop of `Nodes`.
unfoldable pub list_nodes : List Vm → Outcome (List Instance)
list_nodes [] = ok []
list_nodes (vm ∷ vms) =
    if is_empty (deref vm.id [])
    then list_nodes vms
    else (convert_resource_group_name_to_lower (codes "azure://" ++ deref vm.id [])
        >>= (λ resource_id. list_nodes vms >>= (λ rest. ok (
            record {
              id = resource_id;
              status =
                  instance_status_from_provisioning_state_and_power_state (state_of vm.properties)
                    vm_power_state_running false;
            }
            ∷ rest))))

module _ {C : Type 0} where
  unfoldable pub get_vms_from_cache : SkipOption → World C → List Vm
  get_vms_from_cache op w =
      filter_vms op w.pool.sku (vms_of (lookup w.pool.agent_pool_name w.cache.virtual_machines))

  unfoldable pub get_agentpool_from_cache : World C → Outcome AksPool
  get_agentpool_from_cache w = elim (lookup w.pool.agent_pool_name w.cache.vms_pool_map) [
    | none ↦ err (pool_not_found w.pool.agent_pool_name)
    | some ap ↦ ok ap
  ]

  unfoldable pub nodes : World C → Outcome (List Instance)
  nodes w =
      list_nodes (get_vms_from_cache (record { skip_deleting = false; skip_failed = false }) w)
