-- ===== src/Status.antt =====
-- From what Azure says of a VM to the cloudprovider.InstanceStatus that the autoscaler sees:
-- pkg/cloudprovider/azure/azure_util.go (power states), azure_scale_set.go (Flexible scale sets,
-- agent pools, VMs pools) and azure_scale_set_instance_cache.go (Uniform scale sets).
pub mod Reported
use cluster_autoscaler_provi.Base.Text.{Text, codes, text_eq, eq_fold}
use cluster_autoscaler_provi.Base.{
  ℕ, Bool, true, false, not, ◌&&◌, ◌||◌, Option, none, some, List, [], ◌∷◌, ◌++◌, if◌then◌else◌,
  is_empty, any, deref,
}
use cluster_autoscaler_provi.Errors.{Outcome, ok, err, panic}
use cluster_autoscaler_provi.ResourceId.{azure_prefix, convert_resource_group_name_to_lower}
use cluster_autoscaler_provi.Types.{
  Vm, VmProperties, Instance, InstanceStatus, InstanceState, running, creating, deleting, ErrorInfo,
  ErrorClass, out_of_resources, other_class,
}

abbrev pub vm_power_state_running : Text
vm_power_state_running = codes "PowerState/running"

abbrev pub vm_power_state_unknown : Text
vm_power_state_unknown = codes "PowerState/unknown"

abbrev pub known_power_states : List Text
known_power_states =
    codes "PowerState/starting"
    ∷ vm_power_state_running
    ∷ codes "PowerState/stopping"
    ∷ codes "PowerState/stopped"
    ∷ codes "PowerState/deallocating"
    ∷ codes "PowerState/deallocated"
    ∷ vm_power_state_unknown
    ∷ []

unfoldable pub is_running_vm_power_state : Text → Bool
unfolding text_eq
is_running_vm_power_state s =
    text_eq s vm_power_state_running || text_eq s (codes "PowerState/starting")

unfoldable pub is_known_vm_power_state : Text → Bool
unfolding text_eq
is_known_vm_power_state s = any (text_eq s) known_power_states

-- A status with no code is passed over.
abbrev pub is_known_code : Option Text → Bool
is_known_code none = false
is_known_code (some s) = is_known_vm_power_state s

-- The first code that is a power state.
unfoldable pub vm_power_state_from_statuses : List (Option Text) → Text
unfolding is_known_vm_power_state
vm_power_state_from_statuses [] = vm_power_state_unknown
vm_power_state_from_statuses (code ∷ codes) =
    let rest = vm_power_state_from_statuses codes in
    if is_known_code code then deref code [] else rest

-- The error that leads to a fast delete.
abbrev pub provisioning_failed : ErrorInfo
provisioning_failed = record {
  error_class = out_of_resources;
  error_code = codes "provisioning-state-failed";
  error_message = codes "Azure failed to provision a node for this node group";
}

abbrev pub plain : InstanceState → InstanceStatus
plain s = record { state = s; error_info = none }

-- The `switch` on the provisioning state: of `instanceStatusFromProvisioningStateAndPowerState`.
unfoldable pub instance_status_from_provisioning_state_and_power_state :
    Option Text → Text → Bool → Option InstanceStatus
unfolding text_eq
instance_status_from_provisioning_state_and_power_state none power fast = none
instance_status_from_provisioning_state_and_power_state (some p) power fast = some (
    if text_eq p (codes "Deleting")
    then plain deleting
    else if text_eq p (codes "Creating")
    then plain creating
    else if text_eq p (codes "Failed")
    then (if fast
        then (if not (is_running_vm_power_state power)
            then record { state = creating; error_info = some provisioning_failed }
            else plain running)
        else plain running)
    else plain running)

-- armcompute.VirtualMachineExtensionInstanceView: its name, and of its statuses whether the level
-- is `Error`, and the message. No statuses stand for a nil slice, too.
pub record Extension : Type 0 where
  pub name : Option Text
  pub statuses : List (Bool × Option Text)

-- armcompute.VirtualMachineScaleSetVMInstanceView.
pub record InstanceView : Type 0 where
  pub codes_seen : List (Option Text)
  pub extensions : List Extension

pub record ScaleSetVmProperties : Type 0 where
  pub provisioning_state : Option Text
  pub instance_view : Option InstanceView

-- armcompute.VirtualMachineScaleSetVM.
pub record ScaleSetVm : Type 0 where
  pub id : Text
  pub name : Option Text
  pub properties : Option ScaleSetVmProperties

-- The messages of the error statuses of one extension.
unfoldable pub error_messages : List (Bool × Option Text) → List Text
error_messages [] = []
error_messages ((is_error, message) ∷ statuses) =
    let rest = error_messages statuses in if is_error then deref message [] ∷ rest else rest

-- The messages of `cseErrors`; it has failed where there is one.
unfoldable pub cse_errors : List Extension → List Text
unfolding error_messages eq_fold
cse_errors [] = []
cse_errors (e ∷ es) =
    let rest = cse_errors es in
    if eq_fold (deref e.name []) (codes "vmssCSE") then error_messages e.statuses ++ rest else rest

-- `%v` of a slice of strings, without the brackets.
unfoldable pub spaced : List Text → Text
spaced [] = []
spaced (s ∷ []) = s
spaced (s ∷ t ∷ ss) = s ++ (b' ' ∷ spaced (t ∷ ss))

abbrev pub cse_failed : Option Text → List Text → ErrorInfo
cse_failed name errors = record {
  error_class = other_class;
  error_code = codes "VMExtensionProvisioningFailed";
  error_message = deref name [] ++ (codes ": [" ++ (spaced errors ++ codes "]"));
}

-- The power state that `instanceStatusFromVM` goes by.
unfoldable pub power_state_of_view : Option InstanceView → Text
unfolding vm_power_state_from_statuses
power_state_of_view none = vm_power_state_running
power_state_of_view (some v) =
    if is_empty v.codes_seen
    then vm_power_state_unknown
    else vm_power_state_from_statuses v.codes_seen

-- The error of the `vmssCSE` extension takes the place of the status, where it is asked for.
unfoldable pub with_cse_errors :
    Bool → Option Text → Option InstanceView → InstanceStatus → InstanceStatus
unfolding cse_errors spaced
with_cse_errors detailed name none s = s
with_cse_errors detailed name (some v) s =
    if detailed && not (is_empty (cse_errors v.extensions))
    then record { state = creating; error_info = some (cse_failed name (cse_errors v.extensions)) }
    else s

-- The status that the instance cache has for an identifier.
unfoldable pub cached_status : Text → List Instance → Option InstanceStatus
unfolding text_eq
cached_status id [] = none
cached_status id (i ∷ is) = if text_eq i.id id then i.status else cached_status id is

-- The identifier under which a VM is cached: an error of the conversion leaves the prefix alone.
unfoldable pub instance_provider_id : Text → Text
unfolding convert_resource_group_name_to_lower
instance_provider_id id = elim (convert_resource_group_name_to_lower id) [
  | ok resource_id ↦ azure_prefix ++ resource_id
  | err e ↦ azure_prefix
  | panic ↦ azure_prefix
]

-- The `switch` of `instanceStatusFromVM`, which the source writes anew.
unfoldable pub switch_provisioning_state : Bool → Text → Text → InstanceStatus
unfolding text_eq is_running_vm_power_state
switch_provisioning_state fast p power =
    if text_eq p (codes "Deleting")
    then plain deleting
    else if text_eq p (codes "Creating")
    then plain creating
    else if text_eq p (codes "Failed") && fast && not (is_running_vm_power_state power)
    then record { state = creating; error_info = some provisioning_failed }
    else plain running

-- `status` once the provisioning state is known not to be `Updating`.
unfoldable pub settled_status :
    Bool → Bool → Option Text → Text → Option InstanceView → InstanceStatus
unfolding switch_provisioning_state power_state_of_view
settled_status fast detailed name p view =
    with_cse_errors detailed name view (switch_provisioning_state fast p (power_state_of_view view))

-- `instanceStatusFromVM`, with the two flags of the scale set and its instance cache: while the
-- provisioning state is unknown or `Updating` the cached status stays.
unfoldable pub instance_status_from_vm :
    Bool → Bool → List Instance → ScaleSetVm → Option InstanceStatus
unfolding cached_status instance_provider_id settled_status
instance_status_from_vm fast detailed cache vm = elim vm.properties [
  | none ↦ cached_status (instance_provider_id vm.id) cache
  | some props ↦ elim props.provisioning_state [
    | none ↦ cached_status (instance_provider_id vm.id) cache
    | some p ↦
        if text_eq p (codes "Updating")
        then cached_status (instance_provider_id vm.id) cache
        else some (settled_status fast detailed vm.name p props.instance_view)
  ]
]

-- The power state that `buildInstanceCacheForFlex` goes by.
unfoldable pub power_state_of_vm : Option VmProperties → Text
unfolding vm_power_state_from_statuses
power_state_of_vm none = vm_power_state_running
power_state_of_vm (some p) = elim p.statuses [
  | none ↦ vm_power_state_running
  | some codes ↦ vm_power_state_from_statuses codes
]

abbrev pub provisioning_state_of : Option VmProperties → Option Text
provisioning_state_of none = none
provisioning_state_of (some p) = p.provisioning_state

-- `addVMToCache`: an empty identifier, or one with no resource group, is passed over. A nil
-- identifier is a nil dereference.
unfoldable pub add_vm_to_cache : Option Text → Option Text → Text → Bool → Outcome (List Instance)
unfolding convert_resource_group_name_to_lower
    instance_status_from_provisioning_state_and_power_state
add_vm_to_cache none state power fast = panic
add_vm_to_cache (some []) state power fast = ok []
add_vm_to_cache (some (c ∷ s)) state power fast =
    elim (convert_resource_group_name_to_lower (c ∷ s)) [
      | err e ↦ ok []
      | panic ↦ panic
      | ok resource_id ↦ ok (
          record {
            id = azure_prefix ++ resource_id;
            status = instance_status_from_provisioning_state_and_power_state state power fast;
          }
          ∷ [])
    ]
