-- ===== src/Status/Reported.antt =====
-- The statuses of VMs of azure_scale_set.go and azure_scale_set_instance_cache.go.
use cluster_autoscaler_provi.Base.Text.{Text, codes, text_eq, text_eq_iff, text_eq_self}
use cluster_autoscaler_provi.Base.{
  ◌≡◌, ◌⊎◌, inl, inr, Bool, false, not, ◌&&◌, if◌then◌else◌, Option, none, some, List, arith,
}
use cluster_autoscaler_provi.Status.{
  is_running_vm_power_state, instance_status_from_provisioning_state_and_power_state,
  instance_status_from_vm, ScaleSetVm, ScaleSetVmProperties, power_state_of_view, with_cse_errors,
  cached_status, instance_provider_id, provisioning_failed,
}
use cluster_autoscaler_provi.Types.{Instance, InstanceStatus, ErrorInfo}

-- A VM whose provisioning state is known and not `Updating` has, without detailed CSE messages,
-- the status that `instanceStatusFromProvisioningStateAndPowerState` gives: the two functions
-- agree, whatever the instance cache holds.
pub instance_status_from_vm-agrees :
    (fast : Bool) (cache : List Instance) (vm : ScaleSetVm) (props : ScaleSetVmProperties)
    (p : Text)
    → vm.properties ≡ some props
    → props.provisioning_state ≡ some p
    → text_eq p (codes "Updating") ≡ false
    → instance_status_from_vm fast false cache vm
      ≡ instance_status_from_provisioning_state_and_power_state
          (some p)
          (power_state_of_view props.instance_view)
          fast
unfolding instance_status_from_vm with_cse_errors
    instance_status_from_provisioning_state_and_power_state
instance_status_from_vm-agrees fast cache vm props p hv hp hu = ground arith

-- While the provisioning state is not known, or is `Updating`, the status that the cache holds
-- for the VM stays.
pub instance_status_from_vm_updating :
    (fast detailed : Bool) (cache : List Instance) (vm : ScaleSetVm)
    → (vm.properties ≡ none)
      ⊎ ((props : ScaleSetVmProperties) × (vm.properties ≡ some props)
          × ((props.provisioning_state ≡ none)
              ⊎ (props.provisioning_state ≡ some (codes "Updating"))))
    → instance_status_from_vm fast detailed cache vm
      ≡ cached_status (instance_provider_id vm.id) cache
unfolding instance_status_from_vm
instance_status_from_vm_updating fast detailed cache vm (inl e) = ground arith
instance_status_from_vm_updating fast detailed cache vm (inr (props, e, inl f)) = ground arith
instance_status_from_vm_updating fast detailed cache vm (inr (props, e, inr f)) =
    ground (arith, text_eq_self (codes "Updating"))

-- The error of a status.
abbrev pub error_of : Option InstanceStatus → Option ErrorInfo
error_of none = none
error_of (some s) = s.error_info

-- `instanceStatusFromProvisioningStateAndPowerState` gives the provisioning error exactly of a VM
-- that failed to provision and does not run, where fast deletion is on, and else no error.
pub provisioning_error_iff :
    (p power : Text) (fast : Bool)
    → error_of (instance_status_from_provisioning_state_and_power_state (some p) power fast) ≡ (
        if fast && text_eq p (codes "Failed") && not (is_running_vm_power_state power)
        then some provisioning_failed
        else none)
unfolding instance_status_from_provisioning_state_and_power_state
provisioning_error_iff p power fast = ground (
  arith,
  text_eq_iff p (codes "Failed"),
  text_eq_iff p (codes "Deleting"),
  text_eq_iff p (codes "Creating"),
)
