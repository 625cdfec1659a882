-- ===== src/ScaleSet/Instances.antt =====
-- The instance cache of a scale set: azure_scale_set_instance_cache.go, and of azure_scale_set.go
-- `GetScaleSetVms`, `GetFlexibleScaleSetVms`, `buildScaleSetCacheForFlex`,
-- `buildScaleSetCacheForUniform` and `Nodes`.
pub mod Throttled
pub mod Found
use cluster_autoscaler_provi.Base.Int.{ℤ, pos, ◌+ℤ◌, ◌-ℤ◌, ltb_ℤ, leb_ℤ, eqb_ℤ}
use cluster_autoscaler_provi.Base.Text.{Text, text_eq}
use cluster_autoscaler_provi.Base.{
  Bool, true, false, ◌&&◌, Option, none, some, List, [], ◌∷◌, ◌++◌, if◌then◌else◌, is_empty, length,
}
use cluster_autoscaler_provi.Cache.{is_flexible}
use cluster_autoscaler_provi.Errors.{
  Error, api, vmss_failed, vmss_no_id, flex_disabled, orchestration_unknown, Reply, on_reply,
  Outcome, ok, err, panic, ◌>>=◌, then_run,
}
use cluster_autoscaler_provi.ResourceId.{azure_prefix, convert_resource_group_name_to_lower}
use cluster_autoscaler_provi.ScaleSet.Size.{get_cur_size, is_fresh}
use cluster_autoscaler_provi.ScaleSet.{
  Client, World, list_flex_vms, list_vms, get_vmss_from_cache, time_now,
}
use cluster_autoscaler_provi.Status.{
  ScaleSetVm, power_state_of_vm, provisioning_state_of, add_vm_to_cache, instance_status_from_vm,
}
use cluster_autoscaler_provi.Throttling.{times, is_azure_requests_throttled}
use cluster_autoscaler_provi.Types.{
  Vm, Instance, InstanceStatus, InstanceState, running, creating, deleting, OrchestrationMode,
  uniform, flexible,
}

-- `buildInstanceCacheForFlex`.
unfoldable pub build_instance_cache_for_flex : Bool → List Vm → Outcome (List Instance)
unfolding add_vm_to_cache power_state_of_vm
build_instance_cache_for_flex fast [] = ok []
build_instance_cache_for_flex fast (vm ∷ vms) =
    add_vm_to_cache vm.id (provisioning_state_of vm.properties) (power_state_of_vm vm.properties)
      fast
    >>= (λ is. build_instance_cache_for_flex fast vms >>= (λ rest. ok (is ++ rest)))

-- The loop of `buildScaleSetCacheForUniform`, over the instance cache as it was.
unfoldable pub build_instances :
    Bool → Bool → List Instance → List ScaleSetVm → Outcome (List Instance)
unfolding instance_status_from_vm convert_resource_group_name_to_lower
build_instances fast detailed cache [] = ok []
build_instances fast detailed cache (vm ∷ vms) =
    build_instances fast detailed cache vms >>= (λ rest.
      if is_empty vm.id then ok rest else elim (convert_resource_group_name_to_lower vm.id) [
        | err e ↦ ok rest
        | panic ↦ panic
        | ok resource_id ↦ ok (
            record {
              id = azure_prefix ++ resource_id;
              status = instance_status_from_vm fast detailed cache vm;
            }
            ∷ rest)
      ])

-- The loop of `getInstanceByProviderID`.
unfoldable pub find_instance : Text → List Instance → Option Instance
find_instance id [] = none
find_instance id (i ∷ is) = if text_eq i.id id then some i else find_instance id is

abbrev pub same_state : InstanceState → InstanceState → Bool
same_state running running = true
same_state creating creating = true
same_state deleting deleting = true
same_state s t = false

abbrev pub has_state : InstanceState → Option InstanceStatus → Bool
has_state state none = false
has_state state (some s) = same_state s.state state

-- The loop of `getInstancesByState`.
unfoldable pub instances_in : InstanceState → List Instance → List Instance
instances_in state [] = []
instances_in state (i ∷ is) =
    let rest = instances_in state is in if has_state state i.status then i ∷ rest else rest

-- The loop of `setInstanceStatusByProviderID`, which stops at the first instance.
unfoldable pub set_status : Text → InstanceStatus → List Instance → List Instance
set_status id s [] = []
set_status id s (i ∷ is) =
    let rest = set_status id s is in
    if text_eq i.id id then record i { status = some s } ∷ is else i ∷ rest

-- The time of a refresh that was throttled, so that the next one comes no sooner than asked for.
unfoldable pub throttled_refresh : ℤ → ℤ → ℤ → ℤ → ℤ
throttled_refresh period now retry_after last =
    if ltb_ℤ (pos 0) retry_after && ltb_ℤ (last +ℤ period) (now +ℤ retry_after)
    then last +ℤ (now +ℤ retry_after -ℤ (last +ℤ period))
    else last

module _ {C : Type 0} (client : Client C) where
  unfoldable pub call_list_flex : Text → World C → Reply (List Vm) × World C
  call_list_flex id w =
      let r = client.list_flex id w.cloud in
      (r.0, record w { cloud = r.1; sent = list_flex_vms id ∷ w.sent })

  unfoldable pub call_list_vms : Text → World C → Reply (List ScaleSetVm) × World C
  call_list_vms name w =
      let r = client.list_instance_views name w.cloud in
      (r.0, record w { cloud = r.1; sent = list_vms name ∷ w.sent })

  unfoldable pub get_scale_set_vms : World C → Outcome (List ScaleSetVm) × World C
  get_scale_set_vms w =
      on_reply (call_list_vms w.set.name w) (λ vms w'. (ok vms, w')) (λ e w'. (err (api e), w'))

  unfoldable pub get_flexible_scale_set_vms : World C → Outcome (List Vm) × World C
  get_flexible_scale_set_vms w = elim (get_vmss_from_cache w) [
    | err e ↦ (err e, w)
    | panic ↦ (panic, w)
    | ok p ↦ elim (w.cache.heap p).id [
      | none ↦ (err vmss_no_id, w)
      | some id ↦
          on_reply (call_list_flex id w) (λ vms w'. (ok vms, w')) (λ e w'. (err (api e), w'))
    ]
  ]

  -- The new instances, or none where the list was not to be had.
  unfoldable pub store_instances :
      ℤ → Outcome (List Instance) → World C → Outcome (Unit {0}) × World C
  store_instances last (ok is) w =
      (ok tt, record w { set = record w.set { instance_cache = is; last_instance_refresh = last } })
  store_instances last (err e) w =
      elim (is_azure_requests_throttled client.parse_time (time_now client w) e) [
        | none ↦ (err e, w)
        | some retry_after ↦ (
          ok tt,
          record w {
            set = record w.set {
              last_instance_refresh =
                  throttled_refresh w.set.instances_refresh_period (time_now client w) retry_after
                    last;
            };
          },
        )
      ]
  store_instances last panic w = (panic, w)

  -- `time.Now()` less a random number of seconds up to the jitter; `Intn` panics on what is not
  -- positive.
  unfoldable pub splayed_now : World C → Outcome ℤ
  splayed_now w =
      let n = w.set.instances_refresh_jitter +ℤ pos 1 in
      if leb_ℤ n (pos 0)
      then panic
      else ok (time_now client w -ℤ times 1000000000 (client.intn n w.cloud))

  unfoldable pub build_scale_set_cache_for_flex : World C → Outcome (Unit {0}) × World C
  build_scale_set_cache_for_flex w =
      then_run (splayed_now w, w)
        (λ last w₁.
          let r = get_flexible_scale_set_vms w₁ in
          store_instances last (r.0 >>= build_instance_cache_for_flex r.1.set.enable_fast_delete)
            r.1)

  unfoldable pub build_scale_set_cache_for_uniform : World C → Outcome (Unit {0}) × World C
  build_scale_set_cache_for_uniform w =
      then_run (splayed_now w, w)
        (λ last w₁.
          let r = get_scale_set_vms w₁ in
          let set = r.1.set in
          store_instances last
            (r.0
              >>= build_instances set.enable_fast_delete set.enable_detailed_cse set.instance_cache)
            r.1)

  -- By the orchestration mode of the cached VMSS.
  unfoldable pub update_instance_cache : World C → Outcome (Unit {0}) × World C
  update_instance_cache w = elim (get_vmss_from_cache w) [
    | err e ↦ (err e, w)
    | panic ↦ (panic, w)
    | ok p ↦ elim (w.cache.heap p).orchestration_mode [
      | none ↦ (err orchestration_unknown, w)
      | some flexible ↦
          if w.config.enable_vmss_flex_nodes
          then build_scale_set_cache_for_flex w
          else (err flex_disabled, w)
      | some uniform ↦ build_scale_set_cache_for_uniform w
    ]
  ]

  -- `validateInstanceCache`, with or without the lock.
  unfoldable pub validate_instance_cache : World C → Outcome (Unit {0}) × World C
  validate_instance_cache w =
      if is_fresh client w.set.last_instance_refresh w.set.instances_refresh_period w
      then (ok tt, w)
      else update_instance_cache w

  unfoldable pub get_instance_by_provider_id : Text → World C → Outcome (Option Instance) × World C
  get_instance_by_provider_id id w =
      then_run (validate_instance_cache w)
        (λ _ w'. (ok (find_instance id w'.set.instance_cache), w'))

  unfoldable pub get_instances_by_state :
      InstanceState → World C → Outcome (List Instance) × World C
  get_instances_by_state state w =
      then_run (validate_instance_cache w)
        (λ _ w'. (ok (instances_in state w'.set.instance_cache), w'))

  unfoldable pub get_instance_cache_size : World C → Outcome ℤ × World C
  get_instance_cache_size w =
      then_run (validate_instance_cache w) (λ _ w'. (ok (pos (length w'.set.instance_cache)), w'))

  abbrev pub write_status : Text → InstanceStatus → World C → World C
  write_status id s w = record w {
    set = record w.set { instance_cache = set_status id s w.set.instance_cache };
  }

  -- An error of the refresh is only logged.
  unfoldable pub status_after :
      Text → InstanceStatus → Outcome (Unit {0}) × World C → Outcome (Unit {0}) × World C
  status_after id s (panic, w) = (panic, w)
  status_after id s (ok u, w) = (ok tt, write_status id s w)
  status_after id s (err e, w) = (ok tt, write_status id s w)

  unfoldable pub set_instance_status_by_provider_id :
      Text → InstanceStatus → World C → Outcome (Unit {0}) × World C
  set_instance_status_by_provider_id id s w = status_after id s (validate_instance_cache w)

  -- `Nodes` once the size is read: the cache is used as it is where it has as many instances and is
  -- fresh.
  unfoldable pub list_instances : ℤ → World C → Outcome (List Instance) × World C
  list_instances size w =
      if eqb_ℤ (pos (length w.set.instance_cache)) size
        && is_fresh client w.set.last_instance_refresh w.set.instances_refresh_period w
      then (ok w.set.instance_cache, w)
      else then_run (update_instance_cache w) (λ _ w'. (ok w'.set.instance_cache, w'))

  -- A VMSS that is not found has no nodes.
  abbrev pub nodes_error : Error → Outcome (List Instance)
  nodes_error (vmss_failed true e) = ok []
  nodes_error (vmss_failed false e) = err e
  nodes_error e = err e

  unfoldable pub nodes : World C → Outcome (List Instance) × World C
  nodes w =
      let r = get_cur_size client w in
      elim r.0 [
        | ok size ↦ list_instances size r.1
        | err e ↦ (nodes_error e, r.1)
        | panic ↦ (panic, r.1)
      ]
