-- ===== src/AgentPool.antt =====
-- pkg/cloudprovider/azure/azure_agent_pool.go: an agent pool of aks-engine, which grows by a
-- deployment of its template, and cleans up old deployments.
pub mod Growing
pub mod Bounds
pub mod Sorted
pub mod Increased
pub mod Cleanup
pub mod Deletion
use cluster_autoscaler_provi.Base.Int.{
  ℤ, pos, negsuc, ◌+ℤ◌, ◌-ℤ◌, ltb_ℤ, leb_ℤ, eqb_ℤ, add64, sub64,
}
use cluster_autoscaler_provi.Base.Maps.{lookup, insert}
use cluster_autoscaler_provi.Base.Text.{Text, codes, has_prefix, text_eq}
use cluster_autoscaler_provi.Base.{
  ℕ, zero, suc, Bool, true, false, not, ◌&&◌, ◌||◌, Option, none, some, List, [], ◌∷◌, ◌++◌,
  if◌then◌else◌, length, deref, is_empty,
}
use cluster_autoscaler_provi.Cache.{AzureCache}
use cluster_autoscaler_provi.Errors.{
  ApiError, Error, api, Reply, answer, failure, on_reply, Outcome, ok, err, panic, ◌>>=◌, then_run,
  pool_not_found, size_uninitialized, size_not_positive, size_too_large, delete_existing,
}
use cluster_autoscaler_provi.ResourceId.{azure_prefix, convert_resource_group_name_to_lower}
use cluster_autoscaler_provi.Status.{
  instance_status_from_provisioning_state_and_power_state, vm_power_state_running,
}
use cluster_autoscaler_provi.Types.{Vm, VmProperties, OsDisk, Instance, VmType}
use cluster_autoscaler_provi.VmName.{get_vm_name_index}

-- `AgentPool`; of its parameters those that `IncreaseSize` sets.
pub record AgentPool : Type 0 where
  pub name : Text
  pub min_size : ℤ
  pub max_size : ℤ
  pub parameters : List (Text × ℤ)
  pub last_refresh : ℤ
  pub cur_size : ℤ

-- armresources.DeploymentExtended: its name, the provisioning state of its properties, and their
-- timestamp.
pub record Deployment : Type 0 where
  pub name : Option Text
  pub state : Option Text
  pub timestamp : Option ℤ

-- A call about one VM and what belongs to it: its network interface, and the blob (account,
-- container, name) or the managed disk of its OS.
pub data MachineCall : Type 0 where
  get_machine delete_machine delete_interface delete_disk : Text → MachineCall
  delete_blob : Text → Text → Text → MachineCall

-- A call that the code sends to Azure.
pub data Call : Type 0 where
  machine_call : MachineCall → Call
  list_deployments : Call
  delete_deployment : Text → Call
  put_deployment : Text → List (Text × ℤ) → Call

-- What is not part of the repository, over a state of its own: the clock, the random number of a
-- deployment's name in decimal, the deployments client, and `sort.Slice` for a `less`.
pub record Client (C : Type 0) : Type 0 where
  pub now : C → ℤ
  pub random_name : C → Text
  pub list : C → Reply (List Deployment) × C
  pub delete : Text → C → Reply (Unit {0}) × C
  pub create_or_update : Text → List (Text × ℤ) → C → Reply (Unit {0}) × C
  pub sort_slice : (Deployment → Deployment → Bool) → List Deployment → List Deployment

-- What a method can read and write: the pool, the manager's cache and the time of its last
-- refresh, `MaxDeploymentsCount` and the other flags of its configuration, Azure, and the calls sent so far, the latest first.
pub record World (C : Type 0) : Type 0 where
  pub cloud : C
  pub sent : List Call
  pub cache : AzureCache
  pub manager_last_refresh : ℤ
  pub max_deployments_count : ℤ
  pub strict_cache_updates : Bool
  pub vm_type : VmType
  pub pool : AgentPool

abbrev pub deployment_prefix : Text
deployment_prefix = codes "cluster-autoscaler-"

-- `sort.IntSlice.Sort`.
unfoldable pub insert_sorted : ℤ → List ℤ → List ℤ
insert_sorted n [] = n ∷ []
insert_sorted n (m ∷ ms) =
    let rest = insert_sorted n ms in if leb_ℤ n m then n ∷ m ∷ ms else m ∷ rest

unfoldable pub sort_ints : List ℤ → List ℤ
unfolding insert_sorted
sort_ints [] = []
sort_ints (n ∷ ns) = insert_sorted n (sort_ints ns)

-- The OS disk of a VM, where every pointer on the way is there.
unfoldable pub os_disk_of : Vm → Option OsDisk
os_disk_of vm = elim vm.properties [ none ↦ none | some props ↦ props.os_disk ]

unfoldable pub lower_id : Option Text → Outcome Text
lower_id none = panic
lower_id (some id) = convert_resource_group_name_to_lower (azure_prefix ++ id)

-- The loop of `GetVMIndexes`: the indexes in the order of the VMs, and the map to the resource
-- identifiers, its latest entry first.
unfoldable pub collect_indexes : List Vm → Outcome (List ℤ × List (ℤ × Text))
unfolding os_disk_of lower_id
collect_indexes [] = ok ([], [])
collect_indexes (vm ∷ vms) = elim (os_disk_of vm) [
  | none ↦ collect_indexes vms
  | some disk ↦ get_vm_name_index (deref disk.os_type []) vm.name >>= (λ index.
      lower_id vm.id >>= (λ id.
        collect_indexes vms >>= (λ rest. ok (index ∷ rest.0, rest.1 ++ ((index, id) ∷ [])))))
]

module _ {C : Type 0} where
  unfoldable pub get_vms_from_cache : World C → Outcome (List Vm)
  get_vms_from_cache w = elim (lookup w.pool.name w.cache.virtual_machines) [
    | none ↦ err (pool_not_found w.pool.name)
    | some vms ↦ ok vms
  ]

  unfoldable pub get_vm_indexes : World C → Outcome (List ℤ × List (ℤ × Text))
  get_vm_indexes w =
      get_vms_from_cache w >>= (λ vms. collect_indexes vms >>= (λ r. ok (sort_ints r.0, r.1)))

-- The deployments that have succeeded or failed.
abbrev pub is_settled : Option Text → Bool
is_settled none = false
is_settled (some state) = text_eq state (codes "Succeeded") || text_eq state (codes "Failed")

unfoldable pub settled_deployments : List Deployment → List Deployment
settled_deployments [] = []
settled_deployments (d ∷ ds) =
    let rest = settled_deployments ds in if is_settled d.state then d ∷ rest else rest

-- The loop that keeps the autoscaler's own deployments. It reads every name, from the last to the
-- first, so that a nil one panics.
unfoldable pub own_deployments : List Deployment → Outcome (List Deployment)
own_deployments [] = ok []
own_deployments (d ∷ ds) = own_deployments ds >>= (λ rest. elim d.name [
  | none ↦ panic
  | some name ↦ ok (if has_prefix name deployment_prefix then d ∷ rest else rest)
])

-- `iTime.After(*jTime)`, or false where one is nil.
abbrev pub newer : Deployment → Deployment → Bool
newer d e = elim d.timestamp [
  | none ↦ false
  | some s ↦ elim e.timestamp [ none ↦ false | some t ↦ ltb_ℤ t s ]
]

-- `deployments[n:]`: none where the bounds are wrong, which panics.
unfoldable pub drop : ℕ → List Deployment → Option (List Deployment)
drop zero ds = some ds
drop (suc n) [] = none
drop (suc n) (d ∷ ds) = drop n ds

abbrev pub slice_from : ℤ → List Deployment → Option (List Deployment)
slice_from (pos n) ds = drop n ds
slice_from (negsuc n) ds = none

module _ {C : Type 0} (client : Client C) where
  unfoldable pub invalidate_cache : World C → World C
  invalidate_cache w = record w {
    manager_last_refresh = client.now w.cloud -ℤ w.cache.refresh_interval;
  }

  unfoldable pub call_list : World C → Reply (List Deployment) × World C
  call_list w =
      let r = client.list w.cloud in
      (r.0, record w { cloud = r.1; sent = list_deployments ∷ w.sent })

  unfoldable pub call_delete : Text → World C → Reply (Unit {0}) × World C
  call_delete name w =
      let r = client.delete name w.cloud in
      (r.0, record w { cloud = r.1; sent = delete_deployment name ∷ w.sent })

  unfoldable pub call_put : Text → List (Text × ℤ) → World C → Reply (Unit {0}) × World C
  call_put name parameters w =
      let r = client.create_or_update name parameters w.cloud in
      (r.0, record w { cloud = r.1; sent = put_deployment name parameters ∷ w.sent })

  -- `getCurSize`: the number of VMs with an index, read anew every 15 seconds.
  unfoldable pub get_cur_size : World C → Outcome ℤ × World C
  get_cur_size w =
      if ltb_ℤ (client.now w.cloud) (w.pool.last_refresh +ℤ pos 15000000000)
      then (ok w.pool.cur_size, w)
      else elim (get_vm_indexes w) [
        | err e ↦ (err e, w)
        | panic ↦ (panic, w)
        | ok indexes ↦
            let n = pos (length indexes.0) in
            let w' = if eqb_ℤ w.pool.cur_size n then w else invalidate_cache w in
            (
              ok n,
              record w' {
                pool = record w'.pool { cur_size = n; last_refresh = client.now w.cloud };
              },
            )
      ]

  -- `getAllSucceededAndFailedDeployments`.
  unfoldable pub get_all_succeeded_and_failed_deployments :
      World C → Outcome (List Deployment) × World C
  get_all_succeeded_and_failed_deployments w =
      on_reply (call_list w) (λ ds w'. (ok (settled_deployments ds), w'))
        (λ e w'. (err (api e), w'))

  -- The loop that deletes, with the errors that it collects.
  unfoldable pub delete_deployments : List Deployment → World C → Outcome (List ApiError) × World C
  delete_deployments [] w = (ok [], w)
  delete_deployments (d ∷ ds) w = elim d.name [
    | none ↦ (panic, w)
    | some name ↦
        on_reply (call_delete name w) (λ _ w'. delete_deployments ds w')
          (λ e w'. then_run (delete_deployments ds w') (λ es w''. (ok (e ∷ es), w'')))
  ]

  -- `deleteOutdatedDeployments` on the deployments that are listed: the errors of the deletions.
  unfoldable pub delete_outdated : List Deployment → World C → Outcome (List ApiError) × World C
  delete_outdated ds w = elim (own_deployments ds) [
    | err e ↦ (err e, w)
    | panic ↦ (panic, w)
    | ok own ↦
        if leb_ℤ (pos (length own)) w.max_deployments_count
        then (ok [], w)
        else elim (slice_from w.max_deployments_count (client.sort_slice newer own)) [
          | none ↦ (panic, w)
          | some outdated ↦ delete_deployments outdated w
        ]
  ]

  unfoldable pub delete_outdated_deployments : World C → Outcome (List ApiError) × World C
  delete_outdated_deployments w =
      then_run (get_all_succeeded_and_failed_deployments w) delete_outdated
