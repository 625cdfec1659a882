-- ===== src/AgentPool/Deletion.antt =====
-- The deletion of an agent pool's VMs: `Belongs`, `DeleteInstances`, `DeleteNodes`,
-- `ForceDeleteNodes` and `deleteVirtualMachine` of azure_agent_pool.go, and `splitBlobURI` of
-- azure_util.go.
pub mod Planned
use cluster_autoscaler_provi.AgentPool.{
  MachineCall, get_machine, delete_machine, delete_interface, delete_disk, delete_blob,
  machine_call, Client, World, get_vm_indexes, invalidate_cache, delete_outdated_deployments,
  os_disk_of,
}
use cluster_autoscaler_provi.Base.Int.{ℤ, pos, leb_ℤ}
use cluster_autoscaler_provi.Base.Text.{Text, split, eq_fold}
use cluster_autoscaler_provi.Base.{
  ℕ, Bool, true, false, Option, none, some, List, [], ◌∷◌, ◌++◌, if◌then◌else◌, is_empty, length,
}
use cluster_autoscaler_provi.Cache.{find_for_instance, set_instance_state_by_provider_id}
use cluster_autoscaler_provi.Errors.{
  ApiError, api, Reply, answer, failure, Outcome, ok, err, panic, ◌>>=◌, then_run, min_size_reached,
  different_group, not_same_group, unknown_group, os_disk_missing, os_disk_no_vhd, url_invalid,
}
use cluster_autoscaler_provi.ResourceId.{resource_name}
use cluster_autoscaler_provi.Types.{Vm, VmProperties, OsDisk, NodeGroup, deleting}

-- The Azure clients of VMs, interfaces, disks and blobs (the last is `AzUtil.DeleteBlob`),
-- `azerrors.IsNotFoundErr`, and the host and the path that `url.Parse` finds, if it parses.
pub record MachineClient (C : Type 0) : Type 0 where
  pub get : Text → C → Reply Vm × C
  pub delete : MachineCall → C → Reply (Unit {0}) × C
  pub is_not_found : ApiError → Bool
  pub parse_url : Text → Option (Text × Text)

-- A Node: its name and its ProviderID.
pub record Node : Type 0 where
  pub name : Text
  pub provider_id : Text

abbrev pub first_part : List Text → Text
first_part [] = []
first_part (p ∷ ps) = p

-- `strings.Join(parts, "/")`.
abbrev pub join_path : List Text → Text
join_path [] = []
join_path (p ∷ []) = p
join_path (p ∷ q ∷ ps) = p ++ (b'/' ∷ join_path (q ∷ ps))

-- The container and the blob of a path's parts; there is no second one in a path with no slash.
abbrev pub blob_of : List Text → Outcome (Text × Text)
blob_of [] = panic
blob_of (p ∷ []) = panic
blob_of (p ∷ container ∷ ps) = ok (container, join_path ps)

unfoldable pub split_blob_uri : (Text → Option (Text × Text)) → Text → Outcome MachineCall
unfolding split
split_blob_uri parse_url uri = elim (parse_url uri) [
  | none ↦ err (url_invalid uri)
  | some url ↦
      blob_of (split b'/' url.1)
      >>= (λ blob. ok (delete_blob (first_part (split b'.' url.0)) blob.0 blob.1))
]

-- The VM's first network interface, by name; the empty name is none.
unfoldable pub nic_name : Option (Option Text) → Outcome Text
unfolding resource_name
nic_name none = ok []
nic_name (some none) = ok []
nic_name (some (some id)) = resource_name id

abbrev pub nic_of : Vm → Option (Option Text)
nic_of vm = elim vm.properties [ none ↦ none | some props ↦ props.first_nic ]

-- The OS disk, which has a VHD or is managed.
unfoldable pub check_disk : Option OsDisk → Outcome OsDisk
check_disk none = err os_disk_missing
check_disk (some disk) = elim disk.vhd [
  | none ↦ if disk.managed_disk then ok disk else err os_disk_no_vhd
  | some uri ↦ ok disk
]

-- An instance with no group panics.
unfoldable pub verify_group : Text → Option NodeGroup → Option NodeGroup → Outcome (Unit {0})
verify_group i none common = panic
verify_group i (some g) none = panic
verify_group i (some g) (some common) =
    if eq_fold g.id common.id then ok tt else err (not_same_group i)

module _ {C : Type 0} where
  -- The state after `GetNodeGroupForInstance`.
  unfoldable pub find_group : Text → World C → Outcome (Option NodeGroup) × World C
  find_group name w =
      let r = find_for_instance name w.vm_type w.cache in (r.0, record w { cache = r.1 })

  unfoldable pub belongs : Node → World C → Outcome Bool × World C
  belongs node w = then_run (find_group node.provider_id w) (λ found w'. elim found [
    | none ↦ (err (unknown_group node.name), w')
    | some g ↦ (ok (eq_fold g.id w'.pool.name), w')
  ])

  -- The loop of `ForceDeleteNodes`.
  unfoldable pub collect_nodes : List Node → World C → Outcome (List Text) × World C
  collect_nodes [] w = (ok [], w)
  collect_nodes (node ∷ nodes) w = then_run (belongs node w) (λ own w₁.
      if own
      then then_run (collect_nodes nodes w₁) (λ rest w₂. (ok (node.provider_id ∷ rest), w₂))
      else (err (different_group node.name), w₁))

  -- The first loop of `DeleteInstances`.
  unfoldable pub verify_instances :
      Option NodeGroup → List Text → World C → Outcome (Unit {0}) × World C
  verify_instances common [] w = (ok tt, w)
  verify_instances common (i ∷ is) w = then_run (find_group i w) (λ found w₁.
      then_run (verify_group i found common, w₁) (λ _ w₂. verify_instances common is w₂))

module _ {C : Type 0} (client : Client C) (machines : MachineClient C) where
  unfoldable pub call_get : Text → World C → Reply Vm × World C
  call_get name w =
      let r = machines.get name w.cloud in
      (r.0, record w { cloud = r.1; sent = machine_call (get_machine name) ∷ w.sent })

  unfoldable pub call_delete : MachineCall → World C → Reply (Unit {0}) × World C
  call_delete call w =
      let r = machines.delete call w.cloud in
      (r.0, record w { cloud = r.1; sent = machine_call call ∷ w.sent })

  -- An error that says that there is nothing to delete counts as none.
  abbrev pub unless_gone : Reply (Unit {0}) → Outcome (Unit {0})
  unless_gone (answer u) = ok tt
  unless_gone (failure e) = if machines.is_not_found e then ok tt else err (api e)

  unfoldable pub delete_resource : MachineCall → World C → Outcome (Unit {0}) × World C
  delete_resource call w = let r = call_delete call w in (unless_gone r.0, r.1)

  unfoldable pub delete_nic : Text → World C → Outcome (Unit {0}) × World C
  delete_nic nic w = if is_empty nic then (ok tt, w) else delete_resource (delete_interface nic) w

  -- The VHD first, whose URI may be nil, and else the managed disk, whose name may be.
  unfoldable pub delete_os_disk : OsDisk → World C → Outcome (Unit {0}) × World C
  delete_os_disk disk w = elim disk.vhd [
    | some none ↦ (panic, w)
    | some (some uri) ↦
        then_run (split_blob_uri machines.parse_url uri, w) (λ blob w'. delete_resource blob w')
    | none ↦ elim disk.disk_name [
      | none ↦ (ok tt, w)
      | some name ↦ delete_resource (delete_disk name) w
    ]
  ]

  -- `deleteVirtualMachine` once the VM is read.
  unfoldable pub delete_found : Text → Vm → World C → Outcome (Unit {0}) × World C
  delete_found name vm w =
      then_run (check_disk (os_disk_of vm), w)
        (λ disk w₁.
          then_run (nic_name (nic_of vm), w₁)
            (λ nic w₂.
              then_run (delete_resource (delete_machine name) w₂)
                (λ _ w₃. then_run (delete_nic nic w₃) (λ _ w₄. delete_os_disk disk w₄))))

  unfoldable pub delete_virtual_machine : Text → World C → Outcome (Unit {0}) × World C
  delete_virtual_machine name w =
      let r = call_get name w in
      elim r.0 [
        | answer vm ↦ delete_found name vm r.1
        | failure e ↦ (if machines.is_not_found e then ok tt else err (api e), r.1)
      ]

  -- What `DeleteInstances` does after a VM's deletion: one that failed invalidates the cache.
  unfoldable pub settle : Outcome (Unit {0}) × World C → Outcome (Unit {0}) × World C
  settle (ok u, w) = (ok tt, w)
  settle (err e, w) = (err e, invalidate_cache client w)
  settle (panic, w) = (panic, w)

  unfoldable pub mark_deleting : Text → World C → World C
  mark_deleting i w =
      if w.strict_cache_updates
      then w
      else record w { cache = set_instance_state_by_provider_id i deleting w.cache }

  -- The second loop.
  unfoldable pub delete_each : List Text → World C → Outcome (Unit {0}) × World C
  delete_each [] w = (ok tt, w)
  delete_each (i ∷ is) w =
      then_run (resource_name i, w)
        (λ name w₁.
          then_run (settle (delete_virtual_machine name (mark_deleting i w₁)))
            (λ _ w₂. delete_each is w₂))

  unfoldable pub delete_instances : List Text → World C → Outcome (Unit {0}) × World C
  delete_instances [] w = (ok tt, w)
  delete_instances (i ∷ is) w = then_run (find_group i w) (λ common w₁.
      then_run (verify_instances common (i ∷ is) w₁)
        (λ _ w₂. then_run (delete_each (i ∷ is) w₂) (λ _ w₃. (ok tt, invalidate_cache client w₃))))

  -- The errors of the cleanup are only logged.
  unfoldable pub delete_after_cleanup :
      List Text → Outcome (List ApiError) × World C → Outcome (Unit {0}) × World C
  delete_after_cleanup ids (ok es, w) = delete_instances ids w
  delete_after_cleanup ids (err e, w) = delete_instances ids w
  delete_after_cleanup ids (panic, w) = (panic, w)

  unfoldable pub force_delete_nodes : List Node → World C → Outcome (Unit {0}) × World C
  force_delete_nodes nodes w =
      then_run (collect_nodes nodes w)
        (λ ids w'. delete_after_cleanup ids (delete_outdated_deployments client w'))

  unfoldable pub delete_nodes : List Node → World C → Outcome (Unit {0}) × World C
  delete_nodes nodes w =
      then_run (get_vm_indexes w, w)
        (λ indexes w'.
          if leb_ℤ (pos (length indexes.0)) w'.pool.min_size
          then (err min_size_reached, w')
          else force_delete_nodes nodes w')
