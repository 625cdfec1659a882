-- ===== src/ScaleSet/Deletion.antt =====
-- The deletion of a scale set's instances: azure_force_delete_scale_set.go, and of
-- azure_scale_set.go `Belongs`, `verifyNodeGroup`, `getSKU`, `DeleteInstances`, `DeleteNodes` and
-- `ForceDeleteNodes`; Waiting has `waitForDeleteInstances`.
pub mod Looking
pub mod Selected
pub mod Requested
pub mod Charged
pub mod Recorded
pub mod Marked
pub mod Waiting
pub mod Waited
pub mod Renewed
pub mod Settled
use cluster_autoscaler_provi.Base.Int.{ℤ, pos, negsuc, ltb_ℤ, leb_ℤ, sub64}
use cluster_autoscaler_provi.Base.Maps.{member}
use cluster_autoscaler_provi.Base.Text.{Text, codes, text_eq, to_lower, contains, eq_fold}
use cluster_autoscaler_provi.Base.{
  ℕ, Bool, true, false, not, ◌&&◌, ◌||◌, Option, none, some, List, [], ◌∷◌, if◌then◌else◌, is_empty,
  length, map, deref,
}
use cluster_autoscaler_provi.Cache.{find_for_instance, set_instance_state_by_provider_id}
use cluster_autoscaler_provi.Errors.{
  ApiError, response, other_error, api, min_size_reached, different_group, not_same_group,
  unknown_group, outcome_of, Reply, answer, failure, Outcome, ok, err, panic, ◌>>=◌, then_run,
}
use cluster_autoscaler_provi.Manager.{Manager, force_refresh}
use cluster_autoscaler_provi.ResourceId.{get_last_segment}
use cluster_autoscaler_provi.ScaleSet.Instances.{
  has_state, get_instance_by_provider_id, set_instance_status_by_provider_id,
}
use cluster_autoscaler_provi.ScaleSet.Size.{get_scale_set_size}
use cluster_autoscaler_provi.ScaleSet.{
  ScaleSet, Client, World, begin_delete, poll_delete, list_resources, get_vmss_from_cache, time_now,
  invalidate_instance_cache, invalidate_last_size_refresh, invalidate_cache,
}
use cluster_autoscaler_provi.Types.{Instance, InstanceStatus, deleting, NodeGroup}

-- `isolatedVMSizes`.
abbrev pub isolated_vm_sizes : List Text
isolated_vm_sizes = map to_lower (
    codes "Standard_E80ids_v4"
    ∷ codes "Standard_E80is_v4"
    ∷ codes "Standard_E104i_v5"
    ∷ codes "Standard_E104is_v5"
    ∷ codes "Standard_E104id_v5"
    ∷ codes "Standard_E104ids_v5"
    ∷ codes "Standard_M192is_v2"
    ∷ codes "Standard_M192ims_v2"
    ∷ codes "Standard_M192ids_v2"
    ∷ codes "Standard_M192idms_v2"
    ∷ codes "Standard_F72s_v2"
    ∷ codes "Standard_M128ms"
    ∷ [])

unfoldable pub should_force_delete : Text → ScaleSet → Bool
unfolding member
should_force_delete sku_name s =
    s.enable_force_delete
    && not (member (to_lower sku_name) isolated_vm_sizes)
    && not s.dedicated_host

-- Whether an error is a response with an error code, or has it in its message.
abbrev pub has_error_code : Text → ApiError → Bool
has_error_code code (response status c retry_after) = text_eq c code
has_error_code code (other_error message) = contains message code

unfoldable pub is_operation_not_allowed : ApiError → Bool
unfolding text_eq contains
is_operation_not_allowed e = has_error_code (codes "OperationNotAllowed") e

unfoldable pub is_operation_preempted : ApiError → Bool
unfolding text_eq contains
is_operation_preempted e = has_error_code (codes "OperationPreempted") e

-- `isOperationNotAllowed` on what a call answered.
abbrev pub is_denied : {A : Type 0} → Reply A → Bool
is_denied (answer a) = false
is_denied (failure e) = is_operation_not_allowed e

-- `time.Time{}`, the start of the year 1, in nanoseconds from that of 1970.
abbrev pub zero_time : ℤ
zero_time = negsuc 62135596799999999999

-- What the methods read of a Node: its name, its ProviderID, and whether its annotation says that
-- it stands for an instance that has not registered.
pub record Node : Type 0 where
  pub name : Text
  pub provider_id : Text
  pub unregistered : Bool

-- Whether an instance that is to be deleted is in deletion already; an error counts as no.
abbrev pub in_deletion : Outcome (Option Instance) → Outcome Bool
in_deletion (ok none) = ok false
in_deletion (ok (some i)) = ok (has_state deleting i.status)
in_deletion (err e) = ok false
in_deletion panic = panic

-- The identifiers' last segments.
unfoldable pub instance_ids : List Text → Outcome (List Text)
unfolding get_last_segment
instance_ids [] = ok []
instance_ids (i ∷ is) = get_last_segment i >>= (λ id. instance_ids is >>= (λ ids. ok (id ∷ ids)))

abbrev pub deleting_status : InstanceStatus
deleting_status = record { state = deleting; error_info = none }

-- The guard of `DeleteNodes`.
unfoldable pub above_min_size : ℤ → ℤ → Outcome (Unit {0})
above_min_size min size = if leb_ℤ size min then err min_size_reached else ok tt

module _ {C : Type 0} where
  unfoldable pub get_sku : World C → Outcome Text
  get_sku w = elim (get_vmss_from_cache w) [
    | err e ↦ ok []
    | panic ↦ panic
    | ok p ↦ elim (w.cache.heap p).sku [ none ↦ panic | some s ↦ ok (deref s.sku_name []) ]
  ]

  -- `GetNodeGroupForInstance` of the manager.
  unfoldable pub find_group : Text → World C → Outcome (Option NodeGroup) × World C
  find_group name w =
      let r = find_for_instance name w.config.vm_type w.cache in (r.0, record w { cache = r.1 })

  -- An instance with no group panics.
  unfoldable pub verify_node_group : Text → Text → World C → Outcome (Unit {0}) × World C
  verify_node_group instance common_id w = then_run (find_group instance w) (λ found w'.
      elim found [
        | none ↦ (panic, w')
        | some g ↦ (if eq_fold g.id common_id then ok tt else err (not_same_group instance), w')
      ])

  unfoldable pub belongs : Node → World C → Outcome Bool × World C
  belongs node w = then_run (find_group node.provider_id w) (λ found w'. elim found [
    | none ↦ (err (unknown_group node.name), w')
    | some g ↦ (ok (eq_fold g.id w'.set.name), w')
  ])

  -- The loop of `ForceDeleteNodes`: the instances, and whether one is not registered.
  unfoldable pub collect_nodes : List Node → World C → Outcome (List Text × Bool) × World C
  collect_nodes [] w = (ok ([], false), w)
  collect_nodes (node ∷ nodes) w = then_run (belongs node w) (λ own w₁.
      if own
      then then_run (collect_nodes nodes w₁)
          (λ rest w₂. (ok (node.provider_id ∷ rest.0, node.unregistered || rest.1), w₂))
      else (err (different_group node.name), w₁))

module _ {C : Type 0} (client : Client C) where
  unfoldable pub call_begin_delete : Text → List Text → Bool → World C → Reply (Option ℕ) × World C
  call_begin_delete group ids force w =
      let r = client.begin_delete_instances group ids force w.cloud in
      (r.0, record w { cloud = r.1; sent = begin_delete group ids force ∷ w.sent })

  unfoldable pub call_poll_delete : ℕ → World C → Reply (Unit {0}) × World C
  call_poll_delete poller w =
      let r = client.poll_deleted poller w.cloud in
      (r.0, record w { cloud = r.1; sent = poll_delete poller ∷ w.sent })

  -- `deleteInstances` with its `forceDelete`: a forced deletion that is not allowed is tried again
  -- as a normal one.
  unfoldable pub begin_deletion : Bool → List Text → Text → World C → Outcome (Option ℕ) × World C
  begin_deletion force ids group w =
      let r = call_begin_delete group ids force w in
      if force && is_denied r.0
      then (let again = call_begin_delete group ids false r.1 in (outcome_of again.0, again.1))
      else (outcome_of r.0, r.1)

  -- `deleteInstances`.
  unfoldable pub request_deletion : List Text → Text → World C → Outcome (Option ℕ) × World C
  request_deletion ids group w =
      then_run (get_sku w, w)
        (λ sku w'. begin_deletion (should_force_delete sku w'.set) ids group w')

  unfoldable pub check_deletion : Text → World C → Outcome Bool × World C
  check_deletion instance w =
      let r = get_instance_by_provider_id client instance w in (in_deletion r.0, r.1)

  -- The first loop of `DeleteInstances`: the instances to delete.
  unfoldable pub select_instances : Text → List Text → World C → Outcome (List Text) × World C
  select_instances common_id [] w = (ok [], w)
  select_instances common_id (i ∷ is) w = then_run (verify_node_group i common_id w) (λ _ w₁.
      then_run (check_deletion i w₁) (λ skip w₂.
        then_run (select_instances common_id is w₂)
          (λ rest w₃. (ok (if skip then rest else i ∷ rest), w₃))))

  -- The size of a scale set that k instances are deleted from; it is stale where it cannot count
  -- them.
  unfoldable pub charge : ℤ → World C → World C
  charge k w = record w {
    set =
        if ltb_ℤ w.set.cur_size k
        then record w.set { last_size_refresh = zero_time }
        else record w.set {
          cur_size = sub64 w.set.cur_size k;
          last_size_refresh = time_now client w;
        };
  }

  -- The last loop: both caches have the instances as in deletion.
  unfoldable pub mark_deleting : List Text → World C → Outcome (Unit {0}) × World C
  mark_deleting [] w = (ok tt, w)
  mark_deleting (i ∷ is) w =
      then_run (set_instance_status_by_provider_id client i deleting_status w) (λ _ w'.
        mark_deleting is
          (record w' { cache = set_instance_state_by_provider_id i deleting w'.cache }))

  -- The updates ahead of the next refresh.
  unfoldable pub publish_deletion :
      List Text → List Text → Bool → World C → Outcome (Unit {0}) × World C
  publish_deletion instances ids unregistered w =
      if w.config.strict_cache_updates
      then (ok tt, w)
      else mark_deleting instances (if unregistered then w else charge (pos (length ids)) w)

  -- The goroutine that waits for the poller, if there is one.
  unfoldable pub leave_deletion : Option ℕ → List Text → World C → World C
  leave_deletion none ids w = w
  leave_deletion (some poller) ids w = record w { deletions = (poller, ids) ∷ w.deletions }

  -- `DeleteInstances` once the instances to delete are selected.
  unfoldable pub delete_selected : Text → Bool → List Text → World C → Outcome (Unit {0}) × World C
  delete_selected common_id unregistered instances w =
      if is_empty instances
      then (ok tt, w)
      else then_run (instance_ids instances, w)
          (λ ids w₁. then_run (request_deletion ids common_id w₁) (λ poller w₂.
            then_run (publish_deletion instances ids unregistered w₂)
              (λ _ w₃. (ok tt, leave_deletion poller ids w₃))))

  -- `DeleteInstances` once the group of the first instance is known; none panics.
  unfoldable pub delete_of_group :
      Option NodeGroup → List Text → Bool → World C → Outcome (Unit {0}) × World C
  delete_of_group none is unregistered w = (panic, w)
  delete_of_group (some common) is unregistered w =
      then_run (select_instances common.id is w)
        (λ instances w'. delete_selected common.id unregistered instances w')

  unfoldable pub delete_instances : List Text → Bool → World C → Outcome (Unit {0}) × World C
  delete_instances [] unregistered w = (ok tt, w)
  delete_instances (i ∷ is) unregistered w =
      then_run (find_group i w) (λ found w'. delete_of_group found (i ∷ is) unregistered w')

  unfoldable pub force_delete_nodes : List Node → World C → Outcome (Unit {0}) × World C
  force_delete_nodes nodes w =
      then_run (collect_nodes nodes w) (λ found w'. delete_instances found.0 found.1 w')

  unfoldable pub delete_nodes : List Node → World C → Outcome (Unit {0}) × World C
  delete_nodes nodes w = then_run (get_scale_set_size client w) (λ size w₁.
      then_run (above_min_size w₁.set.min_size size, w₁) (λ _ w₂. force_delete_nodes nodes w₂))
