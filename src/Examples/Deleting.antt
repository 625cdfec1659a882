-- ===== src/Examples/Deleting.antt =====
-- Runs of the deletion of a scale set's instances, and of its instance cache.
use cluster_autoscaler_provi.Base.Int.{pos, ltb_ℤ}
use cluster_autoscaler_provi.Base.Maps.{lookup, insert, member}
use cluster_autoscaler_provi.Base.Text.{
  Text, codes, lower, text_eq, eq_fold, contains, has_prefix, strip_prefix, split, replace_first,
  greedy, greedy_capture, greedy_capture_some, literal, search_match,
}
use cluster_autoscaler_provi.Base.{
  ◌≡◌, refl, true, false, none, some, List, [], ◌∷◌, ◌++◌, arith, if◌then◌else◌, is_some,
}
use cluster_autoscaler_provi.Cache.{
  find_entry, get_instance_from_cache, is_omitted, find_for_instance,
  set_instance_state_by_provider_id,
}
use cluster_autoscaler_provi.Errors.{ApiError, response, failure, Outcome, ok}
use cluster_autoscaler_provi.Examples.Data.{id_a, pool_a, group_a, cache_a}
use cluster_autoscaler_provi.Examples.Scaling.{world_a, accepting}
use cluster_autoscaler_provi.ResourceId.{
  resource_group_re, convert_resource_group_name_to_lower, trim_left, trim_right, trim_space,
  get_last_segment,
}
use cluster_autoscaler_provi.ScaleSet.Deletion.Charged.{Recorded}
use cluster_autoscaler_provi.ScaleSet.Deletion.Looking.{batches}
use cluster_autoscaler_provi.ScaleSet.Deletion.Marked.{check_deletion-mark_deleting}
use cluster_autoscaler_provi.ScaleSet.Deletion.Recorded.{delete_instances-Recorded}
use cluster_autoscaler_provi.ScaleSet.Deletion.Requested.{Requested, delete_instances-Requested}
use cluster_autoscaler_provi.ScaleSet.Deletion.Waited.{
  IsExactly, wait_for_delete_instances-Requested,
}
use cluster_autoscaler_provi.ScaleSet.Deletion.{
  should_force_delete, is_operation_preempted, instance_ids, get_sku, find_group, verify_node_group,
  call_begin_delete, begin_deletion, request_deletion, check_deletion, select_instances, charge,
  mark_deleting, publish_deletion, leave_deletion, delete_selected, delete_of_group,
  delete_instances,
}
use cluster_autoscaler_provi.ScaleSet.Deletion.Renewed.{IsForward}
use cluster_autoscaler_provi.ScaleSet.Deletion.Settled.{Settled, wait_for_delete_instances-Settled}
use cluster_autoscaler_provi.ScaleSet.Deletion.Selected.{IsOfOneGroup}
use cluster_autoscaler_provi.ScaleSet.Deletion.Waiting.{wait_for_delete_instances}
use cluster_autoscaler_provi.ScaleSet.Instances.Throttled.{
  build_scale_set_cache_for_uniform_throttled,
}
use cluster_autoscaler_provi.ScaleSet.Instances.{
  find_instance, set_status, status_after, set_instance_status_by_provider_id,
  validate_instance_cache, get_instance_by_provider_id, splayed_now,
  build_scale_set_cache_for_uniform,
}
use cluster_autoscaler_provi.ScaleSet.Size.{is_fresh}
use cluster_autoscaler_provi.ScaleSet.{list_vms, Client, World, get_vmss_from_cache}
use cluster_autoscaler_provi.Throttling.{parse_retry_after_header}
use cluster_autoscaler_provi.Base.Atoi.{digits_value, unsigned, atoi}
use cluster_autoscaler_provi.Types.{Instance, NodeGroup, running}

program : Unit {0}
unfolding lower lookup insert member text_eq eq_fold contains has_prefix strip_prefix split
    replace_first greedy greedy_capture greedy_capture_some literal search_match find_entry
    get_instance_from_cache is_omitted find_for_instance set_instance_state_by_provider_id
    resource_group_re convert_resource_group_name_to_lower trim_left trim_right trim_space
    get_last_segment should_force_delete is_operation_preempted instance_ids get_sku find_group
    verify_node_group call_begin_delete begin_deletion request_deletion check_deletion
    select_instances charge mark_deleting publish_deletion leave_deletion delete_selected
    delete_of_group delete_instances find_instance set_status status_after
    set_instance_status_by_provider_id validate_instance_cache get_instance_by_provider_id
    splayed_now get_vmss_from_cache parse_retry_after_header digits_value unsigned atoi
program = tt

-- An instance of the group a.
abbrev id_b : Text
id_b = id_a ++ codes "7"

abbrev instance_b : Instance
instance_b = record { id = id_b; status = some (record { state = running; error_info = none }) }

abbrev world_b : World (Unit {0})
world_b = record world_a {
  cache = record cache_a { instance_to_node_group = (id_b, group_a) ∷ [] };
  set = record world_a.set { instance_cache = instance_b ∷ [] };
}

sku_b : get_sku world_b ≡ ok []
unfolding program
sku_b = refl

-- The deletion counts the instance off the size.
deleted : (delete_instances accepting (id_b ∷ []) false world_b).1.set.cur_size ≡ pos 1
unfolding program
deleted = refl

delete_instances-Requested_example :
    Requested
      (IsOfOneGroup world_b (id_b ∷ []))
      (should_force_delete [] world_b.set)
      []
      (batches (delete_instances accepting (id_b ∷ []) false world_b).1.sent)
delete_instances-Requested_example =
    delete_instances-Requested accepting [] (id_b ∷ []) false world_b sku_b

delete_instances-Recorded_example :
    Recorded false world_b (delete_instances accepting (id_b ∷ []) false world_b)
delete_instances-Recorded_example =
    delete_instances-Recorded accepting (id_b ∷ []) false world_b (omega arith)

fresh_b : is_fresh accepting (pos 990) (pos 30) world_b ≡ true
unfolding program
fresh_b = refl

known_b : is_some (find_instance id_b (instance_b ∷ [])) ≡ true
unfolding program
known_b = refl

check_deletion-mark_deleting_example :
    let w' = (mark_deleting accepting (id_b ∷ []) world_b).1 in
    check_deletion accepting id_b w'
    ≡ (if member id_b (id_b ∷ []) then ok true else (check_deletion accepting id_b world_b).0, w')
check_deletion-mark_deleting_example =
    check_deletion-mark_deleting accepting (id_b ∷ []) id_b world_b fresh_b known_b

abbrev preempted : ApiError
preempted = response 409 (codes "OperationPreempted") []

-- An Azure whose deletions are preempted.
abbrev preempting : Client (Unit {0})
preempting = record accepting { poll_deleted = λ poller c. (failure preempted, c) }

abbrev no_nodes : NodeGroup → Outcome (List Instance)
no_nodes g = ok []

still : IsForward preempting
still = record {
  in_get = λ name c. omega arith;
  in_listing = λ c. omega arith;
  in_list_flex = λ id c. omega arith;
  in_list_vms = λ name c. omega arith;
}

wait_for_delete_instances-Settled_example :
    Settled preempting 0 (wait_for_delete_instances preempting no_nodes 8 (codes "7" ∷ []) world_b)
wait_for_delete_instances-Settled_example =
    wait_for_delete_instances-Settled preempting still no_nodes 8 (codes "7" ∷ []) preempted tt
      world_b refl

wait_for_delete_instances-Requested_example :
    let after =
      batches (wait_for_delete_instances preempting no_nodes 8 (codes "7" ∷ []) world_b).1.sent in
    if is_operation_preempted preempted
    then Requested
        (IsExactly world_b.set.name (codes "7" ∷ []))
        (should_force_delete [] world_b.set)
        []
        after
    else after ≡ []
wait_for_delete_instances-Requested_example =
    wait_for_delete_instances-Requested preempting no_nodes [] 8 (codes "7" ∷ []) preempted tt
      world_b sku_b refl

-- An Azure that answers the list of the VMs with 429, and asks for five seconds.
abbrev throttling : Client (Unit {0})
throttling = record accepting {
  list_instance_views = λ name c. (failure (response 429 [] (codes "5")), c);
}

splayed : splayed_now throttling world_b ≡ ok (pos 1000)
unfolding program
splayed = refl

delay_positive :
    ltb_ℤ (pos 0) (parse_retry_after_header throttling.parse_time (pos 1000) (codes "5")) ≡ true
unfolding program
delay_positive = refl

delay_later : parse_retry_after_header throttling.parse_time (pos 1000) (codes "5") ≡ pos 5000000000
unfolding program
delay_later = refl

build_scale_set_cache_for_uniform_throttled_example :
    let r = build_scale_set_cache_for_uniform throttling world_b in
    let w' = record r.1 { cloud = tt } in
    (r.0 ≡ ok tt)
    × (r.1.set.instance_cache ≡ instance_b ∷ [])
    × (r.1.sent ≡ list_vms pool_a ∷ [])
    × (validate_instance_cache throttling w' ≡ (ok tt, w'))
build_scale_set_cache_for_uniform_throttled_example =
    build_scale_set_cache_for_uniform_throttled throttling (pos 1000) [] (codes "5") tt tt world_b
      splayed refl delay_positive (rw delay_later (omega arith))
