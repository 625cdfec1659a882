-- ===== src/ScaleSet/Deletion/Looking.antt =====
-- The part of `DeleteInstances` of azure_scale_set.go before it asks Azure for a deletion: the
-- groups and the states of the instances, which may refresh the instance cache.
use cluster_autoscaler_provi.Base.Int.{ℤ}
use cluster_autoscaler_provi.Base.Text.{Text}
use cluster_autoscaler_provi.Base.{◌≡◌, refl, ◌∙◌, Bool, Option, List, [], ◌∷◌, arith}
use cluster_autoscaler_provi.Cache.Lookup.{
  find_for_instance-find_for_instance, find_for_instance-set_instance_state,
}
use cluster_autoscaler_provi.Cache.{find_for_instance, set_instance_state_by_provider_id}
use cluster_autoscaler_provi.Errors.{Outcome, ok, err, panic, then_run-trans}
use cluster_autoscaler_provi.ScaleSet.Deletion.{
  get_sku, find_group, verify_node_group, check_deletion, select_instances, mark_deleting,
  deleting_status,
}
use cluster_autoscaler_provi.ScaleSet.Instances.{
  call_list_flex, call_list_vms, get_scale_set_vms, get_flexible_scale_set_vms, store_instances,
  build_scale_set_cache_for_flex, build_scale_set_cache_for_uniform, update_instance_cache,
  validate_instance_cache, set_instance_status_by_provider_id, write_status, status_after,
  get_instance_by_provider_id, splayed_now,
}
use cluster_autoscaler_provi.ScaleSet.{
  Call, get_vmss, put, poll_put, list_flex_vms, list_vms, begin_delete, poll_delete, list_resources,
  Client, World, get_vmss_from_cache,
}
use cluster_autoscaler_provi.Types.{NodeGroup, Instance, InstanceStatus, deleting}

-- The group, the instances and the force of a request to delete.
abbrev pub Batch : Type 0
Batch = Text × (List Text × Bool)

-- The requests to delete among the calls.
abbrev pub batches : List Call → List Batch
batches [] = []
batches (begin_delete group ids force ∷ calls) = (group, (ids, force)) ∷ batches calls
batches (get_vmss name ∷ calls) = batches calls
batches (put name r ∷ calls) = batches calls
batches (poll_put poller ∷ calls) = batches calls
batches (list_flex_vms id ∷ calls) = batches calls
batches (list_vms name ∷ calls) = batches calls
batches (poll_delete poller ∷ calls) = batches calls
batches (list_resources ∷ calls) = batches calls

module _ {C : Type 0} where
  -- What the cache answers of the group of an instance.
  abbrev pub owner_of : Text → World C → Outcome (Option NodeGroup)
  owner_of i w = (find_for_instance i w.config.vm_type w.cache).0

  -- Two states of the world that differ in the caches and in the calls that read at most.
  pub record IsLooking (w w' : World C) : Type 0 where
    pub same_size : w'.set.cur_size ≡ w.set.cur_size
    pub same_refresh : w'.set.last_size_refresh ≡ w.set.last_size_refresh
    pub same_force : w'.set.enable_force_delete ≡ w.set.enable_force_delete
    pub same_host : w'.set.dedicated_host ≡ w.set.dedicated_host
    pub same_sku : get_sku w' ≡ get_sku w
    pub same_strict : w'.config.strict_cache_updates ≡ w.config.strict_cache_updates
    pub same_deletions : w'.deletions ≡ w.deletions
    pub same_owner : (i : Text) → owner_of i w' ≡ owner_of i w
    pub same_batches : batches w'.sent ≡ batches w.sent

  pub IsLooking-refl : (w : World C) → IsLooking w w
  IsLooking-refl w = record {
    same_size = refl;
    same_refresh = refl;
    same_force = refl;
    same_host = refl;
    same_sku = refl;
    same_strict = refl;
    same_deletions = refl;
    same_owner = λ i. refl;
    same_batches = refl;
  }

  pub IsLooking-trans : (w w' w'' : World C) → IsLooking w w' → IsLooking w' w'' → IsLooking w w''
  IsLooking-trans w w' w'' h k = record {
    same_size = k.same_size ∙ h.same_size;
    same_refresh = k.same_refresh ∙ h.same_refresh;
    same_force = k.same_force ∙ h.same_force;
    same_host = k.same_host ∙ h.same_host;
    same_sku = k.same_sku ∙ h.same_sku;
    same_strict = k.same_strict ∙ h.same_strict;
    same_deletions = k.same_deletions ∙ h.same_deletions;
    same_owner = λ i. k.same_owner i ∙ h.same_owner i;
    same_batches = k.same_batches ∙ h.same_batches;
  }

  pub find_group-IsLooking : (name : Text) (w : World C) → IsLooking w (find_group name w).1
  unfolding find_group find_for_instance get_sku get_vmss_from_cache
  find_group-IsLooking name w = record {
    same_size = refl;
    same_refresh = refl;
    same_force = refl;
    same_host = refl;
    same_sku = ground arith;
    same_strict = refl;
    same_deletions = refl;
    same_owner = λ j. find_for_instance-find_for_instance name j w.config.vm_type w.cache;
    same_batches = refl;
  }

  pub verify_node_group-IsLooking :
      (i id : Text) (w : World C) → IsLooking w (verify_node_group i id w).1
  unfolding verify_node_group
  verify_node_group-IsLooking i id w =
      then_run-trans IsLooking w (find_group i w) _ IsLooking-trans (find_group-IsLooking i w)
        (λ found. ground (arith, IsLooking-refl (find_group i w).1))

module _ {C : Type 0} (client : Client C) where
  call_list_vms-IsLooking :
      (name : Text) (w : World C) → IsLooking w (call_list_vms client name w).1
  unfolding call_list_vms get_sku get_vmss_from_cache
  call_list_vms-IsLooking name w = ground arith

  get_scale_set_vms-IsLooking : (w : World C) → IsLooking w (get_scale_set_vms client w).1
  unfolding get_scale_set_vms
  get_scale_set_vms-IsLooking w = ground (arith, call_list_vms-IsLooking w.set.name w)

  get_flexible_scale_set_vms-IsLooking :
      (w : World C) → IsLooking w (get_flexible_scale_set_vms client w).1
  unfolding get_flexible_scale_set_vms call_list_flex get_sku get_vmss_from_cache
  get_flexible_scale_set_vms-IsLooking w = ground (arith, IsLooking-refl w)

  store_instances-IsLooking :
      (last : ℤ) (m : Outcome (List Instance)) (w : World C)
      → IsLooking w (store_instances client last m w).1
  unfolding store_instances get_sku get_vmss_from_cache
  store_instances-IsLooking last (ok is) w = ground arith
  store_instances-IsLooking last (err e) w = ground (arith, IsLooking-refl w)
  store_instances-IsLooking last panic w = IsLooking-refl w

  build_scale_set_cache_for_flex-IsLooking :
      (w : World C) → IsLooking w (build_scale_set_cache_for_flex client w).1
  unfolding build_scale_set_cache_for_flex
  build_scale_set_cache_for_flex-IsLooking w =
      then_run-trans IsLooking w (splayed_now client w, w) _ IsLooking-trans (IsLooking-refl w)
        (λ last.
          let r = get_flexible_scale_set_vms client w in
          IsLooking-trans w r.1 _ (get_flexible_scale_set_vms-IsLooking w)
            (store_instances-IsLooking last _ r.1))

  build_scale_set_cache_for_uniform-IsLooking :
      (w : World C) → IsLooking w (build_scale_set_cache_for_uniform client w).1
  unfolding build_scale_set_cache_for_uniform
  build_scale_set_cache_for_uniform-IsLooking w =
      then_run-trans IsLooking w (splayed_now client w, w) _ IsLooking-trans (IsLooking-refl w)
        (λ last.
          let r = get_scale_set_vms client w in
          IsLooking-trans w r.1 _ (get_scale_set_vms-IsLooking w)
            (store_instances-IsLooking last _ r.1))

  pub update_instance_cache-IsLooking :
      (w : World C) → IsLooking w (update_instance_cache client w).1
  unfolding update_instance_cache
  update_instance_cache-IsLooking w = ground (
    arith,
    IsLooking-refl w,
    build_scale_set_cache_for_flex-IsLooking w,
    build_scale_set_cache_for_uniform-IsLooking w,
  )

  pub validate_instance_cache-IsLooking :
      (w : World C) → IsLooking w (validate_instance_cache client w).1
  unfolding validate_instance_cache
  validate_instance_cache-IsLooking w =
      ground (arith, IsLooking-refl w, update_instance_cache-IsLooking w)

  pub check_deletion-IsLooking :
      (i : Text) (w : World C) → IsLooking w (check_deletion client i w).1
  unfolding check_deletion get_instance_by_provider_id
  check_deletion-IsLooking i w =
      then_run-trans IsLooking w (validate_instance_cache client w) _ IsLooking-trans
        (validate_instance_cache-IsLooking w) (λ u. IsLooking-refl _)

  pub select_instances-IsLooking :
      (id : Text) (is : List Text) (w : World C) → IsLooking w (select_instances client id is w).1
  unfolding select_instances
  select_instances-IsLooking id [] w = IsLooking-refl w
  select_instances-IsLooking id (i ∷ is) w =
      then_run-trans IsLooking w (verify_node_group i id w) _ IsLooking-trans
        (verify_node_group-IsLooking i id w)
        (λ u.
          let w₁ = (verify_node_group i id w).1 in
          then_run-trans IsLooking w₁ (check_deletion client i w₁) _ IsLooking-trans
            (check_deletion-IsLooking i w₁)
            (λ skip.
              let w₂ = (check_deletion client i w₁).1 in
              then_run-trans IsLooking w₂ (select_instances client id is w₂) _ IsLooking-trans
                (select_instances-IsLooking id is w₂) (λ rest. IsLooking-refl _)))

  -- What the update of one instance's status, and of its state in the manager's cache, leave.
  write_status-IsLooking :
      (i : Text) (s : InstanceStatus) (w : World C) → IsLooking w (write_status client i s w)
  unfolding get_sku get_vmss_from_cache
  write_status-IsLooking i s w = ground arith

  set_state-IsLooking :
      (i : Text) (w : World C)
      → IsLooking w (record w { cache = set_instance_state_by_provider_id i deleting w.cache })
  unfolding set_instance_state_by_provider_id get_sku get_vmss_from_cache
  set_state-IsLooking i w = record {
    same_size = refl;
    same_refresh = refl;
    same_force = refl;
    same_host = refl;
    same_sku = ground arith;
    same_strict = refl;
    same_deletions = refl;
    same_owner = λ j. find_for_instance-set_instance_state i j w.config.vm_type deleting w.cache;
    same_batches = refl;
  }

  status_after-IsLooking :
      (i : Text) (s : InstanceStatus) (w : World C) (r : Outcome (Unit {0}) × World C)
      → IsLooking w r.1
      → IsLooking w (status_after client i s r).1
  unfolding status_after
  status_after-IsLooking i s w (panic, w') k = k
  status_after-IsLooking i s w (ok u, w') k =
      IsLooking-trans w w' _ k (write_status-IsLooking i s w')
  status_after-IsLooking i s w (err e, w') k =
      IsLooking-trans w w' _ k (write_status-IsLooking i s w')

  set_instance_status-IsLooking :
      (i : Text) (s : InstanceStatus) (w : World C)
      → IsLooking w (set_instance_status_by_provider_id client i s w).1
  unfolding set_instance_status_by_provider_id
  set_instance_status-IsLooking i s w =
      status_after-IsLooking i s w (validate_instance_cache client w)
        (validate_instance_cache-IsLooking w)

  pub mark_deleting-IsLooking :
      (is : List Text) (w : World C) → IsLooking w (mark_deleting client is w).1
  unfolding mark_deleting
  mark_deleting-IsLooking [] w = IsLooking-refl w
  mark_deleting-IsLooking (i ∷ is) w =
      let w₁ = (set_instance_status_by_provider_id client i deleting_status w).1 in
      let w₂ = record w₁ { cache = set_instance_state_by_provider_id i deleting w₁.cache } in
      then_run-trans IsLooking w (set_instance_status_by_provider_id client i deleting_status w) _
        IsLooking-trans (set_instance_status-IsLooking i deleting_status w)
        (λ u. IsLooking-trans w₁ w₂ _ (set_state-IsLooking i w₁) (mark_deleting-IsLooking is w₂))
