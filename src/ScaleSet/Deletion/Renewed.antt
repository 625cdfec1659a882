-- ===== src/ScaleSet/Deletion/Renewed.antt =====
-- The instance cache of azure_scale_set.go across `getCurSize` and `Nodes`.
use cluster_autoscaler_provi.Base.Int.{ℤ, ◌≤ℤ◌}
use cluster_autoscaler_provi.Base.Text.{Text}
use cluster_autoscaler_provi.Base.{
  ℕ, suc, ◌≤◌, ◌<◌, ◌≡◌, ◌⊎◌, inl, inr, refl, Bool, true, false, Option, none, some, List, [], ◌∷◌,
  arith, if◌then◌else◌, Option-cases,
}
use cluster_autoscaler_provi.Errors.{
  Outcome, ok, err, panic, then_run-trans, Outcome-cases, Error, vmss_not_found, vmss_no_id,
  flex_disabled, orchestration_unknown,
}
use cluster_autoscaler_provi.ScaleSet.Instances.{
  nodes, list_instances, update_instance_cache, build_scale_set_cache_for_flex,
  build_scale_set_cache_for_uniform, store_instances, splayed_now, get_scale_set_vms,
  get_flexible_scale_set_vms, call_list_flex, call_list_vms, nodes_error,
}
use cluster_autoscaler_provi.ScaleSet.Size.{
  is_fresh, adopt_capacity, refresh_spot, read_size, get_cur_size,
}
use cluster_autoscaler_provi.ScaleSet.{
  Call, get_vmss, put, poll_put, list_flex_vms, list_vms, begin_delete, poll_delete, list_resources,
  is_spot, Client, World, get_vmss_from_cache, time_now, call_get, invalidate_instance_cache,
}
use cluster_autoscaler_provi.Types.{Vmss, OrchestrationMode, uniform, flexible, Instance}
use cluster_autoscaler_provi.Throttling.{is_azure_requests_throttled}
use cluster_autoscaler_provi.Base.Maps.{lookup}

-- The lists of a scale set's VMs among the calls.
abbrev pub lists : List Call → ℕ
lists [] = 0
lists (list_flex_vms id ∷ calls) = suc (lists calls)
lists (list_vms name ∷ calls) = suc (lists calls)
lists (begin_delete group ids force ∷ calls) = lists calls
lists (get_vmss name ∷ calls) = lists calls
lists (put name r ∷ calls) = lists calls
lists (poll_put poller ∷ calls) = lists calls
lists (poll_delete poller ∷ calls) = lists calls
lists (list_resources ∷ calls) = lists calls

-- The clock does not go back while Azure reads.
pub record IsForward {C : Type 0} (client : Client C) : Type 0 where
  pub in_get : (name : Text) (c : C) → client.now c ≤ℤ client.now (client.get name c).1
  pub in_listing : (c : C) → client.now c ≤ℤ client.now (client.listing c).1
  pub in_list_flex : (id : Text) (c : C) → client.now c ≤ℤ client.now (client.list_flex id c).1
  pub in_list_vms :
      (name : Text) (c : C) → client.now c ≤ℤ client.now (client.list_instance_views name c).1

module _ {C : Type 0} (client : Client C) where
  -- Whether the instances are used as they are.
  abbrev pub in_use : World C → Bool
  in_use w = is_fresh client w.set.last_instance_refresh w.set.instances_refresh_period w

  -- Across two states, instances that are not in use stay so, unless the VMs are listed.
  pub record IsRenewing (w w' : World C) : Type 0 where
    pub clock : time_now client w ≤ℤ time_now client w'
    pub growing : lists w.sent ≤ lists w'.sent
    pub same_period : w'.set.instances_refresh_period ≡ w.set.instances_refresh_period
    pub kept : (in_use w ≡ true) ⊎ ((in_use w' ≡ false) ⊎ (lists w.sent < lists w'.sent))

  pub IsRenewing-refl : (w : World C) → IsRenewing w w
  IsRenewing-refl w = ground arith

  pub IsRenewing-trans :
      (w w' w'' : World C) → IsRenewing w w' → IsRenewing w' w'' → IsRenewing w w''
  IsRenewing-trans w w' w'' h k =
      ground (
        arith, h.clock, k.clock, h.growing, k.growing, h.same_period, k.same_period, h.kept, k.kept,
      )

  adopt_capacity-IsRenewing : (v : Vmss) (w : World C) → IsRenewing w (adopt_capacity client v w).1
  unfolding adopt_capacity invalidate_instance_cache
  adopt_capacity-IsRenewing v w = ground arith

  pub either :
      {A : Type 0} (b : Bool) (x y : Outcome A × World C) (w : World C)
      → IsRenewing w x.1
      → IsRenewing w y.1
      → IsRenewing w (if b then x else y).1
  either true x y w h k = h
  either false x y w h k = k

  -- The VMs are listed between two states.
  pub record IsListed (w w' : World C) : Type 0 where
    pub later : time_now client w ≤ℤ time_now client w'
    pub another : lists w.sent < lists w'.sent
    pub one_period : w'.set.instances_refresh_period ≡ w.set.instances_refresh_period

  store_instances-IsListed :
      (last : ℤ) (m : Outcome (List Instance)) (w w' : World C)
      → IsListed w w'
      → IsListed w (store_instances client last m w').1
  unfolding store_instances
  store_instances-IsListed last (ok is) w w' k = record {
    later = k.later;
    another = k.another;
    one_period = k.one_period;
  }
  store_instances-IsListed last (err e) w w' k =
      elim (Option-cases (is_azure_requests_throttled client.parse_time (time_now client w') e)) [
        | inl h ↦ rw (h, store_instances) k
        | inr (n, h) ↦
            rw (h, store_instances)
              (record { later = k.later; another = k.another; one_period = k.one_period })
      ]
  store_instances-IsListed last panic w w' k = k

  store_instances-IsRenewing :
      (last : ℤ) (m : Outcome (List Instance)) (w w' : World C)
      → IsListed w w'
      → IsRenewing w (store_instances client last m w').1
  store_instances-IsRenewing last m w w' k =
      let l = store_instances-IsListed last m w w' k in
      record {
        clock = l.later;
        growing = let h = l.another in omega arith;
        same_period = l.one_period;
        kept = inr (inr l.another);
      }

  not_stored :
      (last : ℤ) (e : Error) (w : World C)
      → is_azure_requests_throttled client.parse_time (time_now client w) e ≡ none
      → IsRenewing w (store_instances client last (err e) w).1
  unfolding store_instances
  not_stored last e w h = rw (h, store_instances) (IsRenewing-refl w)

  module _ (forward : IsForward client) where
    refresh_spot-IsRenewing : (w : World C) → IsRenewing w (refresh_spot client w).1
    unfolding refresh_spot call_get adopt_capacity invalidate_instance_cache
    refresh_spot-IsRenewing w = ground (arith, forward.in_get w.set.name w.cloud)

    read_size-IsRenewing : (p : ℕ) (w : World C) → IsRenewing w (read_size client p w).1
    unfolding read_size
    read_size-IsRenewing p w =
        either {A = ℤ} _ (ok w.set.cur_size, w)
          (if is_spot (w.cache.heap p)
            then refresh_spot client w
            else adopt_capacity client (w.cache.heap p) w)
          w (IsRenewing-refl w)
          (either {A = ℤ} _ (refresh_spot client w) (adopt_capacity client (w.cache.heap p) w) w
            (refresh_spot-IsRenewing w) (adopt_capacity-IsRenewing (w.cache.heap p) w))

    get_cur_size-IsRenewing : (w : World C) → IsRenewing w (get_cur_size client w).1
    unfolding get_cur_size
    get_cur_size-IsRenewing w = elim (Outcome-cases (get_vmss_from_cache w)) [
      | inl (p, e) ↦ rw (e, get_cur_size) (read_size-IsRenewing p w)
      | inr e ↦
          let same : (get_cur_size client w).1 ≡ w = ground (arith, e) in
          rw same (IsRenewing-refl w)
    ]

    get_scale_set_vms-IsListed : (w : World C) → IsListed w (get_scale_set_vms client w).1
    unfolding get_scale_set_vms call_list_vms
    get_scale_set_vms-IsListed w = ground (arith, forward.in_list_vms w.set.name w.cloud)

    build_scale_set_cache_for_uniform-IsRenewing :
        (w : World C) → IsRenewing w (build_scale_set_cache_for_uniform client w).1
    unfolding build_scale_set_cache_for_uniform
    build_scale_set_cache_for_uniform-IsRenewing w =
        then_run-trans IsRenewing w (splayed_now client w, w) _ IsRenewing-trans (IsRenewing-refl w)
          (λ last. store_instances-IsRenewing last _ w _ (get_scale_set_vms-IsListed w))

    get_flexible_scale_set_vms-cases :
        (w : World C)
        → IsListed w (get_flexible_scale_set_vms client w).1
          ⊎ (((get_flexible_scale_set_vms client w).1 ≡ w)
              × ((get_flexible_scale_set_vms client w).0 ≡ err (vmss_not_found w.set.name)
                  ⊎ ((get_flexible_scale_set_vms client w).0 ≡ err vmss_no_id)))
    unfolding get_flexible_scale_set_vms call_list_flex get_vmss_from_cache
    get_flexible_scale_set_vms-cases w =
        elim (Option-cases (lookup w.set.name w.cache.scale_sets)) [
          | inl e ↦ inr (ground (arith, e), inl (ground (arith, e)))
          | inr (p, e) ↦ elim (Option-cases (w.cache.heap p).id) [
            | inl f ↦ inr (ground (arith, e, f), inr (ground (arith, e, f)))
            | inr (id, f) ↦ inl (ground (arith, e, f, forward.in_list_flex id w.cloud))
          ]
        ]

    build_scale_set_cache_for_flex-IsRenewing :
        (w : World C) → IsRenewing w (build_scale_set_cache_for_flex client w).1
    unfolding build_scale_set_cache_for_flex is_azure_requests_throttled
    build_scale_set_cache_for_flex-IsRenewing w =
        then_run-trans IsRenewing w (splayed_now client w, w) _ IsRenewing-trans (IsRenewing-refl w)
          (λ last. elim (get_flexible_scale_set_vms-cases w) [
            | inl listed ↦ store_instances-IsRenewing last _ w _ listed
            | inr (same, inl e) ↦ rw (e, same) (not_stored last (vmss_not_found w.set.name) w refl)
            | inr (same, inr e) ↦ rw (e, same) (not_stored last vmss_no_id w refl)
          ])

    update_instance_cache-IsRenewing :
        (w : World C) → IsRenewing w (update_instance_cache client w).1
    unfolding update_instance_cache
    update_instance_cache-IsRenewing w = elim (Outcome-cases (get_vmss_from_cache w)) [
      | inl (p, e) ↦ rw (e, update_instance_cache) (by_mode (w.cache.heap p).orchestration_mode)
      | inr e ↦
          let same : (update_instance_cache client w).1 ≡ w = ground (arith, e) in
          rw same (IsRenewing-refl w)
    ]
      where
        by_mode :
            (m : Option OrchestrationMode)
            → IsRenewing w
                (elim m as (λ x. Outcome (Unit {0}) × World C) [
                  | none ↦ (err orchestration_unknown, w)
                  | some flexible ↦
                      if w.config.enable_vmss_flex_nodes
                      then build_scale_set_cache_for_flex client w
                      else (err flex_disabled, w)
                  | some uniform ↦ build_scale_set_cache_for_uniform client w
                ]).1
        by_mode none = IsRenewing-refl w
        by_mode (some flexible) =
            either _ _ _ w (build_scale_set_cache_for_flex-IsRenewing w) (IsRenewing-refl w)
        by_mode (some uniform) = build_scale_set_cache_for_uniform-IsRenewing w

    list_instances-IsRenewing :
        (size : ℤ) (w : World C) → IsRenewing w (list_instances client size w).1
    unfolding list_instances
    list_instances-IsRenewing size w = either _ _ _ w (IsRenewing-refl w) (
        then_run-trans IsRenewing w (update_instance_cache client w) _ IsRenewing-trans
          (update_instance_cache-IsRenewing w) (λ u. IsRenewing-refl _))

    pub nodes-IsRenewing : (w : World C) → IsRenewing w (nodes client w).1
    unfolding nodes
    nodes-IsRenewing w =
        listed (get_cur_size client w).0 (get_cur_size client w).1 (get_cur_size-IsRenewing w)
      where
        listed :
            (m : Outcome ℤ) (w' : World C)
            → IsRenewing w w'
            → IsRenewing w
                (elim m as (λ x. Outcome (List Instance) × World C) [
                  | ok size ↦ list_instances client size w'
                  | err e ↦ (nodes_error client e, w')
                  | panic ↦ (panic, w')
                ]).1
        listed (ok size) w' k = IsRenewing-trans w w' _ k (list_instances-IsRenewing size w')
        listed (err e) w' k = k
        listed panic w' k = k
