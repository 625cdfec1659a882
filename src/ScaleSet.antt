-- ===== src/ScaleSet.antt =====
-- pkg/cloudprovider/azure/azure_scale_set.go: the state that a scale set's methods work on, and the
-- Azure clients that they call. The files below this one hold the methods and their properties.
pub mod Size
pub mod Instances
pub mod Deletion
pub mod Increase
pub mod Refresh
pub mod Reading
pub mod Bounds
pub mod Atomic
pub mod Accepted
pub mod Conflict
pub mod Stale
pub mod Templates
use cluster_autoscaler_provi.Autodiscovery.{LabelAutoDiscoveryConfig}
use cluster_autoscaler_provi.Base.Int.{ℤ, pos, ◌+ℤ◌, ◌-ℤ◌}
use cluster_autoscaler_provi.Base.Maps.{lookup}
use cluster_autoscaler_provi.Base.Text.{Text}
use cluster_autoscaler_provi.Base.{
  ℕ, Bool, true, false, Option, none, some, List, [], ◌∷◌, if◌then◌else◌,
}
use cluster_autoscaler_provi.Cache.Fetch.{Listing}
use cluster_autoscaler_provi.Cache.{AzureCache, update}
use cluster_autoscaler_provi.Errors.{
  ApiError, Reply, answer, failure, Outcome, ok, err, panic, vmss_not_found,
}
use cluster_autoscaler_provi.Status.{ScaleSetVm}
use cluster_autoscaler_provi.Types.{Vmss, Vm, VmType, Sku, Priority, spot, regular, Instance}

-- The flags of `Config` that the methods read.
pub record Config : Type 0 where
  pub enable_vmss_etag : Bool
  pub strict_cache_updates : Bool
  pub enable_vmss_flex_nodes : Bool
  pub vm_type : VmType

-- `ScaleSet` with its `InstanceCache`. Times and durations are in nanoseconds.
pub record ScaleSet : Type 0 where
  pub name : Text
  pub min_size : ℤ
  pub max_size : ℤ
  pub enable_force_delete : Bool
  pub dedicated_host : Bool
  pub enable_fast_delete : Bool
  pub enable_detailed_cse : Bool
  pub cur_size : ℤ
  pub size_refresh_period : ℤ
  pub last_size_refresh : ℤ
  pub get_vmss_size_refresh_period : ℤ
  pub instance_cache : List Instance
  pub instances_refresh_period : ℤ
  pub last_instance_refresh : ℤ
  pub instances_refresh_jitter : ℤ

-- The sparse VMSS of a capacity PUT, with its If-Match.
pub record PutRequest : Type 0 where
  pub location : Option Text
  pub sku_name : Option Text
  pub tier : Option Text
  pub capacity : ℤ
  pub extended_location : Option Text
  pub if_match : Option Text

-- A call that the code sends to Azure.
pub data Call : Type 0 where
  get_vmss : Text → Call
  put : Text → PutRequest → Call
  poll_put : ℕ → Call
  list_flex_vms : Text → Call
  list_vms : Text → Call
  begin_delete : Text → List Text → Bool → Call
  poll_delete : ℕ → Call
  list_resources : Call

-- The Azure SDK, which is not part of the repository, over a state of its own that it may change in
-- any way: the clock, VMSS.Get, VMSS.BeginCreateOrUpdate (which gives a poller, or nil) and
-- PollUntilDone (which gives the new ETag, or nil), and `azerrors.IsNotFoundErr`; then the lists of a
-- scale set's VMs, BeginDeleteInstances with ForceDeletion and its PollUntilDone, the lists of one
-- refresh of the cache, `Intn` for a jitter, and `http.ParseTime`.
pub record Client (C : Type 0) : Type 0 where
  pub now : C → ℤ
  pub get : Text → C → Reply Vmss × C
  pub begin_create_or_update : Text → PutRequest → C → Reply (Option ℕ) × C
  pub poll_until_done : ℕ → C → Reply (Option Text) × C
  pub is_not_found : ApiError → Bool
  pub list_flex : Text → C → Reply (List Vm) × C
  pub list_instance_views : Text → C → Reply (List ScaleSetVm) × C
  pub begin_delete_instances : Text → List Text → Bool → C → Reply (Option ℕ) × C
  pub poll_deleted : ℕ → C → Reply (Unit {0}) × C
  pub listing : C → Listing × C
  pub intn : ℤ → C → ℤ
  pub parse_time : Text → Option ℤ

-- What a method of one scale set can read and write: the scale set, the manager's cache and the
-- time of its last refresh, Azure, the calls sent to Azure so far (the latest first), the
-- updates and the deletions that a goroutine still waits for (a poller, and the object to update or
-- the identifiers), and of the manager what its refresh reads besides.
pub record World (C : Type 0) : Type 0 where
  pub cloud : C
  pub sent : List Call
  pub pending : List (ℕ × ℕ)
  pub deletions : List (ℕ × List Text)
  pub cache : AzureCache
  pub last_refresh : ℤ
  pub config : Config
  pub auto_discovery_specs : List LabelAutoDiscoveryConfig
  pub explicitly_configured : List Text
  pub set : ScaleSet

module _ {C : Type 0} where
  -- `getVMSSFromCache`: the address of the live object.
  unfoldable pub get_vmss_from_cache : World C → Outcome ℕ
  get_vmss_from_cache w = elim (lookup w.set.name w.cache.scale_sets) [
    | none ↦ err (vmss_not_found w.set.name)
    | some p ↦ ok p
  ]

  -- A write through a pointer to a VMSS.
  unfoldable pub write_vmss : ℕ → Vmss → World C → World C
  write_vmss p v w = record w { cache = record w.cache { heap = update w.cache.heap p v } }

  module _ (api : Client C) where
    abbrev pub time_now : World C → ℤ
    time_now w = api.now w.cloud

    unfoldable pub call_get : Text → World C → Reply Vmss × World C
    call_get name w =
        let r = api.get name w.cloud in
        (r.0, record w { cloud = r.1; sent = get_vmss name ∷ w.sent })

    unfoldable pub call_put : Text → PutRequest → World C → Reply (Option ℕ) × World C
    call_put name req w =
        let r = api.begin_create_or_update name req w.cloud in
        (r.0, record w { cloud = r.1; sent = put name req ∷ w.sent })

    unfoldable pub call_poll : ℕ → World C → Reply (Option Text) × World C
    call_poll poller w =
        let r = api.poll_until_done poller w.cloud in
        (r.0, record w { cloud = r.1; sent = poll_put poller ∷ w.sent })

    -- `invalidateInstanceCache`.
    unfoldable pub invalidate_instance_cache : World C → World C
    invalidate_instance_cache w = record w {
      set = record w.set { last_instance_refresh = time_now w -ℤ w.set.instances_refresh_period };
    }

    -- `invalidateLastSizeRefresh`, with or without the lock.
    unfoldable pub invalidate_last_size_refresh : World C → World C
    invalidate_last_size_refresh w = record w {
      set = record w.set { last_size_refresh = time_now w -ℤ w.set.size_refresh_period };
    }

    -- `AzureManager.invalidateCache`.
    unfoldable pub invalidate_cache : World C → World C
    invalidate_cache w = record w { last_refresh = time_now w -ℤ w.cache.refresh_interval }

-- `*vmss.SKU.Capacity`: none where that is a nil dereference.
abbrev pub capacity_of : Vmss → Option ℤ
capacity_of v = elim v.sku [ none ↦ none | some s ↦ s.capacity ]

-- `vmss.SKU.Capacity = &n`; a nil SKU is left alone, where the source would panic.
abbrev pub with_capacity : Option ℤ → Vmss → Vmss
with_capacity n v = elim v.sku [
  | none ↦ v
  | some s ↦ record v { sku = some (record s { capacity = n }) }
]

abbrev pub is_spot_priority : Option Priority → Bool
is_spot_priority none = false
is_spot_priority (some spot) = true
is_spot_priority (some regular) = false

-- `isSpot`.
abbrev pub is_spot : Vmss → Bool
is_spot v = is_spot_priority v.priority
