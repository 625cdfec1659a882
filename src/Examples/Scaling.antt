-- ===== src/Examples/Scaling.antt =====
-- Runs of a scale set.
use cluster_autoscaler_provi.Base.Int.{pos}
use cluster_autoscaler_provi.Base.Maps.{lookup, insert}
use cluster_autoscaler_provi.Base.Text.{codes, text_eq}
use cluster_autoscaler_provi.Base.{ℕ, ◌≡◌, refl, true, false, Option, none, some, [], ◌∷◌, arith}
use cluster_autoscaler_provi.Cache.{update, set_scale_set}
use cluster_autoscaler_provi.Errors.{
  ApiError, response, other_error, api, Reply, answer, failure, ok, err,
}
use cluster_autoscaler_provi.Examples.Data.{id_a, pool_a, vmss_a, cache_a}
use cluster_autoscaler_provi.ScaleSet.Accepted.{grown, increase_size_accepted}
use cluster_autoscaler_provi.ScaleSet.Atomic.{atomic_increase_size-Sends}
use cluster_autoscaler_provi.ScaleSet.Bounds.{Sends, increase_size-Sends}
use cluster_autoscaler_provi.ScaleSet.Conflict.{Kept, create_or_update_instances_failed}
use cluster_autoscaler_provi.ScaleSet.Increase.{
  is_precondition_failed_error, build_scale_set_capacity_update, meets_target, settle_put,
  init_create_or_update, roll_back, finish_update, create_or_update_instances, increase_size,
  atomic_increase_size,
}
use cluster_autoscaler_provi.ScaleSet.Refresh.{get_cur_size-invalidated_spot}
use cluster_autoscaler_provi.ScaleSet.Size.{is_fresh, refresh_period, get_cur_size}
use cluster_autoscaler_provi.ScaleSet.Stale.{stale_etag-met, stale_etag-retried}
use cluster_autoscaler_provi.ScaleSet.{
  PutRequest, get_vmss, put, Client, World, get_vmss_from_cache, capacity_of, write_vmss, call_put,
  invalidate_last_size_refresh,
}
use cluster_autoscaler_provi.Status.{ScaleSetVm}
use cluster_autoscaler_provi.Cache.Fetch.{Listing}
use cluster_autoscaler_provi.Types.{Vmss, spot, other_vm_type}

program : Unit {0}
unfolding text_eq lookup insert get_vmss_from_cache write_vmss call_put is_precondition_failed_error
    build_scale_set_capacity_update meets_target settle_put init_create_or_update roll_back
    finish_update create_or_update_instances update set_scale_set
program = tt

abbrev pub vm_a : ScaleSetVm
vm_a = record { id = id_a; name = none; properties = none }

abbrev pub listing_a : Listing
listing_a = record {
  vmss_list = ok (vmss_a ∷ []);
  vm_list = ok [];
  has_agent_pool_client = false;
  agent_pools = ok [];
}

-- An Azure that answers a GET with one object, and a PUT with one reply.
abbrev pub azure : Vmss → Reply (Option ℕ) → Client (Unit {0})
azure v r = record {
  now = λ c. pos 1000;
  get = λ name c. (answer v, c);
  begin_create_or_update = λ name request c. (r, c);
  poll_until_done = λ poller c. (answer (some (codes "f")), c);
  is_not_found = λ e. false;
  list_flex = λ id c. (answer [], c);
  list_instance_views = λ name c. (answer (vm_a ∷ []), c);
  begin_delete_instances = λ group ids force c. (answer (some 8), c);
  poll_deleted = λ poller c. (answer tt, c);
  listing = λ c. (listing_a, c);
  intn = λ n c. pos 0;
  parse_time = λ s. none;
}

abbrev pub accepting : Client (Unit {0})
accepting = azure vmss_a (answer (some 7))

abbrev stale_error : ApiError
stale_error = response 412 (codes "stale") []

abbrev refusing : Client (Unit {0})
refusing = azure vmss_a (failure (other_error (codes "no")))

abbrev pub world_a : World (Unit {0})
world_a = record {
  cloud = tt;
  sent = [];
  pending = [];
  deletions = [];
  cache = cache_a;
  last_refresh = pos 0;
  auto_discovery_specs = [];
  explicitly_configured = [];
  config = record {
    enable_vmss_etag = true;
    strict_cache_updates = false;
    enable_vmss_flex_nodes = false;
    vm_type = other_vm_type [];
  };
  set = record {
    name = pool_a;
    min_size = pos 1;
    max_size = pos 5;
    enable_force_delete = false;
    dedicated_host = false;
    enable_fast_delete = false;
    enable_detailed_cse = false;
    cur_size = pos 2;
    size_refresh_period = pos 30;
    last_size_refresh = pos 990;
    get_vmss_size_refresh_period = pos 60;
    instance_cache = [];
    instances_refresh_period = pos 30;
    last_instance_refresh = pos 990;
    instances_refresh_jitter = pos 0;
  };
}

increase_size-Sends_example : Sends (pos 5) 2 world_a (increase_size accepting (pos 2) world_a).1
increase_size-Sends_example = increase_size-Sends accepting (pos 2) world_a tt

atomic_increase_size-Sends_example :
    Sends (pos 5) 2 world_a (atomic_increase_size accepting (pos 2) world_a).1
atomic_increase_size-Sends_example = atomic_increase_size-Sends accepting (pos 2) world_a tt

failed :
    (create_or_update_instances refusing 0 (pos 4) world_a).0 ≡ err (api (other_error (codes "no")))
unfolding program
failed = refl

create_or_update_instances_failed_example :
    Kept 0 world_a (create_or_update_instances refusing 0 (pos 4) world_a).1
create_or_update_instances_failed_example =
    create_or_update_instances_failed refusing 0 (pos 4) world_a (api (other_error (codes "no")))
      (omega arith) failed

is_stale : is_precondition_failed_error stale_error ≡ true
unfolding program
is_stale = refl

stale_etag-met_example :
    let r =
      finish_update accepting 9
        (some (pos 1))
        (pos 2)
        (settle_put accepting 9 (pos 2) (failure stale_error, world_a)) in
    (r.0 ≡ ok tt) × (r.1.set.cur_size ≡ pos 2) × (r.1.sent ≡ get_vmss pool_a ∷ [])
stale_etag-met_example =
    stale_etag-met accepting 9 (some (pos 1)) (pos 2) (pos 2) stale_error vmss_a tt world_a refl
      is_stale refl refl (omega arith) (λ e. absurd (omega (arith, e)))

abbrev request_a : PutRequest
request_a = record {
  location = vmss_a.location;
  sku_name = none;
  tier = none;
  capacity = pos 4;
  extended_location = none;
  if_match = vmss_a.etag;
}

built : build_scale_set_capacity_update vmss_a (pos 4) vmss_a.etag ≡ some request_a
unfolding program
built = refl

below : meets_target vmss_a (pos 4) ≡ false
unfolding program
below = refl

stale_etag-retried_example :
    ((settle_put accepting 0 (pos 4) (failure stale_error, world_a)).1.sent
      ≡ put pool_a request_a ∷ get_vmss pool_a ∷ [])
    × (request_a.if_match ≡ vmss_a.etag)
    × (request_a.capacity ≡ pos 4)
stale_etag-retried_example =
    stale_etag-retried accepting 0 (pos 4) stale_error vmss_a tt request_a world_a refl is_stale
      refl built below

cached : get_vmss_from_cache world_a ≡ ok 0
unfolding program
cached = refl

abbrev spot_world : World (Unit {0})
spot_world = record world_a {
  cache = record cache_a { heap = λ p. record vmss_a { priority = some spot } };
}

spot_cached : get_vmss_from_cache spot_world ≡ ok 0
unfolding program
spot_cached = refl

get_cur_size-invalidated_spot_example :
    let w = invalidate_last_size_refresh accepting spot_world in
    get_cur_size accepting w ≡ (ok (pos 2), w)
get_cur_size-invalidated_spot_example =
    get_cur_size-invalidated_spot accepting spot_world 0 spot_cached refl (omega arith)

abbrev request_b : PutRequest
request_b = record request_a { if_match = vmss_a.etag }

built_b :
    build_scale_set_capacity_update (grown 0 (pos 4) world_a) (pos 4) (some (codes "e"))
    ≡ some request_b
unfolding program
built_b = refl

fresh : is_fresh accepting (pos 990) (refresh_period accepting vmss_a world_a) world_a ≡ true
unfolding program refresh_period
fresh = refl

increase_size_accepted_example :
    let r = increase_size accepting (pos 2) world_a in
    (r.0 ≡ ok tt)
    × (r.1.set.cur_size ≡ pos 4)
    × (r.1.sent ≡ put pool_a request_b ∷ [])
    × (r.1.pending ≡ (7, 0) ∷ [])
    × (capacity_of (r.1.cache.heap 0) ≡ some (pos 4))
increase_size_accepted_example =
    increase_size_accepted accepting (pos 2) 0
      (record { sku_name = none; tier = none; capacity = some (pos 2) }) request_b 7 tt world_a
      cached refl fresh refl refl (omega arith) built_b refl
