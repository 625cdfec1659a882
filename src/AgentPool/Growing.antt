-- ===== src/AgentPool/Growing.antt =====
-- How an agent pool changes its size: `IncreaseSize`, `DecreaseTargetSize` and `Nodes` of
-- azure_agent_pool.go.
use cluster_autoscaler_provi.AgentPool.{
  Client, World, get_vms_from_cache, get_vm_indexes, invalidate_cache, call_put, lower_id,
  delete_outdated_deployments,
}
use cluster_autoscaler_provi.Base.Int.{ℤ, pos, negsuc, ltb_ℤ, leb_ℤ, eqb_ℤ, add64, sub64}
use cluster_autoscaler_provi.Base.Maps.{insert}
use cluster_autoscaler_provi.Base.Text.{Text, codes}
use cluster_autoscaler_provi.Base.{
  false, Option, none, some, List, [], ◌∷◌, ◌++◌, if◌then◌else◌, length, is_empty,
}
use cluster_autoscaler_provi.Errors.{
  ApiError, api, on_reply, Outcome, ok, err, panic, ◌>>=◌, size_uninitialized, size_not_positive,
  size_too_large, delete_existing,
}
use cluster_autoscaler_provi.Status.{
  instance_status_from_provisioning_state_and_power_state, vm_power_state_running,
}
use cluster_autoscaler_provi.Types.{Vm, VmProperties, Instance}

-- `indexes[len(indexes)-1]`: none where there is no index, which panics.
abbrev pub highest_index : List ℤ → Option ℤ
highest_index [] = none
highest_index (n ∷ []) = some n
highest_index (n ∷ m ∷ ms) = highest_index (m ∷ ms)

-- `countForTemplate`, from the expected size, the highest index and the current size.
unfoldable pub count_for_template : ℤ → ℤ → ℤ → ℤ
count_for_template expected highest size =
    if eqb_ℤ highest (pos 0) then expected else add64 expected (sub64 (add64 highest (pos 1)) size)

-- The parameters of the deployment.
unfoldable pub scale_parameters : Text → ℤ → ℤ → List (Text × ℤ) → List (Text × ℤ)
scale_parameters name count offset parameters =
    insert (name ++ codes "Offset") offset (insert (name ++ codes "Count") count parameters)

abbrev pub state_of : Option VmProperties → Option Text
state_of none = none
state_of (some props) = props.provisioning_state

-- The loop of `Nodes`; a nil identifier panics.
unfoldable pub list_nodes : List Vm → Outcome (List Instance)
unfolding lower_id
list_nodes [] = ok []
list_nodes (vm ∷ vms) = elim vm.id [
  | none ↦ panic
  | some id ↦
      if is_empty id
      then list_nodes vms
      else (lower_id (some id) >>= (λ resource_id. list_nodes vms >>= (λ rest. ok (
          record {
            id = resource_id;
            status =
                instance_status_from_provisioning_state_and_power_state (state_of vm.properties)
                  vm_power_state_running false;
          }
          ∷ rest))))
]

module _ {C : Type 0} where
  unfoldable pub nodes : World C → Outcome (List Instance)
  nodes w = get_vms_from_cache w >>= list_nodes

  -- `DecreaseTargetSize`; the clock gives the time of the refresh.
  unfoldable pub decrease_target_size : Client C → ℤ → World C → Outcome (Unit {0}) × World C
  decrease_target_size client delta w = elim (get_vms_from_cache w) [
    | err e ↦ (err e, w)
    | panic ↦ (panic, w)
    | ok vms ↦
        let n = add64 w.pool.cur_size delta in
        if ltb_ℤ n (pos (length vms))
        then (err (delete_existing w.pool.cur_size delta (length vms)), w)
        else (
          ok tt,
          record w { pool = record w.pool { cur_size = n; last_refresh = client.now w.cloud } },
        )
  ]

module _ {C : Type 0} (client : Client C) where
  -- The end of `IncreaseSize`, where the deployment was accepted.
  unfoldable pub publish : ℤ → World C → World C
  publish n w =
      invalidate_cache client
        (record w { pool = record w.pool { cur_size = n; last_refresh = client.now w.cloud } })

  -- The deployment of `IncreaseSize`, from the highest index, the size and the expected size.
  unfoldable pub deploy : ℤ → ℤ → ℤ → World C → Outcome (Unit {0}) × World C
  deploy highest size expected w =
      let parameters =
        scale_parameters w.pool.name (count_for_template expected highest size)
          (add64 highest (pos 1)) w.pool.parameters in
      let w' = record w { pool = record w.pool { parameters = parameters } } in
      on_reply
        (call_put client (codes "cluster-autoscaler-" ++ client.random_name w.cloud) parameters w')
        (λ _ w₁. (ok tt, publish expected w₁)) (λ e w₁. (err (api e), w₁))

  -- `IncreaseSize` after the cleanup.
  unfoldable pub grow : ℤ → World C → Outcome (Unit {0}) × World C
  grow delta w = elim (get_vm_indexes w) [
    | err e ↦ (err e, w)
    | panic ↦ (panic, w)
    | ok indexes ↦
        let size = pos (length indexes.0) in
        let expected = add64 size delta in
        if ltb_ℤ w.pool.max_size expected
        then (err (size_too_large expected w.pool.max_size), w)
        else elim (highest_index indexes.0) [
          | none ↦ (panic, w)
          | some highest ↦ deploy highest size expected w
        ]
  ]

  -- The cleanup's errors are only logged, but for a panic.
  unfoldable pub after_cleanup :
      ℤ → Outcome (List ApiError) × World C → Outcome (Unit {0}) × World C
  after_cleanup delta (panic, w) = (panic, w)
  after_cleanup delta (ok es, w) = grow delta (invalidate_cache client w)
  after_cleanup delta (err e, w) = grow delta (invalidate_cache client w)

  unfoldable pub increase_size : ℤ → World C → Outcome (Unit {0}) × World C
  increase_size delta w =
      if eqb_ℤ w.pool.cur_size (negsuc 0)
      then (err size_uninitialized, w)
      else if leb_ℤ delta (pos 0)
      then (err size_not_positive, w)
      else after_cleanup delta (delete_outdated_deployments client w)
