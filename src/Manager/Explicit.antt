-- ===== src/Manager/Explicit.antt =====
-- The node groups that are configured by name: `fetchExplicitNodeGroups` and
-- `buildNodeGroupFromSpec` of azure_manager.go, with `NewVMPool` of azure_vms_pool.go; and
-- `GetScaleSetOptions`.
use cluster_autoscaler_provi.Base.Int.{ℤ, negsuc}
use cluster_autoscaler_provi.Base.Maps.{lookup}
use cluster_autoscaler_provi.Base.Text.{Text, split, eq_fold}
use cluster_autoscaler_provi.Base.{
  Bool, true, false, ◌||◌, Option, none, some, List, [], ◌∷◌, if◌then◌else◌, is_empty, deref,
}
use cluster_autoscaler_provi.Cache.{register}
use cluster_autoscaler_provi.Errors.{
  Outcome, ok, err, panic, then_run, group_spec_invalid, client_missing, vm_type_unsupported,
}
use cluster_autoscaler_provi.Manager.{Manager, parse_sku_and_vms_agentpool_name, invalidate}
use cluster_autoscaler_provi.Template.{get_option}
use cluster_autoscaler_provi.Types.{
  NodeGroup, vm_pool, scale_set, VmType, vmss_type, standard_type, other_vm_type,
}

-- dynamic.NodeGroupSpec.
pub record Spec : Type 0 where
  pub name : Text
  pub min_size : ℤ
  pub max_size : ℤ

-- What is not modelled here: `dynamic.SpecFromString`, by the spec and whether a group may scale to
-- zero; the text of consts.VMTypeVMSS; whether there is an agent pools client; and `NewAgentPool`,
-- which reads a template from Azure.
pub record Library : Type 0 where
  pub spec_from_string : Text → Bool → Option Spec
  pub vm_type_vmss : Text
  pub has_agent_pool_client : Bool
  pub new_agent_pool : Spec → Outcome NodeGroup

module _ (lib : Library) where
  -- `strings.EqualFold(VMType, VMTypeVMSS)`.
  unfoldable pub scale_to_zero_supported : VmType → Bool
  unfolding eq_fold
  scale_to_zero_supported vmss_type = true
  scale_to_zero_supported standard_type = false
  scale_to_zero_supported (other_vm_type t) = eq_fold t lib.vm_type_vmss

  abbrev pub group_of_spec : Spec → NodeGroup
  group_of_spec s = record {
    kind = scale_set;
    id = s.name;
    min_size = s.min_size;
    max_size = s.max_size;
    cur_size = negsuc 0;
    dedicated_host = false;
  }

  unfoldable pub new_vm_pool : Spec → Outcome NodeGroup
  new_vm_pool s =
      if lib.has_agent_pool_client
      then ok (record (group_of_spec s) { kind = vm_pool })
      else err client_missing

  -- By the VM type, where the name is not that of a VMs pool.
  unfoldable pub group_of_type : VmType → Spec → Outcome NodeGroup
  group_of_type standard_type s = lib.new_agent_pool s
  group_of_type vmss_type s = ok (group_of_spec s)
  group_of_type (other_vm_type t) s = err (vm_type_unsupported t)

  unfoldable pub build_node_group_from_spec : Text → Manager → Outcome NodeGroup
  unfolding scale_to_zero_supported new_vm_pool group_of_type parse_sku_and_vms_agentpool_name split
  build_node_group_from_spec spec m =
      elim (lib.spec_from_string spec (scale_to_zero_supported m.vm_type)) [
        | none ↦ err group_spec_invalid
        | some s ↦ elim (parse_sku_and_vms_agentpool_name (split b'/' s.name) m.cache) [
          | some names ↦ new_vm_pool s
          | none ↦ group_of_type m.vm_type s
        ]
      ]

  -- One registration, and the mark that the group is configured.
  unfoldable pub register_explicit : NodeGroup → Manager → Bool × Manager
  unfolding register
  register_explicit g m =
      let r = register g m.cache in
      (r.1, record m { cache = r.0; explicitly_configured = g.id ∷ m.explicitly_configured })

  -- The loop, which stops at the first error: whether a group changed.
  unfoldable pub register_specs : List Text → Manager → Outcome Bool × Manager
  unfolding build_node_group_from_spec register_explicit
  register_specs [] m = (ok false, m)
  register_specs (spec ∷ specs) m = elim (build_node_group_from_spec spec m) [
    | err e ↦ (err group_spec_invalid, m)
    | panic ↦ (panic, m)
    | ok g ↦
        (let r = register_explicit g m in
          then_run (register_specs specs r.1) (λ changed m'. (ok (r.0 || changed), m')))
  ]

  unfoldable pub fetch_explicit_node_groups : ℤ → List Text → Manager → Outcome (Unit {0}) × Manager
  unfolding register_specs invalidate
  fetch_explicit_node_groups now specs m =
      then_run (register_specs specs m)
        (λ changed m'. (ok tt, if changed then invalidate now m' else m'))

-- The options of config.NodeGroupAutoscalingOptions that tags override, for floating-point numbers
-- of type F and durations in nanoseconds.
pub record AutoscalingOptions (F : Type 0) : Type 0 where
  pub scale_down_utilization_threshold : F
  pub scale_down_gpu_utilization_threshold : F
  pub scale_down_unneeded_time : ℤ
  pub scale_down_unready_time : ℤ

-- The keys of those options, `strconv.ParseFloat` and `time.ParseDuration`.
pub record OptionKeys (F : Type 0) : Type 0 where
  pub utilization_threshold_key : Text
  pub gpu_utilization_threshold_key : Text
  pub unneeded_time_key : Text
  pub unready_time_key : Text
  pub parse_float : Text → Option F
  pub parse_duration : Text → Option ℤ

-- `GetScaleSetOptions`: an option that is not there, or that does not parse, keeps the default.
unfoldable pub get_scale_set_options :
    {F : Type 0} → OptionKeys F → Text → AutoscalingOptions F → Manager → AutoscalingOptions F
unfolding get_option lookup
get_scale_set_options keys name defaults m =
    let options = deref (lookup name m.cache.autoscaling_options) [] in
    if is_empty options then defaults else record {
      scale_down_utilization_threshold =
          deref (get_option keys.parse_float options keys.utilization_threshold_key)
            defaults.scale_down_utilization_threshold;
      scale_down_gpu_utilization_threshold =
          deref (get_option keys.parse_float options keys.gpu_utilization_threshold_key)
            defaults.scale_down_gpu_utilization_threshold;
      scale_down_unneeded_time =
          deref (get_option keys.parse_duration options keys.unneeded_time_key)
            defaults.scale_down_unneeded_time;
      scale_down_unready_time =
          deref (get_option keys.parse_duration options keys.unready_time_key)
            defaults.scale_down_unready_time;
    }
