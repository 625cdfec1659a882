-- ===== src/Template/Build.antt =====
-- The template of a node, from a scale set or a VMs pool, and the node built from it:
-- azure_template.go, and azure_instance.go for the size of its VMs.
use cluster_autoscaler_provi.Base.Int.{ℤ, pos, int64}
use cluster_autoscaler_provi.Base.Maps.{insert, lookup}
use cluster_autoscaler_provi.Base.Text.{Text, codes, text_eq, to_lower}
use cluster_autoscaler_provi.Base.{
  Bool, Option, none, some, List, [], ◌∷◌, ◌++◌, if◌then◌else◌, is_empty, deref,
}
use cluster_autoscaler_provi.Cache.{find_entry}
use cluster_autoscaler_provi.Errors.{
  outcome_of, sku_missing, location_missing, properties_missing, template_missing,
  instance_type_unsupported, api, answer, failure, Outcome, ok, err, panic, ◌>>=◌,
}
use cluster_autoscaler_provi.Template.Gpu.{is_nvidia_enabled_sku}
use cluster_autoscaler_provi.Template.{
  Labels, extract_labels_from_tags, extract_taints_from_tags, extract_taints_from_spec_string,
  extract_allocatable_resources, is_np_series,
}
use cluster_autoscaler_provi.Throttling.{times}
use cluster_autoscaler_provi.Types.{Vmss, TemplateDisk, AksPool}
use cluster_autoscaler_provi.Template.Nodes.{
  VmPoolNodeTemplate, VmssNodeTemplate, of_vmss, of_vm_pool, NodeTemplate, InstanceType, Node,
  Library, zones_of, taint_texts, join_commas, with_spec_labels, add_labels, remove_promo,
  set_labels, label,
}

module _ {Q S : Type 0} (lib : Library Q S) where
  unfoldable pub build_node_template_from_vmss : Vmss → Labels → Text → Outcome NodeTemplate
  unfolding zones_of
  build_node_template_from_vmss v input_labels input_taints =
      let sku_name : Option Text = elim v.sku [ none ↦ none | some s ↦ s.sku_name ] in
      elim sku_name [
        | none ↦ err (sku_missing v.name)
        | some name ↦ elim v.location [
          | none ↦ err (location_missing v.name)
          | some location ↦ ok (record {
            sku_name = name;
            architecture = [];
            instance_os = if v.windows_configuration then codes "windows" else lib.default_os;
            location = location;
            zones = zones_of v.zones;
            pool = some (
                of_vmss (record {
                  input_labels = input_labels;
                  input_taints = input_taints;
                  tags = v.tags;
                  os_disk = v.template_disk;
                }));
          })
        ]
      ]

  unfoldable pub build_node_template_from_vm_pool :
      AksPool → Text → Text → Labels → Text → Outcome NodeTemplate
  unfolding zones_of taint_texts join_commas with_spec_labels extract_taints_from_spec_string
  build_node_template_from_vm_pool ap location sku_name labels_from_spec taints_from_spec =
      elim ap.properties [
        | none ↦ err (properties_missing (deref ap.name []))
        | some props ↦
            (let from_spec = if is_empty taints_from_spec then [] else taints_from_spec ∷ [] in
              ok (record {
                sku_name = sku_name;
                architecture = [];
                instance_os = elim props.os_type [ none ↦ [] | some t ↦ to_lower t ];
                location = location;
                zones = zones_of props.availability_zones;
                pool = some (
                    of_vm_pool (record {
                      agent_pool_name = deref ap.name [];
                      taints =
                          extract_taints_from_spec_string
                            (join_commas (taint_texts props.node_taints ++ from_spec));
                      labels = with_spec_labels props.node_labels labels_from_spec;
                      os_disk_type = props.os_disk_type;
                    }));
              }))
      ]

  -- `GetInstanceTypeStatically`.
  unfoldable pub get_instance_type_statically : Text → Outcome InstanceType
  unfolding find_entry remove_promo text_eq
  get_instance_type_statically sku_name = elim (find_entry sku_name lib.instance_types) [
    | some entry ↦ ok entry.1
    | none ↦
        (let standard = remove_promo 0 sku_name in
          if text_eq standard sku_name
          then err (instance_type_unsupported sku_name)
          else elim (find_entry standard lib.instance_types) [
            | some entry ↦ ok entry.1
            | none ↦ err (instance_type_unsupported sku_name)
          ])
  ]

  -- The SKU, or that of the standard type for a promo type.
  unfoldable pub find_sku : Text → Text → Outcome S
  unfolding remove_promo text_eq
  find_sku sku_name location = elim (lib.sku_at sku_name location) [
    | answer s ↦ ok s
    | failure e ↦
        (let standard = remove_promo 0 sku_name in
          if text_eq standard sku_name
          then err (instance_type_unsupported sku_name)
          else elim (lib.sku_at standard location) [
            | answer s ↦ ok s
            | failure e ↦ err (instance_type_unsupported sku_name)
          ])
  ]

  unfoldable pub get_gpu_from_sku : S → Outcome ℤ
  get_gpu_from_sku s = elim (lib.gpus s) [
    | answer n ↦ ok n
    | failure e ↦ if lib.is_missing e then ok (pos 0) else err (api e)
  ]

  -- `GetInstanceTypeDynamically`.
  unfoldable pub get_instance_type_dynamically : Text → Text → Outcome InstanceType
  unfolding text_eq
  get_instance_type_dynamically sku_name location = find_sku sku_name location >>= (λ s.
      outcome_of (lib.vcpu s) >>= (λ vcpu. get_gpu_from_sku s >>= (λ gpu.
        outcome_of (lib.memory_gb s) >>= (λ gb. outcome_of (lib.cpu_architecture s) >>= (λ arch.
          ok (record {
            vcpu = vcpu;
            memory_mb = int64 (times 1024 gb);
            gpu = gpu;
            architecture =
                if text_eq (to_lower arch) (codes "arm64") then codes "arm64" else lib.default_arch;
          }))))))

  -- The size of the template's VMs: an error of the SKU API falls back on the table.
  unfoldable pub instance_type : Bool → NodeTemplate → Outcome InstanceType
  instance_type dynamic t =
      if dynamic
      then elim (get_instance_type_dynamically t.sku_name t.location) [
        | ok i ↦ ok i
        | err e ↦ get_instance_type_statically t.sku_name
        | panic ↦ panic
      ]
      else get_instance_type_statically t.sku_name

  -- `buildGenericLabels`, with the failure domain that is picked at random among the zones, if there
  -- are any.
  unfoldable pub build_generic_labels : NodeTemplate → Option Text → Text → Labels
  unfolding set_labels
  build_generic_labels t zone node_name =
      let region = to_lower t.location in
      let domain : Text = elim zone [ none ↦ codes "0" | some z ↦ region ++ (b'-' ∷ z) ] in
      let topology : Text = elim zone [ none ↦ [] | some z ↦ domain ] in
      set_labels
        ((lib.label_arch, t.architecture)
          ∷ (lib.label_arch_stable, t.architecture)
          ∷ (lib.label_os, t.instance_os)
          ∷ (lib.label_os_stable, t.instance_os)
          ∷ (lib.label_instance_type, t.sku_name)
          ∷ (lib.label_instance_type_stable, t.sku_name)
          ∷ (lib.label_zone_region, region)
          ∷ (lib.label_topology_region, region)
          ∷ (lib.label_zone_failure_domain, domain)
          ∷ (lib.label_topology_zone, domain)
          ∷ (codes "topology.disk.csi.azure.com/zone", topology)
          ∷ (lib.label_hostname, node_name)
          ∷ [])
        []

  -- The labels of a pool's name, from the value of its tag.
  unfoldable pub predict_pool : Text → Labels → Labels
  unfolding set_labels
  predict_pool value labels =
      if is_empty value
      then labels
      else set_labels
          ((codes "agentpool", value) ∷ (codes "kubernetes.azure.com/agentpool", value) ∷ []) labels

  unfoldable pub predict_storage : Option TemplateDisk → Labels → Labels
  unfolding set_labels
  predict_storage none labels = labels
  predict_storage (some disk) labels =
      let profile = if disk.diff_disk_local then codes "ephemeral" else codes "managed" in
      let labels' =
        set_labels
          ((codes "storageprofile", profile)
            ∷ (codes "kubernetes.azure.com/storageprofile", profile)
            ∷ [])
          labels in
      elim disk.storage_account_type [
        | none ↦ labels'
        | some t ↦
            set_labels
              ((codes "storagetier", t) ∷ (codes "kubernetes.azure.com/storagetier", t) ∷ [])
              labels'
      ]

  unfoldable pub predict_gpu : Text → Labels → Labels
  unfolding set_labels is_nvidia_enabled_sku
  predict_gpu sku_name labels =
      if is_nvidia_enabled_sku sku_name
      then set_labels
          ((codes "kubernetes.azure.com/accelerator", codes "nvidia")
            ∷ (codes "accelerator", codes "nvidia")
            ∷ [])
          labels
      else labels

  -- The prediction of the labels that AKS adds, from the node's labels so far.
  unfoldable pub predict_labels : NodeTemplate → VmssNodeTemplate → Labels → Labels → Labels
  unfolding predict_pool predict_storage predict_gpu lookup
  predict_labels t v node_labels labels = predict_gpu t.sku_name (
      predict_storage v.os_disk (
        predict_pool (label (codes "aks-managed-poolName") node_labels)
          (predict_pool (label (codes "poolName") node_labels) labels)))

  -- The size of the OS disk as ephemeral storage.
  unfoldable pub add_storage : Option TemplateDisk → List (Text × Q) → List (Text × Q)
  unfolding insert
  add_storage none capacity = capacity
  add_storage (some disk) capacity = elim disk.disk_size_gb [
    | none ↦ capacity
    | some gb ↦
        insert lib.resource_ephemeral_storage (lib.new_quantity (int64 (times 1073741824 gb)))
          capacity
  ]

  unfoldable pub add_resources : List (Text × Q) → List (Text × Q) → List (Text × Q)
  unfolding insert
  add_resources [] capacity = capacity
  add_resources ((name, q) ∷ rs) capacity = add_resources rs (insert name q capacity)

  -- `processVMSSTemplate`: the labels and taints of the spec are preferred to those of the tags.
  unfoldable pub process_vmss_template :
      NodeTemplate → VmssNodeTemplate → Option Text → Bool → Node Q → Outcome (Node Q)
  unfolding add_labels extract_labels_from_tags extract_taints_from_tags
      extract_taints_from_spec_string extract_allocatable_resources
  process_vmss_template t v zone predict node =
      let node_labels =
        lib.join_string_maps (add_labels v.tags node.labels)
          (build_generic_labels t zone node.name) in
      (if is_empty v.input_labels then extract_labels_from_tags v.tags [] else ok v.input_labels)
      >>= (λ labels.
          let labels' = if predict then predict_labels t v node_labels labels else labels in
          extract_allocatable_resources lib.parse_quantity v.tags [] >>= (λ resources.
            (if is_empty v.input_taints
              then extract_taints_from_tags v.tags
              else ok (extract_taints_from_spec_string v.input_taints))
            >>= (λ taints. ok (record {
              name = node.name;
              labels = lib.join_string_maps node_labels labels';
              capacity = add_resources resources (add_storage v.os_disk node.capacity);
              taints = taints;
            }))))

  -- `processVMPoolTemplate`.
  unfoldable pub process_vm_pool_template :
      NodeTemplate → VmPoolNodeTemplate → Option Text → Node Q → Node Q
  unfolding add_labels insert
  process_vm_pool_template t p zone node =
      let labels =
        insert (codes "kubernetes.azure.com/agentpool") p.agent_pool_name
          (build_generic_labels t zone node.name) in
      record node {
        labels = lib.join_string_maps node.labels (add_labels (deref p.labels []) labels);
        taints = p.taints;
      }

  -- The resources of a node before its template is processed.
  unfoldable pub base_capacity : Text → InstanceType → List (Text × Q)
  unfolding insert is_np_series
  base_capacity sku_name i =
      let gpus =
        if is_np_series sku_name
        then codes "xilinx.com/fpga-xilinx_u250_gen3x16_xdma_shell_2_1-0"
        else lib.resource_nvidia_gpu in
      insert lib.resource_memory (lib.new_quantity (int64 (times 1048576 i.memory_mb))) (
        insert gpus (lib.new_quantity i.gpu) (
          insert lib.resource_cpu (lib.new_quantity i.vcpu)
            (insert lib.resource_pods (lib.new_quantity (pos 110)) [])))

  -- `buildNodeFromTemplate`, with the name and the zone that are picked at random.
  unfoldable pub build_node_from_template :
      Text → Option Text → NodeTemplate → Bool → Bool → Outcome (Node Q)
  build_node_from_template node_name zone template dynamic predict =
      instance_type dynamic template >>= (λ i.
        let t = record template { architecture = i.architecture } in
        let node : Node Q = record {
          name = node_name;
          labels = [];
          capacity = base_capacity t.sku_name i;
          taints = [];
        } in
        elim t.pool [
          | none ↦ err template_missing
          | some (of_vmss v) ↦ process_vmss_template t v zone predict node
          | some (of_vm_pool p) ↦ ok (process_vm_pool_template t p zone node)
        ])
