-- ===== src/Examples/Templates.antt =====
-- The node of a scale set's template.
use cluster_autoscaler_provi.Base.Int.{pos}
use cluster_autoscaler_provi.Base.Maps.{insert, lookup}
use cluster_autoscaler_provi.Base.Text.{codes, text_eq, has_prefix, eq_fold, lower}
use cluster_autoscaler_provi.Base.{◌≡◌, refl, false, none, some, [], ◌∷◌}
use cluster_autoscaler_provi.Cache.{find_entry}
use cluster_autoscaler_provi.Errors.{other_error, failure, Outcome, ok, err, panic}
use cluster_autoscaler_provi.Examples.Data.{vmss_a}
use cluster_autoscaler_provi.Examples.Scaling.{world_a}
use cluster_autoscaler_provi.ScaleSet.Templates.{template_node_info, template_node_info-taints}
use cluster_autoscaler_provi.ScaleSet.{World, get_vmss_from_cache}
use cluster_autoscaler_provi.Template.Build.{
  build_node_template_from_vmss, get_instance_type_statically, instance_type, build_generic_labels,
  add_storage, add_resources, process_vmss_template, base_capacity, build_node_from_template,
}
use cluster_autoscaler_provi.Template.Nodes.{Node, Library, zones_of, add_labels, set_labels}
use cluster_autoscaler_provi.Template.{
  Taint, extract_taints_from_tags, extract_labels_from_tags, extract_allocatable_resources,
  second_part, unescape, has_effect, split_colon, is_np_series,
}
use cluster_autoscaler_provi.Types.{Tags}

abbrev library : Library (Unit {0}) (Unit {0})
unfolding set_labels
library = record {
  label_arch = codes "beta.kubernetes.io/arch";
  label_arch_stable = codes "kubernetes.io/arch";
  label_os = codes "beta.kubernetes.io/os";
  label_os_stable = codes "kubernetes.io/os";
  label_instance_type = codes "beta.kubernetes.io/instance-type";
  label_instance_type_stable = codes "node.kubernetes.io/instance-type";
  label_zone_region = codes "failure-domain.beta.kubernetes.io/region";
  label_topology_region = codes "topology.kubernetes.io/region";
  label_zone_failure_domain = codes "failure-domain.beta.kubernetes.io/zone";
  label_topology_zone = codes "topology.kubernetes.io/zone";
  label_hostname = codes "kubernetes.io/hostname";
  resource_pods = codes "pods";
  resource_cpu = codes "cpu";
  resource_memory = codes "memory";
  resource_ephemeral_storage = codes "ephemeral-storage";
  resource_nvidia_gpu = codes "nvidia.com/gpu";
  default_os = codes "linux";
  default_arch = codes "amd64";
  join_string_maps = λ a b. set_labels b a;
  new_quantity = λ n. tt;
  parse_quantity = λ s. none;
  sku_at = λ name location. failure (other_error (codes "none"));
  vcpu = λ s. failure (other_error (codes "none"));
  gpus = λ s. failure (other_error (codes "none"));
  is_missing = λ e. false;
  memory_gb = λ s. failure (other_error (codes "none"));
  cpu_architecture = λ s. failure (other_error (codes "none"));
  instance_types =
      (
        codes "D2",
        record { vcpu = pos 2; memory_mb = pos 8192; gpu = pos 0; architecture = codes "amd64" },
      )
      ∷ [];
}

abbrev tags_a : Tags
tags_a =
    (codes "k8s.io_cluster-autoscaler_node-template_taint_a_b", some (codes "v:NoSchedule")) ∷ []

abbrev tagged : World (Unit {0})
tagged = record world_a {
  cache = record world_a.cache {
    heap = λ p. record vmss_a {
      tags = tags_a;
      sku = some (record { sku_name = some (codes "D2"); tier = none; capacity = some (pos 2) });
    };
  };
}

abbrev taint_ab : Taint
taint_ab = record { key = codes "a/b"; value = codes "v"; effect = codes "NoSchedule" }

abbrev blank : Node (Unit {0})
blank = record { name = []; labels = []; capacity = []; taints = [] }

abbrev node_or_blank : Outcome (Node (Unit {0})) → Node (Unit {0})
node_or_blank (ok n) = n
node_or_blank (err e) = blank
node_or_blank panic = blank

abbrev node_a : Node (Unit {0})
node_a = node_or_blank (template_node_info library (codes "n") none false false tagged)

template_node_info-taints_example : extract_taints_from_tags tags_a ≡ ok (taint_ab ∷ [])
unfolding template_node_info get_vmss_from_cache lookup build_node_template_from_vmss zones_of
    build_node_from_template instance_type get_instance_type_statically find_entry
    process_vmss_template add_labels set_labels insert build_generic_labels extract_labels_from_tags
    extract_taints_from_tags extract_allocatable_resources second_part unescape has_effect
    split_colon is_np_series base_capacity add_storage add_resources text_eq has_prefix eq_fold
    lower
template_node_info-taints_example =
    template_node_info-taints library (codes "n") none false false tagged 0 node_a refl refl
