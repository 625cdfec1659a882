-- ===== src/Template/Nodes.antt =====
-- The data of the templates of azure_template.go, and the maps of labels that they carry.
use cluster_autoscaler_provi.Base.Int.{ℤ}
use cluster_autoscaler_provi.Base.Maps.{insert, lookup}
use cluster_autoscaler_provi.Base.Text.{Text, codes, to_lower, has_prefix}
use cluster_autoscaler_provi.Base.{
  ℕ, zero, suc, Bool, true, false, Option, none, some, List, [], ◌∷◌, ◌++◌, if◌then◌else◌, is_empty,
  deref,
}
use cluster_autoscaler_provi.Errors.{Reply, ApiError}
use cluster_autoscaler_provi.Template.{Taint, Labels}
use cluster_autoscaler_provi.Types.{Tags, TemplateDisk}

pub record VmPoolNodeTemplate : Type 0 where
  pub agent_pool_name : Text
  pub taints : List Taint
  pub labels : Option Tags
  pub os_disk_type : Option Text

pub record VmssNodeTemplate : Type 0 where
  pub input_labels : Labels
  pub input_taints : Text
  pub tags : Tags
  pub os_disk : Option TemplateDisk

pub data PoolTemplate : Type 0 where
  of_vmss : VmssNodeTemplate → PoolTemplate
  of_vm_pool : VmPoolNodeTemplate → PoolTemplate

-- `NodeTemplate`; it has one of the two templates, or none.
pub record NodeTemplate : Type 0 where
  pub sku_name : Text
  pub architecture : Text
  pub instance_os : Text
  pub location : Text
  pub zones : List Text
  pub pool : Option PoolTemplate

pub record InstanceType : Type 0 where
  pub vcpu : ℤ
  pub memory_mb : ℤ
  pub gpu : ℤ
  pub architecture : Text

-- apiv1.Node, as far as it is set: the capacity is the allocatable map too.
pub record Node (Q : Type 0) : Type 0 where
  pub name : Text
  pub labels : Labels
  pub capacity : List (Text × Q)
  pub taints : List Taint

-- What is not part of the repository: the names of the labels and resources of Kubernetes, the
-- defaults of the autoscaler, `JoinStringMaps`, quantities of type Q with `resource.NewQuantity` and
-- `resource.ParseQuantity`, and the SKU API: what it finds of a SKU, of type S, at a location, its
-- capabilities (`gpus` fails with `is_missing` where the SKU has no GPU), with the memory in whole
-- GB. The table of `InstanceTypes` is generated.
pub record Library (Q S : Type 0) : Type 0 where
  pub label_arch : Text
  pub label_arch_stable : Text
  pub label_os : Text
  pub label_os_stable : Text
  pub label_instance_type : Text
  pub label_instance_type_stable : Text
  pub label_zone_region : Text
  pub label_topology_region : Text
  pub label_zone_failure_domain : Text
  pub label_topology_zone : Text
  pub label_hostname : Text
  pub resource_pods : Text
  pub resource_cpu : Text
  pub resource_memory : Text
  pub resource_ephemeral_storage : Text
  pub resource_nvidia_gpu : Text
  pub default_os : Text
  pub default_arch : Text
  pub join_string_maps : Labels → Labels → Labels
  pub new_quantity : ℤ → Q
  pub parse_quantity : Text → Option Q
  pub sku_at : Text → Text → Reply S
  pub vcpu : S → Reply ℤ
  pub gpus : S → Reply ℤ
  pub is_missing : ApiError → Bool
  pub memory_gb : S → Reply ℤ
  pub cpu_architecture : S → Reply Text
  pub instance_types : List (Text × InstanceType)

-- The zones that are not nil.
unfoldable pub zones_of : List (Option Text) → List Text
zones_of [] = []
zones_of (none ∷ zs) = zones_of zs
zones_of (some z ∷ zs) = z ∷ zones_of zs

-- The taints that are not nil or empty.
unfoldable pub taint_texts : List (Option Text) → List Text
taint_texts [] = []
taint_texts (t ∷ ts) =
    let rest = taint_texts ts in if is_empty (deref t []) then rest else deref t [] ∷ rest

-- `strings.Join(parts, ",")`.
unfoldable pub join_commas : List Text → Text
join_commas [] = []
join_commas (p ∷ []) = p
join_commas (p ∷ q ∷ ps) = p ++ (b',' ∷ join_commas (q ∷ ps))

-- The labels of the agent pool with those of the spec on top.
unfoldable pub with_spec_labels : Option Tags → Labels → Option Tags
unfolding insert
with_spec_labels labels [] = labels
with_spec_labels labels ((k, v) ∷ spec) =
    with_spec_labels (some (insert k (some v) (deref labels []))) spec

unfoldable pub add_labels : Tags → Labels → Labels
unfolding insert
add_labels [] labels = labels
add_labels ((k, v) ∷ tags) labels = add_labels tags (insert k (deref v []) labels)

-- `promoRe.ReplaceAllString(s, "")` for (?i)_promo: the bytes of a match that are left to skip come
-- first.
unfoldable pub remove_promo : ℕ → Text → Text
unfolding has_prefix
remove_promo k [] = []
remove_promo (suc k) (c ∷ s) = remove_promo k s
remove_promo zero (c ∷ s) = elim (has_prefix (to_lower (c ∷ s)) (codes "_promo")) [
  | true ↦ remove_promo 5 s
  | false ↦ c ∷ remove_promo 0 s
]

-- `labels[key] = value`, one after the other.
unfoldable pub set_labels : Labels → Labels → Labels
unfolding insert
set_labels [] labels = labels
set_labels ((k, v) ∷ new) labels = set_labels new (insert k v labels)

-- `node.Labels[key]`.
abbrev pub label : Text → Labels → Text
label key labels = deref (lookup key labels) []
