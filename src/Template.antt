-- ===== src/Template.antt =====
-- pkg/cloudprovider/azure/azure_template.go: the labels, taints and resources that the tags and the
-- spec of a node group give to a node.
pub mod Gpu
pub mod Nodes
pub mod Build
pub mod Taints
pub mod Labels
use cluster_autoscaler_provi.Base.Maps.{insert, member, lookup}
use cluster_autoscaler_provi.Base.Text.{
  Text, codes, strip_prefix, has_prefix, contains, to_lower, split,
}
use cluster_autoscaler_provi.Base.{
  ℕ, zero, suc, ◌-◌, Bool, true, false, ◌||◌, ◌==◌, Option, none, some, List, [], ◌∷◌, ◌++◌,
  if◌then◌else◌, is_empty, length,
}
use cluster_autoscaler_provi.Errors.{Outcome, ok, err, panic, ◌>>=◌}
use cluster_autoscaler_provi.Types.{Tags}

-- apiv1.Taint.
pub record Taint : Type 0 where
  pub key : Text
  pub value : Text
  pub effect : Text

abbrev pub Labels : Type 0
Labels = List (Text × Text)

abbrev pub node_label_tag_name : Text
node_label_tag_name = codes "k8s.io_cluster-autoscaler_node-template_label_"

abbrev pub node_taint_tag_name : Text
node_taint_tag_name = codes "k8s.io_cluster-autoscaler_node-template_taint_"

abbrev pub node_resources_tag_name : Text
node_resources_tag_name = codes "k8s.io_cluster-autoscaler_node-template_resources_"

-- What follows the first occurrence of a separator: the second part of a `strings.Split` starts
-- there.
unfoldable pub after : Text → Text → Option Text
unfolding strip_prefix
after sep [] = strip_prefix sep []
after sep (c ∷ s) = elim (strip_prefix sep (c ∷ s)) [ some rest ↦ some rest | none ↦ after sep s ]

-- The text up to the first occurrence of a separator.
unfoldable pub up_to : Text → Text → Text
unfolding has_prefix
up_to sep [] = []
up_to sep (c ∷ s) = let rest = up_to sep s in if has_prefix (c ∷ s) sep then [] else c ∷ rest

-- `strings.Split(s, sep)[1]`, where there are two parts, for a separator that is not empty.
unfoldable pub second_part : Text → Text → Option Text
unfolding after up_to
second_part sep s = elim (after sep s) [ none ↦ none | some rest ↦ some (up_to sep rest) ]

-- `strings.Replace(s, "_", "/", -1)`.
unfoldable pub underscores_to_slashes : Text → Text
underscores_to_slashes [] = []
underscores_to_slashes (c ∷ s) = (if c == b'_' then b'/' else c) ∷ underscores_to_slashes s

-- `strings.Replace(s, "~2", new, -1)` for a `new` of one byte.
unfoldable pub replace_tilde : ℕ → Text → Text
replace_tilde new [] = []
replace_tilde new (c ∷ []) = c ∷ []
replace_tilde new (c ∷ d ∷ s) =
    let skip = replace_tilde new s in
    let rest = replace_tilde new (d ∷ s) in
    elim (c == b'~') [
      | false ↦ c ∷ rest
      | true ↦ elim (d == b'2') [ true ↦ new ∷ skip | false ↦ c ∷ rest ]
    ]

-- The name of a label or of a taint's key in a tag's name.
unfoldable pub unescape : Text → Text
unfolding underscores_to_slashes replace_tilde
unescape s = replace_tilde b'_' (underscores_to_slashes s)

-- `extractLabelsFromTags`. A tag that names a label and has no value panics.
unfoldable pub extract_labels_from_tags : Tags → Labels → Outcome Labels
unfolding second_part unescape insert
extract_labels_from_tags [] result = ok result
extract_labels_from_tags ((name, value) ∷ tags) result =
    elim (second_part node_label_tag_name name) [
      | none ↦ extract_labels_from_tags tags result
      | some part ↦
          if is_empty (unescape part) then extract_labels_from_tags tags result else elim value [
            | none ↦ panic
            | some v ↦ extract_labels_from_tags tags (insert (unescape part) v result)
          ]
    ]

-- The match of (.*):(?:NoSchedule|NoExecute|PreferNoSchedule) anywhere in a text; the group matches
-- the empty text too.
unfoldable pub has_effect : Text → Bool
unfolding contains
has_effect s =
    contains s (codes ":NoSchedule")
    || contains s (codes ":NoExecute")
    || contains s (codes ":PreferNoSchedule")

-- `strings.SplitN(s, ":", 2)`: both parts; a text with no colon has one, and the second is empty.
unfoldable pub split_colon : Text → Text × Text
split_colon [] = ([], [])
split_colon (c ∷ s) =
    let rest = split_colon s in if c == b':' then ([], s) else (c ∷ rest.0, rest.1)

-- `extractTaintsFromTags`. A tag with no value panics, whatever its name.
unfoldable pub extract_taints_from_tags : Tags → Outcome (List Taint)
unfolding second_part unescape has_effect split_colon
extract_taints_from_tags [] = ok []
extract_taints_from_tags ((name, none) ∷ tags) = panic
extract_taints_from_tags ((name, some v) ∷ tags) = extract_taints_from_tags tags >>= (λ rest.
    if has_effect v
    then elim (second_part node_taint_tag_name name) [
      | none ↦ ok rest
      | some part ↦
          (let values = split_colon v in
            ok (record { key = unescape part; value = values.0; effect = values.1 } ∷ rest))
    ]
    else ok rest)

-- `constructTaintFromString` on the parts between the equality signs.
unfoldable pub taint_of_parts : List Text → Option Taint
unfolding has_effect split_colon
taint_of_parts (key ∷ v ∷ []) =
    if has_effect v
    then (let values = split_colon v in
        some (record { key = key; value = values.0; effect = values.1 }))
    else none
taint_of_parts parts = none

unfoldable pub construct_taint_from_string : Text → Option Taint
unfolding split taint_of_parts
construct_taint_from_string s = taint_of_parts (split b'=' s)

abbrev pub push_taint : Option Taint → List Taint → List Taint
push_taint none ts = ts
push_taint (some t) ts = t ∷ ts

-- The loop of `extractTaintsFromSpecString`, with the texts that it has seen.
unfoldable pub taints_of : List Text → List Text → List Taint
unfolding member construct_taint_from_string
taints_of seen [] = []
taints_of seen (s ∷ ss) =
    let rest = taints_of seen ss in
    let rest' = taints_of (s ∷ seen) ss in
    if member s seen then rest else push_taint (construct_taint_from_string s) rest'

unfoldable pub extract_taints_from_spec_string : Text → List Taint
unfolding split taints_of
extract_taints_from_spec_string s = taints_of [] (split b',' s)

-- `buildNodeTaintsForVMPool`.
unfoldable pub build_node_taints_for_vm_pool : List Text → List Taint
unfolding construct_taint_from_string
build_node_taints_for_vm_pool [] = []
build_node_taints_for_vm_pool (s ∷ ss) =
    push_taint (construct_taint_from_string s) (build_node_taints_for_vm_pool ss)

-- `extractAllocatableResourcesFromScaleSet`, for a `resource.ParseQuantity`: here "~2" stands for a
-- slash. A tag that names a resource and has no value panics.
unfoldable pub extract_allocatable_resources :
    {Q : Type 0} → (Text → Option Q) → Tags → List (Text × Q) → Outcome (List (Text × Q))
unfolding second_part underscores_to_slashes replace_tilde insert
extract_allocatable_resources parse [] resources = ok resources
extract_allocatable_resources parse ((name, value) ∷ tags) resources =
    elim (second_part node_resources_tag_name name) [
      | none ↦ extract_allocatable_resources parse tags resources
      | some part ↦
          if is_empty part then extract_allocatable_resources parse tags resources else elim value [
            | none ↦ panic
            | some v ↦ elim (parse v) [
              | none ↦ extract_allocatable_resources parse tags resources
              | some q ↦
                  extract_allocatable_resources parse tags
                    (insert (replace_tilde b'/' (underscores_to_slashes part)) q resources)
            ]
          ]
    ]

unfoldable pub is_np_series : Text → Bool
unfolding has_prefix
is_np_series name = has_prefix (to_lower name) (codes "standard_np")

-- `getFloat64Option` and `getDurationOption`, for a `strconv.ParseFloat` or a `time.ParseDuration`.
unfoldable pub get_option : {A : Type 0} → (Text → Option A) → List (Text × Text) → Text → Option A
unfolding lookup
get_option parse options name = elim (lookup (to_lower name) options) [
  | none ↦ none
  | some raw ↦ parse raw
]
