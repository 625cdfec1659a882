-- ===== src/Cache/Regenerate.antt =====
-- `regenerate` of azure_cache.go: the refresh of the whole cache.
use cluster_autoscaler_provi.Base.{ℕ, Option, none, some, List, [], ◌∷◌, if◌then◌else◌, is_empty}
use cluster_autoscaler_provi.Base.Maps.{insert}
use cluster_autoscaler_provi.Base.Text.{Text, codes, to_lower, strip_prefix, has_prefix}
use cluster_autoscaler_provi.Cache.Fetch.{Listing, fetch_azure_resources}
use cluster_autoscaler_provi.Cache.{AzureCache}
use cluster_autoscaler_provi.Errors.{Outcome, ok, err, panic, ◌>>=◌, then_run}
use cluster_autoscaler_provi.Types.{Tags, Vmss, Instance, InstanceState, NodeGroup}

-- `nodeOptionsTagName`.
abbrev pub node_options_tag_name : Text
node_options_tag_name = codes "k8s.io_cluster-autoscaler_node-template_autoscaling-options_"

-- The text up to the first occurrence of a separator: a part of `strings.Split`.
unfoldable pub before : Text → Text → Text
unfolding has_prefix
before sep [] = []
before sep (c ∷ s) = let rest = before sep s in if has_prefix (c ∷ s) sep then [] else c ∷ rest

-- The option that a tag names: what follows the prefix, up to its next occurrence.
unfoldable pub option_name : Text → Option Text
unfolding strip_prefix before
option_name tag_name = elim (strip_prefix node_options_tag_name tag_name) [
  | none ↦ none
  | some rest ↦
      let name = before node_options_tag_name rest in if is_empty name then none else some name
]

unfoldable pub extract_autoscaling_options_from_scale_set_tags :
    Tags → List (Text × Text) → List (Text × Text)
unfolding option_name insert
extract_autoscaling_options_from_scale_set_tags [] options = options
extract_autoscaling_options_from_scale_set_tags ((tag_name, value) ∷ tags) options =
    extract_autoscaling_options_from_scale_set_tags tags (elim (option_name tag_name) [
      | none ↦ options
      | some name ↦ elim value [ none ↦ options | some v ↦ insert name (to_lower v) options ]
    ])

-- The new maps from instances to groups and to states.
abbrev pub InstanceMaps : Type 0
InstanceMaps = List (Text × NodeGroup) × List (Text × InstanceState)

-- An instance with no status gets no state.
abbrev pub add_state : Instance → List (Text × InstanceState) → List (Text × InstanceState)
add_state i states = elim i.status [ none ↦ states | some status ↦ insert i.id status.state states ]

-- The inner loop, over the instances of one group.
unfoldable pub add_instances : NodeGroup → List Instance → InstanceMaps → InstanceMaps
unfolding insert
add_instances g [] maps = maps
add_instances g (i ∷ is) (groups, states) =
    add_instances g is (insert i.id g groups, add_state i states)

-- The loop over the groups. `nodes` is what each group's `Nodes` answers in this refresh.
unfoldable pub collect_instances :
    (NodeGroup → Outcome (List Instance)) → List NodeGroup → InstanceMaps → Outcome InstanceMaps
unfolding add_instances
collect_instances nodes [] maps = ok maps
collect_instances nodes (g ∷ gs) maps =
    nodes g >>= λ is. collect_instances nodes gs (add_instances g is maps)

-- The loop over the scale sets: each object's name gets the options of its tags.
unfoldable pub collect_options :
    (ℕ → Vmss)
    → List (Text × ℕ)
    → List (Text × List (Text × Text))
    → List (Text × List (Text × Text))
unfolding extract_autoscaling_options_from_scale_set_tags insert
collect_options h [] options = options
collect_options h ((key, p) ∷ m) options =
    collect_options h m
      (insert (h p).name (extract_autoscaling_options_from_scale_set_tags (h p).tags []) options)

-- The last part of `regenerate`: every map is replaced at once, or none.
unfoldable pub replace_maps :
    (NodeGroup → Outcome (List Instance)) → AzureCache → Outcome (Unit {0}) × AzureCache
unfolding collect_instances collect_options
replace_maps nodes c = elim (collect_instances nodes c.registered_node_groups ([], [])) [
  | err e ↦ (err e, c)
  | panic ↦ (panic, c)
  | ok maps ↦ (
    ok tt,
    record c {
      instance_to_node_group = maps.0;
      instance_states = maps.1;
      autoscaling_options = collect_options c.heap c.scale_sets [];
      unowned_instances = [];
    },
  )
]

unfoldable pub regenerate :
    Listing → (NodeGroup → Outcome (List Instance)) → AzureCache → Outcome (Unit {0}) × AzureCache
unfolding fetch_azure_resources replace_maps
regenerate l nodes c = then_run (fetch_azure_resources l c) (λ _. replace_maps nodes)
