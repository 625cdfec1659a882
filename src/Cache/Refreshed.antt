-- ===== src/Cache/Refreshed.antt =====
-- The maps from instances to node groups across `regenerate` of azure_cache.go.
use cluster_autoscaler_provi.Base.{
  ◌≡◌, refl, ap, ◌∙◌, Bool, false, Option, none, some, List, [], ◌∷◌, arith, any, if◌then◌else◌,
  inl, inr,
}
use cluster_autoscaler_provi.Base.Maps.{lookup, insert, lookup-insert}
use cluster_autoscaler_provi.Base.Text.{Text, text_eq}
use cluster_autoscaler_provi.Cache.Fetch.{
  Listing, fetch_pools_into, fetch_azure_resources, store_scale_sets,
}
use cluster_autoscaler_provi.Cache.Regenerate.{
  InstanceMaps, add_state, add_instances, collect_instances, replace_maps, regenerate,
}
use cluster_autoscaler_provi.Cache.{AzureCache, set_scale_set}
use cluster_autoscaler_provi.Errors.{Outcome, ok, err, panic, is_ok, then_run, Outcome-cases}
use cluster_autoscaler_provi.Types.{Vmss, Instance, NodeGroup}

abbrev pub has_id : Text → Instance → Bool
has_id id i = text_eq i.id id

-- The group that owns an instance: the last of the groups whose `Nodes` lists it, or a default.
abbrev pub owner :
    Text
    → (NodeGroup → Outcome (List Instance))
    → List NodeGroup
    → Option NodeGroup
    → Option NodeGroup
owner id nodes [] d = d
owner id nodes (g ∷ gs) d =
    owner id nodes gs
      (elim (nodes g) [ ok is ↦ if any (has_id id) is then some g else d | err e ↦ d | panic ↦ d ])

lookup-add_instances :
    (id : Text) (g : NodeGroup) (is : List Instance) (maps : InstanceMaps)
    → lookup id (add_instances g is maps).0
      ≡ (if any (has_id id) is then some g else lookup id maps.0)
unfolding add_instances
lookup-add_instances id g [] (groups, states) = refl
lookup-add_instances id g (i ∷ is) (groups, states) = ground (
  arith,
  lookup-add_instances id g is (insert i.id g groups, add_state i states),
  lookup-insert i.id id g groups,
)

lookup-collect_instances :
    (id : Text) (nodes : NodeGroup → Outcome (List Instance)) (gs : List NodeGroup)
    (maps out : InstanceMaps)
    → collect_instances nodes gs maps ≡ ok out
    → lookup id out.0 ≡ owner id nodes gs (lookup id maps.0)
unfolding collect_instances
lookup-collect_instances id nodes [] maps out h = ground arith
lookup-collect_instances id nodes (g ∷ gs) maps out h = elim (Outcome-cases (nodes g)) [
  | inr e ↦ absurd (ground arith)
  | inl (is, e) ↦ rw e (
      lookup-collect_instances id nodes gs (add_instances g is maps) out (ground arith)
      ∙ ap (owner id nodes gs) (lookup-add_instances id g is maps))
]

-- What a refresh keeps until it replaces it whole.
pub record SameMaps (c c' : AzureCache) : Type 0 where
  pub same_groups : c'.instance_to_node_group ≡ c.instance_to_node_group
  pub same_states : c'.instance_states ≡ c.instance_states
  pub same_options : c'.autoscaling_options ≡ c.autoscaling_options
  pub same_unowned : c'.unowned_instances ≡ c.unowned_instances
  pub same_registered : c'.registered_node_groups ≡ c.registered_node_groups

SameMaps-store_scale_sets : (vs : List Vmss) (c : AzureCache) → SameMaps c (store_scale_sets vs c)
unfolding store_scale_sets
SameMaps-store_scale_sets [] c = ground arith
SameMaps-store_scale_sets (v ∷ vs) c =
    ground (arith, SameMaps-store_scale_sets vs (set_scale_set v.name v c))

SameMaps-fetch : (l : Listing) (c : AzureCache) → SameMaps c (fetch_azure_resources l c).1
unfolding fetch_azure_resources fetch_pools_into
SameMaps-fetch l c = elim (Outcome-cases l.vmss_list) [
  | inr e ↦ ground arith
  | inl (vs, e) ↦ ground (arith, SameMaps-store_scale_sets vs (record c { scale_sets = [] }))
]

-- The last part of a refresh, whatever the first part gave.
abbrev run_replace :
    (NodeGroup → Outcome (List Instance))
    → Outcome (Unit {0}) × AzureCache
    → Outcome (Unit {0}) × AzureCache
run_replace nodes r = then_run r (λ _. replace_maps nodes)

run_replace_failed :
    (nodes : NodeGroup → Outcome (List Instance)) (c : AzureCache)
    (r : Outcome (Unit {0}) × AzureCache)
    → SameMaps c r.1
    → is_ok (run_replace nodes r).0 ≡ false
    → SameMaps c (run_replace nodes r).1
unfolding replace_maps
run_replace_failed nodes c (ok tt, c') s h = ground arith
run_replace_failed nodes c (err e, c') s h = s
run_replace_failed nodes c (panic, c') s h = s

run_replace-owner :
    (id : Text) (nodes : NodeGroup → Outcome (List Instance)) (c : AzureCache)
    (r : Outcome (Unit {0}) × AzureCache)
    → SameMaps c r.1
    → (run_replace nodes r).0 ≡ ok tt
    → let c' = (run_replace nodes r).1 in
      (lookup id c'.instance_to_node_group ≡ owner id nodes c.registered_node_groups none)
      × (c'.unowned_instances ≡ [])
      × (c'.registered_node_groups ≡ c.registered_node_groups)
unfolding replace_maps lookup
run_replace-owner id nodes c (ok u, c') s h =
    elim (Outcome-cases (collect_instances nodes c'.registered_node_groups ([], []))) [
      | inr e ↦ absurd (ground arith)
      | inl (out, e) ↦
          let found = lookup-collect_instances id nodes c'.registered_node_groups ([], []) out e in
          (ground (arith, found), ground arith, ground arith)
    ]
run_replace-owner id nodes c (err e, c') s h = absurd (cc)
run_replace-owner id nodes c (panic, c') s h = absurd (cc)

-- A refresh that fails leaves every instance with the group and the state that it had.
pub regenerate_failed :
    (l : Listing) (nodes : NodeGroup → Outcome (List Instance)) (c : AzureCache)
    → is_ok (regenerate l nodes c).0 ≡ false
    → SameMaps c (regenerate l nodes c).1
unfolding regenerate
regenerate_failed l nodes c h =
    run_replace_failed nodes c (fetch_azure_resources l c) (SameMaps-fetch l c) h

-- A refresh that succeeds maps each instance to the last of the registered groups whose `Nodes`
-- lists it, and to none if there is none; it forgets the unowned instances and keeps the
-- registered groups.
pub regenerate-owner :
    (id : Text) (l : Listing) (nodes : NodeGroup → Outcome (List Instance)) (c : AzureCache)
    → (regenerate l nodes c).0 ≡ ok tt
    → let c' = (regenerate l nodes c).1 in
      (lookup id c'.instance_to_node_group ≡ owner id nodes c.registered_node_groups none)
      × (c'.unowned_instances ≡ [])
      × (c'.registered_node_groups ≡ c.registered_node_groups)
unfolding regenerate
regenerate-owner id l nodes c h =
    run_replace-owner id nodes c (fetch_azure_resources l c) (SameMaps-fetch l c) h
