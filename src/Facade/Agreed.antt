-- ===== src/Facade/Agreed.antt =====
-- `NodeGroupForNode` and `HasInstance` of azure_cloud_provider.go, on one node.
use mathlib.Core.List.{Memᴰ}
use cluster_autoscaler_provi.Base.Text.{Text, eq_fold, eq_fold_trans}
use cluster_autoscaler_provi.ResourceId.Fold.{convert-eq_fold}
use cluster_autoscaler_provi.Cache.Lookup.{find_entry_sound}
use cluster_autoscaler_provi.Base.{
  ◌≡◌, true, false, not, Bool, Option, none, some, arith, inl, inr, Option-cases,
}
use cluster_autoscaler_provi.Base.Maps.{lookup}
use cluster_autoscaler_provi.Cache.{
  find_entry, get_instance_from_cache, has_instance, find_for_instance,
}
use cluster_autoscaler_provi.Errors.{ok, Outcome-cases}
use cluster_autoscaler_provi.Facade.{Node, node_group_for_node, node_has_instance}
use cluster_autoscaler_provi.Manager.{Manager, get_node_group_for_instance}
use cluster_autoscaler_provi.ResourceId.{convert_resource_group_name_to_lower}
use cluster_autoscaler_provi.Types.{InstanceState, is_deleting, NodeGroup}

-- Whether an instance's state, where one is known, is that it is being deleted.
abbrev pub is_marked_deleting : Option InstanceState → Bool
is_marked_deleting none = false
is_marked_deleting (some s) = is_deleting s

-- A node that NodeGroupForNode gives a group belongs to a cached instance of that group, whose key
-- is the node's ProviderID but for the case of letters, and HasInstance of the node answers by the
-- state of that instance: that there is none if it is being deleted, and else that there is one.
pub node_has_instance-node_group_for_node :
    (node : Node) (m : Manager) (g : NodeGroup)
    → (node_group_for_node node m).0 ≡ ok (some g)
    → (key : Text) × Memᴰ (key, g) m.cache.instance_to_node_group
      × (eq_fold key node.provider_id ≡ true)
      × (node_has_instance node m
          ≡ ok (not (is_marked_deleting (lookup key m.cache.instance_states))))
unfolding node_group_for_node node_has_instance get_node_group_for_instance find_for_instance
    has_instance get_instance_from_cache
node_has_instance-node_group_for_node node m g h =
    elim (Outcome-cases (convert_resource_group_name_to_lower node.provider_id)) [
      | inl (r, e) ↦ elim (Option-cases (find_entry r m.cache.instance_to_node_group)) [
        | inl e' ↦ absurd (ground (arith, h, e, e'))
        | inr (entry, e') ↦
            let (mem, fold) = find_entry_sound r m.cache.instance_to_node_group entry e' in
            let same : entry.1 ≡ g = ground (arith, h, e, e') in
            (
              entry.0,
              rw (← same) mem,
              rw (← eq_fold_trans r node.provider_id entry.0 (convert-eq_fold node.provider_id r e))
                  at fold,
              ground (arith, h, e, e'),
            )
      ]
      | inr e ↦ absurd (ground (arith, h, e))
    ]
