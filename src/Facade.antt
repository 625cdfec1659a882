-- ===== src/Facade.antt =====
-- pkg/cloudprovider/azure/azure_cloud_provider.go: the questions about nodes that the autoscaler asks
-- the provider.
pub mod Agreed
use cluster_autoscaler_provi.Base.Text.{Text, has_prefix}
use cluster_autoscaler_provi.Base.{
  Bool, true, false, not, Option, none, some, List, [], ◌∷◌, if◌then◌else◌, is_empty,
}
use cluster_autoscaler_provi.Cache.{has_instance}
use cluster_autoscaler_provi.Errors.{Outcome, ok, err, provider_id_empty, provider_id_invalid}
use cluster_autoscaler_provi.Manager.{Manager, get_node_group_for_instance}
use cluster_autoscaler_provi.ResourceId.{azure_prefix}
use cluster_autoscaler_provi.Types.{NodeGroup}

-- A Node: its name and its ProviderID.
pub record Node : Type 0 where
  pub name : Text
  pub provider_id : Text

-- `NodeGroups`.
unfoldable pub node_groups : Manager → List NodeGroup
node_groups m = m.cache.registered_node_groups

-- `NodeGroupForNode`: a node with another kind of ProviderID, or with none, has no group.
unfoldable pub node_group_for_node : Node → Manager → Outcome (Option NodeGroup) × Manager
unfolding has_prefix
node_group_for_node node m =
    if is_empty node.provider_id
    then (ok none, m)
    else if not (has_prefix node.provider_id azure_prefix)
    then (ok none, m)
    else get_node_group_for_instance node.provider_id m

-- `HasInstance`.
unfoldable pub node_has_instance : Node → Manager → Outcome Bool
unfolding has_prefix
node_has_instance node m =
    if is_empty node.provider_id
    then err (provider_id_empty node.name)
    else if not (has_prefix node.provider_id azure_prefix)
    then err (provider_id_invalid node.name)
    else has_instance node.provider_id m.cache
