-- ===== src/Lib.antt =====
-- A model of the Azure cloud provider of the cluster autoscaler (pkg/cloudprovider/azure), and the
-- theorems on it.
--
-- The autoscaler asks a cloud provider for its node groups, for the node group of a node, for the
-- size and the instances of a group, and to grow or shrink it. The parts, and their files:
--   Autodiscovery    azure_autodiscovery.go: specs, and the match of a scale set's tags
--   Manager          azure_manager.go: fetchAutoNodeGroups, Refresh, forceRefresh. It registers
--                    the discovered groups in the cache and then regenerates it.
--                    Its child Explicit has fetchExplicitNodeGroups and GetScaleSetOptions.
--   Cache            azure_cache.go: Register, Unregister, FindForInstance, HasInstance; its
--                    children model fetchAzureResources (Fetch) and regenerate (Regenerate)
--   Facade           azure_cloud_provider.go: NodeGroupForNode and HasInstance
--   ScaleSet         azure_scale_set.go: the client and the state; Size has getCurSize and what
--                    reads it, Increase has IncreaseSize, AtomicIncreaseSize and
--                    createOrUpdateInstances with the ETag retry; Instances has
--                    azure_scale_set_instance_cache.go and Nodes; Templates has
--                    TemplateNodeInfo; Deletion has
--                    azure_force_delete_scale_set.go, DeleteInstances and DeleteNodes, and its
--                    child Waiting waitForDeleteInstances
--   AgentPool        azure_agent_pool.go: VM indexes and the cleanup of deployments; Growing has
--                    IncreaseSize, DecreaseTargetSize and Nodes, Deletion has DeleteNodes and
--                    deleteVirtualMachine
--   VmPool           azure_vms_pool.go: sizes and request bodies; Requests has IncreaseSize and
--                    DeleteNodes
--   Status           the instance statuses of azure_scale_set.go and
--                    azure_scale_set_instance_cache.go, the power states of azure_util.go
--   Template         azure_template.go: labels, taints and resources of tags; Nodes has
--                    the data of templates, Build builds them and the nodes of them, with
--                    azure_instance.go; Gpu azure_instance_gpu_sku.go
--   Config           azure_config.go: Table has the environment variables, Build has
--                    BuildAzureConfig and validate
--   Throttling       isAzureRequestsThrottled and parseRetryAfterHeader, of azure_util.go
--   ResourceId       resource identifiers, of azure_util.go and azure_cache.go
--   VmName           the names of VMs, of azure_util.go
--   Types, Errors    the SDK's objects as far as they are read, and results
--   Base             the helpers: integers, texts, maps, strconv.Atoi
--   Examples         runs on concrete inputs
--
-- State is passed explicitly: a method takes a world (the object it belongs to, the cache, the time
-- of the manager's last refresh, Azure, the calls sent so far) and returns a result and the world
-- that it leaves, after an error too. A result is a value, an error or a panic. The VMSS objects
-- live in a store, Cache.AzureCache.heap, since the cache and its callers share and mutate them;
-- a Go map is an association list whose order is that of a range over it. Azure, the clock and
-- sort.Slice are parameters, the fields of a Client record over a state of its own, which may
-- answer anything. A mutex makes a method one step; what a goroutine does later is a function of
-- its own (waitForCreateOrUpdateInstances, waitForDeleteInstances), applied to the pending updates
-- and deletions of the world. All loops
-- are structural recursions on lists, so that no fuel is needed. int and int64 sums wrap at 64
-- bits, and int32 ones at 32; times and durations are unbounded integers, in nanoseconds. Letter
-- case is folded on ASCII letters only.
--
-- Not modelled: the Azure clients, the generated table of VM sizes and the SKU cache; the wiring of
-- createAzureManagerInternal and main.go; the export and the normalisation of an agent pool's
-- template; what the Nodes of the groups change of them while the cache is refreshed, but for the
-- scale set whose deletion failed, whose own Nodes run (ScaleSet.Deletion.Waiting); writes to the
-- maps of labels of a template; contexts and their timeouts; logs.
pub mod Base
pub mod Config
pub mod Errors
pub mod ResourceId
pub mod VmName
pub mod Throttling
pub mod Types
pub mod Cache
pub mod Autodiscovery
pub mod Status
pub mod Template
pub mod ScaleSet
pub mod Manager
pub mod Facade
pub mod AgentPool
pub mod VmPool
pub mod Examples
