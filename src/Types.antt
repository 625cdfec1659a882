-- ===== src/Types.antt =====
-- The objects of the Azure SDK and of the autoscaler's cloudprovider package, with the fields that
-- the provider reads. A Go pointer that may be nil is an `Option`; where every reader tests a whole
-- chain of pointers the chain is one `Option`.
use cluster_autoscaler_provi.Base.{Bool, Option, List}
use cluster_autoscaler_provi.Base.Int.{ℤ}
use cluster_autoscaler_provi.Base.Text.{Text}

abbrev pub Tags : Type 0
Tags = List (Text × Option Text)

-- armcompute.OrchestrationMode.
pub data OrchestrationMode : Type 0 where
  uniform flexible : OrchestrationMode

-- The VM priority: spot, or any other.
pub data Priority : Type 0 where
  spot regular : Priority

-- armcompute.SKU.
pub record Sku : Type 0 where
  pub sku_name : Option Text
  pub tier : Option Text
  pub capacity : Option ℤ

-- armcompute.VirtualMachineScaleSetOSDisk: whether DiffDiskSettings has the option Local, the
-- storage account type of the managed disk, and the size.
pub record TemplateDisk : Type 0 where
  pub diff_disk_local : Bool
  pub storage_account_type : Option Text
  pub disk_size_gb : Option ℤ

-- armcompute.VirtualMachineScaleSet. Azure always returns its name.
pub record Vmss : Type 0 where
  pub name : Text
  pub id : Option Text
  pub location : Option Text
  pub extended_location : Option Text
  pub tags : Tags
  pub sku : Option Sku
  pub orchestration_mode : Option OrchestrationMode
  pub priority : Option Priority
  pub host_group : Option Text
  pub etag : Option Text
  pub zones : List (Option Text)
  pub windows_configuration : Bool
  pub template_disk : Option TemplateDisk

-- armcompute.OSDisk: OSType, Vhd with its URI, whether ManagedDisk is set, Name.
pub record OsDisk : Type 0 where
  pub os_type : Option Text
  pub vhd : Option (Option Text)
  pub managed_disk : Bool
  pub disk_name : Option Text

-- armcompute.VirtualMachineProperties. The first network interface is there or not, and has an
-- ID or none.
pub record VmProperties : Type 0 where
  pub provisioning_state : Option Text
  pub vm_size : Option Text
  pub os_disk : Option OsDisk
  pub statuses : Option (List (Option Text))
  pub first_nic : Option (Option Text)

-- armcompute.VirtualMachine.
pub record Vm : Type 0 where
  pub name : Text
  pub id : Option Text
  pub tags : Option Tags
  pub properties : Option VmProperties

-- armcontainerservice.AgentPoolType.
pub data AgentPoolType : Type 0 where
  virtual_machines other_type : AgentPoolType

-- armcontainerservice.ManualScaleProfile and VirtualMachineNodes: a size and a count.
pub record SizeCount : Type 0 where
  pub size : Option Text
  pub count : Option ℤ

pub record AgentPoolProperties : Type 0 where
  pub pool_type : Option AgentPoolType
  pub mode : Option Text
  pub scale_set_priority : Option Text
  pub manual : List (Option SizeCount)
  pub autoscale : Bool
  pub nodes_status : List (Option SizeCount)
  pub node_labels : Option Tags
  pub node_taints : List (Option Text)
  pub availability_zones : List (Option Text)
  pub os_type : Option Text
  pub os_disk_type : Option Text

-- armcontainerservice.AgentPool.
pub record AksPool : Type 0 where
  pub name : Option Text
  pub properties : Option AgentPoolProperties

-- cloudprovider.InstanceState.
pub data InstanceState : Type 0 where
  running creating deleting : InstanceState

abbrev pub is_deleting : InstanceState → Bool
is_deleting deleting = Bool.true
is_deleting _ = Bool.false

-- cloudprovider.InstanceErrorClass.
pub data ErrorClass : Type 0 where
  out_of_resources other_class : ErrorClass

pub record ErrorInfo : Type 0 where
  pub error_class : ErrorClass
  pub error_code : Text
  pub error_message : Text

pub record InstanceStatus : Type 0 where
  pub state : InstanceState
  pub error_info : Option ErrorInfo

pub record Instance : Type 0 where
  pub id : Text
  pub status : Option InstanceStatus

-- config.VMType: consts.VMTypeVMSS, consts.VMTypeStandard or another text.
pub data VmType : Type 0 where
  vmss_type standard_type : VmType
  other_vm_type : Text → VmType

-- Which of the three implementations of cloudprovider.NodeGroup a group is.
pub data GroupKind : Type 0 where
  scale_set agent_pool vm_pool : GroupKind

abbrev pub is_scale_set : GroupKind → Bool
is_scale_set scale_set = Bool.true
is_scale_set _ = Bool.false

-- A cloudprovider.NodeGroup as the cache and the manager see it: Id, MinSize and MaxSize, and what
-- NewScaleSet is given besides.
pub record NodeGroup : Type 0 where
  pub kind : GroupKind
  pub id : Text
  pub min_size : ℤ
  pub max_size : ℤ
  pub cur_size : ℤ
  pub dedicated_host : Bool
