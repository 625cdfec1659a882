-- ===== src/ScaleSet/Instances/Found.antt =====
-- `setInstanceStatusByProviderID`, `getInstanceByProviderID` and `getInstancesByState` of
-- azure_scale_set_instance_cache.go on one list of instances.
use cluster_autoscaler_provi.Base.Text.{Text, text_eq, text_eq_iff}
use cluster_autoscaler_provi.Base.{◌≡◌, Option, none, some, List, [], ◌∷◌, arith, if◌then◌else◌}
use cluster_autoscaler_provi.ScaleSet.Instances.{find_instance, set_status}
use cluster_autoscaler_provi.Types.{Instance, InstanceStatus}

-- An instance with its status replaced.
abbrev pub with_status : InstanceStatus → Option Instance → Option Instance
with_status s none = none
with_status s (some i) = some (record i { status = some s })

-- After setInstanceStatusByProviderID has written a status for an identifier,
-- getInstanceByProviderID of that identifier finds the instance that it found before with the new
-- status, or none if it found none, and of any other identifier what it found before.
pub find_instance-set_status :
    (id j : Text) (s : InstanceStatus) (is : List Instance)
    → find_instance j (set_status id s is)
      ≡ (if text_eq id j then with_status s (find_instance j is) else find_instance j is)
unfolding find_instance set_status
find_instance-set_status id j s [] = ground arith
find_instance-set_status id j s (i ∷ is) = ground (
  arith,
  text_eq_iff id j,
  text_eq_iff i.id id,
  text_eq_iff i.id j,
  find_instance-set_status id j s is,
)
